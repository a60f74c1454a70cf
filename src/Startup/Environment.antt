-- ===== src/Startup/Environment.antt =====
-- Which environments have the images.
use mathlib.Core.List.{Memᴰ}
use llm_d_batch_gateway_oper.Prelude.{
  String, ◌≡◌, ◌≢◌, refl, sym, ap, ◌∙◌, ◌↔◌, ◌⊎◌, inl, inr, List, [], ◌∷◌, All, eq_iff,
  String-cases, ne_of_false, mem-cons_cases,
}
use llm_d_batch_gateway_oper.Controller.Errors.{ok, err}
use llm_d_batch_gateway_oper.Startup.{
  Getenv, required_images, missing_images, images_from, images_unless, component_images_from_env,
}

missing_images_iff :
    (getenv : Getenv) (es : List String) (e : String)
    → Memᴰ e (missing_images getenv es) ↔ (Memᴰ e es × (getenv e ≡ ""))
unfolding missing_images
missing_images_iff getenv [] e = ((λ m. elim m [ ]), λ h. elim h.0 [ ])
missing_images_iff getenv (first ∷ es) e =
    let (there, back) = missing_images_iff getenv es e in
    elim (String-cases (getenv first) "") [
      | inl p ↦ rw ((eq_iff (getenv first) "").1 p) (
        (λ m. elim (mem-cons_cases e first _ m) [
          | inl q ↦ (Memᴰ.head q, ap getenv q ∙ p)
          | inr n ↦ (Memᴰ.tail (there n).0, (there n).1)
        ]),
        λ h. elim (mem-cons_cases e first es h.0) [
          | inl q ↦ Memᴰ.head q
          | inr n ↦ Memᴰ.tail (back (n, h.1))
        ],
      )
      | inr n ↦ rw n (
        (λ m. (Memᴰ.tail (there m).0, (there m).1)),
        λ h. elim (mem-cons_cases e first es h.0) [
          | inl q ↦ absurd (ne_of_false _ _ n (ap getenv (sym q) ∙ h.1))
          | inr k ↦ back (k, h.1)
        ],
      )
    ]

missing_images-nil :
    (getenv : Getenv) (es : List String)
    → missing_images getenv es ≡ []
    → All (λ e. getenv e ≢ "") es
unfolding missing_images
missing_images-nil getenv [] h = tt
missing_images-nil getenv (e ∷ es) h = elim (String-cases (getenv e) "") [
  | inl p ↦ absurd (cc (rw ((eq_iff (getenv e) "").1 p) at h))
  | inr n ↦ (ne_of_false _ _ n, missing_images-nil getenv es (rw n at h))
]

-- The variables that are missing decide.
outcome_for :
    (getenv : Getenv) (es : List String)
    → ((es ≡ []) × (images_unless getenv es ≡ ok (images_from getenv)))
      ⊎ ((es ≢ []) × (images_unless getenv es ≡ err es))
outcome_for getenv [] = inl (refl, refl)
outcome_for getenv (e ∷ es) = inr ((λ h. absurd (cc)), refl)

-- `componentImagesFromEnv` returns the four variables' values, none of them empty, or, if some of the
-- required variables are empty or not set, an error that lists exactly those.
pub images_from_env_outcome :
    (getenv : Getenv)
    → ((component_images_from_env getenv ≡ ok (images_from getenv))
        × All (λ e. getenv e ≢ "") required_images)
      ⊎ ((missing : List String) × (component_images_from_env getenv ≡ err missing)
          × (missing ≢ [])
          × ((e : String) → Memᴰ e missing ↔ (Memᴰ e required_images × (getenv e ≡ ""))))
unfolding component_images_from_env
images_from_env_outcome getenv =
    let missing = missing_images getenv required_images in
    elim (outcome_for getenv missing) [
      | inl (e, same) ↦ inl (same, missing_images-nil getenv required_images e)
      | inr (n, same) ↦ inr (missing, same, n, missing_images_iff getenv required_images)
    ]
