-- ===== src/Helm/Images.antt =====
-- `splitImage`: an image reference into repository and tag.
use Prim.Native.Char.{Char, code}
use Prim.Native.String.{◌++◌}
use text.Mathlib.TextEquality.{Char-path}
use text.Mathlib.TextLemmas.{nil-append, cons-append}
use llm_d_batch_gateway_oper.Prelude.{
  ℕ, String, ◌≡◌, refl, sym, ap, ◌∙◌, ◌⊎◌, inl, inr, Option, none, some, Bool, true, false, ◌||◌,
  if◌then◌else◌, arith, Bool-cases, Option-cases,
}
use Prim.Native.Nat.{compare, Ordering}

abbrev pub is_char : ℕ → Char → Bool
is_char n c = elim (compare (code c) n) [ Ordering.eq ↦ true | _ ↦ false ]

-- `strings.LastIndex(image, ":")`, with the parts before and after the colon.
last_colon : String → Option (String × String)
last_colon String.[] = none
last_colon (String.◌∷◌ c s) = elim (last_colon s) [
  | some (before, after) ↦ some (String.◌∷◌ c before, after)
  | none ↦ if is_char b':' c then some ("", s) else none
]

unfoldable pub contains_char : ℕ → String → Bool
contains_char n String.[] = false
contains_char n (String.◌∷◌ c s) = is_char n c || contains_char n s

or_latest : String → Option (String × String) → String × String
unfolding contains_char
or_latest image none = (image, "latest")
or_latest image (some (repo, tag)) =
    if contains_char b'/' tag then (image, "latest") else (repo, tag)

unfoldable pub split_image : String → String × String
unfolding last_colon or_latest
split_image image = or_latest image (last_colon image)

-- Neither a colon nor a slash.
abbrev pub IsTag : String → Type 0
IsTag t = (contains_char b':' t ≡ false) × (contains_char b'/' t ≡ false)

last_colon-none : (s : String) → last_colon s ≡ none → contains_char b':' s ≡ false
unfolding last_colon contains_char
last_colon-none String.[] h = refl
last_colon-none (String.◌∷◌ c s) h = ground (arith, last_colon-none s)

-- A text without a colon, and nothing else, has no last colon.
none-last_colon : (s : String) → contains_char b':' s ≡ false → last_colon s ≡ none
unfolding last_colon contains_char
none-last_colon String.[] h = refl
none-last_colon (String.◌∷◌ c s) h = ground (arith, none-last_colon s)

colon-append : (t : String) → ":" ++ t ≡ String.◌∷◌ ":" t
colon-append t = cons-append ":" "" t ∙ ap (String.◌∷◌ ":") (nil-append t)

last_colon-append :
    (r t : String) → contains_char b':' t ≡ false → last_colon (r ++ (":" ++ t)) ≡ some (r, t)
unfolding last_colon contains_char
last_colon-append String.[] t h = rw (nil-append, colon-append, none-last_colon t h, last_colon)
last_colon-append (String.◌∷◌ c r) t h = rw (cons-append, last_colon-append r t h, last_colon)

-- The reference falls apart at this colon, and no other follows.
abbrev SplitsAt : String → String → String → Type 0
SplitsAt s r t = (r ++ (":" ++ t) ≡ s) × (contains_char b':' t ≡ false)

-- One character in front of a text with a last colon.
SplitsAt-cons :
    (c : Char) (s b a r t : String)
    → SplitsAt s b a
    → ◌≡◌ {A = Option (String × String)} (some (String.◌∷◌ c b, a)) (some (r, t))
    → SplitsAt (String.◌∷◌ c s) r t
SplitsAt-cons c s b a r t h e =
    let front : r ≡ String.◌∷◌ c b = cc e in
    let back : t ≡ a = cc e in
    rw (front, back) (cons-append c b (":" ++ a) ∙ ap (String.◌∷◌ c) h.0, h.1)

-- The colon itself, in front of a text without one.
SplitsAt-colon :
    (c : Char) (s r t : String)
    → contains_char b':' s ≡ false
    → is_char b':' c ≡ true
    → ◌≡◌ {A = Option (String × String)} (some ("", s)) (some (r, t))
    → SplitsAt (String.◌∷◌ c s) r t
SplitsAt-colon c s r t fresh is e =
    let front : r ≡ "" = cc e in
    let back : t ≡ s = cc e in
    let same : code c ≡ code ":" = ground arith in
    rw (front, back)
      (
        nil-append (":" ++ s)
            ∙ colon-append s
            ∙ ap (λ d. String.◌∷◌ d s) (sym (Char-path c ":" same)),
        fresh,
      )

last_colon-some : (s r t : String) → last_colon s ≡ some (r, t) → SplitsAt s r t
unfolding last_colon
last_colon-some String.[] r t h = absurd (cc)
last_colon-some (String.◌∷◌ c s) r t h = elim (Option-cases (last_colon s)) [
  | inl e ↦ elim (Bool-cases (is_char b':' c)) [
    | inl is ↦ SplitsAt-colon c s r t (last_colon-none s e) is (rw (last_colon, e, is) at h)
    | inr isnt ↦ absurd (cc (rw (last_colon, e, isnt) at h))
  ]
  | inr ((b, a), e) ↦ SplitsAt-cons c s b a r t (last_colon-some s b a e) (rw (last_colon, e) at h)
]

-- `splitImage` returns the unique parts around the last colon if what follows it is a tag, that
-- is, has neither a colon nor a slash; else the whole reference and "latest". So joining the parts
-- by a colon, as the chart does, gives the reference back, and a port of a registry is no tag.
pub split_image_lem :
    (image : String)
    → ((repo : String) × (tag : String) × (repo ++ (":" ++ tag) ≡ image)
        × IsTag tag
        × (split_image image ≡ (repo, tag)))
      ⊎ (((repo tag : String) → repo ++ (":" ++ tag) ≡ image → ¬ IsTag tag)
          × (split_image image ≡ (image, "latest")))
unfolding split_image
split_image_lem image = elim (Option-cases (last_colon image)) [
  | inl e ↦
      inr (
        (λ r t p k. cc (ap last_colon (sym p), last_colon-append r t k.0, e)),
        (rw (last_colon, e)),
      )
  | inr ((r, t), e) ↦
      let (p, fresh) = last_colon-some image r t e in
      elim (Bool-cases (contains_char b'/' t)) [
        | inl slash ↦ inr (
          (λ r' t' p' k.
              let same : t' ≡ t = cc (ap last_colon (sym p'), last_colon-append r' t' k.0, e) in
              cc (ap (contains_char b'/') same, k.1, slash)),
          (rw (e, or_latest, slash)),
        )
        | inr plain ↦ inl (r, t, p, (fresh, plain), (rw (e, or_latest, plain)))
      ]
]

-- A reference that is put together from a repository and a tag is taken apart into the same two.
pub split_image-join :
    (repo tag : String) → IsTag tag → split_image (repo ++ (":" ++ tag)) ≡ (repo, tag)
unfolding split_image
split_image-join repo tag h = rw (last_colon-append repo tag h.0, or_latest, h.1)
