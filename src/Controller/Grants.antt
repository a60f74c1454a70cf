-- ===== src/Controller/Grants.antt =====
-- What a ReferenceGrant permits (internal/controller/secret_sync.go, `referenceGrantPermits`).
use mathlib.Core.List.{Memᴰ}
use llm_d_batch_gateway_oper.Prelude.{
  String, ◌≡◌, refl, ap, Bool, true, false, ◌&&◌, List, [], ◌∷◌, Option, none, some, ◌==◌,
  if◌then◌else◌, ◌↔◌, ◌⊎◌, inl, inr, Bool-cases, eq_iff, and_both,
}
use llm_d_batch_gateway_oper.Controller.Objects.{group_name}
use llm_d_batch_gateway_oper.Controller.Cluster.{GrantFrom, GrantTo, ReferenceGrant}

abbrev pub from_matches : String → GrantFrom → Bool
from_matches from_namespace from =
    from.group == group_name && (from.kind == "LLMBatchGateway" && from.namespace == from_namespace)

abbrev pub names : String → Option String → Bool
names secret_name none = true
names secret_name (some name) = name == secret_name

abbrev pub to_matches : String → GrantTo → Bool
to_matches secret_name to = to.group == "" && (to.kind == "Secret" && names secret_name to.name)

-- A loop that stops at the first match.
unfoldable pub some_match : {A : Type 0} → (A → Bool) → List A → Bool
some_match test [] = false
some_match test (x ∷ xs) = let rest = some_match test xs in if test x then true else rest

unfoldable pub reference_grant_permits : ReferenceGrant → String → String → Bool
reference_grant_permits grant from_namespace secret_name =
    if some_match (from_matches from_namespace) grant.from
    then some_match (to_matches secret_name) grant.to
    else false

-- An entry for the LLMBatchGateways of the namespace.
abbrev pub IsFromEntry : String → GrantFrom → Type 0
IsFromEntry from_namespace from =
    (from.group ≡ group_name)
    × ((from.kind ≡ "LLMBatchGateway") × (from.namespace ≡ from_namespace))

-- An entry for core Secrets: of every name, or of this one.
abbrev pub IsToEntry : String → GrantTo → Type 0
IsToEntry secret_name to =
    (to.group ≡ "") × ((to.kind ≡ "Secret") × ((to.name ≡ none) ⊎ (to.name ≡ some secret_name)))

-- The grant has an entry of both kinds.
abbrev pub Permits : ReferenceGrant → String → String → Type 0
Permits grant from_namespace secret_name =
    ((from : GrantFrom) × Memᴰ from grant.from × IsFromEntry from_namespace from)
    × ((to : GrantTo) × Memᴰ to grant.to × IsToEntry secret_name to)

pub some_match_iff :
    {A : Type 0} (test : A → Bool) (xs : List A)
    → (some_match test xs ≡ true) ↔ ((x : A) × Memᴰ x xs × (test x ≡ true))
unfolding some_match
some_match_iff test [] = ((λ h. absurd (cc)), (λ (x, m, e). elim m [ ]))
some_match_iff test (y ∷ ys) = elim (Bool-cases (test y)) [
  | inl e ↦ ((λ h. (y, Memᴰ.head refl, e)), (λ h. rw e refl))
  | inr n ↦ (
    (λ h. let (x, m, e) = (some_match_iff test ys).0 (rw n at h) in (x, Memᴰ.tail m, e)),
    (λ (x, m, e). rw n (elim m [
      | Memᴰ.head p ↦ absurd (cc (ap test p, e, n))
      | Memᴰ.tail k ↦ (some_match_iff test ys).1 (x, k, e)
    ])),
  )
]

names_iff :
    (secret : String) (name : Option String)
    → (names secret name ≡ true) ↔ ((name ≡ none) ⊎ (name ≡ some secret))
names_iff secret none = ((λ h. inl refl), (λ h. refl))
names_iff secret (some name) = (
  (λ h. inr (ap some ((eq_iff name secret).0 h))),
  (λ h. elim h [ inl e ↦ absurd (cc) | inr e ↦ (eq_iff name secret).1 (cc e) ]),
)

from_matches_iff :
    (from_namespace : String) (from : GrantFrom)
    → (from_matches from_namespace from ≡ true) ↔ IsFromEntry from_namespace from
from_matches_iff from_namespace from =
    and_both _ _ (eq_iff from.group group_name)
      (and_both _ _ (eq_iff from.kind "LLMBatchGateway") (eq_iff from.namespace from_namespace))

to_matches_iff :
    (secret : String) (to : GrantTo) → (to_matches secret to ≡ true) ↔ IsToEntry secret to
to_matches_iff secret to =
    and_both _ _ (eq_iff to.group "")
      (and_both _ _ (eq_iff to.kind "Secret") (names_iff secret to.name))

-- A ReferenceGrant is read as permitting the gateways of a namespace to refer to a Secret exactly if
-- one of its `from` entries is for LLMBatchGateways of that namespace, and one of its `to` entries is
-- for core Secrets, either of every name or of the Secret's.
pub reference_grant_permits_iff :
    (grant : ReferenceGrant) (from_namespace secret_name : String)
    → (reference_grant_permits grant from_namespace secret_name ≡ true)
      ↔ Permits grant from_namespace secret_name
unfolding reference_grant_permits
reference_grant_permits_iff grant from_namespace secret_name = (
  (λ h. elim (Bool-cases (some_match (from_matches from_namespace) grant.from)) [
    | inl e ↦
        let (from, m, p) = (some_match_iff _ grant.from).0 e in
        let (to, k, q) = (some_match_iff (to_matches secret_name) grant.to).0 (rw e at h) in
        (
          (from, m, (from_matches_iff from_namespace from).0 p),
          (to, k, (to_matches_iff secret_name to).0 q),
        )
    | inr n ↦ let k = rw n at h in absurd (cc k)
  ]),
  (λ ((from, m, p), (to, k, q)).
      let e =
        (some_match_iff (from_matches from_namespace) grant.from).1
          (from, m, (from_matches_iff from_namespace from).1 p) in
      rw e (
        (some_match_iff (to_matches secret_name) grant.to).1
          (to, k, (to_matches_iff secret_name to).1 q))),
)
