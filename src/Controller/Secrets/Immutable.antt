-- ===== src/Controller/Secrets/Immutable.antt =====
-- A managed copy that was read remembers its source: another reference to a foreign Secret is refused.
use Prim.Native.Char.{Char}
use Prim.Native.String.{◌++◌}
use mathlib.Core.Path.{ap₂}
use text.Mathlib.TextLemmas.{nil-append, cons-append}
use llm_d_batch_gateway_oper.Prelude.{
  String, ◌≡◌, ◌≢◌, ◌⊎◌, ◌∷◌, [], Option, some, false_of_ne, Bool-cases, Option-cases, refl, sym,
  ap, ◌∙◌, Bool, true, false, List, none, eq_iff, inl, inr, String-cases, arith, ne_of_false, ℕ,
}
use llm_d_batch_gateway_oper.Prelude.Assoc.{lookup}
use llm_d_batch_gateway_oper.Api.Gateway.{LlmBatchGateway}
use llm_d_batch_gateway_oper.Helm.Images.{is_char, contains_char}
use llm_d_batch_gateway_oper.Controller.Errors.{
  ApiError, Result, ok, err, GoError, secret_ref_immutable, is_missing_kind,
}
use llm_d_batch_gateway_oper.Controller.Objects.{OwnerReference}
use llm_d_batch_gateway_oper.Controller.Cluster.{
  listed_grants, Cluster, State, Secret, ReferenceGrant, secret_copy, got_secret,
}
use llm_d_batch_gateway_oper.Controller.Grants.{some_match, reference_grant_permits}
use llm_d_batch_gateway_oper.Controller.Secrets.{
  secret_namespace, qualified, changed_reference, desired_copy, SetOwner, outcome, sync_error,
  grant_verdict, local_secret_name, check_reference_grant, apply_copy, sync_secret_copy,
  copy_source, resolve_foreign, resolve_secret,
}

abbrev rest_of : String → String
rest_of String.[] = ""
rest_of (String.◌∷◌ c s) = s

abbrev is_first : ℕ → String → Bool
is_first n String.[] = false
is_first n (String.◌∷◌ c s) = is_char n c

abbrev first_of : String → Char
first_of String.[] = "/"
first_of (String.◌∷◌ c s) = c

qualified-nil : (x : String) → qualified "" x ≡ String.◌∷◌ "/" x
qualified-nil x = nil-append ("/" ++ x) ∙ cons-append "/" "" x ∙ ap (String.◌∷◌ "/") (nil-append x)

qualified-cons :
    (c : Char) (a x : String) → qualified (String.◌∷◌ c a) x ≡ String.◌∷◌ c (qualified a x)
qualified-cons c a x = cons-append c a ("/" ++ x)

-- Namespaces have no slash, so the text determines both of its parts.
qualified_injective :
    (a b x y : String)
    → contains_char b'/' a ≡ false
    → contains_char b'/' b ≡ false
    → qualified a x ≡ qualified b y
    → (a ≡ b) × (x ≡ y)
unfolding contains_char
qualified_injective String.[] String.[] x y ha hb h =
    (refl, ap rest_of (sym (qualified-nil x) ∙ h ∙ qualified-nil y))
qualified_injective String.[] (String.◌∷◌ c b) x y ha hb h =
    let first : true ≡ is_char b'/' c =
      ap (is_first b'/') (sym (qualified-nil x) ∙ h ∙ qualified-cons c b y) in
    absurd (cc (rw (← first) at hb))
qualified_injective (String.◌∷◌ c a) String.[] x y ha hb h =
    let first : is_char b'/' c ≡ true =
      ap (is_first b'/') (sym (qualified-cons c a x) ∙ h ∙ qualified-nil y) in
    absurd (cc (rw first at ha))
qualified_injective (String.◌∷◌ c a) (String.◌∷◌ d b) x y ha hb h =
    let same = sym (qualified-cons c a x) ∙ h ∙ qualified-cons d b y in
    let first : c ≡ d = ap first_of same in
    let rest = qualified_injective a b x y (ground arith) (ground arith) (ap rest_of same) in
    ((λ i. String.◌∷◌ (first i) (rest.0 i)), rest.1)

module _ (gw : LlmBatchGateway) (a b : String) where
  -- No other error is taken for a changed reference.
  abbrev IsOther : Result GoError String → Type 0
  IsOther result = result ≢ err (secret_ref_immutable a b)

  outcome-IsOther :
      (namespace name : String) (answer : Option ApiError)
      → IsOther (outcome gw (sync_error namespace name answer))
  outcome-IsOther namespace name none h = absurd (cc)
  outcome-IsOther namespace name (some e) h = absurd (cc)

  grant_verdict-other :
      (name namespace : String) (answer : Result ApiError (List ReferenceGrant))
      → grant_verdict gw name namespace answer ≢ some (secret_ref_immutable a b)
  grant_verdict-other name namespace (err e) h = elim (Bool-cases (is_missing_kind e)) [
    | inl p ↦ absurd (let k = rw p at h in cc k)
    | inr p ↦ absurd (let k = rw p at h in cc k)
  ]
  grant_verdict-other name namespace (ok grants) h =
      elim (Bool-cases
        (some_match (λ grant. reference_grant_permits grant gw.namespace name) grants)) [
          | inl p ↦ absurd (let k = rw p at h in cc k)
          | inr p ↦ absurd (let k = rw p at h in cc k)
        ]

  module _ {W Conditions : Type 0} (cluster : Cluster W Conditions) (set_owner : SetOwner) where
    apply_copy-IsOther :
        (copy : Secret) (owners : Result ApiError (List OwnerReference)) (s : State W Conditions)
        → IsOther (outcome gw (apply_copy cluster set_owner copy owners s).0)
    unfolding apply_copy
    apply_copy-IsOther copy (err e) s h = absurd (cc)
    apply_copy-IsOther copy (ok owners) s h =
        outcome-IsOther copy.namespace copy.name
          (cluster.apply (secret_copy (record copy { owners = owners })) s.world).0 h

    copy_source-IsOther :
        (answer : Result ApiError Secret) (s : State W Conditions)
        → IsOther (copy_source cluster set_owner gw answer s).0
    unfolding copy_source sync_secret_copy
    copy_source-IsOther (err e) s h = absurd (cc)
    copy_source-IsOther (ok src) s h =
        apply_copy-IsOther (desired_copy gw src (local_secret_name gw))
          (set_owner gw gw.namespace []) s h

    -- What the code compares the origin of the copy with.
    abbrev wanted : String
    wanted = qualified (secret_namespace gw) gw.spec.secret_ref.name

    resolve_foreign-IsOther :
        (s : State W Conditions)
        → changed_reference wanted
            (cluster.get_secret gw.namespace (local_secret_name gw) s.world).0
          ≡ none
        → IsOther (resolve_foreign cluster set_owner gw s).0
    unfolding resolve_foreign check_reference_grant
    resolve_foreign-IsOther s p =
        let name = gw.spec.secret_ref.name in
        let (existing, w) = cluster.get_secret gw.namespace (local_secret_name gw) s.world in
        let (answer, w') = cluster.list_grants (secret_namespace gw) w in
        let (src, w2) = cluster.get_secret (secret_namespace gw) name w' in
        rw p (elim (Option-cases (grant_verdict gw name (secret_namespace gw) answer)) [
          | inr (e, q) ↦
              rw q (λ k. grant_verdict-other name (secret_namespace gw) answer (q ∙ cc (k)))
          | inl q ↦ rw q (
              copy_source-IsOther src (record s {
                world = w2;
                calls =
                    got_secret (secret_namespace gw) name src
                    ∷ listed_grants (secret_namespace gw) answer
                    ∷ got_secret gw.namespace (local_secret_name gw) existing
                    ∷ s.calls;
              }))
        ])

module _ {W Conditions : Type 0} (cluster : Cluster W Conditions) (set_owner : SetOwner)
    (gw : LlmBatchGateway) (existing : Secret) (namespace name : String)
    (s : State W Conditions) where
  -- What an existing copy of the Secret of the namespace and name does to the resolution: another
  -- reference ends it with the error that names both, and the same one does not.
  abbrev pub IsPinned : Type 0
  IsPinned =
      let (result, t) = resolve_secret cluster set_owner gw s in
      let same = (namespace ≡ secret_namespace gw) × (name ≡ gw.spec.secret_ref.name) in
      (same × ((a b : String) → result ≢ err (secret_ref_immutable a b)))
      ⊎ ((¬ same)
          × (result
              ≡ err (
                  secret_ref_immutable (qualified namespace name)
                    (qualified (secret_namespace gw) gw.spec.secret_ref.name)))
          × (t.calls ≡ got_secret gw.namespace (local_secret_name gw) (ok existing) ∷ s.calls))

  -- If a foreign reference is resolved while the managed copy can be read, and the copy's origin is the
  -- given namespace and name, in namespaces without a slash: a reference to that Secret is not
  -- refused as a changed one, and a reference to any other is, with an error that names both, before
  -- any other call is made.
  pub resolve_secret-IsPinned :
      contains_char b'/' namespace ≡ false
      → contains_char b'/' (secret_namespace gw) ≡ false
      → secret_namespace gw ≢ gw.namespace
      → (cluster.get_secret gw.namespace (local_secret_name gw) s.world).0 ≡ ok existing
      → lookup "batch.llm-d.ai/copied-from" existing.annotations ≡ some (namespace ++ "/" ++ name)
      → IsPinned
  unfolding resolve_secret resolve_foreign
  resolve_secret-IsPinned h k foreign read origin =
      let want = qualified (secret_namespace gw) gw.spec.secret_ref.name in
      let away = false_of_ne (secret_namespace gw) gw.namespace foreign in
      elim (String-cases (qualified namespace name) want) [
        | inl e ↦
            let passes : changed_reference want
                  (cluster.get_secret gw.namespace (local_secret_name gw) s.world).0
                ≡ none =
              rw (read, origin, (eq_iff (qualified namespace name) want).1 e) refl in
            rw away (
              inl (
                qualified_injective _ _ _ _ h k e,
                λ a b. resolve_foreign-IsOther gw a b cluster set_owner s passes,
              ))
        | inr n ↦
            rw (away, read, origin, n)
              (inr ((λ p. ne_of_false _ _ n (ap₂ qualified p.0 p.1)), refl, refl))
      ]
