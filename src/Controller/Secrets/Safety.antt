-- ===== src/Controller/Secrets/Safety.antt =====
-- No Secret of another namespace is read, and none is written, before a grant permits it.
use Prim.Native.String
use mathlib.Core.List.{Memᴰ}
use llm_d_batch_gateway_oper.Prelude.{
  String, ◌≡◌, ◌≢◌, refl, sym, ap, subst, false, List, [], ◌∷◌, ◌++◌, Option, none, some, ◌==◌, ◌⊎◌,
  inl, inr, All, Bool-cases, Option-cases, eq_iff,
}
use llm_d_batch_gateway_oper.Prelude.Assoc.{lookup}
use llm_d_batch_gateway_oper.Api.Gateway.{LlmBatchGateway}
use llm_d_batch_gateway_oper.Controller.Errors.{ApiError, Result, ok, err, GoError, is_missing_kind}
use llm_d_batch_gateway_oper.Controller.Objects.{OwnerReference}
use llm_d_batch_gateway_oper.Controller.Grants.{
  some_match, some_match_iff, reference_grant_permits, reference_grant_permits_iff, Permits,
}
use llm_d_batch_gateway_oper.Controller.Cluster.{
  Cluster, State, Secret, ReferenceGrant, secret_copy, got_secret, listed_grants, applied, Call,
}
use llm_d_batch_gateway_oper.Controller.Traces.{Adds, adds_none}
use llm_d_batch_gateway_oper.Controller.Secrets.{
  SetOwner, secret_namespace, local_secret_name, qualified, changed_reference, desired_copy,
  outcome, grant_verdict, sync_error, check_reference_grant, apply_copy, sync_secret_copy,
  copy_source, resolve_foreign, resolve_secret,
}

abbrev pub IsSecretCall : {Conditions : Type 0} → Call Conditions → Type 0
IsSecretCall (got_secret namespace name answer) = Unit
IsSecretCall (listed_grants namespace answer) = Unit
IsSecretCall (applied (secret_copy secret) answer) = Unit
IsSecretCall _ = ⊥

-- A Secret of the name in the resource's namespace, with the type and the content of the source, and
-- the source's namespace and name, joined by a slash, as its origin, owned as SetControllerReference
-- has it.
abbrev IsCopyOf : SetOwner → LlmBatchGateway → Secret → String → Secret → Type 0
IsCopyOf set_owner gw src name copy =
    (copy.name ≡ name)
    × (copy.namespace ≡ gw.namespace)
    × (copy.type ≡ src.type)
    × (copy.content ≡ src.content)
    × (set_owner gw gw.namespace [] ≡ ok copy.owners)
    × (lookup "batch.llm-d.ai/copied-from" copy.annotations
        ≡ some (Prim.Native.String.◌++◌ src.namespace (Prim.Native.String.◌++◌ "/" src.name)))

module _ {Conditions : Type 0} (gw : LlmBatchGateway) where
  -- The call reads a Secret of another namespace, or writes.
  abbrev pub IsSensitive : Call Conditions → Type 0
  IsSensitive (got_secret namespace name answer) = namespace ≢ gw.namespace
  IsSensitive (applied what answer) = Unit
  IsSensitive _ = ⊥

  -- A listing of the grants in the Secret's namespace had a grant that permits the reference.
  abbrev pub WasPermitted : List (Call Conditions) → Type 0
  WasPermitted calls =
      (grants : List ReferenceGrant) × Memᴰ (listed_grants (secret_namespace gw) (ok grants)) calls
      × (grant : ReferenceGrant) × Memᴰ grant grants
      × Permits grant gw.namespace gw.spec.secret_ref.name

  -- The latest call stands first.
  abbrev pub IsGuarded : List (Call Conditions) → Type 0
  IsGuarded [] = Unit
  IsGuarded (call ∷ earlier) = (IsSensitive call → WasPermitted earlier) × IsGuarded earlier

  -- The source was read, and a copy of it was written without an error, under the resource's name with
  -- the suffix of managed Secrets.
  abbrev pub IsCopied : SetOwner → String → List (Call Conditions) → Type 0
  IsCopied set_owner name calls =
      (src : Secret) × (copy : Secret) × Memᴰ
        (got_secret (secret_namespace gw) gw.spec.secret_ref.name (ok src)) calls
      × Memᴰ (applied (secret_copy copy) none) calls
      × IsCopyOf set_owner gw src name copy
      × (name ≡ Prim.Native.String.◌++◌ gw.name "-credentials")

  record Resolved (set_owner : SetOwner) (before after : List (Call Conditions))
      (result : Result GoError String) : Type 0 where
    pub new : List (Call Conditions)
    pub extends : after ≡ new ++ before
    pub guarded : IsGuarded new
    pub only : All IsSecretCall new
    pub copied : (name : String) → result ≡ ok name → IsCopied set_owner name new

  Resolved-failed :
      (set_owner : SetOwner) (e : GoError) (new before : List (Call Conditions))
      → IsGuarded new
      → All IsSecretCall new
      → Resolved set_owner before (new ++ before) (err e)
  Resolved-failed set_owner e new before g a = record {
    new = new;
    extends = refl;
    guarded = g;
    only = a;
    copied = λ name p. absurd (cc);
  }

  WasPermitted-later :
      (call : Call Conditions) (calls : List (Call Conditions))
      → WasPermitted calls
      → WasPermitted (call ∷ calls)
  WasPermitted-later call calls (grants, m, grant, k, p) = (grants, Memᴰ.tail m, grant, k, p)

-- No refusal means that a grant permits.
grant_verdict-Permits :
    (gw : LlmBatchGateway) (name namespace : String)
    (answer : Result ApiError (List ReferenceGrant))
    → grant_verdict gw name namespace answer ≡ none
    → (grants : List ReferenceGrant) × (answer ≡ ok grants)
      × (grant : ReferenceGrant) × Memᴰ grant grants
      × Permits grant gw.namespace name
grant_verdict-Permits gw name namespace (err e) h = elim (Bool-cases (is_missing_kind e)) [
  | inl p ↦ absurd (cc (h, p))
  | inr p ↦ absurd (cc (h, p))
]
grant_verdict-Permits gw name namespace (ok grants) h =
    elim (Bool-cases
      (some_match (λ grant. reference_grant_permits grant gw.namespace name) grants)) [
        | inl p ↦
            let (grant, m, q) = (some_match_iff _ grants).0 p in
            (grants, refl, grant, m, (reference_grant_permits_iff grant gw.namespace name).0 q)
        | inr p ↦ let k = rw p at h in absurd (cc k)
      ]

module _ {W Conditions : Type 0} (cluster : Cluster W Conditions) (set_owner : SetOwner)
    (gw : LlmBatchGateway) where
  -- The read of the source.
  abbrev source_read : Result ApiError Secret → Call Conditions
  source_read answer = got_secret (secret_namespace gw) gw.spec.secret_ref.name answer

  copy_of-Resolved :
      (src : Secret) (owners : List OwnerReference) (answer : Option ApiError)
      (earlier before : List (Call Conditions))
      → set_owner gw gw.namespace [] ≡ ok owners
      → WasPermitted gw earlier
      → IsGuarded gw earlier
      → All IsSecretCall earlier
      → Resolved gw set_owner before
          (applied
                (secret_copy
                  (record (desired_copy gw src (local_secret_name gw)) { owners = owners }))
                answer
              ∷ source_read (ok src)
              ∷ earlier
            ++ before)
          (outcome gw (sync_error gw.namespace (local_secret_name gw) answer))
  unfolding lookup
  copy_of-Resolved src owners none earlier before o p g a = record {
    new =
        applied
          (secret_copy (record (desired_copy gw src (local_secret_name gw)) { owners = owners }))
          none
        ∷ source_read (ok src)
        ∷ earlier;
    extends = refl;
    guarded = ((λ h. WasPermitted-later gw _ earlier p), ((λ h. p), g));
    only = (tt, (tt, a));
    copied = λ name e.
        let same : name ≡ local_secret_name gw = cc (e) in
        subst
          (λ n. IsCopied {Conditions = Conditions} gw set_owner n (
            applied
              (secret_copy
                (record (desired_copy gw src (local_secret_name gw)) { owners = owners }))
              none
            ∷ source_read (ok src)
            ∷ earlier))
          (sym same)
          (
            src,
            record (desired_copy gw src (local_secret_name gw)) { owners = owners },
            Memᴰ.tail (Memᴰ.head refl),
            Memᴰ.head refl,
            (refl, refl, refl, refl, o, refl),
            refl,
          );
  }
  copy_of-Resolved src owners (some e) earlier before o p g a =
      Resolved-failed gw set_owner _
        (applied
            (secret_copy (record (desired_copy gw src (local_secret_name gw)) { owners = owners }))
            (some e)
          ∷ source_read (ok src)
          ∷ earlier)
        before ((λ h. WasPermitted-later gw _ earlier p), ((λ h. p), g)) (tt, (tt, a))

  copy_source-Resolved :
      (answer : Result ApiError Secret) (owned : Result ApiError (List OwnerReference))
      (earlier before : List (Call Conditions)) (s : State W Conditions)
      → set_owner gw gw.namespace [] ≡ owned
      → s.calls ≡ source_read answer ∷ earlier ++ before
      → WasPermitted gw earlier
      → IsGuarded gw earlier
      → All IsSecretCall earlier
      → let (result, s') = copy_source cluster set_owner gw answer s in
        Resolved gw set_owner before s'.calls result
  unfolding copy_source sync_secret_copy apply_copy
  copy_source-Resolved (err e) owned earlier before s o c p g a =
      rw c (
        Resolved-failed gw set_owner _ (source_read (err e) ∷ earlier) before ((λ h. p), g) (tt, a))
  copy_source-Resolved (ok src) (err e) earlier before s o c p g a = rw o (
      rw c (
        Resolved-failed gw set_owner _ (source_read (ok src) ∷ earlier) before ((λ h. p), g)
          (tt, a)))
  copy_source-Resolved (ok src) (ok owners) earlier before s o c p g a =
      rw o (rw c (copy_of-Resolved src owners _ earlier before o p g a))

  resolve_foreign-Resolved :
      (s : State W Conditions)
      → (secret_namespace gw == gw.namespace) ≡ false
      → let (result, s') = resolve_foreign cluster set_owner gw s in
        Resolved gw set_owner s.calls s'.calls result
  unfolding resolve_foreign check_reference_grant
  resolve_foreign-Resolved s n =
      let (existing, w) = cluster.get_secret gw.namespace (local_secret_name gw) s.world in
      let (answer, w') = cluster.list_grants (secret_namespace gw) w in
      let read : Call Conditions = got_secret gw.namespace (local_secret_name gw) existing in
      let grants : Call Conditions = listed_grants (secret_namespace gw) answer in
      let name = gw.spec.secret_ref.name in
      let first : IsGuarded gw (read ∷ []) = ((λ h. absurd (h refl)), tt) in
      elim (Option-cases (changed_reference (qualified (secret_namespace gw) name) existing)) [
        | inr (e, p) ↦ rw p (Resolved-failed gw set_owner e (read ∷ []) s.calls first (tt, tt))
        | inl p ↦ rw p (elim (Option-cases (grant_verdict gw name (secret_namespace gw) answer)) [
          | inr (e, q) ↦ rw q (
              Resolved-failed gw set_owner e (grants ∷ read ∷ []) s.calls ((λ h. absurd h), first)
                (tt, (tt, tt)))
          | inl q ↦
              let (found, a, grant, m, k) =
                grant_verdict-Permits gw name (secret_namespace gw) answer q in
              rw q (
                copy_source-Resolved _ _ (grants ∷ read ∷ []) s.calls _ refl refl
                  (found, Memᴰ.head (ap (listed_grants (secret_namespace gw)) (sym a)), grant, m, k)
                  ((λ h. absurd h), first) (tt, (tt, tt)))
        ])
      ]

pub resolve_secret-Adds :
    {W Conditions : Type 0} (cluster : Cluster W Conditions) (set_owner : SetOwner)
    (gw : LlmBatchGateway) (s : State W Conditions)
    → Adds IsSecretCall s.calls (resolve_secret cluster set_owner gw s).1.calls
unfolding resolve_secret
resolve_secret-Adds cluster set_owner gw s =
    elim (Bool-cases (secret_namespace gw == gw.namespace)) [
      | inl e ↦ rw e (adds_none IsSecretCall s.calls)
      | inr n ↦
          let r = resolve_foreign-Resolved cluster set_owner gw s n in
          rw n (record { new = r.new; extends = r.extends; only = r.only })
    ]

-- Whatever the API server answers, resolving the reference makes calls, the latest standing first,
-- in which no Secret outside the resource's namespace is read and nothing is written unless an
-- earlier one of these calls listed, in the referenced namespace, a ReferenceGrant that permits it.
pub resolve_secret-IsGuarded :
    {W Conditions : Type 0} (cluster : Cluster W Conditions) (set_owner : SetOwner)
    (gw : LlmBatchGateway) (s : State W Conditions)
    → let (result, s') = resolve_secret cluster set_owner gw s in
      (new : List (Call Conditions)) × (s'.calls ≡ new ++ s.calls) × IsGuarded gw new
unfolding resolve_secret
resolve_secret-IsGuarded cluster set_owner gw s =
    elim (Bool-cases (secret_namespace gw == gw.namespace)) [
      | inl e ↦ rw e ([], refl, tt)
      | inr n ↦
          let r = resolve_foreign-Resolved cluster set_owner gw s n in
          rw n (r.new, r.extends, r.guarded)
    ]

-- If resolving the reference returns a name, then either the reference is to the resource's own
-- namespace, the name is the one it gives, and no call was made, or the name is the resource's with
-- the suffix "-credentials", the referenced Secret was read, and a Secret of that name, with the type
-- and the content that were read, their Secret's namespace and name as its origin, and the owners that
-- SetControllerReference gives it for the resource, was written into the resource's namespace without
-- an error.
pub resolve_secret-ok :
    {W Conditions : Type 0} (cluster : Cluster W Conditions) (set_owner : SetOwner)
    (gw : LlmBatchGateway) (s : State W Conditions) (name : String)
    → (resolve_secret cluster set_owner gw s).0 ≡ ok name
    → let s' = (resolve_secret cluster set_owner gw s).1 in
      ((secret_namespace gw ≡ gw.namespace)
        × (name ≡ gw.spec.secret_ref.name)
        × (s'.calls ≡ s.calls))
      ⊎ ((new : List (Call Conditions)) × (s'.calls ≡ new ++ s.calls)
          × IsCopied gw set_owner name new)
unfolding resolve_secret
resolve_secret-ok cluster set_owner gw s name h =
    elim (Bool-cases (secret_namespace gw == gw.namespace)) [
      | inl e ↦ rw e (inl ((eq_iff _ _).0 e, (let k = rw e at h in cc k), refl))
      | inr n ↦
          let r = resolve_foreign-Resolved cluster set_owner gw s n in
          rw n (inr (r.new, r.extends, r.copied name (rw n at h)))
    ]
