-- ===== src/Tls/Outcome.antt =====
-- The values of an accepted profile, and the error of a refused one.
use llm_d_batch_gateway_oper.Prelude.{
  String, ◌≡◌, ◌≢◌, refl, sym, ap, ◌⊎◌, inl, inr, List, [], ◌∷◌, none, some, ◌==◌, All, eq_iff,
  Bool-cases, String-cases, ne_of_false,
}
use mathlib.Core.List.{Memᴰ}
use llm_d_batch_gateway_oper.Prelude.Joining.{join}
use llm_d_batch_gateway_oper.Tls.{TlsProfileSpec, TlsLibrary, version_tls13}
use llm_d_batch_gateway_oper.Tls.Ciphers.{
  name_ciphers, batch_gateway_cipher_suite_names, has_tls12_cipher_suite, has_usable_suite,
}
use llm_d_batch_gateway_oper.Tls.Conversion.{
  ProfileError, minimum_version, no_usable_suite, Conversion, base_values, is_foreign_version,
  details, convert_suites, convert_ciphers, profile_values_from_spec,
}
use llm_d_batch_gateway_oper.Tls.Accounting.{Accounted, done, given, refused, ciphers-Accounted}
use llm_d_batch_gateway_oper.Tls.Usable.{
  HasUsable, IsVersion, is_foreign_version_iff, has_usable_suite_iff, found_names,
}

module _ (lib : TlsLibrary) where
  Accounted-unsupported_from :
      (ciphers names unsupported : List String)
      → Accounted lib ciphers names unsupported
      → All (λ c. Memᴰ c ciphers) unsupported
  Accounted-unsupported_from ciphers names unsupported a = go a
    where
      grow :
          (c : String) (cs us : List String)
          → All (λ u. Memᴰ u cs) us
          → All (λ u. Memᴰ u (c ∷ cs)) us
      grow c cs [] h = tt
      grow c cs (u ∷ us) h = (Memᴰ.tail h.0, grow c cs us h.1)

      go : {cs ns us : List String} → Accounted lib cs ns us → All (λ u. Memᴰ u cs) us
      go done = tt
      go (given {cipher} {ciphers = cs} {unsupported = us} m a) = grow cipher cs us (go a)
      go (refused {cipher} {ciphers = cs} {unsupported = us} a) =
          (Memᴰ.head refl, grow cipher cs us (go a))

  module _ (spec : TlsProfileSpec) where
    -- What an accepted profile turns into.
    abbrev IsConverted : Conversion → Type 0
    IsConverted c =
        (c.values ≡ (record {
          min_version = spec.min_tls_version;
          cipher_suites = join "," (found_names lib spec);
          next_protos = "h2,http/1.1";
        }))
        × (c.unsupported ≡ (batch_gateway_cipher_suite_names lib spec).1)

    convert_suites-IsConverted :
        (convert_suites lib spec (batch_gateway_cipher_suite_names lib spec)).error ≡ none
        → IsConverted (convert_suites lib spec (batch_gateway_cipher_suite_names lib spec))
    unfolding convert_suites
    convert_suites-IsConverted h =
        let r = batch_gateway_cipher_suite_names lib spec in
        elim (Bool-cases (spec.min_tls_version == version_tls13)) [
          | inl e ↦ rw e (refl, refl)
          | inr e ↦ elim (Bool-cases (has_tls12_cipher_suite lib r.0)) [
            | inl u ↦ rw (e, u) (refl, refl)
            | inr u ↦ absurd (cc (rw (e, u) at h))
          ]
        ]

    no_ciphers : spec.ciphers ≡ [] → batch_gateway_cipher_suite_names lib spec ≡ ([], [])
    unfolding batch_gateway_cipher_suite_names name_ciphers
    no_ciphers h = elim (Bool-cases (spec.min_tls_version == version_tls13)) [
      | inl e ↦ rw e refl
      | inr e ↦ rw (e, h) refl
    ]

    convert_ciphers-IsConverted :
        (ciphers : List String)
        → spec.ciphers ≡ ciphers
        → (convert_ciphers lib spec ciphers).error ≡ none
        → IsConverted (convert_ciphers lib spec ciphers)
    unfolding convert_ciphers join
    convert_ciphers-IsConverted [] e h =
        let same = sym (no_ciphers e) in
        (
          ap
              (λ (r : List String × List String). record (base_values spec) {
                cipher_suites = join "," r.0;
              })
              same,
          ap (λ (r : List String × List String). r.1) same,
        )
    convert_ciphers-IsConverted (cipher ∷ ciphers) e h = convert_suites-IsConverted h

    -- An accepted profile is handed over with its minimum version, the names found for its ciphers
    -- in their order, joined by commas, and the protocols "h2,http/1.1"; the ciphers without a name
    -- are reported.
    pub accepted_profile_values :
        (profile_values_from_spec lib spec).error ≡ none
        → let c = profile_values_from_spec lib spec in
          (c.values ≡ (record {
            min_version = spec.min_tls_version;
            cipher_suites = join "," (found_names lib spec);
            next_protos = "h2,http/1.1";
          }))
          × (c.unsupported ≡ (batch_gateway_cipher_suite_names lib spec).1)
    unfolding profile_values_from_spec
    accepted_profile_values h = elim (Bool-cases (is_foreign_version spec.min_tls_version)) [
      | inl e ↦ absurd (cc (rw e at h))
      | inr e ↦ rw e (convert_ciphers-IsConverted spec.ciphers refl (rw e at h))
    ]

    -- Some ciphers of the profile, at least one.
    abbrev NamesSome : List String → Type 0
    NamesSome ds = (ds ≢ []) × All (λ d. Memᴰ d spec.ciphers) ds

    every_cipher :
        (cs : List String)
        → ((c : String) → Memᴰ c cs → Memᴰ c spec.ciphers)
        → All (λ d. Memᴰ d spec.ciphers) cs
    every_cipher [] h = tt
    every_cipher (c ∷ cs) h = (h c (Memᴰ.head refl), every_cipher cs λ d m. h d (Memᴰ.tail m))

    details-NamesSome :
        (unsupported : List String)
        → spec.ciphers ≢ []
        → All (λ d. Memᴰ d spec.ciphers) unsupported
        → NamesSome (details spec unsupported)
    details-NamesSome [] n a = (n, every_cipher spec.ciphers λ c m. m)
    details-NamesSome (u ∷ us) n a = ((λ e. absurd (cc)), a)

    -- No suite that works with the versions that the profile allows.
    abbrev IsUseless : ProfileError → Type 0
    IsUseless e =
        (spec.min_tls_version ≢ version_tls13)
        × (¬ HasUsable lib.suites (found_names lib spec))
        × (ds : List String) × (e ≡ no_usable_suite ds)
        × NamesSome ds

    convert_suites-IsUseless :
        (e : ProfileError)
        → spec.ciphers ≢ []
        → (convert_suites lib spec (batch_gateway_cipher_suite_names lib spec)).error ≡ some e
        → IsUseless e
    unfolding convert_suites has_tls12_cipher_suite
    convert_suites-IsUseless e c h =
        let r = batch_gateway_cipher_suite_names lib spec in
        let usable = has_usable_suite_iff lib.suites r.0 in
        elim (String-cases spec.min_tls_version version_tls13) [
          | inl same ↦ absurd (cc (rw ((eq_iff spec.min_tls_version version_tls13).1 same) at h))
          | inr other ↦ elim (Bool-cases (has_usable_suite lib.suites r.0)) [
            | inl u ↦ absurd (cc (rw (other, u) at h))
            | inr u ↦
                let n = ne_of_false spec.min_tls_version version_tls13 other in
                (
                  n,
                  (λ k. cc (usable.1 k, u)),
                  details spec r.1,
                  cc (rw (other, u) at h),
                  details-NamesSome r.1 c (
                      Accounted-unsupported_from spec.ciphers r.0 r.1
                        (ciphers-Accounted lib spec n)),
                )
          ]
        ]

    convert_ciphers-IsUseless :
        (ciphers : List String) (e : ProfileError)
        → spec.ciphers ≡ ciphers
        → (convert_ciphers lib spec ciphers).error ≡ some e
        → IsUseless e
    unfolding convert_ciphers
    convert_ciphers-IsUseless [] e same h = absurd (cc)
    convert_ciphers-IsUseless (cipher ∷ ciphers) e same h =
        convert_suites-IsUseless e (λ k. cc (same, k)) h

    -- A refused profile has a minimum version other than none, TLS 1.2 and TLS 1.3, which the error
    -- names; or it has such a version, not TLS 1.3, no suite found for its ciphers works with TLS
    -- 1.2, and the error lists one or more of its ciphers, by the names that they have in the profile.
    pub refused_profile_error :
        (e : ProfileError)
        → (profile_values_from_spec lib spec).error ≡ some e
        → ((¬ IsVersion spec.min_tls_version) × (e ≡ minimum_version spec.min_tls_version))
          ⊎ (IsVersion spec.min_tls_version
              × (spec.min_tls_version ≢ version_tls13)
              × (¬ HasUsable lib.suites (found_names lib spec))
              × (ds : List String) × (e ≡ no_usable_suite ds)
              × (ds ≢ [])
              × All (λ d. Memᴰ d spec.ciphers) ds)
    unfolding profile_values_from_spec
    refused_profile_error e h =
        let v = is_foreign_version_iff spec.min_tls_version in
        elim (Bool-cases (is_foreign_version spec.min_tls_version)) [
          | inl f ↦ inl ((λ k. cc (v.1 k, f)), cc (rw f at h))
          | inr f ↦
              let (n, u, ds, same, some_ds) =
                convert_ciphers-IsUseless spec.ciphers e refl (rw f at h) in
              inr (v.0 f, n, u, ds, same, some_ds.0, some_ds.1)
        ]
