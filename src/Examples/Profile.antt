-- ===== src/Examples/Profile.antt =====
-- The theorems on the TLS profile, used on a small library and two profiles.
use mathlib.Core.List.{Memᴰ}
use llm_d_batch_gateway_oper.Prelude.{
  ℕ, String, ◌≡◌, ◌≢◌, refl, ◌↔◌, ◌⊎◌, true, false, List, [], ◌∷◌, member, Option, none, some, ◌==◌,
  if◌then◌else◌, eqb, All, ne_of_false,
}
use llm_d_batch_gateway_oper.Controller.Errors.{ok, err}
use llm_d_batch_gateway_oper.Tls.{
  TlsProfileSpec, TlsConfig, TlsLibrary, version_tls12, version_tls13, wire_tls12,
}
use llm_d_batch_gateway_oper.Tls.Ciphers.{
  batch_gateway_cipher_suite_names, cipher_step, has_tls12_cipher_suite, has_usable_suite,
  has_version, name_ciphers, record_verdict, take_code, verdict_on_name,
}
use llm_d_batch_gateway_oper.Tls.Conversion.{
  minimum_version, no_usable_suite, convert_ciphers, convert_suites, is_foreign_version,
  profile_values_from_spec,
}
use llm_d_batch_gateway_oper.Tls.Accounting.{
  known_codes, unknown_ciphers, translate, loop_translates_each,
}
use llm_d_batch_gateway_oper.Tls.Usable.{HasUsable, IsVersion, found_names, profile_accepted_iff}
use llm_d_batch_gateway_oper.Tls.Outcome.{refused_profile_error}
use llm_d_batch_gateway_oper.Tls.Resolve.{
  TlsCluster, service_unavailable, tolerance, reading_profile, result_of, set_next_protos,
  configure, chosen_profile, default_profile, resolve, with_adherence, with_profile,
  without_adherence,
}
use llm_d_batch_gateway_oper.Tls.Watcher.{SecurityProfileWatcher}
use llm_d_batch_gateway_oper.Tls.Following.{
  IsFatal, Chosen, Adherence, Watching, resolve_outcome, watcher_follows_servers,
}

abbrev sample_code_of : String → Option ℕ
sample_code_of cipher = if cipher == "ECDHE-RSA-AES128-GCM-SHA256" then some 49199 else none

abbrev pub sample_spec : TlsProfileSpec
sample_spec = record {
  ciphers = "DHE-OLD" ∷ "ECDHE-RSA-AES128-GCM-SHA256" ∷ [];
  min_tls_version = version_tls12;
}

abbrev pub sample_library : TlsLibrary
sample_library = record {
  suites =
      (record { name = "TLS_AES_128_GCM_SHA256"; supported_versions = 772 ∷ [] })
      ∷ (record {
        name = "TLS_ECDHE_RSA_WITH_AES_128_GCM_SHA256";
        supported_versions = wire_tls12 ∷ [];
      })
      ∷ [];
  suite_name = λ code. if eqb code 49199 then "TLS_ECDHE_RSA_WITH_AES_128_GCM_SHA256" else "0x0000";
  new_tls_config = λ spec. (
    (λ c. record c { cipher_suites = known_codes sample_code_of spec.ciphers }),
    unknown_ciphers sample_code_of spec.ciphers,
  );
  intermediate = sample_spec;
}

-- A profile with no cipher that is left.
abbrev old_spec : TlsProfileSpec
old_spec = record { ciphers = "DHE-OLD" ∷ []; min_tls_version = "" }

pub sample_profile_accepted : (profile_values_from_spec sample_library sample_spec).error ≡ none
unfolding batch_gateway_cipher_suite_names cipher_step has_tls12_cipher_suite has_usable_suite
    has_version name_ciphers record_verdict take_code verdict_on_name convert_ciphers convert_suites
    is_foreign_version profile_values_from_spec member
sample_profile_accepted = refl

old_refused :
    (profile_values_from_spec sample_library old_spec).error
    ≡ some (no_usable_suite ("DHE-OLD" ∷ []))
unfolding batch_gateway_cipher_suite_names cipher_step has_tls12_cipher_suite has_usable_suite
    has_version name_ciphers record_verdict take_code verdict_on_name convert_ciphers convert_suites
    is_foreign_version profile_values_from_spec member
old_refused = refl

loop_translates_each_example :
    batch_gateway_cipher_suite_names sample_library sample_spec
    ≡ translate sample_library sample_code_of sample_spec.ciphers
loop_translates_each_example =
    loop_translates_each sample_library sample_code_of sample_spec
      (ne_of_false version_tls12 version_tls13 refl) (record { codes = refl; unknown = refl })

profile_accepted_iff_example :
    ((profile_values_from_spec sample_library sample_spec).error ≡ none) ↔ (
      IsVersion version_tls12
      × ((sample_spec.ciphers ≡ [])
          ⊎ (◌≡◌ {A = String} version_tls12 version_tls13
              ⊎ HasUsable sample_library.suites (found_names sample_library sample_spec))))
profile_accepted_iff_example = profile_accepted_iff sample_library sample_spec

refused_profile_error_example :
    ((¬ IsVersion "") × (no_usable_suite ("DHE-OLD" ∷ []) ≡ minimum_version ""))
    ⊎ (IsVersion ""
        × ◌≢◌ {A = String} "" version_tls13
        × (¬ HasUsable sample_library.suites (found_names sample_library old_spec))
        × (ds : List String) × (no_usable_suite ("DHE-OLD" ∷ []) ≡ no_usable_suite ds)
        × (ds ≢ [])
        × All (λ d. Memᴰ d ("DHE-OLD" ∷ [])) ds)
refused_profile_error_example =
    refused_profile_error sample_library old_spec (no_usable_suite ("DHE-OLD" ∷ [])) old_refused

-- The profile is read; the API server is too busy for the policy.
abbrev pub sample_tls_cluster : TlsCluster (Unit {0})
sample_tls_cluster = record {
  fetch_profile = λ w. (ok sample_spec, w);
  fetch_adherence = λ w. (("", some service_unavailable), w);
}

resolve_outcome_example :
    ((f : _) × (ok sample_spec ≡ err f)
      × IsFatal f
      × (resolve sample_library sample_tls_cluster tt ≡ (err (reading_profile f), tt)))
    ⊎ ((profile : TlsProfileSpec) × (fetched : _) × Chosen sample_library
          (ok sample_spec)
          profile
          fetched
        × Adherence sample_library profile fetched ""
            (some service_unavailable)
            (resolve sample_library sample_tls_cluster tt).0
        × ((resolve sample_library sample_tls_cluster tt).1 ≡ tt))
resolve_outcome_example = resolve_outcome sample_library sample_tls_cluster tt

sample_resolved_tls :
    (resolve sample_library sample_tls_cluster tt).0
    ≡ ok (result_of sample_library sample_spec true "" false)
unfolding chosen_profile default_profile resolve tolerance with_adherence with_profile
    without_adherence
sample_resolved_tls = refl

abbrev sample_register : SecurityProfileWatcher ℕ → ℕ → Option String × ℕ
sample_register watcher n = (none, n)

watcher_follows_servers_example :
    let r = result_of sample_library sample_spec true "" false in
    ((c : TlsConfig)
      → configure r.tls_opts c ≡ set_next_protos ((sample_library.new_tls_config sample_spec).0 c))
    × Watching sample_library sample_register
        (λ n. n)
        0
        (ok sample_spec)
        sample_spec
        (some service_unavailable)
        r
watcher_follows_servers_example =
    watcher_follows_servers sample_library sample_tls_cluster tt sample_register (λ n. n) 0
      (result_of sample_library sample_spec true "" false) sample_resolved_tls
