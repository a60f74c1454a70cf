-- ===== src/Tls/Conversion.antt =====
-- A profile as the strings that the charts are given (`ProfileValuesFromSpec`).
use llm_d_batch_gateway_oper.Prelude.{
  String, Bool, not, ◌&&◌, List, [], ◌∷◌, Option, none, some, if◌then◌else◌, ◌==◌,
}
use llm_d_batch_gateway_oper.Prelude.Joining.{join}
use llm_d_batch_gateway_oper.Tls.{
  ProfileValues, TlsProfileSpec, TlsLibrary, version_tls12, version_tls13,
}
use llm_d_batch_gateway_oper.Tls.Ciphers.{batch_gateway_cipher_suite_names, has_tls12_cipher_suite}

abbrev pub default_next_protos : String
default_next_protos = "h2,http/1.1"

-- The errors, with what their texts print.
pub data ProfileError : Type 0 where
  minimum_version : String → ProfileError
  no_usable_suite : List String → ProfileError

-- The three results of `ProfileValuesFromSpec`.
pub record Conversion : Type 0 where
  pub values : ProfileValues
  pub unsupported : List String
  pub error : Option ProfileError

-- `vals` after the assignment of `MinVersion`.
abbrev pub base_values : TlsProfileSpec → ProfileValues
base_values spec = record {
  min_version = spec.min_tls_version;
  cipher_suites = "";
  next_protos = default_next_protos;
}

-- The test of the minimum version.
unfoldable pub is_foreign_version : String → Bool
is_foreign_version version =
    not (version == "") && not (version == version_tls12) && not (version == version_tls13)

-- `details`
abbrev pub details : TlsProfileSpec → List String → List String
details spec [] = spec.ciphers
details spec (cipher ∷ ciphers) = cipher ∷ ciphers

unfoldable pub convert_suites : TlsLibrary → TlsProfileSpec → List String × List String → Conversion
convert_suites lib spec (names, unsupported) =
    if not (spec.min_tls_version == version_tls13) && not (has_tls12_cipher_suite lib names)
    then record {
      values = base_values spec;
      unsupported = unsupported;
      error = some (no_usable_suite (details spec unsupported));
    }
    else record {
      values = record (base_values spec) { cipher_suites = join "," names };
      unsupported = unsupported;
      error = none;
    }

unfoldable pub convert_ciphers : TlsLibrary → TlsProfileSpec → List String → Conversion
unfolding convert_suites
convert_ciphers lib spec [] = record { values = base_values spec; unsupported = []; error = none }
convert_ciphers lib spec (cipher ∷ ciphers) =
    convert_suites lib spec (batch_gateway_cipher_suite_names lib spec)

unfoldable pub profile_values_from_spec : TlsLibrary → TlsProfileSpec → Conversion
unfolding is_foreign_version convert_ciphers
profile_values_from_spec lib spec =
    if is_foreign_version spec.min_tls_version
    then record {
      values = base_values spec;
      unsupported = [];
      error = some (minimum_version spec.min_tls_version);
    }
    else convert_ciphers lib spec spec.ciphers
