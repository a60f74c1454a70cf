-- ===== src/Tls/Ciphers.antt =====
-- The cipher suites of a profile by the names that the batch gateway accepts
-- (`batchGatewayCipherSuiteNames`, `hasTLS12CipherSuite`). The two indexes of the loop are the
-- codes and the reported ciphers that are left.
use llm_d_batch_gateway_oper.Prelude.{
  ℕ, String, Bool, true, false, ◌&&◌, List, [], ◌∷◌, map, none, if◌then◌else◌, ◌==◌, member, eqb,
}
use llm_d_batch_gateway_oper.Tls.{
  TlsProfileSpec, CipherSuite, TlsConfig, TlsLibrary, version_tls13, wire_tls12,
}

-- The keys of the map `supported`.
abbrev pub supported_names : TlsLibrary → List String
supported_names lib = map (λ (suite : CipherSuite). suite.name) lib.suites

-- What the loop does with one cipher.
pub data Verdict : Type 0 where
  named : String → Verdict
  rejected : Verdict

-- The verdict on a cipher, the codes that are left, and the reported ciphers that are left.
abbrev pub Step : Type 0
Step = Verdict × List ℕ × List String

unfoldable pub verdict_on_name : TlsLibrary → String → Verdict
verdict_on_name lib name = if member name (supported_names lib) then named name else rejected

-- The loop's body from the test of `codeIndex` on.
unfoldable pub take_code : TlsLibrary → List ℕ → List String → Step
unfolding verdict_on_name
take_code lib [] reported = (rejected, [], reported)
take_code lib (code ∷ codes) reported = (verdict_on_name lib (lib.suite_name code), codes, reported)

-- The loop's body.
unfoldable pub cipher_step : TlsLibrary → String → List ℕ → List String → Step
unfolding take_code
cipher_step lib cipher codes [] = take_code lib codes []
cipher_step lib cipher codes (head ∷ reported) =
    if head == cipher then (rejected, codes, reported) else take_code lib codes (head ∷ reported)

-- `append` to `names` or to `unsupported`.
unfoldable pub record_verdict :
    Verdict → String → List String × List String → List String × List String
record_verdict (named name) cipher (names, unsupported) = (name ∷ names, unsupported)
record_verdict rejected cipher (names, unsupported) = (names, cipher ∷ unsupported)

unfoldable pub name_ciphers :
    TlsLibrary → List String → List ℕ → List String → List String × List String
unfolding cipher_step record_verdict
name_ciphers lib [] codes reported = ([], [])
name_ciphers lib (cipher ∷ ciphers) codes reported =
    let (verdict, codes', reported') = cipher_step lib cipher codes reported in
    record_verdict verdict cipher (name_ciphers lib ciphers codes' reported')

-- `&tls.Config{}`
abbrev pub empty_config : TlsConfig
empty_config = record {
  min_version = 0;
  cipher_suites = [];
  next_protos = [];
  certificate_files = none;
}

-- The codes that `tlsConfigFn` sets.
abbrev pub profile_codes : TlsLibrary → TlsProfileSpec → List ℕ
profile_codes lib spec = ((lib.new_tls_config spec).0 empty_config).cipher_suites

unfoldable pub batch_gateway_cipher_suite_names :
    TlsLibrary → TlsProfileSpec → List String × List String
unfolding name_ciphers
batch_gateway_cipher_suite_names lib spec =
    if spec.min_tls_version == version_tls13
    then ([], [])
    else name_ciphers lib spec.ciphers (profile_codes lib spec) (lib.new_tls_config spec).1

unfoldable pub has_version : ℕ → List ℕ → Bool
has_version version [] = false
has_version version (v ∷ vs) =
    let rest = has_version version vs in if eqb v version then true else rest

-- The two inner loops of `hasTLS12CipherSuite`, on one suite.
abbrev pub is_usable : CipherSuite → List String → Bool
is_usable suite names = member suite.name names && has_version wire_tls12 suite.supported_versions

unfoldable pub has_usable_suite : List CipherSuite → List String → Bool
unfolding has_version
has_usable_suite [] names = false
has_usable_suite (suite ∷ suites) names =
    let rest = has_usable_suite suites names in if is_usable suite names then true else rest

unfoldable pub has_tls12_cipher_suite : TlsLibrary → List String → Bool
unfolding has_usable_suite
has_tls12_cipher_suite lib names = has_usable_suite lib.suites names
