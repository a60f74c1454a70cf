-- ===== src/Tls.antt =====
-- The cluster's TLS profile (internal/tls/profile.go). crypto/tls and OpenShift's
-- controller-runtime-common are parameters: `TlsLibrary`.
pub mod Ciphers
pub mod Conversion
pub mod Accounting
pub mod Usable
pub mod Outcome
pub mod Resolve
pub mod Watcher
pub mod Following
use llm_d_batch_gateway_oper.Prelude.{ℕ, String, List, Option}

-- `ProfileValues`: what the charts are given.
pub record ProfileValues : Type 0 where
  pub min_version : String
  pub cipher_suites : String
  pub next_protos : String

-- configv1.TLSProfileSpec
pub record TlsProfileSpec : Type 0 where
  pub ciphers : List String
  pub min_tls_version : String

-- The values of configv1.TLSProtocolVersion that the operator knows.
abbrev pub version_tls12 : String
version_tls12 = "VersionTLS12"

abbrev pub version_tls13 : String
version_tls13 = "VersionTLS13"

-- `tls.VersionTLS12`
abbrev pub wire_tls12 : ℕ
wire_tls12 = 771

-- tls.CipherSuite
pub record CipherSuite : Type 0 where
  pub name : String
  pub supported_versions : List ℕ

-- tls.Config, as far as the operator writes and reads it. `certificate_files` is the pair of files
-- that GetCertificate loads at each handshake.
pub record TlsConfig : Type 0 where
  pub min_version : ℕ
  pub cipher_suites : List ℕ
  pub next_protos : List String
  pub certificate_files : Option (String × String)

-- An option of a server: `func(*tls.Config)`.
abbrev pub TlsOption : Type 0
TlsOption = TlsConfig → TlsConfig

-- `tls.CipherSuites`, `tls.CipherSuiteName`, `tlspkg.NewTLSConfigFromProfile`, and the Intermediate
-- profile of configv1.
pub record TlsLibrary : Type 0 where
  pub suites : List CipherSuite
  pub suite_name : ℕ → String
  pub new_tls_config : TlsProfileSpec → TlsOption × List String
  pub intermediate : TlsProfileSpec
