-- ===== src/Tls/Resolve.antt =====
-- The resolution of the cluster's TLS profile and adherence policy at the start (`Resolve`). The API
-- server is a record of arbitrary functions on a state, which any call may change.
use llm_d_batch_gateway_oper.Prelude.{String, Bool, true, false, List, [], ◌∷◌, Option, none, some}
use llm_d_batch_gateway_oper.Controller.Errors.{Result, ok, err}
use llm_d_batch_gateway_oper.Controller.Cluster.{Act, pure, ◌>>=◌}
use llm_d_batch_gateway_oper.Tls.{TlsProfileSpec, TlsOption, TlsLibrary}

-- The errors that the two switches tell apart, by the first test that holds.
pub data FetchError : Type 0 where
  no_match not_found : FetchError
  service_unavailable timeout server_timeout too_many_requests deadline_exceeded : FetchError
  other_error : String → FetchError

-- The cases of the switches: no such API or object, a transient error, and any other.
pub data Tolerance : Type 0 where
  absent transient fatal : Tolerance

unfoldable pub tolerance : FetchError → Tolerance
tolerance no_match = absent
tolerance not_found = absent
tolerance service_unavailable = transient
tolerance timeout = transient
tolerance server_timeout = transient
tolerance too_many_requests = transient
tolerance deadline_exceeded = transient
tolerance (other_error _) = fatal

-- `FetchAPIServerTLSProfile` and `FetchAPIServerTLSAdherencePolicy`; the second one's value is used
-- on an error too.
pub record TlsCluster (W : Type 0) : Type 0 where
  pub fetch_profile : Act W (Result FetchError TlsProfileSpec)
  pub fetch_adherence : Act W (String × Option FetchError)

-- `Result`
pub record TlsResult : Type 0 where
  pub profile : TlsProfileSpec
  pub profile_fetched : Bool
  pub adherence : String
  pub adherence_fetched : Bool
  pub tls_opts : List TlsOption

pub data ResolveError : Type 0 where
  reading_profile : FetchError → ResolveError
  reading_adherence : FetchError → ResolveError

abbrev pub set_next_protos : TlsOption
set_next_protos c = record c { next_protos = "h2" ∷ "http/1.1" ∷ [] }

-- `result.TLSOpts`
abbrev pub profile_options : TlsLibrary → TlsProfileSpec → List TlsOption
profile_options lib profile = (lib.new_tls_config profile).0 ∷ set_next_protos ∷ []

-- The options in their order, on a server's configuration.
unfoldable pub configure : List TlsOption → TlsOption
configure [] c = c
configure (option ∷ options) c = configure options (option c)

module _ (lib : TlsLibrary) where
  -- The profile, and whether it counts as fetched.
  unfoldable pub default_profile :
      FetchError → Tolerance → Result ResolveError (TlsProfileSpec × Bool)
  default_profile e absent = ok (lib.intermediate, false)
  default_profile e transient = ok (lib.intermediate, true)
  default_profile e fatal = err (reading_profile e)

  unfoldable pub chosen_profile :
      Result FetchError TlsProfileSpec → Result ResolveError (TlsProfileSpec × Bool)
  unfolding default_profile tolerance
  chosen_profile (ok profile) = ok (profile, true)
  chosen_profile (err e) = default_profile e (tolerance e)

  abbrev pub result_of : TlsProfileSpec → Bool → String → Bool → TlsResult
  result_of profile fetched policy policy_fetched = record {
    profile = profile;
    profile_fetched = fetched;
    adherence = policy;
    adherence_fetched = policy_fetched;
    tls_opts = profile_options lib profile;
  }

  unfoldable pub without_adherence :
      TlsProfileSpec → Bool → String → FetchError → Tolerance → Result ResolveError TlsResult
  without_adherence profile fetched policy e absent = ok (result_of profile fetched policy false)
  without_adherence profile fetched policy e transient = ok (result_of profile fetched policy false)
  without_adherence profile fetched policy e fatal = err (reading_adherence e)

  unfoldable pub with_adherence :
      TlsProfileSpec → Bool → String → Option FetchError → Result ResolveError TlsResult
  unfolding without_adherence tolerance
  with_adherence profile fetched policy none = ok (result_of profile fetched policy true)
  with_adherence profile fetched policy (some e) =
      without_adherence profile fetched policy e (tolerance e)

  module _ {W : Type 0} (cluster : TlsCluster W) where
    unfoldable pub with_profile :
        Result ResolveError (TlsProfileSpec × Bool) → Act W (Result ResolveError TlsResult)
    unfolding with_adherence
    with_profile (err e) = pure (err e)
    with_profile (ok (profile, fetched)) = do
      (policy, e) ← cluster.fetch_adherence
      pure (with_adherence profile fetched policy e)

    unfoldable pub resolve : Act W (Result ResolveError TlsResult)
    unfolding chosen_profile with_profile
    resolve = do answer ← cluster.fetch_profile; with_profile (chosen_profile answer)
