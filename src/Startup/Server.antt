-- ===== src/Startup/Server.antt =====
-- The TLS configuration of the metrics server.
use llm_d_batch_gateway_oper.Prelude.{
  String, ◌≡◌, refl, sym, Bool, [], ◌∷◌, none, some, if◌then◌else◌, ◌==◌, Bool-cases, String-cases,
  eq_iff, inl, inr,
}
use llm_d_batch_gateway_oper.Tls.{TlsProfileSpec, TlsConfig, TlsLibrary}
use llm_d_batch_gateway_oper.Tls.Resolve.{profile_options, configure}
use llm_d_batch_gateway_oper.Startup.{
  authentication_and_authorization, load_metrics_certificate, metrics_server_options,
}

-- The configuration that the options make of `c`, with the files of the directory if there is one.
abbrev served : (String → String → String) → String → TlsConfig → TlsConfig
served join_path cert_dir c = if cert_dir == "" then c else record c {
  certificate_files = some (join_path cert_dir "tls.crt", join_path cert_dir "tls.key");
}

module _ (join_path : String → String → String) (lib : TlsLibrary) (profile : TlsProfileSpec)
    (bind_address : String) (secure : Bool) (cert_dir : String) where
  -- The metrics server is served over TLS, and then behind authentication and authorization, exactly
  -- if metrics-secure is set; it has the directory of certificates that was given, and its TLS
  -- configuration is what the library sets for the profile, with the protocols h2 and http/1.1, and
  -- with a certificate that is loaded from the directory's tls.crt and tls.key exactly if one was given.
  pub metrics_server_lem :
      let opts =
        metrics_server_options join_path bind_address secure cert_dir
          (profile_options lib profile) in
      (opts.bind_address ≡ bind_address)
      × (opts.secure_serving ≡ secure)
      × (opts.filter_provider ≡ (if secure then some authentication_and_authorization else none))
      × (opts.cert_dir ≡ cert_dir)
      × ((c : TlsConfig)
          → configure opts.tls_opts c
            ≡ served join_path cert_dir (record ((lib.new_tls_config profile).0 c) {
              next_protos = "h2" ∷ "http/1.1" ∷ [];
            }))
  unfolding metrics_server_options load_metrics_certificate configure
  metrics_server_lem = elim (String-cases cert_dir "") [
    | inl e ↦ elim (Bool-cases secure) [
      | inl s ↦ rw ((eq_iff cert_dir "").1 e, s) (refl, refl, refl, sym e, λ c. refl)
      | inr s ↦ rw ((eq_iff cert_dir "").1 e, s) (refl, refl, refl, sym e, λ c. refl)
    ]
    | inr n ↦ elim (Bool-cases secure) [
      | inl s ↦ rw (n, s) (refl, refl, refl, refl, λ c. refl)
      | inr s ↦ rw (n, s) (refl, refl, refl, refl, λ c. refl)
    ]
  ]
