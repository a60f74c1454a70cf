-- ===== src/Tls/Following.antt =====
-- What `Resolve` returns, and that the watcher follows the profile that the servers use.
use mathlib.Core.List.{Memᴰ}
use llm_d_batch_gateway_oper.Prelude.{
  [], ◌∷◌, String, ◌≡◌, ◌≢◌, refl, ap, ◌⊎◌, inl, inr, Bool, true, false, Option, none, some,
}
use llm_d_batch_gateway_oper.Controller.Errors.{Result, ok, err}
use llm_d_batch_gateway_oper.Controller.Cluster.{Act}
use llm_d_batch_gateway_oper.Tls.{TlsProfileSpec, TlsConfig, TlsLibrary}
use llm_d_batch_gateway_oper.Tls.Resolve.{
  FetchError, no_match, not_found, service_unavailable, timeout, server_timeout, too_many_requests,
  deadline_exceeded, other_error, absent, transient, fatal, tolerance, TlsCluster, TlsResult,
  ResolveError, reading_profile, reading_adherence, set_next_protos, configure, default_profile,
  chosen_profile, result_of, without_adherence, with_adherence, with_profile, resolve,
}
use llm_d_batch_gateway_oper.Tls.Watcher.{
  SecurityProfileWatcher, with_adherence_watch, watcher_for, watcher_error, setup_watcher,
}

-- The API, or its only object, is missing.
abbrev pub IsAbsence : FetchError → Type 0
IsAbsence e = (e ≡ no_match) ⊎ (e ≡ not_found)

-- The API server may answer later.
abbrev pub IsTransient : FetchError → Type 0
IsTransient e =
    Memᴰ e
      (service_unavailable ∷ timeout ∷ server_timeout ∷ too_many_requests ∷ deadline_exceeded ∷ [])

abbrev pub IsFatal : FetchError → Type 0
IsFatal e = (text : String) × (e ≡ other_error text)

tolerance_cases :
    (e : FetchError)
    → (IsAbsence e × (tolerance e ≡ absent))
      ⊎ ((IsTransient e × (tolerance e ≡ transient)) ⊎ (IsFatal e × (tolerance e ≡ fatal)))
unfolding tolerance
tolerance_cases no_match = inl (inl refl, refl)
tolerance_cases not_found = inl (inr refl, refl)
tolerance_cases service_unavailable = inr (inl (Memᴰ.head refl, refl))
tolerance_cases timeout = inr (inl (Memᴰ.tail (Memᴰ.head refl), refl))
tolerance_cases server_timeout = inr (inl (Memᴰ.tail (Memᴰ.tail (Memᴰ.head refl)), refl))
tolerance_cases too_many_requests =
    inr (inl (Memᴰ.tail (Memᴰ.tail (Memᴰ.tail (Memᴰ.head refl))), refl))
tolerance_cases deadline_exceeded =
    inr (inl (Memᴰ.tail (Memᴰ.tail (Memᴰ.tail (Memᴰ.tail (Memᴰ.head refl)))), refl))
tolerance_cases (other_error text) = inr (inr ((text, refl), refl))

module _ (lib : TlsLibrary) where
  -- The profile that the operator takes for the answer, and whether it watches for changes.
  pub data Chosen : Result FetchError TlsProfileSpec → TlsProfileSpec → Bool → Type 0 where
    from_cluster : (profile : TlsProfileSpec) → Chosen (ok profile) profile true
    without_api : (e : FetchError) → IsAbsence e → Chosen (err e) lib.intermediate false
    for_now : (e : FetchError) → IsTransient e → Chosen (err e) lib.intermediate true

  -- The answer is an error that ends the start, or some profile is chosen.
  abbrev Choice : Result FetchError TlsProfileSpec → Type 0
  Choice answer =
      ((e : FetchError) × (answer ≡ err e)
        × IsFatal e
        × (chosen_profile lib answer ≡ err (reading_profile e)))
      ⊎ ((profile : TlsProfileSpec) × (fetched : Bool) × Chosen answer profile fetched
          × (chosen_profile lib answer ≡ ok (profile, fetched)))

  chosen_profile_cases : (answer : Result FetchError TlsProfileSpec) → Choice answer
  unfolding chosen_profile default_profile
  chosen_profile_cases (ok profile) = inr (profile, true, from_cluster profile, refl)
  chosen_profile_cases (err e) = elim (tolerance_cases e) [
    | inl (k, t) ↦ inr (lib.intermediate, false, without_api e k, (rw t refl))
    | inr u ↦ elim u [
      | inl (k, t) ↦ inr (lib.intermediate, true, for_now e k, (rw t refl))
      | inr (k, t) ↦ inl (e, refl, k, (rw t refl))
    ]
  ]

  -- The answer on the adherence policy ends the start, or the result holds it.
  abbrev Answered :
      TlsProfileSpec → Bool → String → Option FetchError → Result ResolveError TlsResult → Type 0
  Answered profile fetched policy e result =
      ((f : FetchError) × (e ≡ some f) × IsFatal f × (result ≡ err (reading_adherence f)))
      ⊎ (((e ≡ none) × (result ≡ ok (result_of lib profile fetched policy true)))
          ⊎ ((f : FetchError) × (e ≡ some f)
              × (IsAbsence f ⊎ IsTransient f)
              × (result ≡ ok (result_of lib profile fetched policy false))))

  with_adherence_cases :
      (profile : TlsProfileSpec) (fetched : Bool) (policy : String) (e : Option FetchError)
      → Answered profile fetched policy e (with_adherence lib profile fetched policy e)
  unfolding with_adherence without_adherence
  with_adherence_cases profile fetched policy none = inr (inl (refl, refl))
  with_adherence_cases profile fetched policy (some f) = elim (tolerance_cases f) [
    | inl (k, t) ↦ inr (inr (f, refl, inl k, (rw t refl)))
    | inr u ↦ elim u [
      | inl (k, t) ↦ inr (inr (f, refl, inr k, (rw t refl)))
      | inr (k, t) ↦ inl (f, refl, k, (rw t refl))
    ]
  ]

  -- The result has the profile and the policy, whether each counts as read, and the options of the
  -- servers, which set what the library sets for the profile, and then the two protocols.
  abbrev pub Holds : TlsProfileSpec → Bool → String → Bool → TlsResult → Type 0
  Holds profile fetched policy policy_fetched r =
      (r.profile ≡ profile)
      × (r.profile_fetched ≡ fetched)
      × (r.adherence ≡ policy)
      × (r.adherence_fetched ≡ policy_fetched)
      × ((c : TlsConfig)
          → configure r.tls_opts c
            ≡ record ((lib.new_tls_config profile).0 c) { next_protos = "h2" ∷ "http/1.1" ∷ [] })

  -- The start ends on a fatal error of the policy; else the policy counts as read exactly if there was
  -- no error.
  abbrev pub Adherence :
      TlsProfileSpec → Bool → String → Option FetchError → Result ResolveError TlsResult → Type 0
  Adherence profile fetched policy e result =
      ((f : FetchError) × (e ≡ some f) × IsFatal f × (result ≡ err (reading_adherence f)))
      ⊎ ((r : TlsResult) × (result ≡ ok r)
          × (((e ≡ none) × Holds profile fetched policy true r)
              ⊎ ((f : FetchError) × (e ≡ some f)
                  × (IsAbsence f ⊎ IsTransient f)
                  × Holds profile fetched policy false r)))

  result_of-Holds :
      (profile : TlsProfileSpec) (fetched : Bool) (policy : String) (policy_fetched : Bool)
      → Holds profile fetched policy policy_fetched
          (result_of lib profile fetched policy policy_fetched)
  unfolding configure
  result_of-Holds profile fetched policy policy_fetched = (refl, refl, refl, refl, λ c. refl)

  Answered-Adherence :
      (profile : TlsProfileSpec) (fetched : Bool) (policy : String) (e : Option FetchError)
      (result : Result ResolveError TlsResult)
      → Answered profile fetched policy e result
      → Adherence profile fetched policy e result
  Answered-Adherence profile fetched policy e result h = elim h [
    | inl k ↦ inl k
    | inr k ↦ elim k [
      | inl (n, same) ↦ inr (_, same, inl (n, result_of-Holds profile fetched policy true))
      | inr (f, n, t, same) ↦
          inr (_, same, inr (f, n, t, result_of-Holds profile fetched policy false))
    ]
  ]

  module _ {W : Type 0} (cluster : TlsCluster W) (w : W) where
    -- The answers, the choice of the profile, and the exact result.
    resolve_cases :
        let (answer, w1) = cluster.fetch_profile w in
        let ((policy, e), w2) = cluster.fetch_adherence w1 in
        ((f : FetchError) × (answer ≡ err f)
          × IsFatal f
          × (resolve lib cluster w ≡ (err (reading_profile f), w1)))
        ⊎ ((profile : TlsProfileSpec) × (fetched : Bool) × Chosen answer profile fetched
            × Answered profile fetched policy e (resolve lib cluster w).0
            × ((resolve lib cluster w).1 ≡ w2))
    unfolding resolve with_profile
    resolve_cases =
        let (answer, w1) = cluster.fetch_profile w in
        let ((policy, e), w2) = cluster.fetch_adherence w1 in
        elim (chosen_profile_cases answer) [
          | inl (f, a, t, c) ↦ inl (f, a, t, (rw c refl))
          | inr (profile, fetched, chosen, c) ↦ inr (
            profile,
            fetched,
            chosen,
            (rw c (with_adherence_cases profile fetched policy e)),
            (rw c refl),
          )
        ]

    -- `Resolve` fails exactly if the profile cannot be read for a reason other than that the API or the
    -- object is missing, the service is unavailable, a time limit has passed or there were too many
    -- requests, and then does not ask for the adherence policy, or if the policy cannot be read for
    -- such a reason. Else it takes the cluster's profile, or the Intermediate one if it could not be
    -- read, counts the profile as fetched unless the API or the object is missing, and the policy
    -- only if it was read; the options of the servers set what the library sets for the profile, and
    -- then the protocols h2 and http/1.1.
    pub resolve_outcome :
        let (answer, w1) = cluster.fetch_profile w in
        let ((policy, e), w2) = cluster.fetch_adherence w1 in
        ((f : FetchError) × (answer ≡ err f)
          × IsFatal f
          × (resolve lib cluster w ≡ (err (reading_profile f), w1)))
        ⊎ ((profile : TlsProfileSpec) × (fetched : Bool) × Chosen answer profile fetched
            × Adherence profile fetched policy e (resolve lib cluster w).0
            × ((resolve lib cluster w).1 ≡ w2))
    resolve_outcome =
        let (policy, e) = (cluster.fetch_adherence (cluster.fetch_profile w).1).0 in
        elim resolve_cases [
          | inl k ↦ inl k
          | inr (profile, fetched, chosen, answered, last) ↦ inr (
            profile,
            fetched,
            chosen,
            Answered-Adherence profile fetched policy e (resolve lib cluster w).0 answered,
            last,
          )
        ]

  module _ {S V : Type 0} (register : SecurityProfileWatcher S → Act V (Option String))
      (cancel : S → S) (v : V) where
    -- A watcher was registered: it starts from the profile, cancels on its change, and cancels on a
    -- change of the policy exactly if the policy was read.
    abbrev pub IsRegistered : TlsProfileSpec → Option FetchError → TlsResult → Type 0
    IsRegistered profile e r =
        (watcher : SecurityProfileWatcher S) × (setup_watcher register r cancel v
          ≡ (watcher_error (register watcher v).0, (register watcher v).1))
        × (watcher.initial_tls_profile_spec ≡ profile)
        × (watcher.on_profile_change ≡ cancel)
        × (((e ≡ none) × (watcher.on_adherence_policy_change ≡ some cancel))
            ⊎ ((e ≢ none) × (watcher.on_adherence_policy_change ≡ none)))

    -- Watching, or nothing to watch.
    abbrev pub Watching :
        Result FetchError TlsProfileSpec → TlsProfileSpec → Option FetchError → TlsResult → Type 0
    Watching answer profile e r =
        ((f : FetchError) × (answer ≡ err f)
          × IsAbsence f
          × (setup_watcher register r cancel v ≡ (none, v)))
        ⊎ IsRegistered profile e r

    registered :
        (profile : TlsProfileSpec) (policy : String) (policy_fetched : Bool) (e : Option FetchError)
        → ((e ≡ none) × (policy_fetched ≡ true)) ⊎ ((e ≢ none) × (policy_fetched ≡ false))
        → IsRegistered profile e (result_of lib profile true policy policy_fetched)
    unfolding setup_watcher watcher_for with_adherence_watch
    registered profile policy true e h =
        (_, refl, refl, refl, elim h [ inl k ↦ inl (k.0, refl) | inr k ↦ absurd (cc) ])
    registered profile policy false e h =
        (_, refl, refl, refl, elim h [ inl k ↦ absurd (cc) | inr k ↦ inr (k.0, refl) ])

    Chosen-Watching :
        {answer : Result FetchError TlsProfileSpec} {profile : TlsProfileSpec} {fetched : Bool}
        (policy : String) (policy_fetched : Bool) (e : Option FetchError)
        → Chosen answer profile fetched
        → ((e ≡ none) × (policy_fetched ≡ true)) ⊎ ((e ≢ none) × (policy_fetched ≡ false))
        → Watching answer profile e (result_of lib profile fetched policy policy_fetched)
    unfolding setup_watcher
    Chosen-Watching policy b e (from_cluster profile) h = inr (registered profile policy b e h)
    Chosen-Watching policy b e (without_api f t) h = inl (f, refl, t, refl)
    Chosen-Watching policy b e (for_now f t) h = inr (registered lib.intermediate policy b e h)

  module _ {W S V : Type 0} (cluster : TlsCluster W) (w : W)
      (register : SecurityProfileWatcher S → Act V (Option String)) (cancel : S → S) (v : V) where
    -- After a successful `Resolve`: the servers' options set what the library sets for the resolved
    -- profile, and then the protocols h2 and http/1.1. If the cluster has no such API or object,
    -- `SetupWatcher` registers nothing; else it registers one watcher, whose profile to compare with is
    -- the one that the servers use, which cancels the manager's context on a change of the profile,
    -- and which does so on a change of the adherence policy exactly if the policy could be read.
    pub watcher_follows_servers :
        (r : TlsResult)
        → (resolve lib cluster w).0 ≡ ok r
        → let (answer, w1) = cluster.fetch_profile w in
          ((c : TlsConfig)
            → configure r.tls_opts c ≡ set_next_protos ((lib.new_tls_config r.profile).0 c))
          × Watching register cancel v answer r.profile (cluster.fetch_adherence w1).0.1 r
    unfolding configure
    watcher_follows_servers r h =
        let (answer, w1) = cluster.fetch_profile w in
        let (policy, e) = (cluster.fetch_adherence w1).0 in
        elim (resolve_cases cluster w) [
          | inl (f, a, t, same) ↦ absurd (cc (ap (λ p. p.0) same, h))
          | inr (profile, fetched, chosen, adherence, last) ↦ elim adherence [
            | inl (f, a, t, same) ↦ absurd (cc (same, h))
            | inr k ↦ elim k [
              | inl (a, same) ↦
                  let r_is : r ≡ result_of lib profile fetched policy true = cc (same, h) in
                  rw r_is (
                    (λ c. refl),
                    Chosen-Watching register cancel v policy true e chosen (inl (a, refl)),
                  )
              | inr (f, a, t, same) ↦
                  let r_is : r ≡ result_of lib profile fetched policy false = cc (same, h) in
                  rw r_is (
                    (λ c. refl),
                    Chosen-Watching register cancel v policy false e chosen
                        (inr ((λ n. cc (a, n)), refl)),
                  )
            ]
          ]
        ]
