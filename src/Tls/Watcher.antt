-- ===== src/Tls/Watcher.antt =====
-- The watcher that restarts the operator on a change of the profile (`SetupWatcher`). The manager is
-- a parameter: registering a watcher may fail and may change its state.
use llm_d_batch_gateway_oper.Prelude.{String, Option, none, some, if◌then◌else◌}
use llm_d_batch_gateway_oper.Controller.Cluster.{Act, pure, ◌>>=◌}
use llm_d_batch_gateway_oper.Tls.{TlsProfileSpec}
use llm_d_batch_gateway_oper.Tls.Resolve.{TlsResult}

-- tlspkg.SecurityProfileWatcher. A callback acts on the process's state `S`.
pub record SecurityProfileWatcher (S : Type 0) : Type 0 where
  pub initial_tls_profile_spec : TlsProfileSpec
  pub on_profile_change : S → S
  pub initial_adherence_policy : String
  pub on_adherence_policy_change : Option (S → S)

pub data WatcherError : Type 0 where
  setting_up_watcher : String → WatcherError

abbrev pub watcher_error : Option String → Option WatcherError
watcher_error none = none
watcher_error (some e) = some (setting_up_watcher e)

module _ {S : Type 0} where
  unfoldable pub with_adherence_watch :
      TlsResult → (S → S) → SecurityProfileWatcher S → SecurityProfileWatcher S
  with_adherence_watch result cancel watcher =
      if result.adherence_fetched
      then record watcher {
        initial_adherence_policy = result.adherence;
        on_adherence_policy_change = some cancel;
      }
      else watcher

  -- The watcher that is registered; `cancel` ends the manager's context.
  unfoldable pub watcher_for : TlsResult → (S → S) → SecurityProfileWatcher S
  unfolding with_adherence_watch
  watcher_for result cancel = with_adherence_watch result cancel (record {
    initial_tls_profile_spec = result.profile;
    on_profile_change = cancel;
    initial_adherence_policy = "";
    on_adherence_policy_change = none;
  })

  module _ {W : Type 0} (register : SecurityProfileWatcher S → Act W (Option String)) where
    unfoldable pub setup_watcher : TlsResult → (S → S) → Act W (Option WatcherError)
    unfolding watcher_for
    setup_watcher result cancel =
        if result.profile_fetched
        then (do e ← register (watcher_for result cancel); pure (watcher_error e))
        else pure none
