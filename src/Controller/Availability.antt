-- ===== src/Controller/Availability.antt =====
-- A component is available exactly when its rollout is complete, as `kubectl rollout status` sees it.
use llm_d_batch_gateway_oper.Prelude.{
  ◌≡◌, refl, Bool, true, ◌&&◌, ◌==◌, eq_iff, arith, ◌↔◌, ↔-trans, and_both,
}
use llm_d_batch_gateway_oper.Prelude.Int.{
  ℤ, pos, leb_ℤ, ltb_ℤ, eqb_ℤ, ◌≤ℤ◌, ◌<ℤ◌, eqb_ℤ_iff, leb_ℤ_iff, ltb_ℤ_iff,
}
use llm_d_batch_gateway_oper.Controller.Rollout.{
  Deployment, StatefulSet, desired_replicas, reported_ready_replicas, deployment_rolled_out,
  deployment_replica_status, stateful_set_rolled_out, stateful_set_replica_status, is_available,
}

-- Every desired replica runs the latest spec and is ready, and no other is left.
pub record IsRolledOut (desired generation observed updated replicas ready : ℤ) : Type 0 where
  pub positive : pos 0 <ℤ desired
  pub seen : generation ≤ℤ observed
  pub current : updated ≡ desired
  pub no_surplus : replicas ≡ desired
  pub all_ready : desired ≤ℤ ready

ready_available :
    (desired ready : ℤ) (rolled : Bool)
    → is_available (record {
      replicas = desired;
      ready_replicas = reported_ready_replicas ready desired rolled;
    })
      ≡ (ltb_ℤ (pos 0) desired && rolled && leb_ℤ desired ready)
unfolding is_available reported_ready_replicas
ready_available desired ready rolled = ground arith

IsRolledOut-iff :
    (desired generation observed updated replicas ready : ℤ) (rolled revisions : Bool)
    → rolled ≡ (
        leb_ℤ generation observed
        && eqb_ℤ updated desired
        && eqb_ℤ replicas desired
        && leb_ℤ desired ready
        && revisions)
    → ((ltb_ℤ (pos 0) desired && rolled && leb_ℤ desired ready) ≡ true)
      ↔ (IsRolledOut desired generation observed updated replicas ready × (revisions ≡ true))
IsRolledOut-iff desired generation observed updated replicas ready rolled revisions e =
    let parts : (rolled ≡ true) ↔ (
        ((((generation ≤ℤ observed) × (updated ≡ desired)) × (replicas ≡ desired))
          × (desired ≤ℤ ready))
        × (revisions ≡ true)) =
      rw e (
        and_both _ revisions
          (and_both _ _
            (and_both _ _ (and_both _ _ (leb_ℤ_iff generation observed) (eqb_ℤ_iff updated desired))
              (eqb_ℤ_iff replicas desired))
            (leb_ℤ_iff desired ready))
          ((λ h. h), (λ h. h))) in
    ↔-trans
      (and_both _ _ (and_both _ _ (ltb_ℤ_iff (pos 0) desired) parts) (leb_ℤ_iff desired ready))
      (
        (λ h. (
          record {
            positive = h.0.0;
            seen = h.0.1.0.0.0.0;
            current = h.0.1.0.0.0.1;
            no_surplus = h.0.1.0.0.1;
            all_ready = h.1;
          },
          h.0.1.1,
        )),
        (λ h. (
          (h.0.positive, ((((h.0.seen, h.0.current), h.0.no_surplus), h.0.all_ready), h.1)),
          h.0.all_ready,
        )),
      )

-- A Deployment makes its component available exactly if at least one replica is desired, the
-- controller has seen the latest spec, every desired replica runs it and is ready, and no surplus
-- replica is left.
pub deployment_available_iff :
    (d : Deployment)
    → (is_available (deployment_replica_status d) ≡ true)
      ↔ IsRolledOut
          (desired_replicas d.spec_replicas)
          d.generation
          d.observed_generation
          d.updated_replicas
          d.replicas
          d.ready_replicas
unfolding deployment_replica_status
deployment_available_iff d =
    let desired = desired_replicas d.spec_replicas in
    rw (ready_available desired d.ready_replicas (deployment_rolled_out d)) (
      ↔-trans
        (IsRolledOut-iff desired d.generation d.observed_generation d.updated_replicas d.replicas
          d.ready_replicas (deployment_rolled_out d) true (ground arith))
        ((λ h. h.0), (λ h. (h, refl))))

-- A StatefulSet makes its component available exactly if, besides, no replica is left on an older
-- revision.
pub stateful_set_available_iff :
    (ss : StatefulSet)
    → (is_available (stateful_set_replica_status ss) ≡ true) ↔ (
        IsRolledOut
          (desired_replicas ss.spec_replicas)
          ss.generation
          ss.observed_generation
          ss.updated_replicas
          ss.replicas
          ss.ready_replicas
        × (ss.current_revision ≡ ss.update_revision))
unfolding stateful_set_replica_status
stateful_set_available_iff ss =
    let desired = desired_replicas ss.spec_replicas in
    rw (ready_available desired ss.ready_replicas (stateful_set_rolled_out ss)) (
      ↔-trans
        (IsRolledOut-iff desired ss.generation ss.observed_generation ss.updated_replicas
          ss.replicas ss.ready_replicas (stateful_set_rolled_out ss)
          (ss.current_revision == ss.update_revision) refl)
        (
          (λ h. (h.0, (eq_iff ss.current_revision ss.update_revision).0 h.1)),
          (λ h. (h.0, (eq_iff ss.current_revision ss.update_revision).1 h.1)),
        ))

reported_le :
    (ready desired : ℤ) (rolled : Bool)
    → pos 0 ≤ℤ desired
    → reported_ready_replicas ready desired rolled ≤ℤ desired
unfolding reported_ready_replicas
reported_le ready desired rolled h = ground arith

-- Neither kind of workload ever reports more ready replicas than desired ones, provided that the
-- desired number is not negative.
pub ready_within_desired :
    (d : Deployment) (ss : StatefulSet)
    → pos 0 ≤ℤ desired_replicas d.spec_replicas
    → pos 0 ≤ℤ desired_replicas ss.spec_replicas
    → ((deployment_replica_status d).ready_replicas ≤ℤ (deployment_replica_status d).replicas)
      × ((stateful_set_replica_status ss).ready_replicas
          ≤ℤ (stateful_set_replica_status ss).replicas)
unfolding deployment_replica_status stateful_set_replica_status reported_ready_replicas
ready_within_desired d ss h k = (
  reported_le d.ready_replicas (desired_replicas d.spec_replicas) (deployment_rolled_out d) h,
  reported_le ss.ready_replicas (desired_replicas ss.spec_replicas) (stateful_set_rolled_out ss) k,
)
