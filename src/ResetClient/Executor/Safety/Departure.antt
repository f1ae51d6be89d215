-- ===== src/ResetClient/Executor/Safety/Departure.antt =====
-- reset_executor.h, `poll`: how a motion begins.
use xgc2_ugv_controller.Base.{
  ◌≡◌, refl, sym, ap, ◌∙◌, Bool, true, false, not, none, some, ◌&&◌, arith, if_cases, Bool-cases,
  inl, inr,
}
use xgc2_ugv_controller.Floating.{Double, ◌≺◌, ◌≼◌}
use xgc2_ugv_controller.ResetClient.Executor.{
  Executor, Authority, Permission, Progress, DeferredGo, Measurement, permission, active,
  is_executing, set_permission, with_permission, with_progress, authority_permission,
}
use xgc2_ugv_controller.ResetClient.Executor.Observe.{stopped, causal_stopped}
use xgc2_ugv_controller.ResetClient.Executor.Fields.{
  active-with_permission, permission-with_permission,
}
use xgc2_ugv_controller.ResetClient.Executor.Poll.{
  stop_motion, poll, poll_certify, poll_depart, certify, depart, new_executing,
}

module _ {D : Type 0} ⦃f : Double D⦄ where
  -- `u` is `e` after `poll`: a motion runs where one ran, or it began on the deferred Go.
  pub data Departure (m : Measurement D) (e u : Executor D) : Type 0 where
    stays : is_executing (permission u) ≡ is_executing (permission e) → Departure m e u
    departs :
        (zero : D) (certified : Bool) (go : DeferredGo D)
        → permission e ≡ Permission.await_go zero certified (some go)
        → permission u ≡ Permission.executing (new_executing go e.cfg.spec m)
        → u.acknowledged_id ≡ go.grant.grant_id
        → active e ≡ true
        → e.protocol_fault ≡ false
        → e.clock_invalid ≡ false
        → (zero ≺ m.pose_stamp) ≡ true
        → (m.pose_stamp ≼ m.ros_now) ≡ true
        → stopped m e ≡ true
        → (m.wall_now ≼ go.deadline) ≡ true
        → Departure m e u

  departed-permission :
      (p : Permission D) (g : Progress) (a : Authority D) (q : Permission D)
      → authority_permission (with_progress g (with_permission p (with_permission q a))) ≡ p
  departed-permission p g (Authority.retirement h r) q = refl
  departed-permission p g (Authority.run r) q = refl

  stop_motion-executing : (p : Permission D) → is_executing (stop_motion p) ≡ is_executing p
  stop_motion-executing (Permission.executing x) = refl
  stop_motion-executing Permission.none = refl
  stop_motion-executing Permission.await_brake = refl
  stop_motion-executing Permission.await_zero = refl
  stop_motion-executing Permission.complete = refl
  stop_motion-executing (Permission.await_stopped z) = refl
  stop_motion-executing (Permission.await_go z b d) = refl

  causal_stopped-facts :
      (m : Measurement D) (zero : D) (e : Executor D)
      → causal_stopped m zero e ≡ true
      → ((zero ≺ m.pose_stamp) ≡ true) × ((m.pose_stamp ≼ m.ros_now) ≡ true) × (stopped m e ≡ true)
  unfolding causal_stopped
  causal_stopped-facts m zero e h = ground arith

  certify-Departure :
      (m : Measurement D) (e : Executor D) (p : Permission D)
      → permission e ≡ p
      → e.protocol_fault ≡ false
      → Departure m e (depart m (set_permission (certify m e p) e) (certify m e p))
  certify-Departure m e (Permission.await_stopped zero) at fault =
      elim (Bool-cases (causal_stopped m zero e)) [
        | inl t ↦ rw t (
            stays (
              ap is_executing (permission-with_permission _ e.authority)
              ∙ sym (ap is_executing at)))
        | inr t ↦ rw t (
            stays (
              ap is_executing (permission-with_permission _ e.authority)
              ∙ sym (ap is_executing at)))
      ]
  certify-Departure m e (Permission.await_go zero certified (some go)) at fault =
      let u : Executor D =
        set_permission (Permission.await_go zero (causal_stopped m zero e) (some go)) e in
      if_cases (Departure m e)
        (causal_stopped m zero e
          && active u
          && not u.clock_invalid
          && causal_stopped m zero u
          && (m.wall_now ≼ go.deadline))
        (λ t.
          let facts = causal_stopped-facts m zero e (ground arith) in
          let live : active u ≡ true = ground arith in
          departs zero certified go at (departed-permission _ _ e.authority _) refl
            (sym (
                active-with_permission
                  (Permission.await_go zero (causal_stopped m zero e) (some go)) e.authority)
              ∙ ground arith)
            fault (ground arith) facts.0 facts.1 facts.2 (ground arith))
        (λ _.
          stays
            (ap is_executing (permission-with_permission _ e.authority) ∙ sym (ap is_executing at)))
  certify-Departure m e (Permission.await_go zero certified none) at fault =
      stays (ap is_executing (permission-with_permission _ e.authority) ∙ sym (ap is_executing at))
  certify-Departure m e Permission.none at fault =
      stays (ap is_executing (permission-with_permission _ e.authority) ∙ sym (ap is_executing at))
  certify-Departure m e Permission.await_brake at fault =
      stays (ap is_executing (permission-with_permission _ e.authority) ∙ sym (ap is_executing at))
  certify-Departure m e Permission.await_zero at fault =
      stays (ap is_executing (permission-with_permission _ e.authority) ∙ sym (ap is_executing at))
  certify-Departure m e Permission.complete at fault =
      stays (ap is_executing (permission-with_permission _ e.authority) ∙ sym (ap is_executing at))
  certify-Departure m e (Permission.executing x) at fault =
      stays (ap is_executing (permission-with_permission _ e.authority) ∙ sym (ap is_executing at))

  -- Polling begins a motion only where none ran on a deferred Go of a session that is under way, with
  -- no counter fault and a trusted clock, at rest by a pose that is later than the published zero and
  -- not in the future, before the Go's deadline; the new motion then is that of the Go's route, and the
  -- Go is acknowledged.
  pub poll-Departure : (m : Measurement D) (e : Executor D) → Departure m e (poll m e)
  unfolding poll poll_certify poll_depart
  poll-Departure m e =
      if_cases (Departure m e) e.protocol_fault
        (λ _. stays (
          ap is_executing (permission-with_permission _ e.authority)
          ∙ stop_motion-executing (permission e)))
        (λ fault.
          let u = certify m e (permission e) in
          rw (permission-with_permission u e.authority)
            (certify-Departure m e (permission e) refl fault))
