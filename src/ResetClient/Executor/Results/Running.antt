-- ===== src/ResetClient/Executor/Results/Running.antt =====
-- The two result slots in `poll` and `step`.
use xgc2_ugv_controller.Base.{
  ◌≡◌, refl, true, false, not, some, ◌&&◌, arith, if_cases, Bool-cases, inl, inr,
}
use xgc2_ugv_controller.Floating.{Double, ◌≼◌}
use xgc2_ugv_controller.ResetClient.Executor.{
  Executor, Authority, Permission, Progress, Run, Measurement, active,
}
use xgc2_ugv_controller.ResetClient.Executor.Session.{finished}
use xgc2_ugv_controller.ResetClient.Executor.Poll.{poll, poll_certify, poll_depart, depart}
use xgc2_ugv_controller.ResetClient.Executor.Observe.{causal_stopped}
use xgc2_ugv_controller.ResetClient.Executor.Step.{step, step_authority, step_progress}
use xgc2_ugv_controller.ResetClient.Executor.Results.{OneResult, goes_on, ends}
use xgc2_ugv_controller.ResetClient.Executor.Results.Stepping.{step_authority-OneResult}
use xgc2_ugv_controller.ResetClient.Executor.Results.Slots.{Slots, idle-Slots, set_permission-Slots}

module _ {D : Type 0} ⦃f : Double D⦄ where
  depart-Slots :
      (m : Measurement D) (e : Executor D) (p : Permission D) → Slots e → Slots (depart m e p)
  depart-Slots m e (Permission.await_go zero certified (some go)) s =
      if_cases Slots
        (certified
          && active e
          && not e.clock_invalid
          && causal_stopped m zero e
          && (m.wall_now ≼ go.deadline))
        (λ t. record { one_free = λ _. s.one_free (ground arith) }) (λ _. s)
  depart-Slots m e _ s = s

  pub poll-Slots : (m : Measurement D) (e : Executor D) → Slots e → Slots (poll m e)
  unfolding poll poll_certify poll_depart
  poll-Slots m e s =
      if_cases Slots e.protocol_fault (λ _. set_permission-Slots _ e s)
        (λ _. depart-Slots m _ _ (set_permission-Slots _ e s))

  step_progress-Slots :
      (m : Measurement D) (r : Run D) (g : Progress) (e : Executor D)
      → e.authority ≡ Authority.run r
      → r.progress ≡ g
      → active e ≡ false
      → Slots (step_progress m r g e).0
  unfolding step_progress finished
  step_progress-Slots m r (Progress.done true) e at same idle = idle-Slots e idle
  step_progress-Slots m r (Progress.done false) e at same idle = idle-Slots _ (rw at refl)
  step_progress-Slots m r _ e at same idle = absurd (ground arith)

  step_authority-Slots :
      (m : Measurement D) (a : Authority D) (e : Executor D)
      → e.authority ≡ a
      → active e ≡ false
      → Slots (step_authority m a e).0
  unfolding step_authority
  step_authority-Slots m (Authority.retirement h p) e at idle = idle-Slots e idle
  step_authority-Slots m (Authority.run r) e at idle =
      step_progress-Slots m r r.progress e at refl idle

  OneResult-Slots : (start : Executor D) (r : _) → OneResult start r → Slots r.0
  OneResult-Slots start r (goes_on l same) = record { one_free = λ _. l.one_slot }
  OneResult-Slots start r (ends result idle said same queued) = idle-Slots _ idle

  pub step-Slots : (m : Measurement D) (e : Executor D) → Slots e → Slots (step m e).0
  unfolding step
  step-Slots m e s =
      let polled = poll m e in
      let slots = poll-Slots m e s in
      elim (Bool-cases (active polled)) [
        | inl a ↦ OneResult-Slots polled _ (
            step_authority-OneResult polled m polled.authority polled refl (record {
              is_active = a;
              one_slot = slots.one_free a;
              same_session = refl;
              same_pending = refl;
            }))
        | inr idle ↦ step_authority-Slots m polled.authority polled refl idle
      ]
