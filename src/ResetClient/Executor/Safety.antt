-- ===== src/ResetClient/Executor/Safety.antt =====
-- reset_executor.h, `step`: when the twist that CONTROL sends to the wheels may be other than zero.
pub mod Departure
pub mod Deadline
pub mod Rest
pub mod Replay
use xgc2_ugv_controller.Base.{
  ℕ, ◌≡◌, refl, sym, ap, ◌∙◌, Bool, true, false, not, none, some, ◌&&◌, ◌||◌, arith, if_cases,
  if◌then◌else◌,
}
use xgc2_ugv_controller.Floating.{Double, ◌≺◌, ◌≼◌, ◌⊖◌}
use xgc2_ugv_controller.ResetClient.Protocol.{Outcome, Reason}
use xgc2_ugv_controller.ResetClient.Tracker.{no_command}
use xgc2_ugv_controller.ResetClient.Executor.{
  Executor, Authority, Permission, Progress, Executing, Run, Measurement, StepOutput, permission,
  active, is_executing, set_permission, authority_permission,
}
use xgc2_ugv_controller.ResetClient.Executor.Session.{request_authority, end, held, finished}
use xgc2_ugv_controller.ResetClient.Executor.Poll.{stop_motion, poll}
use xgc2_ugv_controller.ResetClient.Executor.Control.{
  follow_route, note_stall, note_settle, park, driven, arrive_or_go_on, control, in_tube,
  is_stalled, has_arrived, is_spent, elapsed, is_due,
}
use xgc2_ugv_controller.ResetClient.Executor.Step.{
  step_motion, step_active, step_progress, step_authority, step, is_overdue, is_unanswered,
}

module _ {D : Type 0} ⦃f : Double D⦄ where
  -- `polled` is the executor as `poll` leaves it: the twist is zero, or a motion that is permitted gives it.
  pub data SafeOutput (m : Measurement D) (polled : Executor D) (out : StepOutput D) : Type 0 where
    stops : out.command ≡ no_command → SafeOutput m polled out
    drives :
        (r : Run D) (x : Executing D)
        → polled.authority ≡ Authority.run r
        → r.permission ≡ Permission.executing x
        → polled.protocol_fault ≡ false
        → polled.clock_invalid ≡ false
        → m.healthy ≡ true
        → r.target_valid ≡ true
        → x.tracker.active ≡ true
        → (x.heartbeat_deadline ≺ m.wall_now) ≡ false
        → is_overdue polled.cfg r m ≡ false
        → is_unanswered polled.cfg r m ≡ false
        → out.ended ≡ false
        → SafeOutput m polled out

  -- The twist is zero where the step ends the session, or it goes on.
  data Halts (out : StepOutput D) : Type 0 where
    still : out.command ≡ no_command → Halts out
    goes : out.ended ≡ false → Halts out

  held-still : (m : Measurement D) (start e : Executor D) → SafeOutput m start (held e).1
  unfolding held
  held-still m start e = stops refl

  finished-still : (m : Measurement D) (start e : Executor D) → SafeOutput m start (finished e).1
  unfolding finished
  finished-still m start e = stops refl

  driven-Halts : (x : Executing D) (e : Executor D) → Halts (driven x e).1
  unfolding driven
  driven-Halts x e = goes refl

  arrive_or_go_on-Halts :
      (m : Measurement D) (x : Executing D) (e : Executor D) → Halts (arrive_or_go_on m x e).1
  unfolding arrive_or_go_on finished held
  arrive_or_go_on-Halts m x e =
      if_cases (λ (o : Executor D × StepOutput D). Halts o.1) (has_arrived e x) (λ _. still refl)
        (λ _.
          if_cases (λ (o : Executor D × StepOutput D). Halts o.1)
            (is_spent (set_permission (Permission.executing (park e m x)) e) m (park e m x))
            (λ _. still refl) (λ _. driven-Halts _ _))

  control-Halts :
      (m : Measurement D) (r : Run D) (x : Executing D) (e : Executor D) → Halts (control m r x e).1
  unfolding control finished
  control-Halts m r x e =
      if_cases (λ (o : Executor D × StepOutput D). Halts o.1)
        (not (in_tube e r (follow_route e m x))) (λ _. still refl)
        (λ _.
          if_cases (λ (o : Executor D × StepOutput D). Halts o.1)
            (is_stalled e m (follow_route e m x)) (λ _. still refl)
            (λ _. arrive_or_go_on-Halts m _ _))

  Halts-SafeOutput :
      (m : Measurement D) (e : Executor D) (out : StepOutput D)
      → Halts out
      → (out.ended ≡ false → SafeOutput m e out)
      → SafeOutput m e out
  Halts-SafeOutput m e out (still z) k = stops z
  Halts-SafeOutput m e out (goes g) k = k g

  step_motion-SafeOutput :
      (m : Measurement D) (r : Run D) (p : Permission D) (e : Executor D)
      → e.authority ≡ Authority.run r
      → r.permission ≡ p
      → e.protocol_fault ≡ false
      → e.clock_invalid ≡ false
      → m.healthy ≡ true
      → r.target_valid ≡ true
      → is_overdue e.cfg r m ≡ false
      → is_unanswered e.cfg r m ≡ false
      → SafeOutput m e (step_motion m r p e).1
  unfolding step_motion
  step_motion-SafeOutput m r (Permission.executing x) e at same fault clock healthy valid late
        lost =
      if_cases (λ (o : Executor D × StepOutput D). SafeOutput m e o.1) (not x.tracker.active)
        (λ _. held-still m e _)
        (λ a.
          if_cases (λ (o : Executor D × StepOutput D). SafeOutput m e o.1)
            (x.heartbeat_deadline ≺ m.wall_now) (λ _. held-still m e _)
            (λ h.
              let permitted : (out : StepOutput D) → out.ended ≡ false → SafeOutput m e out =
                λ out on.
                  drives r x at same fault clock healthy valid (ground arith) h late lost on in
              if_cases (λ (o : Executor D × StepOutput D). SafeOutput m e o.1) (is_due e m x)
                (λ _. Halts-SafeOutput m e _ (control-Halts m r x e) (permitted _))
                (λ _. Halts-SafeOutput m e _ (driven-Halts x e) (permitted _))))
  step_motion-SafeOutput m r _ e at same fault clock healthy valid late lost = held-still m e e

  step_active-SafeOutput :
      (m : Measurement D) (r : Run D) (e : Executor D)
      → e.authority ≡ Authority.run r
      → SafeOutput m e (step_active m r e).1
  unfolding step_active
  step_active-SafeOutput m r e at =
      let Safe = λ (o : Executor D × StepOutput D). SafeOutput m e o.1 in
      if_cases Safe e.protocol_fault (λ _. finished-still m e _)
        (λ fault.
          if_cases Safe (is_overdue e.cfg r m) (λ _. finished-still m e _)
            (λ late.
              if_cases Safe (not m.healthy) (λ _. held-still m e _)
                (λ healthy.
                  if_cases Safe (not r.target_valid)
                    (λ _.
                      if_cases Safe (e.cfg.no_target_hold ≼ (m.wall_now ⊖ r.enter_wall))
                        (λ _. finished-still m e _) (λ _. held-still m e e))
                    (λ valid.
                      if_cases Safe (is_unanswered e.cfg r m) (λ _. finished-still m e _)
                        (λ lost.
                          if_cases Safe e.clock_invalid (λ _. held-still m e _)
                            (λ clock.
                              step_motion-SafeOutput m r (permission e) e at
                                (sym (ap authority_permission at)) fault clock (ground arith)
                                (ground arith) late lost))))))

  step_progress-SafeOutput :
      (m : Measurement D) (r : Run D) (g : Progress) (e : Executor D)
      → e.authority ≡ Authority.run r
      → SafeOutput m e (step_progress m r g e).1
  unfolding step_progress
  step_progress-SafeOutput m r (Progress.done true) e at = stops refl
  step_progress-SafeOutput m r (Progress.done false) e at = finished-still m e e
  step_progress-SafeOutput m r Progress.requesting e at = step_active-SafeOutput m r e at
  step_progress-SafeOutput m r Progress.waiting e at = step_active-SafeOutput m r e at
  step_progress-SafeOutput m r Progress.moving e at = step_active-SafeOutput m r e at
  step_progress-SafeOutput m r Progress.settling e at = step_active-SafeOutput m r e at

  step_authority-SafeOutput :
      (m : Measurement D) (a : Authority D) (e : Executor D)
      → e.authority ≡ a
      → SafeOutput m e (step_authority m a e).1
  unfolding step_authority
  step_authority-SafeOutput m (Authority.retirement h p) e at = stops refl
  step_authority-SafeOutput m (Authority.run r) e at = step_progress-SafeOutput m r r.progress e at

  -- The twist of a control period is zero unless the session that `poll` leaves is executing a route
  -- on an active tracker, without a counter fault, with a ROS clock that is trusted, healthy
  -- measurements and a valid target, before the deadline of the last Go and the session's own
  -- deadline, with the coordinator heard in time; and such a period does not end the session.
  pub step-SafeOutput : (m : Measurement D) (e : Executor D) → SafeOutput m (poll m e) (step m e).1
  unfolding step
  step-SafeOutput m e = step_authority-SafeOutput m (poll m e).authority (poll m e) refl
