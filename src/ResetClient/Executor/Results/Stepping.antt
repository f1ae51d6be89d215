-- ===== src/ResetClient/Executor/Results/Stepping.antt =====
-- The result of a control period (`step`).
use xgc2_ugv_controller.Base.{◌≡◌, refl, true, false, not, some, ◌&&◌, arith, if_cases}
use xgc2_ugv_controller.Floating.{Double, ◌≺◌, ◌≼◌, ◌⊖◌}
use xgc2_ugv_controller.ResetClient.Executor.{
  Executor, Authority, Permission, Progress, Executing, Run, Measurement, permission, active,
  is_executing, set_permission,
}
use xgc2_ugv_controller.ResetClient.Executor.Observe.{causal_stopped}
use xgc2_ugv_controller.ResetClient.Executor.Poll.{
  depart, poll_certify, poll_depart, poll, new_executing,
}
use xgc2_ugv_controller.ResetClient.Executor.Control.{
  follow_route, note_stall, note_settle, park, driven, arrive_or_go_on, control, in_tube,
  is_stalled, has_arrived, is_spent, elapsed, is_due,
}
use xgc2_ugv_controller.ResetClient.Executor.Step.{
  step_motion, step_active, step_progress, step_authority, step, is_overdue, is_unanswered,
}
use xgc2_ugv_controller.ResetClient.Executor.Results.{
  IsLive, OneResult, goes_on, set_permission-IsLive, set_progress-IsLive, request_authority-IsLive,
  ended-OneResult, held-OneResult,
}

module _ {D : Type 0} ⦃f : Double D⦄ (start : Executor D) where
  depart-IsLive :
      (m : Measurement D) (e : Executor D) (p : Permission D)
      → IsLive start e
      → IsLive start (depart m e p)
  depart-IsLive m e (Permission.await_go zero certified (some go)) l =
      let executing = Permission.executing (new_executing go e.cfg.spec m) in
      let moving = set_permission-IsLive executing start e l in
      if_cases (IsLive start)
        (certified
          && active e
          && not e.clock_invalid
          && causal_stopped m zero e
          && (m.wall_now ≼ go.deadline))
        (λ _. set_progress-IsLive Progress.waiting start _ refl (record {
          is_active = moving.is_active;
          one_slot = moving.one_slot;
          same_session = moving.same_session;
          same_pending = moving.same_pending;
        }))
        (λ _. l)
  depart-IsLive m e _ l = l

  -- Polling goes on with the session.
  pub poll-IsLive : (m : Measurement D) (e : Executor D) → IsLive start e → IsLive start (poll m e)
  unfolding poll poll_certify poll_depart
  poll-IsLive m e l =
      if_cases (IsLive start) e.protocol_fault (λ _. set_permission-IsLive _ start e l)
        (λ _. depart-IsLive m _ _ (set_permission-IsLive _ start e l))

  driven-OneResult :
      (x : Executing D) (e : Executor D) → IsLive start e → OneResult start (driven x e)
  unfolding driven
  driven-OneResult x e l = goes_on (set_progress-IsLive _ start e (ground arith) l) refl

  arrive_or_go_on-OneResult :
      (m : Measurement D) (x : Executing D) (e : Executor D)
      → IsLive start e
      → OneResult start (arrive_or_go_on m x e)
  unfolding arrive_or_go_on
  arrive_or_go_on-OneResult m x e l =
      let parked = park e m x in
      let live = set_permission-IsLive (Permission.executing parked) start e l in
      if_cases (OneResult start) (has_arrived e x) (λ _. ended-OneResult _ _ _ m start e l)
        (λ _.
          if_cases (OneResult start)
            (is_spent (set_permission (Permission.executing parked) e) m parked)
            (λ _. held-OneResult start _ (request_authority-IsLive start _ live))
            (λ _. driven-OneResult parked _ live))

  control-OneResult :
      (m : Measurement D) (r : Run D) (x : Executing D) (e : Executor D)
      → IsLive start e
      → OneResult start (control m r x e)
  unfolding control
  control-OneResult m r x e l =
      let followed = follow_route e m x in
      let live = λ (y : Executing D). set_permission-IsLive (Permission.executing y) start e l in
      if_cases (OneResult start) (not (in_tube e r followed))
        (λ _. ended-OneResult _ _ _ m start _ (live followed))
        (λ _.
          if_cases (OneResult start) (is_stalled e m followed)
            (λ _. ended-OneResult _ _ _ m start _ (live (note_stall m followed)))
            (λ _.
              arrive_or_go_on-OneResult m _ _
                (live (note_settle e m (elapsed e m x) (note_stall m followed)))))

  step_motion-OneResult :
      (m : Measurement D) (r : Run D) (p : Permission D) (e : Executor D)
      → IsLive start e
      → OneResult start (step_motion m r p e)
  unfolding step_motion
  step_motion-OneResult m r (Permission.executing x) e l =
      if_cases (OneResult start) (not x.tracker.active)
        (λ _. held-OneResult start _ (set_permission-IsLive _ start e l))
        (λ _.
          if_cases (OneResult start) (x.heartbeat_deadline ≺ m.wall_now)
            (λ _. held-OneResult start _ (request_authority-IsLive start e l))
            (λ _.
              if_cases (OneResult start) (is_due e m x) (λ _. control-OneResult m r x e l)
                (λ _. driven-OneResult x e l)))
  step_motion-OneResult m r _ e l = held-OneResult start e l

  step_active-OneResult :
      (m : Measurement D) (r : Run D) (e : Executor D)
      → IsLive start e
      → OneResult start (step_active m r e)
  unfolding step_active
  step_active-OneResult m r e l =
      if_cases (OneResult start) e.protocol_fault (λ _. ended-OneResult _ _ _ m start e l)
        (λ _.
          if_cases (OneResult start) (is_overdue e.cfg r m) (λ _. ended-OneResult _ _ _ m start e l)
            (λ _.
              if_cases (OneResult start) (not m.healthy)
                (λ _. held-OneResult start _ (set_permission-IsLive _ start e l))
                (λ _.
                  if_cases (OneResult start) (not r.target_valid)
                    (λ _.
                      if_cases (OneResult start)
                        (e.cfg.no_target_hold ≼ (m.wall_now ⊖ r.enter_wall))
                        (λ _. ended-OneResult _ _ _ m start e l) (λ _. held-OneResult start e l))
                    (λ _.
                      if_cases (OneResult start) (is_unanswered e.cfg r m)
                        (λ _. ended-OneResult _ _ _ m start e l)
                        (λ _.
                          if_cases (OneResult start) e.clock_invalid
                            (λ _. held-OneResult start _ (
                              if_cases (IsLive start) (is_executing (permission e))
                                (λ _. request_authority-IsLive start e l) (λ _. l)))
                            (λ _. step_motion-OneResult m r (permission e) e l))))))

  step_progress-OneResult :
      (m : Measurement D) (r : Run D) (g : Progress) (e : Executor D)
      → e.authority ≡ Authority.run r
      → r.progress ≡ g
      → IsLive start e
      → OneResult start (step_progress m r g e)
  unfolding step_progress
  step_progress-OneResult m r (Progress.done b) e at same l = absurd (ground (arith, l.is_active))
  step_progress-OneResult m r Progress.requesting e at same l = step_active-OneResult m r e l
  step_progress-OneResult m r Progress.waiting e at same l = step_active-OneResult m r e l
  step_progress-OneResult m r Progress.moving e at same l = step_active-OneResult m r e l
  step_progress-OneResult m r Progress.settling e at same l = step_active-OneResult m r e l

  pub step_authority-OneResult :
      (m : Measurement D) (a : Authority D) (e : Executor D)
      → e.authority ≡ a
      → IsLive start e
      → OneResult start (step_authority m a e)
  unfolding step_authority
  step_authority-OneResult m (Authority.retirement h p) e at l =
      absurd (ground (arith, l.is_active))
  step_authority-OneResult m (Authority.run r) e at l =
      step_progress-OneResult m r r.progress e at refl l

module _ {D : Type 0} ⦃f : Double D⦄ where
  -- With a result slot free, a control period of a session that is under way either goes on with the
  -- same session and the same pending results and does not report an end, or it ends the session,
  -- reports the end and queues exactly one result, of that session, behind those pending before.
  pub step-OneResult :
      (m : Measurement D) (e : Executor D)
      → active e ≡ true
      → (e.previous_pending && e.result_pending) ≡ false
      → OneResult e (step m e)
  unfolding step
  step-OneResult m e a free = step_authority-OneResult e m (poll m e).authority (poll m e) refl (
      poll-IsLive e m e
        (record { is_active = a; one_slot = free; same_session = refl; same_pending = refl }))
