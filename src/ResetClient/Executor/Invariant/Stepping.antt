-- ===== src/ResetClient/Executor/Invariant/Stepping.antt =====
-- The protocol invariant in a control period (`step`).
use xgc2_ugv_controller.Base.{◌≡◌, refl, true, false, arith, if_cases, not, String}
use xgc2_ugv_controller.Floating.{Double, ◌≺◌, ◌≼◌, ◌⊖◌}
use xgc2_ugv_controller.ResetClient.Protocol.{Outcome, Reason}
use xgc2_ugv_controller.ResetClient.Executor.{
  Executor, Authority, Permission, Progress, Executing, Run, Measurement, permission, active,
  is_executing, set_permission, StepOutput,
}
use xgc2_ugv_controller.ResetClient.Executor.Session.{end, held, finished}
use xgc2_ugv_controller.ResetClient.Executor.Poll.{poll}
use xgc2_ugv_controller.ResetClient.Executor.Control.{
  follow_route, note_stall, park, driven, arrive_or_go_on, control, in_tube, is_stalled,
  has_arrived, is_spent, elapsed, is_due,
}
use xgc2_ugv_controller.ResetClient.Executor.Step.{
  step_motion, step_active, step_progress, step_authority, step, is_overdue, is_unanswered,
}
use xgc2_ugv_controller.ResetClient.Executor.Invariant.{
  Consistent, Inv, set_progress-Inv, request_authority-Inv, finished-end-Inv, held-Inv,
}
use xgc2_ugv_controller.ResetClient.Executor.Invariant.Motion.{
  Moves, move-Inv, stop_motion-Inv, poll-Inv, follow_route-Moves, note_stall-Moves,
  note_settle-Moves, park-Moves,
}

module _ {D : Type 0} ⦃f : Double D⦄ where
  record Keeps (r : Executor D × StepOutput D) : Type 0 where
    kept : Inv r.0

  driven-Keeps : (x : Executing D) (e : Executor D) → Inv e → Keeps (driven x e)
  unfolding driven
  driven-Keeps x e v = record { kept = set_progress-Inv _ e (λ _. ground arith) v }

  ended-Keeps :
      (o : Outcome) (r : Reason) (s : String) (m : Measurement D) (e : Executor D)
      → Inv e
      → Keeps (finished (end o r s m e))
  ended-Keeps o r s m e v = record { kept = finished-end-Inv o r s m e v }

  held-Keeps : (e : Executor D) → Inv e → Keeps (held e)
  held-Keeps e v = record { kept = held-Inv e v }

  -- `e` is the state whose motion is replaced.
  arrive_or_go_on-Keeps :
      (m : Measurement D) (x : Executing D) (e : Executor D)
      → Moves e x
      → Keeps (arrive_or_go_on m x (set_permission (Permission.executing x) e))
  unfolding arrive_or_go_on
  arrive_or_go_on-Keeps m x e moves =
      let e3 = set_permission (Permission.executing x) e in
      let parked = park e3 m x in
      let still : Moves e3 x = (moves.0, ground arith) in
      let v = move-Inv parked e3 (park-Moves e3 m x still) in
      if_cases Keeps (has_arrived e3 x) (λ _. ended-Keeps _ _ _ m e3 (move-Inv x e moves))
        (λ _.
          if_cases Keeps (is_spent (set_permission (Permission.executing parked) e3) m parked)
            (λ _. held-Keeps _ (request_authority-Inv false _)) (λ _. driven-Keeps parked _ v))

  control-Keeps :
      (m : Measurement D) (r : Run D) (x : Executing D) (e : Executor D)
      → Moves e x
      → Keeps (control m r x e)
  unfolding control
  control-Keeps m r x e moves =
      let followed = follow_route e m x in
      let follows = follow_route-Moves e m x moves in
      let notes = note_stall-Moves e m followed follows in
      if_cases Keeps (not (in_tube e r followed))
        (λ _. ended-Keeps _ _ _ m _ (move-Inv followed e follows))
        (λ _.
          if_cases Keeps (is_stalled e m followed)
            (λ _. ended-Keeps _ _ _ m _ (move-Inv (note_stall m followed) e notes))
            (λ _. arrive_or_go_on-Keeps m _ e (note_settle-Moves e m (elapsed e m x) _ notes)))

  step_motion-Keeps :
      (m : Measurement D) (r : Run D) (p : Permission D) (e : Executor D)
      → Consistent p e.brake_id e.acknowledged_id e.last_decision_id
      → (is_executing p ≡ true → active e ≡ true)
      → Inv e
      → Keeps (step_motion m r p e)
  unfolding step_motion
  step_motion-Keeps m r (Permission.executing x) e c a v =
      let moves : Moves e x = (c, a refl) in
      if_cases Keeps (not x.tracker.active) (λ _. held-Keeps _ (move-Inv _ e moves))
        (λ _.
          if_cases Keeps (x.heartbeat_deadline ≺ m.wall_now)
            (λ _. held-Keeps _ (request_authority-Inv false e))
            (λ _.
              if_cases Keeps (is_due e m x) (λ _. control-Keeps m r x e moves)
                (λ _. driven-Keeps x e v)))
  step_motion-Keeps m r _ e c a v = held-Keeps e v

  step_active-Keeps :
      (m : Measurement D) (r : Run D) (e : Executor D) → Inv e → Keeps (step_active m r e)
  unfolding step_active
  step_active-Keeps m r e v =
      if_cases Keeps e.protocol_fault (λ _. ended-Keeps _ _ _ m e v)
        (λ _.
          if_cases Keeps (is_overdue e.cfg r m) (λ _. ended-Keeps _ _ _ m e v)
            (λ _.
              if_cases Keeps (not m.healthy) (λ _. held-Keeps _ (stop_motion-Inv e v))
                (λ _.
                  if_cases Keeps (not r.target_valid)
                    (λ _.
                      if_cases Keeps (e.cfg.no_target_hold ≼ (m.wall_now ⊖ r.enter_wall))
                        (λ _. ended-Keeps _ _ _ m e v) (λ _. held-Keeps e v))
                    (λ _.
                      if_cases Keeps (is_unanswered e.cfg r m) (λ _. ended-Keeps _ _ _ m e v)
                        (λ _.
                          if_cases Keeps e.clock_invalid
                            (λ _. held-Keeps _ (
                              if_cases Inv (is_executing (permission e))
                                (λ _. request_authority-Inv false e) (λ _. v)))
                            (λ _.
                              step_motion-Keeps m r (permission e) e v.authorized.consistent
                                v.authorized.motion_active v))))))

  step_progress-Keeps :
      (m : Measurement D) (r : Run D) (g : Progress) (e : Executor D)
      → e.authority ≡ Authority.run r
      → r.progress ≡ g
      → Inv e
      → Keeps (step_progress m r g e)
  unfolding step_progress finished
  step_progress-Keeps m r (Progress.done false) e at same v = record {
    kept =
        set_progress-Inv (Progress.done true) e (λ x. ground (arith, v.authorized.motion_active)) v;
  }
  step_progress-Keeps m r (Progress.done true) e at same v = record { kept = v }
  step_progress-Keeps m r Progress.requesting e at same v = step_active-Keeps m r e v
  step_progress-Keeps m r Progress.waiting e at same v = step_active-Keeps m r e v
  step_progress-Keeps m r Progress.moving e at same v = step_active-Keeps m r e v
  step_progress-Keeps m r Progress.settling e at same v = step_active-Keeps m r e v

  step_authority-Keeps :
      (m : Measurement D) (a : Authority D) (e : Executor D)
      → e.authority ≡ a
      → Inv e
      → Keeps (step_authority m a e)
  unfolding step_authority
  step_authority-Keeps m (Authority.retirement h p) e at v = record { kept = v }
  step_authority-Keeps m (Authority.run r) e at v = step_progress-Keeps m r r.progress e at refl v

  -- A control period keeps the ids and the permission consistent, however it ends.
  pub step-Inv : (m : Measurement D) (e : Executor D) → Inv e → Inv (step m e).0
  unfolding step
  step-Inv m e v =
      (step_authority-Keeps m (poll m e).authority (poll m e) refl (poll-Inv m e v)).kept
