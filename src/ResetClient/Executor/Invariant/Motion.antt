-- ===== src/ResetClient/Executor/Invariant/Motion.antt =====
-- The protocol invariant in `poll`, and in the changes that a control period makes to the motion.
use xgc2_ugv_controller.Base.{
  ℕ, ◌≤◌, ◌<◌, ◌≡◌, refl, sym, ◌∙◌, true, some, arith, if_cases, ◌&&◌, not,
}
use xgc2_ugv_controller.Floating.{Double, ◌≼◌}
use xgc2_ugv_controller.ResetClient.Protocol.{VehicleSpec}
use xgc2_ugv_controller.ResetClient.Tracker.Segment.{start_route-OnRoute, step_tracker-OnRoute}
use xgc2_ugv_controller.ResetClient.Executor.{
  Executor, Permission, Progress, Executing, Measurement, permission, active, is_executing,
  set_permission, DeferredGo,
}
use xgc2_ugv_controller.ResetClient.Executor.Observe.{causal_stopped}
use xgc2_ugv_controller.ResetClient.Executor.Poll.{
  stop_motion, certify, depart, new_executing, poll_certify, poll_depart, poll,
}
use xgc2_ugv_controller.ResetClient.Executor.Control.{follow_route, note_stall, note_settle, park}
use xgc2_ugv_controller.ResetClient.Executor.Invariant.{
  Consistent, Inv, with_permission-IsAuthorized, with_progress-IsAuthorized, set_permission-Inv,
}

module _ {D : Type 0} ⦃f : Double D⦄ where
  stop_motion-Consistent :
      (p : Permission D) (brake ack last : ℕ)
      → Consistent p brake ack last
      → Consistent (stop_motion p) brake ack last
  stop_motion-Consistent (Permission.executing x) brake ack last c = c
  stop_motion-Consistent _ brake ack last c = c

  stop_motion-executing : (p : Permission D) → is_executing (stop_motion p) ≡ is_executing p
  stop_motion-executing (Permission.executing x) = refl
  stop_motion-executing _ = refl

  pub stop_motion-Inv :
      (e : Executor D) → Inv e → Inv (set_permission (stop_motion (permission e)) e)
  stop_motion-Inv e v =
      set_permission-Inv (stop_motion (permission e)) e
        (stop_motion-Consistent (permission e) _ _ _ v.authorized.consistent)
        (λ x. v.authorized.motion_active (sym (stop_motion-executing (permission e)) ∙ x))

  certify-Consistent :
      (m : Measurement D) (e : Executor D) (p : Permission D) (brake ack last : ℕ)
      → Consistent p brake ack last
      → Consistent (certify m e p) brake ack last
  certify-Consistent m e (Permission.await_stopped zero) brake ack last c = ground arith
  certify-Consistent m e (Permission.await_go zero b d) brake ack last c = c
  certify-Consistent m e _ brake ack last c = c

  certify-executing :
      (m : Measurement D) (e : Executor D) (p : Permission D)
      → is_executing (certify m e p) ≡ is_executing p
  certify-executing m e (Permission.await_stopped zero) = ground arith
  certify-executing m e _ = refl

  poll_certify-Inv : (m : Measurement D) (e : Executor D) → Inv e → Inv (poll_certify m e)
  unfolding poll_certify
  poll_certify-Inv m e v =
      set_permission-Inv (certify m e (permission e)) e
        (certify-Consistent m e (permission e) _ _ _ v.authorized.consistent)
        (λ x. v.authorized.motion_active (sym (certify-executing m e (permission e)) ∙ x))

  -- The motion that a deferred Go starts stands at the beginning of its own route.
  new_executing-Consistent :
      (go : DeferredGo D) (spec : VehicleSpec D) (m : Measurement D) (brake last : ℕ)
      → 0 < brake
      → (brake < go.grant.grant_id) × (go.grant.grant_id ≤ last)
      → Consistent (Permission.executing (new_executing go spec m)) brake go.grant.grant_id last
  unfolding new_executing
  new_executing-Consistent go spec m brake last named later =
      (named, refl, later.0, later.1, start_route-OnRoute _ _ _ _ _ _)

  depart-Inv :
      (m : Measurement D) (e : Executor D) (p : Permission D)
      → Consistent p e.brake_id e.acknowledged_id e.last_decision_id
      → Inv e
      → Inv (depart m e p)
  depart-Inv m e (Permission.await_go zero certified (some go)) c v =
      if_cases Inv
        (certified
          && active e
          && not e.clock_invalid
          && causal_stopped m zero e
          && (m.wall_now ≼ go.deadline))
        (λ t. record {
          authorized =
              with_progress-IsAuthorized Progress.waiting _ (λ _. refl)
                (with_permission-IsAuthorized (Permission.executing (new_executing go e.cfg.spec m))
                  e.authority
                  (new_executing-Consistent go e.cfg.spec m e.brake_id e.last_decision_id c.0 c.3)
                  (λ _. ground arith));
        })
        (λ _. v)
  depart-Inv m e _ c v = v

  pub poll-Inv : (m : Measurement D) (e : Executor D) → Inv e → Inv (poll m e)
  unfolding poll poll_depart
  poll-Inv m e v =
      if_cases Inv e.protocol_fault (λ _. stop_motion-Inv e v)
        (λ _.
          let certified = poll_certify-Inv m e v in
          depart-Inv m _ (permission (poll_certify m e)) certified.authorized.consistent certified)

  -- What holds of a motion that takes the place of the one that is executed.
  abbrev pub Moves : Executor D → Executing D → Type 0
  Moves e x =
      Consistent (Permission.executing x) e.brake_id e.acknowledged_id e.last_decision_id
      × (active e ≡ true)

  pub move-Inv :
      (x : Executing D) (e : Executor D)
      → Moves e x
      → Inv (set_permission (Permission.executing x) e)
  move-Inv x e moves = set_permission-Inv (Permission.executing x) e moves.0 (λ _. moves.1)

  pub follow_route-Moves :
      (e : Executor D) (m : Measurement D) (x : Executing D)
      → Moves e x
      → Moves e (follow_route e m x)
  unfolding follow_route
  follow_route-Moves e m x (c, a) =
      ((c.0, c.1, c.2, c.3, (step_tracker-OnRoute x.tracker m.pose _ _ _ _ c.4).0), a)

  pub note_stall-Moves :
      (e : Executor D) (m : Measurement D) (x : Executing D) → Moves e x → Moves e (note_stall m x)
  unfolding note_stall
  note_stall-Moves e m x moves = if_cases (λ y. Moves e y) _ (λ _. moves) (λ _. moves)

  pub note_settle-Moves :
      (e : Executor D) (m : Measurement D) (dt : D) (x : Executing D)
      → Moves e x
      → Moves e (note_settle e m dt x)
  unfolding note_settle
  note_settle-Moves e m dt x moves = if_cases (λ y. Moves e y) _ (λ _. moves) (λ _. moves)

  pub park-Moves :
      (e : Executor D) (m : Measurement D) (x : Executing D) → Moves e x → Moves e (park e m x)
  unfolding park
  park-Moves e m x moves = if_cases (λ y. Moves e y) _ (λ _. moves) (λ _. moves)
