-- ===== src/ResetClient/Executor/Control.antt =====
-- reset_executor.h, the motion part of `step`: one control period on the granted route, with the
-- checks that end the session (`checkTube`, `checkProgress`, `checkArrival`).
use xgc2_ugv_controller.Base.{Bool, false, ◌&&◌, ◌||◌, not, if◌then◌else◌}
use xgc2_ugv_controller.Floating.{Double, lit, ◌⊕◌, ◌⊖◌, ◌⊗◌, ◌≺◌, ◌≼◌, clamp}
use xgc2_ugv_controller.ResetClient.Protocol.{Outcome, Reason, wrap_angle}
use xgc2_ugv_controller.ResetClient.Tracker.{no_command, is_zero, whole_route_granted}
use xgc2_ugv_controller.ResetClient.Tracker.Step.{step_tracker}
use xgc2_ugv_controller.ResetClient.Executor.{
  Executor, Executing, Measurement, StepOutput, Permission, Progress, Run, permission, header,
  phase, set_permission, set_progress,
}
use xgc2_ugv_controller.ResetClient.Executor.Session.{request_authority, end, held, finished}
use xgc2_ugv_controller.ResetClient.Executor.Observe.{permission_command, at_rest, stopped}

module _ {D : Type 0} ⦃f : Double D⦄ where
  -- `moving()`
  moving : Executor D → Bool
  moving e =
      let cmd = permission_command (permission e) in
      (lit 5 3 ≺ f.abs cmd.vx)
      || (lit 5 3 ≺ f.abs cmd.vy)
      || (lit 5 3 ≺ f.abs cmd.wz)
      || (e.velocity.valid
          && (((e.cfg.stop_speed ⊗ lit 15 1) ≺ e.velocity.speed)
              || ((e.cfg.stop_yaw_rate ⊗ lit 15 1) ≺ f.abs e.velocity.yaw_rate)))

  unfoldable pub in_tube : Executor D → Run D → Executing D → Bool
  in_tube e r x = f.abs x.tracker.cross_track ≼ (e.cfg.tube_cross_track ⊕ lit 2 0 ⊗ r.allowance)

  -- `checkProgress`: whether the stall goes on, with the motion that has the stall's start.
  stall_moved : Measurement D → Executing D → Bool
  stall_moved m x =
      let far =
        f.hypot (m.pose.x ⊖ x.stall_pose.x) (m.pose.y ⊖ x.stall_pose.y)
        ⊕ lit 3 1 ⊗ f.abs (wrap_angle (m.pose.yaw ⊖ x.stall_pose.yaw)) in
      not (lit 1 1 ≺ (x.s_limit ⊖ x.tracker.progress)) || (lit 3 2 ≺ far) || not x.tracker.active

  unfoldable pub note_stall : Measurement D → Executing D → Executing D
  unfolding stall_moved
  note_stall m x =
      if stall_moved m x then record x { stall_since = m.ros_now; stall_pose = m.pose } else x

  unfoldable pub is_stalled : Executor D → Measurement D → Executing D → Bool
  unfolding stall_moved
  is_stalled e m x = not (stall_moved m x) && not ((m.ros_now ⊖ x.stall_since) ≺ e.cfg.stall)

  planar_error : Executor D → Measurement D → D
  planar_error e m = f.hypot (m.pose.x ⊖ (header e).target.x) (m.pose.y ⊖ (header e).target.y)

  yaw_error : Executor D → Measurement D → D
  yaw_error e m = f.abs (wrap_angle ((header e).target.yaw ⊖ m.pose.yaw))

  -- `checkArrival`: the measured pose is at the target, at rest.
  unfoldable pub at_target : Executor D → Measurement D → Bool
  unfolding planar_error yaw_error
  at_target e m =
      (planar_error e m ≼ e.cfg.position_tolerance)
      && (yaw_error e m ≼ e.cfg.yaw_tolerance)
      && at_rest e

  unfoldable pub note_settle : Executor D → Measurement D → D → Executing D → Executing D
  note_settle e m dt x =
      if not x.final || not x.tracker.active
      then x
      else record x { settle = if at_target e m then x.settle ⊕ dt else lit 0 0 }

  unfoldable pub has_arrived : Executor D → Executing D → Bool
  has_arrived e x = x.final && x.tracker.active && (e.cfg.settle_hold ≼ x.settle)

  -- A control period has passed since the last one, or none has been run yet.
  unfoldable pub is_due : Executor D → Measurement D → Executing D → Bool
  is_due e m x =
      (x.last_step_ros ≺ lit 0 0)
      || ((e.cfg.control_period ⊖ lit 1 9) ≼ (m.ros_now ⊖ x.last_step_ros))

  unfoldable pub elapsed : Executor D → Measurement D → Executing D → D
  elapsed e m x =
      if x.last_step_ros ≺ lit 0 0
      then e.cfg.control_period
      else clamp (m.ros_now ⊖ x.last_step_ros) (lit 1 3) (lit 1 1)

  -- The tracker's step.
  unfoldable pub follow_route : Executor D → Measurement D → Executing D → Executing D
  follow_route e m x =
      let speed = if e.velocity.valid then e.velocity.speed else lit 0 0 in
      let (tracker, command) =
        step_tracker x.tracker m.pose e.ell.ell speed (elapsed e m x) x.s_limit in
      record x { last_step_ros = m.ros_now; tracker = tracker; command = command }

  -- At the end of a parking move that is complete the command is an exact zero.
  unfoldable pub park : Executor D → Measurement D → Executing D → Executing D
  park e m x =
      if whole_route_granted x.tracker.route x.s_limit
        && not x.final
        && x.tracker.at_end
        && m.healthy
        && at_rest e
      then record x { command = no_command }
      else x

  -- The route is driven to its end, and the vehicle rests there without having arrived.
  unfoldable pub is_spent : Executor D → Measurement D → Executing D → Bool
  unfolding planar_error yaw_error
  is_spent e m x =
      whole_route_granted x.tracker.route x.s_limit
      && stopped m e
      && is_zero x.command
      && ((not x.final && x.tracker.at_end)
          || (x.final
              && x.tracker.final_stage
              && ((e.cfg.position_tolerance ≺ planar_error e m)
                  || (e.cfg.yaw_tolerance ≺ yaw_error e m))))

  -- The end of `step`: the command goes out.
  unfoldable pub driven : Executing D → Executor D → Executor D × StepOutput D
  unfolding moving
  driven x e =
      let next =
        if x.final && x.tracker.at_end
        then Progress.settling
        else if moving e
        then Progress.moving
        else Progress.waiting in
      let e' = set_progress next e in
      (e', record { command = x.command; ended = false; phase = phase e' })

  unfoldable pub arrive_or_go_on :
      Measurement D → Executing D → Executor D → Executor D × StepOutput D
  arrive_or_go_on m x e =
      let parked = park e m x in
      let e' = set_permission (Permission.executing parked) e in
      if has_arrived e x
      then finished (end Outcome.arrived Reason.none "" m e)
      else if is_spent e' m parked
      then held (request_authority false e')
      else driven parked e'

  unfoldable pub control :
      Measurement D → Run D → Executing D → Executor D → Executor D × StepOutput D
  control m r x e =
      let followed = follow_route e m x in
      let e1 = set_permission (Permission.executing followed) e in
      let noted = note_stall m followed in
      let e2 = set_permission (Permission.executing noted) e in
      let settled = note_settle e m (elapsed e m x) noted in
      let e3 = set_permission (Permission.executing settled) e in
      if not (in_tube e r followed)
      then finished (
          end Outcome.aborted_deviation Reason.none
            (f.cross_track_text followed.tracker.cross_track) m e1)
      else if is_stalled e m followed
      then finished
          (end Outcome.aborted_stalled Reason.none "allowed to move but did not for 10 s" m e2)
      else arrive_or_go_on m settled e3
