-- ===== src/ResetClient/Executor/Poll.antt =====
-- reset_executor.h, `poll`: the stop is certified, and a deferred Go starts the motion.
use xgc2_ugv_controller.Base.{true, ◌&&◌, not, none, some, if◌then◌else◌}
use xgc2_ugv_controller.Floating.{Double, lit, ◌≼◌}
use xgc2_ugv_controller.ResetClient.Protocol.{VehicleSpec, is_unicycle}
use xgc2_ugv_controller.ResetClient.Route.{make_route}
use xgc2_ugv_controller.ResetClient.Tracker.{no_command, new_tracker, start_route}
use xgc2_ugv_controller.ResetClient.Executor.{
  Executor, Executing, DeferredGo, Measurement, Permission, Progress, permission, active,
  set_permission, set_progress,
}
use xgc2_ugv_controller.ResetClient.Executor.Observe.{causal_stopped}

module _ {D : Type 0} ⦃f : Double D⦄ where
  -- `Executing(g, spec, deadline, m)`: the tracker starts on the granted route.
  unfoldable pub new_executing : DeferredGo D → VehicleSpec D → Measurement D → Executing D
  new_executing go spec m =
      let g = go.grant in
      let ell = if is_unicycle spec.model then g.ell_plan else lit 0 0 in
      record {
        tracker = start_route (make_route g.start g.via g.goal ell) spec new_tracker;
        command = no_command;
        final = g.final_move;
        grant_id = g.grant_id;
        s_limit = g.s_limit;
        heartbeat_deadline = go.deadline;
        last_step_ros = f.neg (lit 1 0);
        settle = lit 0 0;
        stall_since = m.ros_now;
        stall_pose = m.pose;
      }

  -- `motion->command = {}`
  abbrev pub stop_motion : Permission D → Permission D
  stop_motion (Permission.executing x) = Permission.executing (record x { command = no_command })
  stop_motion p = p

  -- The first half of `poll`: the stop is certified, or its certificate checked again.
  abbrev pub certify : Measurement D → Executor D → Permission D → Permission D
  certify m e (Permission.await_stopped zero) =
      if causal_stopped m zero e
      then Permission.await_go zero true none
      else Permission.await_stopped zero
  certify m e (Permission.await_go zero _ deferred) =
      Permission.await_go zero (causal_stopped m zero e) deferred
  certify m e p = p

  -- The second half: a deferred Go starts the motion.
  abbrev pub depart : Measurement D → Executor D → Permission D → Executor D
  depart m e (Permission.await_go zero certified (some go)) =
      if certified
        && active e
        && not e.clock_invalid
        && causal_stopped m zero e
        && (m.wall_now ≼ go.deadline)
      then set_progress Progress.waiting (
          set_permission (Permission.executing (new_executing go e.cfg.spec m))
            (record e { acknowledged_id = go.grant.grant_id }))
      else e
  depart m e p = e

  unfoldable pub poll_certify : Measurement D → Executor D → Executor D
  poll_certify m e = set_permission (certify m e (permission e)) e

  unfoldable pub poll_depart : Measurement D → Executor D → Executor D
  poll_depart m e = depart m e (permission e)

  unfoldable pub poll : Measurement D → Executor D → Executor D
  poll m e =
      if e.protocol_fault
      then set_permission (stop_motion (permission e)) e
      else poll_depart m (poll_certify m e)
