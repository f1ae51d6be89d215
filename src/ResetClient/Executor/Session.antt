-- ===== src/ResetClient/Executor/Session.antt =====
-- reset_executor.h: how a Reset session begins and ends, and the permission that each change asks for
-- anew (`prepare`, `install`, `abort`, `finish`, `end`, `requestAuthority`, `held`, `finished`).
use xgc2_ugv_controller.Base.{
  ℕ, ◌+◌, ◌-◌, Bool, true, false, ◌&&◌, ◌||◌, not, String, [], Option, none, some, leb, ◌==◌, u32,
  u32_max, if◌then◌else◌,
}
use xgc2_ugv_controller.Floating.{Double, lit, ◌⊖◌, ◌⊗◌, ◌⊘◌, ◌≼◌, ◌≐◌}
use xgc2_ugv_controller.ResetClient.Protocol.{
  Pose, VehicleSpec, Outcome, Reason, Phase, Result, wrap_angle, is_unicycle, model_code, pi,
  default_spec, default_pose, default_grant, default_result, reset_timeout, no_coordinator_timeout,
  same_phase,
}
use xgc2_ugv_controller.ResetClient.Estimators.{new_velocity, new_ell, set_bound, spread}
use xgc2_ugv_controller.ResetClient.Tracker.{no_command}
use xgc2_ugv_controller.ResetClient.Executor.{
  Executor, ExecutorConfig, Measurement, StepOutput, Permission, Progress, Run, Authority,
  permission, header, active, phase, set_permission, set_progress, is_none, is_executing,
  is_complete, session_id,
}

module _ {D : Type 0} ⦃f : Double D⦄ where
  abbrev pub default_config : ExecutorConfig D
  default_config = record {
    spec = default_spec;
    timeout = reset_timeout;
    no_target_hold = lit 2 0;
    no_coordinator = no_coordinator_timeout;
    stall = lit 10 0;
    control_period = lit 2 2;
    tube_cross_track = lit 10 2;
    position_tolerance = lit 4 2;
    yaw_tolerance = lit 4 0 ⊗ pi ⊘ lit 180 0;
    stop_speed = lit 2 2;
    stop_yaw_rate = lit 4 2;
    settle_hold = lit 4 1;
  }

  -- `ResetExecutor(config)`
  unfoldable pub new_executor : ExecutorConfig D → Executor D
  new_executor cfg = record {
    cfg = cfg;
    velocity = new_velocity;
    ell = new_ell cfg.spec.ell_bound;
    authority =
        Authority.retirement (record { session = 0; target = default_pose }) Permission.none;
    generation = 0;
    brake_id = 0;
    acknowledged_id = 0;
    protocol_fault = false;
    velocity_pose_stamp = f.neg (lit 1 0);
    last_decision_id = 0;
    last_publication = 0;
    have_decision = false;
    have_publication = false;
    last_decision = default_grant;
    last_pose_stamp = f.neg f.infinity;
    last_ros_now = lit 0 0;
    have_ros_clock = false;
    clock_invalid = false;
    result = default_result;
    previous_result = default_result;
    result_pending = false;
    previous_pending = false;
    published = false;
    published_cert = false;
    published_phase = Phase.idle;
    published_session = 0;
    published_generation = 0;
    published_ack = 0;
    next_publication = 0;
    published_wall = lit 0 0;
  }

  -- `++generation_`, or a protocol fault where the counter is exhausted.
  unfoldable pub count_generation : Executor D → Executor D
  count_generation e =
      if e.generation == u32_max
      then record e { protocol_fault = true }
      else record e { generation = u32 (e.generation + 1) }

  -- A new permission has to be asked for: a Brake first. `terminal` leaves the progress alone.
  unfoldable pub request_authority : Bool → Executor D → Executor D
  unfolding count_generation
  request_authority terminal e =
      let counted =
        count_generation (record (set_permission Permission.await_brake e) {
          brake_id = 0;
          acknowledged_id = 0;
        }) in
      if terminal then counted else set_progress Progress.requesting counted

  -- The time since the session was entered, on the ROS clock.
  abbrev entered_ros : Authority D → D
  entered_ros (Authority.retirement _ _) = lit 0 0
  entered_ros (Authority.run r) = r.enter_ros

  unfoldable pub final_result : Outcome → Reason → String → Measurement D → Executor D → Result D
  final_result outcome reason detail m e =
      let target = (header e).target in
      record {
        session = session_id e;
        outcome = outcome;
        reason = reason;
        final_planar_error = f.hypot (m.pose.x ⊖ target.x) (m.pose.y ⊖ target.y);
        final_yaw_error = f.abs (wrap_angle (target.yaw ⊖ m.pose.yaw));
        duration = m.ros_now ⊖ entered_ros e.authority;
        detail = detail;
      }

  -- A result that is still pending moves back, and the new one takes its place.
  unfoldable pub post_result : Result D → Executor D → Executor D
  post_result r e = record e {
    previous_result = if e.result_pending then e.result else e.previous_result;
    previous_pending = if e.result_pending then true else e.previous_pending;
    result = r;
    result_pending = true;
  }

  unfoldable pub end : Outcome → Reason → String → Measurement D → Executor D → Executor D
  unfolding final_result
  end outcome reason detail m e =
      let posted = post_result (final_result outcome reason detail m e) e in
      if active e then request_authority true (set_progress (Progress.done false) posted) else e

  unfoldable pub retire : Executor D → Executor D
  retire e = record e { authority = Authority.retirement (header e) (permission e) }

  -- `finish`, and the destructor of an installed Run: what is left has no motion.
  unfoldable pub finish_as : Authority D → Executor D → Executor D
  finish_as (Authority.retirement _ _) e = e
  finish_as (Authority.run _) e =
      retire (if is_executing (permission e) then request_authority true e else e)

  unfoldable pub finish : Executor D → Executor D
  finish e = finish_as e.authority e

  unfoldable pub abort : Outcome → String → Measurement D → Executor D → Executor D
  abort outcome detail m e = if active e then end outcome Reason.none detail m e else e

  unfoldable pub pending_results : Executor D → ℕ
  pending_results e = (if e.result_pending then 1 else 0) + (if e.previous_pending then 1 else 0)

  -- The tube's allowance for the uncertainty of the rotation centre.
  allowance : Executor D → D
  allowance e =
      let spread = spread e.ell in
      if is_unicycle e.cfg.spec.model
      then (if lit 0 0 ≼ spread then spread else e.cfg.spec.ell_bound)
      else lit 0 0

  unfoldable pub prepare : ℕ → Pose D → Bool → Measurement D → Executor D → Option (Run D)
  unfolding allowance
  prepare session target valid m e =
      let value : Run D = record {
        header = record { session = session; target = target };
        permission = Permission.none;
        progress = Progress.requesting;
        target_valid = valid;
        allowance = allowance e;
        enter_ros = m.ros_now;
        enter_wall = m.wall_now;
        last_message_wall = m.wall_now;
        heard = false;
        hold_reason = Reason.none;
        hold_detail = "";
        hold_blockers = [];
      } in
      if e.protocol_fault
        || leb (u32_max - 2) e.generation
        || leb 2 (pending_results e + (if active e then 1 else 0))
      then none
      else some value

  unfoldable pub install : Run D → Measurement D → Executor D → Executor D
  install value m e =
      let ended = end Outcome.stopped Reason.none "replaced by a new Reset" m e in
      let retired = finish (if active e then ended else e) in
      request_authority false (record retired { authority = Authority.run value })

  -- Whether a declaration differs in anything that the planner uses.
  spec_changed : VehicleSpec D → VehicleSpec D → Bool
  spec_changed old spec =
      not (model_code old.model == model_code spec.model)
      || not (old.footprint.half_length ≐ spec.footprint.half_length)
      || not (old.footprint.half_width ≐ spec.footprint.half_width)
      || not (old.footprint.offset_x ≐ spec.footprint.offset_x)
      || not (old.footprint.offset_y ≐ spec.footprint.offset_y)
      || not (old.max_v ≐ spec.max_v)
      || not (old.max_vy ≐ spec.max_vy)
      || not (old.max_w ≐ spec.max_w)
      || not (old.acc_v ≐ spec.acc_v)
      || not (old.acc_w ≐ spec.acc_w)
      || not (old.ell_bound ≐ spec.ell_bound)

  -- Whether a permission that was asked for under the old declaration has to be asked for anew.
  unfoldable pub asks_again : VehicleSpec D → Executor D → Bool
  unfolding spec_changed
  asks_again spec e =
      spec_changed e.cfg.spec spec
      && not (is_none (permission e))
      && not (is_complete (permission e))

  unfoldable pub set_spec : VehicleSpec D → Executor D → Executor D
  set_spec spec e =
      let declared = record e {
        cfg = record (e.cfg) { spec = spec };
        ell = set_bound spec.ell_bound e.ell;
      } in
      if asks_again spec e then request_authority (not (active e)) declared else declared

  unfoldable pub set_timeout : D → Executor D → Executor D
  set_timeout seconds e = record e { cfg = record (e.cfg) { timeout = seconds } }

  -- `permissionPending()`
  unfoldable pub permission_pending : Permission D → Bool
  permission_pending p = not (is_none p) && not (is_executing p) && not (is_complete p)

  unfoldable pub held : Executor D → Executor D × StepOutput D
  unfolding permission_pending
  held e =
      let waits = permission_pending (permission e) || same_phase (phase e) Phase.requesting in
      let e' = set_progress (if waits then Progress.requesting else Progress.waiting) e in
      (e', record { command = no_command; ended = false; phase = phase e' })

  -- The session's end is reported once.
  unfoldable pub finished : Executor D → Executor D × StepOutput D
  finished e = (
    set_progress (Progress.done true) e,
    record { command = no_command; ended = true; phase = Phase.done },
  )
