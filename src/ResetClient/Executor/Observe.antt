-- ===== src/ResetClient/Executor/Observe.antt =====
-- reset_executor.h: what the executor measures (`observe`), the published zero (`onZeroPublished`),
-- and when it counts as stopped after it (`stopped`, `causalStopped`).
use xgc2_ugv_controller.Base.{
  ℕ, Bool, true, false, ◌&&◌, ◌||◌, not, Option, none, some, ◌==◌, if◌then◌else◌,
}
use xgc2_ugv_controller.Floating.{Double, lit, ◌⊕◌, ◌⊖◌, ◌≺◌, ◌≼◌, ◌≐◌}
use xgc2_ugv_controller.ResetClient.Protocol.{is_unicycle}
use xgc2_ugv_controller.ResetClient.Estimators.{add_velocity, add_ell, reset_velocity}
use xgc2_ugv_controller.ResetClient.Tracker.{Command, no_command, is_zero}
use xgc2_ugv_controller.ResetClient.Executor.{
  Executor, Measurement, Permission, permission, set_permission, is_await_brake, is_await_zero,
}

module _ {D : Type 0} ⦃f : Double D⦄ where
  -- A running certificate is withdrawn.
  unfoldable pub uncertify : Permission D → Permission D
  uncertify (Permission.await_go zero _ deferred) = Permission.await_go zero false deferred
  uncertify p = p

  -- A ROS clock that ran backwards is never trusted again.
  unfoldable pub watch_clock : Measurement D → Executor D → Executor D
  unfolding uncertify
  watch_clock m e =
      let backwards = e.have_ros_clock && (m.ros_now ≺ (e.last_ros_now ⊖ lit 1 9)) in
      let distrusted =
        set_permission (uncertify (permission e)) (record e { clock_invalid = true }) in
      let watched = if backwards then distrusted else e in
      record watched { have_ros_clock = true; last_ros_now = m.ros_now }

  -- `zeroSince()`
  unfoldable pub zero_since : Permission D → Option D
  zero_since (Permission.await_stopped zero) = some zero
  zero_since (Permission.await_go zero _ _) = some zero
  zero_since _ = none

  -- A pose that may date from before the published zero says nothing of the stop.
  unfoldable pub predates_zero : Executor D → Measurement D → Option D → Bool
  predates_zero e m none = false
  predates_zero e m (some zero) =
      e.clock_invalid
      || not m.pose_stamp_trusted
      || (m.pose_stamp ≼ zero)
      || ((m.ros_now ⊕ lit 1 9) ≺ m.pose_stamp)

  unfoldable pub fresh_pose : Measurement D → Executor D → Bool
  fresh_pose m e =
      f.isfinite m.pose_stamp
      && not (m.pose_stamp ≼ e.last_pose_stamp)
      && f.isfinite m.pose.x
      && f.isfinite m.pose.y
      && f.isfinite m.pose.yaw

  unfoldable pub observe : Measurement D → Executor D → Executor D
  observe m e =
      let watched = watch_clock m e in
      let seen = record watched {
        last_pose_stamp = m.pose_stamp;
        ell =
            if is_unicycle watched.cfg.spec.model then add_ell m.pose watched.ell else watched.ell;
      } in
      let measured = record seen {
        velocity = add_velocity m.pose_stamp m.pose seen.velocity;
        velocity_pose_stamp = m.pose_stamp;
      } in
      let p = permission seen in
      if not (fresh_pose m watched)
      then watched
      else if is_await_zero p || is_await_brake p
      then seen
      else if predates_zero seen m (zero_since p)
      then seen
      else measured

  -- `command()`: only a vehicle that executes a route has one.
  abbrev pub permission_command : Permission D → Command D
  permission_command (Permission.executing x) = x.command
  permission_command _ = no_command

  -- A zero that is not the one asked for.
  unfoldable pub is_other_zero : D → ℕ → ℕ → Executor D → Bool
  is_other_zero ros_now generation brake e =
      not (is_await_zero (permission e))
      || e.clock_invalid
      || e.protocol_fault
      || not (f.isfinite ros_now)
      || not (is_zero (permission_command (permission e)))
      || (not (generation == 0) && not (generation == e.generation))
      || (not (brake == 0) && not (brake == e.brake_id))

  -- The zero command reached the wheels; only poses from then on can certify the stop.
  unfoldable pub on_zero_published : D → ℕ → ℕ → Executor D → Executor D
  on_zero_published ros_now generation brake e =
      if is_other_zero ros_now generation brake e
      then e
      else record (set_permission (Permission.await_stopped ros_now) e) {
        velocity = reset_velocity e.velocity;
        velocity_pose_stamp = f.neg (lit 1 0);
      }

  -- The measured speeds are those of a vehicle at rest.
  abbrev pub at_rest : Executor D → Bool
  at_rest e =
      e.velocity.valid
      && (e.velocity.speed ≼ e.cfg.stop_speed)
      && (f.abs e.velocity.yaw_rate ≼ e.cfg.stop_yaw_rate)

  unfoldable pub stopped : Measurement D → Executor D → Bool
  stopped m e =
      m.healthy
      && m.external_command_zero
      && is_zero (permission_command (permission e))
      && at_rest e

  unfoldable pub causal_stopped : Measurement D → D → Executor D → Bool
  causal_stopped m zero e =
      not e.clock_invalid
      && m.pose_stamp_trusted
      && (zero ≺ m.pose_stamp)
      && (m.pose_stamp ≼ m.ros_now)
      && (m.pose_stamp ≐ e.velocity_pose_stamp)
      && stopped m e
