-- ===== src/Unicycle/Operations.antt =====
-- unicycle_ugv_controller.cpp: what a controller observes, and the operations of its Reset and its status. A
-- turn begins by observing. `healthReady` is computed once; where it throws the operation is `none`, as where
-- the velocity filter does not return.
use xgc2_ugv_controller.Base.{
  ℕ, Bool, true, not, ◌&&◌, ◌||◌, Option, none, some, ℤ, pos, ◌-ℤ◌, ltb_ℤ, leb_ℤ, if◌then◌else◌,
  and_then,
}
use xgc2_ugv_controller.Floating.{Double, lit, ◌⊘◌, ◌≐◌}
use xgc2_ugv_controller.Clock.Time.{time_from_sec, time_to_sec, time_nsec}
use xgc2_ugv_controller.ResetClient.Protocol.{Grant, Result, Session}
use xgc2_ugv_controller.ResetClient.Executor.Observe.{observe, on_zero_published}
use xgc2_ugv_controller.ResetClient.Executor.Grants.{on_grant}
use xgc2_ugv_controller.ResetClient.Executor.Poll.{poll}
use xgc2_ugv_controller.ResetClient.Executor.Report.{
  make_session, session_due, mark_session_published, take_result, commit_result,
}
use xgc2_ugv_controller.Mecanum.Types.{AngleMath}
use xgc2_ugv_controller.Mecanum.Controller.{Health, requires_zero_command}
use xgc2_ugv_controller.Unicycle.Types.{finite_pose, trunc_int}
use xgc2_ugv_controller.Unicycle.Config.{uses_pose_velocity_filter}
use xgc2_ugv_controller.Unicycle.Filter.{update_pose_velocity_estimator}
use xgc2_ugv_controller.Unicycle.Controller.{Controller, clear_command, health, reset_measurement}

abbrev pub phase_or : Option ℤ → ℤ → Option ℤ
phase_or none p = some p
phase_or (some p) _ = some p

module _ {D M C : Type 0} ⦃f : Double D⦄ where
  -- The first lines of `observeInputs`: the time.
  abbrev pub at_time : D → D → Controller D M C → Controller D M C
  at_time now wall c = record c { current_time_sec = now; wall_time_sec = wall }

  -- `maybeUpdatePoseVelocity`
  unfoldable pub update_pose_velocity :
      ⦃angle : AngleMath D⦄ → Controller D M C → Option (Controller D M C)
  update_pose_velocity c =
      let stamp = time_to_sec c.state.stamp in
      if not (uses_pose_velocity_filter c.config.state_source)
      then some c
      else if not c.state.received || not (finite_pose c.state)
      then some c
      else if c.have_pose_stamp && (stamp ≐ c.last_pose_stamp)
      then some c
      else and_then
          (update_pose_velocity_estimator c.pose_velocity stamp c.state.x c.state.y c.state.yaw
            c.config)
          (λ e.
            some (record c { pose_velocity = e; last_pose_stamp = stamp; have_pose_stamp = true }))

  -- What the executor sees.
  unfoldable pub observed : Health → Controller D M C → Controller D M C
  observed h c =
      let m = reset_measurement h c in
      record c { executor = poll m (if c.state.received then observe m c.executor else c.executor) }

  -- `observeInputs` after the time, and the health that it computes. The phase of the first call is the
  -- time in nanoseconds.
  unfoldable pub observed_at :
      ⦃angle : AngleMath D⦄ → D → D → Controller D M C → Option (Health × Controller D M C)
  observed_at now wall c =
      let timed = at_time now wall c in
      and_then (health timed) (λ h.
        and_then
          (update_pose_velocity (record timed {
            control_phase_ns = phase_or c.control_phase_ns (pos (time_nsec h.now));
          }))
          (λ moved. some (h, observed h moved)))

  unfoldable pub observe_inputs :
      ⦃angle : AngleMath D⦄ → D → D → Controller D M C → Option (Controller D M C)
  observe_inputs now wall c = and_then (observed_at now wall c) (λ r. some r.1)

  -- The nanoseconds between two status messages
  abbrev pub status_period : Controller D M C → ℤ
  status_period c = trunc_int (lit 1000000000 0 ⊘ c.config.status_publish_rate_hz)

  unfoldable pub status_due : Controller D M C → Option Bool
  status_due c = and_then (time_from_sec c.current_time_sec) (λ t.
      let now = pos (time_nsec t) in
      let last = c.last_status_ns in
      some (
        ltb_ℤ (pos 0) now
        && ((leb_ℤ last (pos 0) && leb_ℤ (pos 0) last) || leb_ℤ (status_period c) (now -ℤ last))))

  unfoldable pub status_published : Controller D M C → Option (Controller D M C)
  status_published c =
      and_then (time_from_sec c.current_time_sec)
        (λ t. some (record c { last_status_ns = pos (time_nsec t) }))

  unfoldable pub on_reset_grant : Grant D → Controller D M C → Option (Controller D M C)
  on_reset_grant g c = and_then (health c) (λ h.
      let told = record c { executor = on_grant g (reset_measurement h c) c.executor } in
      some (if requires_zero_command told.executor then clear_command told else told))

  -- `takeResetSession`; no session where none is due.
  unfoldable pub take_reset_session : Controller D M C → Option (Option (Session D))
  take_reset_session c = and_then (health c) (λ h.
      let m = reset_measurement h c in
      some (if session_due m c.executor then some (make_session m c.executor) else none))

  unfoldable pub take_reset_result : Controller D M C → Controller D M C × Option (Result D)
  take_reset_result c = let r = take_result c.executor in (record c { executor = r.0 }, r.1)

  unfoldable pub reset_result_published : Controller D M C → Controller D M C
  reset_result_published c = record c { executor = commit_result c.executor }

  unfoldable pub reset_session_published : Controller D M C → Option (Controller D M C)
  reset_session_published c = and_then (health c) (λ h.
      some (record c { executor = mark_session_published (reset_measurement h c) c.executor }))

  unfoldable pub notify_reset_zero_published :
      D → ℕ → ℕ → Controller D M C → Option (Controller D M C)
  notify_reset_zero_published now generation brake c = and_then (health c) (λ h. some (
      if (reset_measurement h c).external_command_zero
      then record c { executor = on_zero_published now generation brake c.executor }
      else c))
