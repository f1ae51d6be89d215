-- ===== src/ResetClient/Executor/Step.antt =====
-- reset_executor.h, `step`: the twist of the next control period, and every way in which the vehicle
-- itself ends its session.
use xgc2_ugv_controller.Base.{Bool, true, false, ◌&&◌, ◌||◌, not, String, if◌then◌else◌}
use xgc2_ugv_controller.Floating.{Double, lit, ◌⊖◌, ◌≺◌, ◌≼◌}
use xgc2_ugv_controller.ResetClient.Protocol.{Phase, Outcome, Reason}
use xgc2_ugv_controller.ResetClient.Tracker.{no_command}
use xgc2_ugv_controller.ResetClient.Executor.{
  Executor, ExecutorConfig, Measurement, StepOutput, Permission, Progress, Run, Authority,
  permission, phase, set_permission, is_executing,
}
use xgc2_ugv_controller.ResetClient.Executor.Session.{request_authority, end, held, finished}
use xgc2_ugv_controller.ResetClient.Executor.Poll.{poll, stop_motion}
use xgc2_ugv_controller.ResetClient.Executor.Control.{is_due, control, driven}

-- The outcome says whether anything was ever heard.
abbrev lost_outcome : Bool → Outcome
lost_outcome true = Outcome.aborted_coordinator_lost
lost_outcome false = Outcome.rejected_no_coordinator

abbrev lost_detail : Bool → String
lost_detail true = "the coordinator stopped answering"
lost_detail false = "no coordinator answered"

module _ {D : Type 0} ⦃f : Double D⦄ where
  -- The vehicle's own deadline, on either clock.
  unfoldable pub is_overdue : ExecutorConfig D → Run D → Measurement D → Bool
  is_overdue cfg r m =
      (lit 0 0 ≺ cfg.timeout)
      && ((cfg.timeout ≼ (m.ros_now ⊖ r.enter_ros)) || (cfg.timeout ≼ (m.wall_now ⊖ r.enter_wall)))

  -- Nothing was heard for too long.
  unfoldable pub is_unanswered : ExecutorConfig D → Run D → Measurement D → Bool
  is_unanswered cfg r m = cfg.no_coordinator ≼ (m.wall_now ⊖ r.last_message_wall)

  unfoldable pub step_motion :
      Measurement D → Run D → Permission D → Executor D → Executor D × StepOutput D
  step_motion m r (Permission.executing x) e =
      if not x.tracker.active
      then held (set_permission (Permission.executing (record x { command = no_command })) e)
      else if x.heartbeat_deadline ≺ m.wall_now
      then held (request_authority false e)
      else if is_due e m x
      then control m r x e
      else driven x e
  step_motion m r p e = held e

  unfoldable pub step_active : Measurement D → Run D → Executor D → Executor D × StepOutput D
  step_active m r e =
      if e.protocol_fault
      then finished (
          end Outcome.rejected_by_coordinator Reason.bad_session "Reset authority counter exhausted"
            m e)
      else if is_overdue e.cfg r m
      then finished (end Outcome.timeout Reason.none "the vehicle's own deadline" m e)
      else if not m.healthy
      then held (set_permission (stop_motion (permission e)) e)
      else if not r.target_valid
      then (if e.cfg.no_target_hold ≼ (m.wall_now ⊖ r.enter_wall)
          then finished (
              end Outcome.rejected_no_target Reason.none
                "no target: reset_pose cache and reset_initial_* missing" m e)
          else held e)
      else if is_unanswered e.cfg r m
      then finished (end (lost_outcome r.heard) Reason.none (lost_detail r.heard) m e)
      else if e.clock_invalid
      then held (if is_executing (permission e) then request_authority false e else e)
      else step_motion m r (permission e) e

  abbrev idle_output : Phase → StepOutput D
  idle_output p = record { command = no_command; ended = false; phase = p }

  unfoldable pub step_progress :
      Measurement D → Run D → Progress → Executor D → Executor D × StepOutput D
  step_progress m r (Progress.done false) e = finished e
  step_progress m r (Progress.done true) e = (e, idle_output (phase e))
  step_progress m r _ e = step_active m r e

  -- A Run that ended is reported once; without one the executor is idle.
  unfoldable pub step_authority :
      Measurement D → Authority D → Executor D → Executor D × StepOutput D
  step_authority m (Authority.retirement _ _) e = (e, idle_output (phase e))
  step_authority m (Authority.run r) e = step_progress m r r.progress e

  unfoldable pub step : Measurement D → Executor D → Executor D × StepOutput D
  step m e = let polled = poll m e in step_authority m polled.authority polled
