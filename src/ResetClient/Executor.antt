-- ===== src/ResetClient/Executor.antt =====
-- ugv_reset_client/include/ugv_reset_client/reset_executor.h: the data of the vehicle's Reset session.
-- The Run that CONTROL owns and the executor borrows by pointer is held in `authority`: its fields are
-- private to the executor, and at most one is installed.
pub mod Session
pub mod Observe
pub mod Decision
pub mod Grants
pub mod Poll
pub mod Control
pub mod Step
pub mod Report
pub mod Fields
pub mod Invariant
pub mod Results
pub mod Reach
pub mod Safety
mod Tests
use xgc2_ugv_controller.Base.{ℕ, Bool, true, false, not, String, List, Option}
use xgc2_ugv_controller.Floating.{Double, lit}
use xgc2_ugv_controller.ResetClient.Protocol.{
  Pose, VehicleSpec, Grant, Result, Reason, Phase, default_spec, default_pose, default_grant,
  default_result, pi, reset_timeout, no_coordinator_timeout,
}
use xgc2_ugv_controller.ResetClient.Estimators.{
  VelocityEstimator, EllEstimator, new_velocity, new_ell,
}
use xgc2_ugv_controller.ResetClient.Tracker.{Command, RouteTracker, no_command}

pub record ExecutorConfig (D : Type 0) : Type 0 where
  pub spec : VehicleSpec D
  pub timeout : D
  pub no_target_hold : D
  pub no_coordinator : D
  pub stall : D
  pub control_period : D
  pub tube_cross_track : D
  pub position_tolerance : D
  pub yaw_tolerance : D
  pub stop_speed : D
  pub stop_yaw_rate : D
  pub settle_hold : D

pub record Measurement (D : Type 0) : Type 0 where
  pub ros_now : D
  pub wall_now : D
  pub pose : Pose D
  pub pose_stamp : D
  pub healthy : Bool
  pub pose_stamp_trusted : Bool
  pub external_command_zero : Bool

pub record StepOutput (D : Type 0) : Type 0 where
  pub command : Command D
  pub ended : Bool
  pub phase : Phase

pub record DeferredGo (D : Type 0) : Type 0 where
  pub grant : Grant D
  pub deadline : D

pub record Executing (D : Type 0) : Type 0 where
  pub tracker : RouteTracker D
  pub command : Command D
  pub final : Bool
  pub grant_id : ℕ  -- uint32_t
  pub s_limit : D
  pub heartbeat_deadline : D
  pub last_step_ros : D
  pub settle : D
  pub stall_since : D
  pub stall_pose : Pose D

-- `await_go zero_ros certified deferred`
pub data Permission (D : Type 0) : Type 0 where
  none await_brake await_zero complete : Permission D
  await_stopped : D → Permission D
  await_go : D → Bool → Option (DeferredGo D) → Permission D
  executing : Executing D → Permission D

pub record SessionHeader (D : Type 0) : Type 0 where
  pub session : ℕ  -- uint32_t
  pub target : Pose D

-- `done reported`
pub data Progress : Type 0 where
  requesting waiting moving settling : Progress
  done : Bool → Progress

pub record Run (D : Type 0) : Type 0 where
  pub header : SessionHeader D
  pub permission : Permission D
  pub progress : Progress
  pub target_valid : Bool
  pub allowance : D
  pub enter_ros : D
  pub enter_wall : D
  pub last_message_wall : D
  pub heard : Bool
  pub hold_reason : Reason
  pub hold_detail : String
  pub hold_blockers : List String

pub data Authority (D : Type 0) : Type 0 where
  retirement : SessionHeader D → Permission D → Authority D
  run : Run D → Authority D

pub record Executor (D : Type 0) : Type 0 where
  pub cfg : ExecutorConfig D
  pub velocity : VelocityEstimator D
  pub ell : EllEstimator D
  pub authority : Authority D
  pub generation : ℕ  -- uint32_t
  pub brake_id : ℕ  -- uint32_t
  pub acknowledged_id : ℕ  -- uint32_t
  pub protocol_fault : Bool
  pub velocity_pose_stamp : D
  pub last_decision_id : ℕ  -- uint32_t
  pub last_publication : ℕ  -- uint32_t
  pub have_decision : Bool
  pub have_publication : Bool
  pub last_decision : Grant D
  pub last_pose_stamp : D
  pub last_ros_now : D
  pub have_ros_clock : Bool
  pub clock_invalid : Bool
  pub result : Result D
  pub previous_result : Result D
  pub result_pending : Bool
  pub previous_pending : Bool
  pub published : Bool
  pub published_cert : Bool
  pub published_phase : Phase
  pub published_session : ℕ  -- uint32_t
  pub published_generation : ℕ  -- uint32_t
  pub published_ack : ℕ  -- uint32_t
  pub next_publication : ℕ  -- uint32_t
  pub published_wall : D

abbrev pub is_done : Progress → Bool
is_done (Progress.done _) = true
is_done _ = false

abbrev pub progress_phase : Progress → Phase
progress_phase Progress.requesting = Phase.requesting
progress_phase Progress.waiting = Phase.waiting
progress_phase Progress.moving = Phase.moving
progress_phase Progress.settling = Phase.settling
progress_phase (Progress.done _) = Phase.done

module _ {D : Type 0} where
  abbrev pub authority_permission : Authority D → Permission D
  authority_permission (retirement _ p) = p
  authority_permission (run r) = r.permission

  abbrev pub authority_header : Authority D → SessionHeader D
  authority_header (retirement h _) = h
  authority_header (run r) = r.header

  abbrev pub authority_active : Authority D → Bool
  authority_active (retirement _ _) = false
  authority_active (run r) = not (is_done r.progress)

  abbrev pub authority_phase : Authority D → Phase
  authority_phase (retirement _ _) = Phase.idle
  authority_phase (run r) = progress_phase r.progress

  abbrev pub with_permission : Permission D → Authority D → Authority D
  with_permission p (retirement h _) = retirement h p
  with_permission p (run r) = run (record r { permission = p })

  -- `run()->progress.emplace`; the source makes the call only where a Run is installed.
  abbrev pub with_progress : Progress → Authority D → Authority D
  with_progress g (retirement h p) = retirement h p
  with_progress g (run r) = run (record r { progress = g })

  abbrev pub permission : Executor D → Permission D
  permission e = authority_permission e.authority

  abbrev pub header : Executor D → SessionHeader D
  header e = authority_header e.authority

  abbrev pub active : Executor D → Bool
  active e = authority_active e.authority

  abbrev pub phase : Executor D → Phase
  phase e = authority_phase e.authority

  abbrev pub session_id : Executor D → ℕ
  session_id e = (header e).session

  abbrev pub set_permission : Permission D → Executor D → Executor D
  set_permission p e = record e { authority = with_permission p e.authority }

  abbrev pub set_progress : Progress → Executor D → Executor D
  set_progress g e = record e { authority = with_progress g e.authority }

  abbrev pub is_none : Permission D → Bool
  is_none Permission.none = true
  is_none _ = false

  abbrev pub is_await_brake : Permission D → Bool
  is_await_brake await_brake = true
  is_await_brake _ = false

  abbrev pub is_await_zero : Permission D → Bool
  is_await_zero await_zero = true
  is_await_zero _ = false

  abbrev pub is_await_go : Permission D → Bool
  is_await_go (await_go _ _ _) = true
  is_await_go _ = false

  abbrev pub is_executing : Permission D → Bool
  is_executing (executing _) = true
  is_executing _ = false

  abbrev pub is_complete : Permission D → Bool
  is_complete complete = true
  is_complete _ = false

  abbrev pub permission_certified : Permission D → Bool
  permission_certified (await_go _ certified _) = certified
  permission_certified _ = false

  -- `stopCertified()`
  abbrev pub stop_certified : Executor D → Bool
  stop_certified e = permission_certified (permission e)
