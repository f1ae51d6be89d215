-- ===== src/Reference/Runtime.antt =====
-- unicycle_reference_trajectory/src/unicycle_reference_trajectory_runtime.cpp, class
-- ReferenceTrajectoryRuntime. An exception of the time is `none`.
pub mod Update
pub mod Accept
pub mod Laws
pub mod Operations
use xgc2_ugv_controller.Base.{
  ℕ, ◌+◌, Bool, true, false, not, ◌&&◌, ◌||◌, List, [], ◌∷◌, ◌++◌, Option, none, some, ◌==◌, u32,
  if◌then◌else◌, and_then,
}
use xgc2_ugv_controller.Floating.{Double, lit, ◌⊕◌, ◌⊘◌, ◌≺◌, ◌≼◌, dmin}
use xgc2_ugv_controller.StateMachine.{AdtMachine}
use xgc2_ugv_controller.Clock.Time.{Time, zero_time, time_from_sec, time_to_sec}
use xgc2_ugv_controller.Clock.Gate.{PeriodicGate, new_gate, due}
use xgc2_ugv_controller.Reference.Types.{
  Header, AnalyticReference, SampledReference, WaypointReferenceRequest, ActivePolynomialReference,
  ReferenceStatus, WaypointProblem, PolynomialSegment, TrajectoryMath, or_32,
}
use xgc2_ugv_controller.Reference.Build.{
  adjusted_start_time, build_analytic, build_sampled, build_waypoint,
}

pub record ReferenceTrajectoryConfig (D L : Type 0) : Type 0 where
  pub status_rate_hz : D
  pub active_publish_rate_hz : D
  pub validation_sample_dt : D
  pub trajectory_timeout : D
  pub min_lead_time : D
  pub limits : L

pub data ReferenceOutput : Type 0 where
  status analytic polynomial sampled : ReferenceOutput

pub record ReferencePublication (D : Type 0) : Type 0 where
  pub kind : ReferenceOutput
  pub timestamp : D

pub record Waypoint (D : Type 0) : Type 0 where
  pub message : WaypointReferenceRequest D
  pub problem : WaypointProblem D
  pub flags : ℕ  -- uint32_t

-- The alternatives of `Retained` and `Request`: the message, its evaluator and its flags.
pub data Retained (D E : Type 0) : Type 0 where
  nothing : Retained D E
  analytic : AnalyticReference D → E → ℕ → Retained D E
  sampled : SampledReference D → E → ℕ → Retained D E
  polynomial : ActivePolynomialReference D → E → ℕ → Retained D E

pub data Request (D E : Type 0) : Type 0 where
  nothing : Request D E
  analytic : AnalyticReference D → E → ℕ → Request D E
  sampled : SampledReference D → E → ℕ → Request D E
  waypoint : Waypoint D → Request D E

pub data RuntimeState (D : Type 0) : Type 0 where
  self_check : RuntimeState D
  ready : PeriodicGate D → RuntimeState D
  planning : Waypoint D → RuntimeState D
  active : PeriodicGate D → PeriodicGate D → RuntimeState D

pub record Runtime (D E L M : Type 0) : Type 0 where
  pub config : ReferenceTrajectoryConfig D L
  pub machine : M
  pub current_time_sec : D
  pub flags : ℕ  -- uint32_t
  pub request : Request D E
  pub retained : Retained D E
  pub outputs : List (ReferencePublication D)

module _ {D E : Type 0} where
  -- `evaluator() != nullptr`
  abbrev pub has_evaluator : Retained D E → Bool
  has_evaluator Retained.nothing = false
  has_evaluator _ = true

  abbrev pub active_trajectory_id : Retained D E → ℕ
  active_trajectory_id Retained.nothing = 0
  active_trajectory_id (Retained.analytic m e g) = m.trajectory_id
  active_trajectory_id (Retained.sampled m e g) = m.trajectory_id
  active_trajectory_id (Retained.polynomial m e g) = m.trajectory_id

  abbrev pub active_revision : Retained D E → ℕ
  active_revision Retained.nothing = 0
  active_revision (Retained.analytic m e g) = m.revision
  active_revision (Retained.sampled m e g) = m.revision
  active_revision (Retained.polynomial m e g) = m.revision

  -- The codes of `ReferenceStatus`, TYPE_NONE to TYPE_SAMPLED
  abbrev pub active_type : Retained D E → ℕ
  active_type Retained.nothing = 0
  active_type (Retained.analytic m e g) = 1
  active_type (Retained.polynomial m e g) = 2
  active_type (Retained.sampled m e g) = 3

  abbrev pub output_of : Retained D E → ReferenceOutput
  output_of (Retained.analytic m e g) = ReferenceOutput.analytic
  output_of (Retained.sampled m e g) = ReferenceOutput.sampled
  output_of _ = ReferenceOutput.polynomial

  abbrev pub no_request : Request D E → Bool
  no_request Request.nothing = true
  no_request _ = false

-- `currentState`, STATE_SELF_CHECK to STATE_ACTIVE
abbrev pub state_code : {D : Type 0} → RuntimeState D → ℕ
state_code RuntimeState.self_check = 1
state_code (RuntimeState.ready _) = 2
state_code (RuntimeState.planning _) = 3
state_code (RuntimeState.active _ _) = 4

module _ {D : Type 0} ⦃f : Double D⦄ where
  -- Rates and times of a configuration that are of no use have their defaults.
  abbrev or_positive : D → D → D
  or_positive value fallback =
      if not (f.isfinite value) || (value ≼ lit 0 0) then fallback else value

  abbrev or_nonnegative : D → D → D
  or_nonnegative value fallback =
      if not (f.isfinite value) || (value ≺ lit 0 0) then fallback else value

module _ {D L : Type 0} ⦃f : Double D⦄ where
  abbrev pub usable : ReferenceTrajectoryConfig D L → ReferenceTrajectoryConfig D L
  usable c = record c {
    status_rate_hz = or_positive c.status_rate_hz (lit 10 0);
    active_publish_rate_hz = or_positive c.active_publish_rate_hz (lit 10 0);
    validation_sample_dt = or_positive c.validation_sample_dt (lit 2 2);
    trajectory_timeout = or_nonnegative c.trajectory_timeout (lit 5 1);
    min_lead_time = or_nonnegative c.min_lead_time (lit 2 1);
  }
