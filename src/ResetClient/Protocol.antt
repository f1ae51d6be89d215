-- ===== src/ResetClient/Protocol.antt =====
-- ugv_reset_client/include/ugv_reset_client/reset_protocol.h: the vocabulary of the Reset protocol.
-- An enum has its constructors and, as `code`, the numbers that the header gives them.
pub mod Names
use xgc2_ugv_controller.Base.{ℕ, ◌+◌, Bool, true, false, String, List, [], ◌==◌}
use xgc2_ugv_controller.Floating.{Double, lit, ◌⊗◌, ◌⊘◌}

module _ {D : Type 0} ⦃f : Double D⦄ where
  abbrev pub pi : D
  pi = lit 314159265358979323846 20

  unfoldable pub wrap_angle : D → D
  wrap_angle a = f.atan2 (f.sin a) (f.cos a)

pub record Pose (D : Type 0) : Type 0 where
  pub x : D
  pub y : D
  pub yaw : D

pub record Point (D : Type 0) : Type 0 where
  pub x : D
  pub y : D

pub data Model : Type 0 where
  unicycle omni : Model

pub data Phase : Type 0 where
  idle requesting waiting moving settling done : Phase

pub data GrantState : Type 0 where
  hold go brake reject : GrantState

pub data Reason : Type 0 where
  none waiting_for_peer precedence replan scene_unavailable non_participant_moving : Reason
  goal_occupied no_route deadlock too_slow bad_session stalled scene_changed : Reason

pub data Outcome : Type 0 where
  none arrived timeout stopped : Outcome
  rejected_no_target rejected_no_coordinator rejected_by_coordinator : Outcome
  infeasible : Outcome
  aborted_deviation aborted_stalled aborted_coordinator_lost aborted_unhealthy : Outcome

abbrev pub model_code : Model → ℕ
model_code Model.unicycle = 0
model_code Model.omni = 1

abbrev pub phase_code : Phase → ℕ
phase_code Phase.idle = 0
phase_code Phase.requesting = 1
phase_code Phase.waiting = 2
phase_code Phase.moving = 3
phase_code Phase.settling = 4
phase_code Phase.done = 5

abbrev pub grant_state_code : GrantState → ℕ
grant_state_code GrantState.hold = 0
grant_state_code GrantState.go = 1
grant_state_code GrantState.brake = 2
grant_state_code GrantState.reject = 3

abbrev pub reason_code : Reason → ℕ
reason_code Reason.none = 0
reason_code Reason.waiting_for_peer = 1
reason_code Reason.precedence = 2
reason_code Reason.replan = 3
reason_code Reason.scene_unavailable = 4
reason_code Reason.non_participant_moving = 5
reason_code Reason.goal_occupied = 20
reason_code Reason.no_route = 21
reason_code Reason.deadlock = 22
reason_code Reason.too_slow = 23
reason_code Reason.bad_session = 24
reason_code Reason.stalled = 25
reason_code Reason.scene_changed = 26

abbrev pub outcome_code : Outcome → ℕ
outcome_code Outcome.none = 0
outcome_code Outcome.arrived = 1
outcome_code Outcome.timeout = 2
outcome_code Outcome.stopped = 3
outcome_code Outcome.rejected_no_target = 10
outcome_code Outcome.rejected_no_coordinator = 11
outcome_code Outcome.rejected_by_coordinator = 12
outcome_code Outcome.infeasible = 20
outcome_code Outcome.aborted_deviation = 30
outcome_code Outcome.aborted_stalled = 31
outcome_code Outcome.aborted_coordinator_lost = 32
outcome_code Outcome.aborted_unhealthy = 33

-- What a vehicle declares about itself.
pub record Footprint (D : Type 0) : Type 0 where
  pub half_length : D
  pub half_width : D
  pub offset_x : D
  pub offset_y : D

pub record VehicleSpec (D : Type 0) : Type 0 where
  pub model : Model
  pub footprint : Footprint D
  pub max_v : D
  pub max_vy : D
  pub max_w : D
  pub acc_v : D
  pub acc_w : D
  pub ell_bound : D

pub record Session (D : Type 0) : Type 0 where
  pub request_generation : ℕ  -- uint32_t
  pub acknowledged_grant_id : ℕ  -- uint32_t
  pub stop_certified : Bool
  pub publication_seq : ℕ  -- uint32_t
  pub stamp : D
  pub session : ℕ  -- uint32_t
  pub pose_stamp : D
  pub pose : Pose D
  pub target : Pose D
  pub phase : Phase
  pub progress : D
  pub cross_track : D
  pub spec : VehicleSpec D
  pub ell_hat : D
  pub ell_spread : D
  pub healthy : Bool

pub record Grant (D : Type 0) : Type 0 where
  pub request_generation : ℕ  -- uint32_t
  pub publication_seq : ℕ  -- uint32_t
  pub stamp : D
  pub ttl : D
  pub session : ℕ  -- uint32_t
  pub state : GrantState
  pub grant_id : ℕ  -- uint32_t
  pub start : Pose D
  pub goal : Pose D
  pub final_move : Bool
  pub ell_plan : D
  pub via : List (Point D)
  pub s_limit : D
  pub reason : Reason
  pub detail : String
  pub blockers : List String

pub record Result (D : Type 0) : Type 0 where
  pub session : ℕ  -- uint32_t
  pub outcome : Outcome
  pub reason : Reason
  pub final_planar_error : D
  pub final_yaw_error : D
  pub duration : D
  pub detail : String

-- A route has at most this many interior vertices.
abbrev pub max_via : ℕ
max_via = 24

-- The values that the header gives to the fields.
module _ {D : Type 0} ⦃f : Double D⦄ where
  abbrev pub default_pose : Pose D
  default_pose = record { x = lit 0 0; y = lit 0 0; yaw = lit 0 0 }

  abbrev pub default_spec : VehicleSpec D
  default_spec = record {
    model = Model.unicycle;
    footprint = record {
      half_length = lit 45 2;
      half_width = lit 40 2;
      offset_x = lit 0 0;
      offset_y = lit 0 0;
    };
    max_v = lit 35 2;
    max_vy = lit 0 0;
    max_w = lit 5 1;
    acc_v = lit 35 2;
    acc_w = lit 6 1;
    ell_bound = lit 25 2;
  }

  abbrev pub default_session : Session D
  default_session = record {
    request_generation = 0;
    acknowledged_grant_id = 0;
    stop_certified = false;
    publication_seq = 0;
    stamp = lit 0 0;
    session = 0;
    pose_stamp = lit 0 0;
    pose = default_pose;
    target = default_pose;
    phase = Phase.idle;
    progress = lit 0 0;
    cross_track = lit 0 0;
    spec = default_spec;
    ell_hat = lit 0 0;
    ell_spread = f.neg (lit 1 0);
    healthy = false;
  }

  abbrev pub default_grant : Grant D
  default_grant = record {
    request_generation = 0;
    publication_seq = 0;
    stamp = lit 0 0;
    ttl = lit 1 0;
    session = 0;
    state = GrantState.hold;
    grant_id = 0;
    start = default_pose;
    goal = default_pose;
    final_move = true;
    ell_plan = lit 0 0;
    via = [];
    s_limit = lit 0 0;
    reason = Reason.none;
    detail = "";
    blockers = [];
  }

  abbrev pub default_result : Result D
  default_result = record {
    session = 0;
    outcome = Outcome.none;
    reason = Reason.none;
    final_planar_error = lit 0 0;
    final_yaw_error = lit 0 0;
    duration = lit 0 0;
    detail = "";
  }

  abbrev pub reset_timeout : D
  reset_timeout = lit 90 0

  abbrev pub no_coordinator_timeout : D
  no_coordinator_timeout = lit 2 0

  -- Seconds between two Session messages.
  abbrev pub session_period : D
  session_period = lit 2 1

abbrev pub same_reason : Reason → Reason → Bool
same_reason a b = reason_code a == reason_code b

abbrev pub same_grant_state : GrantState → GrantState → Bool
same_grant_state a b = grant_state_code a == grant_state_code b

abbrev pub same_phase : Phase → Phase → Bool
same_phase a b = phase_code a == phase_code b

abbrev pub is_unicycle : Model → Bool
is_unicycle m = model_code m == 0
