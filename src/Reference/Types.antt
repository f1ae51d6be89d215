-- ===== src/Reference/Types.antt =====
-- unicycle_reference_trajectory/include/unicycle_reference_trajectory: reference_types.h, the messages, and
-- what the runtime takes of the library xgc2_math, as an interface.
use xgc2_ugv_controller.Base.{
  ℕ, ◌+◌, ◌*◌, ◌/◌, ◌%◌, zero, suc, Bool, ◌||◌, ◌&&◌, String, List, Option, ◌==◌, if◌then◌else◌,
}
use xgc2_ugv_controller.Clock.Time.{Time}

pub record Vector (D : Type 0) : Type 0 where
  pub x : D
  pub y : D
  pub z : D

pub record Quaternion (D : Type 0) : Type 0 where
  pub x : D
  pub y : D
  pub z : D
  pub w : D

pub record MessagePose (D : Type 0) : Type 0 where
  pub position : Vector D
  pub orientation : Quaternion D

pub record Header : Type 0 where
  pub seq : ℕ  -- uint32_t
  pub stamp : Time
  pub frame_id : String

pub record AnalyticReference (D : Type 0) : Type 0 where
  pub header : Header
  pub request_id : ℕ  -- uint32_t
  pub trajectory_id : ℕ  -- uint32_t
  pub revision : ℕ  -- uint32_t
  pub analytic_type : ℕ  -- uint16_t
  pub flags : ℕ  -- uint32_t
  pub start_time : Time
  pub duration : D
  pub origin : MessagePose D
  pub params : List D

pub record PlanarReferencePoint (D : Type 0) : Type 0 where
  pub t_from_start : D
  pub x : D
  pub y : D
  pub yaw : D
  pub speed : D
  pub linear_acceleration : D
  pub yaw_rate : D
  pub yaw_acceleration : D
  pub curvature : D
  pub vx : D
  pub vy : D
  pub ax : D
  pub ay : D
  pub jx : D
  pub jy : D

pub record SampledReference (D : Type 0) : Type 0 where
  pub header : Header
  pub trajectory_id : ℕ  -- uint32_t
  pub revision : ℕ  -- uint32_t
  pub flags : ℕ  -- uint32_t
  pub start_time : Time
  pub sample_dt : D
  pub points : List (PlanarReferencePoint D)

pub record WaypointReferenceRequest (D : Type 0) : Type 0 where
  pub header : Header
  pub request_id : ℕ  -- uint32_t
  pub trajectory_id : ℕ  -- uint32_t
  pub revision : ℕ  -- uint32_t
  pub flags : ℕ  -- uint32_t
  pub waypoints : List (MessagePose D)
  pub segment_times : List D
  pub start_velocity : Vector D
  pub start_acceleration : Vector D
  pub end_velocity : Vector D
  pub end_acceleration : Vector D
  pub desired_speed : D
  pub max_velocity : D
  pub max_acceleration : D
  pub max_yaw_rate : D
  pub max_linear_acceleration : D
  pub objective : ℕ  -- uint8_t

pub record ActivePolynomialReference (D : Type 0) : Type 0 where
  pub header : Header
  pub trajectory_id : ℕ  -- uint32_t
  pub revision : ℕ  -- uint32_t
  pub flags : ℕ  -- uint32_t
  pub start_time : Time
  pub duration : D
  pub order : ℕ  -- uint8_t
  pub segment_durations : List D
  pub coeff_x : List D
  pub coeff_y : List D
  pub coeff_yaw : List D

pub record ReferenceStatus : Type 0 where
  pub stamp : Time
  pub state : ℕ  -- uint8_t
  pub flags : ℕ  -- uint32_t
  pub active_trajectory_id : ℕ  -- uint32_t
  pub active_revision : ℕ  -- uint32_t
  pub active_type : ℕ  -- uint8_t

-- xgc2_math/trajectory.hpp: the parameters of its curves, its samples and its waypoint problem.
pub record Planar (D : Type 0) : Type 0 where
  pub x : D
  pub y : D

pub record CurveParameters (D : Type 0) : Type 0 where
  pub flags : ℕ  -- uint32_t
  pub duration : D
  pub center : Planar D
  pub radius : D
  pub line_speed : D

pub record HoldParameters (D : Type 0) : Type 0 where
  pub flags : ℕ  -- uint32_t
  pub duration : D
  pub position : Planar D
  pub yaw : D

pub record EntryParameters (D : Type 0) : Type 0 where
  pub flags : ℕ  -- uint32_t
  pub duration : D
  pub origin : Planar D
  pub origin_yaw : D
  pub entry_duration : D
  pub circle : CurveParameters D

pub record WaypointConstraint (D : Type 0) : Type 0 where
  pub position : Planar D
  pub yaw : D

pub record WaypointProblem (D : Type 0) : Type 0 where
  pub flags : ℕ  -- uint32_t
  pub segment_times : List D
  pub start_velocity : Planar D
  pub start_acceleration : Planar D
  pub end_velocity : Planar D
  pub end_acceleration : Planar D
  pub desired_speed : D
  pub max_velocity : D
  pub max_acceleration : D
  pub max_yaw_rate : D
  pub validation_sample_dt : D
  pub constraints : List (WaypointConstraint D)

pub record PolynomialSegment (D : Type 0) : Type 0 where
  pub duration : D
  pub x : List D
  pub y : List D
  pub yaw : List D

-- `E` are the evaluators and `L` the limits of a trajectory. A setter that fails is `none`.
pub record TrajectoryMath (D E L : Type 0) : Type 0 where
  -- `kFlagInvalidInput | kFlagNonFinite`, and the first of them
  pub fatal : ℕ
  pub invalid_input : ℕ
  pub hold : HoldParameters D → E
  pub circle : CurveParameters D → E
  pub figure_eight : CurveParameters D → E
  pub circle_entry : EntryParameters D → E
  pub set_samples : List (PlanarReferencePoint D) → Bool → Option E
  -- `SepticWaypointInterpolator2::solve`, with the flags before and after
  pub solve : WaypointProblem D → ℕ → Option E × ℕ
  pub validate : E → L → D → ℕ
  pub duration : E → D
  pub order : E → ℕ
  pub segments : E → List (PolynomialSegment D)

-- `|` and `&` of the lowest bits of two words; a uint32_t has 32.
abbrev bit_or : ℕ → ℕ → ℕ → ℕ
bit_or zero a b = 0
bit_or (suc n) a b =
    let rest = bit_or n (a / 2) (b / 2) in
    (if (a % 2 == 1) || (b % 2 == 1) then 1 else 0) + 2 * rest

abbrev bit_and : ℕ → ℕ → ℕ → ℕ
bit_and zero a b = 0
bit_and (suc n) a b =
    let rest = bit_and n (a / 2) (b / 2) in
    (if (a % 2 == 1) && (b % 2 == 1) then 1 else 0) + 2 * rest

unfoldable pub or_32 : ℕ → ℕ → ℕ
or_32 a b = bit_or 32 a b

unfoldable pub and_32 : ℕ → ℕ → ℕ
and_32 a b = bit_and 32 a b
