-- ===== src/Mecanum/Types.antt =====
-- mecanum_ugv_controller/include/mecanum_ugv_controller/common/types.h and src/common_types.cpp. The
-- library xgc2_math is a parameter.
use xgc2_ugv_controller.Base.{
  ℕ, Bool, true, false, not, ◌&&◌, ◌||◌, String, Option, none, some, if◌then◌else◌, and_then,
}
use xgc2_ugv_controller.Floating.{Double, lit, ◌⊕◌, ◌⊖◌, ◌⊗◌, ◌⊘◌, ◌≺◌, ◌≼◌, dmin, dmax}
use xgc2_ugv_controller.Clock.Time.{Time, zero_time, sub_time, to_sec}

-- xgc2_math/algebra/angle.hpp
pub record AngleMath (D : Type 0) : Type 0 where
  pub normalize_angle : D → D
  pub shortest_angular_distance : D → D → D

pub record ControllerConfig (D : Type 0) : Type 0 where
  pub control_rate_hz : D
  pub state_timeout : D
  pub command_publish_rate_hz : D
  pub idle_cmd_rate_hz : D
  pub status_publish_rate_hz : D
  pub auto_start_tracking : Bool
  pub heading_target_yaw : D
  pub track_kp_yaw : D
  pub reset_timeout : D
  pub reset_footprint_length : D
  pub reset_footprint_width : D
  pub reset_footprint_offset_x : D
  pub reset_footprint_offset_y : D
  pub reset_max_linear_speed : D
  pub reset_max_yaw_rate : D
  pub reset_linear_acceleration : D
  pub reset_angular_acceleration : D
  pub max_linear_speed : D
  pub max_yaw_rate : D
  pub fence_x_min : D
  pub fence_x_max : D
  pub fence_y_min : D
  pub fence_y_max : D
  pub reset_initial_x : D
  pub reset_initial_y : D
  pub reset_initial_yaw : D

pub record UgvState (D : Type 0) : Type 0 where
  pub stamp : Time
  pub x : D
  pub y : D
  pub yaw : D
  pub received : Bool
  pub pose_stamp_trusted : Bool

pub record ControlCommand (D : Type 0) : Type 0 where
  pub stamp : Time
  pub linear_x : D
  pub linear_y : D
  pub angular_z : D
  pub valid : Bool

pub record ResetTarget (D : Type 0) : Type 0 where
  pub x : D
  pub y : D
  pub yaw : D
  pub valid : Bool

pub record WorldVelocityReference (D : Type 0) : Type 0 where
  pub stamp : Time
  pub vx : D
  pub vy : D
  pub valid : Bool

pub record HolonomicTrackOutput (D : Type 0) : Type 0 where
  pub linear_x : D
  pub linear_y : D
  pub angular_z : D

pub data OperatorCommand : Type 0 where
  unknown custom1 stop reset : OperatorCommand

pub data ControlMode : Type 0 where
  self_check ready custom1 reset : ControlMode

pub data ControllerOutput (D : Type 0) : Type 0 where
  publish_command publish_zero : D → ControllerOutput D

-- `CommandOutcome::Code`
pub data Code : Type 0 where
  applied unmatched permission_active credit_unavailable : Code

pub record CommandOutcome : Type 0 where
  pub code : Code
  pub message : String

abbrev pub mode_code : ControlMode → ℕ
mode_code ControlMode.self_check = 1
mode_code ControlMode.ready = 2
mode_code ControlMode.custom1 = 3
mode_code ControlMode.reset = 5

abbrev pub no_outcome : CommandOutcome
no_outcome = record { code = Code.unmatched; message = "" }

-- `CommandOutcome::ok`
abbrev pub is_ok : CommandOutcome → Bool
is_ok o = is_applied o.code
  where
    is_applied : Code → Bool
    is_applied Code.applied = true
    is_applied _ = false

module _ {D : Type 0} ⦃f : Double D⦄ where
  -- The values that the header gives to the fields; the three initial coordinates are `nan` there.
  abbrev pub controller_config : D → ControllerConfig D
  controller_config nan = record {
    control_rate_hz = lit 500 0;
    state_timeout = lit 5 1;
    command_publish_rate_hz = lit 30 0;
    idle_cmd_rate_hz = lit 5 0;
    status_publish_rate_hz = lit 5 0;
    auto_start_tracking = false;
    heading_target_yaw = lit 0 0;
    track_kp_yaw = lit 12 1;
    reset_timeout = lit 90 0;
    reset_footprint_length = lit 69 2;
    reset_footprint_width = lit 64 2;
    reset_footprint_offset_x = lit 0 0;
    reset_footprint_offset_y = lit 0 0;
    reset_max_linear_speed = lit 35 2;
    reset_max_yaw_rate = lit 5 1;
    reset_linear_acceleration = lit 35 2;
    reset_angular_acceleration = lit 6 1;
    max_linear_speed = lit 1 0;
    max_yaw_rate = lit 1 0;
    fence_x_min = f.neg (lit 20 0);
    fence_x_max = lit 20 0;
    fence_y_min = f.neg (lit 20 0);
    fence_y_max = lit 20 0;
    reset_initial_x = nan;
    reset_initial_y = nan;
    reset_initial_yaw = nan;
  }

  abbrev pub no_control : ControlCommand D
  no_control = record {
    stamp = zero_time;
    linear_x = lit 0 0;
    linear_y = lit 0 0;
    angular_z = lit 0 0;
    valid = false;
  }

  abbrev pub no_target : ResetTarget D
  no_target = record { x = lit 0 0; y = lit 0 0; yaw = lit 0 0; valid = false }

  abbrev pub no_reference : WorldVelocityReference D
  no_reference = record { stamp = zero_time; vx = lit 0 0; vy = lit 0 0; valid = false }

  abbrev no_track : HolonomicTrackOutput D
  no_track = record { linear_x = lit 0 0; linear_y = lit 0 0; angular_z = lit 0 0 }

  unfoldable pub finite_pose : UgvState D → Bool
  finite_pose s = f.isfinite s.x && f.isfinite s.y && f.isfinite s.yaw

  -- `stateFresh`; `none` is the exception of the difference of the times.
  unfoldable pub state_fresh : UgvState D → Time → D → Option Bool
  unfolding finite_pose
  state_fresh s now timeout = and_then (sub_time now s.stamp) (λ d.
      let age = to_sec d in
      some (
        s.received
        && finite_pose s
        && (lit 0 0 ≺ timeout)
        && f.isfinite age
        && (f.neg (lit 5 2) ≼ age)
        && (age ≼ timeout)))

  unfoldable pub inside_fence : UgvState D → ControllerConfig D → Bool
  inside_fence s c =
      if not (f.isfinite c.fence_x_min)
        || not (f.isfinite c.fence_x_max)
        || not (f.isfinite c.fence_y_min)
        || not (f.isfinite c.fence_y_max)
        || (c.fence_x_max ≼ c.fence_x_min)
        || (c.fence_y_max ≼ c.fence_y_min)
      then false
      else (c.fence_x_min ≼ s.x)
        && (s.x ≼ c.fence_x_max)
        && (c.fence_y_min ≼ s.y)
        && (s.y ≼ c.fence_y_max)

  -- `clamp` of common_types.cpp, by `std::max` and `std::min`
  abbrev pub limit : D → D → D → D
  limit value lo hi = dmax lo (dmin hi value)

  unfoldable pub world_velocity_to_body : D → D → D → D × D
  world_velocity_to_body yaw v_wx v_wy =
      let c = f.cos yaw in
      let s = f.sin yaw in ((c ⊗ v_wx) ⊕ (s ⊗ v_wy), (f.neg s ⊗ v_wx) ⊕ (c ⊗ v_wy))

  unfoldable pub box_saturate : HolonomicTrackOutput D → D → D → HolonomicTrackOutput D
  box_saturate o max_linear_speed max_yaw_rate = record {
    linear_x = limit o.linear_x (f.neg max_linear_speed) max_linear_speed;
    linear_y = limit o.linear_y (f.neg max_linear_speed) max_linear_speed;
    angular_z = limit o.angular_z (f.neg max_yaw_rate) max_yaw_rate;
  }

  module _ ⦃angle : AngleMath D⦄ where
    abbrev pub yaw_from_quaternion : D → D → D → D → D
    yaw_from_quaternion x y z w =
        let siny_cosp = lit 2 0 ⊗ ((w ⊗ z) ⊕ (x ⊗ y)) in
        let cosy_cosp = lit 1 0 ⊖ (lit 2 0 ⊗ ((y ⊗ y) ⊕ (z ⊗ z))) in
        angle.normalize_angle (f.atan2 siny_cosp cosy_cosp)

    -- `none` where the source returns false.
    abbrev pub try_yaw_from_quaternion : D → D → D → D → Option D
    try_yaw_from_quaternion x y z w =
        let norm_squared = (x ⊗ x) ⊕ (y ⊗ y) ⊕ (z ⊗ z) ⊕ (w ⊗ w) in
        let inverse_norm = lit 1 0 ⊘ f.sqrt norm_squared in
        let yaw =
          yaw_from_quaternion (x ⊗ inverse_norm) (y ⊗ inverse_norm) (z ⊗ inverse_norm)
            (w ⊗ inverse_norm) in
        if not (f.isfinite norm_squared) || (norm_squared ≼ lit 1 12) || not (f.isfinite yaw)
        then none
        else some yaw

    unfoldable pub heading_rate_to_target : D → D → D → D → D
    heading_rate_to_target yaw target_yaw kp_yaw max_yaw_rate =
        limit (kp_yaw ⊗ angle.shortest_angular_distance yaw target_yaw) (f.neg max_yaw_rate)
          max_yaw_rate

    unfoldable pub compute_holonomic_track_command :
        UgvState D → WorldVelocityReference D → ControllerConfig D → HolonomicTrackOutput D
    compute_holonomic_track_command s r c =
        let body = world_velocity_to_body s.yaw r.vx r.vy in
        let wanted : HolonomicTrackOutput D = record {
          linear_x = body.0;
          linear_y = body.1;
          angular_z =
              heading_rate_to_target s.yaw c.heading_target_yaw c.track_kp_yaw c.max_yaw_rate;
        } in
        if not r.valid || not (finite_pose s) || not (f.isfinite r.vx) || not (f.isfinite r.vy)
        then no_track
        else box_saturate wanted c.max_linear_speed c.max_yaw_rate
