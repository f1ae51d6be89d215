-- ===== src/Unicycle/Types.antt =====
-- unicycle_ugv_controller/include/unicycle_ugv_controller/common/types.h, and the predicates of
-- src/common_types.cpp. The operator's commands, the modes, the outcomes of commands and the Reset target
-- are those of the mecanum controller.
use xgc2_ugv_controller.Base.{
  ℕ, ◌/◌, ◌%◌, Bool, false, not, ◌&&◌, ◌||◌, Option, some, ℤ, sub_ℕ, pos_part, neg_part,
  if◌then◌else◌, and_then, ◌==◌,
}
use xgc2_ugv_controller.Floating.{Double, lit, ◌⊕◌, ◌⊗◌, ◌≺◌, ◌≼◌}
use xgc2_ugv_controller.Clock.Time.{Time, zero_time, sub_time, to_sec}
use xgc2_ugv_controller.Unicycle.Config.{ControllerConfig}

pub record UgvState (D : Type 0) : Type 0 where
  pub stamp : Time
  pub x : D
  pub y : D
  pub yaw : D
  pub vx : D
  pub vy : D
  pub speed : D
  pub yaw_rate : D
  pub estimator_state : ℕ  -- uint8_t
  pub estimator_flags : ℕ  -- uint32_t
  pub received : Bool
  pub pose_stamp_trusted : Bool
  pub velocity_valid : Bool

pub record ControlCommand (D : Type 0) : Type 0 where
  pub stamp : Time
  pub linear_speed : D
  pub angular_speed : D
  pub valid : Bool

pub record CmdVel (D : Type 0) : Type 0 where
  pub linear_x : D
  pub angular_z : D

pub record WorldPvaReference (D : Type 0) : Type 0 where
  pub stamp : Time
  pub x : D
  pub y : D
  pub yaw : D
  pub vx : D
  pub vy : D
  pub ax : D
  pub ay : D
  pub valid : Bool

pub data ControllerOutput (D : Type 0) : Type 0 where
  solve_nmpc : ℕ → D → ControllerOutput D  -- the sequence is a uint64_t
  publish_command publish_zero : D → ControllerOutput D

pub record NmpcCompletion (D : Type 0) : Type 0 where
  pub sequence : ℕ  -- uint64_t
  pub command : Option (ControlCommand D)

-- common/rigid_estimate_health.h; the flag of a fault is 256, one bit.
abbrev pub rigid_estimate_healthy : ℕ → ℕ → Bool
rigid_estimate_healthy estimator_state flags = (estimator_state == 3) && (flags / 256 % 2 == 0)

module _ {D : Type 0} ⦃f : Double D⦄ where
  -- `static_cast<int64_t>`: the fraction is dropped.
  abbrev pub trunc_int : D → ℤ
  trunc_int a =
      let down = f.floor_int (f.neg a) in
      if a ≺ lit 0 0 then sub_ℕ (neg_part down) (pos_part down) else f.floor_int a

  abbrev pub no_control : ControlCommand D
  no_control = record {
    stamp = zero_time;
    linear_speed = lit 0 0;
    angular_speed = lit 0 0;
    valid = false;
  }

  abbrev pub no_twist : CmdVel D
  no_twist = record { linear_x = lit 0 0; angular_z = lit 0 0 }

  abbrev pub no_pva : WorldPvaReference D
  no_pva = record {
    stamp = zero_time;
    x = lit 0 0;
    y = lit 0 0;
    yaw = lit 0 0;
    vx = lit 0 0;
    vy = lit 0 0;
    ax = lit 0 0;
    ay = lit 0 0;
    valid = false;
  }

  unfoldable pub finite_pose : UgvState D → Bool
  finite_pose s = f.isfinite s.x && f.isfinite s.y && f.isfinite s.yaw

  abbrev pub finite_state : UgvState D → Bool
  finite_state s = finite_pose s && f.isfinite s.speed && f.isfinite s.yaw_rate

  -- `stateFresh`; `none` is the exception of the difference of the times.
  unfoldable pub state_fresh : UgvState D → Time → D → Option Bool
  unfolding finite_pose
  state_fresh s now timeout = and_then (sub_time now s.stamp) (λ d.
      let age = to_sec d in
      some (
        s.received
        && finite_pose s
        && (lit 0 0 ≺ timeout)
        && f.isfinite age
        && (f.neg (lit 5 2) ≼ age)
        && (age ≼ timeout)))

  unfoldable pub inside_fence : UgvState D → ControllerConfig D → Bool
  inside_fence s c =
      if not (f.isfinite c.fence_x_min)
        || not (f.isfinite c.fence_x_max)
        || not (f.isfinite c.fence_y_min)
        || not (f.isfinite c.fence_y_max)
        || (c.fence_x_max ≼ c.fence_x_min)
        || (c.fence_y_max ≼ c.fence_y_min)
      then false
      else (c.fence_x_min ≼ s.x)
        && (s.x ≼ c.fence_x_max)
        && (c.fence_y_min ≼ s.y)
        && (s.y ≼ c.fence_y_max)

  abbrev pub body_speed_from_world : D → D → D → D
  body_speed_from_world yaw vx vy = (f.cos yaw ⊗ vx) ⊕ (f.sin yaw ⊗ vy)

  abbrev pub world_pva_ready : WorldPvaReference D → Bool
  world_pva_ready s =
      s.valid
      && f.isfinite s.x
      && f.isfinite s.y
      && f.isfinite s.vx
      && f.isfinite s.vy
      && f.isfinite s.ax
      && f.isfinite s.ay
