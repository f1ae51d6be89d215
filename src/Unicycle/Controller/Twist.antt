-- ===== src/Unicycle/Controller/Twist.antt =====
-- unicycle_ugv_controller.cpp, `cmdVel`, over exact numbers: the twist that the chassis is given.
use xgc2_ugv_controller.Base.{
  ◌≡◌, ◌⊎◌, false, not, ◌||◌, ℤ, pos, ◌≤ℤ◌, Bool-cases, inl, inr, if_cases, arith,
}
use xgc2_ugv_controller.Floating.Fixed.{fixed_double}
use xgc2_ugv_controller.Mecanum.Types.{ControlMode, limit}
use xgc2_ugv_controller.Mecanum.Controller.{requires_zero_command}
use xgc2_ugv_controller.Unicycle.Types.{CmdVel, ControlCommand, no_twist}
use xgc2_ugv_controller.Unicycle.Config.{ControllerConfig, TrackingStrategy}
use xgc2_ugv_controller.Unicycle.Controller.{Controller, by_nmpc, cmd_vel, saturated_twist}

-- The limits that a configuration gives: the least and the greatest speed, and the yaw rate.
pub record Limits : Type 0 where
  pub least : ℤ
  pub greatest : ℤ
  pub yaw_rate : ℤ

abbrev chassis_limits : ControllerConfig ℤ → Limits
chassis_limits c = record {
  least = fixed_double.neg c.chassis_max_linear_speed;
  greatest = c.chassis_max_linear_speed;
  yaw_rate = c.chassis_max_yaw_rate;
}

abbrev nmpc_limits : ControllerConfig ℤ → Limits
nmpc_limits c = record {
  least = c.min_linear_speed;
  greatest = c.max_linear_speed;
  yaw_rate = c.max_angular_speed;
}

-- Custom1 by NMPC has limits of its own; every other mode has those of the chassis.
abbrev pub limits_of : ControlMode → TrackingStrategy → ControllerConfig ℤ → Limits
limits_of ControlMode.custom1 TrackingStrategy.nmpc c = nmpc_limits c
limits_of ControlMode.custom1 TrackingStrategy.flatness c = chassis_limits c
limits_of _ _ c = chassis_limits c

-- Limits between which a vehicle can stand still.
pub record AllowsRest (l : Limits) : Type 0 where
  pub reverse : l.least ≤ℤ pos 0
  pub forward : pos 0 ≤ℤ l.greatest
  pub turning : pos 0 ≤ℤ l.yaw_rate

pub record IsWithin (l : Limits) (t : CmdVel ℤ) : Type 0 where
  pub above : l.least ≤ℤ t.linear_x
  pub below : t.linear_x ≤ℤ l.greatest
  pub right : fixed_double.neg l.yaw_rate ≤ℤ t.angular_z
  pub left : t.angular_z ≤ℤ l.yaw_rate

-- A limited value lies between limits in order.
pub limit_bounds : (v lo hi : ℤ) → lo ≤ℤ hi → (lo ≤ℤ limit v lo hi) × (limit v lo hi ≤ℤ hi)
limit_bounds v lo hi h = ground (arith, h)

pub neg_le : (a : ℤ) → pos 0 ≤ℤ a → (fixed_double.neg a ≤ℤ pos 0) × (fixed_double.neg a ≤ℤ a)
neg_le a h = ground (arith, h)

no_twist-IsWithin : (l : Limits) → AllowsRest l → IsWithin l no_twist
no_twist-IsWithin l r = ground (arith, neg_le l.yaw_rate r.turning)

-- The two ways of saturating.
limited_twist : Limits → ControlCommand ℤ → CmdVel ℤ
limited_twist l c = record {
  linear_x = limit c.linear_speed l.least l.greatest;
  angular_z = limit c.angular_speed (fixed_double.neg l.yaw_rate) l.yaw_rate;
}

limited_twist-IsWithin :
    (l : Limits) (c : ControlCommand ℤ) → AllowsRest l → IsWithin l (limited_twist l c)
unfolding limited_twist
limited_twist-IsWithin l c r =
    let v = limit_bounds c.linear_speed l.least l.greatest (omega (arith, r.reverse, r.forward)) in
    let n = neg_le l.yaw_rate r.turning in
    let w = limit_bounds c.angular_speed (fixed_double.neg l.yaw_rate) l.yaw_rate n.1 in
    record { above = v.0; below = v.1; right = w.0; left = w.1 }

saturated_twist-IsWithin :
    (mode : ControlMode) (strategy : TrackingStrategy) (cfg : ControllerConfig ℤ)
    (c : ControlCommand ℤ)
    → AllowsRest (limits_of mode strategy cfg)
    → IsWithin (limits_of mode strategy cfg) (saturated_twist (by_nmpc mode strategy) cfg c)
unfolding saturated_twist limited_twist
saturated_twist-IsWithin ControlMode.custom1 TrackingStrategy.nmpc cfg c r =
    limited_twist-IsWithin (nmpc_limits cfg) c r
saturated_twist-IsWithin ControlMode.custom1 TrackingStrategy.flatness cfg c r =
    limited_twist-IsWithin (chassis_limits cfg) c r
saturated_twist-IsWithin ControlMode.self_check strategy cfg c r =
    limited_twist-IsWithin (chassis_limits cfg) c r
saturated_twist-IsWithin ControlMode.ready strategy cfg c r =
    limited_twist-IsWithin (chassis_limits cfg) c r
saturated_twist-IsWithin ControlMode.reset strategy cfg c r =
    limited_twist-IsWithin (chassis_limits cfg) c r

module _ {M C : Type 0} where
  -- Over exact numbers, with limits of the mode between which the vehicle can stand still, the twist
  -- given to the chassis lies between them; and it is zero, unless the executor does not ask for zero
  -- and the command is valid.
  pub cmd_vel-IsWithin :
      (mode : ControlMode) (c : Controller ℤ M C)
      → let l = limits_of mode c.config.tracking_strategy c.config in
        AllowsRest l
        → IsWithin l (cmd_vel mode c)
          × (((requires_zero_command c.executor || not c.command.valid) ≡ false)
              ⊎ (cmd_vel mode c ≡ no_twist))
  unfolding cmd_vel
  cmd_vel-IsWithin mode c r =
      let l = limits_of mode c.config.tracking_strategy c.config in
      let still = no_twist-IsWithin l r in
      (
        if_cases (IsWithin l) (requires_zero_command c.executor) (λ _. still)
            (λ _.
              if_cases (IsWithin l)
                (not c.command.valid
                  || not (fixed_double.isfinite c.command.linear_speed)
                  || not (fixed_double.isfinite c.command.angular_speed))
                (λ _. still)
                (λ _.
                  saturated_twist-IsWithin mode c.config.tracking_strategy c.config c.command r)),
        elim (Bool-cases (requires_zero_command c.executor || not c.command.valid)) [
          | inr driven ↦ inl driven
          | inl still ↦ inr (ground (arith, still))
        ],
      )
