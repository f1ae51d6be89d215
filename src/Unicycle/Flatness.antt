-- ===== src/Unicycle/Flatness.antt =====
-- unicycle_ugv_controller: common/heading_recovery.h, and of src/common_types.cpp the reference of position,
-- velocity and acceleration (`liftWorldPva`) and the tracking law (`computeFlatnessCommand`).
pub mod Limits
use xgc2_ugv_controller.Base.{Bool, true, false, not, ◌&&◌, ◌||◌, Option, none, some, if◌then◌else◌}
use xgc2_ugv_controller.Floating.{Double, lit, ◌⊕◌, ◌⊖◌, ◌⊗◌, ◌⊘◌, ◌≺◌, ◌≼◌, ◌≐◌, dmax}
use xgc2_ugv_controller.Clock.Time.{time_to_sec}
use xgc2_ugv_controller.Mecanum.Types.{limit}
use xgc2_ugv_controller.Unicycle.Types.{
  UgvState, WorldPvaReference, finite_pose, body_speed_from_world, world_pva_ready,
}
use xgc2_ugv_controller.Unicycle.Config.{ControllerConfig, HeadingRecoveryConfig}

pub record FlatnessCommandOutput (D : Type 0) : Type 0 where
  pub linear_speed : D
  pub angular_speed : D
  pub accel : D
  pub valid : Bool

pub record HeadingRecoveryResult (D : Type 0) : Type 0 where
  pub centre : D
  pub potential : D
  pub descent : D
  pub valid : Bool

module _ {D : Type 0} ⦃f : Double D⦄ where
  abbrev pub no_output : FlatnessCommandOutput D
  no_output = record {
    linear_speed = lit 0 0;
    angular_speed = lit 0 0;
    accel = lit 0 0;
    valid = false;
  }

  abbrev no_recovery : HeadingRecoveryResult D
  no_recovery = record { centre = lit 0 0; potential = lit 0 0; descent = lit 0 0; valid = false }

  -- Whether `validate` does not throw.
  abbrev pub is_valid_recovery : HeadingRecoveryConfig D → Bool
  is_valid_recovery c = not (
      not (f.isfinite c.gain)
      || (c.gain ≺ lit 0 0)
      || not (f.isfinite c.axis_bias)
      || (c.axis_bias ≼ lit 0 0)
      || (lit 1 0 ≼ c.axis_bias)
      || not (f.isfinite c.rate_damping)
      || (c.rate_damping ≺ lit 0 0))

  -- The restoring centre of a desired velocity that is scaled by its largest part.
  abbrev restoring : D → D → D → D → D → D → HeadingRecoveryConfig D → HeadingRecoveryResult D
  restoring hx hy yaw yaw_rate reference_rate eps cfg =
      let scale = dmax (dmax (f.abs hx) (f.abs hy)) eps in
      let x = hx ⊘ scale in
      let y = hy ⊘ scale in
      let z = eps ⊘ scale in
      let den = f.sqrt ((x ⊗ x) ⊕ (y ⊗ y) ⊕ (z ⊗ z)) in
      let dx = x ⊘ den in
      let dy = y ⊘ den in
      let r = f.hypot dx dy in
      let c = (f.cos yaw ⊗ dx) ⊕ (f.sin yaw ⊗ dy) in
      let e = (f.neg (f.sin yaw) ⊗ dx) ⊕ (f.cos yaw ⊗ dy) in
      let descent = e ⊗ (c ⊕ (cfg.axis_bias ⊗ r)) in
      let potential = (lit 5 1 ⊗ e ⊗ e) ⊕ (cfg.axis_bias ⊗ r ⊗ (r ⊖ c)) in
      let centre =
        (reference_rate ⊕ (cfg.gain ⊗ descent))
        ⊖ (cfg.rate_damping ⊗ (yaw_rate ⊖ reference_rate)) in
      record {
        centre = centre;
        potential = potential;
        descent = descent;
        valid = f.isfinite centre && f.isfinite potential;
      }

  -- `headingRecoveryCentre`; `none` is the exception of `validate`.
  unfoldable pub heading_recovery_centre :
      D → D → D → D → D → D → HeadingRecoveryConfig D → Option (HeadingRecoveryResult D)
  heading_recovery_centre hx hy yaw yaw_rate reference_rate eps cfg =
      if not (is_valid_recovery cfg)
      then none
      else if not (f.isfinite hx)
          || not (f.isfinite hy)
          || not (f.isfinite yaw)
          || not (f.isfinite yaw_rate)
          || not (f.isfinite reference_rate)
          || not (f.isfinite eps)
          || (eps ≼ lit 0 0)
      then some no_recovery
      else if cfg.gain ≐ lit 0 0
      then some (record no_recovery { valid = true })
      else some (restoring hx hy yaw yaw_rate reference_rate eps cfg)

  abbrev when_finite : D → Option D
  when_finite value = if f.isfinite value then some value else none

  -- `none` where the source returns false.
  unfoldable pub centred_damped_yaw_rate : D → D → D → D → Option D
  centred_damped_yaw_rate speed a_perp eps centre =
      let scale = dmax (f.abs speed) eps in
      let v = speed ⊘ scale in
      let e = eps ⊘ scale in
      let den = (v ⊗ v) ⊕ (e ⊗ e) in
      if not (f.isfinite speed)
        || not (f.isfinite a_perp)
        || not (f.isfinite eps)
        || (eps ≼ lit 0 0)
        || not (f.isfinite centre)
      then none
      else when_finite ((((v ⊘ den) ⊘ scale) ⊗ a_perp) ⊕ (((e ⊗ e) ⊘ den) ⊗ centre))

  unfoldable pub regularized_reference_rate : D → D → D → D → D → Option D
  regularized_reference_rate vx vy ax ay eps =
      let scale = dmax (dmax (f.abs vx) (f.abs vy)) eps in
      let x = vx ⊘ scale in
      let y = vy ⊘ scale in
      let e = eps ⊘ scale in
      let den = (x ⊗ x) ⊕ (y ⊗ y) ⊕ (e ⊗ e) in
      if not (f.isfinite vx)
        || not (f.isfinite vy)
        || not (f.isfinite ax)
        || not (f.isfinite ay)
        || not (f.isfinite eps)
        || (eps ≼ lit 0 0)
      then none
      else when_finite ((((x ⊘ den) ⊘ scale) ⊗ ay) ⊖ (((y ⊘ den) ⊘ scale) ⊗ ax))

  -- The reference at a later time, by its acceleration.
  unfoldable pub lift_world_pva : WorldPvaReference D → D → WorldPvaReference D
  lift_world_pva s now_sec =
      let tau = now_sec ⊖ time_to_sec s.stamp in
      let t = dmax (lit 0 0) tau in
      if not s.valid || not (f.isfinite now_sec) || not (f.isfinite (time_to_sec s.stamp))
      then record s { valid = false }
      else if not (f.isfinite tau)
      then record s { valid = false }
      else record s {
        x = s.x ⊕ (s.vx ⊗ t) ⊕ (lit 5 1 ⊗ s.ax ⊗ t ⊗ t);
        y = s.y ⊕ (s.vy ⊗ t) ⊕ (lit 5 1 ⊗ s.ay ⊗ t ⊗ t);
        vx = s.vx ⊕ (s.ax ⊗ t);
        vy = s.vy ⊕ (s.ay ⊗ t);
      }

  -- The first tests: the vehicle, the reference, the time and the estimated velocity.
  abbrev can_track : UgvState D → WorldPvaReference D → D → D → ControllerConfig D → Bool
  can_track s r command_speed dt c = not (
      not (finite_pose s)
      || not (world_pva_ready r)
      || not (f.isfinite command_speed)
      || not (f.isfinite s.vx)
      || not (f.isfinite s.vy)
      || not (f.isfinite dt)
      || (dt ≼ c.velocity_dt_min)
      || (c.velocity_dt_max ≺ dt)
      || not s.velocity_valid)

  -- The tests of the gains and of the chassis limits.
  abbrev has_gains : D → ControllerConfig D → Bool
  has_gains estimated_speed c = not (
      not (f.isfinite estimated_speed)
      || not (f.isfinite c.flatness_kp)
      || not (f.isfinite c.flatness_kv)
      || not (f.isfinite c.flatness_v_eps)
      || (c.flatness_v_eps ≼ lit 0 0)
      || not (f.isfinite c.chassis_max_linear_speed)
      || (c.chassis_max_linear_speed ≼ lit 0 0)
      || not (f.isfinite c.chassis_max_yaw_rate)
      || (c.chassis_max_yaw_rate ≼ lit 0 0))

  abbrev has_lateral : ControllerConfig D → Bool
  has_lateral c = not (
      not (f.isfinite c.flatness_lateral_response_length)
      || (c.flatness_lateral_response_length ≼ lit 0 0)
      || not (f.isfinite c.flatness_lateral_damping)
      || (c.flatness_lateral_damping ≼ lit 0 0))

  longitudinal_accel : UgvState D → WorldPvaReference D → ControllerConfig D → D
  longitudinal_accel s r c =
      let ux = (r.ax ⊕ (c.flatness_kv ⊗ (r.vx ⊖ s.vx))) ⊕ (c.flatness_kp ⊗ (r.x ⊖ s.x)) in
      let uy = (r.ay ⊕ (c.flatness_kv ⊗ (r.vy ⊖ s.vy))) ⊕ (c.flatness_kp ⊗ (r.y ⊖ s.y)) in
      (f.cos s.yaw ⊗ ux) ⊕ (f.sin s.yaw ⊗ uy)

  lateral_accel : UgvState D → WorldPvaReference D → D → ControllerConfig D → D
  lateral_accel s r estimated_speed cfg =
      let c = f.cos s.yaw in
      let n = f.neg (f.sin s.yaw) in
      let bandwidth = f.abs estimated_speed ⊘ cfg.flatness_lateral_response_length in
      let position_error = (n ⊗ (r.x ⊖ s.x)) ⊕ (c ⊗ (r.y ⊖ s.y)) in
      let velocity_error = (n ⊗ (r.vx ⊖ s.vx)) ⊕ (c ⊗ (r.vy ⊖ s.vy)) in
      (n ⊗ r.ax)
      ⊕ (c ⊗ r.ay)
      ⊕ (lit 2 0 ⊗ cfg.flatness_lateral_damping ⊗ bandwidth ⊗ velocity_error)
      ⊕ (bandwidth ⊗ bandwidth ⊗ position_error)

  abbrev centre_of : D → D → D → Option (HeadingRecoveryResult D) → Option D
  centre_of speed lateral v_eps none = none
  centre_of speed lateral v_eps (some r) =
      if not r.valid then none else centred_damped_yaw_rate speed lateral v_eps r.centre

  abbrev recovered :
      UgvState D → WorldPvaReference D → D → D → D → ControllerConfig D → Option D → Option D
  recovered s r speed lateral v_eps c none = none
  recovered s r speed lateral v_eps c (some reference_rate) =
      let position_rate = c.flatness_kp ⊘ c.flatness_kv in
      let hx = r.vx ⊕ (position_rate ⊗ (r.x ⊖ s.x)) in
      let hy = r.vy ⊕ (position_rate ⊗ (r.y ⊖ s.y)) in
      if not (f.isfinite position_rate)
      then none
      else centre_of speed lateral v_eps
          (heading_recovery_centre hx hy s.yaw s.yaw_rate reference_rate v_eps c.heading_recovery)

  -- The yaw rate, with the heading recovery where its gain is positive. `validate` has passed, so that
  -- the recovery does not throw.
  unfoldable pub flatness_yaw_rate :
      UgvState D → WorldPvaReference D → D → D → ControllerConfig D → Option D
  flatness_yaw_rate s r speed lateral c =
      let v_eps = dmax c.flatness_v_eps (lit 1 6) in
      if lit 0 0 ≺ c.heading_recovery.gain
      then (if c.flatness_kv ≼ lit 0 0
          then none
          else recovered s r speed lateral v_eps c
              (regularized_reference_rate r.vx r.vy r.ax r.ay v_eps))
      else some ((speed ⊗ lateral) ⊘ ((speed ⊗ speed) ⊕ (v_eps ⊗ v_eps)))

  -- `boxSaturateUnicycle`, after the last tests
  abbrev pub saturated : D → D → D → ControllerConfig D → FlatnessCommandOutput D
  saturated accel linear angular c =
      let v = limit linear (f.neg c.chassis_max_linear_speed) c.chassis_max_linear_speed in
      let w = limit angular (f.neg c.chassis_max_yaw_rate) c.chassis_max_yaw_rate in
      if not (f.isfinite accel) || not (f.isfinite linear) || not (f.isfinite angular)
      then no_output
      else record {
        linear_speed = v;
        angular_speed = w;
        accel = accel;
        valid = f.isfinite v && f.isfinite w;
      }

  abbrev pub commanded : D → D → ControllerConfig D → Option D → FlatnessCommandOutput D
  commanded accel linear c none = no_output
  commanded accel linear c (some angular) = saturated accel linear angular c

  unfoldable pub compute_flatness_command :
      UgvState D → WorldPvaReference D → D → D → ControllerConfig D → FlatnessCommandOutput D
  unfolding longitudinal_accel lateral_accel
  compute_flatness_command s r command_speed dt c =
      let speed = body_speed_from_world s.yaw s.vx s.vy in
      let accel = longitudinal_accel s r c in
      let lateral = lateral_accel s r speed c in
      if not (can_track s r command_speed dt c)
      then no_output
      else if not (is_valid_recovery c.heading_recovery)
      then no_output
      else if not (has_gains speed c)
      then no_output
      else if not (has_lateral c)
      then record no_output { accel = accel }
      else commanded accel (command_speed ⊕ (accel ⊗ dt)) c (flatness_yaw_rate s r speed lateral c)
