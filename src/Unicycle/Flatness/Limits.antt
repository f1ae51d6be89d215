-- ===== src/Unicycle/Flatness/Limits.antt =====
-- common_types.cpp, `computeFlatnessCommand`, over exact numbers: when the tracking law gives a command, and
-- how large it is.
use xgc2_ugv_controller.Base.{
  ◌≡◌, refl, Bool, true, false, not, ◌||◌, ℤ, pos, ◌≤ℤ◌, Option, none, some, if_cases, arith,
}
use xgc2_ugv_controller.Floating.{lit, ◌⊕◌, ◌⊗◌, ◌≺◌, ◌≼◌}
use xgc2_ugv_controller.Floating.Fixed.{fixed_double}
use xgc2_ugv_controller.Unicycle.Types.{
  UgvState, WorldPvaReference, body_speed_from_world, finite_pose, world_pva_ready,
}
use xgc2_ugv_controller.Unicycle.Config.{ControllerConfig}
use xgc2_ugv_controller.Unicycle.Flatness.{
  FlatnessCommandOutput, can_track, commanded, compute_flatness_command, flatness_yaw_rate,
  has_gains, has_lateral, is_valid_recovery, lateral_accel, longitudinal_accel, no_output,
}
use xgc2_ugv_controller.Unicycle.Controller.Twist.{limit_bounds, neg_le}

-- What a valid output of the law stands for.
pub record Tracks (s : UgvState ℤ) (r : WorldPvaReference ℤ) (dt : ℤ) (c : ControllerConfig ℤ)
    (o : FlatnessCommandOutput ℤ) : Type 0 where
  pub pose : finite_pose s ≡ true
  pub reference : world_pva_ready r ≡ true
  pub velocity : s.velocity_valid ≡ true
  pub later : (c.velocity_dt_min ≺ dt) ≡ true
  pub soon : (dt ≼ c.velocity_dt_max) ≡ true
  pub above : fixed_double.neg c.chassis_max_linear_speed ≤ℤ o.linear_speed
  pub below : o.linear_speed ≤ℤ c.chassis_max_linear_speed
  pub right : fixed_double.neg c.chassis_max_yaw_rate ≤ℤ o.angular_speed
  pub left : o.angular_speed ≤ℤ c.chassis_max_yaw_rate

-- A saturated output lies between the limits.
record IsLimited (c : ControllerConfig ℤ) (o : FlatnessCommandOutput ℤ) : Type 0 where
  above : fixed_double.neg c.chassis_max_linear_speed ≤ℤ o.linear_speed
  below : o.linear_speed ≤ℤ c.chassis_max_linear_speed
  right : fixed_double.neg c.chassis_max_yaw_rate ≤ℤ o.angular_speed
  left : o.angular_speed ≤ℤ c.chassis_max_yaw_rate

module _ (c : ControllerConfig ℤ) (v : pos 0 ≤ℤ c.chassis_max_linear_speed)
    (w : pos 0 ≤ℤ c.chassis_max_yaw_rate) where
  no_output-IsLimited : IsLimited c no_output
  no_output-IsLimited = record {
    above = (neg_le c.chassis_max_linear_speed v).0;
    below = v;
    right = (neg_le c.chassis_max_yaw_rate w).0;
    left = w;
  }

  commanded-IsLimited :
      (accel linear : ℤ) (angular : Option ℤ) → IsLimited c (commanded accel linear c angular)
  commanded-IsLimited accel linear none = no_output-IsLimited
  commanded-IsLimited accel linear (some angular) =
      let x =
        limit_bounds linear _ c.chassis_max_linear_speed (neg_le c.chassis_max_linear_speed v).1 in
      let y = limit_bounds angular _ c.chassis_max_yaw_rate (neg_le c.chassis_max_yaw_rate w).1 in
      if_cases (IsLimited c)
        (not (fixed_double.isfinite accel)
          || not (fixed_double.isfinite linear)
          || not (fixed_double.isfinite angular))
        (λ _. no_output-IsLimited)
        (λ _. record { above = x.0; below = x.1; right = y.0; left = y.1 })

not-false : (b : Bool) → not b ≡ false → b ≡ true
not-false true h = refl
not-false false h = cc

-- The tests of the law, one by one.
first_tests :
    (pose reference speed vx vy time early late velocity : Bool)
    → not (
        not pose
        || not reference
        || not speed
        || not vx
        || not vy
        || not time
        || early
        || late
        || not velocity)
      ≡ true
    → (pose ≡ true) × (reference ≡ true) × (early ≡ false) × (late ≡ false) × (velocity ≡ true)
first_tests pose reference speed vx vy time early late velocity h = ground arith

gain_tests :
    (speed kp kv v_eps small max_speed still max_rate fixed : Bool)
    → not (
        not speed
        || not kp
        || not kv
        || not v_eps
        || small
        || not max_speed
        || still
        || not max_rate
        || fixed)
      ≡ true
    → (still ≡ false) × (fixed ≡ false)
gain_tests speed kp kv v_eps small max_speed still max_rate fixed h = ground arith

le-lt : (a b : ℤ) → (a ≼ b) ≡ false → (b ≺ a) ≡ true
le-lt a b h = ground (arith, h)

lt-le : (a b : ℤ) → (a ≺ b) ≡ false → (b ≼ a) ≡ true
lt-le a b h = ground (arith, h)

positive : (a : ℤ) → (a ≼ lit 0 0) ≡ false → pos 0 ≤ℤ a
positive a h = ground (arith, h)

can_track-Tracks :
    (s : UgvState ℤ) (r : WorldPvaReference ℤ) (speed dt : ℤ) (c : ControllerConfig ℤ)
    (o : FlatnessCommandOutput ℤ)
    → can_track s r speed dt c ≡ true
    → IsLimited c o
    → Tracks s r dt c o
can_track-Tracks s r speed dt c o passed l =
    let t =
      first_tests (finite_pose s) (world_pva_ready r) (fixed_double.isfinite speed)
        (fixed_double.isfinite s.vx) (fixed_double.isfinite s.vy) (fixed_double.isfinite dt)
        (dt ≼ c.velocity_dt_min) (c.velocity_dt_max ≺ dt) s.velocity_valid passed in
    record {
      pose = t.0;
      reference = t.1;
      velocity = t.4;
      later = le-lt dt c.velocity_dt_min t.2;
      soon = lt-le c.velocity_dt_max dt t.3;
      above = l.above;
      below = l.below;
      right = l.right;
      left = l.left;
    }

positive_limits :
    (speed : ℤ) (c : ControllerConfig ℤ)
    → has_gains speed c ≡ true
    → (pos 0 ≤ℤ c.chassis_max_linear_speed) × (pos 0 ≤ℤ c.chassis_max_yaw_rate)
positive_limits speed c passed =
    let t =
      gain_tests (fixed_double.isfinite speed) (fixed_double.isfinite c.flatness_kp)
        (fixed_double.isfinite c.flatness_kv) (fixed_double.isfinite c.flatness_v_eps)
        (c.flatness_v_eps ≼ lit 0 0) (fixed_double.isfinite c.chassis_max_linear_speed) _
        (fixed_double.isfinite c.chassis_max_yaw_rate) _ passed in
    (positive c.chassis_max_linear_speed t.0, positive c.chassis_max_yaw_rate t.1)

-- Over exact numbers, a valid output of the tracking law stands for a finite pose with a valid velocity,
-- a reference that is ready and a time step within its bounds, and its speeds lie between the limits of
-- the chassis.
pub compute_flatness_command-Tracks :
    (s : UgvState ℤ) (r : WorldPvaReference ℤ) (command_speed dt : ℤ) (c : ControllerConfig ℤ)
    → (compute_flatness_command s r command_speed dt c).valid ≡ true
    → Tracks s r dt c (compute_flatness_command s r command_speed dt c)
unfolding compute_flatness_command
compute_flatness_command-Tracks s r command_speed dt c =
    let P = λ (o : FlatnessCommandOutput ℤ). o.valid ≡ true → Tracks s r dt c o in
    let speed = body_speed_from_world s.yaw s.vx s.vy in
    if_cases P (not (can_track s r command_speed dt c)) (λ _ v. cc)
      (λ tracked.
        if_cases P (not (is_valid_recovery c.heading_recovery)) (λ _ v. cc)
          (λ _.
            if_cases P (not (has_gains speed c)) (λ _ v. cc)
              (λ gains.
                if_cases P (not (has_lateral c)) (λ _ v. cc)
                  (λ _ _.
                    let limits = positive_limits speed c (not-false _ gains) in
                    can_track-Tracks s r command_speed dt c _ (not-false _ tracked) (
                      commanded-IsLimited c limits.0 limits.1 (longitudinal_accel s r c)
                        (command_speed ⊕ (longitudinal_accel s r c ⊗ dt))
                        (flatness_yaw_rate s r speed (lateral_accel s r speed c) c))))))
