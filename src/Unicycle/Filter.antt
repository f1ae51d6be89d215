-- ===== src/Unicycle/Filter.antt =====
-- unicycle_ugv_controller/src/common_types.cpp: the velocity of a pose by a second-order filter
-- (`expm2x2`, `updatePoseVelocityFilter`, `updatePoseVelocityEstimator`). The loop that scales a matrix
-- runs on fuel: the norm of a finite `double` is below 2 ^ 1024, so that 1100 halvings end it; `none` is a
-- loop that does not end, which an infinite norm makes.
pub mod Scaling
use xgc2_ugv_controller.Base.{
  ℕ, zero, suc, ◌+◌, Bool, true, false, not, ◌&&◌, ◌||◌, Option, none, some, pos, if◌then◌else◌,
  and_then,
}
use xgc2_ugv_controller.Floating.{Double, lit, ◌⊕◌, ◌⊖◌, ◌⊗◌, ◌⊘◌, ◌≺◌, ◌≼◌}
use xgc2_ugv_controller.Mecanum.Types.{AngleMath}
use xgc2_ugv_controller.Unicycle.Config.{ControllerConfig}

pub record PoseVelocityFilter (D : Type 0) : Type 0 where
  pub x1 : D
  pub x2 : D
  pub initialized : Bool

pub record PoseVelocityEstimator (D : Type 0) : Type 0 where
  pub axis_x : PoseVelocityFilter D
  pub axis_y : PoseVelocityFilter D
  pub axis_yaw : PoseVelocityFilter D
  pub last_stamp : D
  pub last_yaw : D
  pub have_pose : Bool
  pub velocity_valid : Bool
  pub vx : D
  pub vy : D
  pub yaw_rate : D

pub record Matrix (D : Type 0) : Type 0 where
  pub m00 : D
  pub m01 : D
  pub m10 : D
  pub m11 : D

abbrev pub scale_fuel : ℕ
scale_fuel = 1100

module _ {D : Type 0} ⦃f : Double D⦄ where
  abbrev pub new_filter : D → Bool → PoseVelocityFilter D
  new_filter x initialized = record { x1 = x; x2 = lit 0 0; initialized = initialized }

  abbrev pub new_estimator : PoseVelocityEstimator D
  new_estimator = record {
    axis_x = new_filter (lit 0 0) false;
    axis_y = new_filter (lit 0 0) false;
    axis_yaw = new_filter (lit 0 0) false;
    last_stamp = lit 0 0;
    last_yaw = lit 0 0;
    have_pose = false;
    velocity_valid = false;
    vx = lit 0 0;
    vy = lit 0 0;
    yaw_rate = lit 0 0;
  }

  product : Matrix D → Matrix D → Matrix D
  product a b = record {
    m00 = (a.m00 ⊗ b.m00) ⊕ (a.m01 ⊗ b.m10);
    m01 = (a.m00 ⊗ b.m01) ⊕ (a.m01 ⊗ b.m11);
    m10 = (a.m10 ⊗ b.m00) ⊕ (a.m11 ⊗ b.m10);
    m11 = (a.m10 ⊗ b.m01) ⊕ (a.m11 ⊗ b.m11);
  }

  abbrev pub halved : Matrix D → Matrix D
  halved s = record {
    m00 = s.m00 ⊗ lit 5 1;
    m01 = s.m01 ⊗ lit 5 1;
    m10 = s.m10 ⊗ lit 5 1;
    m11 = s.m11 ⊗ lit 5 1;
  }

  -- `while (norm > 0.5)`: the scaled matrix, and the number of halvings after those counted.
  unfoldable pub scale : ℕ → D → Matrix D → ℕ → Option (Matrix D × ℕ)
  scale zero norm s squares = none
  scale (suc fuel) norm s squares =
      let rest = scale fuel (norm ⊗ lit 5 1) (halved s) (suc squares) in
      if lit 5 1 ≺ norm then rest else some (s, squares)

  -- `n` more terms of the series, from the one of number `k`: `term` is the last power, `factorial` its
  -- divisor and `sum` what is summed.
  series : ℕ → ℕ → Matrix D → Matrix D → D → Matrix D → Matrix D
  series zero k s term factorial sum = sum
  series (suc n) k s term factorial sum =
      let power = product term s in
      let divisor = factorial ⊗ f.of_ℤ (pos k) in
      series n (k + 1) s power divisor (record {
        m00 = sum.m00 ⊕ (power.m00 ⊘ divisor);
        m01 = sum.m01 ⊕ (power.m01 ⊘ divisor);
        m10 = sum.m10 ⊕ (power.m10 ⊘ divisor);
        m11 = sum.m11 ⊕ (power.m11 ⊘ divisor);
      })

  square : ℕ → Matrix D → Matrix D
  square zero e = e
  square (suc n) e = square n (product e e)

  abbrev identity : Matrix D
  identity = record { m00 = lit 1 0; m01 = lit 0 0; m10 = lit 0 0; m11 = lit 1 0 }

  -- `expm2x2`
  unfoldable pub exponential : Matrix D → Option (Matrix D)
  unfolding product series square
  exponential a =
      let norm = f.abs a.m00 ⊕ f.abs a.m01 ⊕ f.abs a.m10 ⊕ f.abs a.m11 in
      and_then (scale scale_fuel norm a 0)
        (λ r. some (square r.1 (series 12 1 r.0 identity (lit 1 0) identity)))

  -- The filter after a time, from `b1`, its matrix and the matrix's exponential; whether its values are finite.
  unfoldable pub advance_filter :
      PoseVelocityFilter D → D → D → Matrix D → Matrix D → PoseVelocityFilter D × Bool
  advance_filter filter input b1 a ad =
      let det = (a.m00 ⊗ a.m11) ⊖ (a.m01 ⊗ a.m10) in
      let inv00 = a.m11 ⊘ det in
      let inv01 = f.neg a.m01 ⊘ det in
      let inv10 = f.neg a.m10 ⊘ det in
      let inv11 = a.m00 ⊘ det in
      let d00 = ad.m00 ⊖ lit 1 0 in
      let d01 = ad.m01 in
      let d10 = ad.m10 in
      let d11 = ad.m11 ⊖ lit 1 0 in
      let ia00 = (inv00 ⊗ d00) ⊕ (inv01 ⊗ d10) in
      let ia01 = (inv00 ⊗ d01) ⊕ (inv01 ⊗ d11) in
      let ia10 = (inv10 ⊗ d00) ⊕ (inv11 ⊗ d10) in
      let ia11 = (inv10 ⊗ d01) ⊕ (inv11 ⊗ d11) in
      let b0 = lit 0 0 in
      let bd0 = (ia00 ⊗ b0) ⊕ (ia01 ⊗ b1) in
      let bd1 = (ia10 ⊗ b0) ⊕ (ia11 ⊗ b1) in
      let x1 = (ad.m00 ⊗ filter.x1) ⊕ (ad.m01 ⊗ filter.x2) ⊕ (bd0 ⊗ input) in
      let x2 = (ad.m10 ⊗ filter.x1) ⊕ (ad.m11 ⊗ filter.x2) ⊕ (bd1 ⊗ input) in
      if f.abs det ≼ lit 1 18
      then (filter, false)
      else if not (f.isfinite x1) || not (f.isfinite x2)
      then (filter, false)
      else (record filter { x1 = x1; x2 = x2 }, true)

  unfoldable pub update_pose_velocity_filter :
      PoseVelocityFilter D → D → D → ControllerConfig D → Option (PoseVelocityFilter D × Bool)
  update_pose_velocity_filter filter input dt c =
      let wn = c.filter_wn in
      let zeta = c.filter_zeta in
      let a : Matrix D = record {
        m00 = lit 0 0;
        m01 = lit 1 0;
        m10 = f.neg wn ⊗ wn;
        m11 = (f.neg (lit 2 0) ⊗ zeta) ⊗ wn;
      } in
      let a_dt : Matrix D = record {
        m00 = a.m00 ⊗ dt;
        m01 = a.m01 ⊗ dt;
        m10 = a.m10 ⊗ dt;
        m11 = a.m11 ⊗ dt;
      } in
      if not (f.isfinite input)
        || not (f.isfinite dt)
        || not (f.isfinite wn)
        || not (f.isfinite zeta)
        || (wn ≼ lit 0 0)
        || (zeta ≼ lit 0 0)
        || (dt ≼ c.velocity_dt_min)
        || (c.velocity_dt_max ≺ dt)
      then some (filter, false)
      else if not filter.initialized
      then some (new_filter input true, false)
      else and_then (exponential a_dt) (λ ad. some (advance_filter filter input (wn ⊗ wn) a ad))

  -- The first pose of an estimator.
  abbrev begin_estimator : D → D → D → D → PoseVelocityEstimator D
  begin_estimator stamp x y yaw = record {
    axis_x = new_filter x true;
    axis_y = new_filter y true;
    axis_yaw = new_filter yaw true;
    last_stamp = stamp;
    last_yaw = yaw;
    have_pose = true;
    velocity_valid = false;
    vx = lit 0 0;
    vy = lit 0 0;
    yaw_rate = lit 0 0;
  }

  -- The estimator after its three filters.
  unfoldable pub estimated :
      PoseVelocityFilter D × Bool
      → PoseVelocityFilter D × Bool
      → PoseVelocityFilter D × Bool
      → PoseVelocityEstimator D
      → PoseVelocityEstimator D
  estimated x y yaw e =
      let filtered = record e { axis_x = x.0; axis_y = y.0; axis_yaw = yaw.0 } in
      if not x.1 || not y.1 || not yaw.1
      then record filtered { velocity_valid = false }
      else record filtered {
        vx = x.0.x2;
        vy = y.0.x2;
        yaw_rate = yaw.0.x2;
        velocity_valid = f.isfinite x.0.x2 && f.isfinite y.0.x2 && f.isfinite yaw.0.x2;
      }

  -- `updatePoseVelocityEstimator`; its result is `velocity_valid`.
  unfoldable pub update_pose_velocity_estimator :
      ⦃angle : AngleMath D⦄
      → PoseVelocityEstimator D
      → D
      → D
      → D
      → D
      → ControllerConfig D
      → Option (PoseVelocityEstimator D)
  update_pose_velocity_estimator ⦃angle⦄ e stamp x y yaw c =
      let dt = stamp ⊖ e.last_stamp in
      let unwrapped_yaw = e.last_yaw ⊕ angle.normalize_angle (yaw ⊖ e.last_yaw) in
      if not (f.isfinite stamp) || not (f.isfinite x) || not (f.isfinite y) || not (f.isfinite yaw)
      then some (record e { velocity_valid = false })
      else if not e.have_pose
      then some (begin_estimator stamp x y yaw)
      else and_then (update_pose_velocity_filter e.axis_x x dt c) (λ fx.
        and_then (update_pose_velocity_filter e.axis_y y dt c) (λ fy.
          and_then (update_pose_velocity_filter e.axis_yaw unwrapped_yaw dt c) (λ fyaw.
            some
              (estimated fx fy fyaw (record e { last_stamp = stamp; last_yaw = unwrapped_yaw })))))
