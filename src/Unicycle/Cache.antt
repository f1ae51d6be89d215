-- ===== src/Unicycle/Cache.antt =====
-- unicycle_ugv_controller/src/reference_cache.cpp: the reference that an NMPC solve samples. The messages are
-- those of the reference runtime, of which the controller has copies without a header; its readers call one
-- at a time, as its mutex makes them.
pub mod Horizon
use xgc2_ugv_controller.Base.{
  ℕ, zero, suc, ◌+◌, ◌*◌, Bool, true, false, not, ◌&&◌, ◌||◌, List, [], ◌∷◌, length, get_or, ltb,
  ◌==◌, Option, none, some, pos, if◌then◌else◌, and_then,
}
use xgc2_ugv_controller.Floating.{Double, lit, ◌⊕◌, ◌⊖◌, ◌⊗◌, ◌≺◌, ◌≼◌, dmax}
use xgc2_ugv_controller.Clock.Time.{Time, zero_time, sub_time, to_sec}
use xgc2_ugv_controller.Mecanum.Types.{AngleMath, yaw_from_quaternion}
use xgc2_ugv_controller.Reference.Types.{
  AnalyticReference, SampledReference, ActivePolynomialReference, CurveParameters,
  PolynomialSegment, Planar, TrajectoryMath, or_32, and_32,
}
use xgc2_ugv_controller.Reference.Build.{is_fatal}

-- xgc2_math: a sample of a trajectory, `PlanarReference2`, and what the solver takes, `Se2Reference`.
pub record PlanarReference (D : Type 0) : Type 0 where
  pub position : Planar D
  pub velocity : Planar D
  pub yaw : D
  pub linear_acceleration : D
  pub yaw_rate : D
  pub flags : ℕ  -- uint32_t

pub record Se2Reference (D : Type 0) : Type 0 where
  pub position : Planar D
  pub yaw : D
  pub linear_speed : D
  pub linear_acceleration : D
  pub yaw_rate : D
  pub flags : ℕ  -- uint32_t

-- The evaluators of xgc2_math/trajectory.hpp beside those of the runtime; a call that fails is `none`.
pub record EvaluatorMath (D E L : Type 0) : Type 0 where
  -- `TrajectoryLimits2{}`
  pub no_limits : L
  pub set_segments : List (PolynomialSegment D) → ℕ → Option E
  pub evaluate : E → D → Option (PlanarReference D)

pub record ReferenceCache (E : Type 0) : Type 0 where
  pub evaluator : Option E
  pub start_time : Time
  pub trajectory_id : ℕ  -- uint32_t
  pub revision : ℕ  -- uint32_t
  pub flags : ℕ  -- uint32_t

abbrev pub empty_cache : {E : Type 0} → ReferenceCache E
empty_cache = record {
  evaluator = none;
  start_time = zero_time;
  trajectory_id = 0;
  revision = 0;
  flags = 0;
}

-- The part of a vector that `assign` copies; past the end it has no more.
segment_of {ℓ} : {A : Type ℓ} → ℕ → ℕ → List A → List A
segment_of zero zero xs = []
segment_of zero (suc count) [] = []
segment_of zero (suc count) (x ∷ xs) = x ∷ segment_of zero count xs
segment_of (suc offset) count [] = []
segment_of (suc offset) count (x ∷ xs) = segment_of offset count xs

-- The polynomials of the segments, `count` coefficients each, from the segment of number `i`.
module _ {D : Type 0} where
  unfoldable pub segments_from :
      ℕ → ℕ → List D → ActivePolynomialReference D → List (PolynomialSegment D)
  unfolding segment_of
  segments_from i count [] msg = []
  segments_from i count (d ∷ durations) msg =
      record {
        duration = d;
        x = segment_of (i * count) count msg.coeff_x;
        y = segment_of (i * count) count msg.coeff_y;
        yaw = segment_of (i * count) count msg.coeff_yaw;
      }
      ∷ segments_from (i + 1) count durations msg

  -- Whether the message has a coefficient for each power in each segment.
  abbrev pub has_coefficients : ActivePolynomialReference D → Bool
  has_coefficients msg =
      let expected = (msg.order + 1) * length msg.segment_durations in
      not (length msg.segment_durations == 0)
      && (length msg.coeff_x == expected)
      && (length msg.coeff_y == expected)
      && ((length msg.coeff_yaw == 0) || (length msg.coeff_yaw == expected))

module _ {D E L : Type 0} ⦃f : Double D⦄ (math : TrajectoryMath D E L)
    (more : EvaluatorMath D E L) where
  -- The flags after the validation, and the evaluator, where they are not fatal.
  abbrev pub accepted : E → ℕ → Option (E × ℕ)
  accepted e flags =
      let checked = or_32 flags (math.validate e more.no_limits (lit 2 2)) in
      if is_fatal math checked then none else some (e, checked)

  abbrev built : ℕ → Option E → Option (E × ℕ)
  built flags none = none
  built flags (some e) = accepted e flags

  -- `paramAt`
  abbrev param : List D → ℕ → D → D
  param params index fallback =
      if ltb index (length params) && f.isfinite (get_or params index fallback)
      then get_or params index fallback
      else fallback

  analytic_evaluator : ⦃angle : AngleMath D⦄ → AnalyticReference D → E
  analytic_evaluator msg =
      let duration = if lit 0 0 ≺ msg.duration then msg.duration else lit 60 0 in
      let origin : Planar D = record { x = msg.origin.position.x; y = msg.origin.position.y } in
      let q = msg.origin.orientation in
      let origin_yaw = yaw_from_quaternion q.x q.y q.z q.w in
      let entry_duration = param msg.params 2 (lit 3 0) in
      let curve : D → CurveParameters D = λ d. record {
        flags = msg.flags;
        duration = d;
        center = record { x = param msg.params 3 (lit 0 0); y = param msg.params 4 (lit 0 0) };
        radius = param msg.params 0 (lit 3 0);
        line_speed = param msg.params 1 (lit 1 0);
      } in
      if msg.analytic_type == 0
      then math.hold
          (record { flags = msg.flags; duration = duration; position = origin; yaw = origin_yaw })
      else if msg.analytic_type == 1
      then math.circle (curve duration)
      else if msg.analytic_type == 4
      then math.figure_eight (curve duration)
      else math.circle_entry (record {
        flags = msg.flags;
        duration = duration;
        origin = origin;
        origin_yaw = origin_yaw;
        entry_duration = entry_duration;
        circle = curve (dmax (lit 0 0) (duration ⊖ dmax (lit 0 0) entry_duration));
      })

  -- `buildAnalytic`, `fillPolynomial` and `fillSampled`: the evaluator and the flags of a message.
  unfoldable pub build_analytic : ⦃angle : AngleMath D⦄ → AnalyticReference D → Option (E × ℕ)
  unfolding analytic_evaluator
  build_analytic msg = accepted (analytic_evaluator msg) msg.flags

  unfoldable pub fill_polynomial : ActivePolynomialReference D → Option (E × ℕ)
  fill_polynomial msg =
      if not (has_coefficients msg)
      then none
      else built msg.flags
          (more.set_segments (segments_from 0 (msg.order + 1) msg.segment_durations msg) msg.order)

  unfoldable pub fill_sampled : SampledReference D → Option (E × ℕ)
  fill_sampled msg =
      built msg.flags (math.set_samples msg.points (not (and_32 msg.flags 32768 == 0)))

  -- A message that is not taken leaves the cache.
  unfoldable pub store : Time → ℕ → ℕ → Option (E × ℕ) → ReferenceCache E → ReferenceCache E × Bool
  store start_time trajectory_id revision none c = (c, false)
  store start_time trajectory_id revision (some (e, flags)) c = (
    record {
      evaluator = some e;
      start_time = start_time;
      trajectory_id = trajectory_id;
      revision = revision;
      flags = flags;
    },
    true,
  )

  unfoldable pub update_analytic :
      ⦃angle : AngleMath D⦄ → AnalyticReference D → ReferenceCache E → ReferenceCache E × Bool
  update_analytic msg = store msg.start_time msg.trajectory_id msg.revision (build_analytic msg)

  unfoldable pub update_polynomial :
      ActivePolynomialReference D → ReferenceCache E → ReferenceCache E × Bool
  update_polynomial msg = store msg.start_time msg.trajectory_id msg.revision (fill_polynomial msg)

  unfoldable pub update_sampled : SampledReference D → ReferenceCache E → ReferenceCache E × Bool
  update_sampled msg = store msg.start_time msg.trajectory_id msg.revision (fill_sampled msg)

  -- `activeLocked`, with the evaluator that it finds
  abbrev pub active_evaluator : ReferenceCache E → Option E
  active_evaluator c = and_then c.evaluator (λ e. if is_fatal math c.flags then none else some e)

  unfoldable pub valid : ReferenceCache E → Bool
  valid c = elim (active_evaluator c) [ none ↦ false | some _ ↦ true ]

  -- A vehicle that drives in reverse keeps a negative speed.
  unfoldable pub to_sample : PlanarReference D → Se2Reference D
  to_sample r = record {
    position = r.position;
    yaw = r.yaw;
    linear_speed = (r.velocity.x ⊗ f.cos r.yaw) ⊕ (r.velocity.y ⊗ f.sin r.yaw);
    linear_acceleration = r.linear_acceleration;
    yaw_rate = r.yaw_rate;
    flags = r.flags;
  }

module _ {D : Type 0} ⦃f : Double D⦄ ⦃angle : AngleMath D⦄ where
  -- A yaw that is not finite is left, and is not what the next one follows.
  abbrev pub follow_yaw : Option D → Se2Reference D → Se2Reference D
  follow_yaw none s = s
  follow_yaw (some previous) s =
      if f.isfinite s.yaw
      then record s { yaw = previous ⊕ angle.normalize_angle (s.yaw ⊖ previous) }
      else s

  abbrev pub last_yaw : Option D → Se2Reference D → Option D
  last_yaw previous raw =
      if f.isfinite raw.yaw then some (follow_yaw previous raw).yaw else previous

  module _ {E L : Type 0} (math : TrajectoryMath D E L) (more : EvaluatorMath D E L) where
    -- `n` references from the one of number `i`; none where the evaluator fails.
    unfoldable pub samples_from : ℕ → ℕ → E → D → D → Option D → Option (List (Se2Reference D))
    samples_from zero i e base_t stage_dt previous = some []
    samples_from (suc n) i e base_t stage_dt previous =
        and_then (more.evaluate e (base_t ⊕ (f.of_ℤ (pos i) ⊗ stage_dt))) (λ r.
          let raw = to_sample math more r in
          and_then (samples_from n (i + 1) e base_t stage_dt (last_yaw previous raw))
            (λ rest. some (follow_yaw previous raw ∷ rest)))

    -- `none` is the exception of the difference of the times; the inner `none` is the result false.
    -- The number of steps is positive in the source.
    unfoldable pub sample_horizon :
        Time → D → ℕ → ReferenceCache E → Option (Option (List (Se2Reference D)))
    sample_horizon now stage_dt horizon_steps c =
        let sampled = λ (e : E). and_then (sub_time now c.start_time) (λ elapsed.
          some (
            samples_from (suc horizon_steps) 0 e (dmax (lit 0 0) (to_sec elapsed)) stage_dt
              none)) in
        if (horizon_steps == 0) || not (f.isfinite stage_dt) || (stage_dt ≼ lit 0 0)
        then some none
        else elim (active_evaluator math more c) [ none ↦ some none | some e ↦ sampled e ]
