-- ===== src/Reference/Build.antt =====
-- unicycle_reference_trajectory/src/unicycle_reference_trajectory_runtime.cpp: evaluators and problems from
-- messages (`buildAnalyticEvaluator`, `buildSampledEvaluator`, `buildWaypointProblem`).
pub mod Waypoints
use xgc2_ugv_controller.Base.{
  ℕ, ◌+◌, Bool, true, false, not, ◌&&◌, ◌||◌, List, [], ◌∷◌, length, get_or, Option, none, some,
  ltb, ◌==◌, if◌then◌else◌,
}
use xgc2_ugv_controller.Floating.{Double, lit, ◌⊕◌, ◌⊖◌, ◌⊗◌, ◌≺◌, ◌≼◌, dmax}
use xgc2_ugv_controller.Reference.Types.{
  Vector, Quaternion, MessagePose, AnalyticReference, SampledReference, WaypointReferenceRequest,
  Planar, CurveParameters, WaypointConstraint, WaypointProblem, TrajectoryMath, or_32, and_32,
}

module _ {D E L : Type 0} (math : TrajectoryMath D E L) where
  abbrev pub is_fatal : ℕ → Bool
  is_fatal flags = not (and_32 flags math.fatal == 0)

module _ {D : Type 0} ⦃f : Double D⦄ where
  abbrev finite_or : D → D → D
  finite_or value fallback = if f.isfinite value then value else fallback

  abbrev planar : Vector D → Planar D
  planar v = record { x = v.x; y = v.y }

  pub yaw_of : Quaternion D → D
  yaw_of q =
      finite_or
        (f.atan2 (lit 2 0 ⊗ ((q.w ⊗ q.z) ⊕ (q.x ⊗ q.y)))
          (lit 1 0 ⊖ (lit 2 0 ⊗ ((q.y ⊗ q.y) ⊕ (q.z ⊗ q.z)))))
        (lit 0 0)

  unwrap_yaw : D → D → D
  unwrap_yaw yaw previous = previous ⊕ f.atan2 (f.sin (yaw ⊖ previous)) (f.cos (yaw ⊖ previous))

  unfoldable pub adjusted_start_time : D → D → D → D
  adjusted_start_time requested now min_lead_time =
      let minimum = now ⊕ dmax (lit 0 0) min_lead_time in
      if not (f.isfinite requested) || (requested ≼ lit 0 0)
      then minimum
      else dmax requested minimum

  -- A parameter that is missing or not finite has its default.
  param_at : List D → ℕ → D → D
  param_at params index fallback =
      if ltb index (length params) && f.isfinite (get_or params index fallback)
      then get_or params index fallback
      else fallback

  -- The yaws of the constraints are unwrapped, each after the one before.
  unfoldable pub constraints_after : Option D → List (MessagePose D) → List (WaypointConstraint D)
  unfolding yaw_of unwrap_yaw
  constraints_after previous [] = []
  constraints_after previous (p ∷ rest) =
      let yaw = after previous (yaw_of p.orientation) in
      record { position = planar p.position; yaw = yaw } ∷ constraints_after (some yaw) rest
    where
      after : Option D → D → D
      after none yaw = yaw
      after (some previous) yaw = unwrap_yaw yaw previous

  abbrev pub is_empty : List D → Bool
  is_empty [] = true
  is_empty _ = false

  module _ {E L : Type 0} (math : TrajectoryMath D E L) where
    -- The evaluator that is validated, and its flags; none where they are fatal.
    unfoldable pub validated : E → L → D → ℕ → Option E × ℕ
    validated e limits dt flags =
        let checked = or_32 flags (math.validate e limits dt) in
        (if is_fatal math checked then none else some e, checked)

    analytic_evaluator : AnalyticReference D → E
    unfolding param_at yaw_of
    analytic_evaluator msg =
        let duration = if lit 0 0 ≺ msg.duration then msg.duration else lit 60 0 in
        let entry_duration = param_at msg.params 2 (lit 3 0) in
        let curve : D → CurveParameters D = λ d. record {
          flags = msg.flags;
          duration = d;
          center = record {
            x = param_at msg.params 3 (lit 0 0);
            y = param_at msg.params 4 (lit 0 0);
          };
          radius = param_at msg.params 0 (lit 3 0);
          line_speed = param_at msg.params 1 (lit 1 0);
        } in
        if msg.analytic_type == 0
        then math.hold (record {
          flags = msg.flags;
          duration = duration;
          position = planar msg.origin.position;
          yaw = yaw_of msg.origin.orientation;
        })
        else if msg.analytic_type == 1
        then math.circle (curve duration)
        else if msg.analytic_type == 4
        then math.figure_eight (curve duration)
        else math.circle_entry (record {
          flags = msg.flags;
          duration = duration;
          origin = planar msg.origin.position;
          origin_yaw = yaw_of msg.origin.orientation;
          entry_duration = entry_duration;
          circle = curve (dmax (lit 0 0) (duration ⊖ dmax (lit 0 0) entry_duration));
        })

    unfoldable pub build_analytic : L → D → AnalyticReference D → Option E × ℕ
    unfolding analytic_evaluator
    build_analytic limits dt msg = validated (analytic_evaluator msg) limits dt msg.flags

    abbrev pub sampled_result : L → D → ℕ → Option E → Option E × ℕ
    sampled_result limits dt flags none = (none, or_32 flags math.invalid_input)
    sampled_result limits dt flags (some e) = validated e limits dt flags

    -- The samples are the fields of the points, under the library's names.
    unfoldable pub build_sampled : L → D → SampledReference D → Option E × ℕ
    build_sampled limits dt msg =
        sampled_result limits dt msg.flags
          (math.set_samples msg.points (not (and_32 msg.flags 32768 == 0)))

    unfoldable pub build_waypoint : D → WaypointReferenceRequest D → Option (WaypointProblem D) × ℕ
    unfolding constraints_after
    build_waypoint dt msg =
        let constraints = constraints_after none msg.waypoints in
        let problem : WaypointProblem D = record {
          flags = msg.flags;
          segment_times = msg.segment_times;
          start_velocity = planar msg.start_velocity;
          start_acceleration = planar msg.start_acceleration;
          end_velocity = planar msg.end_velocity;
          end_acceleration = planar msg.end_acceleration;
          desired_speed = if lit 0 0 ≺ msg.desired_speed then msg.desired_speed else lit 1 0;
          max_velocity = msg.max_velocity;
          max_acceleration =
              if lit 0 0 ≺ msg.max_linear_acceleration
              then msg.max_linear_acceleration
              else msg.max_acceleration;
          max_yaw_rate = msg.max_yaw_rate;
          validation_sample_dt = dt;
          constraints = constraints;
        } in
        if ltb (length constraints) 2
          || (not (is_empty msg.segment_times)
              && not (length msg.segment_times + 1 == length constraints))
        then (none, or_32 msg.flags math.invalid_input)
        else (some problem, msg.flags)
