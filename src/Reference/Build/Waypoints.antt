-- ===== src/Reference/Build/Waypoints.antt =====
-- `buildWaypointProblem`: which requests it takes.
use xgc2_ugv_controller.Base.{
  ℕ, ◌+◌, ◌≤◌, ◌≡◌, refl, ap, suc, true, not, ◌&&◌, ◌||◌, List, [], ◌∷◌, length, Option, none, some,
  ltb, ◌==◌, ◌⊎◌, arith, if_cases,
}
use xgc2_ugv_controller.Floating.{Double}
use xgc2_ugv_controller.Reference.Types.{
  MessagePose, WaypointProblem, WaypointReferenceRequest, TrajectoryMath, or_32,
}
use xgc2_ugv_controller.Reference.Build.{constraints_after, build_waypoint, is_empty}

module _ {D : Type 0} ⦃f : Double D⦄ where
  length-constraints_after :
      (poses : List (MessagePose D)) (previous : Option D)
      → length (constraints_after previous poses) ≡ length poses
  unfolding constraints_after
  length-constraints_after [] previous = refl
  length-constraints_after (p ∷ rest) previous = ap suc (length-constraints_after rest _)

  -- As many segment times as there are segments, or none.
  pub record IsTimed (msg : WaypointReferenceRequest D) : Type 0 where
    pub enough : 2 ≤ length msg.waypoints
    pub timed :
        (is_empty msg.segment_times ≡ true) ⊎ (length msg.segment_times + 1 ≡ length msg.waypoints)

  -- What becomes of a request: a problem, or a refusal with the flag of an invalid input.
  pub data Taken (invalid_input : ℕ) (msg : WaypointReferenceRequest D)
      : Option (WaypointProblem D) × ℕ → Type 0 where
    refuses : (IsTimed msg → ⊥) → Taken invalid_input msg (none, or_32 msg.flags invalid_input)
    takes :
        (p : WaypointProblem D)
        → IsTimed msg
        → length p.constraints ≡ length msg.waypoints
        → p.segment_times ≡ msg.segment_times
        → Taken invalid_input msg (some p, msg.flags)

  module _ {E L : Type 0} (math : TrajectoryMath D E L) where
    -- A waypoint request is taken just when it has at least two waypoints and, if it has segment times, one
    -- for each segment; the problem then has a constraint for each waypoint and the request's segment times.
    -- Any other request is refused with the flag of an invalid input.
    pub build_waypoint-Taken :
        (dt : D) (msg : WaypointReferenceRequest D)
        → Taken math.invalid_input msg (build_waypoint math dt msg)
    unfolding build_waypoint
    build_waypoint-Taken dt msg =
        let n = length-constraints_after msg.waypoints none in
        if_cases (Taken math.invalid_input msg)
          (ltb (length (constraints_after none msg.waypoints)) 2
            || (not (is_empty msg.segment_times)
                && not (
                    length msg.segment_times + 1 == length (constraints_after none msg.waypoints))))
          (λ bad. refuses (λ t. ground (arith, bad, n, t.enough, t.timed)))
          (λ good.
            takes _ (record { enough = ground (arith, good, n); timed = ground (arith, good, n) }) n
              refl)
