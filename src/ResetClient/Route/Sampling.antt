-- ===== src/ResetClient/Route/Sampling.antt =====
-- `Route::sample` of reset_route.h: the poses of the swept route, turns in place included.
use xgc2_ugv_controller.Base.{
  ℕ, zero, suc, ◌+◌, max, Bool, List, [], ◌∷◌, ◌++◌, ℤ, pos, negsuc, last_or, if◌then◌else◌,
}
use xgc2_ugv_controller.Floating.{Double, lit, ◌⊕◌, ◌⊖◌, ◌⊗◌, ◌⊘◌, ◌≺◌}
use xgc2_ugv_controller.ResetClient.Protocol.{Pose, Point, wrap_angle}
use xgc2_ugv_controller.ResetClient.Route.{Route, distance, heading}

-- One sample of the swept route.
pub record Sample (D : Type 0) : Type 0 where
  pub pose : Pose D
  pub s : D

-- `std::max(1, static_cast<int>(...))`
abbrev at_least_one : ℤ → ℕ
at_least_one (pos n) = max 1 n
at_least_one (negsuc n) = 1

module _ {D : Type 0} ⦃f : Double D⦄ where
  -- The body origin when the rotation centre is at c and the heading is yaw.
  origin : Route D → Point D → D → Pose D
  origin r c yaw = record { x = c.x ⊖ r.ell ⊗ f.cos yaw; y = c.y ⊖ r.ell ⊗ f.sin yaw; yaw = yaw }

  -- The samples of one turn in place: `left` of the n are still to come, the next is the k-th.
  turn_samples : Route D → Point D → D → D → D → ℕ → ℕ → ℕ → List (Sample D)
  unfolding origin
  turn_samples r c yaw delta s n k zero = []
  turn_samples r c yaw delta s n k (suc left) =
      record {
        pose = origin r c (wrap_angle (yaw ⊕ delta ⊗ f.of_ℤ (pos k) ⊘ f.of_ℤ (pos n)));
        s = s;
      }
      ∷ turn_samples r c yaw delta s n (k + 1) left

  turn_count : D → D → ℕ
  turn_count delta step_yaw = at_least_one (f.ceil_int (f.abs delta ⊘ step_yaw))

  -- The lambda `rotate` of `sample`, with the heading that it leaves.
  rotate : Route D → D → Point D → D → D → D → List (Sample D) × D
  unfolding turn_samples turn_count
  rotate r step_yaw c to yaw s =
      let delta = wrap_angle (to ⊖ yaw) in
      let n = turn_count delta step_yaw in
      (turn_samples r c yaw delta s n 1 n, wrap_angle (yaw ⊕ delta))

  -- The samples of one translation, and the arc length at its end.
  drive_samples : Route D → Point D → Point D → D → D → D → ℕ → ℕ → ℕ → List (Sample D) × D
  unfolding origin
  drive_samples r a b yaw length s n k zero = ([], s)
  drive_samples r a b yaw length s n k (suc left) =
      let next = s ⊕ length ⊘ f.of_ℤ (pos n) in
      let c : Point D = record {
        x = a.x ⊕ (b.x ⊖ a.x) ⊗ f.of_ℤ (pos k) ⊘ f.of_ℤ (pos n);
        y = a.y ⊕ (b.y ⊖ a.y) ⊗ f.of_ℤ (pos k) ⊘ f.of_ℤ (pos n);
      } in
      let rest = drive_samples r a b yaw length next n (k + 1) left in
      (record { pose = origin r c yaw; s = next } ∷ rest.0, rest.1)

  -- The main loop of `sample`, from segment j on: the samples, the last heading and arc length.
  segment_samples : Route D → D → D → Bool → ℕ → D → D → List (Point D) → List (Sample D) × D × D
  unfolding rotate drive_samples
  segment_samples r step step_yaw unicycle j yaw s [] = ([], yaw, s)
  segment_samples r step step_yaw unicycle j yaw s (a ∷ []) = ([], yaw, s)
  segment_samples r step step_yaw unicycle j yaw s (a ∷ b ∷ rest) =
      let length = distance a b in
      let short = length ≺ lit 1 9 in
      let turn : List (Sample D) × D =
        if short
        then ([], yaw)
        else if unicycle
        then rotate r step_yaw a (heading r j) yaw s
        else ([], yaw) in
      let n = at_least_one (f.ceil_int (length ⊘ step)) in
      let drive : List (Sample D) × D =
        if short then ([], s) else drive_samples r a b turn.1 length s n 1 n in
      let (samples, last_yaw, last_s) =
        segment_samples r step step_yaw unicycle (j + 1) turn.1 drive.1 (b ∷ rest) in
      (turn.0 ++ drive.0 ++ samples, last_yaw, last_s)

  -- The samples of a route with a first vertex.
  samples_from : Route D → D → D → Bool → Point D → List (Sample D)
  unfolding segment_samples
  samples_from r step step_yaw unicycle first =
      let yaw = r.start.yaw in
      let (samples, last_yaw, last_s) =
        segment_samples r step step_yaw unicycle 0 yaw (lit 0 0) r.vertices in
      let back = last_or r.vertices first in
      let end : List (Sample D) =
        if unicycle
        then (rotate r step_yaw back r.goal.yaw last_yaw last_s).0
        else record { pose = origin r back r.goal.yaw; s = last_s } ∷ [] in
      record { pose = origin r first yaw; s = lit 0 0 } ∷ (samples ++ end)

  abbrev sample : Route D → D → D → Bool → List (Sample D)
  unfolding samples_from
  sample r step step_yaw unicycle = elim r.vertices [
    | [] ↦ []
    | first ∷ rest ↦ samples_from r step step_yaw unicycle first
  ]
