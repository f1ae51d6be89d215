-- ===== src/ResetClient/Route.antt =====
-- ugv_reset_client/include/ugv_reset_client/reset_route.h: what a granted route means.
-- Reading a vector past its end is undefined in the source; the model then reads a default.
pub mod Shape
pub mod Sampling
use xgc2_ugv_controller.Base.{
  ℕ, ◌-◌, List, [], ◌∷◌, ◌++◌, map, ℤ, pos, negsuc, ltb, length, get_or, last_or, if◌then◌else◌,
}
use xgc2_ugv_controller.Floating.{Double, lit, ◌⊕◌, ◌⊖◌, ◌⊗◌, ◌≺◌, ◌≼◌}
use xgc2_ugv_controller.ResetClient.Protocol.{Pose, Point, pi, wrap_angle, default_pose}

pub record Route (D : Type 0) : Type 0 where
  pub start : Pose D
  pub goal : Pose D
  pub ell : D
  -- start, via..., goal, for the rotation centre
  pub vertices : List (Point D)
  -- the arc length at each vertex
  pub cumulative : List D
  pub headings : List D
  -- +1 forward, -1 in reverse
  pub directions : List ℤ

module _ {D : Type 0} ⦃f : Double D⦄ where
  unfoldable pub distance : Point D → Point D → D
  distance a b = f.hypot (b.x ⊖ a.x) (b.y ⊖ a.y)

  pub centre : D → Pose D → Point D
  centre ell p = record { x = p.x ⊕ ell ⊗ f.cos p.yaw; y = p.y ⊕ ell ⊗ f.sin p.yaw }

  -- The first loop of the constructor: `cumulative_.back() + distance` for each segment.
  arc_lengths : D → List (Point D) → List D
  arc_lengths back [] = []
  arc_lengths back (a ∷ []) = []
  arc_lengths back (a ∷ b ∷ rest) =
      let next = back ⊕ distance a b in next ∷ arc_lengths next (b ∷ rest)

  -- The body of the second loop: heading and direction by the smaller rotation.
  choose_heading : D → Point D → Point D → D × ℤ
  choose_heading previous a b =
      let dx = b.x ⊖ a.x in
      let dy = b.y ⊖ a.y in
      let bearing = f.atan2 dy dx in
      let reverse = wrap_angle (bearing ⊕ pi) in
      let forward =
        f.abs (wrap_angle (bearing ⊖ previous)) ≼ f.abs (wrap_angle (reverse ⊖ previous)) in
      if f.hypot dx dy ≺ lit 1 9
      then (previous, pos 1)
      else if forward
      then (bearing, pos 1)
      else (reverse, negsuc 0)

  segment_headings : D → List (Point D) → List (D × ℤ)
  unfolding choose_heading
  segment_headings previous [] = []
  segment_headings previous (a ∷ []) = []
  segment_headings previous (a ∷ b ∷ rest) =
      let chosen = choose_heading previous a b in chosen ∷ segment_headings chosen.0 (b ∷ rest)

  unfoldable pub make_route : Pose D → List (Point D) → Pose D → D → Route D
  unfolding centre arc_lengths segment_headings
  make_route start via goal ell =
      let vertices = centre ell start ∷ (via ++ centre ell goal ∷ []) in
      let chosen = segment_headings start.yaw vertices in
      record {
        start = start;
        goal = goal;
        ell = ell;
        vertices = vertices;
        cumulative = lit 0 0 ∷ arc_lengths (lit 0 0) vertices;
        headings = map (λ c. c.0) chosen;
        directions = map (λ c. c.1) chosen;
      }

  -- `Route()`: no vertex.
  abbrev pub empty_route : Route D
  empty_route = record {
    start = default_pose;
    goal = default_pose;
    ell = lit 0 0;
    vertices = [];
    cumulative = [];
    headings = [];
    directions = [];
  }

  abbrev pub route_length : Route D → D
  route_length r = last_or r.cumulative (lit 0 0)

  abbrev pub segments : Route D → ℕ
  segments r = if ltb (length r.vertices) 2 then 0 else length r.vertices - 1

  abbrev pub default_point : Point D
  default_point = record { x = lit 0 0; y = lit 0 0 }

  -- `heading(segment)` and `direction(segment)`
  abbrev pub heading : Route D → ℕ → D
  heading r j = get_or r.headings j (lit 0 0)

  abbrev pub direction : Route D → ℕ → ℤ
  direction r j = get_or r.directions j (pos 0)
