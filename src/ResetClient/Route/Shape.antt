-- ===== src/ResetClient/Route/Shape.antt =====
-- reset_route.h: the vertices of a route, and how long its vectors are.
use xgc2_ugv_controller.Base.{
  ◌+◌, ◌-◌, ◌≤◌, ◌≡◌, refl, List, [], ◌∷◌, ◌++◌, ℤ, length, length-append, length-map, arith,
}
use xgc2_ugv_controller.Floating.{Double, ◌⊕◌, lit}
use xgc2_ugv_controller.ResetClient.Protocol.{Pose, Point}
use xgc2_ugv_controller.ResetClient.Route.{
  Route, make_route, arc_lengths, segment_headings, segments, choose_heading, distance, centre,
}

module _ {D : Type 0} ⦃f : Double D⦄ where
  pub record IsWellFormed (r : Route D) : Type 0 where
    pub vertices_two : 2 ≤ length r.vertices
    pub cumulative_length : length r.cumulative ≡ length r.vertices
    pub headings_length : length r.headings ≡ segments r
    pub directions_length : length r.directions ≡ segments r

  length-arc_lengths :
      (back : D) (ps : List (Point D)) → length (arc_lengths back ps) ≡ length ps - 1
  unfolding arc_lengths
  length-arc_lengths back [] = omega arith
  length-arc_lengths back (a ∷ []) = omega arith
  length-arc_lengths back (a ∷ b ∷ rest) =
      omega (arith, length-arc_lengths (back ⊕ distance a b) (b ∷ rest))

  length-segment_headings :
      (previous : D) (ps : List (Point D)) → length (segment_headings previous ps) ≡ length ps - 1
  unfolding segment_headings
  length-segment_headings previous [] = omega arith
  length-segment_headings previous (a ∷ []) = omega arith
  length-segment_headings previous (a ∷ b ∷ rest) =
      omega (arith, length-segment_headings (choose_heading previous a b).0 (b ∷ rest))

  -- A constructed route has as vertices the rotation centre of its start, the via points in their order and
  -- the rotation centre of its goal, one arc length for each vertex, and
  -- one heading and one direction for each of its via + 1 segments.
  pub make_route-IsWellFormed :
      (start : Pose D) (via : List (Point D)) (goal : Pose D) (ell : D)
      → IsWellFormed (make_route start via goal ell)
        × (segments (make_route start via goal ell) ≡ length via + 1)
        × ((make_route start via goal ell).vertices
            ≡ centre ell start ∷ (via ++ centre ell goal ∷ []))
  unfolding make_route
  make_route-IsWellFormed start via goal ell =
      let vertices = centre ell start ∷ (via ++ centre ell goal ∷ []) in
      let chosen = segment_headings start.yaw vertices in
      let shaped : IsWellFormed (make_route start via goal ell)
          × (segments (make_route start via goal ell) ≡ length via + 1) =
        ground (
          arith,
          length-append via (centre ell goal ∷ []),
          length-arc_lengths (lit 0 0) vertices,
          length-segment_headings start.yaw vertices,
          length-map (λ (c : D × ℤ). c.0) chosen,
          length-map (λ (c : D × ℤ). c.1) chosen,
        ) in
      (shaped.0, shaped.1, refl)
