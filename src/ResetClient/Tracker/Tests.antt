-- ===== src/ResetClient/Tracker/Tests.antt =====
-- A route with one via point on concrete numbers, and each theorem on routes and trackers at it.
use xgc2_ugv_controller.Base.{
  ℕ, ◌*◌, ◌+◌, ◌^◌, ◌≡◌, ◌≤◌, ◌<◌, false, ℤ, pos, List, [], ◌∷◌, ◌++◌, length, arith,
}
use xgc2_ugv_controller.Floating.Fixed.{fixed_double}
use xgc2_ugv_controller.ResetClient.Protocol.{Pose, Point, default_pose, default_spec}
use xgc2_ugv_controller.ResetClient.Route.{Route, centre, make_route, segments}
use xgc2_ugv_controller.ResetClient.Route.Shape.{IsWellFormed, make_route-IsWellFormed}
use xgc2_ugv_controller.ResetClient.Tracker.{
  RouteTracker, start_route, new_tracker, advance, moves_on,
}
use xgc2_ugv_controller.ResetClient.Tracker.Step.{step_tracker}
use xgc2_ugv_controller.ResetClient.Tracker.Segment.{
  OnRoute, step_tracker-OnRoute, start_route-OnRoute, advance_lem,
}

abbrev metres : ℕ → ℤ
metres n = pos (n * 10 ^ 9)

abbrev corner : List (Point ℤ)
corner = record { x = metres 2; y = metres 0 } ∷ []

abbrev goal : Pose ℤ
goal = record { x = metres 2; y = metres 2; yaw = metres 0 }

abbrev around : Route ℤ
around = make_route default_pose corner goal (metres 0)

abbrev started : RouteTracker ℤ
started = start_route around default_spec new_tracker

make_route-IsWellFormed_example :
    IsWellFormed around
    × (segments around ≡ length corner + 1)
    × (around.vertices ≡ centre (metres 0) default_pose ∷ (corner ++ centre (metres 0) goal ∷ []))
make_route-IsWellFormed_example = make_route-IsWellFormed default_pose corner goal (metres 0)

start_route-OnRoute_example : OnRoute started
start_route-OnRoute_example =
    start_route-OnRoute default_pose goal corner (metres 0) default_spec new_tracker

step_tracker-OnRoute_example :
    let u = (step_tracker started default_pose (metres 0) (metres 0) (pos (10 ^ 7)) (metres 4)).0 in
    OnRoute u × (u.route ≡ started.route) × (started.segment ≤ u.segment)
step_tracker-OnRoute_example =
    step_tracker-OnRoute started default_pose (metres 0) (metres 0) (pos (10 ^ 7)) (metres 4)
      start_route-OnRoute_example

abbrev here : Point ℤ
here = record { x = metres 2; y = metres 0 }

advance_lem_example :
    (advance around (metres 0) here 2 0 < segments around)
    × (0 ≤ advance around (metres 0) here 2 0)
    × (moves_on around (metres 0) here (advance around (metres 0) here 2 0) ≡ false)
advance_lem_example =
    advance_lem around (metres 0) here 2 0 (omega (arith, make_route-IsWellFormed_example.1))
      (omega (arith, make_route-IsWellFormed_example.1))
