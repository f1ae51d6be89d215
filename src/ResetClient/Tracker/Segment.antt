-- ===== src/ResetClient/Tracker/Segment.antt =====
-- reset_tracker.h, `step`: the tracker's position on the route and the loop over its segments.
use xgc2_ugv_controller.Base.{
  ℕ, zero, suc, ◌+◌, ◌≤◌, ◌<◌, ◌≡◌, refl, List, Bool, true, false, inl, inr, Bool-cases, arith, ◌∙◌,
  if◌then◌else◌,
}
use xgc2_ugv_controller.Floating.{Double, lit, ◌⊕◌, ◌⊗◌}
use xgc2_ugv_controller.ResetClient.Protocol.{Pose, Point, VehicleSpec, is_unicycle}
use xgc2_ugv_controller.ResetClient.Route.{Route, segments, make_route}
use xgc2_ugv_controller.ResetClient.Route.Shape.{IsWellFormed, make_route-IsWellFormed}
use xgc2_ugv_controller.ResetClient.Tracker.{
  RouteTracker, Command, no_command, moves_on, advance, start_route,
}
use xgc2_ugv_controller.ResetClient.Tracker.Unicycle.{Situation, step_unicycle}
use xgc2_ugv_controller.ResetClient.Tracker.Omni.{step_omni}
use xgc2_ugv_controller.ResetClient.Tracker.Step.{step_tracker, step_active, locate, situation}

module _ {D : Type 0} ⦃f : Double D⦄ where
  moves_on-lt :
      (r : Route D) (ell : D) (c : Point D) (segment : ℕ)
      → moves_on r ell c segment ≡ true
      → segment + 1 < segments r
  unfolding moves_on
  moves_on-lt r ell c segment h = ground arith

  -- From a segment of the route the loop stays on the route, never goes back, and with as much fuel
  -- as the route has segments it ends by its own test.
  pub advance_lem :
      (r : Route D) (ell : D) (c : Point D) (fuel segment : ℕ)
      → segment < segments r
      → segments r ≤ fuel + segment
      → (advance r ell c fuel segment < segments r)
        × (segment ≤ advance r ell c fuel segment)
        × (moves_on r ell c (advance r ell c fuel segment) ≡ false)
  unfolding advance
  advance_lem r ell c zero segment h enough = absurd (omega arith)
  advance_lem r ell c (suc fuel) segment h enough = elim (Bool-cases (moves_on r ell c segment)) [
    | inl go ↦
        let lt = moves_on-lt r ell c segment go in
        let rest = advance_lem r ell c fuel (segment + 1) lt (omega arith) in
        rw (go, advance) (rest.0, omega arith, rest.2)
    | inr stay ↦ rw (stay, advance) (h, omega arith, stay)
  ]

  -- What driving leaves alone.
  pub record SamePlace (t u : RouteTracker D) : Type 0 where
    pub route : u.route ≡ t.route
    pub active : u.active ≡ t.active
    pub segment : u.segment ≡ t.segment

  step_unicycle-SamePlace :
      (t : RouteTracker D) (at : Situation D) → SamePlace t (step_unicycle t at)
  unfolding step_unicycle
  step_unicycle-SamePlace t at = ground arith

  step_omni-SamePlace : (t : RouteTracker D) (at : Situation D) → SamePlace t (step_omni t at)
  unfolding step_omni
  step_omni-SamePlace t at = ground arith

  -- A tracker that is active follows a well-formed route and stands on one of its segments.
  pub record OnRoute (t : RouteTracker D) : Type 0 where
    pub shape : t.active ≡ true → IsWellFormed t.route
    pub on_segment : t.active ≡ true → t.segment < segments t.route

  locate_lem :
      (t : RouteTracker D) (ell : D) (c : Point D)
      → t.segment < segments t.route
      → let u = locate t ell c in
        (u.route ≡ t.route)
        × (u.active ≡ t.active)
        × (u.segment < segments t.route)
        × (t.segment ≤ u.segment)
  unfolding locate
  locate_lem t ell c h =
      let loop = advance_lem t.route ell c (segments t.route) t.segment h (omega arith) in
      (refl, refl, loop.0, loop.1)

  drives_SamePlace :
      (b : Bool) (t : RouteTracker D) (at : Situation D)
      → SamePlace t (if b then step_unicycle t at else step_omni t at)
  drives_SamePlace true t at = step_unicycle-SamePlace t at
  drives_SamePlace false t at = step_omni-SamePlace t at

  step_active_lem :
      (t : RouteTracker D) (q : Pose D) (ell v_meas dt s_limit : D)
      → t.segment < segments t.route
      → let u = step_active t q ell v_meas dt s_limit in
        (u.route ≡ t.route)
        × (u.active ≡ t.active)
        × (u.segment < segments t.route)
        × (t.segment ≤ u.segment)
  unfolding step_active
  step_active_lem t q ell_estimate v_meas dt s_limit h =
      let unicycle = is_unicycle t.spec.model in
      let ell = if unicycle then ell_estimate else lit 0 0 in
      let c : Point D = record { x = q.x ⊕ ell ⊗ f.cos q.yaw; y = q.y ⊕ ell ⊗ f.sin q.yaw } in
      let located = locate t ell c in
      let at = situation located q ell c v_meas dt s_limit in
      let same = drives_SamePlace unicycle located at in
      let place = locate_lem t ell c h in
      (
        same.route ∙ place.0,
        same.active ∙ place.1,
        omega (arith, same.segment, place.2),
        omega (arith, same.segment, place.3),
      )

  abbrev Stays : RouteTracker D → RouteTracker D → Type 0
  Stays t u = OnRoute u × (u.route ≡ t.route) × (t.segment ≤ u.segment)

  if_active :
      (b : Bool) (t u : RouteTracker D)
      → OnRoute t
      → t.active ≡ b
      → (t.segment < segments t.route
          → (u.route ≡ t.route)
            × (u.active ≡ t.active)
            × (u.segment < segments t.route)
            × (t.segment ≤ u.segment))
      → Stays t (if◌then◌else◌ {A = RouteTracker D × Command D} b (u, u.cmd) (t, no_command)).0
  if_active true t u on a moved =
      let place = moved (on.on_segment a) in
      (
        record { shape = λ _. rw place.0 (on.shape a); on_segment = λ _. rw place.0 place.2 },
        place.0,
        place.3,
      )
  if_active false t u on a moved = (on, refl, omega arith)

  -- A step of a tracker that is on its route leaves it there, on the same route, and never at an earlier
  -- segment.
  pub step_tracker-OnRoute :
      (t : RouteTracker D) (q : Pose D) (ell v_meas dt s_limit : D)
      → OnRoute t
      → let u = (step_tracker t q ell v_meas dt s_limit).0 in
        OnRoute u × (u.route ≡ t.route) × (t.segment ≤ u.segment)
  unfolding step_tracker
  step_tracker-OnRoute t q ell v_meas dt s_limit on =
      if_active t.active t _ on refl (step_active_lem t q ell v_meas dt s_limit)

  -- A tracker that was started is on its route, whatever it did before.
  pub start_route-OnRoute :
      (start goal : Pose D) (via : List (Point D)) (ell : D) (spec : VehicleSpec D)
      (t : RouteTracker D)
      → OnRoute (start_route (make_route start via goal ell) spec t)
  unfolding start_route
  start_route-OnRoute start goal via ell spec t =
      let whole = make_route-IsWellFormed start via goal ell in
      record { shape = λ _. whole.0; on_segment = λ a. omega (arith, whole.1) }
