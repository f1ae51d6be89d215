-- ===== src/ResetClient/Tracker.antt =====
-- ugv_reset_client/include/ugv_reset_client/reset_tracker.h, class RouteTracker: its state, and what
-- its two ways of driving share. A step is in Tracker/Unicycle, Tracker/Omni and Tracker/Step.
pub mod Unicycle
pub mod Omni
pub mod Step
pub mod Segment
mod Tests
use xgc2_ugv_controller.Base.{
  ℕ, zero, suc, ◌+◌, Bool, true, false, ◌&&◌, ◌||◌, not, ltb, ◌==◌, get_or, if◌then◌else◌,
}
use xgc2_ugv_controller.Floating.{Double, lit, ◌⊕◌, ◌⊖◌, ◌⊗◌, ◌⊘◌, ◌≺◌, ◌≼◌, ◌≐◌, dmin, dmax, clamp}
use xgc2_ugv_controller.ResetClient.Protocol.{Pose, Point, VehicleSpec, wrap_angle, default_spec}
use xgc2_ugv_controller.ResetClient.Route.{
  Route, distance, segments, route_length, empty_route, default_point,
}

pub record Command (D : Type 0) : Type 0 where
  pub vx : D
  pub vy : D
  pub wz : D

pub record RouteTracker (D : Type 0) : Type 0 where
  pub route : Route D
  pub spec : VehicleSpec D
  pub active : Bool
  pub rotating : Bool
  pub final_stage : Bool
  pub at_end : Bool
  pub segment : ℕ
  pub progress : D
  pub cross_track : D
  pub heading_error : D
  pub vx : D
  pub w : D
  pub cmd : Command D

module _ {D : Type 0} ⦃f : Double D⦄ where
  -- `Command{}`
  abbrev pub no_command : Command D
  no_command = record { vx = lit 0 0; vy = lit 0 0; wz = lit 0 0 }

  -- `Command::zero`
  unfoldable pub is_zero : Command D → Bool
  is_zero c = (c.vx ≐ lit 0 0) && (c.vy ≐ lit 0 0) && (c.wz ≐ lit 0 0)

  abbrev pub new_tracker : RouteTracker D
  new_tracker = record {
    route = empty_route;
    spec = default_spec;
    active = false;
    rotating = false;
    final_stage = false;
    at_end = false;
    segment = 0;
    progress = lit 0 0;
    cross_track = lit 0 0;
    heading_error = lit 0 0;
    vx = lit 0 0;
    w = lit 0 0;
    cmd = no_command;
  }

  abbrev clear : RouteTracker D → RouteTracker D
  clear t = record t {
    active = false;
    rotating = false;
    final_stage = false;
    vx = lit 0 0;
    w = lit 0 0;
    cmd = no_command;
  }

  unfoldable pub start_route : Route D → VehicleSpec D → RouteTracker D → RouteTracker D
  start_route route spec t = record t {
    route = route;
    spec = spec;
    active = ltb 0 (segments route);
    rotating = false;
    final_stage = false;
    segment = 0;
    progress = lit 0 0;
    cross_track = lit 0 0;
    heading_error = lit 0 0;
  }

  unfoldable pub whole_route_granted : Route D → D → Bool
  whole_route_granted route s_limit = route_length route ≼ (s_limit ⊕ lit 1 6)

  -- The speed from which the vehicle still stops within `distance`.
  stop_speed : VehicleSpec D → D → D
  stop_speed spec distance =
      let lag : D = lit 3 1 in
      let a = spec.acc_v ⊗ lit 8 1 in
      a ⊗ (f.neg lag ⊕ f.sqrt (lag ⊗ lag ⊕ lit 2 0 ⊗ dmax (lit 0 0) distance ⊘ a))

  slew : D → D → D → D
  slew current desired step = current ⊕ clamp (desired ⊖ current) (f.neg step) step

  -- The lambda `rotateTo` of `step`, at the measured heading th.
  rotate_to : VehicleSpec D → D → D → D
  rotate_to spec th to =
      let e = wrap_angle (to ⊖ th) in
      let root = f.sqrt (lit 2 0 ⊗ spec.acc_w ⊗ lit 5 1 ⊗ f.abs e) in
      let wmag = dmin (dmin spec.max_w root) (lit 15 1 ⊗ f.abs e) in
      if f.abs e ≺ lit 12 3 then lit 0 0 else f.copysign wmag e

  -- The lambda `vertex`: the last vertex follows the live offset estimate.
  live_vertex : Route D → D → ℕ → Point D
  live_vertex r ell i =
      if i == segments r
      then record { x = r.goal.x ⊕ ell ⊗ f.cos r.goal.yaw; y = r.goal.y ⊕ ell ⊗ f.sin r.goal.yaw }
      else get_or r.vertices i default_point

  -- The lambda `passedVertex`.
  passed_vertex : Route D → D → Point D → ℕ → Bool
  unfolding live_vertex
  passed_vertex r ell c j =
      let a = live_vertex r ell j in
      let b = live_vertex r ell (j + 1) in
      let sx = b.x ⊖ a.x in
      let sy = b.y ⊖ a.y in
      let sl = f.hypot sx sy in
      ltb j (segments r)
      && (lit 5 2 ≺ sl)
      && ((sl ⊖ lit 3 2) ≼ (((c.x ⊖ a.x) ⊗ sx ⊕ (c.y ⊖ a.y) ⊗ sy) ⊘ sl))

  -- The test of the loop that moves on to the next segment.
  pub moves_on : Route D → D → Point D → ℕ → Bool
  unfolding passed_vertex live_vertex
  moves_on r ell c segment =
      ltb (segment + 1) (segments r)
      && ((distance (live_vertex r ell (segment + 1)) c ≺ lit 6 2) || passed_vertex r ell c segment)

  -- The loop, with fuel.
  pub advance : Route D → D → Point D → ℕ → ℕ → ℕ
  unfolding moves_on
  advance r ell c zero segment = segment
  advance r ell c (suc fuel) segment = elim (moves_on r ell c segment) [
    | true ↦ advance r ell c fuel (segment + 1)
    | false ↦ segment
  ]

  -- Whether the vehicle must stop at the end of the segment, whose direction is psi.
  stops_at_vertex : Route D → D → ℕ → Bool → Point D → D → Bool
  unfolding live_vertex
  stops_at_vertex r ell segment last target psi =
      let next = live_vertex r ell (segment + 2) in
      if last
      then true
      else lit 10 2 ≺ f.abs (wrap_angle (f.atan2 (next.y ⊖ target.y) (next.x ⊖ target.x) ⊖ psi))
