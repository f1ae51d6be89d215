-- ===== src/ResetClient/Tracker/Unicycle.antt =====
-- `RouteTracker::step` of reset_tracker.h for a unicycle: turn in place about the rotation centre, or
-- drive along the segment.
use xgc2_ugv_controller.Base.{
  Bool, true, false, ◌&&◌, ◌||◌, not, ltb, pos, ltb_ℤ, length, get_or, if◌then◌else◌,
}
use xgc2_ugv_controller.Floating.{Double, lit, ◌⊕◌, ◌⊖◌, ◌⊗◌, ◌⊘◌, ◌≺◌, ◌≼◌, dmin, dmax, clamp}
use xgc2_ugv_controller.ResetClient.Protocol.{Pose, Point, pi, wrap_angle}
use xgc2_ugv_controller.ResetClient.Route.{direction}
use xgc2_ugv_controller.ResetClient.Tracker.{
  RouteTracker, stop_speed, slew, rotate_to, whole_route_granted, stops_at_vertex,
}

-- What a step has computed before it chooses a way to drive.
pub record Situation (D : Type 0) : Type 0 where
  pub q : Pose D
  pub ell : D
  pub c : Point D
  pub last : Bool
  pub prevp : Point D
  pub target : Point D
  pub d : D
  pub v_meas : D
  pub s_limit : D
  pub allowed : D
  pub vstep : D
  pub wstep : D

module _ {D : Type 0} ⦃f : Double D⦄ where
  -- The latch of the final stage.
  latch : Bool → D → Bool → Bool
  latch last d final_stage =
      if last && (d ≺ lit 3 2)
      then true
      else if final_stage && (lit 15 2 ≺ d)
      then false
      else final_stage

  -- The final stage: the desired speed and yaw rate.
  final_drive : RouteTracker D → Situation D → D × D
  unfolding rotate_to
  final_drive t at =
      let th = at.q.yaw in
      let goal = t.route.goal in
      let granted = whole_route_granted t.route at.s_limit in
      let e = wrap_angle (goal.yaw ⊖ th) in
      let along = (goal.x ⊖ at.q.x) ⊗ f.cos th ⊕ (goal.y ⊖ at.q.y) ⊗ f.sin th in
      let nudge =
        if lit 12 3 ≺ f.abs along
        then clamp (lit 8 1 ⊗ along) (f.neg (lit 6 2)) (lit 6 2)
        else lit 0 0 in
      (
        (if granted && (f.abs e ≺ lit 1 1) then nudge else lit 0 0),
        (if granted then rotate_to t.spec th goal.yaw else lit 0 0),
      )

  -- The speed that the stops ahead and the end of the prefix allow.
  speed_cap : RouteTracker D → Situation D → Bool → D
  unfolding stop_speed
  speed_cap t at must_stop =
      let spec = t.spec in
      let first = if must_stop then stop_speed spec (at.d ⊖ lit 15 3) else spec.max_v in
      let capped = dmin first spec.max_v in
      let creep = if must_stop then dmax capped (dmin (lit 4 2) (lit 4 0 ⊗ at.d)) else capped in
      dmin creep (stop_speed spec (at.allowed ⊖ lit 5 2))

  -- Following the segment: the tracker with its errors and its turning state, the desired speed and
  -- the desired yaw rate.
  follow : RouteTracker D → Situation D → RouteTracker D × D × D
  unfolding speed_cap stops_at_vertex rotate_to
  follow t at =
      let th = at.q.yaw in
      let dir = direction t.route t.segment in
      let psi = f.atan2 (at.target.y ⊖ at.c.y) (at.target.x ⊖ at.c.x) in
      let sx = at.target.x ⊖ at.prevp.x in
      let sy = at.target.y ⊖ at.prevp.y in
      let segl = f.hypot sx sy in
      let ux = sx ⊘ segl in
      let uy = sy ⊘ segl in
      let on_line = (lit 5 2 ≺ segl) && (not at.last || ((lit 2 1 ≺ segl) && (lit 25 2 ≼ at.d))) in
      let ect =
        if on_line then ux ⊗ (at.c.y ⊖ at.prevp.y) ⊖ uy ⊗ (at.c.x ⊖ at.prevp.x) else lit 0 0 in
      let psi_seg = if on_line then f.atan2 uy ux else psi in
      let body_target = if ltb_ℤ (pos 0) dir then psi_seg else psi_seg ⊕ pi in
      let e_use = wrap_angle (body_target ⊖ th) in
      let stanley = f.atan2 (lit 15 1 ⊗ ect) (lit 15 2 ⊕ f.abs at.v_meas) in
      let ang = wrap_angle (e_use ⊖ stanley) in
      let must_stop = stops_at_vertex t.route at.ell t.segment at.last at.target psi in
      let vcap = speed_cap t at must_stop in
      let here = get_or t.route.cumulative t.segment (lit 0 0) in
      let near_vertex = (t.progress ⊖ here) ≺ lit 12 2 in
      let vertex_ungranted =
        ltb 0 t.segment
        && ltb t.segment (length t.route.cumulative)
        && ((at.s_limit ⊕ lit 1 6) ≺ here) in
      let turn =
        (lit 45 2 ≺ f.abs e_use)
        || (near_vertex && (lit 10 2 ≺ f.abs e_use))
        || (t.rotating && ((if near_vertex then lit 4 2 else lit 15 2) ≺ f.abs e_use)) in
      let sc = dmax (lit 0 0) (f.cos e_use) in
      let seen = record t { cross_track = ect; heading_error = e_use } in
      if vertex_ungranted && ((here ⊖ lit 8 2) ≼ t.progress)
      then (seen, lit 0 0, lit 0 0)
      else if turn
      then (record seen { rotating = true }, lit 0 0, rotate_to t.spec th body_target)
      else (
        record seen { rotating = false },
        f.of_ℤ dir ⊗ vcap ⊗ sc ⊗ sc,
        clamp (lit 22 1 ⊗ ang) (f.neg t.spec.max_w) t.spec.max_w,
      )

  -- The desired speeds go through the acceleration limits into the command.
  drive : Situation D → RouteTracker D × D × D → RouteTracker D
  unfolding slew
  drive at (t, vdes, wdes) =
      let vx = slew t.vx vdes at.vstep in
      let w = slew t.w wdes at.wstep in
      record t { vx = vx; w = w; cmd = record { vx = vx; vy = lit 0 0; wz = w } }

  unfoldable pub step_unicycle : RouteTracker D → Situation D → RouteTracker D
  unfolding latch final_drive follow drive
  step_unicycle t at =
      let staged = record t {
        cross_track = lit 0 0;
        heading_error = lit 0 0;
        final_stage = latch at.last at.d t.final_stage;
      } in
      drive at (
        if at.last && staged.final_stage
        then (let (v, w) = final_drive staged at in (staged, v, w))
        else follow staged at)
