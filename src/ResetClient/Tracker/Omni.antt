-- ===== src/ResetClient/Tracker/Omni.antt =====
-- `RouteTracker::step` of reset_tracker.h for an omnidirectional vehicle: translate along the segment
-- and turn at the same time.
use xgc2_ugv_controller.Base.{Bool, ◌&&◌, ◌||◌, not, if◌then◌else◌}
use xgc2_ugv_controller.Floating.{Double, lit, ◌⊕◌, ◌⊖◌, ◌⊗◌, ◌⊘◌, ◌≺◌, ◌≼◌, dmin, clamp}
use xgc2_ugv_controller.ResetClient.Tracker.{
  RouteTracker, stop_speed, slew, rotate_to, stops_at_vertex,
}
use xgc2_ugv_controller.ResetClient.Tracker.Unicycle.{Situation}

module _ {D : Type 0} ⦃f : Double D⦄ where
  -- The speed along the segment.
  translation_speed : RouteTracker D → Situation D → D → Bool → D
  unfolding stop_speed
  translation_speed t at dist must_stop =
      let spec = t.spec in
      let stopping =
        stop_speed spec (dist ⊖ lit 1 2) ⊕ (if lit 2 2 ≺ dist then lit 3 2 else lit 0 0) in
      let first = if must_stop then stopping else spec.max_v in
      let sp = dmin (dmin first spec.max_v) (stop_speed spec (at.allowed ⊖ lit 5 2)) in
      if dist ≺ lit 2 2 then lit 0 0 else sp

  unfoldable pub step_omni : RouteTracker D → Situation D → RouteTracker D
  unfolding translation_speed slew rotate_to stops_at_vertex
  step_omni t at =
      let th = at.q.yaw in
      let q = at.q in
      let goal = t.route.goal in
      let sx = at.target.x ⊖ at.prevp.x in
      let sy = at.target.y ⊖ at.prevp.y in
      let segl = f.hypot sx sy in
      let long = lit 5 2 ≺ segl in
      let ux = if long then sx ⊘ segl else lit 0 0 in
      let uy = if long then sy ⊘ segl else lit 0 0 in
      let ect = if long then ux ⊗ (q.y ⊖ at.prevp.y) ⊖ uy ⊗ (q.x ⊖ at.prevp.x) else lit 0 0 in
      let gx = (if at.last then goal.x else at.target.x) ⊖ q.x in
      let gy = (if at.last then goal.y else at.target.y) ⊖ q.y in
      let dist = f.hypot gx gy in
      let must_stop = stops_at_vertex t.route at.ell t.segment at.last at.target (f.atan2 sy sx) in
      let sp = translation_speed t at dist must_stop in
      let servo = (segl ≼ lit 5 2) || (at.last && (dist ≺ lit 25 2)) in
      let far = lit 1 9 ≺ dist in
      let wx = if servo then (if far then gx ⊘ dist ⊗ sp else lit 0 0) else ux ⊗ sp in
      let wy = if servo then (if far then gy ⊘ dist ⊗ sp else lit 0 0) else uy ⊗ sp in
      let k = clamp (lit 15 1 ⊗ f.abs ect) (lit 0 0) (lit 15 2) in
      let side = if lit 0 0 ≺ ect then lit 1 0 else f.neg (lit 1 0) in
      let corrected = not servo && (lit 0 0 ≺ sp) in
      let wx' = if corrected then wx ⊕ side ⊗ k ⊗ uy else wx in
      let wy' = if corrected then wy ⊖ side ⊗ k ⊗ ux else wy in
      let w = rotate_to t.spec th goal.yaw in
      let bxv = f.cos th ⊗ wx' ⊕ f.sin th ⊗ wy' in
      let byv = f.neg (f.sin th) ⊗ wx' ⊕ f.cos th ⊗ wy' in
      record t {
        cross_track = ect;
        cmd = record {
          vx = slew t.cmd.vx bxv at.vstep;
          vy = slew t.cmd.vy byv at.vstep;
          wz = slew t.cmd.wz w at.wstep;
        };
      }
