-- ===== src/ResetClient/Tracker/Step.antt =====
-- `RouteTracker::step` of reset_tracker.h: one control step.
use xgc2_ugv_controller.Base.{◌+◌, ◌==◌, get_or, if◌then◌else◌}
use xgc2_ugv_controller.Floating.{Double, lit, ◌⊕◌, ◌⊖◌, ◌⊗◌, ◌⊘◌, ◌≺◌, clamp}
use xgc2_ugv_controller.ResetClient.Protocol.{Pose, Point, is_unicycle}
use xgc2_ugv_controller.ResetClient.Route.{distance, segments}
use xgc2_ugv_controller.ResetClient.Tracker.{
  RouteTracker, Command, no_command, live_vertex, advance,
}
use xgc2_ugv_controller.ResetClient.Tracker.Unicycle.{Situation, step_unicycle}
use xgc2_ugv_controller.ResetClient.Tracker.Omni.{step_omni}

module _ {D : Type 0} ⦃f : Double D⦄ where
  -- The arc length of the rotation centre along its segment.
  along_segment : Point D → Point D → Point D → D
  along_segment prevp target c =
      let sx = target.x ⊖ prevp.x in
      let sy = target.y ⊖ prevp.y in
      let sl = f.hypot sx sy in
      if lit 1 9 ≺ sl
      then clamp (((c.x ⊖ prevp.x) ⊗ sx ⊕ (c.y ⊖ prevp.y) ⊗ sy) ⊘ sl) (lit 0 0) sl
      else lit 0 0

  -- The part of `step` that both models share: the segment, `at_end` and the progress.
  unfoldable pub locate : RouteTracker D → D → Point D → RouteTracker D
  unfolding along_segment live_vertex advance
  locate t ell c =
      let route = t.route in
      let nseg = segments route in
      let segment = advance route ell c nseg t.segment in
      let prevp = live_vertex route ell segment in
      let target = live_vertex route ell (segment + 1) in
      record t {
        segment = segment;
        at_end = distance (live_vertex route ell nseg) c ≺ lit 3 2;
        progress = get_or route.cumulative segment (lit 0 0) ⊕ along_segment prevp target c;
      }

  pub situation : RouteTracker D → Pose D → D → Point D → D → D → D → Situation D
  unfolding live_vertex
  situation t q ell c v_meas dt s_limit =
      let target = live_vertex t.route ell (t.segment + 1) in
      record {
        q = q;
        ell = ell;
        c = c;
        last = t.segment + 1 == segments t.route;
        prevp = live_vertex t.route ell t.segment;
        target = target;
        d = distance target c;
        v_meas = v_meas;
        s_limit = s_limit;
        allowed = s_limit ⊖ t.progress;
        vstep = t.spec.acc_v ⊗ lit 9 1 ⊗ dt;
        wstep = t.spec.acc_w ⊗ lit 9 1 ⊗ dt;
      }

  unfoldable pub step_active : RouteTracker D → Pose D → D → D → D → D → RouteTracker D
  unfolding locate situation
  step_active t q ell_estimate v_meas dt s_limit =
      let unicycle = is_unicycle t.spec.model in
      let ell = if unicycle then ell_estimate else lit 0 0 in
      let c : Point D = record { x = q.x ⊕ ell ⊗ f.cos q.yaw; y = q.y ⊕ ell ⊗ f.sin q.yaw } in
      let located = locate t ell c in
      let at = situation located q ell c v_meas dt s_limit in
      if unicycle then step_unicycle located at else step_omni located at

  -- The tracker after the step, and the command.
  unfoldable pub step_tracker : RouteTracker D → Pose D → D → D → D → D → RouteTracker D × Command D
  step_tracker t q ell_estimate v_meas dt s_limit =
      let stepped = step_active t q ell_estimate v_meas dt s_limit in
      if t.active then (stepped, stepped.cmd) else (t, no_command)
