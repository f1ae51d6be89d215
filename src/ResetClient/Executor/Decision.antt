-- ===== src/ResetClient/Executor/Decision.antt =====
-- reset_executor.h: how two grants, or a grant and the route that is driven, are compared, and which
-- Go is well formed (`samePose`, `sameRoute`, `sameDecision`, `validGo`).
use xgc2_ugv_controller.Base.{
  ◌+◌, Bool, true, false, ◌&&◌, not, String, List, [], ◌∷◌, length, leb, ◌==◌, str_eq, same_bool,
}
use xgc2_ugv_controller.Floating.{Double, lit, ◌⊖◌, ◌≺◌, ◌≼◌, ◌≐◌}
use xgc2_ugv_controller.ResetClient.Protocol.{
  Pose, Point, Grant, wrap_angle, same_grant_state, same_reason, max_via,
}
use xgc2_ugv_controller.ResetClient.Executor.{Executing}

same_texts : List String → List String → Bool
same_texts [] [] = true
same_texts (a ∷ as') (b ∷ bs) = str_eq a b && same_texts as' bs
same_texts _ _ = false

module _ {D : Type 0} ⦃f : Double D⦄ where
  pub same_pose : Pose D → Pose D → Bool
  same_pose a b =
      (f.abs (a.x ⊖ b.x) ≼ lit 1 9)
      && (f.abs (a.y ⊖ b.y) ≼ lit 1 9)
      && (f.abs (wrap_angle (a.yaw ⊖ b.yaw)) ≼ lit 1 9)

  -- The interior vertices agree with the via points, pairwise.
  near_points : List (Point D) → List (Point D) → Bool
  near_points vertices [] = true
  near_points [] (p ∷ via) = false
  near_points (v ∷ vertices) (p ∷ via) =
      not (lit 1 9 ≺ f.abs (v.x ⊖ p.x))
      && not (lit 1 9 ≺ f.abs (v.y ⊖ p.y))
      && near_points vertices via

  interior : List (Point D) → List (Point D)
  interior [] = []
  interior (first ∷ rest) = rest

  unfoldable pub same_route : Executing D → Grant D → Bool
  unfolding same_pose near_points interior
  same_route x g =
      let r = x.tracker.route in
      same_pose r.start g.start
      && same_pose r.goal g.goal
      && not (lit 1 9 ≺ f.abs (r.ell ⊖ g.ell_plan))
      && same_bool x.final g.final_move
      && (length r.vertices == length g.via + 2)
      && near_points (interior r.vertices) g.via

  same_points : List (Point D) → List (Point D) → Bool
  same_points [] [] = true
  same_points (a ∷ as') (b ∷ bs) = (a.x ≐ b.x) && (a.y ≐ b.y) && same_points as' bs
  same_points _ _ = false

  -- A decision may be repeated under its id, with another stamp and publication number only.
  unfoldable pub same_decision : Grant D → Grant D → Bool
  unfolding same_pose same_texts same_points
  same_decision a b =
      same_grant_state a.state b.state
      && (a.request_generation == b.request_generation)
      && (a.session == b.session)
      && same_pose a.start b.start
      && same_pose a.goal b.goal
      && same_bool a.final_move b.final_move
      && (a.ell_plan ≐ b.ell_plan)
      && (a.s_limit ≐ b.s_limit)
      && same_reason a.reason b.reason
      && (a.ttl ≐ b.ttl)
      && str_eq a.detail b.detail
      && same_texts a.blockers b.blockers
      && same_points a.via b.via

  finite_pose : Pose D → Bool
  finite_pose p = f.isfinite p.x && f.isfinite p.y && f.isfinite p.yaw

  finite_points : List (Point D) → Bool
  finite_points [] = true
  finite_points (p ∷ rest) = f.isfinite p.x && f.isfinite p.y && finite_points rest

  unfoldable pub valid_go : Grant D → Pose D → Bool
  unfolding same_pose finite_pose finite_points
  valid_go g target =
      finite_pose g.start
      && finite_pose g.goal
      && f.isfinite g.ell_plan
      && f.isfinite g.s_limit
      && not (g.s_limit ≺ lit 0 0)
      && leb (length g.via) max_via
      && not (g.final_move && not (same_pose g.goal target))
      && finite_points g.via
