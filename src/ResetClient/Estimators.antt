-- ===== src/ResetClient/Estimators.antt =====
-- ugv_reset_client/include/ugv_reset_client/reset_tracker.h, the estimators: planar speed from the
-- pose stream, and the rotation-centre offset of a unicycle.
pub mod Bounds
mod Tests
use xgc2_ugv_controller.Base.{
  ℕ, Bool, true, false, ◌&&◌, not, List, [], ◌∷◌, ◌++◌, Option, none, some, length, ltb, leb,
  if◌then◌else◌,
}
use xgc2_ugv_controller.Floating.{Double, lit, ◌⊕◌, ◌⊖◌, ◌⊗◌, ◌⊘◌, ◌≺◌, ◌≼◌, dmin, dmax, clamp}
use xgc2_ugv_controller.ResetClient.Protocol.{Pose, wrap_angle, default_pose}

-- `VelocityEstimator::Entry`
pub record Entry (D : Type 0) : Type 0 where
  pub t : D
  pub pose : Pose D

pub record VelocityEstimator (D : Type 0) : Type 0 where
  -- oldest first
  pub history : List (Entry D)
  pub speed : D
  pub yaw_rate : D
  pub valid : Bool

-- `EllEstimator::Track`
pub record Track (D : Type 0) : Type 0 where
  pub anchor : Pose D
  pub have : Bool
  -- oldest first
  pub samples : List D

pub record EllEstimator (D : Type 0) : Type 0 where
  pub bound : D
  pub fast : Track D
  pub slow : Track D
  pub ell : D
  pub turn_total : D

abbrev pub keep : ℕ
keep = 6

module _ {D : Type 0} ⦃f : Double D⦄ where
  unfoldable pub reset_velocity : VelocityEstimator D → VelocityEstimator D
  reset_velocity v = record { history = []; speed = lit 0 0; yaw_rate = lit 0 0; valid = false }

  -- `!history_.empty() && stamp <= history_.back().t`
  is_repeat : D → List (Entry D) → Bool
  is_repeat stamp [] = false
  is_repeat stamp (e ∷ []) = stamp ≼ e.t
  is_repeat stamp (e ∷ rest) = is_repeat stamp rest

  -- The loop that drops the oldest entries while the second is a window (0.4 s) old.
  drop_old : D → List (Entry D) → List (Entry D)
  drop_old stamp [] = []
  drop_old stamp (a ∷ []) = a ∷ []
  drop_old stamp (a ∷ b ∷ []) = a ∷ b ∷ []
  drop_old stamp (a ∷ b ∷ c ∷ rest) =
      let shorter = drop_old stamp (b ∷ c ∷ rest) in
      if lit 4 1 ≼ (stamp ⊖ b.t) then shorter else a ∷ b ∷ c ∷ rest

  -- The estimate from the oldest entry that is left, if it is 0.2 s old.
  measure : D → Pose D → VelocityEstimator D → List (Entry D) → VelocityEstimator D
  measure stamp pose v [] = v
  measure stamp pose v (first ∷ rest) =
      let span = stamp ⊖ first.t in
      if lit 2 1 ≼ span
      then record v {
        speed = f.hypot (pose.x ⊖ first.pose.x) (pose.y ⊖ first.pose.y) ⊘ span;
        yaw_rate = wrap_angle (pose.yaw ⊖ first.pose.yaw) ⊘ span;
        valid = true;
      }
      else v

  unfoldable pub add_velocity : D → Pose D → VelocityEstimator D → VelocityEstimator D
  unfolding is_repeat drop_old measure
  add_velocity stamp pose v =
      let history = drop_old stamp (v.history ++ record { t = stamp; pose = pose } ∷ []) in
      if is_repeat stamp v.history
      then v
      else measure stamp pose (record v { history = history }) history

  abbrev pub new_velocity : VelocityEstimator D
  new_velocity = record { history = []; speed = lit 0 0; yaw_rate = lit 0 0; valid = false }

  abbrev new_track : Track D
  new_track = record { anchor = default_pose; have = false; samples = [] }

  abbrev pub new_ell : D → EllEstimator D
  new_ell bound = record {
    bound = bound;
    fast = new_track;
    slow = new_track;
    ell = lit 0 0;
    turn_total = lit 0 0;
  }

  unfoldable pub set_bound : D → EllEstimator D → EllEstimator D
  set_bound bound e = record e { bound = bound }

  abbrev reset_ell : EllEstimator D → EllEstimator D
  reset_ell e = record e { fast = new_track; slow = new_track; ell = lit 0 0; turn_total = lit 0 0 }

  -- `samples.pop_front()`
  pop_front : List D → List D
  pop_front [] = []
  pop_front (s ∷ rest) = rest

  push : D → Track D → Track D
  unfolding pop_front
  push s t =
      let pushed = t.samples ++ s ∷ [] in
      record t { samples = if ltb keep (length pushed) then pop_front pushed else pushed }

  -- `Track` after one pose, and the sample with its turn if the heading changed enough.
  step_track : D → D → Pose D → Track D → Track D × Option (D × D)
  step_track bound min_turn q t =
      let turn = wrap_angle (q.yaw ⊖ t.anchor.yaw) in
      let mid = t.anchor.yaw ⊕ lit 5 1 ⊗ turn in
      let dx = q.x ⊖ t.anchor.x in
      let dy = q.y ⊖ t.anchor.y in
      let along = dx ⊗ f.cos mid ⊕ dy ⊗ f.sin mid in
      let lat = f.neg dx ⊗ f.sin mid ⊕ dy ⊗ f.cos mid in
      let sample = clamp (f.neg lat ⊘ (lit 2 0 ⊗ f.sin (lit 5 1 ⊗ turn))) (f.neg bound) bound in
      let moved = record t { anchor = q } in
      if not t.have
      then (record t { anchor = q; have = true }, none)
      else if min_turn ≼ f.abs turn
      then (if (lit 2 0 ⊗ bound ⊗ f.abs turn ⊕ lit 2 2) ≺ f.abs along
          then (moved, none)
          else (moved, some (sample, turn)))
      else if (f.abs turn ≺ lit 2 3) && (lit 5 1 ≺ f.hypot dx dy)
      then (moved, none)
      else (t, none)

  -- The fast track's sample counts the turn, and pulls the estimate until three slow ones exist.
  use_fast : Bool → EllEstimator D → Option (D × D) → EllEstimator D
  unfolding push
  use_fast mature e none = e
  use_fast mature e (some (sample, turn)) = record e {
    ell = if mature then e.ell else e.ell ⊕ lit 5 1 ⊗ (sample ⊖ e.ell);
    turn_total = e.turn_total ⊕ f.abs turn;
    fast = push sample e.fast;
  }

  use_slow : EllEstimator D → Option (D × D) → EllEstimator D
  unfolding push
  use_slow e none = e
  use_slow e (some (sample, turn)) = record e {
    ell = e.ell ⊕ lit 25 2 ⊗ (sample ⊖ e.ell);
    slow = push sample e.slow;
  }

  unfoldable pub add_ell : Pose D → EllEstimator D → EllEstimator D
  unfolding step_track use_fast use_slow
  add_ell q e =
      let mature = leb 3 (length e.slow.samples) in
      let (fast, fast_sample) = step_track e.bound (lit 6 2) q e.fast in
      let e1 = use_fast mature (record e { fast = fast }) fast_sample in
      let (slow, slow_sample) = step_track e1.bound (lit 2 1) q e1.slow in
      use_slow (record e1 { slow = slow }) slow_sample

  worst_from : D → D → List D → D
  worst_from ell w [] = w
  worst_from ell w (s ∷ rest) = worst_from ell (dmax w (f.abs (s ⊖ ell))) rest

  worst : EllEstimator D → Track D → D
  unfolding worst_from
  worst e t = worst_from e.ell (lit 0 0) t.samples

  unfoldable pub spread : EllEstimator D → D
  unfolding worst
  spread e =
      if ltb (length e.fast.samples) 3
      then f.neg (lit 1 0)
      else if e.turn_total ≺ lit 5 1
      then f.neg (lit 1 0)
      else if leb 3 (length e.slow.samples)
      then dmin e.bound (dmax (lit 2 2) (worst e e.slow ⊕ lit 1 2))
      else dmin e.bound (dmax (lit 2 2) (worst e e.fast ⊕ lit 2 2))
