-- ===== src/ResetClient/Estimators/Bounds.antt =====
-- reset_tracker.h, class EllEstimator: how many samples its two tracks keep.
use xgc2_ugv_controller.Base.{
  ◌+◌, ◌≤◌, Bool, List, [], ◌∷◌, ◌++◌, Option, none, some, length, ltb, leb, length-append, arith,
  if_cases,
}
use xgc2_ugv_controller.Floating.{Double, lit}
use xgc2_ugv_controller.ResetClient.Protocol.{Pose}
use xgc2_ugv_controller.ResetClient.Estimators.{
  EllEstimator, Track, keep, push, pop_front, step_track, use_fast, use_slow, add_ell,
}

module _ {D : Type 0} ⦃f : Double D⦄ where
  record IsShort (t : Track D) : Type 0 where
    short : length t.samples ≤ keep

  -- Each track keeps at most six samples.
  pub record IsBounded (e : EllEstimator D) : Type 0 where
    pub fast_bounded : length e.fast.samples ≤ keep
    pub slow_bounded : length e.slow.samples ≤ keep

  length-pop_front : (xs : List D) → length xs ≤ keep + 1 → length (pop_front xs) ≤ keep
  unfolding pop_front
  length-pop_front [] h = omega arith
  length-pop_front (x ∷ xs) h = omega (arith, h)

  push-IsShort : (s : D) (t : Track D) → IsShort t → IsShort (push s t)
  unfolding push
  push-IsShort s t v =
      let pushed = t.samples ++ s ∷ [] in
      let longer : length pushed ≤ keep + 1 =
        omega (arith, length-append t.samples (s ∷ []), v.short) in
      record {
        short =
            if_cases (λ (xs : List D). length xs ≤ keep) (ltb keep (length pushed))
              (λ _. length-pop_front pushed longer) (λ t. ground arith);
      }

  -- A pose alone adds no sample to the track.
  step_track-IsShort :
      (bound min_turn : D) (q : Pose D) (t : Track D)
      → IsShort t
      → IsShort (step_track bound min_turn q t).0
  unfolding step_track
  step_track-IsShort bound min_turn q t v = record { short = ground (arith, v.short) }

  use_fast-IsBounded :
      (mature : Bool) (e : EllEstimator D) (o : Option (D × D))
      → IsBounded e
      → IsBounded (use_fast mature e o)
  unfolding use_fast
  use_fast-IsBounded mature e none v = v
  use_fast-IsBounded mature e (some (s, turn)) v = record {
    fast_bounded = (push-IsShort s e.fast (record { short = v.fast_bounded })).short;
    slow_bounded = v.slow_bounded;
  }

  use_slow-IsBounded :
      (e : EllEstimator D) (o : Option (D × D)) → IsBounded e → IsBounded (use_slow e o)
  unfolding use_slow
  use_slow-IsBounded e none v = v
  use_slow-IsBounded e (some (s, turn)) v = record {
    fast_bounded = v.fast_bounded;
    slow_bounded = (push-IsShort s e.slow (record { short = v.slow_bounded })).short;
  }

  -- With at most six samples in each track of the offset estimator, there still are at most six in each
  -- after another pose.
  pub add_ell-IsBounded : (q : Pose D) (e : EllEstimator D) → IsBounded e → IsBounded (add_ell q e)
  unfolding add_ell
  add_ell-IsBounded q e v =
      let fast = step_track e.bound (lit 6 2) q e.fast in
      let e1 = use_fast (leb 3 (length e.slow.samples)) (record e { fast = fast.0 }) fast.1 in
      let v1 =
        use_fast-IsBounded (leb 3 (length e.slow.samples)) (record e { fast = fast.0 }) fast.1
          (record {
            fast_bounded =
                (step_track-IsShort e.bound (lit 6 2) q e.fast
                  (record { short = v.fast_bounded })).short;
            slow_bounded = v.slow_bounded;
          }) in
      let slow = step_track e1.bound (lit 2 1) q e1.slow in
      use_slow-IsBounded (record e1 { slow = slow.0 }) slow.1
        (record {
          fast_bounded = v1.fast_bounded;
          slow_bounded =
              (step_track-IsShort e1.bound (lit 2 1) q e1.slow
                (record { short = v1.slow_bounded })).short;
        })
