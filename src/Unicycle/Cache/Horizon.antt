-- ===== src/Unicycle/Cache/Horizon.antt =====
-- reference_cache.cpp, `sampleHorizon`: the horizon that a solve is given.
use xgc2_ugv_controller.Base.{
  ℕ, zero, suc, ◌+◌, ◌<◌, ◌≡◌, refl, ap, subst, true, false, not, ◌||◌, List, [], ◌∷◌, length, ◌==◌,
  Option, none, some, pos, if_cases, Option-cases, Bool-cases, inl, inr, if◌then◌else◌, and_then,
  arith, and_then, arith,
}
use xgc2_ugv_controller.Floating.{Double, lit, ◌⊕◌, ◌⊖◌, ◌⊗◌, ◌≼◌, dmax}
use xgc2_ugv_controller.Clock.Time.{Time, Duration, sub_time, to_sec}
use xgc2_ugv_controller.Mecanum.Types.{AngleMath}
use xgc2_ugv_controller.Reference.Types.{TrajectoryMath}
use xgc2_ugv_controller.Unicycle.Cache.{
  EvaluatorMath, PlanarReference, ReferenceCache, Se2Reference, active_evaluator, follow_yaw,
  last_yaw, sample_horizon, samples_from, to_sample,
}

module _ {D E L : Type 0} ⦃f : Double D⦄ ⦃angle : AngleMath D⦄ (math : TrajectoryMath D E L)
    (more : EvaluatorMath D E L) (Turn : D → Type 0)
    (normal : (a : D) → Turn (angle.normalize_angle a)) (e : E) (base_t stage_dt : D) where
  -- The yaw of a reference, after the last one that was finite: that of the sample, where there is none
  -- or the sample's is not finite, and otherwise the last one and the normalized angle from it to the
  -- sample's.
  pub data YawOf (sampled yaw : D) : Option D → Type 0 where
    first : yaw ≡ sampled → YawOf sampled yaw none
    skipped :
        (previous : D)
        → f.isfinite sampled ≡ false
        → yaw ≡ sampled
        → YawOf sampled yaw (some previous)
    unwrapped :
        (previous d : D)
        → f.isfinite sampled ≡ true
        → d ≡ angle.normalize_angle (sampled ⊖ previous)
        → Turn d
        → yaw ≡ previous ⊕ d
        → YawOf sampled yaw (some previous)

  -- A reference is the trajectory's sample of its number, but for the yaw; its speed is the velocity along
  -- the heading that was sampled.
  pub record IsSample (i : ℕ) (previous : Option D) (r : PlanarReference D) (s : Se2Reference D)
      : Type 0 where
    pub evaluated : more.evaluate e (base_t ⊕ (f.of_ℤ (pos i) ⊗ stage_dt)) ≡ some r
    pub same_position : s.position ≡ r.position
    pub same_yaw_rate : s.yaw_rate ≡ r.yaw_rate
    pub along_heading :
        s.linear_speed ≡ ((r.velocity.x ⊗ f.cos r.yaw) ⊕ (r.velocity.y ⊗ f.sin r.yaw))
    pub same_flags : s.flags ≡ r.flags
    pub same_acceleration : s.linear_acceleration ≡ r.linear_acceleration
    pub follows : YawOf r.yaw s.yaw previous

  -- The references from the one of number `i`.
  pub data IsHorizon : ℕ → Option D → List (Se2Reference D) → Type 0 where
    ends : (i : ℕ) (previous : Option D) → IsHorizon i previous []
    goes_on :
        (i : ℕ) (previous : Option D) (r : PlanarReference D) (s : Se2Reference D)
        (rest : List (Se2Reference D))
        → IsSample i previous r s
        → IsHorizon (i + 1) (if f.isfinite r.yaw then some s.yaw else previous) rest
        → IsHorizon i previous (s ∷ rest)

  -- The next `n` references, from the one of number `i`, or the sample that the trajectory refuses.
  pub data Sampled (n i : ℕ) (previous : Option D) : Option (List (Se2Reference D)) → Type 0 where
    fails :
        (j : ℕ)
        → j < n
        → more.evaluate e (base_t ⊕ (f.of_ℤ (pos (i + j)) ⊗ stage_dt)) ≡ none
        → Sampled n i previous none
    gives :
        (refs : List (Se2Reference D))
        → length refs ≡ n
        → IsHorizon i previous refs
        → Sampled n i previous (some refs)

  YawOf-follow_yaw :
      (previous : Option D) (s : Se2Reference D) → YawOf s.yaw (follow_yaw previous s).yaw previous
  YawOf-follow_yaw none s = first refl
  YawOf-follow_yaw (some previous) s = elim (Bool-cases (f.isfinite s.yaw)) [
    | inl finite ↦ rw finite (unwrapped previous _ finite refl (normal _) refl)
    | inr not_finite ↦ rw not_finite (skipped previous not_finite refl)
  ]

  IsSample-follow_yaw :
      (i : ℕ) (previous : Option D) (r : PlanarReference D)
      → more.evaluate e (base_t ⊕ (f.of_ℤ (pos i) ⊗ stage_dt)) ≡ some r
      → IsSample i previous r (follow_yaw previous (to_sample math more r))
  unfolding to_sample
  IsSample-follow_yaw i none r evaluated = record {
    evaluated = evaluated;
    same_position = refl;
    same_yaw_rate = refl;
    along_heading = refl;
    same_flags = refl;
    same_acceleration = refl;
    follows = YawOf-follow_yaw none (to_sample math more r);
  }
  IsSample-follow_yaw i (some previous) r evaluated = record {
    evaluated = evaluated;
    same_position = ground arith;
    same_yaw_rate = ground arith;
    along_heading = ground arith;
    same_flags = ground arith;
    same_acceleration = ground arith;
    follows = YawOf-follow_yaw (some previous) (to_sample math more r);
  }

  Sampled-suc :
      (n i : ℕ) (previous : Option D) (r : PlanarReference D) (o : Option (List (Se2Reference D)))
      → more.evaluate e (base_t ⊕ (f.of_ℤ (pos i) ⊗ stage_dt)) ≡ some r
      → let raw = to_sample math more r in
        Sampled n (i + 1) (last_yaw previous raw) o
        → Sampled (suc n) i previous (and_then o (λ rest. some (follow_yaw previous raw ∷ rest)))
  unfolding to_sample
  Sampled-suc n i previous r none evaluated (fails j below refused) = fails (suc j) (omega arith) (
      subst (λ m. more.evaluate e (base_t ⊕ (f.of_ℤ (pos m) ⊗ stage_dt)) ≡ none) (omega arith)
        refused)
  Sampled-suc n i previous r (some refs) evaluated (gives _ count follows) =
      gives (follow_yaw previous (to_sample math more r) ∷ refs) (ap suc count)
        (goes_on i previous r _ refs (IsSample-follow_yaw i previous r evaluated) follows)

  pub samples_from-Sampled :
      (n i : ℕ) (previous : Option D)
      → Sampled n i previous (samples_from math more n i e base_t stage_dt previous)
  unfolding samples_from
  samples_from-Sampled zero i previous = gives [] refl (ends i previous)
  samples_from-Sampled (suc n) i previous =
      elim (Option-cases (more.evaluate e (base_t ⊕ (f.of_ℤ (pos i) ⊗ stage_dt)))) [
        | inl refused ↦ rw refused (
            fails 0 (omega arith) (
              subst (λ m. more.evaluate e (base_t ⊕ (f.of_ℤ (pos m) ⊗ stage_dt)) ≡ none)
                (omega arith) refused))
        | inr (r, evaluated) ↦ rw evaluated (
            Sampled-suc n i previous r _ evaluated
              (samples_from-Sampled n (i + 1) (last_yaw previous (to_sample math more r))))
      ]

module _ {D E L : Type 0} ⦃f : Double D⦄ ⦃angle : AngleMath D⦄ (math : TrajectoryMath D E L)
    (more : EvaluatorMath D E L) (Turn : D → Type 0)
    (normal : (a : D) → Turn (angle.normalize_angle a)) (now : Time) (stage_dt : D) where
  -- What a call gives: nothing for a step that is no duration or without a trajectory, an exception
  -- where the difference of the times is out of range, and otherwise the samples of the trajectory.
  pub data Horizon (horizon_steps : ℕ) (c : ReferenceCache E)
      : Option (Option (List (Se2Reference D))) → Type 0 where
    refuses :
        ((horizon_steps == 0) || not (f.isfinite stage_dt) || (stage_dt ≼ lit 0 0)) ≡ true
        → Horizon horizon_steps c (some none)
    is_inactive : active_evaluator math more c ≡ none → Horizon horizon_steps c (some none)
    throws : sub_time now c.start_time ≡ none → Horizon horizon_steps c none
    samples :
        (e : E) (elapsed : Duration) (o : Option (List (Se2Reference D)))
        → active_evaluator math more c ≡ some e
        → sub_time now c.start_time ≡ some elapsed
        → Sampled math more Turn normal e
            (dmax (lit 0 0) (to_sec elapsed))
            stage_dt
            (suc horizon_steps)
            0
            none
            o
        → Horizon horizon_steps c (some o)

  -- A call of `sampleHorizon` gives nothing for a number of steps or a step that is not positive or with
  -- no active trajectory, and throws where the time since the start of the trajectory is out of range.
  -- Otherwise it gives nothing where the trajectory refuses a sample, and else one reference more than
  -- there are steps: the trajectory's samples from that time on, or from 0 before the start, with the speed
  -- along the sampled heading; a finite yaw after a finite one is the last one and the normalized angle from
  -- it to the sampled yaw.
  pub sample_horizon-Horizon :
      (horizon_steps : ℕ) (c : ReferenceCache E)
      → Horizon horizon_steps c (sample_horizon math more now stage_dt horizon_steps c)
  unfolding sample_horizon
  sample_horizon-Horizon horizon_steps c =
      if_cases (Horizon horizon_steps c)
        ((horizon_steps == 0) || not (f.isfinite stage_dt) || (stage_dt ≼ lit 0 0)) refuses
        (λ _. elim (Option-cases (active_evaluator math more c)) [
          | inl inactive ↦ rw inactive (is_inactive inactive)
          | inr (e, active) ↦ rw active (elim (Option-cases (sub_time now c.start_time)) [
            | inl late ↦ rw late (throws late)
            | inr (elapsed, timed) ↦ rw timed (
                samples e elapsed _ active timed (
                  samples_from-Sampled math more Turn normal e (dmax (lit 0 0) (to_sec elapsed))
                    stage_dt (suc horizon_steps) 0 none))
          ])
        ])
