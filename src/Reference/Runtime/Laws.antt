-- ===== src/Reference/Runtime/Laws.antt =====
-- ReferenceTrajectoryRuntime: what it retains, and that a plan is made in the turn that asks for it.
use xgc2_ugv_controller.Base.{
  ℕ, Bool, true, false, not, [], Option, none, some, ◌==◌, if◌then◌else◌, if_cases, ◌≡◌, refl, ◌∙◌,
  arith, Option-cases, inl, inr, and_then,
}
use xgc2_ugv_controller.Floating.{Double, lit, ◌⊘◌}
use xgc2_ugv_controller.StateMachine.{AdtMachine}
use xgc2_ugv_controller.Clock.Time.{time_from_sec}
use xgc2_ugv_controller.Clock.Gate.{PeriodicGate, new_gate, due}
use xgc2_ugv_controller.Reference.Types.{TrajectoryMath}
use xgc2_ugv_controller.Reference.Build.{is_fatal}
use xgc2_ugv_controller.Reference.Runtime.{
  ReferenceOutput, Waypoint, Retained, Request, RuntimeState, Runtime, has_evaluator, state_code,
}
use xgc2_ugv_controller.Reference.Runtime.Update.{
  start_time, publish_output, publish_active, activate, planned, plan_waypoint, active_expired,
  enter_ready, advance_ready, advance_active, entered_plan, handle_advance, settle, state_of,
  dispatch, again, update,
}

module _ {D E L : Type 0} (math : TrajectoryMath D E L) where
  -- An analytic or sampled trajectory has no fatal flag. The flags of waypoints and of the polynomial that
  -- is planned for them are not tested, neither here nor in the source.
  abbrev pub sane_retained : Retained D E → Bool
  sane_retained (Retained.analytic m e flags) = not (is_fatal math flags)
  sane_retained (Retained.sampled m e flags) = not (is_fatal math flags)
  sane_retained _ = true

  abbrev pub sane_request : Request D E → Bool
  sane_request (Request.analytic m e flags) = not (is_fatal math flags)
  sane_request (Request.sampled m e flags) = not (is_fatal math flags)
  sane_request _ = true

module _ {D E L M : Type 0} ⦃f : Double D⦄ (math : TrajectoryMath D E L) where
  abbrev next_state : RuntimeState D × Option (RuntimeState D) × Runtime D E L M → RuntimeState D
  next_state (left, none, rt) = left
  next_state (left, some s, rt) = s

  -- What a handler leaves, where this is the next alternative.
  pub record Good (s : RuntimeState D) (rt : Runtime D E L M) : Type 0 where
    pub follows : state_code s ≡ 4 → has_evaluator rt.retained ≡ true
    pub kept : sane_retained math rt.retained ≡ true
    pub asked : sane_request math rt.request ≡ true

  -- A runtime with the same trajectory and request.
  record Same (rt u : Runtime D E L M) : Type 0 where
    same_retained : u.retained ≡ rt.retained
    same_request : u.request ≡ rt.request

  publish_output-Same :
      (gate : PeriodicGate D) (rate : D) (kind : ReferenceOutput) (rt : Runtime D E L M)
      → Same rt (publish_output gate rate kind rt).1
  unfolding publish_output
  publish_output-Same gate rate kind rt =
      if_cases (Same rt) (due rt.current_time_sec (lit 1 0 ⊘ rate) gate).1
        (λ _. record { same_retained = refl; same_request = refl })
        (λ _. record { same_retained = refl; same_request = refl })

  publish_active-Same :
      (status publication : PeriodicGate D) (rt : Runtime D E L M)
      → Same rt (publish_active status publication rt).1
  unfolding publish_active
  publish_active-Same status publication rt =
      let a = publish_output-Same status rt.config.status_rate_hz ReferenceOutput.status rt in
      let b =
        publish_output-Same publication rt.config.active_publish_rate_hz _
          (publish_output status rt.config.status_rate_hz ReferenceOutput.status rt).1 in
      record {
        same_retained = b.same_retained ∙ a.same_retained;
        same_request = b.same_request ∙ a.same_request;
      }

  Same-Good : (s : RuntimeState D) (rt u : Runtime D E L M) → Same rt u → Good s rt → Good s u
  Same-Good s rt u same g = record {
    follows = λ e. rw same.same_retained (g.follows e);
    kept = rw same.same_retained g.kept;
    asked = rw same.same_request g.asked;
  }

  -- In any other alternative than Active.
  resting-Good :
      (s : RuntimeState D) (rt : Runtime D E L M)
      → (state_code s == 4) ≡ false
      → sane_retained math rt.retained ≡ true
      → sane_request math rt.request ≡ true
      → Good s rt
  resting-Good s rt rest kept asked = record {
    follows = λ e. ground (arith, e, rest);
    kept = kept;
    asked = asked;
  }

  advance_ready-Good :
      (gate : PeriodicGate D) (q : Request D E) (rt : Runtime D E L M)
      → rt.request ≡ q
      → sane_retained math rt.retained ≡ true
      → sane_request math q ≡ true
      → let r = advance_ready math gate q rt in Good (next_state r) r.2
  unfolding advance_ready activate
  advance_ready-Good gate Request.nothing rt e kept asked =
      Same-Good _ rt _ (publish_output-Same gate _ _ rt) (resting-Good _ rt refl kept (rw e asked))
  advance_ready-Good gate (Request.waypoint w) rt e kept asked = resting-Good _ _ refl kept refl
  advance_ready-Good gate (Request.analytic m v g) rt e kept asked = record {
    follows = λ _. refl;
    kept = asked;
    asked = refl;
  }
  advance_ready-Good gate (Request.sampled m v g) rt e kept asked = record {
    follows = λ _. refl;
    kept = asked;
    asked = refl;
  }

  enter_ready-Good :
      (rt : Runtime D E L M)
      → sane_retained math rt.retained ≡ true
      → sane_request math rt.request ≡ true
      → let r = publish_output new_gate rt.config.status_rate_hz ReferenceOutput.status rt in
        Good (RuntimeState.ready r.0) r.1
  enter_ready-Good rt kept asked =
      Same-Good _ rt _ (publish_output-Same new_gate _ _ rt) (resting-Good _ rt refl kept asked)

  activated-Good :
      (status publication : PeriodicGate D) (rt : Runtime D E L M)
      → sane_retained math rt.retained ≡ true
      → sane_request math rt.request ≡ true
      → let active = RuntimeState.active status publication in
        let published = publish_active status publication rt in
        let r : RuntimeState D × Option (RuntimeState D) × Runtime D E L M =
          if not (has_evaluator rt.retained)
          then (active, some RuntimeState.self_check, rt)
          else if active_expired math rt.current_time_sec rt
          then enter_ready math active rt
          else (published.0, none, published.1) in
        Good (next_state r) r.2
  activated-Good status publication rt kept asked =
      let P : RuntimeState D × Option (RuntimeState D) × Runtime D E L M → Type 0 =
        λ r. Good (next_state r) r.2 in
      if_cases P (not (has_evaluator rt.retained)) (λ _. resting-Good _ rt refl kept asked)
        (λ has.
          if_cases P (active_expired math rt.current_time_sec rt)
            (λ _. enter_ready-Good rt kept asked)
            (λ _.
              Same-Good _ rt _ (publish_active-Same status publication rt)
                (record { follows = λ _. ground (arith, has); kept = kept; asked = asked })))

  advance_active-Good :
      (status publication : PeriodicGate D) (q : Request D E) (rt : Runtime D E L M)
      → rt.request ≡ q
      → sane_retained math rt.retained ≡ true
      → sane_request math q ≡ true
      → let r = advance_active math status publication q rt in Good (next_state r) r.2
  unfolding advance_active activate
  advance_active-Good status publication Request.nothing rt e kept asked =
      activated-Good status publication rt kept (rw e asked)
  advance_active-Good status publication (Request.waypoint w) rt e kept asked =
      resting-Good _ _ refl kept refl
  advance_active-Good status publication (Request.analytic m v g) rt e kept asked =
      activated-Good status publication (activate (Request.analytic m v g) rt) asked refl
  advance_active-Good status publication (Request.sampled m v g) rt e kept asked =
      activated-Good status publication (activate (Request.sampled m v g) rt) asked refl

  -- A plan ends the alternative Planning.
  data Plans : Option (RuntimeState D × Option (RuntimeState D) × Runtime D E L M) → Type 0 where
    throws : Plans none
    ends :
        (r : RuntimeState D × Option (RuntimeState D) × Runtime D E L M)
        → Good (next_state r) r.2
        → (state_code (next_state r) == 3) ≡ false
        → Plans (some r)

  planned-Plans :
      (w : Waypoint D) (solution : Option E × ℕ) (rt : Runtime D E L M)
      → sane_retained math rt.retained ≡ true
      → sane_request math rt.request ≡ true
      → Plans (and_then (planned math w solution rt) (λ p. some (entered_plan math w p)))
  unfolding planned publish_active
  planned-Plans w (none, flags) rt kept asked = ends _ (resting-Good _ _ refl kept asked) refl
  planned-Plans w (some e, flags) rt kept asked =
      elim (Option-cases (time_from_sec rt.current_time_sec)) [
        | inl n ↦ rw n throws
        | inr (stamp, s) ↦ elim (Option-cases (start_time w.message.header.stamp rt)) [
          | inl n ↦ rw (s, n) throws
          | inr (start, t) ↦
              rw (s, t)
                (ends _
                  (Same-Good _ _ _ (publish_active-Same new_gate new_gate _)
                    (record { follows = λ _. refl; kept = refl; asked = asked }))
                  refl)
        ]
      ]

  module _ ⦃k : AdtMachine (RuntimeState D) D M⦄ where
    settle-Good :
        (now : D) (r : RuntimeState D × Option (RuntimeState D) × Runtime D E L M)
        → Good (next_state r) r.2
        → Good (state_of (settle math now r)) (settle math now r)
    settle-Good now (left, none, rt) g =
        rw (k.state-put left rt.machine)
          (record { follows = g.follows; kept = g.kept; asked = g.asked })
    settle-Good now (left, some s, rt) g =
        rw (k.state-apply s now (k.put left rt.machine))
          (record { follows = g.follows; kept = g.kept; asked = g.asked })

    state_of-settle :
        (now : D) (r : RuntimeState D × Option (RuntimeState D) × Runtime D E L M)
        → state_of (settle math now r) ≡ next_state r
    state_of-settle now (left, none, rt) = k.state-put left rt.machine
    state_of-settle now (left, some s, rt) = k.state-apply s now (k.put left rt.machine)

    -- What a turn leaves, where the time does not throw.
    pub data Updated : Option (Runtime D E L M) → Type 0 where
      throws : Updated none
      updates :
          (rt : Runtime D E L M)
          → Good (state_of rt) rt
          → (state_code (state_of rt) == 3) ≡ false
          → Updated (some rt)

    settled-Updated :
        (now : D) (o : Option (RuntimeState D × Option (RuntimeState D) × Runtime D E L M))
        → Plans o
        → Updated (and_then o (λ r. some (settle math now r)))
    settled-Updated now none v = throws
    settled-Updated now (some r) (ends _ g rest) =
        updates _ (settle-Good now r g) (rw (state_of-settle now r) rest)

    -- A second handle_advance is made in the alternative Planning only.
    again-Updated : (rt : Runtime D E L M) → Good (state_of rt) rt → Updated (again math rt)
    unfolding dispatch handle_advance plan_waypoint
    again-Updated rt g = by_state (state_of rt) refl
      where
        by_state : (s : RuntimeState D) → state_of rt ≡ s → Updated (again math rt)
        by_state RuntimeState.self_check e = rw e (updates rt g (rw e refl))
        by_state (RuntimeState.ready _) e = rw e (updates rt g (rw e refl))
        by_state (RuntimeState.active _ _) e = rw e (updates rt g (rw e refl))
        by_state (RuntimeState.planning w) e =
            rw e (
              settled-Updated _ _
                (planned-Plans w (math.solve w.problem w.flags) rt g.kept g.asked))

    advanced-Updated :
        (now : D) (r : RuntimeState D × Option (RuntimeState D) × Runtime D E L M)
        → Good (next_state r) r.2
        → Updated (again math (settle math now r))
    advanced-Updated now r g = again-Updated _ (settle-Good now r g)

    handle_advance-Plans :
        (w : Waypoint D) (rt : Runtime D E L M)
        → Good (RuntimeState.planning w) rt
        → Plans (handle_advance math (RuntimeState.planning w) rt)
    unfolding handle_advance plan_waypoint
    handle_advance-Plans w rt g = planned-Plans w (math.solve w.problem w.flags) rt g.kept g.asked

    twice-Updated :
        (now : D) (o : Option (RuntimeState D × Option (RuntimeState D) × Runtime D E L M))
        → Plans o
        → Updated (and_then (and_then o (λ r. some (settle math now r))) (again math))
    twice-Updated now none v = throws
    twice-Updated now (some r) (ends _ g rest) = advanced-Updated now r g

    -- From a runtime that follows a trajectory it has, and retains and was asked for none with a fatal flag, a turn
    -- throws, or it leaves such a runtime, in another alternative than Planning: a plan is made or refused in
    -- the turn that begins it.
    pub update-Updated :
        (now : D) (rt : Runtime D E L M) → Good (state_of rt) rt → Updated (update math now rt)
    unfolding update dispatch handle_advance
    update-Updated now rt g = by_state (state_of rt) refl
      where
        begun : Runtime D E L M
        begun = record rt { current_time_sec = now; outputs = [] }

        by_state :
            (s : RuntimeState D)
            → state_of rt ≡ s
            → Updated (and_then (dispatch math begun) (again math))
        by_state RuntimeState.self_check e = rw e (
            advanced-Updated now (enter_ready math RuntimeState.self_check begun)
              (enter_ready-Good begun g.kept g.asked))
        by_state (RuntimeState.ready gate) e = rw e (
            advanced-Updated now (advance_ready math gate rt.request begun)
              (advance_ready-Good gate rt.request begun refl g.kept g.asked))
        by_state (RuntimeState.active status publication) e = rw e (
            advanced-Updated now (advance_active math status publication rt.request begun)
              (advance_active-Good status publication rt.request begun refl g.kept g.asked))
        by_state (RuntimeState.planning w) e = rw e (
            twice-Updated now (handle_advance math (RuntimeState.planning w) begun) (
              handle_advance-Plans w begun
                (resting-Good (RuntimeState.planning w) begun refl g.kept g.asked)))
