-- ===== src/Reference/Runtime/Operations.antt =====
-- ReferenceTrajectoryRuntime: any sequence of its operations.
use xgc2_ugv_controller.Base.{
  ℕ, Bool, true, false, List, [], ◌∷◌, Option, none, some, ◌≡◌, refl, arith, Bool-cases,
  Option-cases, inl, inr, and_then,
}
use xgc2_ugv_controller.Floating.{Double, lit}
use xgc2_ugv_controller.StateMachine.{AdtMachine}
use xgc2_ugv_controller.Reference.Types.{
  AnalyticReference, SampledReference, WaypointReferenceRequest, WaypointProblem, TrajectoryMath,
  or_32,
}
use xgc2_ugv_controller.Reference.Build.{build_analytic, build_sampled, build_waypoint}
use xgc2_ugv_controller.Reference.Build.{is_fatal, validated}
use xgc2_ugv_controller.Reference.Runtime.{
  ReferenceTrajectoryConfig, Request, RuntimeState, Runtime,
}
use xgc2_ugv_controller.Reference.Runtime.Update.{start_time, state_of, update}
use xgc2_ugv_controller.Reference.Runtime.Accept.{
  new_runtime, reset_runtime, configure, accept_request, analytic_request, sampled_request,
  accept_analytic, accept_sampled, accept_waypoint,
}
use xgc2_ugv_controller.Reference.Build.{build_analytic, build_sampled, sampled_result}
use xgc2_ugv_controller.Reference.Runtime.Accept.{waypoint_result}
use xgc2_ugv_controller.Reference.Runtime.Laws.{
  sane_request, Good, Updated, updates, update-Updated,
}

-- The calls that the owner makes, each with its time.
pub data Operation (D L : Type 0) : Type 0 where
  updates_at : D → Operation D L
  analytic_at : AnalyticReference D → D → Operation D L
  sampled_at : SampledReference D → D → Operation D L
  waypoint_at : WaypointReferenceRequest D → D → Operation D L
  configures : ReferenceTrajectoryConfig D L → Operation D L
  resets : Operation D L

module _ {D E L : Type 0} ⦃f : Double D⦄ (math : TrajectoryMath D E L) where
  -- An evaluator that was built has no fatal flag.
  data Built : Option E × ℕ → Type 0 where
    refused : (flags : ℕ) → Built (none, flags)
    built : (e : E) (flags : ℕ) → is_fatal math flags ≡ false → Built (some e, flags)

  validated-Built :
      (e : E) (limits : L) (dt : D) (flags : ℕ) → Built (validated math e limits dt flags)
  unfolding validated
  validated-Built e limits dt flags =
      elim (Bool-cases (is_fatal math (or_32 flags (math.validate e limits dt)))) [
        | inl t ↦ rw t (refused _)
        | inr t ↦ rw t (built e _ t)
      ]

  build_analytic-Built :
      (limits : L) (dt : D) (msg : AnalyticReference D) → Built (build_analytic math limits dt msg)
  unfolding build_analytic
  build_analytic-Built limits dt msg = validated-Built _ limits dt msg.flags

  sampled_result-Built :
      (limits : L) (dt : D) (flags : ℕ) (o : Option E)
      → Built (sampled_result math limits dt flags o)
  sampled_result-Built limits dt flags none = refused _
  sampled_result-Built limits dt flags (some e) = validated-Built e limits dt flags

  build_sampled-Built :
      (limits : L) (dt : D) (msg : SampledReference D) → Built (build_sampled math limits dt msg)
  unfolding build_sampled
  build_sampled-Built limits dt msg = sampled_result-Built limits dt msg.flags _

  -- What is asked for, where the time does not throw, has no fatal flag.
  data Asks : Option (Request D E) → Type 0 where
    asks_nothing : Asks none
    asks : (q : Request D E) → sane_request math q ≡ true → Asks (some q)

module _ {D E L M : Type 0} ⦃f : Double D⦄ (math : TrajectoryMath D E L) where
  abbrev kept_runtime : Runtime D E L M × Bool → Option (Runtime D E L M)
  kept_runtime r = some r.0

  analytic_request-Asks :
      (msg : AnalyticReference D) (e : E) (flags : ℕ) (rt : Runtime D E L M)
      → is_fatal math flags ≡ false
      → Asks math (analytic_request math msg e flags rt)
  unfolding analytic_request
  analytic_request-Asks msg e flags rt fine = elim (Option-cases (start_time msg.start_time rt)) [
    | inl n ↦ rw n asks_nothing
    | inr (t, s) ↦ rw s (asks _ (rw fine refl))
  ]

  sampled_request-Asks :
      (msg : SampledReference D) (e : E) (flags : ℕ) (rt : Runtime D E L M)
      → is_fatal math flags ≡ false
      → Asks math (sampled_request math msg e flags rt)
  unfolding sampled_request
  sampled_request-Asks msg e flags rt fine = elim (Option-cases (start_time msg.start_time rt)) [
    | inl n ↦ rw n asks_nothing
    | inr (t, s) ↦ rw s (asks _ (rw fine refl))
  ]

  module _ ⦃k : AdtMachine (RuntimeState D) D M⦄ where
    -- One call; `none` where it throws.
    unfoldable pub operate : Operation D L → Runtime D E L M → Option (Runtime D E L M)
    operate (Operation.updates_at now) rt = update math now rt
    operate (Operation.analytic_at msg now) rt =
        and_then (accept_analytic math msg now rt) kept_runtime
    operate (Operation.sampled_at msg now) rt =
        and_then (accept_sampled math msg now rt) kept_runtime
    operate (Operation.waypoint_at msg now) rt = some (accept_waypoint math msg now rt).0
    operate (Operation.configures config) rt = some (configure config rt)
    operate Operation.resets rt = some (reset_runtime rt)

    unfoldable pub operate_all : List (Operation D L) → Runtime D E L M → Option (Runtime D E L M)
    operate_all [] rt = some rt
    operate_all (o ∷ os) rt = and_then (operate o rt) (operate_all os)

    -- What calls leave, where none throws.
    pub data Leaves : Option (Runtime D E L M) → Type 0 where
      throws : Leaves none
      leaves : (rt : Runtime D E L M) → Good math (state_of rt) rt → Leaves (some rt)

    request-Good :
        (rt : Runtime D E L M) (q : Request D E)
        → Good math (state_of rt) rt
        → sane_request math q ≡ true
        → Good math (state_of rt) (record rt { request = q })
    request-Good rt q g sane = record { follows = g.follows; kept = g.kept; asked = sane }

    accept_request-Leaves :
        {A : Type 0} (make : A → E → ℕ → Runtime D E L M → Option (Request D E)) (msg : A)
        (b : Option E × ℕ) (rt : Runtime D E L M)
        → ((e : E) (flags : ℕ) → is_fatal math flags ≡ false → Asks math (make msg e flags rt))
        → Built math b
        → Good math (state_of rt) rt
        → Leaves (and_then (accept_request make msg b rt) kept_runtime)
    unfolding accept_request
    accept_request-Leaves make msg (none, flags) rt asking v g =
        leaves _ (record { follows = g.follows; kept = g.kept; asked = g.asked })
    accept_request-Leaves make msg (some e, flags) rt asking (built _ _ fine) g =
        made (make msg e flags rt) (asking e flags fine)
      where
        made :
            (o : Option (Request D E))
            → Asks math o
            → Leaves
                (and_then (and_then o (λ q. some (record rt { request = q }, true))) kept_runtime)
        made none v = throws
        made (some q) (asks _ sane) = leaves _ (request-Good rt q g sane)

    waypoint_result-Good :
        (msg : WaypointReferenceRequest D) (b : Option (WaypointProblem D) × ℕ)
        (rt : Runtime D E L M)
        → Good math (state_of rt) rt
        → let r = waypoint_result math msg b rt in Good math (state_of r.0) r.0
    waypoint_result-Good msg (none, flags) rt g = record {
      follows = g.follows;
      kept = g.kept;
      asked = g.asked;
    }
    waypoint_result-Good msg (some p, flags) rt g = record {
      follows = g.follows;
      kept = g.kept;
      asked = refl;
    }

    reset_runtime-Good :
        (rt : Runtime D E L M) → Good math (state_of (reset_runtime rt)) (reset_runtime rt)
    unfolding reset_runtime
    reset_runtime-Good rt =
        rw (k.state-apply RuntimeState.self_check (lit 0 0) rt.machine)
          (record { follows = λ e. ground (arith, e); kept = refl; asked = refl })

    Updated-Leaves : (o : Option (Runtime D E L M)) → Updated math o → Leaves o
    Updated-Leaves none v = throws
    Updated-Leaves (some rt) (updates _ g _) = leaves rt g

    operate-Leaves :
        (o : Operation D L) (rt : Runtime D E L M)
        → Good math (state_of rt) rt
        → Leaves (operate o rt)
    unfolding operate accept_analytic accept_sampled accept_waypoint configure
    operate-Leaves (Operation.updates_at now) rt g = Updated-Leaves _ (update-Updated math now rt g)
    operate-Leaves (Operation.analytic_at msg now) rt g =
        accept_request-Leaves (analytic_request math) msg _ _
          (λ e flags fine. analytic_request-Asks msg e flags _ fine)
          (build_analytic-Built math _ _ msg)
          (record { follows = g.follows; kept = g.kept; asked = g.asked })
    operate-Leaves (Operation.sampled_at msg now) rt g =
        accept_request-Leaves (sampled_request math) msg _ _
          (λ e flags fine. sampled_request-Asks msg e flags _ fine)
          (build_sampled-Built math _ _ msg)
          (record { follows = g.follows; kept = g.kept; asked = g.asked })
    operate-Leaves (Operation.waypoint_at msg now) rt g = leaves _ (
        waypoint_result-Good msg (build_waypoint math rt.config.validation_sample_dt msg)
          (record rt { current_time_sec = now })
          (record { follows = g.follows; kept = g.kept; asked = g.asked }))
    operate-Leaves (Operation.configures config) rt g = leaves _ (reset_runtime-Good _)
    operate-Leaves Operation.resets rt g = leaves _ (reset_runtime-Good rt)

    next-Leaves :
        (o : Option (Runtime D E L M)) (next : Runtime D E L M → Option (Runtime D E L M))
        → ((rt : Runtime D E L M) → Good math (state_of rt) rt → Leaves (next rt))
        → Leaves o
        → Leaves (and_then o next)
    next-Leaves none next keeps v = throws
    next-Leaves (some rt) next keeps (leaves _ g) = keeps rt g

    operate_all-keeps-Leaves :
        (os : List (Operation D L)) (rt : Runtime D E L M)
        → Good math (state_of rt) rt
        → Leaves (operate_all os rt)
    unfolding operate_all
    operate_all-keeps-Leaves [] rt g = leaves rt g
    operate_all-keeps-Leaves (o ∷ os) rt g =
        next-Leaves (operate o rt) (operate_all os) (operate_all-keeps-Leaves os)
          (operate-Leaves o rt g)

    -- After any calls from the start, of which none throws, a runtime in the alternative Active has a trajectory, and no
    -- analytic or sampled trajectory that it retains or was asked for has a fatal flag.
    pub operate_all-Leaves :
        (limits : L) (os : List (Operation D L)) → Leaves (operate_all os (new_runtime limits))
    unfolding new_runtime
    operate_all-Leaves limits os = operate_all-keeps-Leaves os (new_runtime limits) (
        rw (k.state-start RuntimeState.self_check (lit 0 0))
          (record { follows = λ e. ground (arith, e); kept = refl; asked = refl }))
