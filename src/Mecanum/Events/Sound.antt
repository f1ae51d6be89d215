-- ===== src/Mecanum/Events/Sound.antt =====
-- The calls of MecanumUgvController: the command of a controller that drives nothing, and its executor,
-- in every controller that they reach.
use xgc2_ugv_controller.Base.{
  ℕ, refl, String, List, [], ◌∷◌, Option, none, some, if_cases, and_then, Option-cases, inl, inr,
}
use xgc2_ugv_controller.Floating.{Double}
use xgc2_ugv_controller.StateMachine.{AdtMachine}
use xgc2_ugv_controller.ResetClient.Protocol.{Grant}
use xgc2_ugv_controller.ResetClient.Executor.Session.{new_executor, default_config}
use xgc2_ugv_controller.ResetClient.Executor.Reach.{mark_session_published-Inv, commit_result-Inv}
use xgc2_ugv_controller.ResetClient.Executor.Grants.{on_grant}
use xgc2_ugv_controller.ResetClient.Executor.Invariant.Grants.{on_grant-Inv}
use xgc2_ugv_controller.ResetClient.Executor.Invariant.Operations.{
  new_executor-Inv, on_zero_published-Inv,
}
use xgc2_ugv_controller.Mecanum.Types.{AngleMath, ControllerConfig, OperatorCommand, UgvState}
use xgc2_ugv_controller.Mecanum.Controller.{
  Controller, Alternative, health, apply_reset_spec, set_config, new_controller,
  requires_zero_command, reset_measurement,
}
use xgc2_ugv_controller.Mecanum.Turn.{
  turn, at_time, observe_inputs, on_reset_grant, notify_reset_zero_published,
  reset_session_published, reset_result_published, take_reset_result, status_published,
}
use xgc2_ugv_controller.Mecanum.Events.{Event, handle_event, handle_events}
use xgc2_ugv_controller.Mecanum.Handlers.Effects.{take_result-Inv, set_reset_spec-Inv}
use xgc2_ugv_controller.Mecanum.Events.Turns.{Sound, observed-Sound, turn_at-Sound}

module _ {D M : Type 0} ⦃f : Double D⦄ where
  module _ ⦃k : AdtMachine (Alternative D) D M⦄ where
    -- What an operation leaves, where it does not throw.
    pub data Leaves : Option (Controller D M) → Type 0 where
      throws : Leaves none
      leaves : {c : Controller D M} → Sound c → Leaves (some c)

    and_then-Leaves :
        {A : Type 0} (o : Option A) (next : A → Option (Controller D M))
        → ((a : A) → Leaves (next a))
        → Leaves (and_then o next)
    and_then-Leaves none next s = throws
    and_then-Leaves (some a) next s = s a

    set_config-Sound :
        (config : ControllerConfig D) (c : Controller D M) → Sound c → Sound (set_config config c)
    unfolding set_config apply_reset_spec
    set_config-Sound config c s = record {
      parked = s.parked;
      protocol = set_reset_spec-Inv (record c { config = config }) s.protocol;
    }

    next_Leaves :
        (o : Option (Controller D M)) (next : Controller D M → Option (Controller D M))
        → ((c : Controller D M) → Sound c → Leaves (next c))
        → Leaves o
        → Leaves (and_then o next)
    next_Leaves none next keeps v = throws
    next_Leaves (some c) next keeps (leaves v) = keeps c v

    on_reset_grant-Leaves :
        (g : Grant D) (c : Controller D M) → Sound c → Leaves (on_reset_grant g c)
    unfolding on_reset_grant
    on_reset_grant-Leaves g c s = and_then-Leaves (health c) _ (λ h. leaves (
        if_cases Sound (requires_zero_command (on_grant g (reset_measurement h c) c.executor))
          (λ _. record { parked = λ _. refl; protocol = on_grant-Inv g _ c.executor s.protocol })
          (λ _. record { parked = s.parked; protocol = on_grant-Inv g _ c.executor s.protocol })))

    notify_zero-Leaves :
        (now : D) (generation brake : ℕ) (c : Controller D M)
        → Sound c
        → Leaves (notify_reset_zero_published now generation brake c)
    unfolding notify_reset_zero_published
    notify_zero-Leaves now generation brake c s = and_then-Leaves (health c) _ (λ h. leaves (
        if_cases Sound (reset_measurement h c).external_command_zero
          (λ _. record {
            parked = s.parked;
            protocol = on_zero_published-Inv now generation brake c.executor s.protocol;
          })
          (λ _. s)))

    session_published-Leaves : (c : Controller D M) → Sound c → Leaves (reset_session_published c)
    unfolding reset_session_published
    session_published-Leaves c s = and_then-Leaves (health c) _ (λ h. leaves (record {
      parked = s.parked;
      protocol = mark_session_published-Inv (reset_measurement h c) c.executor s.protocol;
    }))

    module _ ⦃angle : AngleMath D⦄ where
      observe_inputs-Leaves :
          (now wall : D) (c : Controller D M) → Sound c → Leaves (observe_inputs now wall c)
      unfolding observe_inputs at_time
      observe_inputs-Leaves now wall c s =
          and_then-Leaves (health (at_time now wall c)) _
            (λ h. leaves (observed-Sound h _ (record { parked = s.parked; protocol = s.protocol })))

      turn-Leaves :
          (now wall : D) (i : Option OperatorCommand) (source : String) (c : Controller D M)
          → Sound c
          → Leaves (handle_event (Event.turns now wall i source) c)
      unfolding handle_event turn at_time
      turn-Leaves now wall i source c s = elim (Option-cases (health (at_time now wall c))) [
        | inl e ↦ rw e throws
        | inr (h, e) ↦ rw e (
            leaves (
              turn_at-Sound h i source _
                (observed-Sound h _ (record { parked = s.parked; protocol = s.protocol }))))
      ]

      handle_event-Leaves : (e : Event D) (c : Controller D M) → Sound c → Leaves (handle_event e c)
      unfolding handle_event reset_result_published take_reset_result status_published set_config
      handle_event-Leaves (Event.turns now wall i source) c s = turn-Leaves now wall i source c s
      handle_event-Leaves (Event.observes now wall) c s = observe_inputs-Leaves now wall c s
      handle_event-Leaves (Event.grants g) c s = on_reset_grant-Leaves g c s
      handle_event-Leaves (Event.zero_published now generation brake) c s =
          notify_zero-Leaves now generation brake c s
      handle_event-Leaves Event.publishes_session c s = session_published-Leaves c s
      handle_event-Leaves Event.publishes_result c s =
          leaves (record { parked = s.parked; protocol = commit_result-Inv c.executor s.protocol })
      handle_event-Leaves Event.takes_result c s =
          leaves (record { parked = s.parked; protocol = take_result-Inv c.executor s.protocol })
      handle_event-Leaves Event.publishes_status c s =
          leaves (record { parked = s.parked; protocol = s.protocol })
      handle_event-Leaves (Event.configures config) c s = leaves (set_config-Sound config c s)
      handle_event-Leaves (Event.targets target) c s =
          leaves (record { parked = s.parked; protocol = s.protocol })
      handle_event-Leaves (Event.refers reference) c s =
          leaves (record { parked = s.parked; protocol = s.protocol })
      handle_event-Leaves (Event.phases phase) c s =
          leaves (record { parked = s.parked; protocol = s.protocol })
      handle_event-Leaves (Event.wall_phases phase external) c s =
          leaves (record { parked = s.parked; protocol = s.protocol })
      handle_event-Leaves (Event.senses state) c s =
          leaves (record { parked = s.parked; protocol = s.protocol })

      handle_events-keeps-Leaves :
          (es : List (Event D)) (c : Controller D M) → Sound c → Leaves (handle_events es c)
      unfolding handle_events
      handle_events-keeps-Leaves [] c s = leaves s
      handle_events-keeps-Leaves (e ∷ es) c s =
          next_Leaves (handle_event e c) (handle_events es) (handle_events-keeps-Leaves es)
            (handle_event-Leaves e c s)

      -- After any calls from the start but `setCommand`, which only the controller's own handlers make, and
      -- of which none throws: a controller in SelfCheck or Ready has
      -- no command, and its executor keeps the protocol of a Reset session.
      pub handle_events-Leaves :
          (seed : ℕ) (nan : D) (state : UgvState D) (es : List (Event D))
          → Leaves (handle_events es (new_controller seed nan state))
      unfolding new_controller apply_reset_spec
      handle_events-Leaves seed nan state es =
          handle_events-keeps-Leaves es (new_controller seed nan state) (record {
            parked = λ _. refl;
            protocol =
                set_reset_spec-Inv {M = M}
                  (record (new_controller seed nan state) {
                    executor = new_executor default_config;
                  })
                  (new_executor-Inv default_config);
          })
