-- ===== src/Unicycle/Events.antt =====
-- The calls that the owner of a UnicycleUgvController makes, in any order. The worker of the NMPC solver
-- posts its completions at any time between two calls.
use xgc2_ugv_controller.Base.{ℕ, ℤ, Bool, String, List, [], ◌∷◌, Option, some, and_then}
use xgc2_ugv_controller.Floating.{Double}
use xgc2_ugv_controller.StateMachine.{AdtMachine}
use xgc2_ugv_controller.ResetClient.Protocol.{Grant}
use xgc2_ugv_controller.Mecanum.Types.{AngleMath, ResetTarget, OperatorCommand, CommandOutcome}
use xgc2_ugv_controller.Unicycle.Types.{UgvState, WorldPvaReference, NmpcCompletion, ControlCommand}
use xgc2_ugv_controller.Unicycle.Config.{ControllerConfig}
use xgc2_ugv_controller.Unicycle.Controller.{
  Controller, Alternative, ReferenceSource, clear_command, post_completion, set_command, set_config,
}
use xgc2_ugv_controller.Unicycle.Turn.{turn, set_world_pva}
use xgc2_ugv_controller.Unicycle.Operations.{
  observe_inputs, on_reset_grant, notify_reset_zero_published, reset_session_published,
  reset_result_published, take_reset_result, status_published,
}

-- `senses` is a new value of the state that the controller refers to, `caches` what the reference cache
-- becomes.
pub data Event (D C : Type 0) : Type 0 where
  turns : D → D → Option OperatorCommand → String → Event D C
  observes : D → D → Event D C
  completes : NmpcCompletion D → Event D C
  grants : Grant D → Event D C
  zero_published : D → ℕ → ℕ → Event D C
  publishes_session publishes_result takes_result publishes_status clears : Event D C
  commands : ControlCommand D → Event D C
  configures : ControllerConfig D → Event D C
  targets : ResetTarget D → Event D C
  refers : WorldPvaReference D → Event D C
  phases : ℤ → Event D C
  wall_phases : ℤ → Bool → Event D C
  senses : UgvState D → Event D C
  caches : C → Event D C

module _ {D M C : Type 0} ⦃f : Double D⦄ ⦃k : AdtMachine (Alternative D) D M⦄
    ⦃source : ReferenceSource C⦄ ⦃angle : AngleMath D⦄ where
  abbrev pub turned : Controller D M C × CommandOutcome → Option (Controller D M C)
  turned r = some r.0

  -- One call; `none` where it throws.
  unfoldable pub handle_event : Event D C → Controller D M C → Option (Controller D M C)
  handle_event (Event.turns now wall input topic) c = and_then (turn now wall input topic c) turned
  handle_event (Event.observes now wall) c = observe_inputs now wall c
  handle_event (Event.completes result) c = some (post_completion result c)
  handle_event (Event.grants g) c = on_reset_grant g c
  handle_event (Event.zero_published now generation brake) c =
      notify_reset_zero_published now generation brake c
  handle_event Event.publishes_session c = reset_session_published c
  handle_event Event.publishes_result c = some (reset_result_published c)
  handle_event Event.takes_result c = some (take_reset_result c).0
  handle_event Event.publishes_status c = status_published c
  handle_event Event.clears c = some (clear_command c)
  handle_event (Event.commands command) c = some (set_command command c)
  handle_event (Event.configures config) c = some (set_config config c)
  handle_event (Event.targets target) c = some (record c { reset_target = target })
  handle_event (Event.refers reference) c = some (set_world_pva reference c)
  handle_event (Event.phases phase) c = some (record c { control_phase_ns = some phase })
  handle_event (Event.wall_phases phase external) c = some (record c {
    wall_control =
        some (record {
          phase_ns = phase;
          rate = c.config.control_rate_hz;
          external_domain = external;
        });
  })
  handle_event (Event.senses state) c = some (record c { state = state })
  handle_event (Event.caches cache) c = some (record c { reference_cache = cache })

  unfoldable pub handle_events : List (Event D C) → Controller D M C → Option (Controller D M C)
  handle_events [] c = some c
  handle_events (e ∷ es) c = and_then (handle_event e c) (λ next. handle_events es next)
