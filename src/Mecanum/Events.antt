-- ===== src/Mecanum/Events.antt =====
-- The calls that the owner of a MecanumUgvController makes, in any order. `setCommand` is public, but only
-- the handlers of the controller itself call it, in a turn.
pub mod Turns
pub mod Sound
use xgc2_ugv_controller.Base.{ℕ, ℤ, Bool, String, List, [], ◌∷◌, Option, none, some, and_then}
use xgc2_ugv_controller.Floating.{Double}
use xgc2_ugv_controller.StateMachine.{AdtMachine}
use xgc2_ugv_controller.ResetClient.Protocol.{Grant}
use xgc2_ugv_controller.Mecanum.Types.{
  AngleMath, ControllerConfig, UgvState, ResetTarget, WorldVelocityReference, OperatorCommand,
  CommandOutcome,
}
use xgc2_ugv_controller.Mecanum.Controller.{Controller, Alternative, set_config}
use xgc2_ugv_controller.Mecanum.Turn.{
  turn, observe_inputs, on_reset_grant, notify_reset_zero_published, reset_session_published,
  reset_result_published, take_reset_result, status_published,
}

-- `phases` is `setControlPhase`, `wall_phases` is `setWallControlPhase`, and `senses` is a new value of the state that the controller refers to.
pub data Event (D : Type 0) : Type 0 where
  turns : D → D → Option OperatorCommand → String → Event D
  observes : D → D → Event D
  grants : Grant D → Event D
  zero_published : D → ℕ → ℕ → Event D
  publishes_session publishes_result takes_result publishes_status : Event D
  configures : ControllerConfig D → Event D
  targets : ResetTarget D → Event D
  refers : WorldVelocityReference D → Event D
  phases : ℤ → Event D
  wall_phases : ℤ → Bool → Event D
  senses : UgvState D → Event D

module _ {D M : Type 0} ⦃f : Double D⦄ ⦃k : AdtMachine (Alternative D) D M⦄
    ⦃angle : AngleMath D⦄ where
  abbrev turned : Controller D M × CommandOutcome → Option (Controller D M)
  turned r = some r.0

  -- One call; `none` where it throws.
  unfoldable pub handle_event : Event D → Controller D M → Option (Controller D M)
  handle_event (Event.turns now wall input source) c =
      and_then (turn now wall input source c) turned
  handle_event (Event.observes now wall) c = observe_inputs now wall c
  handle_event (Event.grants g) c = on_reset_grant g c
  handle_event (Event.zero_published now generation brake) c =
      notify_reset_zero_published now generation brake c
  handle_event Event.publishes_session c = reset_session_published c
  handle_event Event.publishes_result c = some (reset_result_published c)
  handle_event Event.takes_result c = some (take_reset_result c).0
  handle_event Event.publishes_status c = some (status_published c)
  handle_event (Event.configures config) c = some (set_config config c)
  handle_event (Event.targets target) c = some (record c { reset_target = target })
  handle_event (Event.refers reference) c = some (record c { world_reference = reference })
  handle_event (Event.phases phase) c = some (record c { control_phase_ns = some phase })
  handle_event (Event.wall_phases phase external) c = some (record c {
    wall_control =
        some (record {
          phase_ns = phase;
          rate = c.config.control_rate_hz;
          external_domain = external;
        });
  })
  handle_event (Event.senses state) c = some (record c { state = state })

  unfoldable pub handle_events : List (Event D) → Controller D M → Option (Controller D M)
  handle_events [] c = some c
  handle_events (e ∷ es) c = and_then (handle_event e c) (λ next. handle_events es next)
