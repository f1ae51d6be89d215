-- ===== src/Unicycle/Requests/Turns.antt =====
-- unicycle_ugv_controller.cpp: the numbers of solves in a turn.
use xgc2_ugv_controller.Base.{
  ◌≡◌, refl, sym, subst, Bool, not, ◌&&◌, ◌||◌, String, List, [], ◌∷◌, Option, none, some, if_cases,
}
use xgc2_ugv_controller.Floating.{Double}
use xgc2_ugv_controller.StateMachine.{AdtMachine}
use xgc2_ugv_controller.ResetClient.Executor.{permission, active}
use xgc2_ugv_controller.ResetClient.Executor.Session.{permission_pending}
use xgc2_ugv_controller.Mecanum.Types.{OperatorCommand, CommandOutcome}
use xgc2_ugv_controller.Mecanum.Controller.{Health}
use xgc2_ugv_controller.Mecanum.Turn.{is_custom1}
use xgc2_ugv_controller.Unicycle.Types.{NmpcCompletion}
use xgc2_ugv_controller.Unicycle.Controller.{
  Alternative, Change, Controller, ReferenceSource, Target,
}
use xgc2_ugv_controller.Unicycle.Handlers.{exit, enter}
use xgc2_ugv_controller.Unicycle.Tick.{tick}
use xgc2_ugv_controller.Unicycle.Turn.{
  apply_change, auto_start, change_to, dispatch_completion, dispatch_completions, dispatch_tick,
  note_admission, take_command, take_completions, take_finished, take_health, turn_at,
}
use xgc2_ugv_controller.Unicycle.Requests.{HasCurrent, Sound}
use xgc2_ugv_controller.Unicycle.Requests.Handlers.{
  enter-Sound, exit-Latest, handle_completion-Sound,
}
use xgc2_ugv_controller.Unicycle.Requests.Ticks.{tick-Sound}

module _ {D M C : Type 0} ⦃f : Double D⦄ ⦃k : AdtMachine (Alternative D) D M⦄ where
  abbrev pub IsSound : Controller D M C → Type 0
  IsSound c = Sound (k.state c.machine) c

  -- A controller that is given a sound alternative.
  pub placed :
      (s : Alternative D) (c : Controller D M C) (m : M)
      → k.state m ≡ s
      → Sound s c
      → IsSound (record c { machine = m })
  placed s c m holds sound = record {
    current = subst (HasCurrent c.request_sequence) (sym holds) sound.current;
    latest = sound.latest;
  }

  change_to-IsSound :
      (h : Health) (t : Target D) (c : Controller D M C) → IsSound c → IsSound (change_to h t c)
  unfolding change_to
  change_to-IsSound h t c sound =
      let left = exit h (k.state c.machine) c in
      let begun = record (left.1) { machine = k.put left.0 c.machine } in
      placed _ (enter h t begun).1 _ (k.state-apply _ _ _)
        (enter-Sound h t begun (exit-Latest h (k.state c.machine) c sound))

  apply_change-IsSound :
      (h : Health) (change : Change D) (c : Controller D M C)
      → IsSound c
      → IsSound (apply_change h change c).0
  unfolding apply_change
  apply_change-IsSound h Change.stay c sound = sound
  apply_change-IsSound h (Change.enter t) c sound = change_to-IsSound h t c sound

  take_command-IsSound :
      (h : Health) (i : Option OperatorCommand) (health_changed : Bool) (c : Controller D M C)
      → IsSound c
      → IsSound (take_command h i health_changed c).0
  unfolding take_command
  take_command-IsSound h none health_changed c sound = sound
  take_command-IsSound h (some op) health_changed c sound =
      if_cases (λ (r : Controller D M C × CommandOutcome × Bool). IsSound r.0)
        (is_custom1 op && (permission_pending (permission c.executor) || active c.executor))
        (λ _. sound) (λ _. apply_change-IsSound h _ c sound)

  take_health-IsSound :
      (h : Health) (health_changed : Bool) (r : Controller D M C × Bool)
      → IsSound r.0
      → IsSound (take_health h health_changed r).0
  unfolding take_health
  take_health-IsSound h health_changed (c, changed) sound =
      if_cases (λ (r : Controller D M C × Bool). IsSound r.0) (not changed && health_changed)
        (λ _. apply_change-IsSound h _ c sound) (λ _. sound)

  take_finished-IsSound :
      (h : Health) (finished : Bool) (r : Controller D M C × Bool)
      → IsSound r.0
      → IsSound (take_finished h finished r).0
  unfolding take_finished
  take_finished-IsSound h finished (c, changed) sound =
      if_cases (λ (r : Controller D M C × Bool). IsSound r.0) (not changed && finished)
        (λ _. change_to-IsSound h Target.ready c sound) (λ _. sound)

  dispatch_completions-IsSound :
      (results : List (NmpcCompletion D)) (c : Controller D M C)
      → IsSound c
      → IsSound (dispatch_completions results c)
  unfolding dispatch_completions dispatch_completion
  dispatch_completions-IsSound [] c sound = sound
  dispatch_completions-IsSound (result ∷ results) c sound =
      dispatch_completions-IsSound results _ (
        placed _ _ _ (k.state-put _ _) (handle_completion-Sound (k.state c.machine) result c sound))

  take_completions-IsSound :
      (r : Controller D M C × Bool) → IsSound r.0 → IsSound (take_completions r)
  unfolding take_completions
  take_completions-IsSound (c, changed) sound =
      if_cases IsSound (not changed) (λ _. dispatch_completions-IsSound c.completions c sound)
        (λ _. sound)

  note_admission-IsSound :
      (h : Health) (i : Option OperatorCommand) (o : CommandOutcome) (topic : String)
      (c : Controller D M C)
      → IsSound c
      → IsSound (note_admission h i o topic c)
  unfolding note_admission
  note_admission-IsSound h (some OperatorCommand.reset) o topic c sound = record {
    current = sound.current;
    latest = sound.latest;
  }
  note_admission-IsSound h (some OperatorCommand.custom1) o topic c sound = sound
  note_admission-IsSound h (some OperatorCommand.stop) o topic c sound = sound
  note_admission-IsSound h (some OperatorCommand.unknown) o topic c sound = sound
  note_admission-IsSound h none o topic c sound = sound

  pub turn_at-IsSound :
      ⦃source : ReferenceSource C⦄
      → (h : Health) (given : Option OperatorCommand) (topic : String) (c : Controller D M C)
      → IsSound c
      → IsSound (turn_at h given topic c).0
  unfolding turn_at dispatch_tick
  turn_at-IsSound h given topic c sound =
      let input = auto_start h c given in
      let begun = record c {
        outputs = [];
        completions = c.completion_inbox;
        completion_inbox = [];
        last_health_ready = h.ready;
      } in
      let ticked =
        placed _ (tick h (k.state c.machine) begun).1 _ (k.state-put _ _)
          (tick-Sound h (k.state c.machine) begun sound.current refl) in
      note_admission-IsSound h input _ topic _ (
        take_completions-IsSound _ (
          take_finished-IsSound h _ _
            (take_health-IsSound h _ _ (take_command-IsSound h input _ _ ticked))))
