-- ===== src/Unicycle/Requests/Handlers.antt =====
-- unicycle_ugv_controller.cpp: the numbers of solves in the handlers.
use xgc2_ugv_controller.Base.{
  ◌≡◌, ◌≢◌, refl, ap, true, false, not, ◌||◌, ◌==◌, Option, none, some, if_cases, arith,
}
use xgc2_ugv_controller.Floating.{Double, ◌≺◌}
use xgc2_ugv_controller.Clock.Gate.{new_gate}
use xgc2_ugv_controller.Mecanum.Controller.{Health}
use xgc2_ugv_controller.Unicycle.Types.{NmpcCompletion, ControlCommand}
use xgc2_ugv_controller.Unicycle.Controller.{
  Alternative, Controller, Custom1, SolveTicket, command_ready, is_flatness, set_command, Target,
}
use xgc2_ugv_controller.Unicycle.Handlers.{
  exit, exit_reset, enter, enter_reset, complete_solve, unused, use_command, handle_completion,
  is_usable,
}
use xgc2_ugv_controller.Unicycle.Requests.{IsCurrent, Sound}
use xgc2_ugv_controller.Unicycle.Requests.Ticks.{
  emit_zero-Sound, emit_command-Sound, AllSound, Latest, emit_reset_zero-Latest,
}

module _ {D M C : Type 0} ⦃f : Double D⦄ where
  pub exit-Latest :
      (h : Health) (s : Alternative D) (c : Controller D M C) → Sound s c → Latest (exit h s c).1
  unfolding exit exit_reset
  exit-Latest h (Alternative.self_check gate) c sound = sound.latest
  exit-Latest h (Alternative.ready gate) c sound = sound.latest
  exit-Latest h (Alternative.custom1 s) c sound = (emit_zero-Sound true s c sound).latest
  exit-Latest h (Alternative.reset gate) c sound = emit_reset_zero-Latest true gate _ sound.latest

  pub enter-Sound :
      (h : Health) (t : Target D) (c : Controller D M C)
      → Latest c
      → let r = enter h t c in Sound r.0 r.1
  unfolding enter enter_reset
  enter-Sound h Target.self_check c latest = record { current = tt; latest = latest }
  enter-Sound h Target.ready c latest = record { current = tt; latest = latest }
  enter-Sound h (Target.custom1 speed now) c latest = record { current = tt; latest = latest }
  enter-Sound h (Target.reset run) c latest = record {
    current = tt;
    latest = emit_reset_zero-Latest true new_gate _ latest;
  }

  unused-Sound :
      (s : Custom1 D) (c : Controller D M C)
      → Sound (Alternative.custom1 s) c
      → AllSound (unused s c)
  unfolding unused
  unused-Sound s c sound =
      if_cases AllSound (not (command_ready c)) (λ _. emit_zero-Sound false s c sound) (λ _. sound)

  use_command-Sound :
      (o : Option (ControlCommand D)) (s : Custom1 D) (c : Controller D M C)
      → Sound (Alternative.custom1 s) c
      → AllSound (use_command o s c)
  unfolding use_command set_command
  use_command-Sound none s c sound = unused-Sound s c sound
  use_command-Sound (some command) s c sound =
      if_cases AllSound (is_usable command c)
        (λ _.
          emit_command-Sound s (set_command command c)
            (record { current = sound.current; latest = sound.latest }))
        (λ _. unused-Sound s c sound)

  complete_solve-Sound :
      (o : Option (SolveTicket D)) (result : NmpcCompletion D) (s : Custom1 D)
      (c : Controller D M C)
      → Sound (Alternative.custom1 s) c
      → AllSound (complete_solve o result s c)
  unfolding complete_solve
  complete_solve-Sound none result s c sound = sound
  complete_solve-Sound (some t) result s c sound =
      let done : Sound (Alternative.custom1 (record s { in_flight = none })) c = record {
        current = tt;
        latest = sound.latest;
      } in
      if_cases AllSound
        (is_flatness c.config.tracking_strategy || not (result.sequence == t.sequence)) (λ _. sound)
        (λ _.
          if_cases AllSound (t.deadline ≺ c.current_time_sec) (λ _. done)
            (λ _. use_command-Sound result.command (record s { in_flight = none }) c done))

  pub handle_completion-Sound :
      (s : Alternative D) (result : NmpcCompletion D) (c : Controller D M C)
      → Sound s c
      → let r = handle_completion s result c in Sound r.0 r.1
  unfolding handle_completion
  handle_completion-Sound (Alternative.self_check gate) result c sound = sound
  handle_completion-Sound (Alternative.ready gate) result c sound = sound
  handle_completion-Sound (Alternative.custom1 s) result c sound =
      complete_solve-Sound s.in_flight result s c sound
  handle_completion-Sound (Alternative.reset gate) result c sound = sound

  complete_solve-stale :
      (o : Option (SolveTicket D)) (result : NmpcCompletion D) (s : Custom1 D)
      (c : Controller D M C)
      → IsCurrent c.request_sequence o
      → result.sequence ≢ c.request_sequence
      → complete_solve o result s c ≡ (s, c)
  unfolding complete_solve
  complete_solve-stale none result s c current stale = refl
  complete_solve-stale (some t) result s c current stale = ground (arith, current, stale)

  -- The completion of another solve than the last one that was requested changes nothing.
  pub handle_completion-stale :
      (s : Alternative D) (result : NmpcCompletion D) (c : Controller D M C)
      → Sound s c
      → result.sequence ≢ c.request_sequence
      → handle_completion s result c ≡ (s, c)
  unfolding handle_completion
  handle_completion-stale (Alternative.self_check gate) result c sound stale = refl
  handle_completion-stale (Alternative.ready gate) result c sound stale = refl
  handle_completion-stale (Alternative.custom1 s) result c sound stale =
      ap (λ (r : Custom1 D × Controller D M C). (Alternative.custom1 r.0, r.1))
        (complete_solve-stale s.in_flight result s c sound.current stale)
  handle_completion-stale (Alternative.reset gate) result c sound stale = refl
