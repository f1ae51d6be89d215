-- ===== src/Mecanum/Modes/Turn.antt =====
-- mecanum_ugv_controller.cpp, `turn`: the parts of a turn, and the move that they make together.
use xgc2_ugv_controller.Base.{
  ◌≡◌, refl, sym, ap, ◌∙◌, Bool, true, false, not, ◌&&◌, ◌||◌, String, Option, none, some, if_cases,
  same_bool, subst, [], Option-cases, inl, inr, arith,
}
use xgc2_ugv_controller.Floating.{Double}
use xgc2_ugv_controller.StateMachine.{AdtMachine}
use xgc2_ugv_controller.ResetClient.Executor.{permission, active}
use xgc2_ugv_controller.ResetClient.Executor.Session.{permission_pending}
use xgc2_ugv_controller.Mecanum.Types.{
  AngleMath, ControlMode, OperatorCommand, CommandOutcome, no_outcome, is_ok,
}
use xgc2_ugv_controller.Mecanum.Controller.{
  Controller, Alternative, Target, Change, Health, health, mode, mode_of,
}
use xgc2_ugv_controller.Mecanum.Handlers.{handle_health}
use xgc2_ugv_controller.Mecanum.Turn.{
  apply_change, dispatch_tick, take_command, take_health, take_finished, note_admission, turn_at,
  turn, auto_start, at_time, observed, is_custom1,
}
use xgc2_ugv_controller.Mecanum.Modes.{
  Move, Decided, stays, goes, Ticks, goes_on, ends, tick-Ticks, handle_operator-Decided,
  handle_health-Decided, mode-change_to,
}

module _ {D M : Type 0} ⦃f : Double D⦄ where
  module _ ⦃k : AdtMachine (Alternative D) D M⦄ where
    -- A part of a turn either keeps the mode, or has made the turn's one move.
    data Reaches (healthy : Bool) (i : Option OperatorCommand) (ok : Bool) (m : ControlMode)
        : Controller D M × Bool → Type 0 where
      unchanged : (c : Controller D M) → mode c ≡ m → ok ≡ false → Reaches healthy i ok m (c, false)
      changed :
          (c : Controller D M) → Move healthy i ok m (mode c) → Reaches healthy i ok m (c, true)

    apply_change-Reaches :
        (h : Health) (i : Option OperatorCommand) (m : ControlMode) (c : Controller D M)
        (r : Change D × CommandOutcome)
        → mode c ≡ m
        → Decided h.ready i m r
        → Reaches h.ready i (is_ok r.1) m (apply_change h r.0 c)
    unfolding apply_change
    apply_change-Reaches h i m c (Change.stay, o) e (stays _ n) = unchanged c e n
    apply_change-Reaches h i m c (Change.enter t, o) e (goes _ _ v) =
        changed _ (rw (mode-change_to h t c) v)

    take_command-Reaches :
        (h : Health) (i : Option OperatorCommand) (health_changed : Bool) (c : Controller D M)
        → let r = take_command h i health_changed c in
          Reaches h.ready i (is_ok r.1) (mode c) (r.0, r.2)
    unfolding take_command
    take_command-Reaches h none health_changed c = unchanged c refl refl
    take_command-Reaches h (some op) health_changed c =
        if_cases
          (λ (r : Controller D M × CommandOutcome × Bool).
            Reaches h.ready (some op) (is_ok r.1) (mode c) (r.0, r.2))
          (is_custom1 op && (permission_pending (permission c.executor) || active c.executor))
          (λ _. unchanged c refl refl)
          (λ _.
            apply_change-Reaches h (some op) (mode c) c _ refl
              (handle_operator-Decided h (k.state c.machine) op health_changed c))

    take_health-Reaches :
        (h : Health) (i : Option OperatorCommand) (ok : Bool) (m : ControlMode)
        (health_changed : Bool) (r : Controller D M × Bool)
        → Reaches h.ready i ok m r
        → Reaches h.ready i ok m (take_health h health_changed r)
    unfolding take_health
    take_health-Reaches h i ok m false (c, false) v = v
    take_health-Reaches h i ok m true (c, false) (unchanged _ e n) = rw n (
        apply_change-Reaches h i m c (handle_health (k.state c.machine) h.ready, no_outcome) e
          (rw (sym e) (handle_health-Decided (k.state c.machine) h.ready i)))
    take_health-Reaches h i ok m health_changed (c, true) v = v

    take_finished-Move :
        (h : Health) (i : Option OperatorCommand) (ok : Bool) (m : ControlMode) (finished : Bool)
        (r : Controller D M × Bool)
        → (finished ≡ true → m ≡ ControlMode.reset)
        → Reaches h.ready i ok m r
        → Move h.ready i ok m (mode (take_finished h finished r))
    unfolding take_finished
    take_finished-Move h i ok m false (c, false) fin (unchanged _ e n) = rw (n, e) (Move.rests i m)
    take_finished-Move h i ok m true (c, false) fin (unchanged _ e n) =
        rw (n, fin refl, mode-change_to h Target.ready c) (Move.finishes i)
    take_finished-Move h i ok m finished (c, true) fin (changed _ v) = v

    mode-note_admission :
        (h : Health) (i : Option OperatorCommand) (o : CommandOutcome) (source : String)
        (c : Controller D M)
        → mode (note_admission h i o source c) ≡ mode c
    unfolding note_admission
    mode-note_admission h (some OperatorCommand.reset) o source c = refl
    mode-note_admission h (some OperatorCommand.custom1) o source c = refl
    mode-note_admission h (some OperatorCommand.stop) o source c = refl
    mode-note_admission h (some OperatorCommand.unknown) o source c = refl
    mode-note_admission h none o source c = refl

    module _ ⦃angle : AngleMath D⦄ where
      pub mode-dispatch_tick :
          (h : Health) (c : Controller D M) → mode (dispatch_tick h c).0 ≡ mode c
      unfolding dispatch_tick
      mode-dispatch_tick h c =
          ap mode_of (k.state-put _ _) ∙ kept _ _ (tick-Ticks h (k.state c.machine) c)
        where
          kept :
              (m : ControlMode) (r : Alternative D × Controller D M × Bool)
              → Ticks m r
              → mode_of r.0 ≡ m
          kept m r (goes_on e _) = e
          kept m r (ends e _) = e

      finished-dispatch_tick :
          (h : Health) (c : Controller D M)
          → (dispatch_tick h c).1 ≡ true
          → mode c ≡ ControlMode.reset
      unfolding dispatch_tick
      finished-dispatch_tick h c fin = in_reset _ _ (tick-Ticks h (k.state c.machine) c) fin
        where
          in_reset :
              (m : ControlMode) (r : Alternative D × Controller D M × Bool)
              → Ticks m r
              → r.2 ≡ true
              → m ≡ ControlMode.reset
          in_reset m r (goes_on _ n) fin = ground (arith, n, fin)
          in_reset m r (ends _ e) fin = e

      pub turn_at-Move :
          (h : Health) (given : Option OperatorCommand) (source : String) (c : Controller D M)
          → let r = turn_at h given source c in
            Move h.ready (auto_start h c given) (is_ok r.1) (mode c) (mode r.0)
      unfolding turn_at
      turn_at-Move h given source c =
          let begun = record c { outputs = []; last_health_ready = h.ready } in
          let i = auto_start h c given in
          let health_changed = not (same_bool h.ready c.last_health_ready) in
          let ticked = dispatch_tick h begun in
          let taken = take_command h i health_changed ticked.0 in
          let commanded : Reaches h.ready i (is_ok taken.1) (mode c) (taken.0, taken.2) =
            subst (λ m. Reaches h.ready i (is_ok taken.1) m (taken.0, taken.2))
              (mode-dispatch_tick h begun) (take_command-Reaches h i health_changed ticked.0) in
          rw (mode-note_admission h i taken.1 source _) (
            take_finished-Move h i (is_ok taken.1) (mode c) ticked.1 _
              (finished-dispatch_tick h begun)
              (take_health-Reaches h i (is_ok taken.1) (mode c) health_changed _ commanded))

      -- A turn of the controller at some times: an exception, or a move of the abstract machine.
      pub data Moves (now wall : D) (given : Option OperatorCommand) (c : Controller D M)
          : Option (Controller D M × CommandOutcome) → Type 0 where
        throws : health (at_time now wall c) ≡ none → Moves now wall given c none
        moves :
            (h : Health) (r : Controller D M × CommandOutcome)
            → health (at_time now wall c) ≡ some h
            → Move h.ready
                (auto_start h (observed h (at_time now wall c)) given)
                (is_ok r.1)
                (mode c)
                (mode r.0)
            → Moves now wall given c (some r)

      -- The modes of the controller refine the abstract machine: a turn throws, where the arithmetic
      -- of times does, or it makes one move of the abstract machine, on the health that it computes
      -- and the command that it was given or starts by itself.
      pub turn-Moves :
          (now wall : D) (given : Option OperatorCommand) (source : String) (c : Controller D M)
          → Moves now wall given c (turn now wall given source c)
      unfolding turn observed at_time
      turn-Moves now wall given source c = elim (Option-cases (health (at_time now wall c))) [
        | inl e ↦ rw e (throws e)
        | inr (h, e) ↦
            rw e (moves h _ e (turn_at-Move h given source (observed h (at_time now wall c))))
      ]
