-- ===== src/Mecanum/Sessions/Turn.antt =====
-- mecanum_ugv_controller.cpp, `turn`: the session that a Reset command begins.
use xgc2_ugv_controller.Base.{
  ℕ, ◌+◌, ◌<◌, ◌≤◌, ◌≡◌, refl, sym, ap, ◌∙◌, subst, Bool, true, false, not, ◌&&◌, ◌||◌, u32,
  u32_max, String, [], Option, none, some, if_cases, if◌then◌else◌, arith, same_bool,
}
use xgc2_ugv_controller.Floating.{Double}
use xgc2_ugv_controller.StateMachine.{AdtMachine}
use xgc2_ugv_controller.ResetClient.Executor.{Run, active, permission, session_id}
use xgc2_ugv_controller.ResetClient.Executor.Session.{permission_pending}
use xgc2_ugv_controller.Mecanum.Types.{
  AngleMath, ControlMode, OperatorCommand, CommandOutcome, no_outcome, is_ok,
}
use xgc2_ugv_controller.Mecanum.Controller.{Controller, Alternative, Target, Change, Health, mode}
use xgc2_ugv_controller.Mecanum.Handlers.{handle_operator, handle_health}
use xgc2_ugv_controller.Mecanum.Turn.{
  change_to, apply_change, dispatch_tick, take_command, take_health, take_finished, note_admission,
  turn_at, auto_start, is_custom1,
}
use xgc2_ugv_controller.Mecanum.Modes.{mode-change_to}
use xgc2_ugv_controller.Mecanum.Modes.{mode-change_to}
use xgc2_ugv_controller.Mecanum.Sessions.{
  is_reset, enters_reset, Numbers, other, numbered, handle_operator-Numbers, counter-exit,
  counter-tick, counter-enter_other, counter-enter_reset, session_id-enter_reset,
}

module _ {D : Type 0} ⦃f : Double D⦄ where
  health_quiet : (s : Alternative D) (ready : Bool) → enters_reset (handle_health s ready) ≡ false
  unfolding handle_health
  health_quiet (Alternative.self_check _) true = refl
  health_quiet (Alternative.self_check _) false = refl
  health_quiet (Alternative.ready _) true = refl
  health_quiet (Alternative.ready _) false = refl
  health_quiet (Alternative.custom1 _ _) true = refl
  health_quiet (Alternative.custom1 _ _) false = refl
  health_quiet (Alternative.reset _) true = refl
  health_quiet (Alternative.reset _) false = refl

module _ {D M : Type 0} ⦃f : Double D⦄ ⦃k : AdtMachine (Alternative D) D M⦄ where
  -- What a part of a turn makes of the session counter `n`, for a command that was applied or not.
  pub data Numbered (n : ℕ) (applied : Bool) (c : Controller D M) : Type 0 where
    kept : c.reset_session_counter ≡ n → applied ≡ false → Numbered n applied c
    next :
        applied ≡ true
        → n < u32_max
        → c.reset_session_counter ≡ n + 1
        → session_id c.executor ≡ n + 1
        → mode c ≡ ControlMode.reset
        → Numbered n applied c

  counter-change_to :
      (h : Health) (t : Target D) (c : Controller D M)
      → enters_reset (Change.enter t) ≡ false
      → (change_to h t c).reset_session_counter ≡ c.reset_session_counter
  unfolding change_to
  counter-change_to h t c e = counter-enter_other h t _ e ∙ counter-exit h (k.state c.machine) c

  counter-apply_change :
      (h : Health) (t : Change D) (c : Controller D M)
      → enters_reset t ≡ false
      → (apply_change h t c).0.reset_session_counter ≡ c.reset_session_counter
  unfolding apply_change
  counter-apply_change h Change.stay c e = refl
  counter-apply_change h (Change.enter t) c e = counter-change_to h t c e

  change_to_reset-Numbered :
      (h : Health) (r : Run D) (c : Controller D M) (n : ℕ)
      → c.reset_session_counter ≡ n
      → n + 1 ≤ u32_max
      → r.header.session ≡ n + 1
      → Numbered n true (change_to h (Target.reset r) c)
  unfolding change_to
  change_to_reset-Numbered h r c n e room number =
      let exact : u32 (n + 1) ≡ n + 1 = ground (arith, room) in
      next refl (omega (arith, room))
        (counter-enter_reset h r _
          ∙ ap (λ x. u32 (x + 1)) (counter-exit h (k.state c.machine) c ∙ e)
          ∙ exact)
        (session_id-enter_reset h r _ ∙ number) (mode-change_to h (Target.reset r) c)

  -- The same, with whether the alternative has changed.
  data Stage (n : ℕ) (applied : Bool) : Controller D M × Bool → Type 0 where
    settled :
        (c : Controller D M) (changed : Bool)
        → c.reset_session_counter ≡ n
        → applied ≡ false
        → Stage n applied (c, changed)
    entered : (c : Controller D M) → Numbered n applied c → Stage n applied (c, true)

  apply_change-Stage :
      (h : Health) (i : Option OperatorCommand) (r : Change D × CommandOutcome) (c : Controller D M)
      (n : ℕ)
      → c.reset_session_counter ≡ n
      → Numbers (n + 1) i r
      → Stage n (is_reset i && is_ok r.1) (apply_change h r.0 c)
  unfolding apply_change
  apply_change-Stage h i (t, o) c n e (other _ _ quiet a) =
      settled _ _ (counter-apply_change h t c quiet ∙ e) a
  apply_change-Stage h i (Change.enter (Target.reset r), o) c n e (numbered _ _ number room a) =
      entered _ (rw a (change_to_reset-Numbered h r c n e room number))

  take_command-Stage :
      (h : Health) (i : Option OperatorCommand) (health_changed : Bool) (c : Controller D M) (n : ℕ)
      → c.reset_session_counter ≡ n
      → n ≤ u32_max
      → let r = take_command h i health_changed c in Stage n (is_reset i && is_ok r.1) (r.0, r.2)
  unfolding take_command
  take_command-Stage h none health_changed c n e le = settled _ _ e refl
  take_command-Stage h (some op) health_changed c n e le =
      if_cases
        (λ (r : Controller D M × CommandOutcome × Bool).
          Stage n (is_reset (some op) && is_ok r.1) (r.0, r.2))
        (is_custom1 op && (permission_pending (permission c.executor) || active c.executor))
        (λ _. settled _ _ e (ground arith))
        (λ _.
          let health = if health_changed then some h.ready else none in
          let r = handle_operator h (k.state c.machine) op health no_outcome c in
          apply_change-Stage h (some op) r c n e (
            subst (λ x. Numbers {D = D} (x + 1) (some op) r) e
              (handle_operator-Numbers h (k.state c.machine) op health c
                (subst (λ x. x ≤ u32_max) (sym e) le))))

  take_health-Stage :
      (h : Health) (health_changed : Bool) (n : ℕ) (a : Bool) (r : Controller D M × Bool)
      → Stage n a r
      → Stage n a (take_health h health_changed r)
  unfolding take_health
  take_health-Stage h health_changed n a (c, changed) (settled _ _ e no_reset) =
      if_cases (Stage n a) (not changed && health_changed)
        (λ _.
          settled _ _ (counter-apply_change h _ c (health_quiet (k.state c.machine) h.ready) ∙ e)
            no_reset)
        (λ _. settled c changed e no_reset)
  take_health-Stage h health_changed n a (c, true) (entered _ v) = entered c v

  take_finished-Numbered :
      (h : Health) (finished : Bool) (n : ℕ) (a : Bool) (r : Controller D M × Bool)
      → Stage n a r
      → Numbered n a (take_finished h finished r)
  unfolding take_finished
  take_finished-Numbered h finished n a (c, changed) (settled _ _ e no_reset) =
      if_cases (Numbered n a) (not changed && finished)
        (λ _. kept (counter-change_to h Target.ready c refl ∙ e) no_reset) (λ _. kept e no_reset)
  take_finished-Numbered h finished n a (c, true) (entered _ v) = v

  note_admission-Numbered :
      (h : Health) (i : Option OperatorCommand) (o : CommandOutcome) (source : String) (n : ℕ)
      (a : Bool) (c : Controller D M)
      → Numbered n a c
      → Numbered n a (note_admission h i o source c)
  unfolding note_admission
  note_admission-Numbered h (some OperatorCommand.reset) o source n a c (kept e r) = kept e r
  note_admission-Numbered h (some OperatorCommand.reset) o source n a c (next e r u s m) =
      next e r u s m
  note_admission-Numbered h (some OperatorCommand.custom1) o source n a c v = v
  note_admission-Numbered h (some OperatorCommand.stop) o source n a c v = v
  note_admission-Numbered h (some OperatorCommand.unknown) o source n a c v = v
  note_admission-Numbered h none o source n a c v = v

  -- A turn starts no Reset by itself.
  is_reset-auto_start :
      (h : Health) (c : Controller D M) (given : Option OperatorCommand)
      → is_reset (auto_start h c given) ≡ is_reset given
  unfolding auto_start
  is_reset-auto_start h c none = ground arith
  is_reset-auto_start h c (some op) = refl

  -- With a session counter of 32 bits, a turn after its inputs were observed leaves the counter, unless its
  -- command is a Reset that is applied; then the counter was not exhausted, is one higher, and is the
  -- number of the session that the controller is in, in mode Reset.
  pub turn_at-Numbered :
      ⦃angle : AngleMath D⦄
      → (h : Health) (given : Option OperatorCommand) (source : String) (c : Controller D M)
      → c.reset_session_counter ≤ u32_max
      → let r = turn_at h given source c in
        Numbered c.reset_session_counter (is_reset given && is_ok r.1) r.0
  unfolding turn_at dispatch_tick
  turn_at-Numbered h given source c le =
      let begun = record c { outputs = []; last_health_ready = h.ready } in
      let i = auto_start h c given in
      let health_changed = not (same_bool h.ready c.last_health_ready) in
      let ticked = dispatch_tick h begun in
      let taken = take_command h i health_changed ticked.0 in
      let n = c.reset_session_counter in
      let a = is_reset i && is_ok taken.1 in
      rw (sym (is_reset-auto_start h c given)) (
        note_admission-Numbered h i taken.1 source n a _ (
          take_finished-Numbered h ticked.1 n a _ (
            take_health-Stage h health_changed n a _ (
              take_command-Stage h i health_changed ticked.0 n
                (counter-tick h (k.state c.machine) begun) le))))
