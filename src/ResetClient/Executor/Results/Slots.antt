-- ===== src/ResetClient/Executor/Results/Slots.antt =====
-- The two result slots of reset_executor.h, call by call.
use xgc2_ugv_controller.Base.{
  ◌≡◌, refl, sym, ap, ◌∙◌, Bool, true, false, not, ◌&&◌, ◌||◌, String, arith, if_cases, Bool-cases,
  inl, inr, ◌==◌, u32_max,
}
use xgc2_ugv_controller.Floating.{Double}
use xgc2_ugv_controller.ResetClient.Protocol.{Grant, GrantState, Outcome, Reason}
use xgc2_ugv_controller.ResetClient.Executor.{
  Executor, Authority, Permission, Measurement, permission, active, set_permission,
  authority_active, is_executing, is_await_brake, is_await_go,
}
use xgc2_ugv_controller.ResetClient.Executor.Session.{
  count_generation, request_authority, end, retire, finish_as, finish, abort,
}
use xgc2_ugv_controller.ResetClient.Executor.Grants.{
  ignored, outdated, admissible, accept, heard, apply_brake, apply_go, apply_hold, apply_reject,
  apply_grant, on_grant, go_permission,
}
use xgc2_ugv_controller.ResetClient.Executor.Fields.{
  active-with_permission, active-with_progress_done,
}

module _ {D : Type 0} ⦃f : Double D⦄ where
  pub record Slots (e : Executor D) : Type 0 where
    pub one_free : active e ≡ true → (e.previous_pending && e.result_pending) ≡ false

  -- What activates no session and posts nothing keeps the slots.
  pub same-Slots :
      (e u : Executor D)
      → (active u ≡ true → active e ≡ true)
      → u.previous_pending ≡ e.previous_pending
      → u.result_pending ≡ e.result_pending
      → Slots e
      → Slots u
  same-Slots e u a p r s = record { one_free = λ act. rw (p, r) (s.one_free (a act)) }

  pub idle-Slots : (e : Executor D) → active e ≡ false → Slots e
  idle-Slots e idle = record { one_free = λ a. cc }

  pub set_permission-Slots :
      (p : Permission D) (e : Executor D) → Slots e → Slots (set_permission p e)
  set_permission-Slots p e =
      same-Slots e (set_permission p e) (λ a. sym (active-with_permission p e.authority) ∙ a) refl
        refl

  count_generation-Slots : (e : Executor D) → Slots e → Slots (count_generation e)
  unfolding count_generation
  count_generation-Slots e s =
      if_cases Slots (e.generation == u32_max) (λ _. same-Slots e _ (λ a. a) refl refl s)
        (λ _. same-Slots e _ (λ a. a) refl refl s)

  authority-count_generation : (e : Executor D) → (count_generation e).authority ≡ e.authority
  unfolding count_generation
  authority-count_generation e = elim (Bool-cases (e.generation == u32_max)) [
    | inl t ↦ rw t
    | inr t ↦ rw t
  ]

  active-request_authority : (e : Executor D) → active (request_authority true e) ≡ active e
  unfolding request_authority
  active-request_authority e =
      ap authority_active (authority-count_generation _)
      ∙ active-with_permission Permission.await_brake e.authority

  -- `requestAuthority(false)` is made for a session that is under way.
  pub request_authority-Slots :
      (terminal : Bool) (e : Executor D)
      → (terminal ≡ false → active e ≡ true)
      → Slots e
      → Slots (request_authority terminal e)
  unfolding request_authority
  request_authority-Slots terminal e live s =
      let braked : Executor D = record (set_permission Permission.await_brake e) {
        brake_id = 0;
        acknowledged_id = 0;
      } in
      let counted = count_generation-Slots braked (
        same-Slots (set_permission Permission.await_brake e) braked (λ a. a) refl refl
          (set_permission-Slots Permission.await_brake e s)) in
      if_cases Slots terminal (λ _. counted)
        (λ t.
          same-Slots (count_generation braked) _
            (λ _.
              ap authority_active (authority-count_generation braked)
              ∙ active-with_permission Permission.await_brake e.authority
              ∙ live t)
            refl refl counted)

  -- A session that has ended is over.
  pub end-Slots :
      (o : Outcome) (r : Reason) (t : String) (m : Measurement D) (e : Executor D)
      → Slots e
      → Slots (end o r t m e)
  unfolding end
  end-Slots o r t m e s =
      if_cases Slots (active e)
        (λ _. idle-Slots _ (active-request_authority _ ∙ active-with_progress_done false _))
        (λ _. s)

  pub abort-Slots :
      (o : Outcome) (t : String) (m : Measurement D) (e : Executor D)
      → Slots e
      → Slots (abort o t m e)
  unfolding abort
  abort-Slots o t m e s = if_cases Slots (active e) (λ _. end-Slots o Reason.none t m e s) (λ _. s)

  finish_as-Slots : (a : Authority D) (e : Executor D) → Slots e → Slots (finish_as a e)
  unfolding finish_as retire
  finish_as-Slots (Authority.retirement h p) e s = s
  finish_as-Slots (Authority.run r) e s = idle-Slots _ refl

  pub finish-Slots : (e : Executor D) → Slots e → Slots (finish e)
  unfolding finish
  finish-Slots e s = finish_as-Slots e.authority e s

  heard-active :
      (g : Grant D) (m : Measurement D) (a : Authority D)
      → authority_active (heard g m a) ≡ authority_active a
  heard-active g m (Authority.retirement h p) = refl
  heard-active g m (Authority.run r) = refl

  accept-Slots : (g : Grant D) (m : Measurement D) (e : Executor D) → Slots e → Slots (accept g m e)
  unfolding accept
  accept-Slots g m e s = same-Slots e _ (λ a. sym (heard-active g m e.authority) ∙ a) refl refl s

  apply_brake-Slots : (g : Grant D) (e : Executor D) → Slots e → Slots (apply_brake g e)
  unfolding apply_brake
  apply_brake-Slots g e s =
      if_cases Slots (is_await_brake (permission e))
        (λ _.
          same-Slots (set_permission Permission.await_zero e) _ (λ a. a) refl refl
            (set_permission-Slots Permission.await_zero e s))
        (λ _.
          if_cases Slots (g.grant_id == e.brake_id) (λ _. s)
            (λ _. request_authority-Slots (not (active e)) e (λ t. ground arith) s))

  apply_go-Slots :
      (g : Grant D) (m : Measurement D) (e : Executor D) → Slots e → Slots (apply_go g m e)
  unfolding apply_go
  apply_go-Slots g m e s =
      let granted = set_permission-Slots (go_permission g m.wall_now (permission e)) e s in
      if_cases Slots (is_executing (permission e))
        (λ _.
          same-Slots (set_permission (go_permission g m.wall_now (permission e)) e) _ (λ a. a) refl
            refl granted)
        (λ _. granted)

  apply_hold-Slots : (g : Grant D) (e : Executor D) → Slots e → Slots (apply_hold g e)
  unfolding apply_hold
  apply_hold-Slots g e s =
      if_cases Slots (not (active e) && is_await_go (permission e))
        (λ _.
          same-Slots (set_permission Permission.complete e) _ (λ a. a) refl refl
            (set_permission-Slots Permission.complete e s))
        (λ _. s)

  apply_reject-Slots :
      (g : Grant D) (m : Measurement D) (e : Executor D) → Slots e → Slots (apply_reject g m e)
  unfolding apply_reject
  apply_reject-Slots g m e s = if_cases Slots (active e) (λ _. end-Slots _ _ _ m e s) (λ _. s)

  apply_grant-Slots :
      (t : GrantState) (g : Grant D) (m : Measurement D) (e : Executor D)
      → Slots e
      → Slots (apply_grant t g m e)
  unfolding apply_grant
  apply_grant-Slots GrantState.brake g m e s = apply_brake-Slots g e s
  apply_grant-Slots GrantState.go g m e s = apply_go-Slots g m e s
  apply_grant-Slots GrantState.hold g m e s = apply_hold-Slots g e s
  apply_grant-Slots GrantState.reject g m e s = apply_reject-Slots g m e s

  pub on_grant-Slots :
      (g : Grant D) (m : Measurement D) (e : Executor D) → Slots e → Slots (on_grant g m e)
  unfolding on_grant
  on_grant-Slots g m e s =
      if_cases Slots (ignored g e || outdated g e || not (admissible g e)) (λ _. s)
        (λ _. apply_grant-Slots g.state g m (accept g m e) (accept-Slots g m e s))
