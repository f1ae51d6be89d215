-- ===== src/ResetClient/Executor/Invariant/Grants.antt =====
-- The protocol invariant and the coordinator's messages (`onGrant`).
use xgc2_ugv_controller.Base.{
  ℕ, ◌≤◌, ◌<◌, ◌≡◌, refl, true, false, none, some, arith, if_cases, if◌then◌else◌, ap, sym, ◌∙◌,
  ◌⊎◌, inl, inr, not, ◌&&◌, ◌||◌, ◌==◌,
}
use xgc2_ugv_controller.Floating.{Double}
use xgc2_ugv_controller.ResetClient.Protocol.{Grant, GrantState}
use xgc2_ugv_controller.ResetClient.Executor.{
  Executor, Authority, Permission, Measurement, permission, authority_permission, active,
  is_executing, is_await_go, is_await_brake,
}
use xgc2_ugv_controller.ResetClient.Executor.Grants.{
  ignored, outdated, admissible, admissible_as, heard, accept, apply_brake, go_permission, apply_go,
  apply_hold, apply_reject, apply_grant, on_grant,
}
use xgc2_ugv_controller.ResetClient.Executor.Invariant.{
  Consistent, IsAuthorized, Inv, with_permission-IsAuthorized, request_authority-Inv, end-Inv,
}

module _ {D : Type 0} ⦃f : Double D⦄ where
  -- What the tests of a grant that is taken say of its id.
  ignored-grant_id : (g : Grant D) (e : Executor D) → ignored g e ≡ false → 0 < g.grant_id
  unfolding ignored
  ignored-grant_id g e h = ground arith

  outdated-grant_id :
      (g : Grant D) (e : Executor D) → outdated g e ≡ false → e.last_decision_id ≤ g.grant_id
  unfolding outdated
  outdated-grant_id g e h = ground arith

  Consistent-later :
      (p : Permission D) (brake ack : ℕ) {last later : ℕ}
      → last ≤ later
      → Consistent p brake ack last
      → Consistent p brake ack later
  Consistent-later Permission.none brake ack h c = c
  Consistent-later Permission.await_brake brake ack h c = c
  Consistent-later Permission.await_zero brake ack h c = omega arith
  Consistent-later (Permission.await_stopped _) brake ack h c = omega arith
  Consistent-later (Permission.await_go _ _ none) brake ack h c = ground arith
  Consistent-later (Permission.await_go _ _ (some go)) brake ack h c = ground arith
  Consistent-later (Permission.executing x) brake ack h c = ground arith
  Consistent-later Permission.complete brake ack h c = omega arith

  -- Hearing a message changes neither the permission nor the activity.
  heard-IsAuthorized :
      (g : Grant D) (m : Measurement D) (a : Authority D) {brake ack last : ℕ}
      → IsAuthorized a brake ack last
      → IsAuthorized (heard g m a) brake ack last
  heard-IsAuthorized g m (Authority.retirement h p) v = v
  heard-IsAuthorized g m (Authority.run r) v = record {
    consistent = v.consistent;
    motion_active = v.motion_active;
  }

  permission-heard :
      (g : Grant D) (m : Measurement D) (a : Authority D)
      → authority_permission (heard g m a) ≡ authority_permission a
  permission-heard g m (Authority.retirement h p) = refl
  permission-heard g m (Authority.run r) = refl

  permission-heard-waits :
      (g : Grant D) (m : Measurement D) (e : Executor D)
      → is_await_go (authority_permission (heard g m e.authority)) ≡ is_await_go (permission e)
  permission-heard-waits g m e = ap is_await_go (permission-heard g m e.authority)

  accept-Inv :
      (g : Grant D) (m : Measurement D) (e : Executor D)
      → e.last_decision_id ≤ g.grant_id
      → Inv e
      → Inv (accept g m e)
  unfolding accept
  accept-Inv g m e h v = record {
    authorized = heard-IsAuthorized g m e.authority (record {
      consistent = Consistent-later (permission e) _ _ h v.authorized.consistent;
      motion_active = v.authorized.motion_active;
    });
  }

  module _ (g : Grant D) (m : Measurement D) (e : Executor D) (v : Inv e)
      (latest : e.last_decision_id ≡ g.grant_id) (named : 0 < g.grant_id) where
    apply_brake-Inv : Inv (apply_brake g e)
    unfolding apply_brake
    apply_brake-Inv =
        if_cases Inv (is_await_brake (permission e))
          (λ _. record {
            authorized =
                with_permission-IsAuthorized Permission.await_zero e.authority
                  (named, refl, omega arith) (λ x. cc);
          })
          (λ _.
            if_cases Inv (g.grant_id == e.brake_id) (λ _. v)
              (λ _. request_authority-Inv (not (active e)) e))

    apply_reject-Inv : Inv (apply_reject g m e)
    unfolding apply_reject
    apply_reject-Inv = if_cases Inv (active e) (λ _. end-Inv _ _ _ m e v) (λ _. v)

    complete-Consistent :
        (p : Permission D)
        → is_await_go p ≡ true
        → e.brake_id < g.grant_id
        → Consistent p e.brake_id e.acknowledged_id e.last_decision_id
        → Consistent {D = D} Permission.complete e.brake_id g.grant_id e.last_decision_id
    complete-Consistent (Permission.await_go _ _ _) a later c = (c.0, later, omega arith)
    complete-Consistent _ a later c = cc

    apply_hold-Inv :
        (is_await_go (permission e) ≡ true → e.brake_id < g.grant_id) → Inv (apply_hold g e)
    unfolding apply_hold
    apply_hold-Inv later =
        if_cases Inv (not (active e) && is_await_go (permission e))
          (λ t.
            let waits : is_await_go (permission e) ≡ true = ground arith in
            record {
              authorized =
                  with_permission-IsAuthorized Permission.complete e.authority
                    (complete-Consistent (permission e) waits (later waits) v.authorized.consistent)
                    (λ x. cc);
            })
          (λ _. v)

    go-Consistent :
        (p : Permission D) (ack : ℕ)
        → (is_await_go p ≡ true → e.brake_id < g.grant_id)
        → ack ≡ (if is_executing p then g.grant_id else e.acknowledged_id)
        → Consistent p e.brake_id e.acknowledged_id e.last_decision_id
        → Consistent (go_permission g m.wall_now p) e.brake_id ack e.last_decision_id
    go-Consistent Permission.none ack later same c = rw same c
    go-Consistent Permission.await_brake ack later same c = rw same c
    go-Consistent Permission.await_zero ack later same c = rw same c
    go-Consistent (Permission.await_stopped _) ack later same c = rw same c
    go-Consistent (Permission.await_go _ _ _) ack later same c =
        (c.0, same ∙ c.1, c.2, (later refl, omega arith))
    go-Consistent (Permission.executing x) ack later same c =
        (c.0, same, omega arith, omega arith, c.4)
    go-Consistent Permission.complete ack later same c = rw same c

    executing-go_permission :
        (p : Permission D) → is_executing (go_permission g m.wall_now p) ≡ is_executing p
    executing-go_permission (Permission.executing x) = refl
    executing-go_permission (Permission.await_go _ _ _) = refl
    executing-go_permission _ = refl

    apply_go-Inv :
        (is_await_go (permission e) ≡ true → e.brake_id < g.grant_id) → Inv (apply_go g m e)
    unfolding apply_go
    apply_go-Inv later =
        let p = permission e in
        let moves = λ (x : is_executing (go_permission g m.wall_now p) ≡ true).
          v.authorized.motion_active (sym (executing-go_permission p) ∙ x) in
        if_cases Inv (is_executing p)
          (λ x. record {
            authorized =
                with_permission-IsAuthorized _ e.authority
                  (go-Consistent p g.grant_id later (rw x) v.authorized.consistent) moves;
          })
          (λ x. record {
            authorized =
                with_permission-IsAuthorized _ e.authority
                  (go-Consistent p e.acknowledged_id later (rw x) v.authorized.consistent) moves;
          })

  -- A Go or a Hold that is taken after the stop was decided after the Brake.
  admissible-later :
      (s : GrantState) (g : Grant D) (e : Executor D)
      → admissible_as s g e ≡ true
      → (s ≡ GrantState.go) ⊎ (s ≡ GrantState.hold)
      → is_await_go (permission e) ≡ true
      → e.brake_id < g.grant_id
  admissible-later GrantState.go g e h k a = ground arith
  admissible-later GrantState.hold g e h k a = ground arith
  admissible-later GrantState.brake g e h k a = ground arith
  admissible-later GrantState.reject g e h k a = ground arith

  apply_grant-Inv :
      (s : GrantState) (g : Grant D) (m : Measurement D) (e : Executor D)
      → Inv e
      → e.last_decision_id ≡ g.grant_id
      → 0 < g.grant_id
      → ((s ≡ GrantState.go) ⊎ (s ≡ GrantState.hold)
          → is_await_go (permission e) ≡ true
          → e.brake_id < g.grant_id)
      → Inv (apply_grant s g m e)
  unfolding apply_grant
  apply_grant-Inv GrantState.go g m e v latest named later =
      apply_go-Inv g m e v latest named (later (inl refl))
  apply_grant-Inv GrantState.hold g m e v latest named later =
      apply_hold-Inv g m e v latest named (later (inr refl))
  apply_grant-Inv GrantState.brake g m e v latest named later = apply_brake-Inv g m e v latest named
  apply_grant-Inv GrantState.reject g m e v latest named later =
      apply_reject-Inv g m e v latest named

  -- Whatever the coordinator sends, in whatever order, the ids and the permission stay consistent.
  pub on_grant-Inv :
      (g : Grant D) (m : Measurement D) (e : Executor D) → Inv e → Inv (on_grant g m e)
  unfolding on_grant
  on_grant-Inv g m e v =
      if_cases Inv (ignored g e || outdated g e || not (admissible g e)) (λ _. v)
        (λ h.
          let heeded : ignored g e ≡ false = ground arith in
          let current : outdated g e ≡ false = ground arith in
          let fits : admissible g e ≡ true = ground arith in
          apply_grant-Inv g.state g m (accept g m e)
            (accept-Inv g m e (outdated-grant_id g e current) v) (unfold accept in refl)
            (ignored-grant_id g e heeded)
            (unfold accept admissible in
              λ s a. admissible-later g.state g e fits s (sym (permission-heard-waits g m e) ∙ a)))
