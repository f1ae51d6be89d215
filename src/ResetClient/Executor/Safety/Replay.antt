-- ===== src/ResetClient/Executor/Safety/Replay.antt =====
-- reset_executor.h, `onGrant`: messages that the transport delivers again.
use xgc2_ugv_controller.Base.{
  ◌≡◌, refl, Bool, true, not, ◌&&◌, ◌||◌, arith, if_cases, Bool-cases, inl, inr, ◌==◌,
}
use xgc2_ugv_controller.Floating.{Double}
use xgc2_ugv_controller.ResetClient.Protocol.{Grant, GrantState, Outcome, Reason}
use xgc2_ugv_controller.ResetClient.Executor.{
  Executor, Measurement, permission, active, is_executing, is_await_brake, is_await_go,
}
use xgc2_ugv_controller.ResetClient.Executor.Session.{
  request_authority, count_generation, end, post_result,
}
use xgc2_ugv_controller.ResetClient.Executor.Grants.{
  ignored, outdated, admissible, accept, apply_brake, apply_go, apply_hold, apply_reject,
  apply_grant, on_grant,
}

module _ {D : Type 0} ⦃f : Double D⦄ (g : Grant D) where
  -- The message was the last to be taken.
  record Noted (u : Executor D) : Type 0 where
    have : u.have_publication ≡ true
    last : u.last_publication ≡ g.publication_seq

  request_authority-Noted :
      (terminal : Bool) (e : Executor D) → Noted e → Noted (request_authority terminal e)
  unfolding request_authority count_generation
  request_authority-Noted terminal e v = ground (arith, v.have, v.last)

  end-Noted :
      (o : Outcome) (r : Reason) (t : _) (m : Measurement D) (e : Executor D)
      → Noted e
      → Noted (end o r t m e)
  unfolding end post_result
  end-Noted o r t m e v =
      if_cases Noted (active e)
        (λ _. request_authority-Noted true _ (record { have = v.have; last = v.last })) (λ _. v)

  apply_brake-Noted : (e : Executor D) → Noted e → Noted (apply_brake g e)
  unfolding apply_brake
  apply_brake-Noted e v =
      if_cases Noted (is_await_brake (permission e)) (λ _. record { have = v.have; last = v.last })
        (λ _.
          if_cases Noted (g.grant_id == e.brake_id) (λ _. v)
            (λ _. request_authority-Noted (not (active e)) e v))

  apply_go-Noted : (m : Measurement D) (e : Executor D) → Noted e → Noted (apply_go g m e)
  unfolding apply_go
  apply_go-Noted m e v =
      if_cases Noted (is_executing (permission e)) (λ _. record { have = v.have; last = v.last })
        (λ _. record { have = v.have; last = v.last })

  apply_hold-Noted : (e : Executor D) → Noted e → Noted (apply_hold g e)
  unfolding apply_hold
  apply_hold-Noted e v =
      if_cases Noted (not (active e) && is_await_go (permission e))
        (λ _. record { have = v.have; last = v.last }) (λ _. v)

  apply_reject-Noted : (m : Measurement D) (e : Executor D) → Noted e → Noted (apply_reject g m e)
  unfolding apply_reject
  apply_reject-Noted m e v = if_cases Noted (active e) (λ _. end-Noted _ _ _ m e v) (λ _. v)

  apply_grant-Noted :
      (t : GrantState) (m : Measurement D) (e : Executor D) → Noted e → Noted (apply_grant t g m e)
  unfolding apply_grant
  apply_grant-Noted GrantState.brake m e v = apply_brake-Noted e v
  apply_grant-Noted GrantState.go m e v = apply_go-Noted m e v
  apply_grant-Noted GrantState.hold m e v = apply_hold-Noted e v
  apply_grant-Noted GrantState.reject m e v = apply_reject-Noted m e v

  accept-Noted : (m : Measurement D) (e : Executor D) → Noted (accept g m e)
  unfolding accept
  accept-Noted m e = record { have = refl; last = refl }

  Noted-ignored : (u : Executor D) → Noted u → ignored g u ≡ true
  unfolding ignored
  Noted-ignored u v = ground (arith, v.have, v.last)

  refused : (m : Measurement D) (e : Executor D) → ignored g e ≡ true → on_grant g m e ≡ e
  unfolding on_grant
  refused m e h = rw h refl

  -- A grant message that is delivered a second time changes nothing, at any later measurement and
  -- whatever the first delivery did.
  pub on_grant-on_grant :
      (m later : Measurement D) (e : Executor D)
      → on_grant g later (on_grant g m e) ≡ on_grant g m e
  unfolding on_grant
  on_grant-on_grant m later e =
      elim (Bool-cases (ignored g e || outdated g e || not (admissible g e))) [
        | inl t ↦ rw (t, t) refl
        | inr t ↦ rw t (
            refused later _
              (Noted-ignored _ (apply_grant-Noted g.state m (accept g m e) (accept-Noted m e))))
      ]
