-- ===== src/ResetClient/Executor/Invariant/Operations.antt =====
-- The protocol invariant in the other operations of reset_executor.h: measuring, the published zero, a
-- new session, its end from outside, and a new declaration.
use xgc2_ugv_controller.Base.{
  ℕ, ◌≡◌, refl, sym, ◌∙◌, true, false, not, ◌&&◌, ◌||◌, String, arith, if_cases, if◌then◌else◌,
}
use xgc2_ugv_controller.Floating.{Double, lit, ◌⊖◌, ◌≺◌}
use xgc2_ugv_controller.ResetClient.Protocol.{VehicleSpec, Outcome, Reason}
use xgc2_ugv_controller.ResetClient.Executor.{
  Executor, ExecutorConfig, Permission, Run, Measurement, permission, active, is_executing,
  is_await_zero, is_await_brake, set_permission,
}
use xgc2_ugv_controller.ResetClient.Executor.Session.{
  new_executor, abort, install, asks_again, set_spec,
}
use xgc2_ugv_controller.ResetClient.Executor.Observe.{
  observe, on_zero_published, is_other_zero, uncertify, watch_clock, fresh_pose, predates_zero,
  zero_since,
}
use xgc2_ugv_controller.ResetClient.Executor.Invariant.{
  Consistent, Inv, with_permission-IsAuthorized, request_authority-Inv, end-Inv,
}

module _ {D : Type 0} ⦃f : Double D⦄ where
  pub new_executor-Inv : (cfg : ExecutorConfig D) → Inv (new_executor cfg)
  unfolding new_executor
  new_executor-Inv cfg = ground arith

  -- The invariant reads four fields, so what leaves these alone keeps it.
  pub same-Inv :
      (e u : Executor D)
      → u.authority ≡ e.authority
      → u.brake_id ≡ e.brake_id
      → u.acknowledged_id ≡ e.acknowledged_id
      → u.last_decision_id ≡ e.last_decision_id
      → Inv e
      → Inv u
  same-Inv e u a b k l v = record { authorized = rw (a, b, k, l) v.authorized }

  uncertify-Consistent :
      (p : Permission D) (brake ack last : ℕ)
      → Consistent p brake ack last
      → Consistent (uncertify p) brake ack last
  unfolding uncertify
  uncertify-Consistent (Permission.await_go zero b d) brake ack last c = c
  uncertify-Consistent _ brake ack last c = c

  uncertify-executing : (p : Permission D) → is_executing (uncertify p) ≡ is_executing p
  unfolding uncertify
  uncertify-executing (Permission.await_go zero b d) = refl
  uncertify-executing _ = refl

  watch_clock-Inv : (m : Measurement D) (e : Executor D) → Inv e → Inv (watch_clock m e)
  unfolding watch_clock
  watch_clock-Inv m e v =
      let distrusted : Executor D =
        set_permission (uncertify (permission e)) (record e { clock_invalid = true }) in
      let keeps =
        with_permission-IsAuthorized (uncertify (permission e)) e.authority
          (uncertify-Consistent (permission e) _ _ _ v.authorized.consistent)
          (λ x. v.authorized.motion_active (sym (uncertify-executing (permission e)) ∙ x)) in
      let backwards = e.have_ros_clock && (m.ros_now ≺ (e.last_ros_now ⊖ lit 1 9)) in
      same-Inv (if backwards then distrusted else e) _ refl refl refl refl
        (if_cases Inv backwards (λ _. record { authorized = keeps }) (λ _. v))

  -- Measuring changes no id and no permission but a running certificate.
  pub observe-Inv : (m : Measurement D) (e : Executor D) → Inv e → Inv (observe m e)
  unfolding observe
  observe-Inv m e v =
      let watched = watch_clock m e in
      let w = watch_clock-Inv m e v in
      if_cases Inv (not (fresh_pose m watched)) (λ _. w)
        (λ _.
          if_cases Inv (is_await_zero (permission watched) || is_await_brake (permission watched))
            (λ _. same-Inv watched _ refl refl refl refl w)
            (λ _.
              if_cases Inv (predates_zero _ m (zero_since (permission watched)))
                (λ _. same-Inv watched _ refl refl refl refl w)
                (λ _. same-Inv watched _ refl refl refl refl w)))

  stopped-Consistent :
      (p : Permission D) (zero : D) (brake ack last : ℕ)
      → is_await_zero p ≡ true
      → Consistent p brake ack last
      → Consistent (Permission.await_stopped zero) brake ack last
  stopped-Consistent Permission.await_zero zero brake ack last a c = c
  stopped-Consistent _ zero brake ack last a c = cc

  awaited_zero :
      (ros_now : D) (generation brake : ℕ) (e : Executor D)
      → is_other_zero ros_now generation brake e ≡ false
      → is_await_zero (permission e) ≡ true
  unfolding is_other_zero
  awaited_zero ros_now generation brake e h = ground arith

  pub on_zero_published-Inv :
      (ros_now : D) (generation brake : ℕ) (e : Executor D)
      → Inv e
      → Inv (on_zero_published ros_now generation brake e)
  unfolding on_zero_published
  on_zero_published-Inv ros_now generation brake e v =
      if_cases Inv (is_other_zero ros_now generation brake e) (λ _. v)
        (λ h. record {
          authorized =
              with_permission-IsAuthorized (Permission.await_stopped ros_now) e.authority
                (stopped-Consistent (permission e) ros_now _ _ _ (awaited_zero _ _ _ e h)
                  v.authorized.consistent)
                (λ x. cc);
        })

  pub abort-Inv :
      (o : Outcome) (s : String) (m : Measurement D) (e : Executor D) → Inv e → Inv (abort o s m e)
  unfolding abort
  abort-Inv o s m e v = if_cases Inv (active e) (λ _. end-Inv o Reason.none s m e v) (λ _. v)

  -- A Run is installed with a request, whatever was there before.
  pub install-Inv : (r : Run D) (m : Measurement D) (e : Executor D) → Inv (install r m e)
  unfolding install
  install-Inv r m e = request_authority-Inv false _

  pub set_spec-Inv : (spec : VehicleSpec D) (e : Executor D) → Inv e → Inv (set_spec spec e)
  unfolding set_spec
  set_spec-Inv spec e v =
      if_cases Inv (asks_again spec e) (λ _. request_authority-Inv (not (active e)) _)
        (λ _. same-Inv e _ refl refl refl refl v)
