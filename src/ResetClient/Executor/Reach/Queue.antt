-- ===== src/ResetClient/Executor/Reach/Queue.antt =====
-- The two result slots of reset_executor.h over any sequence of calls.
use xgc2_ugv_controller.Base.{
  ℕ, String, ◌≡◌, refl, ◌∙◌, Bool, true, false, not, ◌&&◌, ◌||◌, arith, if_cases, if◌then◌else◌,
  Bool-cases, inl, inr, ◌==◌, u32_max, leb, ◌-◌, ◌+◌, List, [], ◌∷◌, ◌++◌,
}
use xgc2_ugv_controller.Floating.{Double, ◌≺◌, ◌⊖◌, lit}
use xgc2_ugv_controller.ResetClient.Protocol.{VehicleSpec, Outcome, Reason, Pose}
use xgc2_ugv_controller.ResetClient.Executor.{
  Executor, ExecutorConfig, Authority, Permission, Run, Measurement, permission, active,
  set_permission, is_await_zero, is_await_brake, is_executing,
}
use xgc2_ugv_controller.ResetClient.Executor.Session.{
  new_executor, set_timeout, final_result, request_authority, count_generation, finish_as, retire,
  post_result, end, finish, prepare, install, asks_again, set_spec, pending_results,
}
use xgc2_ugv_controller.ResetClient.Executor.Observe.{
  observe, watch_clock, uncertify, fresh_pose, predates_zero, zero_since, on_zero_published,
  is_other_zero,
}
use xgc2_ugv_controller.ResetClient.Executor.Report.{mark_session_published, commit_result}
use xgc2_ugv_controller.ResetClient.Executor.Results.{pending, pending-end}
use xgc2_ugv_controller.ResetClient.Executor.Results.Slots.{
  Slots, same-Slots, idle-Slots, set_permission-Slots, request_authority-Slots, abort-Slots,
  finish-Slots, on_grant-Slots,
}
use xgc2_ugv_controller.ResetClient.Executor.Results.Running.{poll-Slots, step-Slots}
use xgc2_ugv_controller.ResetClient.Executor.Reach.{Call, call, run_calls, install_prepared}

module _ {D : Type 0} ⦃f : Double D⦄ where
  watch_clock-Slots : (m : Measurement D) (e : Executor D) → Slots e → Slots (watch_clock m e)
  unfolding watch_clock
  watch_clock-Slots m e s =
      let distrusted : Executor D =
        set_permission (uncertify (permission e)) (record e { clock_invalid = true }) in
      let backwards = e.have_ros_clock && (m.ros_now ≺ (e.last_ros_now ⊖ lit 1 9)) in
      same-Slots (if backwards then distrusted else e) _ (λ a. a) refl refl
        (if_cases Slots backwards
          (λ _.
            same-Slots (set_permission (uncertify (permission e)) e) distrusted (λ a. a) refl refl
              (set_permission-Slots _ e s))
          (λ _. s))

  observe-Slots : (m : Measurement D) (e : Executor D) → Slots e → Slots (observe m e)
  unfolding observe
  observe-Slots m e s =
      let watched = watch_clock m e in
      let w = watch_clock-Slots m e s in
      if_cases Slots (not (fresh_pose m watched)) (λ _. w)
        (λ _.
          if_cases Slots (is_await_zero (permission watched) || is_await_brake (permission watched))
            (λ _. same-Slots watched _ (λ a. a) refl refl w)
            (λ _.
              if_cases Slots (predates_zero _ m (zero_since (permission watched)))
                (λ _. same-Slots watched _ (λ a. a) refl refl w)
                (λ _. same-Slots watched _ (λ a. a) refl refl w)))

  on_zero_published-Slots :
      (ros_now : D) (generation brake : ℕ) (e : Executor D)
      → Slots e
      → Slots (on_zero_published ros_now generation brake e)
  unfolding on_zero_published
  on_zero_published-Slots ros_now generation brake e s =
      if_cases Slots (is_other_zero ros_now generation brake e) (λ _. s)
        (λ _.
          same-Slots (set_permission (Permission.await_stopped ros_now) e) _ (λ a. a) refl refl
            (set_permission-Slots _ e s))

  abbrev both : Executor D → Bool
  both e = e.previous_pending && e.result_pending

  both-request_authority :
      (terminal : Bool) (e : Executor D) → both (request_authority terminal e) ≡ both e
  unfolding request_authority count_generation
  both-request_authority terminal e = ground arith

  both-finish_as : (a : Authority D) (e : Executor D) → both (finish_as a e) ≡ both e
  unfolding finish_as retire
  both-finish_as (Authority.retirement h p) e = refl
  both-finish_as (Authority.run r) e = elim (Bool-cases (is_executing (permission e))) [
    | inl t ↦ rw (t, both-request_authority true e) refl
    | inr t ↦ rw t
  ]

  both-finish : (e : Executor D) → both (finish e) ≡ both e
  unfolding finish
  both-finish e = both-finish_as e.authority e

  both-end :
      (o : Outcome) (r : Reason) (t : String) (m : Measurement D) (e : Executor D)
      → active e ≡ true
      → both (end o r t m e) ≡ (if e.result_pending then true else e.previous_pending)
  unfolding end post_result
  both-end o r t m e a = rw (a, both-request_authority true _) (ground arith)

  -- `prepare` refuses a Reset whose result, with that of the session it replaces, would find no slot.
  prepared-both :
      (m : Measurement D) (e : Executor D)
      → leb 2 (pending_results e + (if active e then 1 else 0)) ≡ false
      → both (if active e then end Outcome.stopped Reason.none "replaced by a new Reset" m e else e)
        ≡ false
  unfolding pending_results
  prepared-both m e h = elim (Bool-cases (active e)) [
    | inl a ↦
        rw (a, both-end Outcome.stopped Reason.none "replaced by a new Reset" m e a) (ground arith)
    | inr a ↦ rw a (ground arith)
  ]

  install-Slots :
      (r : Run D) (m : Measurement D) (e : Executor D)
      → leb 2 (pending_results e + (if active e then 1 else 0)) ≡ false
      → Slots (install r m e)
  unfolding install
  install-Slots r m e h = record {
    one_free = λ _.
        both-request_authority false _
        ∙ both-finish
            (if active e then end Outcome.stopped Reason.none "replaced by a new Reset" m e else e)
        ∙ prepared-both m e h;
  }

  resets-Slots :
      (session : ℕ) (target : Pose D) (valid : Bool) (m : Measurement D) (e : Executor D)
      → Slots e
      → Slots (install_prepared (prepare session target valid m e) m e)
  unfolding prepare
  resets-Slots session target valid m e s =
      if_cases (λ o. Slots (install_prepared o m e))
        (e.protocol_fault
          || leb (u32_max - 2) e.generation
          || leb 2 (pending_results e + (if active e then 1 else 0)))
        (λ _. s) (λ t. install-Slots _ m e (ground arith))

  set_spec-Slots : (spec : VehicleSpec D) (e : Executor D) → Slots e → Slots (set_spec spec e)
  unfolding set_spec
  set_spec-Slots spec e s =
      if_cases Slots (asks_again spec e)
        (λ _.
          request_authority-Slots (not (active e)) _ (λ t. ground arith)
            (same-Slots e _ (λ a. a) refl refl s))
        (λ _. same-Slots e _ (λ a. a) refl refl s)

  mark_session_published-Slots :
      (m : Measurement D) (e : Executor D) → Slots e → Slots (mark_session_published m e)
  unfolding mark_session_published
  mark_session_published-Slots m e s =
      if_cases Slots (e.next_publication == u32_max) (λ _. same-Slots e _ (λ a. a) refl refl s)
        (λ _. same-Slots e _ (λ a. a) refl refl s)

  commit_result-Slots : (e : Executor D) → Slots e → Slots (commit_result e)
  unfolding commit_result
  commit_result-Slots e s =
      if_cases Slots e.previous_pending (λ _. record { one_free = λ _. refl })
        (λ t. record { one_free = λ _. ground arith })

  call-Slots : (c : Call D) (e : Executor D) → Slots e → Slots (call c e)
  unfolding call set_timeout
  call-Slots (Call.observes m) e s = observe-Slots m e s
  call-Slots (Call.polls m) e s = poll-Slots m e s
  call-Slots (Call.steps m) e s = step-Slots m e s
  call-Slots (Call.publishes m) e s = mark_session_published-Slots m e s
  call-Slots (Call.zero_published t g b) e s = on_zero_published-Slots t g b e s
  call-Slots (Call.receives g m) e s = on_grant-Slots g m e s
  call-Slots (Call.resets i t valid m) e s = resets-Slots i t valid m e s
  call-Slots (Call.aborts o t m) e s = abort-Slots o t m e s
  call-Slots Call.finishes e s = finish-Slots e s
  call-Slots Call.commits e s = commit_result-Slots e s
  call-Slots (Call.declares spec) e s = set_spec-Slots spec e s
  call-Slots (Call.sets_timeout seconds) e s = same-Slots e _ (λ a. a) refl refl s

  run_calls-keeps-Slots : (cs : List (Call D)) (e : Executor D) → Slots e → Slots (run_calls cs e)
  unfolding run_calls
  run_calls-keeps-Slots [] e s = s
  run_calls-keeps-Slots (c ∷ cs) e s = run_calls-keeps-Slots cs (call c e) (call-Slots c e s)

  -- After any calls from the start, an executor whose session is under way has a result slot free:
  -- the session's end never overwrites a result that was not taken.
  pub run_calls-Slots :
      (cfg : ExecutorConfig D) (cs : List (Call D)) → Slots (run_calls cs (new_executor cfg))
  unfolding new_executor
  run_calls-Slots cfg cs = run_calls-keeps-Slots cs (new_executor cfg) (idle-Slots _ refl)

  -- In every executor that calls reach, a session under way that is ended queues its one result behind
  -- the results that wait, all of which stay.
  pub pending-reached-end :
      (cfg : ExecutorConfig D) (cs : List (Call D)) (o : Outcome) (r : Reason) (t : String)
      (m : Measurement D)
      → active (run_calls cs (new_executor cfg)) ≡ true
      → pending (end o r t m (run_calls cs (new_executor cfg)))
        ≡ pending (run_calls cs (new_executor cfg))
          ++ final_result o r t m (run_calls cs (new_executor cfg)) ∷ []
  pending-reached-end cfg cs o r t m a =
      pending-end o r t m _ a ((run_calls-Slots cfg cs).one_free a)
