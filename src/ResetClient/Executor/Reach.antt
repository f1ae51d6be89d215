-- ===== src/ResetClient/Executor/Reach.antt =====
-- Every executor that the operations of reset_executor.h reach, in any order and with any messages,
-- measurements and declarations.
pub mod Queue
use xgc2_ugv_controller.Base.{
  ℕ, ◌≡◌, refl, sym, ap, ◌∙◌, ◌≤◌, ◌<◌, Bool, true, false, not, none, some, ◌&&◌, ◌||◌, String,
  arith, if_cases, if◌then◌else◌, Bool-cases, inl, inr, ◌==◌, u32_max, leb, ◌-◌, ◌+◌, List, [], ◌∷◌,
  Option,
}
use xgc2_ugv_controller.Floating.{Double, lit, ◌≼◌, ◌≺◌, ◌⊖◌}
use xgc2_ugv_controller.ResetClient.Protocol.{Pose, VehicleSpec, Grant, Outcome, Reason}
use xgc2_ugv_controller.ResetClient.Executor.{
  Executor, ExecutorConfig, Authority, Permission, Progress, Run, Measurement, permission, active,
  set_permission, is_await_zero, is_await_brake,
}
use xgc2_ugv_controller.ResetClient.Executor.Session.{
  new_executor, request_authority, end, finish, abort, prepare, install, asks_again, set_spec,
  set_timeout, pending_results, finished,
}
use xgc2_ugv_controller.ResetClient.Executor.Observe.{
  observe, watch_clock, uncertify, fresh_pose, predates_zero, zero_since, on_zero_published,
  is_other_zero,
}
use xgc2_ugv_controller.ResetClient.Executor.Grants.{on_grant}
use xgc2_ugv_controller.ResetClient.Executor.Poll.{
  poll, poll_certify, poll_depart, depart, new_executing,
}
use xgc2_ugv_controller.ResetClient.Executor.Step.{step, step_authority, step_progress}
use xgc2_ugv_controller.ResetClient.Executor.Report.{mark_session_published, commit_result}
use xgc2_ugv_controller.ResetClient.Executor.Fields.{
  active-with_permission, active-with_progress_done,
}
use xgc2_ugv_controller.ResetClient.Executor.Invariant.{Inv, end-Inv, finish-Inv}
use xgc2_ugv_controller.ResetClient.Executor.Invariant.Grants.{on_grant-Inv}
use xgc2_ugv_controller.ResetClient.Executor.Invariant.Motion.{poll-Inv}
use xgc2_ugv_controller.ResetClient.Executor.Invariant.Stepping.{step-Inv}
use xgc2_ugv_controller.ResetClient.Executor.Invariant.Operations.{
  new_executor-Inv, same-Inv, observe-Inv, on_zero_published-Inv, abort-Inv, install-Inv,
  set_spec-Inv,
}
use xgc2_ugv_controller.ResetClient.Executor.Results.{IsLive, OneResult, goes_on, ends}
use xgc2_ugv_controller.ResetClient.Executor.Results.Stepping.{poll-IsLive, step-OneResult}
use xgc2_ugv_controller.ResetClient.Executor.Results.Slots.{
  Slots, same-Slots, idle-Slots, set_permission-Slots, request_authority-Slots, end-Slots,
  abort-Slots, finish-Slots, on_grant-Slots,
}

-- The calls that CONTROL and the ROS edge make.
pub data Call (D : Type 0) : Type 0 where
  observes polls steps publishes : Measurement D → Call D
  zero_published : D → ℕ → ℕ → Call D
  receives : Grant D → Measurement D → Call D
  -- a new Reset: `prepare`, and `install` in the same command turn
  resets : ℕ → Pose D → Bool → Measurement D → Call D
  aborts : Outcome → String → Measurement D → Call D
  finishes commits : Call D
  declares : VehicleSpec D → Call D
  sets_timeout : D → Call D

module _ {D : Type 0} ⦃f : Double D⦄ where
  abbrev pub install_prepared : Option (Run D) → Measurement D → Executor D → Executor D
  install_prepared none m e = e
  install_prepared (some r) m e = install r m e

  -- One call; the twist that a step returns does not change the executor further.
  unfoldable pub call : Call D → Executor D → Executor D
  call (observes m) e = observe m e
  call (polls m) e = poll m e
  call (steps m) e = (step m e).0
  call (publishes m) e = mark_session_published m e
  call (zero_published ros_now generation brake) e = on_zero_published ros_now generation brake e
  call (receives g m) e = on_grant g m e
  call (resets session target valid m) e = install_prepared (prepare session target valid m e) m e
  call (aborts o s m) e = abort o s m e
  call finishes e = finish e
  call commits e = commit_result e
  call (declares spec) e = set_spec spec e
  call (sets_timeout seconds) e = set_timeout seconds e

  unfoldable pub run_calls : List (Call D) → Executor D → Executor D
  run_calls [] e = e
  run_calls (c ∷ cs) e = run_calls cs (call c e)

  install_prepared-Inv :
      (o : Option (Run D)) (m : Measurement D) (e : Executor D)
      → Inv e
      → Inv (install_prepared o m e)
  install_prepared-Inv none m e v = v
  install_prepared-Inv (some r) m e v = install-Inv r m e

  pub mark_session_published-Inv :
      (m : Measurement D) (e : Executor D) → Inv e → Inv (mark_session_published m e)
  unfolding mark_session_published
  mark_session_published-Inv m e v =
      if_cases Inv (e.next_publication == u32_max) (λ _. same-Inv e _ refl refl refl refl v)
        (λ _. same-Inv e _ refl refl refl refl v)

  pub commit_result-Inv : (e : Executor D) → Inv e → Inv (commit_result e)
  unfolding commit_result
  commit_result-Inv e v =
      if_cases Inv e.previous_pending (λ _. same-Inv e _ refl refl refl refl v)
        (λ _. same-Inv e _ refl refl refl refl v)

  pub call-Inv : (c : Call D) (e : Executor D) → Inv e → Inv (call c e)
  unfolding call set_timeout
  call-Inv (observes m) e v = observe-Inv m e v
  call-Inv (polls m) e v = poll-Inv m e v
  call-Inv (steps m) e v = step-Inv m e v
  call-Inv (publishes m) e v = mark_session_published-Inv m e v
  call-Inv (zero_published t g b) e v = on_zero_published-Inv t g b e v
  call-Inv (receives g m) e v = on_grant-Inv g m e v
  call-Inv (resets s t valid m) e v = install_prepared-Inv _ m e v
  call-Inv (aborts o s m) e v = abort-Inv o s m e v
  call-Inv finishes e v = finish-Inv e v
  call-Inv commits e v = commit_result-Inv e v
  call-Inv (declares spec) e v = set_spec-Inv spec e v
  call-Inv (sets_timeout seconds) e v = same-Inv e _ refl refl refl refl v

  run_calls-keeps-Inv : (cs : List (Call D)) (e : Executor D) → Inv e → Inv (run_calls cs e)
  unfolding run_calls
  run_calls-keeps-Inv [] e v = v
  run_calls-keeps-Inv (c ∷ cs) e v = run_calls-keeps-Inv cs (call c e) (call-Inv c e v)

  -- After any calls from the start: the ids of the Brake, of the acknowledgement and of the latest
  -- decision are those that the permission stands for, a motion has a decision later than its Brake
  -- and stands on its route, and only a session under way has a motion.
  pub run_calls-Inv :
      (cfg : ExecutorConfig D) (cs : List (Call D)) → Inv (run_calls cs (new_executor cfg))
  run_calls-Inv cfg cs = run_calls-keeps-Inv cs (new_executor cfg) (new_executor-Inv cfg)
