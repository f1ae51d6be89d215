-- ===== src/ResetClient/Executor/Safety/Deadline.antt =====
-- reset_executor.h, `step`: the vehicle's own deadline.
use xgc2_ugv_controller.Base.{
  ◌≡◌, refl, sym, ap, ◌∙◌, subst, true, false, not, some, ◌&&◌, [], ◌∷◌, ◌++◌, String, if_cases,
}
use xgc2_ugv_controller.Floating.{Double, ◌≼◌}
use xgc2_ugv_controller.ResetClient.Protocol.{Outcome, Reason, Result}
use xgc2_ugv_controller.ResetClient.Executor.{
  Executor, ExecutorConfig, Authority, Permission, Progress, Run, Measurement, StepOutput, active,
  session_id, set_permission, with_permission, with_progress, is_done,
}
use xgc2_ugv_controller.ResetClient.Executor.Session.{end, finished, final_result}
use xgc2_ugv_controller.ResetClient.Executor.Fields.{active-with_progress_done}
use xgc2_ugv_controller.ResetClient.Executor.Observe.{causal_stopped}
use xgc2_ugv_controller.ResetClient.Executor.Poll.{
  depart, poll_certify, poll_depart, poll, new_executing,
}
use xgc2_ugv_controller.ResetClient.Executor.Step.{
  step_active, step_progress, step_authority, step, is_overdue,
}
use xgc2_ugv_controller.ResetClient.Executor.Results.{IsLive, pending, pending-end}
use xgc2_ugv_controller.ResetClient.Executor.Results.Stepping.{poll-IsLive}

module _ {D : Type 0} ⦃f : Double D⦄ where
  -- The session of `start` has ended with one result of that outcome, and the end is reported.
  pub record EndsWith (o : Outcome) (start : Executor D) (r : Executor D × StepOutput D)
      : Type 0 where
    pub result : Result D
    pub has_outcome : result.outcome ≡ o
    pub of_session : result.session ≡ session_id start
    pub is_over : active r.0 ≡ false
    pub is_reported : r.1.ended ≡ true
    pub queued : pending r.0 ≡ pending start ++ result ∷ []

  ended-EndsWith :
      (o : Outcome) (reason : Reason) (detail : String) (m : Measurement D) (start e : Executor D)
      → IsLive start e
      → EndsWith o start (finished (end o reason detail m e))
  unfolding finished
  ended-EndsWith o reason detail m start e l = record {
    result = final_result o reason detail m e;
    has_outcome = unfold final_result in refl;
    of_session = unfold final_result in l.same_session;
    is_over = active-with_progress_done true _;
    is_reported = refl;
    queued =
        pending-end o reason detail m e l.is_active l.one_slot
        ∙ ap (λ q. q ++ final_result o reason detail m e ∷ []) l.same_pending;
  }

  -- `u` still has the Run of `e`: its deadlines, the configuration and the fault.
  record Runs (e : Executor D) (r : Run D) (u : Executor D) : Type 0 where
    now_run : Run D
    at_run : u.authority ≡ Authority.run now_run
    same_ros : now_run.enter_ros ≡ r.enter_ros
    same_wall : now_run.enter_wall ≡ r.enter_wall
    goes_on : is_done now_run.progress ≡ false
    same_cfg : u.cfg ≡ e.cfg
    same_fault : u.protocol_fault ≡ e.protocol_fault

  set_permission-Runs :
      (p : Permission D) (e : Executor D) (r : Run D) (u : Executor D)
      → Runs e r u
      → Runs e r (set_permission p u)
  set_permission-Runs p e r u v = record {
    now_run = record (v.now_run) { permission = p };
    at_run = ap (with_permission p) v.at_run;
    same_ros = v.same_ros;
    same_wall = v.same_wall;
    goes_on = v.goes_on;
    same_cfg = v.same_cfg;
    same_fault = v.same_fault;
  }

  depart-Runs :
      (m : Measurement D) (e : Executor D) (r : Run D) (u : Executor D) (p : Permission D)
      → Runs e r u
      → Runs e r (depart m u p)
  depart-Runs m e r u (Permission.await_go zero certified (some go)) v =
      let x = Permission.executing (new_executing go u.cfg.spec m) in
      let moving = set_permission-Runs x e r u v in
      if_cases (Runs e r)
        (certified
          && active u
          && not u.clock_invalid
          && causal_stopped m zero u
          && (m.wall_now ≼ go.deadline))
        (λ _. record {
          now_run = record (moving.now_run) { progress = Progress.waiting };
          at_run = ap (with_progress Progress.waiting) moving.at_run;
          same_ros = moving.same_ros;
          same_wall = moving.same_wall;
          goes_on = refl;
          same_cfg = moving.same_cfg;
          same_fault = moving.same_fault;
        })
        (λ _. v)
  depart-Runs m e r u _ v = v

  poll-Runs :
      (m : Measurement D) (e : Executor D) (r : Run D)
      → e.authority ≡ Authority.run r
      → is_done r.progress ≡ false
      → Runs e r (poll m e)
  unfolding poll poll_certify poll_depart
  poll-Runs m e r at goes =
      let here : Runs e r e = record {
        now_run = r;
        at_run = at;
        same_ros = refl;
        same_wall = refl;
        goes_on = goes;
        same_cfg = refl;
        same_fault = refl;
      } in
      if_cases (Runs e r) e.protocol_fault (λ _. set_permission-Runs _ e r e here)
        (λ _. depart-Runs m e r _ _ (set_permission-Runs _ e r e here))

  step_progress-active :
      (m : Measurement D) (r : Run D) (g : Progress) (e : Executor D)
      → is_done g ≡ false
      → step_progress m r g e ≡ step_active m r e
  unfolding step_progress
  step_progress-active m r (Progress.done b) e goes = cc
  step_progress-active m r Progress.requesting e goes = refl
  step_progress-active m r Progress.waiting e goes = refl
  step_progress-active m r Progress.moving e goes = refl
  step_progress-active m r Progress.settling e goes = refl

  overdue-EndsWith :
      (m : Measurement D) (start e : Executor D) (r : Run D)
      → IsLive start e
      → e.protocol_fault ≡ false
      → is_overdue e.cfg r m ≡ true
      → EndsWith Outcome.timeout start (step_active m r e)
  unfolding step_active
  overdue-EndsWith m start e r l fault late =
      if_cases (EndsWith Outcome.timeout start) e.protocol_fault (λ t. absurd cc)
        (λ _.
          if_cases (EndsWith Outcome.timeout start) (is_overdue e.cfg r m)
            (λ _. ended-EndsWith Outcome.timeout _ _ m start e l) (λ t. absurd cc))

  same-overdue :
      (m : Measurement D) (c d : ExecutorConfig D) (r s : Run D)
      → c ≡ d
      → s.enter_ros ≡ r.enter_ros
      → s.enter_wall ≡ r.enter_wall
      → is_overdue d r m ≡ is_overdue c s m
  unfolding is_overdue
  same-overdue m c d r s a b g = rw (a, b, g) refl

  -- A session under way that is past the vehicle's own deadline on either clock, with a result slot
  -- free and no counter fault, is ended by the next control period, whatever else holds: the end is
  -- reported, and one result of the session says timeout.
  pub step-EndsWith :
      (m : Measurement D) (e : Executor D) (r : Run D)
      → e.authority ≡ Authority.run r
      → is_done r.progress ≡ false
      → (e.previous_pending && e.result_pending) ≡ false
      → e.protocol_fault ≡ false
      → is_overdue e.cfg r m ≡ true
      → EndsWith Outcome.timeout e (step m e)
  unfolding step step_authority
  step-EndsWith m e r at goes free fault late =
      let p = poll-Runs m e r at goes in
      let live = poll-IsLive e m e (record {
        is_active = rw at (ap not goes);
        one_slot = free;
        same_session = refl;
        same_pending = refl;
      }) in
      let ends = overdue-EndsWith m e (poll m e) p.now_run live (p.same_fault ∙ fault) (
        sym (same-overdue m (poll m e).cfg e.cfg r p.now_run p.same_cfg p.same_ros p.same_wall)
        ∙ late) in
      let active_step : step m e ≡ step_active m p.now_run (poll m e) =
        ap (λ (a : Authority D). step_authority m a (poll m e)) p.at_run
        ∙ step_progress-active m p.now_run p.now_run.progress (poll m e) p.goes_on in
      subst (EndsWith Outcome.timeout e) (sym active_step) ends
