-- ===== src/ResetClient/Executor/Results.antt =====
-- The results of a vehicle's Reset sessions, in the order in which they wait (`end`, `step`,
-- `commitResult`).
pub mod Stepping
pub mod Slots
pub mod Running
use xgc2_ugv_controller.Base.{
  ℕ, ◌≡◌, refl, sym, ap, ◌∙◌, ◌⊎◌, inl, inr, Bool, true, false, not, ◌&&◌, List, [], ◌∷◌, ◌++◌,
  String, arith, if_cases, if◌then◌else◌, ◌==◌, u32_max, Bool-cases,
}
use xgc2_ugv_controller.Floating.{Double}
use xgc2_ugv_controller.ResetClient.Protocol.{Result, Outcome, Reason}
use xgc2_ugv_controller.ResetClient.Executor.{
  Executor, Authority, Permission, Progress, Measurement, StepOutput, authority_active,
  authority_header, with_permission, with_progress, active, session_id, is_done, set_permission,
  set_progress,
}
use xgc2_ugv_controller.ResetClient.Executor.Session.{
  request_authority, count_generation, post_result, final_result, end, held, finished,
}
use xgc2_ugv_controller.ResetClient.Executor.Fields.{
  active-with_permission, active-with_progress, active-with_progress_done, header-with_permission,
  header-with_progress,
}

module _ {D : Type 0} ⦃f : Double D⦄ where
  -- The pending results, oldest first.
  abbrev pub pending : Executor D → List (Result D)
  pending e =
      (if e.previous_pending then e.previous_result ∷ [] else [])
      ++ (if e.result_pending then e.result ∷ [] else [])

  -- `e` is under way in the session of `start`, and has posted nothing since.
  pub record IsLive (start e : Executor D) : Type 0 where
    pub is_active : active e ≡ true
    pub one_slot : (e.previous_pending && e.result_pending) ≡ false
    pub same_session : session_id e ≡ session_id start
    pub same_pending : pending e ≡ pending start

  -- The session goes on without a result; or it has ended, which is said once, with one result more.
  pub data OneResult (start : Executor D) (r : Executor D × StepOutput D) : Type 0 where
    goes_on : IsLive start r.0 → r.1.ended ≡ false → OneResult start r
    ends :
        (result : Result D)
        → active r.0 ≡ false
        → r.1.ended ≡ true
        → result.session ≡ session_id start
        → pending r.0 ≡ pending start ++ result ∷ []
        → OneResult start r

  pub set_permission-IsLive :
      (p : Permission D) (start e : Executor D) → IsLive start e → IsLive start (set_permission p e)
  set_permission-IsLive p start e l = record {
    is_active = active-with_permission p e.authority ∙ l.is_active;
    one_slot = l.one_slot;
    same_session = ap (λ h. h.session) (header-with_permission p e.authority) ∙ l.same_session;
    same_pending = l.same_pending;
  }

  pub set_progress-IsLive :
      (g : Progress) (start e : Executor D)
      → is_done g ≡ false
      → IsLive start e
      → IsLive start (set_progress g e)
  set_progress-IsLive g start e goes l = record {
    is_active = active-with_progress g e.authority l.is_active ∙ ap not goes;
    one_slot = l.one_slot;
    same_session = ap (λ h. h.session) (header-with_progress g e.authority) ∙ l.same_session;
    same_pending = l.same_pending;
  }

  count_generation-IsLive :
      (start e : Executor D) → IsLive start e → IsLive start (count_generation e)
  unfolding count_generation
  count_generation-IsLive start e l =
      if_cases (IsLive start) (e.generation == u32_max)
        (λ _. record {
          is_active = l.is_active;
          one_slot = l.one_slot;
          same_session = l.same_session;
          same_pending = l.same_pending;
        })
        (λ _. record {
          is_active = l.is_active;
          one_slot = l.one_slot;
          same_session = l.same_session;
          same_pending = l.same_pending;
        })

  -- Asking for a new permission goes on with the session.
  pub request_authority-IsLive :
      (start e : Executor D) → IsLive start e → IsLive start (request_authority false e)
  unfolding request_authority
  request_authority-IsLive start e l =
      let braked = set_permission-IsLive Permission.await_brake start e l in
      set_progress-IsLive Progress.requesting start _ refl (
        count_generation-IsLive start _ (record {
          is_active = braked.is_active;
          one_slot = braked.one_slot;
          same_session = braked.same_session;
          same_pending = braked.same_pending;
        }))

  -- The permission that is asked for at the end posts nothing.
  pub pending-request_authority :
      (terminal : Bool) (e : Executor D) → pending (request_authority terminal e) ≡ pending e
  unfolding request_authority
  pending-request_authority terminal e = ground arith

  slots_append :
      (older newer : Bool) (a b r : Result D)
      → (older && newer) ≡ false
      → (if (if newer then true else older) then (if newer then b else a) ∷ [] else []) ++ r ∷ []
        ≡ ((if older then a ∷ [] else []) ++ (if newer then b ∷ [] else [])) ++ r ∷ []
  slots_append true true a b r free = cc
  slots_append true false a b r free = refl
  slots_append false true a b r free = refl
  slots_append false false a b r free = refl

  -- With a slot free a new result queues behind the one that is pending.
  pub pending-post_result :
      (r : Result D) (e : Executor D)
      → (e.previous_pending && e.result_pending) ≡ false
      → pending (post_result r e) ≡ pending e ++ r ∷ []
  unfolding post_result
  pending-post_result r e free = slots_append e.previous_pending e.result_pending _ _ r free

  module _ (outcome : Outcome) (reason : Reason) (detail : String) (m : Measurement D) where
    -- `end` posts one result, of the session that it ends.
    pub pending-end :
        (e : Executor D)
        → active e ≡ true
        → (e.previous_pending && e.result_pending) ≡ false
        → pending (end outcome reason detail m e)
          ≡ pending e ++ final_result outcome reason detail m e ∷ []
    unfolding end
    pending-end e a free =
        rw (a, end)
          (pending-request_authority true _
            ∙ pending-post_result (final_result outcome reason detail m e) e free)

    pub ended-OneResult :
        (start e : Executor D)
        → IsLive start e
        → OneResult start (finished (end outcome reason detail m e))
    unfolding finished
    ended-OneResult start e l =
        ends (final_result outcome reason detail m e) (active-with_progress_done true _) refl
          (unfold final_result in l.same_session)
          (pending-end e l.is_active l.one_slot
            ∙ ap (λ q. q ++ final_result outcome reason detail m e ∷ []) l.same_pending)

  pub held-OneResult : (start e : Executor D) → IsLive start e → OneResult start (held e)
  unfolding held
  held-OneResult start e l = goes_on (set_progress-IsLive _ start e (ground arith) l) refl
