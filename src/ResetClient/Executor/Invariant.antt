-- ===== src/ResetClient/Executor/Invariant.antt =====
-- The protocol invariant of the Reset session: which ids belong to which permission, and the changes
-- that every operation is made of. Invariant/Grants, Invariant/Motion, Invariant/Stepping and
-- Invariant/Operations are about the operations.
pub mod Grants
pub mod Motion
pub mod Stepping
pub mod Operations
use xgc2_ugv_controller.Base.{
  ℕ, ◌≤◌, ◌<◌, ◌≡◌, refl, Bool, true, false, String, Option, none, some, arith, if_cases,
}
use xgc2_ugv_controller.Floating.{Double}
use xgc2_ugv_controller.ResetClient.Protocol.{Outcome, Reason}
use xgc2_ugv_controller.ResetClient.Tracker.Segment.{OnRoute}
use xgc2_ugv_controller.ResetClient.Executor.{
  Executor, Authority, Permission, Progress, DeferredGo, Executing, Measurement,
  authority_permission, authority_active, with_permission, with_progress, permission, active,
  is_executing, is_done, set_permission, set_progress,
}
use xgc2_ugv_controller.ResetClient.Executor.Session.{
  request_authority, post_result, end, retire, finish, finish_as, held, finished,
}
use xgc2_ugv_controller.ResetClient.Executor.Fields.{
  permission-with_permission, permission-with_progress, active-with_progress_done,
}

module _ {D : Type 0} ⦃f : Double D⦄ where
  -- A Go that waits was decided after the Brake.
  abbrev pub IsLater : ℕ → ℕ → Option (DeferredGo D) → Type 0
  IsLater brake last none = Unit {0}
  IsLater brake last (some go) = (brake < go.grant.grant_id) × (go.grant.grant_id ≤ last)

  -- The ids of the accepted Brake, of the acknowledged decision and of the latest decision.
  abbrev pub Consistent : Permission D → ℕ → ℕ → ℕ → Type 0
  Consistent Permission.none brake ack last = (brake ≡ 0) × (ack ≡ 0)
  Consistent Permission.await_brake brake ack last = (brake ≡ 0) × (ack ≡ 0)
  Consistent Permission.await_zero brake ack last = (0 < brake) × (ack ≡ brake) × (brake ≤ last)
  Consistent (Permission.await_stopped _) brake ack last =
      (0 < brake) × (ack ≡ brake) × (brake ≤ last)
  Consistent (Permission.await_go _ _ deferred) brake ack last =
      (0 < brake) × (ack ≡ brake) × (brake ≤ last) × IsLater brake last deferred
  Consistent (Permission.executing x) brake ack last =
      (0 < brake)
      × (ack ≡ x.grant_id)
      × (brake < x.grant_id)
      × (x.grant_id ≤ last)
      × OnRoute x.tracker
  Consistent Permission.complete brake ack last = (0 < brake) × (brake < ack) × (ack ≤ last)

  pub record IsAuthorized (a : Authority D) (brake ack last : ℕ) : Type 0 where
    pub consistent : Consistent (authority_permission a) brake ack last
    -- Only an active session moves.
    pub motion_active : is_executing (authority_permission a) ≡ true → authority_active a ≡ true

  pub record Inv (e : Executor D) : Type 0 where
    pub authorized : IsAuthorized e.authority e.brake_id e.acknowledged_id e.last_decision_id

  -- No route is driven. Shut, so that it can be split by `if_cases`.
  unfoldable pub Rests : Executor D → Type 0
  Rests e = is_executing (permission e) ≡ false

  pub with_permission-IsAuthorized :
      (p : Permission D) (a : Authority D) {brake ack last : ℕ}
      → Consistent p brake ack last
      → (is_executing p ≡ true → authority_active a ≡ true)
      → IsAuthorized (with_permission p a) brake ack last
  with_permission-IsAuthorized p (Authority.retirement h q) c move = record {
    consistent = c;
    motion_active = move;
  }
  with_permission-IsAuthorized p (Authority.run r) c move = record {
    consistent = c;
    motion_active = move;
  }

  pub with_progress-IsAuthorized :
      (g : Progress) (a : Authority D) {brake ack last : ℕ}
      → (is_executing (authority_permission a) ≡ true → is_done g ≡ false)
      → IsAuthorized a brake ack last
      → IsAuthorized (with_progress g a) brake ack last
  with_progress-IsAuthorized g (Authority.retirement h q) go_on v = v
  with_progress-IsAuthorized g (Authority.run r) go_on v = record {
    consistent = v.consistent;
    motion_active = λ x. rw (go_on x);
  }

  pub set_progress-Inv :
      (g : Progress) (e : Executor D)
      → (is_executing (permission e) ≡ true → is_done g ≡ false)
      → Inv e
      → Inv (set_progress g e)
  set_progress-Inv g e go_on v = record {
    authorized = with_progress-IsAuthorized g e.authority go_on v.authorized;
  }

  pub set_permission-Inv :
      (p : Permission D) (e : Executor D)
      → Consistent p e.brake_id e.acknowledged_id e.last_decision_id
      → (is_executing p ≡ true → active e ≡ true)
      → Inv (set_permission p e)
  set_permission-Inv p e c move = record {
    authorized = with_permission-IsAuthorized p e.authority c move;
  }

  -- A new request starts from nothing, whatever was there.
  pub request_authority-Inv :
      (terminal : Bool) (e : Executor D) → Inv (request_authority terminal e)
  unfolding request_authority
  request_authority-Inv terminal e = ground (
    arith,
    permission-with_permission Permission.await_brake e.authority,
    permission-with_progress Progress.requesting
        (with_permission Permission.await_brake e.authority),
  )

  pub request_authority-Rests :
      (terminal : Bool) (e : Executor D) → Rests (request_authority terminal e)
  unfolding Rests request_authority
  request_authority-Rests terminal e = ground (
    arith,
    permission-with_permission Permission.await_brake e.authority,
    permission-with_progress Progress.requesting
        (with_permission Permission.await_brake e.authority),
  )

  pub idle-Rests : (e : Executor D) → Inv e → active e ≡ false → Rests e
  unfolding Rests
  idle-Rests e v idle = ground (arith, v.authorized.motion_active)

  module _ (outcome : Outcome) (reason : Reason) (detail : String) (m : Measurement D) where
    pub end-Inv : (e : Executor D) → Inv e → Inv (end outcome reason detail m e)
    unfolding end
    end-Inv e v = if_cases Inv (active e) (λ _. request_authority-Inv true _) (λ _. v)

    -- A session that has ended does not move.
    pub end-Rests : (e : Executor D) → Inv e → Rests (end outcome reason detail m e)
    unfolding end
    end-Rests e v = if_cases Rests (active e) (λ _. request_authority-Rests true _) (idle-Rests e v)

    pub finished-end-Inv :
        (e : Executor D) → Inv e → Inv (finished (end outcome reason detail m e)).0
    unfolding finished Rests
    finished-end-Inv e v =
        set_progress-Inv (Progress.done true) _ (λ x. ground (arith, end-Rests e v)) (end-Inv e v)

  pub held-Inv : (e : Executor D) → Inv e → Inv (held e).0
  unfolding held
  held-Inv e v = set_progress-Inv _ e (λ _. ground arith) v

  retire-Inv : (e : Executor D) → Rests e → Inv e → Inv (retire e)
  unfolding retire Rests
  retire-Inv e rests v = record {
    authorized = record { consistent = v.authorized.consistent; motion_active = λ x. ground arith };
  }

  finish_as-Inv : (a : Authority D) (e : Executor D) → Inv e → Inv (finish_as a e)
  unfolding finish_as
  finish_as-Inv (Authority.retirement h p) e v = v
  finish_as-Inv (Authority.run r) e v =
      retire-Inv _
        (if_cases Rests (is_executing (permission e)) (λ _. request_authority-Rests true e)
          (unfold Rests in λ rests. rests))
        (if_cases Inv (is_executing (permission e)) (λ _. request_authority-Inv true e) (λ _. v))

  pub finish-Inv : (e : Executor D) → Inv e → Inv (finish e)
  unfolding finish
  finish-Inv e v = finish_as-Inv e.authority e v
