-- ===== src/ResetClient/Executor/Report/Publishing.antt =====
-- reset_executor.h: taking results, and when a session message is due.
use xgc2_ugv_controller.Base.{
  ◌≡◌, ◌≢◌, ◌⊎◌, refl, not, Option, none, some, ◌&&◌, arith, List, [], ◌∷◌, ◌==◌, u32_max,
  Bool-cases, inl, inr,
}
use xgc2_ugv_controller.Floating.{Double, lit, ◌≼◌, ◌⊖◌}
use xgc2_ugv_controller.ResetClient.Protocol.{session_period}
use xgc2_ugv_controller.ResetClient.Executor.{Executor, Measurement}
use xgc2_ugv_controller.ResetClient.Executor.Results.{pending}
use xgc2_ugv_controller.ResetClient.Executor.Report.{
  peek_result, commit_result, take_result, session_due, mark_session_published,
}

abbrev pub oldest : {A : Type 0} → List A → Option A
oldest [] = none
oldest (r ∷ _) = some r

abbrev pub others : {A : Type 0} → List A → List A
others [] = []
others (_ ∷ rest) = rest

module _ {D : Type 0} ⦃f : Double D⦄ where
  -- Taking a result gives the oldest of those that wait, and leaves the others in their order; with
  -- none waiting nothing changes.
  pub pending-take_result :
      (e : Executor D)
      → ((take_result e).1 ≡ oldest (pending e))
        × (pending (take_result e).0 ≡ others (pending e))
        × (((take_result e).1 ≢ none) ⊎ ((take_result e).0 ≡ e))
  unfolding take_result peek_result commit_result
  pending-take_result e = elim (Bool-cases e.previous_pending) [
    | inl t ↦ rw t (refl, refl, inl (λ h. cc h))
    | inr t ↦ elim (Bool-cases e.result_pending) [
      | inl s ↦ rw (t, s) (refl, refl, inl (λ h. cc h))
      | inr s ↦ rw (t, s) (refl, refl, inr refl)
    ]
  ]

  -- Right after a session message was published the next one is due only once the period has passed,
  -- and never with a counter that is exhausted.
  pub session_due-mark_session_published :
      (m later : Measurement D) (e : Executor D)
      → session_due later (mark_session_published m e) ≡ (
          not e.protocol_fault
          && not (e.next_publication == u32_max)
          && ((session_period ⊖ lit 1 9) ≼ (later.wall_now ⊖ m.wall_now)))
  unfolding session_due mark_session_published
  session_due-mark_session_published m later e = ground arith
