-- ===== src/ResetSafety/Coordinator/Turns.antt =====
-- reset_coordinator.cpp, `send` in `step`: what one message means for the entries and for the messages
-- before it.
pub mod Rounds
use xgc2_ugv_controller.Base.{
  and_then, ◌≡◌, refl, subst, Bool, false, not, ◌||◌, String, List, [], ◌∷◌, map, Option, none,
  some, ◌==◌, u32_max, All, All-append, arith, if_cases, Option-cases, inl, inr, if◌then◌else◌,
}
use xgc2_ugv_controller.Floating.{Double, ◌⊖◌, ◌≺◌, ◌≼◌}
use xgc2_ugv_controller.ResetClient.Protocol.{Grant, GrantState, Reason}
use xgc2_ugv_controller.ResetSafety.Planner.{Planner, PlannerDecision, PlannerBodyReport}
use xgc2_ugv_controller.ResetSafety.Coordinator.{
  Coordinator, CoordinatorConfig, Entry, Publication, OutgoingGrant, find_entry, change_entry,
  has_value,
}
use xgc2_ugv_controller.ResetSafety.Coordinator.Publications.{
  Sound, AllSound, IsAddressed, IsCurrent, find-Sound, change-AllSound, find-change-same,
  find-change, Speaks,
}
use xgc2_ugv_controller.ResetSafety.Coordinator.Vehicles.{member, lost, participant, outside}
use xgc2_ugv_controller.ResetSafety.Coordinator.Step.{
  Turn, stamped, publish, send_to, send_decision, send_decisions, send_own, send_hold, send_holds,
  refresh, resend, keep_alive, keep_all_alive, take_turn, step_coordinator, grant_of, is_pending,
  says_hold, says_reject, hold_reason, hold_detail, refusal_text,
}

module _ {D : Type 0} ⦃f : Double D⦄ where
  pub record Good {P : Type 0} (t : Turn D P) : Type 0 where
    pub sound : AllSound t.entries
    pub addressed : All (IsAddressed t.entries) t.out

  -- An exception, or a good turn.
  pub data IsGood {P : Type 0} : Option (Turn D P) → Type 0 where
    throws : IsGood none
    goes : (t : Turn D P) → Good t → IsGood (some t)

  pub and_then-IsGood :
      {P : Type 0} (o : Option (Turn D P)) (k : Turn D P → Option (Turn D P))
      → IsGood o
      → ((t : Turn D P) → Good t → IsGood (k t))
      → IsGood (and_then o k)
  and_then-IsGood none k g go_on = throws
  and_then-IsGood (some t) k (goes _ g) go_on = go_on t g

  module _ {P : Type 0} (planner : Planner D P) (cfg : CoordinatorConfig D) (now : D) where
    publish-Sound :
        (g : Grant D) (e : Entry D)
        → g.session ≡ e.session.session
        → g.request_generation ≡ e.session.request_generation
        → (e.next_publication_seq == u32_max) ≡ false
        → Sound e
        → Sound (publish cfg now g e)
    publish-Sound g e s r free v = record {
      last_current = (s, r, ground (arith, v.counted));
      counted = ground (arith, v.counted);
    }

    -- A message that was sent stays addressed when another one is.
    keeps-IsAddressed :
        (id : String) (g : Grant D) (entries : List (String × Entry D)) (e : Entry D)
        (o : OutgoingGrant D)
        → find_entry id entries ≡ some e
        → (e.next_publication_seq == u32_max) ≡ false
        → Sound e
        → IsAddressed entries o
        → IsAddressed (change_entry id (publish cfg now g) entries) o
    unfolding IsAddressed
    keeps-IsAddressed id g entries e o found free v a =
        elim (find-change o.vehicle id (publish cfg now g) entries) [
          | inl same ↦ rw same a
          | inr (d, here, there, after) ↦
              let is : d ≡ e = ground (arith, there, found) in
              let spoke : Speaks (some d) o.grant =
                subst (λ (x : Option (Entry D)). Speaks x o.grant) here a in
              rw after (spoke.0, spoke.1, ground (arith, is, v.counted, spoke.2))
        ]

    All-keeps-IsAddressed :
        (id : String) (g : Grant D) (entries : List (String × Entry D)) (e : Entry D)
        (os : List (OutgoingGrant D))
        → find_entry id entries ≡ some e
        → (e.next_publication_seq == u32_max) ≡ false
        → Sound e
        → All (IsAddressed entries) os
        → All (IsAddressed (change_entry id (publish cfg now g) entries)) os
    All-keeps-IsAddressed id g entries e [] found free v a = a
    All-keeps-IsAddressed id g entries e (o ∷ os) found free v a = (
      keeps-IsAddressed id g entries e o found free v a.0,
      All-keeps-IsAddressed id g entries e os found free v a.1,
    )

    new-IsAddressed :
        (id : String) (g : Grant D) (entries : List (String × Entry D)) (e : Entry D)
        → find_entry id entries ≡ some e
        → g.session ≡ e.session.session
        → g.request_generation ≡ e.session.request_generation
        → (e.next_publication_seq == u32_max) ≡ false
        → Sound e
        → IsAddressed
            (change_entry id (publish cfg now g) entries)
            (record { vehicle = id; grant = stamped cfg now e.next_publication_seq g })
    unfolding IsAddressed
    new-IsAddressed id g entries e found s r free v =
        rw (find-change-same id (publish cfg now g) entries e found)
          (s, r, ground (arith, v.counted))

    pub send_to-IsGood :
        (id : String) (g : Grant D) (e : Entry D) (t : Turn D P)
        → find_entry id t.entries ≡ some e
        → g.session ≡ e.session.session
        → g.request_generation ≡ e.session.request_generation
        → Good t
        → IsGood (send_to planner cfg now id g e t)
    unfolding send_to
    send_to-IsGood id g e t found s r v =
        let sound = find-Sound id t.entries e v.sound found in
        if_cases IsGood (e.next_publication_seq == u32_max) (λ _. throws)
          (λ free. goes _ (record {
            sound =
                change-AllSound id (publish cfg now g) t.entries
                  (λ d here ok.
                    let is : d ≡ e = ground (arith, here, found) in
                    publish-Sound g d (ground (arith, is, s)) (ground (arith, is, r))
                      (ground (arith, is, free)) ok)
                  v.sound;
            addressed =
                All-append (IsAddressed (change_entry id (publish cfg now g) t.entries)) t.out _
                  (All-keeps-IsAddressed id g t.entries e t.out found free sound v.addressed)
                  (new-IsAddressed id g t.entries e found s r free sound, _);
          }))
