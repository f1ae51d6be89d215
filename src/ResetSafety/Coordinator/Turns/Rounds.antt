-- ===== src/ResetSafety/Coordinator/Turns/Rounds.antt =====
-- The whole step: its decisions, holds, rejections and repeated messages, one after the other.
use xgc2_ugv_controller.Base.{
  and_then, ◌≡◌, refl, Bool, not, ◌||◌, String, List, [], ◌∷◌, map, Option, none, some, ◌==◌, All,
  arith, if_cases, Option-cases, inl, inr, if◌then◌else◌,
}
use xgc2_ugv_controller.Floating.{Double, ◌⊖◌, ◌≺◌, ◌≼◌}
use xgc2_ugv_controller.ResetClient.Protocol.{GrantState, Reason}
use xgc2_ugv_controller.ResetSafety.Planner.{Planner, PlannerDecision, PlannerBodyReport}
use xgc2_ugv_controller.ResetSafety.Coordinator.{
  Coordinator, CoordinatorConfig, Entry, Publication, OutgoingGrant, find_entry, has_value,
}
use xgc2_ugv_controller.ResetSafety.Coordinator.Publications.{
  AllSound, IsAddressed, IsCurrent, find-Sound,
}
use xgc2_ugv_controller.ResetSafety.Coordinator.Vehicles.{member, lost, participant, outside}
use xgc2_ugv_controller.ResetSafety.Coordinator.Step.{
  Turn, send_decision, send_decisions, send_own, send_hold, send_holds, refresh, resend, keep_alive,
  keep_all_alive, take_turn, step_coordinator, grant_of, is_pending, says_hold, says_reject,
  hold_reason, hold_detail, refusal_text,
}
use xgc2_ugv_controller.ResetSafety.Coordinator.Turns.{
  Good, IsGood, throws, goes, and_then-IsGood, send_to-IsGood,
}

module _ {D : Type 0} ⦃f : Double D⦄ where
  module _ {P : Type 0} (planner : Planner D P) (cfg : CoordinatorConfig D) (now : D) where
    send_decision-IsGood :
        (d : _) (t : Turn D P) → Good t → IsGood (send_decision planner cfg now d t)
    unfolding send_decision grant_of
    send_decision-IsGood d t v = elim (Option-cases (find_entry d.id t.entries)) [
      | inl h ↦ rw (h, send_decision) (goes t v)
      | inr (e, h) ↦
          rw (h, send_decision)
            (if_cases IsGood
              (not (d.session == e.session.session)
                || not (d.request_generation == e.session.request_generation))
              (λ _. goes t v)
              (λ same. send_to-IsGood planner cfg now d.id _ e t h (ground arith) (ground arith) v))
    ]

    send_decisions-IsGood :
        (ds : List (PlannerDecision D)) (t : Turn D P)
        → Good t
        → IsGood (send_decisions planner cfg now ds t)
    unfolding send_decisions
    send_decisions-IsGood [] t v = goes t v
    send_decisions-IsGood (d ∷ ds) t v =
        and_then-IsGood (send_decision planner cfg now d t) (send_decisions planner cfg now ds)
          (send_decision-IsGood d t v) (send_decisions-IsGood ds)

    send_own-IsGood :
        (state : GrantState) (reason : Reason) (detail id : String) (e : Entry D) (t : Turn D P)
        → find_entry id t.entries ≡ some e
        → Good t
        → IsGood (send_own planner cfg now state reason detail id e t)
    unfolding send_own
    send_own-IsGood state reason detail id e t found v =
        elim (Option-cases (planner.allocate_grant_id t.planner)) [
          | inl h ↦ rw h throws
          | inr (p, h) ↦ rw h (
              send_to-IsGood planner cfg now id _ e (record t { planner = p.0 }) found refl refl
                (record { sound = v.sound; addressed = v.addressed }))
        ]

    send_hold-IsGood :
        (scene : Bool) (r : PlannerBodyReport D) (t : Turn D P)
        → Good t
        → IsGood (send_hold planner cfg now scene r t)
    unfolding send_hold
    send_hold-IsGood scene r t v = elim (Option-cases (find_entry r.id t.entries)) [
      | inl h ↦ rw (h, send_hold) throws
      | inr (e, h) ↦
          rw (h, send_hold)
            (if_cases IsGood
              (not (participant cfg now e)
                || r.has_route
                || member r.id t.sent
                || not e.session.stop_certified
                || (e.session.request_generation == 0)
                || says_hold planner cfg now (hold_reason planner cfg now scene) e.last)
              (λ _. goes t v)
              (λ _.
                send_own-IsGood GrantState.hold (hold_reason planner cfg now scene)
                  (hold_detail planner cfg now scene) r.id e t h v))
    ]

    send_holds-IsGood :
        (scene : Bool) (rs : List (PlannerBodyReport D)) (t : Turn D P)
        → Good t
        → IsGood (send_holds planner cfg now scene rs t)
    unfolding send_holds
    send_holds-IsGood scene [] t v = goes t v
    send_holds-IsGood scene (r ∷ rs) t v =
        and_then-IsGood (send_hold planner cfg now scene r t) (send_holds planner cfg now scene rs)
          (send_hold-IsGood scene r t v) (send_holds-IsGood scene rs)

    resend-IsGood :
        (id : String) (e : Entry D) (o : Option (Publication D)) (t : Turn D P)
        → find_entry id t.entries ≡ some e
        → IsCurrent e.session e.next_publication_seq o
        → Good t
        → IsGood (resend planner cfg now id e o t)
    resend-IsGood id e none t found c v = goes t v
    resend-IsGood id e (some p) t found c v =
        if_cases IsGood (cfg.refresh_period ≼ (now ⊖ p.sent))
          (λ _. send_to-IsGood planner cfg now id p.grant e t found c.0 c.1 v) (λ _. goes t v)

    refresh-IsGood :
        (wanted : Bool) (id : String) (e : Entry D) (o : Option (Publication D)) (t : Turn D P)
        → find_entry id t.entries ≡ some e
        → IsCurrent e.session e.next_publication_seq o
        → Good t
        → IsGood (refresh planner cfg now wanted id e o t)
    refresh-IsGood wanted id e none t found c v = goes t v
    refresh-IsGood wanted id e (some p) t found c v =
        if_cases IsGood
          (((now ⊖ p.sent) ≺ cfg.refresh_period) || not (wanted || is_pending e.session p.grant))
          (λ _. goes t v) (λ _. send_to-IsGood planner cfg now id p.grant e t found c.0 c.1 v)

    keep_alive-IsGood :
        (id : String) (t : Turn D P) → Good t → IsGood (keep_alive planner cfg now id t)
    unfolding keep_alive
    keep_alive-IsGood id t v = elim (Option-cases (find_entry id t.entries)) [
      | inl h ↦ rw (h, keep_alive) (goes t v)
      | inr (e, h) ↦
          let detail = refusal_text planner cfg now e.bad_reason in
          let current = (find-Sound id t.entries e v.sound h).last_current in
          rw (h, keep_alive)
            (if_cases IsGood
              (lost cfg now e || member id t.sent || (e.session.request_generation == 0))
              (λ _. goes t v)
              (λ _.
                if_cases IsGood (has_value e.bad_reason || outside cfg id)
                  (λ _.
                    if_cases IsGood (says_reject planner cfg now detail e.last)
                      (λ _. resend-IsGood id e e.last t h current v)
                      (λ _. send_own-IsGood GrantState.reject Reason.bad_session detail id e t h v))
                  (λ _. refresh-IsGood (participant cfg now e) id e e.last t h current v)))
    ]

    keep_all_alive-IsGood :
        (ids : List String) (t : Turn D P) → Good t → IsGood (keep_all_alive planner cfg now ids t)
    unfolding keep_all_alive
    keep_all_alive-IsGood [] t v = goes t v
    keep_all_alive-IsGood (id ∷ ids) t v =
        and_then-IsGood (keep_alive planner cfg now id t) (keep_all_alive planner cfg now ids)
          (keep_alive-IsGood id t v) (keep_all_alive-IsGood ids)

    answered-IsGood :
        (scene admit : Bool) (entries : List (String × Entry D))
        (answer : Option (P × List (PlannerDecision D)))
        → AllSound entries
        → IsGood (
            and_then answer (λ (u : P × List (PlannerDecision D)).
              and_then
                (send_decisions planner cfg now u.1
                  (record { planner = u.0; entries = entries; sent = []; out = [] }))
                (λ (t : Turn D P).
                  and_then
                    (if admit
                      then some t
                      else send_holds planner cfg now scene (planner.report t.planner) t)
                    (keep_all_alive planner cfg now
                      (map (λ (n : String × Entry D). n.0) entries)))))
    answered-IsGood scene admit entries none v = throws
    answered-IsGood scene admit entries (some u) v =
        and_then-IsGood (send_decisions planner cfg now u.1 _) _
          (send_decisions-IsGood u.1 _ (record { sound = v; addressed = _ }))
          (λ t good.
            and_then-IsGood _ (keep_all_alive planner cfg now _)
              (if_cases IsGood admit (λ _. goes t good)
                (λ _. send_holds-IsGood scene (planner.report t.planner) t good))
              (keep_all_alive-IsGood _))

    take_turn-IsGood :
        (scene admit : Bool) (entries : List (String × Entry D)) (p : P)
        → AllSound entries
        → IsGood (take_turn planner cfg now scene admit entries p)
    unfolding take_turn
    take_turn-IsGood scene admit entries p v = answered-IsGood scene admit entries _ v

  -- What a step gives: an exception, or sound entries and messages addressed to them.
  pub data IsSent {P : Type 0} : Option (Coordinator D P × List (OutgoingGrant D)) → Type 0 where
    failed : IsSent none
    sent :
        (c : Coordinator D P) (out : List (OutgoingGrant D))
        → AllSound c.entries
        → All (IsAddressed c.entries) out
        → IsSent (some (c, out))

  finished-IsSent :
      {P : Type 0} (c : Coordinator D P) (o : Option (Turn D P))
      → IsGood o
      → IsSent (
          and_then o
            (λ (t : Turn D P). some (record c { planner = t.planner; entries = t.entries }, t.out)))
  finished-IsSent c none g = failed
  finished-IsSent c (some t) (goes _ g) = sent _ _ g.sound g.addressed

  -- From sound entries a step that does not throw leaves sound entries, and every message that it sends
  -- carries the session and the request that its vehicle last reported, and a publication number below
  -- the vehicle's next one.
  pub step_coordinator-IsSent :
      {P : Type 0} (planner : Planner D P) (now : D) (c : Coordinator D P)
      → AllSound c.entries
      → IsSent (step_coordinator planner now c)
  unfolding step_coordinator
  step_coordinator-IsSent planner now c v =
      finished-IsSent c _ (take_turn-IsGood planner c.config now _ _ c.entries c.planner v)
