-- ===== src/ResetSafety/Coordinator/Step.antt =====
-- reset_coordinator.cpp, `step`: the planner is asked, and its decisions, the holds, the rejections and
-- the heartbeat of what was said before go out. `none` is an exception.
use xgc2_ugv_controller.Base.{
  ℕ, ◌+◌, Bool, true, false, not, ◌&&◌, ◌||◌, String, List, [], ◌∷◌, ◌++◌, map, Option, none, some,
  ◌==◌, str_eq, u32, u32_max, if◌then◌else◌, and_then,
}
use xgc2_ugv_controller.Floating.{Double, ◌⊖◌, ◌≺◌, ◌≼◌}
use xgc2_ugv_controller.ResetClient.Protocol.{
  Grant, GrantState, Reason, Session, default_grant, same_reason, same_grant_state,
}
use xgc2_ugv_controller.ResetSafety.Planner.{Planner, PlannerDecision, PlannerBodyReport}
use xgc2_ugv_controller.ResetSafety.Coordinator.{
  Coordinator, CoordinatorConfig, Entry, Publication, OutgoingGrant, has_value, find_entry,
  change_entry,
}
use xgc2_ugv_controller.ResetSafety.Coordinator.Vehicles.{
  lost, participant, outside, member, vehicles_of, scope_ready,
}

-- What a step has changed so far: the planner, the entries, the names that were sent a message, and the
-- messages in their order.
pub record Turn (D P : Type 0) : Type 0 where
  pub planner : P
  pub entries : List (String × Entry D)
  pub sent : List String
  pub out : List (OutgoingGrant D)

module _ {D : Type 0} where
  -- A hold or a Brake is repeated until the vehicle has answered it.
  abbrev pub is_pending : Session D → Grant D → Bool
  is_pending s g =
      same_grant_state g.state GrantState.brake
      || (same_grant_state g.state GrantState.hold && not (s.acknowledged_grant_id == g.grant_id))

module _ {D : Type 0} ⦃f : Double D⦄ where
  unfoldable pub grant_of : CoordinatorConfig D → D → PlannerDecision D → Grant D
  grant_of cfg now d = record default_grant {
    stamp = now;
    ttl = cfg.ttl;
    session = d.session;
    request_generation = d.request_generation;
    state = d.state;
    grant_id = d.grant_id;
    start = d.start;
    goal = d.goal;
    final_move = d.final_move;
    ell_plan = d.ell_plan;
    via = d.via;
    s_limit = d.s_limit;
    reason = d.reason;
    detail = d.detail;
    blockers = d.blockers;
  }

  abbrev pub stamped : CoordinatorConfig D → D → ℕ → Grant D → Grant D
  stamped cfg now seq g = record g { publication_seq = seq; stamp = now; ttl = cfg.ttl }

  abbrev pub publish : CoordinatorConfig D → D → Grant D → Entry D → Entry D
  publish cfg now g e = record e {
    next_publication_seq = u32 (e.next_publication_seq + 1);
    last = some (record { grant = stamped cfg now e.next_publication_seq g; sent = now });
  }

  module _ {P : Type 0} (planner : Planner D P) (cfg : CoordinatorConfig D) (now : D) where
    -- The lambda `send`.
    unfoldable pub send_to : String → Grant D → Entry D → Turn D P → Option (Turn D P)
    send_to id g e t =
        if e.next_publication_seq == u32_max
        then none
        else some (record t {
          entries = change_entry id (publish cfg now g) t.entries;
          sent = id ∷ t.sent;
          out =
              t.out
              ++ record { vehicle = id; grant = stamped cfg now e.next_publication_seq g } ∷ [];
        })

    -- A decision for a session that is over is dropped.
    unfoldable pub send_decision : PlannerDecision D → Turn D P → Option (Turn D P)
    send_decision d t = elim (find_entry d.id t.entries) [
      | none ↦ some t
      | some e ↦
          if not (d.session == e.session.session)
            || not (d.request_generation == e.session.request_generation)
          then some t
          else send_to d.id (grant_of cfg now d) e t
    ]

    unfoldable pub send_decisions : List (PlannerDecision D) → Turn D P → Option (Turn D P)
    send_decisions [] t = some t
    send_decisions (d ∷ ds) t = and_then (send_decision d t) (send_decisions ds)

    abbrev pub says_hold : Reason → Option (Publication D) → Bool
    says_hold reason none = false
    says_hold reason (some p) =
        same_grant_state p.grant.state GrantState.hold && same_reason p.grant.reason reason

    abbrev pub says_reject : String → Option (Publication D) → Bool
    says_reject detail none = false
    says_reject detail (some p) =
        same_grant_state p.grant.state GrantState.reject && str_eq p.grant.detail detail

    -- A message that the coordinator decides itself, under a fresh id.
    unfoldable pub send_own :
        GrantState → Reason → String → String → Entry D → Turn D P → Option (Turn D P)
    send_own state reason detail id e t =
        and_then (planner.allocate_grant_id t.planner) (λ (p : P × ℕ).
          send_to id
            (record default_grant {
              session = e.session.session;
              request_generation = e.session.request_generation;
              state = state;
              grant_id = p.1;
              reason = reason;
              detail = detail;
            })
            e (record t { planner = p.0 }))

    abbrev pub hold_reason : Bool → Reason
    hold_reason true = Reason.waiting_for_peer
    hold_reason false = Reason.scene_unavailable

    abbrev pub hold_detail : Bool → String
    hold_detail true = "expected namespace scope or first valid body observations missing"
    hold_detail false = "a Scene is authored but its live snapshot is unavailable"

    -- Without admission a participant with no route that has stopped is told to hold. A report of a
    -- vehicle that is not known is not defined in the source, and an exception here.
    unfoldable pub send_hold : Bool → PlannerBodyReport D → Turn D P → Option (Turn D P)
    send_hold scene r t = elim (find_entry r.id t.entries) [
      | none ↦ none
      | some e ↦
          if not (participant cfg now e)
            || r.has_route
            || member r.id t.sent
            || not e.session.stop_certified
            || (e.session.request_generation == 0)
            || says_hold (hold_reason scene) e.last
          then some t
          else send_own GrantState.hold (hold_reason scene) (hold_detail scene) r.id e t
    ]

    unfoldable pub send_holds : Bool → List (PlannerBodyReport D) → Turn D P → Option (Turn D P)
    send_holds scene [] t = some t
    send_holds scene (r ∷ rs) t = and_then (send_hold scene r t) (send_holds scene rs)

    abbrev pub refusal_text : Option String → String
    refusal_text none = "namespace is outside the declared Reset scope"
    refusal_text (some why) = why

    -- What was said last is said again once the period has passed.
    abbrev pub refresh :
        Bool → String → Entry D → Option (Publication D) → Turn D P → Option (Turn D P)
    refresh wanted id e none t = some t
    refresh wanted id e (some p) t =
        if ((now ⊖ p.sent) ≺ cfg.refresh_period) || not (wanted || is_pending e.session p.grant)
        then some t
        else send_to id p.grant e t

    abbrev pub resend : String → Entry D → Option (Publication D) → Turn D P → Option (Turn D P)
    resend id e none t = some t
    resend id e (some p) t =
        if cfg.refresh_period ≼ (now ⊖ p.sent) then send_to id p.grant e t else some t

    unfoldable pub keep_alive : String → Turn D P → Option (Turn D P)
    keep_alive id t = elim (find_entry id t.entries) [
      | none ↦ some t
      | some e ↦
          let detail = refusal_text e.bad_reason in
          if lost cfg now e || member id t.sent || (e.session.request_generation == 0)
          then some t
          else if has_value e.bad_reason || outside cfg id
          then (if says_reject detail e.last
              then resend id e e.last t
              else send_own GrantState.reject Reason.bad_session detail id e t)
          else refresh (participant cfg now e) id e e.last t
    ]

    unfoldable pub keep_all_alive : List String → Turn D P → Option (Turn D P)
    keep_all_alive [] t = some t
    keep_all_alive (id ∷ ids) t = and_then (keep_alive id t) (keep_all_alive ids)

    -- The step on the entries and the planner.
    unfoldable pub take_turn : Bool → Bool → List (String × Entry D) → P → Option (Turn D P)
    take_turn scene admit entries p =
        and_then (planner.update now (vehicles_of cfg now entries) admit p)
          (λ (u : P × List (PlannerDecision D)).
            and_then
              (send_decisions u.1
                (record { planner = u.0; entries = entries; sent = []; out = [] }))
              (λ (t : Turn D P).
                and_then (if admit then some t else send_holds scene (planner.report t.planner) t)
                  (keep_all_alive (map (λ (n : String × Entry D). n.0) entries))))

  abbrev finish_turn :
      {P : Type 0} → Coordinator D P → Turn D P → Coordinator D P × List (OutgoingGrant D)
  finish_turn c t = (record c { planner = t.planner; entries = t.entries }, t.out)

  unfoldable pub step_coordinator :
      {P : Type 0}
      → Planner D P
      → D
      → Coordinator D P
      → Option (Coordinator D P × List (OutgoingGrant D))
  step_coordinator planner now c =
      let scene = not c.scene_authored || c.scene_available in
      and_then
        (take_turn planner c.config now scene (scene && scope_ready c.config c.entries) c.entries
          c.planner)
        (λ (t : Turn _ _). some (finish_turn c t))
