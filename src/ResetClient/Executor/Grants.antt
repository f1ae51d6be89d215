-- ===== src/ResetClient/Executor/Grants.antt =====
-- reset_executor.h, `onGrant`: which of the coordinator's messages are taken, and what they change.
use xgc2_ugv_controller.Base.{
  Bool, true, false, ◌&&◌, ◌||◌, not, Option, none, some, ltb, leb, ◌==◌, same_bool, if◌then◌else◌,
}
use xgc2_ugv_controller.Floating.{Double, lit, ◌⊕◌, ◌≺◌, ◌≼◌}
use xgc2_ugv_controller.ResetClient.Protocol.{Grant, GrantState, Outcome, Reason}
use xgc2_ugv_controller.ResetClient.Executor.{
  Executor, DeferredGo, Measurement, Permission, Authority, permission, header, active, session_id,
  set_permission, stop_certified, is_none, is_await_brake, is_await_go, is_executing, is_complete,
}
use xgc2_ugv_controller.ResetClient.Executor.Session.{request_authority, end}
use xgc2_ugv_controller.ResetClient.Executor.Decision.{same_route, same_decision, valid_go}

abbrev pub reject_outcome : Reason → Outcome
reject_outcome Reason.bad_session = Outcome.rejected_by_coordinator
reject_outcome Reason.scene_changed = Outcome.rejected_by_coordinator
reject_outcome Reason.scene_unavailable = Outcome.rejected_by_coordinator
reject_outcome Reason.non_participant_moving = Outcome.rejected_by_coordinator
reject_outcome Reason.none = Outcome.rejected_by_coordinator
reject_outcome _ = Outcome.infeasible

module _ {D : Type 0} ⦃f : Double D⦄ where
  -- The first test: no permission is asked for, another session or request, an invalid or old message.
  unfoldable pub ignored : Grant D → Executor D → Bool
  ignored g e =
      e.protocol_fault
      || is_none (permission e)
      || not (g.session == session_id e)
      || not (g.request_generation == e.generation)
      || (e.generation == 0)
      || (g.grant_id == 0)
      || not (f.isfinite g.ttl)
      || (g.ttl ≼ lit 0 0)
      || (e.have_publication && leb g.publication_seq e.last_publication)

  -- An older decision, or another one under the same id.
  unfoldable pub outdated : Grant D → Executor D → Bool
  outdated g e =
      ltb g.grant_id e.last_decision_id
      || ((g.grant_id == e.last_decision_id)
          && (not e.have_decision || not (same_decision e.last_decision g)))

  abbrev pub other_deferred : Grant D → Option (DeferredGo D) → Bool
  other_deferred g none = false
  other_deferred g (some d) = not (g.grant_id == d.grant.grant_id)

  -- A Go extends the route that is driven, or answers a certified stop.
  abbrev pub admissible_go : Grant D → Executor D → Permission D → Bool
  admissible_go g e (Permission.executing x) =
      x.tracker.active
      && same_route x g
      && same_bool g.final_move x.final
      && not ((g.s_limit ⊕ lit 1 9) ≺ x.s_limit)
  admissible_go g e (Permission.await_go _ certified deferred) =
      active e && certified && ltb e.brake_id g.grant_id && not (other_deferred g deferred)
  admissible_go g e _ = false

  abbrev pub admissible_as : GrantState → Grant D → Executor D → Bool
  admissible_as GrantState.go g e = valid_go g (header e).target && admissible_go g e (permission e)
  admissible_as GrantState.hold g e =
      is_executing (permission e)
      || (is_await_go (permission e) && stop_certified e && ltb e.brake_id g.grant_id)
      || (is_complete (permission e) && not (active e) && (g.grant_id == e.acknowledged_id))
  admissible_as GrantState.brake g e = true
  admissible_as GrantState.reject g e = true

  unfoldable pub admissible : Grant D → Executor D → Bool
  admissible g e = admissible_as g.state g e

  -- The Run notes what it heard.
  abbrev pub heard : Grant D → Measurement D → Authority D → Authority D
  heard g m (Authority.retirement h p) = Authority.retirement h p
  heard g m (Authority.run r) = Authority.run (record r {
    last_message_wall = m.wall_now;
    heard = true;
    hold_reason = g.reason;
    hold_detail = g.detail;
    hold_blockers = g.blockers;
  })

  unfoldable pub accept : Grant D → Measurement D → Executor D → Executor D
  accept g m e = record e {
    have_publication = true;
    last_publication = g.publication_seq;
    have_decision = true;
    last_decision_id = g.grant_id;
    last_decision = g;
    authority = heard g m e.authority;
  }

  unfoldable pub apply_brake : Grant D → Executor D → Executor D
  apply_brake g e =
      let braked = record (set_permission Permission.await_zero e) {
        brake_id = g.grant_id;
        acknowledged_id = g.grant_id;
      } in
      if is_await_brake (permission e)
      then braked
      else if g.grant_id == e.brake_id
      then e
      else request_authority (not (active e)) e

  abbrev pub go_permission : Grant D → D → Permission D → Permission D
  go_permission g wall (Permission.executing x) =
      Permission.executing
        (record x { heartbeat_deadline = wall ⊕ g.ttl; grant_id = g.grant_id; s_limit = g.s_limit })
  go_permission g wall (Permission.await_go zero certified _) =
      Permission.await_go zero certified (some (record { grant = g; deadline = wall ⊕ g.ttl }))
  go_permission g wall p = p

  unfoldable pub apply_go : Grant D → Measurement D → Executor D → Executor D
  apply_go g m e =
      let granted = set_permission (go_permission g m.wall_now (permission e)) e in
      if is_executing (permission e)
      then record granted { acknowledged_id = g.grant_id }
      else granted

  unfoldable pub apply_hold : Grant D → Executor D → Executor D
  apply_hold g e =
      let completed = record (set_permission Permission.complete e) {
        acknowledged_id = g.grant_id;
      } in
      if not (active e) && is_await_go (permission e) then completed else e

  unfoldable pub apply_reject : Grant D → Measurement D → Executor D → Executor D
  apply_reject g m e = if active e then end (reject_outcome g.reason) g.reason g.detail m e else e

  unfoldable pub apply_grant : GrantState → Grant D → Measurement D → Executor D → Executor D
  apply_grant GrantState.brake g m e = apply_brake g e
  apply_grant GrantState.go g m e = apply_go g m e
  apply_grant GrantState.hold g m e = apply_hold g e
  apply_grant GrantState.reject g m e = apply_reject g m e

  unfoldable pub on_grant : Grant D → Measurement D → Executor D → Executor D
  on_grant g m e =
      if ignored g e || outdated g e || not (admissible g e)
      then e
      else apply_grant g.state g m (accept g m e)
