-- ===== src/ResetClient/Executor/Report.antt =====
-- reset_executor.h: what the executor publishes (`makeSession`, `sessionDue`, `markSessionPublished`)
-- and how its results are taken (`peekResult`, `commitResult`, `takeResult`).
pub mod Publishing
use xgc2_ugv_controller.Base.{
  ℕ, ◌+◌, Bool, true, false, ◌&&◌, ◌||◌, not, Option, none, some, ◌==◌, same_bool, u32, u32_max,
  if◌then◌else◌,
}
use xgc2_ugv_controller.Floating.{Double, lit, ◌⊕◌, ◌⊖◌, ◌≺◌, ◌≼◌, dmin}
use xgc2_ugv_controller.ResetClient.Protocol.{
  Session, Result, same_phase, is_unicycle, session_period,
}
use xgc2_ugv_controller.ResetClient.Estimators.{spread}
use xgc2_ugv_controller.ResetClient.Executor.{
  Executor, Measurement, Permission, Authority, Run, permission, header, active, phase, session_id,
  stop_certified,
}

-- Absolute deadlines in the two clocks (schedule.h).
pub record NextWake (D : Type 0) : Type 0 where
  pub domain : D
  pub wall : D

module _ {D : Type 0} ⦃f : Double D⦄ where
  abbrev pub at_domain : D → NextWake D → NextWake D
  at_domain t w = record w { domain = dmin w.domain t }

  abbrev pub at_wall : D → NextWake D → NextWake D
  at_wall t w = record w { wall = dmin w.wall t }

  abbrev include : NextWake D → NextWake D → NextWake D
  include other w = at_wall other.wall (at_domain other.domain w)

  abbrev motion_progress : Permission D → D
  motion_progress (Permission.executing x) =
      if x.tracker.active then x.tracker.progress else lit 0 0
  motion_progress _ = lit 0 0

  abbrev motion_cross_track : Permission D → D
  motion_cross_track (Permission.executing x) =
      if x.tracker.active then x.tracker.cross_track else lit 0 0
  motion_cross_track _ = lit 0 0

  abbrev pub make_session : Measurement D → Executor D → Session D
  make_session m e = record {
    request_generation = e.generation;
    acknowledged_grant_id = e.acknowledged_id;
    stop_certified = stop_certified e;
    publication_seq = e.next_publication;
    stamp = m.ros_now;
    session = session_id e;
    pose_stamp = m.pose_stamp;
    pose = m.pose;
    target = (header e).target;
    phase = phase e;
    progress = motion_progress (permission e);
    cross_track = motion_cross_track (permission e);
    spec = e.cfg.spec;
    ell_hat = if is_unicycle e.cfg.spec.model then e.ell.ell else lit 0 0;
    ell_spread = if is_unicycle e.cfg.spec.model then spread e.ell else lit 0 0;
    healthy = m.healthy;
  }

  pub session_due : Measurement D → Executor D → Bool
  session_due m e =
      not e.protocol_fault
      && (not e.published
          || not (same_phase (phase e) e.published_phase)
          || not (session_id e == e.published_session)
          || not (e.generation == e.published_generation)
          || not (e.acknowledged_id == e.published_ack)
          || not (same_bool (stop_certified e) e.published_cert)
          || ((session_period ⊖ lit 1 9) ≼ (m.wall_now ⊖ e.published_wall)))

  unfoldable pub mark_session_published : Measurement D → Executor D → Executor D
  mark_session_published m e =
      let marked = record e {
        published = true;
        published_phase = phase e;
        published_session = session_id e;
        published_generation = e.generation;
        published_ack = e.acknowledged_id;
        published_cert = stop_certified e;
        published_wall = m.wall_now;
      } in
      if e.next_publication == u32_max
      then record marked { protocol_fault = true }
      else record marked { next_publication = u32 (e.next_publication + 1) }

  -- The oldest pending result; `none` where the source returns false.
  pub peek_result : Executor D → Option (Result D)
  peek_result e =
      if e.previous_pending
      then some e.previous_result
      else if e.result_pending
      then some e.result
      else none

  unfoldable pub commit_result : Executor D → Executor D
  commit_result e =
      if e.previous_pending
      then record e { previous_pending = false }
      else record e { result_pending = false }

  unfoldable pub take_result : Executor D → Executor D × Option (Result D)
  unfolding peek_result commit_result
  take_result e = elim (peek_result e) [ none ↦ (e, none) | some r ↦ (commit_result e, some r) ]

  -- The wakes of a session that is under way.
  active_wake : Measurement D → Run D → Executor D → NextWake D → NextWake D
  active_wake m r e w0 =
      let w1 =
        if lit 0 0 ≺ e.cfg.timeout
        then at_wall (f.next_up (r.enter_wall ⊕ e.cfg.timeout))
            (at_domain (f.next_up (r.enter_ros ⊕ e.cfg.timeout)) w0)
        else w0 in
      if not m.healthy
      then w1
      else if r.target_valid
      then at_wall (f.next_up (r.last_message_wall ⊕ e.cfg.no_coordinator)) w1
      else at_wall (f.next_up (r.enter_wall ⊕ e.cfg.no_target_hold)) w1

  motion_wake : Measurement D → Run D → Executor D → Permission D → NextWake D → NextWake D
  motion_wake m r e (Permission.executing x) w =
      let next =
        if x.last_step_ros ≺ lit 0 0
        then m.ros_now
        else f.next_up (x.last_step_ros ⊕ e.cfg.control_period ⊖ lit 1 9) in
      if m.healthy && r.target_valid && not e.clock_invalid && x.tracker.active
      then at_domain next (at_wall (f.next_up x.heartbeat_deadline) w)
      else w
  motion_wake m r e p w = w

  authority_wake : Measurement D → Executor D → Authority D → NextWake D → NextWake D
  unfolding active_wake motion_wake
  authority_wake m e (Authority.retirement _ _) w = w
  authority_wake m e (Authority.run r) w =
      if active e then motion_wake m r e (permission e) (active_wake m r e w) else w

  unfoldable pub next_wake : Measurement D → Executor D → NextWake D
  unfolding authority_wake session_due
  next_wake m e =
      let never : NextWake D = record { domain = f.infinity; wall = f.infinity } in
      let publication =
        if session_due m e
        then m.wall_now
        else f.next_up (e.published_wall ⊕ session_period ⊖ lit 1 9) in
      authority_wake m e e.authority (if e.protocol_fault then never else at_wall publication never)
