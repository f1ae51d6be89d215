-- ===== src/Reference/Runtime/Update.antt =====
-- ReferenceTrajectoryRuntime: its operations. A turn is one `Advance`, and a second one for a plan.
use xgc2_ugv_controller.Base.{
  ℕ, ◌+◌, Bool, true, false, not, List, [], ◌∷◌, ◌++◌, Option, none, some, ◌==◌, u32, if◌then◌else◌,
  and_then,
}
use xgc2_ugv_controller.Floating.{Double, lit, ◌⊕◌, ◌⊘◌, ◌≺◌, ◌≼◌}
use xgc2_ugv_controller.StateMachine.{AdtMachine}
use xgc2_ugv_controller.Clock.Time.{Time, time_from_sec, time_to_sec}
use xgc2_ugv_controller.Clock.Gate.{PeriodicGate, new_gate, due}
use xgc2_ugv_controller.Reference.Types.{
  ActivePolynomialReference, PolynomialSegment, TrajectoryMath, or_32,
}
use xgc2_ugv_controller.Reference.Build.{adjusted_start_time}
use xgc2_ugv_controller.Reference.Runtime.{
  ReferenceOutput, Waypoint, Retained, Request, RuntimeState, Runtime, has_evaluator,
  active_revision, output_of, state_code,
}

module _ {D : Type 0} where
  abbrev coefficients : (PolynomialSegment D → List D) → List (PolynomialSegment D) → List D
  coefficients part [] = []
  coefficients part (s ∷ rest) = part s ++ coefficients part rest

  abbrev durations : List (PolynomialSegment D) → List D
  durations [] = []
  durations (s ∷ rest) = s.duration ∷ durations rest

module _ {D E L M : Type 0} ⦃f : Double D⦄ where
  unfoldable pub publish_output :
      PeriodicGate D → D → ReferenceOutput → Runtime D E L M → PeriodicGate D × Runtime D E L M
  publish_output gate rate kind rt =
      let r = due rt.current_time_sec (lit 1 0 ⊘ rate) gate in
      (
        r.0,
        if r.1
            then record rt {
              outputs = rt.outputs ++ record { kind = kind; timestamp = rt.current_time_sec } ∷ [];
            }
            else rt,
      )

  -- The gates of the alternative Active, and the runtime.
  unfoldable pub publish_active :
      PeriodicGate D → PeriodicGate D → Runtime D E L M → RuntimeState D × Runtime D E L M
  unfolding publish_output
  publish_active status publication rt =
      let a = publish_output status rt.config.status_rate_hz ReferenceOutput.status rt in
      let b =
        publish_output publication rt.config.active_publish_rate_hz (output_of rt.retained) a.1 in
      (RuntimeState.active a.0 b.0, b.1)

  unfoldable pub activate : Request D E → Runtime D E L M → Runtime D E L M
  activate (Request.analytic m e g) rt = record rt {
    flags = g;
    retained = Retained.analytic m e g;
    request = Request.nothing;
  }
  activate (Request.sampled m e g) rt = record rt {
    flags = g;
    retained = Retained.sampled m e g;
    request = Request.nothing;
  }
  activate _ rt = rt

  -- `activateRequest`
  abbrev pub activate_request : Runtime D E L M → Runtime D E L M
  activate_request rt = activate rt.request rt

  unfoldable pub start_time : Time → Runtime D E L M → Option Time
  start_time requested rt =
      time_from_sec
        (adjusted_start_time (time_to_sec requested) rt.current_time_sec rt.config.min_lead_time)

  abbrev pub state_of : ⦃k : AdtMachine (RuntimeState D) D M⦄ → Runtime D E L M → RuntimeState D
  state_of ⦃k = k⦄ rt = k.state rt.machine

  module _ (math : TrajectoryMath D E L) where
    plan_message : Waypoint D → E → ℕ → Time → Time → Runtime D E L M → ActivePolynomialReference D
    plan_message w e flags stamp start rt = record {
      header = record w.message.header { stamp = stamp };
      trajectory_id = w.message.trajectory_id;
      revision =
          if w.message.revision == 0
          then u32 (active_revision rt.retained + 1)
          else w.message.revision;
      flags = or_32 flags w.message.flags;
      start_time = start;
      duration = math.duration e;
      order = math.order e;
      segment_durations = durations (math.segments e);
      coeff_x = coefficients (λ s. s.x) (math.segments e);
      coeff_y = coefficients (λ s. s.y) (math.segments e);
      coeff_yaw = coefficients (λ s. s.yaw) (math.segments e);
    }

    -- What the solver gives, and whether it has succeeded.
    unfoldable pub planned :
        Waypoint D → Option E × ℕ → Runtime D E L M → Option (Runtime D E L M × Bool)
    unfolding start_time plan_message
    planned w (none, flags) rt = some (record rt { flags = or_32 rt.flags flags }, false)
    planned w (some e, flags) rt = and_then (time_from_sec rt.current_time_sec) (λ stamp.
        and_then (start_time w.message.header.stamp rt) (λ start. some (
          record rt {
            flags = flags;
            retained = Retained.polynomial (plan_message w e flags stamp start rt) e flags;
          },
          true,
        )))

    -- `planWaypoint`
    unfoldable pub plan_waypoint : Waypoint D → Runtime D E L M → Option (Runtime D E L M × Bool)
    unfolding planned
    plan_waypoint w rt = planned w (math.solve w.problem w.flags) rt

    abbrev end_after : D → Time → Runtime D E L M → D
    end_after duration start rt =
        if duration ≼ lit 0 0
        then f.infinity
        else time_to_sec start ⊕ duration ⊕ rt.config.trajectory_timeout

    unfoldable pub active_end : Retained D E → Runtime D E L M → D
    active_end Retained.nothing rt = f.neg f.infinity
    active_end (Retained.analytic m e g) rt = end_after m.duration m.start_time rt
    active_end (Retained.sampled m e g) rt = end_after (math.duration e) m.start_time rt
    active_end (Retained.polynomial m e g) rt = end_after m.duration m.start_time rt

    unfoldable pub active_expired : D → Runtime D E L M → Bool
    unfolding active_end
    active_expired now rt = active_end rt.retained rt ≺ now

    -- A handler gives the alternative as it leaves it, what is entered, and the runtime.
    abbrev pub enter_ready :
        RuntimeState D
        → Runtime D E L M
        → RuntimeState D × Option (RuntimeState D) × Runtime D E L M
    enter_ready left rt =
        let r = publish_output new_gate rt.config.status_rate_hz ReferenceOutput.status rt in
        (left, some (RuntimeState.ready r.0), r.1)

    unfoldable pub advance_ready :
        PeriodicGate D
        → Request D E
        → Runtime D E L M
        → RuntimeState D × Option (RuntimeState D) × Runtime D E L M
    advance_ready gate (Request.waypoint w) rt = (
      RuntimeState.ready gate,
      some (RuntimeState.planning w),
      record rt { request = Request.nothing },
    )
    advance_ready gate Request.nothing rt =
        let r = publish_output gate rt.config.status_rate_hz ReferenceOutput.status rt in
        (RuntimeState.ready r.0, none, r.1)
    advance_ready gate q rt =
        let status = due rt.current_time_sec (lit 1 0 ⊘ rt.config.status_rate_hz) new_gate in
        let publication =
          due rt.current_time_sec (lit 1 0 ⊘ rt.config.active_publish_rate_hz) new_gate in
        (RuntimeState.ready gate, some (RuntimeState.active status.0 publication.0), activate q rt)

    abbrev pub entered_plan :
        Waypoint D
        → Runtime D E L M × Bool
        → RuntimeState D × Option (RuntimeState D) × Runtime D E L M
    entered_plan w (rt, false) = (RuntimeState.planning w, some RuntimeState.self_check, rt)
    entered_plan w (rt, true) =
        let r = publish_active new_gate new_gate rt in (RuntimeState.planning w, some r.0, r.1)

    unfoldable pub advance_active :
        PeriodicGate D
        → PeriodicGate D
        → Request D E
        → Runtime D E L M
        → RuntimeState D × Option (RuntimeState D) × Runtime D E L M
    advance_active status publication (Request.waypoint w) rt = (
      RuntimeState.active status publication,
      some (RuntimeState.planning w),
      record rt { request = Request.nothing },
    )
    advance_active status publication q rt =
        let activated = activate q rt in
        let active = RuntimeState.active status publication in
        let published = publish_active status publication activated in
        if not (has_evaluator activated.retained)
        then (active, some RuntimeState.self_check, activated)
        else if active_expired activated.current_time_sec activated
        then enter_ready active activated
        else (published.0, none, published.1)

    -- `Spec::handle`
    unfoldable pub handle_advance :
        RuntimeState D
        → Runtime D E L M
        → Option (RuntimeState D × Option (RuntimeState D) × Runtime D E L M)
    handle_advance RuntimeState.self_check rt = some (enter_ready RuntimeState.self_check rt)
    handle_advance (RuntimeState.ready gate) rt = some (advance_ready gate rt.request rt)
    handle_advance (RuntimeState.planning w) rt =
        and_then (plan_waypoint w rt) (λ p. some (entered_plan w p))
    handle_advance (RuntimeState.active status publication) rt =
        some (advance_active status publication rt.request rt)

    module _ ⦃k : AdtMachine (RuntimeState D) D M⦄ where
      abbrev pub settle :
          D → RuntimeState D × Option (RuntimeState D) × Runtime D E L M → Runtime D E L M
      settle now (left, none, rt) = record rt { machine = k.put left rt.machine }
      settle now (left, some s, rt) = record rt { machine = k.apply s now (k.put left rt.machine) }

      unfoldable pub dispatch : Runtime D E L M → Option (Runtime D E L M)
      dispatch rt =
          and_then (handle_advance (state_of rt) rt) (λ s. some (settle rt.current_time_sec s))

      -- A plan is made in the turn that asks for it.
      abbrev pub again : Runtime D E L M → Option (Runtime D E L M)
      again rt = if state_code (state_of rt) == 3 then dispatch rt else some rt

      unfoldable pub update : D → Runtime D E L M → Option (Runtime D E L M)
      update now rt = and_then (dispatch (record rt { current_time_sec = now; outputs = [] })) again
