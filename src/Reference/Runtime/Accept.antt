-- ===== src/Reference/Runtime/Accept.antt =====
-- ReferenceTrajectoryRuntime: its start, its configuration, the requests that it accepts, and what it reports.
use xgc2_ugv_controller.Base.{
  ℕ, Bool, true, false, not, ◌||◌, [], Option, none, some, if◌then◌else◌, and_then,
}
use xgc2_ugv_controller.Floating.{Double, lit, ◌⊕◌, ◌⊘◌, ◌≺◌, dmin}
use xgc2_ugv_controller.StateMachine.{AdtMachine}
use xgc2_ugv_controller.Clock.Time.{time_from_sec}
use xgc2_ugv_controller.Clock.Gate.{PeriodicGate}
use xgc2_ugv_controller.Reference.Types.{
  AnalyticReference, SampledReference, WaypointReferenceRequest, ReferenceStatus, WaypointProblem,
  TrajectoryMath, or_32,
}
use xgc2_ugv_controller.Reference.Build.{build_analytic, build_sampled, build_waypoint}
use xgc2_ugv_controller.Reference.Runtime.{
  ReferenceTrajectoryConfig, Retained, Request, RuntimeState, Runtime, active_trajectory_id,
  active_revision, active_type, no_request, state_code, usable,
}
use xgc2_ugv_controller.Reference.Runtime.Update.{active_end, start_time}

module _ {D : Type 0} ⦃f : Double D⦄ where
  -- `PeriodicGate::next` of this component, which does not look at the period.
  abbrev next_time : D → D → PeriodicGate D → D
  next_time now period g =
      if not g.initialized || (now ≺ g.last_time) then now else f.next_up (g.last_time ⊕ period)

module _ {D E L M : Type 0} ⦃f : Double D⦄ where
  module _ ⦃k : AdtMachine (RuntimeState D) D M⦄ where
    -- The constructor, with the values that the header gives to the fields.
    unfoldable pub new_runtime : L → Runtime D E L M
    new_runtime limits = record {
      config = record {
        status_rate_hz = lit 10 0;
        active_publish_rate_hz = lit 10 0;
        validation_sample_dt = lit 2 2;
        trajectory_timeout = lit 5 1;
        min_lead_time = lit 2 1;
        limits = limits;
      };
      machine = k.start RuntimeState.self_check (lit 0 0);
      current_time_sec = lit 0 0;
      flags = 0;
      request = Request.nothing;
      retained = Retained.nothing;
      outputs = [];
    }

    unfoldable pub reset_runtime : Runtime D E L M → Runtime D E L M
    reset_runtime rt = record rt {
      machine = k.apply RuntimeState.self_check (lit 0 0) rt.machine;
      current_time_sec = lit 0 0;
      flags = 0;
      request = Request.nothing;
      retained = Retained.nothing;
      outputs = [];
    }

    unfoldable pub configure : ReferenceTrajectoryConfig D L → Runtime D E L M → Runtime D E L M
    configure config rt = reset_runtime (record rt { config = usable config })

    abbrev pub make_status : D → Runtime D E L M → Option ReferenceStatus
    make_status stamp rt = and_then (time_from_sec stamp) (λ time. some (record {
      stamp = time;
      state = state_code (k.state rt.machine);
      flags = rt.flags;
      active_trajectory_id = active_trajectory_id rt.retained;
      active_revision = active_revision rt.retained;
      active_type = active_type rt.retained;
    }))

  -- A request that is built takes the place of one that waits; otherwise its flags are noted.
  unfoldable pub accept_request :
      {A : Type 0}
      → (A → E → ℕ → Runtime D E L M → Option (Request D E))
      → A
      → Option E × ℕ
      → Runtime D E L M
      → Option (Runtime D E L M × Bool)
  accept_request make msg (none, flags) rt =
      some (record rt { flags = or_32 rt.flags flags }, false)
  accept_request make msg (some e, flags) rt =
      and_then (make msg e flags rt) (λ q. some (record rt { request = q }, true))

  module _ (math : TrajectoryMath D E L) where
    unfoldable pub analytic_request :
        AnalyticReference D → E → ℕ → Runtime D E L M → Option (Request D E)
    unfolding start_time
    analytic_request msg e flags rt =
        and_then (start_time msg.start_time rt)
          (λ start. some (Request.analytic (record msg { start_time = start }) e flags))

    unfoldable pub sampled_request :
        SampledReference D → E → ℕ → Runtime D E L M → Option (Request D E)
    unfolding start_time
    sampled_request msg e flags rt =
        and_then (start_time msg.start_time rt)
          (λ start. some (Request.sampled (record msg { start_time = start }) e flags))

    unfoldable pub accept_analytic :
        AnalyticReference D → D → Runtime D E L M → Option (Runtime D E L M × Bool)
    accept_analytic msg receipt_time rt =
        accept_request analytic_request msg
          (build_analytic math rt.config.limits rt.config.validation_sample_dt msg)
          (record rt { current_time_sec = receipt_time })

    unfoldable pub accept_sampled :
        SampledReference D → D → Runtime D E L M → Option (Runtime D E L M × Bool)
    accept_sampled msg receipt_time rt =
        accept_request sampled_request msg
          (build_sampled math rt.config.limits rt.config.validation_sample_dt msg)
          (record rt { current_time_sec = receipt_time })

    abbrev pub waypoint_result :
        WaypointReferenceRequest D
        → Option (WaypointProblem D) × ℕ
        → Runtime D E L M
        → Runtime D E L M × Bool
    waypoint_result msg (none, flags) rt = (record rt { flags = or_32 rt.flags flags }, false)
    waypoint_result msg (some p, flags) rt = (
      record rt {
        request = Request.waypoint (record { message = msg; problem = p; flags = flags });
      },
      true,
    )

    unfoldable pub accept_waypoint :
        WaypointReferenceRequest D → D → Runtime D E L M → Runtime D E L M × Bool
    accept_waypoint msg receipt_time rt =
        waypoint_result msg (build_waypoint math rt.config.validation_sample_dt msg)
          (record rt { current_time_sec = receipt_time })

    state_deadline : RuntimeState D → Runtime D E L M → D
    state_deadline (RuntimeState.ready status) rt =
        next_time rt.current_time_sec (lit 1 0 ⊘ rt.config.status_rate_hz) status
    state_deadline (RuntimeState.active status publication) rt =
        dmin
          (dmin (next_time rt.current_time_sec (lit 1 0 ⊘ rt.config.status_rate_hz) status) (
            next_time rt.current_time_sec (lit 1 0 ⊘ rt.config.active_publish_rate_hz) publication))
          (f.next_up (active_end math rt.retained rt))
    state_deadline s rt = rt.current_time_sec

    abbrev pub runtime_deadline : ⦃k : AdtMachine (RuntimeState D) D M⦄ → Runtime D E L M → D
    unfolding state_deadline
    runtime_deadline ⦃k = k⦄ rt =
        if not (no_request rt.request)
        then rt.current_time_sec
        else state_deadline (k.state rt.machine) rt
