-- ===== src/ResetClient/Executor/Tests.antt =====
-- A vehicle's Reset on concrete numbers: the scenario, what it reaches, and each theorem at it.
use xgc2_ugv_controller.Base.{
  ℕ, ◌*◌, ◌^◌, ◌≡◌, ◌≢◌, ◌⊎◌, none, refl, true, false, ℤ, pos, List, [], ◌∷◌, ◌++◌, not, ◌&&◌, ◌==◌,
  u32_max,
}
use xgc2_ugv_controller.Floating.{lit, ◌≼◌, ◌⊖◌}
use xgc2_ugv_controller.Floating.Fixed.{fixed_double}
use xgc2_ugv_controller.ResetClient.Protocol.{
  wrap_angle, Pose, Grant, GrantState, Outcome, Reason, default_pose, default_grant, session_period,
}
use xgc2_ugv_controller.ResetClient.Executor.{
  Executor, ExecutorConfig, Measurement, active, permission, is_executing, stop_certified,
}
use xgc2_ugv_controller.ResetClient.Executor.Session.{default_config, new_executor}
use xgc2_ugv_controller.ResetClient.Executor.Reach.{Call, call, run_calls, run_calls-Inv}
use xgc2_ugv_controller.ResetClient.Tracker.{is_zero, start_route}
use xgc2_ugv_controller.ResetClient.Route.{make_route}
use xgc2_ugv_controller.ResetClient.Executor.Decision.{valid_go}
use xgc2_ugv_controller.ResetClient.Executor.Step.{step}
use xgc2_ugv_controller.ResetClient.Executor.Report.{
  take_result, session_due, mark_session_published,
}
use xgc2_ugv_controller.ResetClient.Executor.Report.Publishing.{
  oldest, others, pending-take_result, session_due-mark_session_published,
}
use xgc2_ugv_controller.ResetClient.Executor.Reach.Queue.{pending-reached-end}
use xgc2_ugv_controller.ResetClient.Executor.Results.{pending, OneResult}
use xgc2_ugv_controller.ResetClient.Executor.Results.Stepping.{step-OneResult}
use xgc2_ugv_controller.ResetClient.Executor.Safety.{SafeOutput, step-SafeOutput}
use xgc2_ugv_controller.ResetClient.Executor.Safety.Replay.{on_grant-on_grant}
use xgc2_ugv_controller.ResetClient.Executor.Safety.Rest.{call-Rests}
use xgc2_ugv_controller.ResetClient.Executor.Safety.Deadline.{EndsWith, step-EndsWith}
use xgc2_ugv_controller.ResetClient.Executor.Step.{is_overdue}
use xgc2_ugv_controller.ResetClient.Executor.{Run, Authority, Permission, Progress}
use xgc2_ugv_controller.ResetClient.Executor.Safety.Departure.{Departure, poll-Departure}
use xgc2_ugv_controller.ResetClient.Executor.Invariant.{Inv, Rests}
use xgc2_ugv_controller.ResetClient.Executor.Session.{
  prepare, install, finish, finish_as, retire, end, request_authority, count_generation,
  pending_results, final_result,
}
use xgc2_ugv_controller.ResetClient.Executor.Grants.{
  on_grant, ignored, outdated, admissible, accept, apply_grant, apply_brake, apply_go,
}
use xgc2_ugv_controller.ResetClient.Executor.Observe.{
  on_zero_published, is_other_zero, observe, watch_clock, predates_zero, fresh_pose, zero_since,
  causal_stopped, stopped,
}
use xgc2_ugv_controller.ResetClient.Executor.Poll.{poll, poll_certify, poll_depart, new_executing}
use xgc2_ugv_controller.ResetClient.Estimators.{add_velocity, add_ell, reset_velocity}

abbrev tenths : ℕ → ℤ
tenths n = pos (n * 10 ^ 8)

abbrev at : ℕ → Measurement ℤ
at n = record {
  ros_now = tenths n;
  wall_now = tenths n;
  pose = default_pose;
  pose_stamp = tenths n;
  healthy = true;
  pose_stamp_trusted = true;
  external_command_zero = true;
}

abbrev config : ExecutorConfig ℤ
config = default_config

abbrev target : Pose ℤ
target = record { x = tenths 10; y = tenths 0; yaw = tenths 0 }

abbrev brake : Grant ℤ
brake = record default_grant {
  request_generation = 1;
  publication_seq = 1;
  session = 1;
  state = GrantState.brake;
  grant_id = 1;
}

abbrev go : Grant ℤ
go = record default_grant {
  request_generation = 1;
  publication_seq = 2;
  session = 1;
  state = GrantState.go;
  grant_id = 2;
  start = default_pose;
  goal = target;
  s_limit = tenths 10;
}

-- The Reset is asked for, braked, and certified as stopped.
abbrev stopping : List (Call ℤ)
stopping =
    Call.resets 1 target true (at 0)
    ∷ Call.receives brake (at 1)
    ∷ Call.zero_published (tenths 2) 1 1
    ∷ Call.observes (at 3)
    ∷ Call.observes (at 4)
    ∷ Call.observes (at 5)
    ∷ Call.observes (at 6)
    ∷ Call.polls (at 6)
    ∷ []

-- Then a Go is received.
abbrev allowed : List (Call ℤ)
allowed = stopping ++ Call.receives go (at 6) ∷ []

abbrev start : Executor ℤ
start = new_executor config

stopping_certified : stop_certified (run_calls stopping start) ≡ true
unfolding run_calls call new_executor prepare install finish finish_as retire end request_authority
    on_grant ignored outdated admissible accept apply_grant apply_brake on_zero_published
    is_other_zero observe watch_clock predates_zero fresh_pose zero_since add_velocity add_ell poll
    poll_certify poll_depart causal_stopped stopped count_generation pending_results reset_velocity
    wrap_angle is_zero apply_go valid_go new_executing make_route start_route
stopping_certified = refl

go_departs : is_executing (permission (poll (at 6) (run_calls allowed start))) ≡ true
unfolding run_calls call new_executor prepare install finish finish_as retire end request_authority
    on_grant ignored outdated admissible accept apply_grant apply_brake on_zero_published
    is_other_zero observe watch_clock predates_zero fresh_pose zero_since add_velocity add_ell poll
    poll_certify poll_depart causal_stopped stopped count_generation pending_results reset_velocity
    wrap_angle is_zero apply_go valid_go new_executing make_route start_route
go_departs = refl

requested : Executor ℤ
requested = run_calls (Call.resets 1 target true (at 0) ∷ []) start

requested_active : active requested ≡ true
unfolding requested run_calls call new_executor prepare install finish finish_as retire end
    request_authority on_grant ignored outdated admissible accept apply_grant apply_brake
    on_zero_published is_other_zero observe watch_clock predates_zero fresh_pose zero_since
    add_velocity add_ell poll poll_certify poll_depart causal_stopped stopped count_generation
    pending_results reset_velocity wrap_angle is_zero apply_go valid_go new_executing make_route
    start_route
requested_active = refl

requested_free : (requested.previous_pending && requested.result_pending) ≡ false
unfolding requested run_calls call new_executor prepare install finish finish_as retire end
    request_authority on_grant ignored outdated admissible accept apply_grant apply_brake
    on_zero_published is_other_zero observe watch_clock predates_zero fresh_pose zero_since
    add_velocity add_ell poll poll_certify poll_depart causal_stopped stopped count_generation
    pending_results reset_velocity wrap_angle is_zero apply_go valid_go new_executing make_route
    start_route
requested_free = refl

run_calls-Inv_example : Inv (run_calls allowed (new_executor config))
run_calls-Inv_example = run_calls-Inv config allowed

poll-Departure_example :
    Departure (at 6) (run_calls allowed start) (poll (at 6) (run_calls allowed start))
poll-Departure_example = poll-Departure (at 6) (run_calls allowed start)

step-SafeOutput_example :
    SafeOutput
      (at 6)
      (poll (at 6) (run_calls allowed start))
      (step (at 6) (run_calls allowed start)).1
step-SafeOutput_example = step-SafeOutput (at 6) (run_calls allowed start)

pending-reached-end_example :
    pending (
      end Outcome.timeout Reason.none "late"
        (at 9)
        (run_calls (Call.resets 1 target true (at 0) ∷ []) (new_executor config)))
    ≡ pending (run_calls (Call.resets 1 target true (at 0) ∷ []) (new_executor config))
      ++ final_result Outcome.timeout Reason.none "late"
          (at 9)
          (run_calls (Call.resets 1 target true (at 0) ∷ []) (new_executor config))
        ∷ []
unfolding requested
pending-reached-end_example =
    pending-reached-end config (Call.resets 1 target true (at 0) ∷ []) Outcome.timeout Reason.none
      "late" (at 9) requested_active

step-OneResult_example : OneResult requested (step (at 9) requested)
step-OneResult_example = step-OneResult (at 9) requested requested_active requested_free

pending-take_result_example :
    ((take_result requested).1 ≡ oldest (pending requested))
    × (pending (take_result requested).0 ≡ others (pending requested))
    × (((take_result requested).1 ≢ none) ⊎ ((take_result requested).0 ≡ requested))
pending-take_result_example = pending-take_result requested

session_due-mark_session_published_example :
    session_due (at 2) (mark_session_published (at 1) requested) ≡ (
      not requested.protocol_fault
      && not (requested.next_publication == u32_max)
      && ((session_period ⊖ lit 1 9) ≼ ((at 2).wall_now ⊖ (at 1).wall_now)))
session_due-mark_session_published_example =
    session_due-mark_session_published (at 1) (at 2) requested

abbrev waiting_run : Run ℤ
waiting_run = record {
  header = record { session = 1; target = target };
  permission = Permission.await_brake;
  progress = Progress.requesting;
  target_valid = true;
  allowance = tenths 0;
  enter_ros = tenths 0;
  enter_wall = tenths 0;
  last_message_wall = tenths 0;
  heard = false;
  hold_reason = Reason.none;
  hold_detail = "";
  hold_blockers = [];
}

abbrev under_way : Executor ℤ
under_way = record (new_executor config) { authority = Authority.run waiting_run }

under_way_free : (under_way.previous_pending && under_way.result_pending) ≡ false
unfolding new_executor
under_way_free = refl

under_way_faultless : under_way.protocol_fault ≡ false
unfolding new_executor
under_way_faultless = refl

under_way_overdue : is_overdue under_way.cfg waiting_run (at 1000) ≡ true
unfolding new_executor is_overdue
under_way_overdue = refl

step-EndsWith_example : EndsWith Outcome.timeout under_way (step (at 1000) under_way)
step-EndsWith_example =
    step-EndsWith (at 1000) under_way waiting_run refl refl under_way_free under_way_faultless
      under_way_overdue

on_grant-on_grant_example :
    on_grant brake (at 2) (on_grant brake (at 1) requested) ≡ on_grant brake (at 1) requested
on_grant-on_grant_example = on_grant-on_grant brake (at 1) (at 2) requested

requested-Rests : Rests requested
unfolding Rests requested run_calls call new_executor prepare install finish finish_as retire end
    request_authority on_grant ignored outdated admissible accept apply_grant apply_brake
    on_zero_published is_other_zero observe watch_clock predates_zero fresh_pose zero_since
    add_velocity add_ell poll poll_certify poll_depart causal_stopped stopped count_generation
    pending_results reset_velocity wrap_angle is_zero apply_go valid_go new_executing make_route
    start_route
requested-Rests = refl

call-Rests_example : Rests (call (Call.receives brake (at 1)) requested)
call-Rests_example = call-Rests (Call.receives brake (at 1)) requested refl requested-Rests
