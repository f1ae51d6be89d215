-- ===== src/Reference/Tests.antt =====
-- A reference runtime on concrete numbers: an analytic trajectory, then a plan; and each theorem at it.
use xgc2_ugv_controller.Base.{
  ℕ, ◌*◌, ◌^◌, ◌≡◌, refl, ℤ, pos, List, [], ◌∷◌, Option, some, none, and_then,
}
use xgc2_ugv_controller.Floating.Fixed.{fixed_double}
use xgc2_ugv_controller.StateMachine.{AdtMachine}
use xgc2_ugv_controller.Clock.Time.{zero_time, time_from_sec, time_to_sec}
use xgc2_ugv_controller.Clock.Gate.{due, catch_up}
use xgc2_ugv_controller.Reference.Types.{
  Vector, MessagePose, AnalyticReference, WaypointReferenceRequest, TrajectoryMath, or_32, and_32,
}
use xgc2_ugv_controller.Reference.Build.{
  adjusted_start_time, validated, build_analytic, build_waypoint,
}
use xgc2_ugv_controller.Reference.Runtime.{RuntimeState, Runtime, state_code}
use xgc2_ugv_controller.Reference.Runtime.Update.{
  publish_output, publish_active, activate, start_time, planned, plan_waypoint, active_expired,
  advance_ready, advance_active, handle_advance, dispatch, update, state_of,
}
use xgc2_ugv_controller.Reference.Runtime.Accept.{
  new_runtime, accept_request, analytic_request, accept_analytic, accept_waypoint,
}
use xgc2_ugv_controller.Reference.Runtime.Laws.{Good, Updated, update-Updated}
use xgc2_ugv_controller.Reference.Runtime.Operations.{
  Operation, operate, operate_all, Leaves, operate_all-Leaves,
}
use xgc2_ugv_controller.Reference.Build.Waypoints.{Taken, build_waypoint-Taken}

instance abbrev plain_machine : AdtMachine (RuntimeState ℤ) ℤ (RuntimeState ℤ)
plain_machine = record {
  start = λ s t. s;
  state = λ m. m;
  put = λ s m. s;
  apply = λ s t m. s;
  state-start = λ s t. refl;
  state-put = λ s m. refl;
  state-apply = λ s t m. refl;
}

abbrev tenth : ℕ → ℤ
tenth n = pos (n * 10 ^ 8)

-- An evaluator is its duration.
abbrev plain_math : TrajectoryMath ℤ ℤ ℕ
plain_math = record {
  fatal = 3;
  invalid_input = 1;
  hold = λ p. p.duration;
  circle = λ p. p.duration;
  figure_eight = λ p. p.duration;
  circle_entry = λ p. p.duration;
  set_samples = λ points explicit. some (tenth 50);
  solve = λ p flags. (some (tenth 30), flags);
  validate = λ e limits dt. 4;
  duration = λ e. e;
  order = λ e. 7;
  segments = λ e. [];
}

abbrev origin : Vector ℤ
origin = record { x = pos 0; y = pos 0; z = pos 0 }

abbrev still : MessagePose ℤ
still = record {
  position = origin;
  orientation = record { x = pos 0; y = pos 0; z = pos 0; w = tenth 10 };
}

abbrev circle : AnalyticReference ℤ
circle = record {
  header = record { seq = 0; stamp = zero_time; frame_id = "" };
  request_id = 1;
  trajectory_id = 1;
  revision = 1;
  analytic_type = 1;
  flags = 0;
  start_time = zero_time;
  duration = tenth 100;
  origin = still;
  params = [];
}

abbrev path : WaypointReferenceRequest ℤ
path = record {
  header = record { seq = 0; stamp = zero_time; frame_id = "" };
  request_id = 2;
  trajectory_id = 2;
  revision = 0;
  flags = 0;
  waypoints = still ∷ still ∷ [];
  segment_times = [];
  start_velocity = origin;
  start_acceleration = origin;
  end_velocity = origin;
  end_acceleration = origin;
  desired_speed = pos 0;
  max_velocity = tenth 10;
  max_acceleration = tenth 10;
  max_yaw_rate = tenth 10;
  max_linear_acceleration = pos 0;
  objective = 1;
}

abbrev Plain : Type 0
Plain = Runtime ℤ ℤ ℕ (RuntimeState ℤ)

abbrev start : Plain
start = new_runtime 0

abbrev calls : List (Operation ℤ ℕ)
calls =
    Operation.updates_at (tenth 10)
    ∷ Operation.analytic_at circle (tenth 10)
    ∷ Operation.updates_at (tenth 11)
    ∷ Operation.waypoint_at path (tenth 12)
    ∷ Operation.updates_at (tenth 12)
    ∷ []

abbrev code_of : Option Plain → Option ℕ
code_of o = and_then o (λ rt. some (state_code (state_of rt)))

-- The waypoints are planned in the turn that takes them.
plan_is_active : code_of (operate_all plain_math calls start) ≡ some 4
unfolding operate_all operate update dispatch handle_advance advance_ready advance_active activate
    publish_output publish_active due new_runtime accept_analytic accept_request analytic_request
    build_analytic validated or_32 and_32 start_time adjusted_start_time time_from_sec time_to_sec
    accept_waypoint build_waypoint active_expired plan_waypoint planned catch_up
plan_is_active = refl

start-Good : Good plain_math (state_of start) start
unfolding new_runtime
start-Good = record { follows = λ e. cc; kept = refl; asked = refl }

update-Updated_example : Updated plain_math (update plain_math (tenth 10) start)
update-Updated_example = update-Updated plain_math (tenth 10) start start-Good

operate_all-Leaves_example :
    Leaves {M = RuntimeState ℤ} plain_math (operate_all plain_math calls (new_runtime 0))
operate_all-Leaves_example = operate_all-Leaves plain_math 0 calls

-- Two waypoints and two segment times do not fit.
abbrev mistimed : WaypointReferenceRequest ℤ
mistimed = record path { segment_times = tenth 10 ∷ tenth 10 ∷ [] }

mistimed_is_refused : build_waypoint plain_math (tenth 1) mistimed ≡ (none, 1)
unfolding build_waypoint or_32
mistimed_is_refused = refl

build_waypoint-Taken_example : Taken 1 path (build_waypoint plain_math (tenth 1) path)
build_waypoint-Taken_example = build_waypoint-Taken plain_math (tenth 1) path
