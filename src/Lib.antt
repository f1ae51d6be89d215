-- ===== src/Lib.antt =====
-- Verification of the XGC2 UGV controller: the Reset protocol, with the vehicle's executor and the
-- coordinator that grants it its moves, the mecanum and the unicycle controller that run an executor, and
-- the runtime of the unicycle's reference trajectory.
--
-- A Reset brings every vehicle back to its start. A coordinator plans routes and grants each vehicle
-- prefixes of its route; the vehicle's executor brakes first, proves that it stands still, drives what
-- it was granted and reports one result. The parts and their files:
--
--   Base          numbers, Boolean tests, lists and integers that every file shares.
--   Clock         the times of the controllers, mecanum_ugv_controller/include/mecanum_ugv_controller:
--     Time        common/time.h, Duration and Time; Gate: state_machine/periodic_gate.h; Cadence:
--                 WallControlCadence of ugv_reset_client/include/ugv_reset_client/schedule.h. The unicycle
--                 controller has copies of the first two. An exception on a range error is `none`.
--   Floating      `double` as an abstract interface: the operations that the code uses, without laws.
--                 Floating/Fixed computes with integers in units of 1e-9, for the concrete runs.
--   ResetClient   the vehicle's side, ugv_reset_client/include/ugv_reset_client:
--     Protocol    reset_protocol.h: messages, codes, defaults and constants; Protocol/Names has the
--                 texts of `name`.
--     Route       reset_route.h, class Route: the constructor is `make_route`, `sample` is in
--                 Route/Sampling, the shape of a route in Route/Shape.
--     Estimators  reset_tracker.h, classes VelocityEstimator and EllEstimator.
--     Tracker     reset_tracker.h, class RouteTracker: `start` is `start_route`, `step` is
--                 `step_tracker` (Tracker/Step), which locates the vehicle on its route and drives as a
--                 unicycle (Tracker/Unicycle) or in any direction (Tracker/Omni). Tracker/Segment is
--                 about the position on the route.
--     Executor    reset_executor.h, class ResetExecutor. Its state is the record `Executor`, its
--                 operations are functions on it: Session (prepare, install, abort, finish, setSpec),
--                 Observe (observe, onZeroPublished, stopped), Decision and Grants (onGrant), Poll
--                 (poll), Control and Step (step), Report (makeSession, sessionDue, results, nextWake).
--                 Invariant, Results, Safety and Reach are about them; Reach makes any sequence of
--                 their calls.
--
--   ResetSafety   the coordinator's side, ugv_reset_safety:
--     Planner     include/ugv_reset_safety/reset_planner.h: the messages between the coordinator and its
--                 planner, and the planner as the coordinator sees it.
--     Coordinator src/reset_coordinator.cpp: onSession is `on_session`, step is `step_coordinator`
--                 (Coordinator/Step); the constructor is `make_coordinator` (Scope; Scope/Names is about it), `fleet` and
--                 `busy` are in Fleet, `nextDeadline` in Deadline, which Deadline/Quiet compares
--                 with the heartbeat of `step`. Publications and Turns are about what it sends,
--                 and Events makes any sequence of messages, worlds, scenes and steps.
--
--   StateMachine  the library state_machine/adt_machine.hpp, as an interface.
--   Mecanum       mecanum_ugv_controller:
--     Types       include/mecanum_ugv_controller/common/types.h and src/common_types.cpp. The library
--                 xgc2_math is the interface `AngleMath`.
--     Controller  the state of class MecanumUgvController; Handlers: the handlers of its alternatives;
--                 Turn: `turn` and the other operations; Wake: `nextWake`.
--     Modes       the abstract machine of control modes. Events makes any sequence of calls but `setCommand`,
--                 which only the handlers make. Sessions,
--                 Exclusion and Twist are about the Reset that the controller runs.
--
--   Reference     unicycle_reference_trajectory:
--     Types       include/unicycle_reference_trajectory/reference_types.h, and the trajectories of the
--                 library xgc2_math as the interface `TrajectoryMath`.
--     Build       src/unicycle_reference_trajectory_runtime.cpp, buildAnalyticEvaluator,
--                 buildSampledEvaluator, buildWaypointProblem (Build/Waypoints is about it); Runtime: the state of class
--                 ReferenceTrajectoryRuntime, Runtime/Update its `update`, Runtime/Accept its other
--                 operations. Runtime/Laws and Runtime/Operations are about them.
--
--   Unicycle      unicycle_ugv_controller:
--     Config, Types  include/unicycle_ugv_controller/common/types.h and predicates of src/common_types.cpp;
--                 what is equal to the mecanum controller's (modes, commands, outcomes, targets) is its.
--     Filter      src/common_types.cpp, the velocity of a pose; Filter/Scaling is about its loop.
--     Flatness    common/heading_recovery.h, and of src/common_types.cpp `computeFlatnessCommand`;
--                 Flatness/Limits is about its results.
--     Cache       src/reference_cache.cpp, class ReferenceCache; Cache/Horizon is about `sampleHorizon`.
--     Controller  the state of class UnicycleUgvController; Publish, Tick and Handlers: the handlers of
--                 its alternatives; Operations and Turn: its operations and `turn`; Wake: `nextWake`.
--     Events      any sequence of calls, with completions that the solver's worker posts between them.
--                 Controller/Twist, Handlers/Completion and Requests are about these.
--
-- The two sides meet in the messages of Protocol: the executor's Session is what `on_session` takes, and
-- the coordinator's Grant is what `on_grant` takes.
--
-- CONTROL owns the Run of a session and the executor borrows it by pointer. At most one Run is
-- installed, and its fields are private to the executor, so the model holds it in `authority`; the
-- Run's destructor is `finish`. `last_hold_logged`, which only a log reads, is left out. A vector that
-- is read outside its bounds gives a default value in the model. A uint32_t is a
-- natural number, with its wrap-around written out where the source adds to it. The loop that moves the
-- tracker to its segment runs on fuel, as many steps as the route has segments: each
-- step of the loop moves one segment on, and it stops at the last. The loop that scales the matrix of the
-- velocity filter has fuel for 1100 halvings, more than a finite `double` takes; an infinite norm never
-- ends it, and is `none`. The loop of a periodic gate has fuel for 11 periods, since it is entered at most
-- ten periods late; where rounding loses the period the source's loop does not end, and the model's gate
-- stays where it is. A container in which the source only appends and drops at the front is a list.
--
-- The map of the coordinator's vehicles is a list in the order of their names. An exception of the
-- coordinator, of a controller or of the reference runtime is `none`; a controller's `healthReady`, the one source of its exceptions,
-- is computed once in a turn, since it reads nothing that the turn changes. The mutexes of the completions
-- and of the reference cache only order calls, and a call of the model is one such step.
--
-- Not modelled: the conversion of messages (reset_ros.h), the inside of the planner and its geometry
-- (ugv_reset_safety), the execution of NMPC solves with the generated solver, the texts of operator
-- commands, the driver of the reference runtime, and the bindings to ROS and to the module host
-- (ugv_modules).
pub mod Base
pub mod Clock
pub mod Floating
pub mod Mecanum
pub mod Reference
pub mod ResetClient
pub mod ResetSafety
pub mod StateMachine
pub mod Unicycle
