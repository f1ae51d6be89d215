-- ===== src/Unicycle/Controller.antt =====
-- unicycle_ugv_controller/include/unicycle_ugv_controller/unicycle_ugv_controller.h: the state of class
-- UnicycleUgvController, and what it computes from it. The Run of the alternative Reset is held by the
-- executor. The reference cache is what the type `C` stands for: a controller only asks whether it is valid.
pub mod Twist
use xgc2_ugv_controller.Base.{
  ℕ, Bool, true, false, not, ◌&&◌, ◌||◌, String, List, [], ◌∷◌, ◌++◌, Option, none, some, ℤ, pos,
  if◌then◌else◌, and_then,
}
use xgc2_ugv_controller.Floating.{Double, lit, ◌⊖◌, ◌⊗◌, ◌≺◌, ◌≼◌, ◌≐◌, dmin}
use xgc2_ugv_controller.Clock.Time.{time_from_sec, time_to_sec}
use xgc2_ugv_controller.Clock.Gate.{PeriodicGate, new_gate}
use xgc2_ugv_controller.Clock.Cadence.{WallControlCadence}
use xgc2_ugv_controller.StateMachine.{AdtMachine}
use xgc2_ugv_controller.ResetClient.Protocol.{Model, VehicleSpec}
use xgc2_ugv_controller.ResetClient.Executor.{Executor, Measurement, Run}
use xgc2_ugv_controller.ResetClient.Executor.Session.{
  default_config, new_executor, set_spec, set_timeout,
}
use xgc2_ugv_controller.Mecanum.Types.{ControlMode, ResetTarget, no_target, limit}
use xgc2_ugv_controller.Mecanum.Controller.{Health, requires_zero_command}
use xgc2_ugv_controller.Unicycle.Types.{
  UgvState, ControlCommand, CmdVel, WorldPvaReference, ControllerOutput, NmpcCompletion, no_control,
  no_twist, no_pva, finite_pose, state_fresh, inside_fence, rigid_estimate_healthy,
  body_speed_from_world, world_pva_ready,
}
use xgc2_ugv_controller.Unicycle.Config.{
  ControllerConfig, StateSource, TrackingStrategy, controller_config, uses_pose_velocity_filter,
}
use xgc2_ugv_controller.Unicycle.Filter.{PoseVelocityEstimator, new_estimator}

pub record SolveTicket (D : Type 0) : Type 0 where
  pub sequence : ℕ  -- uint64_t
  pub deadline : D

pub record Custom1 (D : Type 0) : Type 0 where
  pub solve : PeriodicGate D
  pub command : PeriodicGate D
  pub zero : PeriodicGate D
  pub in_flight : Option (SolveTicket D)
  pub pva : WorldPvaReference D
  pub body_speed : D
  pub last_tick : D
  pub sample_wall : Option D

-- The alternatives of the machine. `reset` holds its Run through the executor.
pub data Alternative (D : Type 0) : Type 0 where
  self_check ready reset : PeriodicGate D → Alternative D
  custom1 : Custom1 D → Alternative D

-- What is entered, with new gates; Custom1 begins with a speed at a time.
pub data Target (D : Type 0) : Type 0 where
  self_check ready : Target D
  custom1 : D → D → Target D
  reset : Run D → Target D

-- `Spec::Change`
pub data Change (D : Type 0) : Type 0 where
  stay : Change D
  enter : Target D → Change D

-- `ReferenceCache::valid`, as the controller sees it
pub record ReferenceSource (C : Type 0) : Type 0 where
  pub valid : C → Bool

pub record Controller (D M C : Type 0) : Type 0 where
  pub state : UgvState D
  pub config : ControllerConfig D
  pub reference_cache : C
  pub command : ControlCommand D
  pub reset_target : ResetTarget D
  pub executor : Executor D
  pub reset_session_counter : ℕ  -- uint32_t
  pub request_sequence : ℕ  -- uint64_t
  pub idle_pva : WorldPvaReference D
  pub pose_velocity : PoseVelocityEstimator D
  pub machine : M
  pub current_time_sec : D
  pub wall_time_sec : D
  pub last_pose_stamp : D
  pub have_pose_stamp : Bool
  pub last_health_ready : Bool
  pub reset_ever_started : Bool
  pub last_reset_admission_miss : String
  pub last_reset_hold_reason : String
  pub outputs : List (ControllerOutput D)
  pub last_status_ns : ℤ  -- int64_t
  pub control_phase_ns : Option ℤ  -- int64_t
  pub wall_control : Option (WallControlCadence D)
  pub completion_inbox : List (NmpcCompletion D)
  pub completions : List (NmpcCompletion D)

abbrev pub mode_of : {D : Type 0} → Alternative D → ControlMode
mode_of (Alternative.self_check _) = ControlMode.self_check
mode_of (Alternative.ready _) = ControlMode.ready
mode_of (Alternative.custom1 _) = ControlMode.custom1
mode_of (Alternative.reset _) = ControlMode.reset

abbrev pub is_flatness : TrackingStrategy → Bool
is_flatness TrackingStrategy.flatness = true
is_flatness TrackingStrategy.nmpc = false

abbrev pub by_nmpc : ControlMode → TrackingStrategy → Bool
by_nmpc ControlMode.custom1 TrackingStrategy.nmpc = true
by_nmpc ControlMode.custom1 TrackingStrategy.flatness = false
by_nmpc _ _ = false

module _ {D : Type 0} ⦃f : Double D⦄ where
  abbrev pub new_custom1 : D → D → Custom1 D
  new_custom1 body_speed last_tick = record {
    solve = new_gate;
    command = new_gate;
    zero = new_gate;
    in_flight = none;
    pva = no_pva;
    body_speed = body_speed;
    last_tick = last_tick;
    sample_wall = none;
  }

  -- The alternative that `Enter` makes of a value.
  abbrev pub entered : Target D → Alternative D
  entered Target.self_check = Alternative.self_check new_gate
  entered Target.ready = Alternative.ready new_gate
  entered (Target.custom1 speed now) = Alternative.custom1 (new_custom1 speed now)
  entered (Target.reset _) = Alternative.reset new_gate

  abbrev reset_spec : ControllerConfig D → VehicleSpec D
  reset_spec cfg = record {
    model = Model.unicycle;
    footprint = record {
      half_length = lit 5 1 ⊗ cfg.reset_footprint_length;
      half_width = lit 5 1 ⊗ cfg.reset_footprint_width;
      offset_x = cfg.reset_footprint_offset_x;
      offset_y = cfg.reset_footprint_offset_y;
    };
    max_v = dmin cfg.reset_max_linear_speed cfg.chassis_max_linear_speed;
    max_vy = lit 0 0;
    max_w = dmin cfg.reset_max_yaw_rate cfg.chassis_max_yaw_rate;
    acc_v = cfg.reset_linear_acceleration;
    acc_w = cfg.reset_angular_acceleration;
    ell_bound = cfg.reset_lateral_offset_bound;
  }

  -- The last test of `healthReady`, on a pose that is fresh and inside the fence
  abbrev is_sound : ControllerConfig D → UgvState D → Bool
  is_sound cfg s =
      if uses_pose_velocity_filter cfg.state_source
      then finite_pose s
      else rigid_estimate_healthy s.estimator_state s.estimator_flags

  -- The twist of a command: a mode's own limits for NMPC, the chassis's otherwise.
  unfoldable pub saturated_twist : Bool → ControllerConfig D → ControlCommand D → CmdVel D
  saturated_twist by_nmpc cfg command =
      if by_nmpc
      then record {
        linear_x = limit command.linear_speed cfg.min_linear_speed cfg.max_linear_speed;
        angular_z = limit command.angular_speed (f.neg cfg.max_angular_speed) cfg.max_angular_speed;
      }
      else record {
        linear_x =
            limit command.linear_speed (f.neg cfg.chassis_max_linear_speed)
              cfg.chassis_max_linear_speed;
        angular_z =
            limit command.angular_speed (f.neg cfg.chassis_max_yaw_rate) cfg.chassis_max_yaw_rate;
      }

module _ {D M C : Type 0} ⦃f : Double D⦄ where
  unfoldable pub apply_reset_spec : Controller D M C → Controller D M C
  apply_reset_spec c = record c {
    executor = set_timeout c.config.reset_timeout (set_spec (reset_spec c.config) c.executor);
  }

  unfoldable pub set_config : ControllerConfig D → Controller D M C → Controller D M C
  set_config config c = apply_reset_spec (record c { config = config })

  abbrev pub clear_command : Controller D M C → Controller D M C
  clear_command c = record c { command = no_control }

  unfoldable pub set_command : ControlCommand D → Controller D M C → Controller D M C
  set_command command c = record c {
    command = if requires_zero_command c.executor then no_control else command;
  }

  abbrev pub emit : ControllerOutput D → Controller D M C → Controller D M C
  emit o c = record c { outputs = c.outputs ++ o ∷ [] }

  unfoldable pub post_completion : NmpcCompletion D → Controller D M C → Controller D M C
  post_completion result c = record c { completion_inbox = c.completion_inbox ++ result ∷ [] }

  abbrev pub reset_target_ready : Controller D M C → Bool
  reset_target_ready c =
      c.reset_target.valid
      && f.isfinite c.reset_target.x
      && f.isfinite c.reset_target.y
      && f.isfinite c.reset_target.yaw

  abbrev pub command_ready : Controller D M C → Bool
  command_ready c =
      let age = c.current_time_sec ⊖ time_to_sec c.command.stamp in
      c.command.valid
      && f.isfinite c.command.linear_speed
      && f.isfinite c.command.angular_speed
      && f.isfinite age
      && (f.neg (lit 5 2) ≼ age)
      && (age ≼ c.config.result_timeout)

  -- `healthReady`: it reads the pose, the configuration and the time. `none` is the exception of the
  -- arithmetic of times.
  unfoldable pub health : Controller D M C → Option Health
  health c = and_then (time_from_sec c.current_time_sec) (λ now.
      and_then (state_fresh c.state now c.config.state_timeout) (λ fresh. some (record {
        now = now;
        ready =
            if not fresh || not (inside_fence c.state c.config)
            then false
            else is_sound c.config c.state;
      })))

  -- `resetMeasurement`, after `healthReady`
  unfoldable pub reset_measurement : Health → Controller D M C → Measurement D
  reset_measurement h c = record {
    ros_now = c.current_time_sec;
    wall_now = c.wall_time_sec;
    pose = record { x = c.state.x; y = c.state.y; yaw = c.state.yaw };
    pose_stamp = time_to_sec c.state.stamp;
    healthy = h.ready;
    pose_stamp_trusted = c.state.pose_stamp_trusted;
    external_command_zero =
        (c.command.linear_speed ≐ lit 0 0) && (c.command.angular_speed ≐ lit 0 0);
  }

  -- `controlState`: the state, with the filtered velocity where poses are all there is.
  unfoldable pub control_state : Controller D M C → UgvState D
  control_state c =
      let e = c.pose_velocity in
      if uses_pose_velocity_filter c.config.state_source
      then record (c.state) {
        vx = e.vx;
        vy = e.vy;
        yaw_rate = e.yaw_rate;
        speed = body_speed_from_world c.state.yaw e.vx e.vy;
        velocity_valid = e.velocity_valid;
      }
      else c.state

  abbrev pub velocity_valid : Controller D M C → Bool
  velocity_valid c =
      if uses_pose_velocity_filter c.config.state_source
      then c.pose_velocity.velocity_valid
      else c.state.velocity_valid

  -- `worldPva` and `referenceReady`, in an alternative
  abbrev pub world_pva : Alternative D → Controller D M C → WorldPvaReference D
  world_pva (Alternative.custom1 s) c = s.pva
  world_pva _ c = c.idle_pva

  abbrev pub reference_ready :
      ⦃source : ReferenceSource C⦄ → Alternative D → Controller D M C → Bool
  reference_ready ⦃source⦄ s c =
      if is_flatness c.config.tracking_strategy
      then world_pva_ready (world_pva s c)
      else source.valid c.reference_cache

  -- `cmdVel`, in a mode
  unfoldable pub cmd_vel : ControlMode → Controller D M C → CmdVel D
  unfolding saturated_twist
  cmd_vel mode c =
      if requires_zero_command c.executor
      then no_twist
      else if not c.command.valid
          || not (f.isfinite c.command.linear_speed)
          || not (f.isfinite c.command.angular_speed)
      then no_twist
      else saturated_twist (by_nmpc mode c.config.tracking_strategy) c.config c.command

  module _ ⦃k : AdtMachine (Alternative D) D M⦄ where
    abbrev pub mode : Controller D M C → ControlMode
    mode c = mode_of (k.state c.machine)

    -- The constructor. `seed` is what the random device gives, masked to 31 bits.
    unfoldable pub new_controller : ℕ → D → C → UgvState D → Controller D M C
    new_controller seed nan cache state = apply_reset_spec (record {
      state = state;
      config = controller_config nan;
      reference_cache = cache;
      command = no_control;
      reset_target = no_target;
      executor = new_executor default_config;
      reset_session_counter = seed;
      request_sequence = 0;
      idle_pva = no_pva;
      pose_velocity = new_estimator;
      machine = k.start (Alternative.self_check new_gate) (lit 0 0);
      current_time_sec = lit 0 0;
      wall_time_sec = lit 0 0;
      last_pose_stamp = lit 0 0;
      have_pose_stamp = false;
      last_health_ready = false;
      reset_ever_started = false;
      last_reset_admission_miss = "";
      last_reset_hold_reason = "";
      outputs = [];
      last_status_ns = pos 0;
      control_phase_ns = none;
      wall_control = none;
      completion_inbox = [];
      completions = [];
    })
