-- ===== src/Mecanum/Controller.antt =====
-- mecanum_ugv_controller/include/mecanum_ugv_controller/mecanum_ugv_controller.h: the state of class
-- MecanumUgvController, and what it computes from it. The Run of the alternative Reset is held by the
-- executor.
use xgc2_ugv_controller.Base.{
  ℕ, Bool, false, ◌&&◌, ◌||◌, String, List, [], ◌∷◌, ◌++◌, Option, none, some, ℤ, if◌then◌else◌,
  and_then,
}
use xgc2_ugv_controller.Floating.{Double, lit, ◌⊗◌, ◌≐◌, dmin}
use xgc2_ugv_controller.Clock.Time.{Time, time_from_sec, time_to_sec}
use xgc2_ugv_controller.Clock.Gate.{PeriodicGate, new_gate}
use xgc2_ugv_controller.Clock.Cadence.{WallControlCadence}
use xgc2_ugv_controller.StateMachine.{AdtMachine}
use xgc2_ugv_controller.ResetClient.Protocol.{Model, VehicleSpec}
use xgc2_ugv_controller.ResetClient.Executor.{Executor, Measurement, Run, permission}
use xgc2_ugv_controller.ResetClient.Executor.Session.{
  default_config, new_executor, permission_pending, set_spec, set_timeout,
}
use xgc2_ugv_controller.Mecanum.Types.{
  ControllerConfig, UgvState, ControlCommand, ResetTarget, WorldVelocityReference, ControllerOutput,
  ControlMode, no_control, no_target, no_reference, state_fresh, inside_fence, controller_config,
}

-- The alternatives of the machine. `reset` holds its Run through the executor.
pub data Alternative (D : Type 0) : Type 0 where
  self_check ready reset : PeriodicGate D → Alternative D
  custom1 : PeriodicGate D → Option D → Alternative D

-- What is entered, with new gates.
pub data Target (D : Type 0) : Type 0 where
  self_check ready custom1 : Target D
  reset : Run D → Target D

-- `Spec::Change`
pub data Change (D : Type 0) : Type 0 where
  stay : Change D
  enter : Target D → Change D

pub record Controller (D M : Type 0) : Type 0 where
  pub state : UgvState D
  pub config : ControllerConfig D
  pub command : ControlCommand D
  pub reset_target : ResetTarget D
  pub executor : Executor D
  pub reset_session_counter : ℕ  -- uint32_t
  pub world_reference : WorldVelocityReference D
  pub machine : M
  pub current_time_sec : D
  pub wall_time_sec : D
  pub last_health_ready : Bool
  pub reset_ever_started : Bool
  pub last_reset_admission_miss : String
  pub last_reset_hold_reason : String
  pub outputs : List (ControllerOutput D)
  pub status_gate : PeriodicGate D
  pub control_phase_ns : Option ℤ  -- int64_t
  pub wall_control : Option (WallControlCadence D)

-- What `healthReady` computes, with the time that it computes it from.
pub record Health : Type 0 where
  pub now : Time
  pub ready : Bool

abbrev pub mode_of : {D : Type 0} → Alternative D → ControlMode
mode_of (Alternative.self_check _) = ControlMode.self_check
mode_of (Alternative.ready _) = ControlMode.ready
mode_of (Alternative.custom1 _ _) = ControlMode.custom1
mode_of (Alternative.reset _) = ControlMode.reset

module _ {D : Type 0} ⦃f : Double D⦄ where
  -- `ResetExecutor::requiresZeroCommand`
  abbrev pub requires_zero_command : Executor D → Bool
  requires_zero_command e = e.protocol_fault || e.clock_invalid || permission_pending (permission e)

  -- The alternative that `Enter` makes of a value.
  abbrev pub entered : Target D → Alternative D
  entered Target.self_check = Alternative.self_check new_gate
  entered Target.ready = Alternative.ready new_gate
  entered Target.custom1 = Alternative.custom1 new_gate none
  entered (Target.reset _) = Alternative.reset new_gate

  abbrev reset_spec : ControllerConfig D → VehicleSpec D
  reset_spec cfg = record {
    model = Model.omni;
    footprint = record {
      half_length = lit 5 1 ⊗ cfg.reset_footprint_length;
      half_width = lit 5 1 ⊗ cfg.reset_footprint_width;
      offset_x = cfg.reset_footprint_offset_x;
      offset_y = cfg.reset_footprint_offset_y;
    };
    max_v = dmin cfg.reset_max_linear_speed cfg.max_linear_speed;
    max_vy = dmin cfg.reset_max_linear_speed cfg.max_linear_speed;
    max_w = dmin cfg.reset_max_yaw_rate cfg.max_yaw_rate;
    acc_v = cfg.reset_linear_acceleration;
    acc_w = cfg.reset_angular_acceleration;
    ell_bound = lit 0 0;
  }

module _ {D M : Type 0} ⦃f : Double D⦄ where
  unfoldable pub apply_reset_spec : Controller D M → Controller D M
  apply_reset_spec c = record c {
    executor = set_timeout c.config.reset_timeout (set_spec (reset_spec c.config) c.executor);
  }

  unfoldable pub set_config : ControllerConfig D → Controller D M → Controller D M
  set_config config c = apply_reset_spec (record c { config = config })

  abbrev pub clear_command : Controller D M → Controller D M
  clear_command c = record c { command = no_control }

  unfoldable pub set_command : ControlCommand D → Controller D M → Controller D M
  set_command command c = record c {
    command = if requires_zero_command c.executor then no_control else command;
  }

  abbrev pub emit : ControllerOutput D → Controller D M → Controller D M
  emit o c = record c { outputs = c.outputs ++ o ∷ [] }

  abbrev pub reset_target_ready : Controller D M → Bool
  reset_target_ready c =
      c.reset_target.valid
      && f.isfinite c.reset_target.x
      && f.isfinite c.reset_target.y
      && f.isfinite c.reset_target.yaw

  abbrev pub world_reference_ready : Controller D M → Bool
  world_reference_ready c =
      c.world_reference.valid && f.isfinite c.world_reference.vx && f.isfinite c.world_reference.vy

  -- `healthReady`: it reads the pose, the configuration and the time. `none` is the exception of the
  -- arithmetic of times.
  unfoldable pub health : Controller D M → Option Health
  health c = and_then (time_from_sec c.current_time_sec) (λ now.
      and_then (state_fresh c.state now c.config.state_timeout)
        (λ fresh. some (record { now = now; ready = fresh && inside_fence c.state c.config })))

  -- `resetMeasurement`, after `healthReady`
  unfoldable pub reset_measurement : Health → Controller D M → Measurement D
  reset_measurement h c = record {
    ros_now = c.current_time_sec;
    wall_now = c.wall_time_sec;
    pose = record { x = c.state.x; y = c.state.y; yaw = c.state.yaw };
    pose_stamp = time_to_sec c.state.stamp;
    healthy = h.ready;
    pose_stamp_trusted = c.state.pose_stamp_trusted;
    external_command_zero =
        (c.command.linear_x ≐ lit 0 0)
        && (c.command.linear_y ≐ lit 0 0)
        && (c.command.angular_z ≐ lit 0 0);
  }

  module _ ⦃k : AdtMachine (Alternative D) D M⦄ where
    abbrev pub mode : Controller D M → ControlMode
    mode c = mode_of (k.state c.machine)

    -- The constructor. `seed` is what the random device gives, masked to 31 bits.
    unfoldable pub new_controller : ℕ → D → UgvState D → Controller D M
    new_controller seed nan state = apply_reset_spec (record {
      state = state;
      config = controller_config nan;
      command = no_control;
      reset_target = no_target;
      executor = new_executor default_config;
      reset_session_counter = seed;
      world_reference = no_reference;
      machine = k.start (Alternative.self_check new_gate) (lit 0 0);
      current_time_sec = lit 0 0;
      wall_time_sec = lit 0 0;
      last_health_ready = false;
      reset_ever_started = false;
      last_reset_admission_miss = "";
      last_reset_hold_reason = "";
      outputs = [];
      status_gate = new_gate;
      control_phase_ns = none;
      wall_control = none;
    })
