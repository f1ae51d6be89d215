-- ===== src/Unicycle/Config.antt =====
-- unicycle_ugv_controller/include/unicycle_ugv_controller/common/types.h: the configuration.
use xgc2_ugv_controller.Base.{Bool, true, false, ◌&&◌}
use xgc2_ugv_controller.Floating.{Double, lit, ◌≐◌}

pub data StateSource : Type 0 where
  state_estimator platform_pose : StateSource

pub data TrackingStrategy : Type 0 where
  nmpc flatness : TrackingStrategy

pub record NmpcCostWeights (D : Type 0) : Type 0 where
  pub position_x : D
  pub position_y : D
  pub yaw : D
  pub speed : D
  pub accel : D
  pub omega : D
  pub angular_accel : D
  pub terminal_position_x : D
  pub terminal_position_y : D
  pub terminal_yaw : D
  pub terminal_speed : D

-- common/heading_recovery.h
pub record HeadingRecoveryConfig (D : Type 0) : Type 0 where
  pub gain : D
  pub axis_bias : D
  pub rate_damping : D

pub record ControllerConfig (D : Type 0) : Type 0 where
  pub control_rate_hz : D
  pub status_publish_rate_hz : D
  pub control_period : D
  pub prediction_horizon : D
  pub state_timeout : D
  pub solve_timeout : D
  pub result_timeout : D
  pub command_publish_rate_hz : D
  pub idle_cmd_rate_hz : D
  pub nmpc_request_rate_hz : D
  pub auto_start_tracking : Bool
  pub state_source : StateSource
  pub tracking_strategy : TrackingStrategy
  pub reset_timeout : D
  pub reset_footprint_length : D
  pub reset_footprint_width : D
  pub reset_footprint_offset_x : D
  pub reset_footprint_offset_y : D
  pub reset_max_linear_speed : D
  pub reset_max_yaw_rate : D
  pub reset_linear_acceleration : D
  pub reset_angular_acceleration : D
  pub reset_lateral_offset_bound : D
  pub chassis_max_linear_speed : D
  pub chassis_max_yaw_rate : D
  pub max_linear_speed : D
  pub min_linear_speed : D
  pub max_angular_speed : D
  pub max_linear_acceleration : D
  pub max_angular_acceleration : D
  pub flatness_kp : D
  pub flatness_kv : D
  pub flatness_v_eps : D
  pub flatness_lateral_response_length : D
  pub flatness_lateral_damping : D
  pub heading_recovery : HeadingRecoveryConfig D
  pub filter_zeta : D
  pub filter_wn : D
  pub velocity_dt_min : D
  pub velocity_dt_max : D
  pub fence_x_min : D
  pub fence_x_max : D
  pub fence_y_min : D
  pub fence_y_max : D
  pub reset_initial_x : D
  pub reset_initial_y : D
  pub reset_initial_yaw : D
  pub nmpc_weights : NmpcCostWeights D

-- `usesPoseVelocityFilter`
abbrev pub uses_pose_velocity_filter : StateSource → Bool
uses_pose_velocity_filter StateSource.state_estimator = false
uses_pose_velocity_filter _ = true

module _ {D : Type 0} ⦃f : Double D⦄ where
  -- `operator==` of NmpcCostWeights
  abbrev pub same_weights : NmpcCostWeights D → NmpcCostWeights D → Bool
  same_weights a b =
      (a.position_x ≐ b.position_x)
      && (a.position_y ≐ b.position_y)
      && (a.yaw ≐ b.yaw)
      && (a.speed ≐ b.speed)
      && (a.accel ≐ b.accel)
      && (a.omega ≐ b.omega)
      && (a.angular_accel ≐ b.angular_accel)
      && (a.terminal_position_x ≐ b.terminal_position_x)
      && (a.terminal_position_y ≐ b.terminal_position_y)
      && (a.terminal_yaw ≐ b.terminal_yaw)
      && (a.terminal_speed ≐ b.terminal_speed)

  abbrev nmpc_cost_weights : NmpcCostWeights D
  nmpc_cost_weights = record {
    position_x = lit 20 0;
    position_y = lit 20 0;
    yaw = lit 8 0;
    speed = lit 4 0;
    accel = lit 4 1;
    omega = lit 10 0;
    angular_accel = lit 1 0;
    terminal_position_x = lit 60 0;
    terminal_position_y = lit 60 0;
    terminal_yaw = lit 20 0;
    terminal_speed = lit 10 0;
  }

  abbrev heading_recovery_config : HeadingRecoveryConfig D
  heading_recovery_config = record { gain = lit 0 0; axis_bias = lit 5 1; rate_damping = lit 5 1 }

  -- The values that the header gives to the fields; the three initial coordinates are `nan` there.
  abbrev pub controller_config : D → ControllerConfig D
  controller_config nan = record {
    control_rate_hz = lit 500 0;
    status_publish_rate_hz = lit 5 0;
    control_period = lit 1 1;
    prediction_horizon = lit 1 0;
    state_timeout = lit 5 1;
    solve_timeout = lit 5 2;
    result_timeout = lit 1 1;
    command_publish_rate_hz = lit 30 0;
    idle_cmd_rate_hz = lit 5 0;
    nmpc_request_rate_hz = lit 100 0;
    auto_start_tracking = false;
    state_source = StateSource.state_estimator;
    tracking_strategy = TrackingStrategy.nmpc;
    reset_timeout = lit 90 0;
    reset_footprint_length = lit 90 2;
    reset_footprint_width = lit 80 2;
    reset_footprint_offset_x = lit 0 0;
    reset_footprint_offset_y = lit 0 0;
    reset_max_linear_speed = lit 35 2;
    reset_max_yaw_rate = lit 5 1;
    reset_linear_acceleration = lit 35 2;
    reset_angular_acceleration = lit 6 1;
    reset_lateral_offset_bound = lit 25 2;
    chassis_max_linear_speed = lit 105 2;
    chassis_max_yaw_rate = lit 105 2;
    max_linear_speed = lit 3 0;
    min_linear_speed = f.neg (lit 15 1);
    max_angular_speed = lit 25 1;
    max_linear_acceleration = lit 2 0;
    max_angular_acceleration = lit 3 0;
    flatness_kp = lit 6 0;
    flatness_kv = lit 4 0;
    flatness_v_eps = lit 15 2;
    flatness_lateral_response_length = lit 8 1;
    flatness_lateral_damping = lit 1 0;
    heading_recovery = heading_recovery_config;
    filter_zeta = lit 7071067811865476 16;
    filter_wn = lit 3141592653589793 14;
    velocity_dt_min = lit 1 4;
    velocity_dt_max = lit 2 1;
    fence_x_min = f.neg (lit 20 0);
    fence_x_max = lit 20 0;
    fence_y_min = f.neg (lit 20 0);
    fence_y_max = lit 20 0;
    reset_initial_x = nan;
    reset_initial_y = nan;
    reset_initial_yaw = nan;
    nmpc_weights = nmpc_cost_weights;
  }
