-- ===== src/ResetSafety/Planner.antt =====
-- ugv_reset_safety/include/ugv_reset_safety/reset_planner.h: what the coordinator and the planner tell
-- each other, and the planner as the coordinator sees it.
use xgc2_ugv_controller.Base.{ℕ, Bool, String, List, Option}
use xgc2_ugv_controller.ResetClient.Protocol.{Pose, Point, VehicleSpec, Phase, GrantState, Reason}

pub record PlannerVehicle (D : Type 0) : Type 0 where
  pub id : String
  pub session : ℕ  -- uint32_t
  pub request_generation : ℕ  -- uint32_t
  pub acknowledged_grant_id : ℕ  -- uint32_t
  pub stop_certified : Bool
  pub available : Bool
  pub spec : VehicleSpec D
  pub pose : Pose D
  pub target : Pose D
  pub phase : Phase
  pub ell_hat : D
  pub ell_spread : D
  pub uncontrolled_moving : Bool

pub record PlannerDecision (D : Type 0) : Type 0 where
  pub id : String
  pub session : ℕ  -- uint32_t
  pub request_generation : ℕ  -- uint32_t
  pub state : GrantState
  pub reason : Reason
  pub detail : String
  pub blockers : List String
  pub grant_id : ℕ  -- uint32_t
  pub start : Pose D
  pub goal : Pose D
  pub final_move : Bool
  pub ell_plan : D
  pub via : List (Point D)
  pub s_limit : D

pub record PlannerBodyReport (D : Type 0) : Type 0 where
  pub id : String
  pub participant : Bool
  pub has_route : Bool
  pub progress : D
  pub remaining : D
  pub s_limit : D
  pub state : GrantState
  pub reason : Reason
  pub blockers : List String

-- reset_geometry.h
pub record ConvexObstacle (D : Type 0) : Type 0 where
  pub id : String
  pub vertices : List (Point D)
  pub origin : Point D
  pub velocity : Point D
  pub omega : D

pub record Fence (D : Type 0) : Type 0 where
  pub enabled : Bool
  pub xmin : D
  pub xmax : D
  pub ymin : D
  pub ymax : D

-- The operations of ResetPlanner that the coordinator calls, on the planner's state P; `none`
-- is an exception.
pub record Planner (D P : Type 0) : Type 0 where
  pub update : D → List (PlannerVehicle D) → Bool → P → Option (P × List (PlannerDecision D))
  pub report : P → List (PlannerBodyReport D)
  pub allocate_grant_id : P → Option (P × ℕ)
  pub set_world : List (ConvexObstacle D) → Fence D → P → P
  pub next_deadline : Bool → P → D
