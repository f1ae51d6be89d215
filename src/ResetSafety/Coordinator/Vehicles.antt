-- ===== src/ResetSafety/Coordinator/Vehicles.antt =====
-- reset_coordinator.cpp: what the coordinator judges of each vehicle (`lost`, `participant`, `scopeReady`)
-- and tells its planner, the first loop of `step`.
use xgc2_ugv_controller.Base.{
  Bool, true, false, not, ◌&&◌, ◌||◌, String, List, [], ◌∷◌, Option, none, some, str_eq,
  if◌then◌else◌,
}
use xgc2_ugv_controller.Floating.{Double, ◌⊖◌, ◌≺◌}
use xgc2_ugv_controller.ResetClient.Protocol.{Phase, default_pose, default_spec}
use xgc2_ugv_controller.ResetSafety.Planner.{PlannerVehicle}
use xgc2_ugv_controller.ResetSafety.Coordinator.{
  CoordinatorConfig, Entry, Body, participant_phase, has_value, find_entry,
}

abbrev pub member : String → List String → Bool
member s [] = false
member s (t ∷ rest) = str_eq t s || member s rest

abbrev pub is_empty : List String → Bool
is_empty [] = true
is_empty _ = false

module _ {D : Type 0} ⦃f : Double D⦄ where
  unfoldable pub lost : CoordinatorConfig D → D → Entry D → Bool
  lost cfg now e = cfg.lost_after ≺ (now ⊖ e.received)

  unfoldable pub participant : CoordinatorConfig D → D → Entry D → Bool
  unfolding lost
  participant cfg now e = participant_phase e.session.phase && not (lost cfg now e)

  unfoldable pub outside : CoordinatorConfig D → String → Bool
  outside cfg name =
      not (is_empty cfg.expected_namespaces) && not (member name cfg.expected_namespaces)

  abbrev default_body : Body D
  default_body = record { pose = default_pose; spec = default_spec }

  abbrev body_of : Option (Body D) → Body D
  body_of none = default_body
  body_of (some b) = b

  -- The vehicle as the planner is told of it.
  vehicle_of : CoordinatorConfig D → D → String → Entry D → PlannerVehicle D
  unfolding lost outside
  vehicle_of cfg now name e =
      let s = e.session in
      let available = not (lost cfg now e) && not (has_value e.bad_reason) && s.healthy in
      let phase = if outside cfg name || has_value e.bad_reason then Phase.idle else s.phase in
      record {
        id = name;
        session = s.session;
        request_generation = s.request_generation;
        acknowledged_grant_id = s.acknowledged_grant_id;
        stop_certified = s.stop_certified && s.healthy && available;
        available = available;
        spec = (body_of e.body).spec;
        pose = (body_of e.body).pose;
        target = s.target;
        phase = phase;
        ell_hat = s.ell_hat;
        ell_spread = s.ell_spread;
        uncontrolled_moving =
            not (participant_phase phase) && not (lost cfg now e) && (cfg.moving_speed ≺ e.speed);
      }

  -- A vehicle that was refused and whose body is not known is left out.
  abbrev pub vehicles_of :
      CoordinatorConfig D → D → List (String × Entry D) → List (PlannerVehicle D)
  unfolding vehicle_of
  vehicles_of cfg now [] = []
  vehicles_of cfg now ((n, e) ∷ rest) =
      let others = vehicles_of cfg now rest in
      if has_value e.bad_reason && not (has_value e.body)
      then others
      else vehicle_of cfg now n e ∷ others

  -- Every expected vehicle has shown a body.
  has_body : Option (Entry D) → Bool
  has_body none = false
  has_body (some e) = has_value e.body

  all_known : List String → List (String × Entry D) → Bool
  unfolding has_body
  all_known [] entries = true
  all_known (n ∷ names) entries = has_body (find_entry n entries) && all_known names entries

  unfoldable pub scope_ready : CoordinatorConfig D → List (String × Entry D) → Bool
  unfolding all_known
  scope_ready cfg entries =
      not (is_empty cfg.expected_namespaces) && all_known cfg.expected_namespaces entries
