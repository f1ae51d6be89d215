-- ===== src/ResetSafety/Coordinator/Fleet.antt =====
-- reset_coordinator.cpp, `busy` and `fleet`: the summary of the vehicles.
use xgc2_ugv_controller.Base.{
  ℕ, Bool, false, not, ◌||◌, String, List, [], ◌∷◌, Option, none, some, str_eq, if◌then◌else◌,
}
use xgc2_ugv_controller.Floating.{Double, lit}
use xgc2_ugv_controller.ResetClient.Protocol.{Phase, GrantState, Reason}
use xgc2_ugv_controller.ResetSafety.Planner.{Planner, PlannerBodyReport}
use xgc2_ugv_controller.ResetSafety.Coordinator.{
  Coordinator, CoordinatorConfig, Entry, Publication, participant_phase,
}
use xgc2_ugv_controller.ResetSafety.Coordinator.Vehicles.{lost}

pub record FleetMember (D : Type 0) : Type 0 where
  pub vehicle : String
  pub session : ℕ  -- uint32_t
  pub phase : Phase
  pub grant_state : GrantState
  pub reason : Reason
  pub progress : D
  pub remaining : D
  pub is_lost : Bool
  pub blockers : List String

pub record FleetSummary (D : Type 0) : Type 0 where
  pub scene_available : Bool
  pub members : List (FleetMember D)

module _ {D : Type 0} where
  any_participant : List (String × Entry D) → Bool
  any_participant [] = false
  any_participant ((n, e) ∷ rest) = participant_phase e.session.phase || any_participant rest

  any_route : List (PlannerBodyReport D) → Bool
  any_route [] = false
  any_route (r ∷ rest) = r.has_route || any_route rest

  abbrev pub busy : {P : Type 0} → Planner D P → Coordinator D P → Bool
  unfolding any_participant any_route
  busy planner c = any_participant c.entries || any_route (planner.report c.planner)

  -- `reports[r.id] = r` in the order of the reports: the last one stays.
  find_report : String → List (PlannerBodyReport D) → Option (PlannerBodyReport D)
  find_report name [] = none
  find_report name (r ∷ rest) =
      later (if str_eq r.id name then some r else none) (find_report name rest)
    where
      later :
          Option (PlannerBodyReport D) → Option (PlannerBodyReport D) → Option (PlannerBodyReport D)
      later first none = first
      later first (some r) = some r

module _ {D : Type 0} ⦃f : Double D⦄ where
  -- What the last message says.
  said : Option (Publication D) → FleetMember D → FleetMember D
  said none m = m
  said (some p) m = record m {
    grant_state = p.grant.state;
    reason = p.grant.reason;
    blockers = p.grant.blockers;
  }

  reported : Option (PlannerBodyReport D) → FleetMember D → FleetMember D
  reported none m = m
  reported (some r) m =
      if r.has_route then record m { progress = r.progress; remaining = r.remaining } else m

  member_of :
      CoordinatorConfig D → D → List (PlannerBodyReport D) → String → Entry D → FleetMember D
  unfolding said reported find_report lost
  member_of cfg now reports name e = reported (find_report name reports) (
      said e.last (record {
        vehicle = name;
        session = e.session.session;
        phase = e.session.phase;
        grant_state = GrantState.hold;
        reason = Reason.none;
        progress = lit 0 0;
        remaining = lit 0 0;
        is_lost = lost cfg now e;
        blockers = [];
      }))

  members_of :
      CoordinatorConfig D
      → D
      → List (PlannerBodyReport D)
      → List (String × Entry D)
      → List (FleetMember D)
  unfolding member_of
  members_of cfg now reports [] = []
  members_of cfg now reports ((n, e) ∷ rest) =
      member_of cfg now reports n e ∷ members_of cfg now reports rest

  abbrev pub fleet : {P : Type 0} → Planner D P → D → Coordinator D P → FleetSummary D
  unfolding members_of
  fleet planner now c = record {
    scene_available = not c.scene_authored || c.scene_available;
    members = members_of c.config now (planner.report c.planner) c.entries;
  }
