-- ===== src/ResetSafety/Coordinator/Tests.antt =====
-- A coordinator of one vehicle on concrete numbers, and each theorem at it.
use xgc2_ugv_controller.Base.{
  and_then, ℕ, ◌*◌, ◌+◌, ◌^◌, true, false, ℤ, pos, List, [], ◌∷◌, ◌≡◌, refl,
}
use xgc2_ugv_controller.Floating.Fixed.{fixed_double}
use xgc2_ugv_controller.ResetClient.Protocol.{
  Session, Phase, GrantState, Reason, default_session, default_pose, default_grant,
}
use xgc2_ugv_controller.ResetSafety.Planner.{Planner, PlannerDecision}
use xgc2_ugv_controller.ResetSafety.Coordinator.{Coordinator, CoordinatorConfig, on_session}
use xgc2_ugv_controller.ResetSafety.Coordinator.Step.{
  Turn, keep_alive, refusal_text, says_reject, step_coordinator,
}
use xgc2_ugv_controller.ResetSafety.Coordinator.Events.{
  Event, handle_all, new_coordinator, handle_all-IsSent,
}
use xgc2_ugv_controller.ResetSafety.Coordinator.Publications.{AllSound, on_session-AllSound}
use xgc2_ugv_controller.ResetSafety.Coordinator.Turns.Rounds.{IsSent, step_coordinator-IsSent}
use xgc2_ugv_controller.Base.{Option, none, some, not, ◌||◌}
use xgc2_ugv_controller.Floating.{◌≺◌}
use xgc2_ugv_controller.ResetSafety.Coordinator.{Entry, find_entry, has_value, new_entry}
use xgc2_ugv_controller.ResetSafety.Coordinator.Vehicles.{lost, participant, outside, scope_ready}
use xgc2_ugv_controller.ResetSafety.Coordinator.Scope.{make_coordinator, normalized}
use xgc2_ugv_controller.ResetSafety.Coordinator.Scope.Names.{
  Constructed, make_coordinator-Constructed,
}
use xgc2_ugv_controller.ResetSafety.Coordinator.Deadline.{
  next_deadline, deadline_of, repeat_deadline, repeats,
}
use xgc2_ugv_controller.ResetSafety.Coordinator.Deadline.Quiet.{next_deadline-keep_alive}

abbrev tenth : ℕ → ℤ
tenth n = pos (n * 10 ^ 8)

abbrev decision : PlannerDecision ℤ
decision = record {
  id = "ugv1";
  session = 1;
  request_generation = 1;
  state = GrantState.brake;
  reason = Reason.none;
  detail = "";
  blockers = [];
  grant_id = 1;
  start = default_pose;
  goal = default_pose;
  final_move = true;
  ell_plan = tenth 0;
  via = [];
  s_limit = tenth 0;
}

-- A planner that brakes the vehicle, and counts the ids that it gives.
abbrev braking : Planner ℤ ℕ
braking = record {
  update = λ now vehicles admit p. some (p, decision ∷ []);
  report = λ p. [];
  allocate_grant_id = λ p. some (p + 1, p + 1);
  set_world = λ statics fence p. p;
  next_deadline = λ admit p. fixed_double.infinity;
}

abbrev config : CoordinatorConfig ℤ
config = record {
  expected_namespaces = "ugv1" ∷ [];
  lost_after = tenth 30;
  refresh_period = tenth 4;
  ttl = tenth 10;
  moving_speed = tenth 1;
}

abbrev alone : Coordinator ℤ ℕ
alone = record {
  config = config;
  planner = 1;
  entries = [];
  scene_authored = false;
  scene_available = true;
}

abbrev request : Session ℤ
request = record default_session {
  session = 1;
  request_generation = 1;
  publication_seq = 1;
  phase = Phase.requesting;
  healthy = true;
}

abbrev asked : Coordinator ℤ ℕ
asked = on_session "ugv1" request (tenth 1) alone

alone-AllSound : AllSound alone.entries
unfolding AllSound
alone-AllSound = _

on_session-AllSound_example : AllSound (on_session "ugv1" request (tenth 1) alone).entries
on_session-AllSound_example = on_session-AllSound "ugv1" request (tenth 1) alone alone-AllSound

step_coordinator-IsSent_example : IsSent (step_coordinator braking (tenth 2) asked)
step_coordinator-IsSent_example =
    step_coordinator-IsSent braking (tenth 2) asked
      (on_session-AllSound "ugv1" request (tenth 1) alone alone-AllSound)

abbrev history : List (Event ℤ)
history =
    Event.shows true true ∷ Event.reports "ugv1" request (tenth 1) ∷ Event.ticks (tenth 2) ∷ []

handle_all-IsSent_example : IsSent (
    and_then
      (handle_all braking history (new_coordinator braking config 1 false true))
      (step_coordinator braking (tenth 7)))
handle_all-IsSent_example = handle_all-IsSent braking config 1 false true history (tenth 7)

-- A vehicle that was told to brake at 0.1 s.
abbrev told : Entry ℤ
told = record new_entry {
  session = request;
  received = tenth 1;
  last =
      some (record { grant = record default_grant { state = GrantState.brake }; sent = tenth 1 });
}

abbrev braked : Coordinator ℤ ℕ
braked = record alone { entries = ("ugv1", told) ∷ [] }

abbrev beginning : Turn ℤ ℕ
beginning = record { planner = 1; entries = braked.entries; sent = []; out = [] }

repeated_at_half_a_second : next_deadline braking (tenth 2) braked ≡ fixed_double.next_up (tenth 5)
unfolding next_deadline deadline_of repeat_deadline repeats lost participant outside scope_ready
repeated_at_half_a_second = refl

three_is_before : (fixed_double.next_up (tenth 3) ≺ next_deadline braking (tenth 2) braked) ≡ true
three_is_before = rw repeated_at_half_a_second refl

told_is_known : find_entry "ugv1" braked.entries ≡ some told
unfolding find_entry
told_is_known = refl

told_is_accepted :
    (not (has_value told.bad_reason || outside braked.config "ugv1")
      || says_reject braking braked.config
          (tenth 3)
          (refusal_text braking braked.config (tenth 3) told.bad_reason)
          told.last)
    ≡ true
unfolding outside
told_is_accepted = refl

next_deadline-keep_alive_example :
    keep_alive braking braked.config (tenth 3) "ugv1" beginning ≡ some beginning
next_deadline-keep_alive_example =
    next_deadline-keep_alive braking (tenth 2) (tenth 3) braked "ugv1" told beginning refl
      three_is_before told_is_known told_is_known told_is_accepted

abbrev two_names : CoordinatorConfig ℤ
two_names = record config { expected_namespaces = "ugv2" ∷ "ugv1" ∷ [] }

abbrev repeated_names : CoordinatorConfig ℤ
repeated_names = record config { expected_namespaces = "ugv2" ∷ "ugv1" ∷ "ugv2" ∷ [] }

abbrev rooted_names : CoordinatorConfig ℤ
rooted_names = record config { expected_namespaces = "/ugv1" ∷ [] }

repeated_names_throw : ◌≡◌ {A = Option (Coordinator ℤ ℕ)} (make_coordinator repeated_names 1) none
unfolding make_coordinator normalized
repeated_names_throw = refl

rooted_names_throw : ◌≡◌ {A = Option (Coordinator ℤ ℕ)} (make_coordinator rooted_names 1) none
unfolding make_coordinator normalized
rooted_names_throw = refl

make_coordinator-Constructed_example : Constructed {P = ℕ} two_names (make_coordinator two_names 1)
make_coordinator-Constructed_example = make_coordinator-Constructed two_names 1
