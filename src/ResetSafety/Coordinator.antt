-- ===== src/ResetSafety/Coordinator.antt =====
-- ugv_reset_safety/src/reset_coordinator.cpp, class ResetCoordinator: what it keeps of each vehicle, and
-- what a Session message changes (`onSession`). The step is in Coordinator/Step. The map of the
-- vehicles is a list in the order of their names; the sorted vector of expected namespaces is a list,
-- whose binary search is membership.
pub mod Vehicles
pub mod Step
pub mod Publications
pub mod Turns
pub mod Events
pub mod Scope
pub mod Fleet
pub mod Deadline
mod Tests
use xgc2_ugv_controller.Base.{
  ℕ, Bool, true, false, not, ◌&&◌, ◌||◌, String, List, [], ◌∷◌, Option, none, some, ltb, leb, ◌==◌,
  str_eq, if◌then◌else◌,
}
use xgc2_ugv_controller.Floating.{Double, lit, ◌⊖◌, ◌⊘◌, ◌≺◌, ◌≼◌}
use xgc2_ugv_controller.ResetClient.Protocol.{
  Pose, VehicleSpec, Grant, Session, Phase, default_pose, default_session,
}
use Prim.Native.String.{compare}
use text.Mathlib.Text.{is_lt}

pub record CoordinatorConfig (D : Type 0) : Type 0 where
  pub expected_namespaces : List String
  pub lost_after : D
  pub refresh_period : D
  pub ttl : D
  pub moving_speed : D

pub record OutgoingGrant (D : Type 0) : Type 0 where
  pub vehicle : String
  pub grant : Grant D

pub record Publication (D : Type 0) : Type 0 where
  pub grant : Grant D
  pub sent : D

pub record Body (D : Type 0) : Type 0 where
  pub pose : Pose D
  pub spec : VehicleSpec D

pub record Entry (D : Type 0) : Type 0 where
  pub session : Session D
  pub received : D
  pub reference : Pose D
  pub reference_stamp : D
  pub speed : D
  pub bad_reason : Option String
  pub last : Option (Publication D)
  pub body : Option (Body D)
  pub next_publication_seq : ℕ  -- uint32_t

pub record Coordinator (D P : Type 0) : Type 0 where
  pub config : CoordinatorConfig D
  pub planner : P
  pub entries : List (String × Entry D)
  pub scene_authored : Bool
  pub scene_available : Bool

abbrev pub participant_phase : Phase → Bool
participant_phase Phase.requesting = true
participant_phase Phase.waiting = true
participant_phase Phase.moving = true
participant_phase Phase.settling = true
participant_phase _ = false

abbrev pub has_value {ℓ} : {A : Type ℓ} → Option A → Bool
has_value none = false
has_value (some _) = true

module _ {D : Type 0} where
  -- `entries_.find(name)`
  unfoldable pub find_entry : String → List (String × Entry D) → Option (Entry D)
  find_entry name [] = none
  find_entry name ((n, e) ∷ rest) = if str_eq n name then some e else find_entry name rest

  -- The entry of a name is changed in place.
  unfoldable pub change_entry :
      String → (Entry D → Entry D) → List (String × Entry D) → List (String × Entry D)
  change_entry name change [] = []
  change_entry name change ((n, e) ∷ rest) =
      if str_eq n name then (n, change e) ∷ rest else (n, e) ∷ change_entry name change rest

  -- A new entry takes its place in the order of the names.
  unfoldable pub insert_entry : String → Entry D → List (String × Entry D) → List (String × Entry D)
  insert_entry name new [] = (name, new) ∷ []
  insert_entry name new ((n, e) ∷ rest) =
      if is_lt (compare name n)
      then (name, new) ∷ (n, e) ∷ rest
      else (n, e) ∷ insert_entry name new rest

module _ {D : Type 0} ⦃f : Double D⦄ where
  positive : D → Bool
  positive v = f.isfinite v && (lit 0 0 ≺ v)

  pub valid_spec : VehicleSpec D → Bool
  unfolding positive
  valid_spec spec =
      let p = spec.footprint in
      positive p.half_length
      && positive p.half_width
      && (p.half_length ≺ lit 5 0)
      && (p.half_width ≺ lit 5 0)
      && f.isfinite p.offset_x
      && f.isfinite p.offset_y
      && (f.abs p.offset_x ≺ lit 5 0)
      && (f.abs p.offset_y ≺ lit 5 0)
      && positive spec.max_v
      && positive spec.max_w
      && positive spec.acc_v
      && positive spec.acc_w
      && f.isfinite spec.ell_bound
      && (lit 0 0 ≼ spec.ell_bound)
      && (spec.ell_bound ≺ lit 2 0)

  pub is_finite_pose : Pose D → Bool
  is_finite_pose p = f.isfinite p.x && f.isfinite p.y && f.isfinite p.yaw

  abbrev pub new_entry : Entry D
  new_entry = record {
    session = default_session;
    received = lit 0 0;
    reference = default_pose;
    reference_stamp = lit 0 0;
    speed = lit 0 0;
    bad_reason = none;
    last = none;
    body = none;
    next_publication_seq = 1;
  }

  -- An old publication, an old request, or another session under the same request.
  unfoldable pub is_stale : Session D → Session D → Bool
  is_stale s known =
      leb s.publication_seq known.publication_seq
      || ltb s.request_generation known.request_generation
      || ((s.request_generation == known.request_generation) && not (s.session == known.session))

  unfoldable pub refusal : String → Session D → Option String
  unfolding valid_spec is_finite_pose
  refusal vehicle s =
      if str_eq vehicle ""
      then some "empty vehicle name"
      else if not (valid_spec s.spec)
      then some "the declared footprint or limits are invalid"
      else if not (is_finite_pose s.pose)
      then some "the pose is not finite"
      else if participant_phase s.phase && not (is_finite_pose s.target)
      then some "the target is not finite"
      else none

  -- The measured motion of a body.
  unfoldable pub note_motion : Bool → Session D → Entry D → Entry D
  note_motion inserted s e =
      let dt = s.pose_stamp ⊖ e.reference_stamp in
      if inserted
      then record e { reference = s.pose; reference_stamp = s.pose_stamp }
      else if lit 2 1 ≼ dt
      then record e {
        speed = f.hypot (s.pose.x ⊖ e.reference.x) (s.pose.y ⊖ e.reference.y) ⊘ dt;
        reference = s.pose;
        reference_stamp = s.pose_stamp;
      }
      else e

  unfoldable pub same_request : Session D → Session D → Bool
  same_request s known =
      (s.session == known.session) && (s.request_generation == known.request_generation)

  -- A new session, or none: the earlier answer does not carry over.
  unfoldable pub keep_last : Bool → Session D → Entry D → Option (Publication D)
  keep_last inserted s e = if not inserted && not (same_request s e.session) then none else e.last

  -- The entry of a vehicle after a Session message that is not stale.
  unfoldable pub note_session : Bool → String → Session D → D → Entry D → Entry D
  unfolding refusal note_motion keep_last
  note_session inserted vehicle s now e =
      let why = refusal vehicle s in
      let body_valid = valid_spec s.spec && is_finite_pose s.pose && f.isfinite s.pose_stamp in
      let noted = record e {
        bad_reason = why;
        last = keep_last inserted s e;
        body =
            if body_valid && s.healthy
            then some (record { pose = s.pose; spec = s.spec })
            else e.body;
      } in
      let moved = if has_value why then noted else note_motion inserted s noted in
      record moved { session = s; received = now }

  unfoldable pub on_session :
      {P : Type 0} → String → Session D → D → Coordinator D P → Coordinator D P
  unfolding is_stale
  on_session vehicle s now c = elim (find_entry vehicle c.entries) [
    | none ↦ record c {
      entries = insert_entry vehicle (note_session true vehicle s now new_entry) c.entries;
    }
    | some e ↦ if is_stale s e.session then c else record c {
      entries = change_entry vehicle (note_session false vehicle s now) c.entries;
    }
  ]
