-- ===== src/ResetSafety/Coordinator/Events.antt =====
-- Every coordinator that Session messages, worlds, scenes and steps reach from one that knows no vehicle,
-- in any order and at any times.
use xgc2_ugv_controller.Base.{and_then, Bool, String, List, [], ◌∷◌, Option, none, some}
use xgc2_ugv_controller.Floating.{Double}
use xgc2_ugv_controller.ResetClient.Protocol.{Session}
use xgc2_ugv_controller.ResetSafety.Planner.{ConvexObstacle, Fence, Planner}
use xgc2_ugv_controller.ResetSafety.Coordinator.{
  Coordinator, CoordinatorConfig, OutgoingGrant, on_session,
}
use xgc2_ugv_controller.ResetSafety.Coordinator.Scope.{set_scene, set_world}
use xgc2_ugv_controller.ResetSafety.Coordinator.Step.{step_coordinator}
use xgc2_ugv_controller.ResetSafety.Coordinator.Publications.{AllSound, on_session-AllSound}
use xgc2_ugv_controller.ResetSafety.Coordinator.Turns.Rounds.{
  IsSent, failed, sent, step_coordinator-IsSent,
}

pub data Event (D : Type 0) : Type 0 where
  reports : String → Session D → D → Event D
  ticks : D → Event D
  bounds : List (ConvexObstacle D) → Fence D → Event D
  shows : Bool → Bool → Event D

module _ {D : Type 0} ⦃f : Double D⦄ {P : Type 0} (planner : Planner D P) where
  abbrev without_messages : Coordinator D P × List (OutgoingGrant D) → Option (Coordinator D P)
  without_messages r = some r.0

  pub handle : Event D → Coordinator D P → Option (Coordinator D P)
  handle (Event.reports vehicle s now) c = some (on_session vehicle s now c)
  handle (Event.bounds statics fence) c = some (set_world planner statics fence c)
  handle (Event.shows authored available) c = some (set_scene authored available c)
  handle (Event.ticks now) c = and_then (step_coordinator planner now c) without_messages

  -- The events in their order, up to an exception.
  pub handle_all : List (Event D) → Coordinator D P → Option (Coordinator D P)
  handle_all [] c = some c
  handle_all (v ∷ vs) c = and_then (handle v c) (handle_all vs)

  data IsReached : Option (Coordinator D P) → Type 0 where
    thrown : IsReached none
    reached : (c : Coordinator D P) → AllSound c.entries → IsReached (some c)

  stepped-IsReached :
      (o : Option (Coordinator D P × List (OutgoingGrant D)))
      → IsSent o
      → IsReached (and_then o without_messages)
  stepped-IsReached none s = thrown
  stepped-IsReached (some _) (sent c out sound addressed) = reached c sound

  handle-IsReached :
      (v : Event D) (c : Coordinator D P) → AllSound c.entries → IsReached (handle v c)
  unfolding handle set_world set_scene
  handle-IsReached (Event.reports vehicle s now) c a =
      reached _ (on_session-AllSound vehicle s now c a)
  handle-IsReached (Event.bounds statics fence) c a = reached _ a
  handle-IsReached (Event.shows authored available) c a = reached _ a
  handle-IsReached (Event.ticks now) c a =
      stepped-IsReached _ (step_coordinator-IsSent planner now c a)

  and_then-IsReached :
      (o : Option (Coordinator D P)) (k : Coordinator D P → Option (Coordinator D P))
      → IsReached o
      → ((c : Coordinator D P) → AllSound c.entries → IsReached (k c))
      → IsReached (and_then o k)
  and_then-IsReached none k r go_on = thrown
  and_then-IsReached (some c) k (reached _ a) go_on = go_on c a

  handle_all-IsReached :
      (vs : List (Event D)) (c : Coordinator D P) → AllSound c.entries → IsReached (handle_all vs c)
  unfolding handle_all
  handle_all-IsReached [] c a = reached c a
  handle_all-IsReached (v ∷ vs) c a =
      and_then-IsReached (handle v c) (handle_all vs) (handle-IsReached v c a)
        (handle_all-IsReached vs)

  last-IsSent :
      (o : Option (Coordinator D P)) (now : D)
      → IsReached o
      → IsSent (and_then o (step_coordinator planner now))
  last-IsSent none now r = failed
  last-IsSent (some c) now (reached _ a) = step_coordinator-IsSent planner now c a

  -- The coordinator that knows no vehicle yet.
  abbrev pub new_coordinator : CoordinatorConfig D → P → Bool → Bool → Coordinator D P
  new_coordinator config p authored available = record {
    config = config;
    planner = p;
    entries = [];
    scene_authored = authored;
    scene_available = available;
  }

  none-AllSound :
      (config : CoordinatorConfig D) (p : P) (authored available : Bool)
      → AllSound (new_coordinator config p authored available).entries
  unfolding AllSound
  none-AllSound config p authored available = _

  -- After any Session messages, new worlds, new scenes and steps from a coordinator that knows no
  -- vehicle, a further step throws, or an earlier one has, or every message that it sends carries the session and the request
  -- that its vehicle last reported and a publication number below the vehicle's next one.
  pub handle_all-IsSent :
      (config : CoordinatorConfig D) (p : P) (authored available : Bool) (vs : List (Event D))
      (now : D)
      → IsSent (
          and_then
            (handle_all vs (new_coordinator config p authored available))
            (step_coordinator planner now))
  handle_all-IsSent config p authored available vs now = last-IsSent _ now (
      handle_all-IsReached vs (new_coordinator config p authored available)
        (none-AllSound config p authored available))
