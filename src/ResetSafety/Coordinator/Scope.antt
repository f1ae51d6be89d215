-- ===== src/ResetSafety/Coordinator/Scope.antt =====
-- reset_coordinator.cpp, the constructor: the declared scope of namespaces; `setWorld` and `setScene`.
pub mod Order
pub mod Names
use xgc2_ugv_controller.Base.{
  ◌-◌, ◌≡◌, refl, sym, ap, ◌∙◌, Bool, true, false, not, ◌&&◌, ◌||◌, String, List, [], ◌∷◌, Option,
  none, some, str_eq, leb, if_cases, if◌then◌else◌, arith, Bool-cases, ◌⊎◌, inl, inr,
}
use Prim.Native.String.{compare, len, slice, find}
use text.Mathlib.Text.{is_lt, starts_with}
use xgc2_ugv_controller.ResetSafety.Planner.{Planner, ConvexObstacle, Fence}
use xgc2_ugv_controller.ResetSafety.Coordinator.{Coordinator, CoordinatorConfig}
use xgc2_ugv_controller.ResetSafety.Coordinator.Vehicles.{member}

-- `std::sort`
abbrev pub insert_name : String → List String → List String
insert_name s [] = s ∷ []
insert_name s (t ∷ rest) =
    let inserted = insert_name s rest in if is_lt (compare t s) then t ∷ inserted else s ∷ t ∷ rest

abbrev pub sort_names : List String → List String
sort_names [] = []
sort_names (s ∷ rest) = insert_name s (sort_names rest)

-- `std::adjacent_find` finds nothing.
abbrev pub no_adjacent : List String → Bool
no_adjacent [] = true
no_adjacent (s ∷ []) = true
no_adjacent (s ∷ t ∷ rest) = not (str_eq s t) && no_adjacent (t ∷ rest)

-- A nonempty name without a slash at an end or two in a row.
unfoldable pub normalized : String → Bool
normalized s =
    not (str_eq s "")
    && not (starts_with s "/")
    && not (str_eq (slice s (len s - 1) (len s)) "/")
    && not (leb (find s "//") (len s))

abbrev pub all_normalized : List String → Bool
all_normalized [] = true
all_normalized (s ∷ rest) = normalized s && all_normalized rest

module _ {D P : Type 0} where
  -- The constructor, with the planner that it makes of its configuration; `none` is its exception.
  unfoldable pub make_coordinator : CoordinatorConfig D → P → Option (Coordinator D P)
  make_coordinator config planner =
      let names = sort_names config.expected_namespaces in
      if no_adjacent names && all_normalized names
      then some (record {
        config = record config { expected_namespaces = names };
        planner = planner;
        entries = [];
        scene_authored = false;
        scene_available = true;
      })
      else none

  unfoldable pub set_world :
      Planner D P → List (ConvexObstacle D) → Fence D → Coordinator D P → Coordinator D P
  set_world planner statics fence c = record c {
    planner = planner.set_world statics fence c.planner;
  }

  unfoldable pub set_scene : Bool → Bool → Coordinator D P → Coordinator D P
  set_scene authored available c = record c {
    scene_authored = authored;
    scene_available = available;
  }
