-- ===== src/ResetSafety/Coordinator/Scope/Names.antt =====
-- reset_coordinator.cpp, the constructor: the order in which it looks for a name that is repeated, and what
-- it comes to.
use xgc2_ugv_controller.Base.{
  ◌≡◌, refl, sym, ap, subst, ◌∙◌, Bool, true, false, not, ◌&&◌, ◌||◌, String, List, [], ◌∷◌, Option,
  none, some, str_eq, All, if_cases, arith, Bool-cases, ◌⊎◌, inl, inr,
}
use Prim.Native.String.{compare}
use text.Mathlib.Text.{is_lt}
use text.Mathlib.TextEquality.{eq_iff}
use xgc2_ugv_controller.ResetSafety.Coordinator.{Coordinator, CoordinatorConfig}
use xgc2_ugv_controller.ResetSafety.Coordinator.Vehicles.{member}
use xgc2_ugv_controller.ResetSafety.Coordinator.Scope.{
  all_normalized, insert_name, make_coordinator, no_adjacent, normalized, sort_names,
}
use xgc2_ugv_controller.ResetSafety.Coordinator.Scope.Order.{is_lt_asym, is_lt_total, is_lt_trans}

-- No name stands twice in a list.
abbrev pub no_repeats : List String → Bool
no_repeats [] = true
no_repeats (s ∷ rest) = not (member s rest) && no_repeats rest

-- Sorting keeps the names.
member-insert_name :
    (n s : String) (names : List String)
    → member n (insert_name s names) ≡ (str_eq s n || member n names)
member-insert_name n s [] = refl
member-insert_name n s (t ∷ rest) = ground (arith, member-insert_name n s rest)

member-sort_names :
    (n : String) (names : List String) → member n (sort_names names) ≡ member n names
member-sort_names n [] = refl
member-sort_names n (s ∷ rest) =
    member-insert_name n s (sort_names rest) ∙ ap (λ b. str_eq s n || b) (member-sort_names n rest)

all_normalized-insert_name :
    (s : String) (names : List String)
    → all_normalized (insert_name s names) ≡ (normalized s && all_normalized names)
all_normalized-insert_name s [] = refl
all_normalized-insert_name s (t ∷ rest) = ground (arith, all_normalized-insert_name s rest)

all_normalized-sort_names :
    (names : List String) → all_normalized (sort_names names) ≡ all_normalized names
all_normalized-sort_names [] = refl
all_normalized-sort_names (s ∷ rest) =
    all_normalized-insert_name s (sort_names rest)
    ∙ ap (λ b. normalized s && b) (all_normalized-sort_names rest)

str_eq_comm : (s t : String) → str_eq s t ≡ str_eq t s
str_eq_comm s t = elim (Bool-cases (str_eq s t)) [
  | inl same ↦ same ∙ sym ((eq_iff t s).1 (sym ((eq_iff s t).0 same)))
  | inr other ↦ elim (Bool-cases (str_eq t s)) [
    | inl same ↦ cc ((eq_iff s t).1 (sym ((eq_iff t s).0 same)))
    | inr apart ↦ other ∙ sym apart
  ]
]

no_repeats-insert_name :
    (s : String) (names : List String)
    → no_repeats (insert_name s names) ≡ (not (member s names) && no_repeats names)
no_repeats-insert_name s [] = refl
no_repeats-insert_name s (t ∷ rest) =
    ground (arith, no_repeats-insert_name s rest, member-insert_name t s rest, str_eq_comm s t)

no_repeats-sort_names : (names : List String) → no_repeats (sort_names names) ≡ no_repeats names
no_repeats-sort_names [] = refl
no_repeats-sort_names (s ∷ rest) =
    no_repeats-insert_name s (sort_names rest)
    ∙ ground (arith, member-sort_names s rest, no_repeats-sort_names rest)

-- No later name is before an earlier one.
abbrev IsAfter : String → String → Type 0
IsAfter s t = is_lt (compare t s) ≡ false

abbrev IsSorted : List String → Type 0
IsSorted [] = Unit
IsSorted (s ∷ rest) = All (IsAfter s) rest × IsSorted rest

insert_name-All :
    (u s : String) (names : List String)
    → IsAfter u s
    → All (IsAfter u) names
    → All (IsAfter u) (insert_name s names)
insert_name-All u s [] h a = (h, _)
insert_name-All u s (t ∷ rest) h (a, rests) =
    if_cases (All (IsAfter u)) (is_lt (compare t s)) (λ _. (a, insert_name-All u s rest h rests))
      (λ _. (h, (a, rests)))

IsAfter-All :
    (s t : String) (names : List String)
    → IsAfter s t
    → All (IsAfter t) names
    → All (IsAfter s) names
IsAfter-All s t [] h a = _
IsAfter-All s t (x ∷ rest) h (a, rests) = (
  elim (Bool-cases (is_lt (compare x s))) [
    | inl before ↦ cc (a, is_lt_trans x s t before h)
    | inr after ↦ after
  ],
  IsAfter-All s t rest h rests,
)

insert_name-IsSorted :
    (s : String) (names : List String) → IsSorted names → IsSorted (insert_name s names)
insert_name-IsSorted s [] h = (_, _)
insert_name-IsSorted s (t ∷ rest) (a, h) =
    if_cases IsSorted (is_lt (compare t s))
      (λ before.
        (insert_name-All t s rest (is_lt_asym t s before) a, insert_name-IsSorted s rest h))
      (λ after. ((after, IsAfter-All s t rest after a), (a, h)))

sort_names-IsSorted : (names : List String) → IsSorted (sort_names names)
sort_names-IsSorted [] = _
sort_names-IsSorted (s ∷ rest) = insert_name-IsSorted s (sort_names rest) (sort_names-IsSorted rest)

-- A name that is not its successor in the order does not come later.
not_later_on :
    (s t : String) (rest : List String)
    → str_eq s t ≡ false
    → IsAfter s t
    → All (IsAfter t) rest
    → member s rest ≡ false
not_later_on s t [] other h a = refl
not_later_on s t (x ∷ rest) other h (a, rests) = elim (Bool-cases (str_eq x s)) [
  | inl same ↦
      let after : IsAfter t s = subst (IsAfter t) ((eq_iff x s).0 same) a in
      cc (other, (eq_iff s t).1 (is_lt_total s t after h))
  | inr apart ↦ rw apart (not_later_on s t rest other h rests)
]

no_adjacent-IsSorted : (names : List String) → IsSorted names → no_adjacent names ≡ no_repeats names
no_adjacent-IsSorted [] h = refl
no_adjacent-IsSorted (s ∷ []) h = refl
no_adjacent-IsSorted (s ∷ t ∷ rest) ((h, _), (a, sorted)) = elim (Bool-cases (str_eq s t)) [
  | inl same ↦ rw (same, sym (str_eq_comm s t) ∙ same) refl
  | inr other ↦
      let tail = no_adjacent-IsSorted (t ∷ rest) (a, sorted) in
      ground (arith, other, str_eq_comm s t, tail, not_later_on s t rest other h a)
]

no_adjacent-sort_names : (names : List String) → no_adjacent (sort_names names) ≡ no_repeats names
no_adjacent-sort_names names =
    no_adjacent-IsSorted (sort_names names) (sort_names-IsSorted names)
    ∙ no_repeats-sort_names names

module _ {D P : Type 0} where
  -- A coordinator whose scope is that of the configuration.
  pub record InScope (config : CoordinatorConfig D) (c : Coordinator D P) : Type 0 where
    pub same_scope :
        (n : String) → member n c.config.expected_namespaces ≡ member n config.expected_namespaces
    pub no_repeat : no_repeats c.config.expected_namespaces ≡ true
    pub unknown : c.entries ≡ []

  -- What construction comes to.
  pub data Constructed (config : CoordinatorConfig D) : Option (Coordinator D P) → Type 0 where
    throws :
        (all_normalized config.expected_namespaces ≡ false)
          ⊎ (no_repeats config.expected_namespaces ≡ false)
        → Constructed config none
    constructs :
        (c : Coordinator D P)
        → all_normalized config.expected_namespaces ≡ true
        → no_repeats config.expected_namespaces ≡ true
        → InScope config c
        → Constructed config (some c)

  -- The constructor throws where a declared namespace is not normalized or is declared twice; and otherwise
  -- all are normalized and none is declared twice, and the coordinator knows no vehicle, and expects just the
  -- declared namespaces, each once.
  pub make_coordinator-Constructed :
      (config : CoordinatorConfig D) (planner : P)
      → Constructed config (make_coordinator config planner)
  unfolding make_coordinator
  make_coordinator-Constructed config planner =
      let names = sort_names config.expected_namespaces in
      if_cases (Constructed config) (no_adjacent names && all_normalized names)
        (λ good.
          constructs _
            (sym (all_normalized-sort_names config.expected_namespaces) ∙ ground (arith, good))
            (sym (no_adjacent-sort_names config.expected_namespaces) ∙ ground (arith, good))
            (record {
              same_scope = λ n. member-sort_names n config.expected_namespaces;
              no_repeat =
                  no_repeats-sort_names config.expected_namespaces
                  ∙ sym (no_adjacent-sort_names config.expected_namespaces)
                  ∙ ground (arith, good);
              unknown = refl;
            }))
        (λ bad. throws (elim (Bool-cases (no_adjacent names)) [
          | inl a ↦
              inl (
                sym (all_normalized-sort_names config.expected_namespaces) ∙ ground (arith, bad, a))
          | inr a ↦ inr (sym (no_adjacent-sort_names config.expected_namespaces) ∙ a)
        ]))
