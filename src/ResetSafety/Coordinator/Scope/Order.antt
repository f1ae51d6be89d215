-- ===== src/ResetSafety/Coordinator/Scope/Order.antt =====
-- The order of native strings, by which names are sorted.
use Prim.Native.Nat.{Ordering, compare as compare_ℕ}
use Prim.Native.Char.{Char, code}
use Prim.Native.String.compare
use Prim.Native.String.{String, [], ◌∷◌, compare, then}
use native.Mathlib.Omega.{compare-lt, compare-eq, compare-gt}
use text.Mathlib.Text.{is_lt}
use text.Mathlib.TextEquality.{codes_equal}
use xgc2_ugv_controller.Base.{
  ℕ, ◌<◌, ◌≡◌, refl, sym, ap, subst, ◌∙◌, true, false, ◌⊎◌, inl, inr, ltb, arith, Bool-cases,
}

Ordering-cases : (o : Ordering) → (o ≡ Ordering.lt) ⊎ ((o ≡ Ordering.eq) ⊎ (o ≡ Ordering.gt))
Ordering-cases Ordering.lt = inl refl
Ordering-cases Ordering.eq = inr (inl refl)
Ordering-cases Ordering.gt = inr (inr refl)

compare_of_lt : (a b : ℕ) → a < b → compare_ℕ a b ≡ Ordering.lt
compare_of_lt a b h = elim (Ordering-cases (compare_ℕ a b)) [
  | inl e ↦ e
  | inr (inl e) ↦ absurd (omega (arith, h, compare-eq a b e))
  | inr (inr e) ↦ absurd (omega (arith, h, compare-gt a b e))
]

compare_of_eq : (a b : ℕ) → a ≡ b → compare_ℕ a b ≡ Ordering.eq
compare_of_eq a b h = elim (Ordering-cases (compare_ℕ a b)) [
  | inl e ↦ absurd (omega (arith, h, compare-lt a b e))
  | inr (inl e) ↦ e
  | inr (inr e) ↦ absurd (omega (arith, h, compare-gt a b e))
]

lt_cons :
    (c d : Char) (s t : String)
    → is_lt (compare (c ∷ s) (d ∷ t)) ≡ true
    → (code c < code d) ⊎ ((code c ≡ code d) × (is_lt (compare s t) ≡ true))
lt_cons c d s t h =
    let split : is_lt (then (compare_ℕ (code c) (code d)) (compare s t)) ≡ true =
      subst (λ o. is_lt o ≡ true) (compare.cons-cons c d s t) h in
    elim (Ordering-cases (compare_ℕ (code c) (code d))) [
      | inl e ↦ inl (compare-lt _ _ e)
      | inr (inl e) ↦
          inr (compare-eq _ _ e, subst (λ o. is_lt (then o (compare s t)) ≡ true) e split)
      | inr (inr e) ↦ cc (subst (λ o. is_lt (then o (compare s t)) ≡ true) e split)
    ]

cons_lt :
    (c d : Char) (s t : String)
    → (code c < code d) ⊎ ((code c ≡ code d) × (is_lt (compare s t) ≡ true))
    → is_lt (compare (c ∷ s) (d ∷ t)) ≡ true
cons_lt c d s t (inl h) =
    ap is_lt (compare.cons-cons c d s t)
    ∙ ap (λ o. is_lt (then o (compare s t))) (compare_of_lt _ _ h)
cons_lt c d s t (inr (e, h)) =
    ap is_lt (compare.cons-cons c d s t)
    ∙ ap (λ o. is_lt (then o (compare s t))) (compare_of_eq _ _ e)
    ∙ h

tail_not_lt :
    (c d : Char) (s t : String)
    → is_lt (compare (c ∷ s) (d ∷ t)) ≡ false
    → code c ≡ code d
    → is_lt (compare s t) ≡ false
tail_not_lt c d s t h e = elim (Bool-cases (is_lt (compare s t))) [
  | inl lt ↦ cc (h, cons_lt c d s t (inr (e, lt)))
  | inr ge ↦ ge
]

head_not_lt :
    (c d : Char) (s t : String)
    → is_lt (compare (c ∷ s) (d ∷ t)) ≡ false
    → ltb (code c) (code d) ≡ false
head_not_lt c d s t h = elim (Bool-cases (ltb (code c) (code d))) [
  | inl lt ↦ cc (h, cons_lt c d s t (inl (ground (arith, lt))))
  | inr ge ↦ ge
]

-- Two strings of which neither is before the other are equal.
pub is_lt_total : (s t : String) → is_lt (compare s t) ≡ false → is_lt (compare t s) ≡ false → s ≡ t
is_lt_total [] [] h k = refl
is_lt_total [] (d ∷ t) h k = cc (h, ap is_lt (compare.nil-cons d t))
is_lt_total (c ∷ s) [] h k = cc (k, ap is_lt (compare.nil-cons c s))
is_lt_total (c ∷ s) (d ∷ t) h k =
    let same : code c ≡ code d = ground (arith, head_not_lt c d s t h, head_not_lt d c t s k) in
    let rest = is_lt_total s t (tail_not_lt c d s t h same) (tail_not_lt d c t s k (sym same)) in
    λ i. codes_equal c d (compare_of_eq _ _ same) i ∷ rest i

-- What is before a string is before any that is not before it.
pub is_lt_trans :
    (x s t : String)
    → is_lt (compare x s) ≡ true
    → is_lt (compare t s) ≡ false
    → is_lt (compare x t) ≡ true
is_lt_trans [] [] t h k = cc h
is_lt_trans (a ∷ x) [] t h k = cc (h, ap is_lt (compare.cons-nil a x))
is_lt_trans [] (c ∷ s) [] h k = cc k
is_lt_trans [] (c ∷ s) (d ∷ t) h k = ap is_lt (compare.nil-cons d t)
is_lt_trans (a ∷ x) (c ∷ s) [] h k = cc (k, ap is_lt (compare.nil-cons c s))
is_lt_trans (a ∷ x) (c ∷ s) (d ∷ t) h k =
    let up = head_not_lt d c t s k in
    elim (lt_cons a c x s h) [
      | inl less ↦ cons_lt a d x t (inl (ground (arith, less, up)))
      | inr (same, below) ↦ elim (Bool-cases (ltb (code c) (code d))) [
        | inl lt ↦ cons_lt a d x t (inl (ground (arith, lt, same)))
        | inr ge ↦
            let e : code d ≡ code c = ground (arith, ge, up) in
            cons_lt a d x t (inr (same ∙ sym e, is_lt_trans x s t below (tail_not_lt d c t s k e)))
      ]
    ]

-- No two strings are before each other.
pub is_lt_asym : (s t : String) → is_lt (compare s t) ≡ true → is_lt (compare t s) ≡ false
is_lt_asym [] [] h = cc
is_lt_asym [] (d ∷ t) h = ap is_lt (compare.cons-nil d t)
is_lt_asym (c ∷ s) [] h = cc (ap is_lt (compare.cons-nil c s))
is_lt_asym (c ∷ s) (d ∷ t) h = elim (Bool-cases (is_lt (compare (d ∷ t) (c ∷ s)))) [
  | inr after ↦ after
  | inl before ↦ elim (lt_cons c d s t h) [
    | inl less ↦ elim (lt_cons d c t s before) [
      | inl more ↦ absurd (omega (arith, less, more))
      | inr (same, _) ↦ absurd (omega (arith, less, same))
    ]
    | inr (same, below) ↦ elim (lt_cons d c t s before) [
      | inl more ↦ absurd (omega (arith, same, more))
      | inr (_, above) ↦ cc (above, is_lt_asym s t below)
    ]
  ]
]
