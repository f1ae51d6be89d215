-- ===== src/Clock/Gate/Laws.antt =====
-- periodic_gate.h over exact numbers: the catch-up loop, and the gate at one instant.
use xgc2_ugv_controller.Base.{
  ℕ, zero, suc, ◌+◌, ◌<◌, ◌≡◌, refl, Bool, true, false, not, ◌||◌, ℤ, pos, pos_part, neg_part,
  arith, if_cases, Bool-cases, inl, inr,
}
use xgc2_ugv_controller.Floating.{Double, lit, ◌⊕◌, ◌⊖◌, ◌⊗◌, ◌≺◌, ◌≼◌}
use xgc2_ugv_controller.Floating.Fixed.{fixed_double}
use xgc2_ugv_controller.Clock.Gate.{PeriodicGate, catch_up, catch_up_fuel, due}

-- n times p
abbrev times : ℕ → ℕ → ℕ
times zero p = 0
times (suc n) p = p + times n p

-- Less than n + 1 periods late, the loop ends by its own test within n turns.
catch_up_lem :
    (n p : ℕ) (now last : ℤ)
    → 0 < p
    → pos_part now + neg_part last < pos_part last + neg_part now + times (suc n) p
    → (pos p ≼ (now ⊖ catch_up n now (pos p) last)) ≡ false
unfolding catch_up
catch_up_lem zero p now last h late = ground (arith, late)
catch_up_lem (suc n) p now last h late = elim (Bool-cases (pos p ≼ (now ⊖ last))) [
  | inl t ↦ rw (t, catch_up) (catch_up_lem n p now (last ⊕ pos p) h (ground (arith, late)))
  | inr t ↦ rw (t, catch_up) t
]

-- From a time that is not ahead the loop does not run ahead.
catch_up_le :
    (n p : ℕ) (now last : ℤ) → (now ≺ last) ≡ false → (now ≺ catch_up n now (pos p) last) ≡ false
unfolding catch_up
catch_up_le zero p now last h = h
catch_up_le (suc n) p now last h = elim (Bool-cases (pos p ≼ (now ⊖ last))) [
  | inl t ↦ rw (t, catch_up) (catch_up_le n p now (last ⊕ pos p) (ground (arith, h, t)))
  | inr t ↦ rw (t, catch_up) h
]

-- The gate is not due now.
record IsQuiet {D : Type 0} ⦃f : Double D⦄ (now period : D) (r : PeriodicGate D × Bool)
    : Type 0 where
  quiet : (due now period r.0).1 ≡ false

module _ {D : Type 0} ⦃f : Double D⦄ (now period : D) (g : PeriodicGate D) where
  idle-IsQuiet :
      (not (f.isfinite now) || not (f.isfinite period) || (period ≼ lit 0 0)) ≡ true
      → IsQuiet now period (g, false)
  unfolding due
  idle-IsQuiet h = record { quiet = rw h refl }

  early-IsQuiet :
      g.initialized ≡ true
      → (now ≺ g.last_time) ≡ false
      → ((now ⊖ g.last_time) ≺ period) ≡ true
      → (b : Bool) → IsQuiet now period (g, b)
  unfolding due
  early-IsQuiet i n e b = record { quiet = ground arith }

positive_period : (a b : Bool) (p : ℕ) → (a || b || (pos p ≼ lit 0 0)) ≡ false → 0 < p
positive_period a b p h = ground (arith, h)

not_before_itself : (now : ℤ) → (now ≺ now) ≡ false
not_before_itself now = ground arith

no_time_passed : (now : ℤ) (p : ℕ) → 0 < p → ((now ⊖ now) ≺ pos p) ≡ true
no_time_passed now p h = ground (arith, h)

ten_periods :
    (now last : ℤ) (p : ℕ)
    → 0 < p
    → ((lit 10 0 ⊗ pos p) ≺ (now ⊖ last)) ≡ false
    → pos_part now + neg_part last < pos_part last + neg_part now + times (suc catch_up_fuel) p
ten_periods now last p h near = ground (arith, h, near)

not_late : (a : ℤ) (p : ℕ) → (pos p ≼ a) ≡ false → (a ≺ pos p) ≡ true
not_late a p h = ground (arith, h)

-- Over exact numbers a gate that was asked is not due a second time at the same instant, whatever it was
-- before and whether it was due or not.
pub due-due :
    (now : ℤ) (p : ℕ) (g : PeriodicGate ℤ) → (due now (pos p) (due now (pos p) g).0).1 ≡ false
unfolding due
due-due now p g =
    let late = now ⊖ g.last_time in
    (if_cases (IsQuiet now (pos p))
      (not (fixed_double.isfinite now) || not (fixed_double.isfinite (pos p)) || (pos p ≼ lit 0 0))
      (idle-IsQuiet now (pos p) g)
      (λ some_period.
        let positive : 0 < p =
          positive_period (not (fixed_double.isfinite now)) (not (fixed_double.isfinite (pos p))) p
            some_period in
        let now_quiet =
          early-IsQuiet now (pos p) (record { initialized = true; last_time = now }) refl
            (not_before_itself now) (no_time_passed now p positive) true in
        if_cases (IsQuiet now (pos p)) (not g.initialized || (now ≺ g.last_time)) (λ _. now_quiet)
          (λ started.
            let running : g.initialized ≡ true = ground (arith, started) in
            let ahead : (now ≺ g.last_time) ≡ false = ground (arith, started) in
            if_cases (IsQuiet now (pos p)) (late ≺ pos p)
              (λ early. early-IsQuiet now (pos p) g running ahead early false)
              (λ not_early.
                if_cases (IsQuiet now (pos p)) ((lit 10 0 ⊗ pos p) ≺ late)
                  (λ far.
                    early-IsQuiet now (pos p) (record g { last_time = now }) running
                      (not_before_itself now) (no_time_passed now p positive) true)
                  (λ near.
                    early-IsQuiet now (pos p)
                      (record g { last_time = catch_up catch_up_fuel now (pos p) g.last_time })
                      running (catch_up_le catch_up_fuel p now g.last_time ahead)
                      (not_late _ p (
                        catch_up_lem catch_up_fuel p now g.last_time positive
                          (ten_periods now g.last_time p positive near)))
                      true))))).quiet
