-- ===== src/Clock/Cadence/Laws.antt =====
-- schedule.h: where the frame of a time begins.
use native.Mathlib.Nat.{div-mul-le_self, lt-div-mul-add}
use xgc2_ugv_controller.Base.{
  ℕ, zero, suc, ◌+◌, ◌*◌, ◌/◌, ◌≤◌, ◌<◌, ◌≡◌, ℤ, pos, negsuc, pos_part, neg_part, sub_ℕ, ◌+ℤ◌, ◌-ℤ◌,
  ◌*ℤ◌, ◌≤ℤ◌, arith, +ℤ_parts, -ℤ_parts,
}
use xgc2_ugv_controller.Clock.Cadence.{frame, frame_start}

-- The frame is the quotient rounded down, before the phase too.
abbrev floor_quot : ℤ → ℕ → ℤ
floor_quot (pos n) p = pos (n / p)
floor_quot (negsuc n) p = sub_ℕ 0 ((n + p) / p)

frame_floor : (e : ℤ) (p : ℕ) → 0 < p → frame e (pos p) ≡ floor_quot e p
unfolding frame ◌+ℤ◌ ◌-ℤ◌
frame_floor (pos n) p h = ground arith
frame_floor (negsuc n) p h = ground (arith, h)

pos-times : (a b : ℕ) → pos a *ℤ pos b ≡ pos (a * b)
unfolding ◌*ℤ◌
pos-times a b = grind arith

neg-times : (a b : ℕ) → sub_ℕ 0 a *ℤ pos b ≡ sub_ℕ 0 (a * b)
unfolding ◌*ℤ◌
neg-times zero b = ground arith
neg-times (suc a) b = grind arith

-- Whole periods, at most the time and less than a period before it.
frame_bounds :
    (e : ℤ) (p : ℕ)
    → 0 < p
    → let x = floor_quot e p *ℤ pos p in
      (pos_part x + neg_part e ≤ pos_part e + neg_part x)
      × (pos_part e + neg_part x < pos_part x + neg_part e + p)
frame_bounds (pos n) p h =
    rw (pos-times (n / p) p)
      (omega (arith, div-mul-le_self n p), omega (arith, lt-div-mul-add {a = n} h))
frame_bounds (negsuc n) p h =
    rw (neg-times ((n + p) / p) p)
      (ground (arith, div-mul-le_self (n + p) p, lt-div-mul-add {a = n + p} h))

-- With a positive period, the frame of a time begins at or before it and less than a period before it,
-- also for times before the phase.
pub frame_start_lem :
    (phase now : ℤ) (p : ℕ)
    → 0 < p
    → let start = frame_start phase (pos p) now in
      (start ≤ℤ now) × (pos_part now + neg_part start < pos_part start + neg_part now + p)
unfolding frame_start
frame_start_lem phase now p h =
    let e = now -ℤ phase in
    let bounds = frame_bounds e p h in
    let whole = floor_quot e p *ℤ pos p in
    rw (frame_floor e p h) (
      omega (arith, bounds, -ℤ_parts now phase, +ℤ_parts phase whole),
      omega (arith, bounds, -ℤ_parts now phase, +ℤ_parts phase whole),
    )
