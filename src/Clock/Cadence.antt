-- ===== src/Clock/Cadence.antt =====
-- ugv_reset_client/include/ugv_reset_client/schedule.h, WallControlCadence: the wall times at which a
-- controller samples, a phase and whole periods after or before it.
pub mod Laws
use xgc2_ugv_controller.Base.{
  ℕ, suc, ◌+◌, ◌^◌, Bool, true, false, ◌&&◌, Option, none, some, ℤ, pos, negsuc, pos_part, neg_part,
  sub_ℕ, ◌+ℤ◌, ◌-ℤ◌, ◌*ℤ◌, ltb_ℤ, leb_ℤ, quot_ℤ, if◌then◌else◌,
}
use xgc2_ugv_controller.Floating.{Double, lit, ◌⊗◌, ◌⊘◌}

pub record WallControlCadence (D : Type 0) : Type 0 where
  pub phase_ns : ℤ  -- int64_t
  pub rate : D
  pub external_domain : Bool

-- The quotient of two `int64_t`. A zero divisor is undefined in the source.
abbrev pub quot_by : ℤ → ℤ → ℤ
quot_by a (pos p) = quot_ℤ a p
quot_by a (negsuc p) = sub_ℕ (neg_part (quot_ℤ a (suc p))) (pos_part (quot_ℤ a (suc p)))

-- The number of the frame, counted from the phase.
unfoldable pub frame : ℤ → ℤ → ℤ
frame elapsed period =
    if leb_ℤ (pos 0) elapsed
    then quot_by elapsed period
    else quot_by ((elapsed -ℤ period) +ℤ pos 1) period

-- `floor`: when the frame of `now` began.
unfoldable pub frame_start : ℤ → ℤ → ℤ → ℤ
frame_start phase period now = phase +ℤ (frame (now -ℤ phase) period *ℤ period)

abbrev equal_ℤ : ℤ → ℤ → Bool
equal_ℤ a b = leb_ℤ a b && leb_ℤ b a

module _ {D : Type 0} ⦃f : Double D⦄ where
  abbrev pub to_ns : D → ℤ
  to_ns wall = f.llround (wall ⊗ lit 1000000000 0)

  unfoldable pub next_sample : WallControlCadence D → D → Bool → D
  next_sample c wall include_now =
      let period = f.llround (lit 1000000000 0 ⊘ c.rate) in
      let now = to_ns wall in
      let start = frame_start c.phase_ns period now in
      f.of_ℤ (if include_now && equal_ℤ now start then start else start +ℤ period)
      ⊘ lit 1000000000 0

  -- Whether the pending sample is taken; then none is pending.
  unfoldable pub take : WallControlCadence D → Option D → D → Option D × Bool
  take c pending wall =
      let at = pending_or (next_sample c wall true) pending in
      if ltb_ℤ (to_ns wall) (to_ns at) then (some at, false) else (none, true)
    where
      pending_or : D → Option D → D
      pending_or d none = d
      pending_or d (some p) = p
