-- ===== src/Clock/Gate.antt =====
-- mecanum_ugv_controller/include/mecanum_ugv_controller/state_machine/periodic_gate.h, of which the unicycle
-- controller has a copy: what is due once in a period. The loop that catches up runs on fuel: it is
-- entered at most ten periods late, so that over exact numbers 11 turns are enough. Where the doubles lose
-- the period, the source's loop does not end, and the model's ends with the time that it has.
pub mod Laws
use xgc2_ugv_controller.Base.{ℕ, zero, suc, Bool, true, false, not, ◌||◌, if◌then◌else◌}
use xgc2_ugv_controller.Floating.{Double, lit, ◌⊕◌, ◌⊖◌, ◌⊗◌, ◌≺◌, ◌≼◌}

pub record PeriodicGate (D : Type 0) : Type 0 where
  pub initialized : Bool
  pub last_time : D

abbrev pub catch_up_fuel : ℕ
catch_up_fuel = 11

module _ {D : Type 0} ⦃f : Double D⦄ where
  abbrev pub new_gate : PeriodicGate D
  new_gate = record { initialized = false; last_time = lit 0 0 }

  -- `while (now - last_time_ >= period) last_time_ += period`
  unfoldable pub catch_up : ℕ → D → D → D → D
  catch_up zero now period last = last
  catch_up (suc fuel) now period last =
      let later = catch_up fuel now period (last ⊕ period) in
      if period ≼ (now ⊖ last) then later else last

  unfoldable pub due : D → D → PeriodicGate D → PeriodicGate D × Bool
  due now period g =
      let late = now ⊖ g.last_time in
      if not (f.isfinite now) || not (f.isfinite period) || (period ≼ lit 0 0)
      then (g, false)
      else if not g.initialized || (now ≺ g.last_time)
      then (record { initialized = true; last_time = now }, true)
      else if late ≺ period
      then (g, false)
      else if (lit 10 0 ⊗ period) ≺ late
      then (record g { last_time = now }, true)
      else (record g { last_time = catch_up catch_up_fuel now period g.last_time }, true)

  -- The earliest time at which it is due again.
  unfoldable pub next_due : D → D → PeriodicGate D → D
  next_due now period g =
      if not (f.isfinite period) || (period ≼ lit 0 0)
      then f.infinity
      else if not g.initialized || (now ≺ g.last_time)
      then now
      else f.next_up (g.last_time ⊕ period)
