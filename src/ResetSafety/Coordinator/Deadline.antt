-- ===== src/ResetSafety/Coordinator/Deadline.antt =====
-- reset_coordinator.cpp, `nextDeadline`: when the coordinator has to step next. Deadline/Quiet is about it.
pub mod Quiet
use xgc2_ugv_controller.Base.{
  ◌≡◌, Bool, true, false, not, ◌&&◌, ◌||◌, ◌==◌, String, List, [], ◌∷◌, Option, none, some, ℤ, All,
  if◌then◌else◌, arith,
}
use xgc2_ugv_controller.Floating.{Double, ◌⊕◌, ◌≺◌, ◌≼◌, dmin}
use xgc2_ugv_controller.Floating.Fixed.{fixed_double}
use xgc2_ugv_controller.ResetSafety.Planner.{Planner}
use xgc2_ugv_controller.ResetSafety.Coordinator.{
  Coordinator, CoordinatorConfig, Entry, Publication, has_value,
}
use xgc2_ugv_controller.ResetSafety.Coordinator.Vehicles.{lost, participant, outside, scope_ready}
use xgc2_ugv_controller.ResetSafety.Coordinator.Step.{is_pending}

module _ {D : Type 0} ⦃f : Double D⦄ where
  -- Whether what was said last is repeated to a vehicle.
  unfoldable pub repeats : CoordinatorConfig D → D → String → Entry D → Publication D → Bool
  repeats cfg now name e p =
      not (lost cfg now e || (e.session.request_generation == 0))
      && (has_value e.bad_reason
          || outside cfg name
          || participant cfg now e
          || is_pending e.session p.grant)

  -- When a vehicle will be lost.
  expiry_deadline : CoordinatorConfig D → D → Entry D → D → D
  expiry_deadline cfg now e next =
      let expiry = e.received ⊕ cfg.lost_after in
      if now ≼ expiry then dmin next (f.next_up expiry) else next

  abbrev pub repeat_time : CoordinatorConfig D → Publication D → D
  repeat_time cfg p = f.next_up (p.sent ⊕ cfg.refresh_period)

  unfoldable pub repeat_deadline :
      CoordinatorConfig D → D → String → Entry D → Option (Publication D) → D → D
  repeat_deadline cfg now name e none next = next
  repeat_deadline cfg now name e (some p) next =
      if repeats cfg now name e p then dmin next (repeat_time cfg p) else next

  unfoldable pub deadline_of : CoordinatorConfig D → D → List (String × Entry D) → D → D
  unfolding expiry_deadline
  deadline_of cfg now [] next = next
  deadline_of cfg now ((n, e) ∷ rest) next =
      deadline_of cfg now rest (repeat_deadline cfg now n e e.last (expiry_deadline cfg now e next))

  unfoldable pub next_deadline : {P : Type 0} → Planner D P → D → Coordinator D P → D
  next_deadline planner now c = deadline_of c.config now c.entries (
      planner.next_deadline
        ((not c.scene_authored || c.scene_available) && scope_ready c.config c.entries) c.planner)
