-- ===== src/StateMachine.antt =====
-- The library state_machine/adt_machine.hpp, as the controllers use it: a machine that holds one of the
-- alternatives. `D` is the type of its times.
use xgc2_ugv_controller.Base.{◌≡◌}

-- `put` stands for what a handler leaves of the alternative that it was given by reference.
pub record AdtMachine (S D M : Type 0) : Type 0 where
  pub start : S → D → M
  pub state : M → S
  pub put : S → M → M
  -- `apply(Enter{s}, time)`
  pub apply : S → D → M → M
  pub state-start : (s : S) (t : D) → state (start s t) ≡ s
  pub state-put : (s : S) (m : M) → state (put s m) ≡ s
  pub state-apply : (s : S) (t : D) (m : M) → state (apply s t m) ≡ s
