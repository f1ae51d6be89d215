-- ===== src/Unicycle/Requests.antt =====
-- unicycle_ugv_controller.cpp: the numbers of the solves that are requested and in flight.
pub mod Ticks
pub mod Handlers
pub mod Turns
pub mod Calls
use xgc2_ugv_controller.Base.{
  ℕ, ◌+◌, ◌≡◌, refl, sym, subst, Bool, true, false, not, ◌&&◌, ◌||◌, List, [], ◌∷◌, ◌++◌, All,
  All-append, Option, none, some, Bool-cases, inl, inr, if_cases, if◌then◌else◌, arith,
}
use xgc2_ugv_controller.Floating.{Double, lit, ◌⊕◌, ◌⊘◌, ◌≺◌}
use xgc2_ugv_controller.Clock.Gate.{PeriodicGate, due}
use xgc2_ugv_controller.Unicycle.Types.{ControllerOutput, NmpcCompletion}
use xgc2_ugv_controller.Unicycle.Controller.{
  Alternative, Controller, Custom1, ReferenceSource, SolveTicket, set_command,
}
use xgc2_ugv_controller.Unicycle.Tick.{unexpired, request_solve, sample_taken, tick_tracked, u64}
use xgc2_ugv_controller.Unicycle.Publish.{emit_command, emit_zero}
use xgc2_ugv_controller.Unicycle.Publish.Effects.{
  Effect, Published, emit_command-Effect, emit_zero-Effect,
}

module _ {D : Type 0} where
  -- A solve in flight has a number.
  abbrev pub IsCurrent : ℕ → Option (SolveTicket D) → Type 0
  IsCurrent n none = Unit
  IsCurrent n (some t) = t.sequence ≡ n

  abbrev pub HasCurrent : ℕ → Alternative D → Type 0
  HasCurrent n (Alternative.custom1 s) = IsCurrent n s.in_flight
  HasCurrent n _ = Unit

  -- A request has a number.
  abbrev pub IsLatest : ℕ → ControllerOutput D → Type 0
  IsLatest n (ControllerOutput.solve_nmpc m _) = m ≡ n
  IsLatest n _ = Unit

-- The solve that an alternative has in flight, and every request among the outputs, is the one that was
-- numbered last.
pub record Sound {D M C : Type 0} (s : Alternative D) (c : Controller D M C) : Type 0 where
  pub current : HasCurrent c.request_sequence s
  pub latest : All (IsLatest c.request_sequence) c.outputs

module _ {D : Type 0} ⦃f : Double D⦄ where
  pub unexpired-IsCurrent :
      (n : ℕ) (now : D) (o : Option (SolveTicket D)) → IsCurrent n o → IsCurrent n (unexpired now o)
  unexpired-IsCurrent n now none h = tt
  unexpired-IsCurrent n now (some t) h =
      if_cases (IsCurrent n) (t.deadline ≺ now) (λ _. tt) (λ _. h)

module _ {D M C : Type 0} ⦃f : Double D⦄ where
  Published-IsLatest :
      (n : ℕ) (before : List (ControllerOutput D)) (c : Controller D M C)
      (after : List (ControllerOutput D))
      → All (IsLatest n) before
      → Published before c after
      → All (IsLatest n) after
  Published-IsLatest n before c _ h Published.nothing = h
  Published-IsLatest n before c _ h (Published.zero _) = All-append (IsLatest n) before _ h (tt, tt)
  Published-IsLatest n before c _ h (Published.command _) =
      All-append (IsLatest n) before _ h (tt, tt)

  -- Publishing keeps them.
  pub Effect-Sound :
      (s : Custom1 D) (c : Controller D M C) (r : Custom1 D × Controller D M C)
      → Effect s c r
      → Sound (Alternative.custom1 s) c
      → Sound (Alternative.custom1 r.0) r.1
  Effect-Sound s c r e h = record {
    current =
        subst (λ n. IsCurrent n r.0.in_flight) (sym e.same_requests)
          (subst (IsCurrent c.request_sequence) (sym e.same_ticket) h.current);
    latest =
        Published-IsLatest r.1.request_sequence c.outputs r.1 r.1.outputs
          (subst (λ n. All (IsLatest n) c.outputs) (sym e.same_requests) h.latest) e.published;
  }

  -- A request numbers the solve that it has in flight.
  pub request_solve-Sound :
      (o : Option (SolveTicket D)) (s : Custom1 D) (c : Controller D M C)
      → IsCurrent c.request_sequence o
      → c.outputs ≡ []
      → Sound (Alternative.custom1 (request_solve o s c).0) (request_solve o s c).1
  unfolding request_solve
  request_solve-Sound (some t) s c h none_yet = record { current = h; latest = rw none_yet tt }
  request_solve-Sound none s c h none_yet =
      elim (Bool-cases
        (due c.current_time_sec (lit 1 0 ⊘ c.config.nmpc_request_rate_hz) s.solve).1) [
          | inl is_due ↦ rw is_due (record { current = refl; latest = rw none_yet (refl, tt) })
          | inr early ↦ rw early (record { current = tt; latest = rw none_yet tt })
        ]
