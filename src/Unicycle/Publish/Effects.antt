-- ===== src/Unicycle/Publish/Effects.antt =====
-- unicycle_ugv_controller.cpp, `emitZero` and `emitCommand`: what the handlers of Custom1 change as they publish.
use xgc2_ugv_controller.Base.{
  ◌≡◌, refl, Bool, true, false, ◌||◌, List, [], ◌∷◌, ◌++◌, ◌⊎◌, inl, inr, Bool-cases, if◌then◌else◌,
}
use xgc2_ugv_controller.Floating.{Double, lit, ◌⊘◌}
use xgc2_ugv_controller.Clock.Gate.{due, new_gate}
use xgc2_ugv_controller.Unicycle.Types.{ControllerOutput, no_control}
use xgc2_ugv_controller.Unicycle.Controller.{Controller, Custom1, command_ready}
use xgc2_ugv_controller.Unicycle.Publish.{emit_command, emit_zero}

module _ {D M C : Type 0} ⦃f : Double D⦄ where
  -- The outputs of a controller, after those before: none more, a zero with no command left, or a
  -- command that is ready.
  pub data Published (before : List (ControllerOutput D)) (c : Controller D M C)
      : List (ControllerOutput D) → Type 0 where
    nothing : Published before c before
    zero :
        c.command ≡ no_control
        → Published before c (before ++ ControllerOutput.publish_zero c.current_time_sec ∷ [])
    command :
        command_ready c ≡ true
        → Published before c (before ++ ControllerOutput.publish_command c.current_time_sec ∷ [])

  -- What publishing leaves of an alternative and a controller: the solve in flight, the requests, the
  -- executor, and the command, unless it is cleared.
  pub record Effect (s : Custom1 D) (c : Controller D M C) (r : Custom1 D × Controller D M C)
      : Type 0 where
    pub same_ticket : r.0.in_flight ≡ s.in_flight
    pub same_requests : r.1.request_sequence ≡ c.request_sequence
    pub same_executor : r.1.executor ≡ c.executor
    pub kept_or_cleared : (r.1.command ≡ c.command) ⊎ (r.1.command ≡ no_control)
    pub published : Published c.outputs r.1 r.1.outputs

  untouched : (s : Custom1 D) (c : Controller D M C) → Effect s c (s, c)
  untouched s c = record {
    same_ticket = refl;
    same_requests = refl;
    same_executor = refl;
    kept_or_cleared = inl refl;
    published = nothing;
  }

  pub emit_zero-Effect :
      (force : Bool) (s : Custom1 D) (c : Controller D M C) → Effect s c (emit_zero force s c)
  unfolding emit_zero
  emit_zero-Effect force s c =
      elim (Bool-cases
        (due c.current_time_sec (lit 1 0 ⊘ c.config.idle_cmd_rate_hz)
          (if force || c.command.valid then new_gate else s.zero)).1) [
            | inl is_due ↦ rw is_due (record {
              same_ticket = refl;
              same_requests = refl;
              same_executor = refl;
              kept_or_cleared = inr refl;
              published = zero refl;
            })
            | inr early ↦ rw early (record {
              same_ticket = refl;
              same_requests = refl;
              same_executor = refl;
              kept_or_cleared = inr refl;
              published = nothing;
            })
          ]

  pub emit_command-Effect : (s : Custom1 D) (c : Controller D M C) → Effect s c (emit_command s c)
  unfolding emit_command
  emit_command-Effect s c = elim (Bool-cases (command_ready c)) [
    | inr unready ↦ rw unready (emit_zero-Effect false s c)
    | inl ready ↦
        rw ready
          (elim (Bool-cases
            (due c.current_time_sec (lit 1 0 ⊘ c.config.command_publish_rate_hz) s.command).1) [
              | inl is_due ↦ rw is_due (record {
                same_ticket = refl;
                same_requests = refl;
                same_executor = refl;
                kept_or_cleared = inl refl;
                published = command ready;
              })
              | inr early ↦ rw early (record {
                same_ticket = refl;
                same_requests = refl;
                same_executor = refl;
                kept_or_cleared = inl refl;
                published = nothing;
              })
            ])
  ]
