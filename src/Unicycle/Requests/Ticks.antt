-- ===== src/Unicycle/Requests/Ticks.antt =====
-- unicycle_ugv_controller.cpp: the numbers of solves in a control period.
use xgc2_ugv_controller.Base.{
  ◌≡◌, refl, sym, subst, Bool, false, not, ◌&&◌, ◌||◌, [], All, All-append, Option, none, some,
  Bool-cases, inl, inr, if_cases, if◌then◌else◌, arith,
}
use xgc2_ugv_controller.Floating.{Double, lit, ◌⊖◌, ◌⊘◌, ◌≺◌, ◌≼◌}
use xgc2_ugv_controller.Clock.Gate.{PeriodicGate, due}
use xgc2_ugv_controller.Clock.Cadence.{WallControlCadence}
use xgc2_ugv_controller.ResetClient.Executor.Step.{step}
use xgc2_ugv_controller.Mecanum.Controller.{Health}
use xgc2_ugv_controller.Unicycle.Types.{ControllerOutput, world_pva_ready}
use xgc2_ugv_controller.Unicycle.Flatness.{compute_flatness_command, lift_world_pva}
use xgc2_ugv_controller.Unicycle.Controller.{
  Alternative, Controller, Custom1, ReferenceSource, command_ready, control_state, is_flatness,
  reference_ready, set_command, emit, clear_command, reset_measurement,
}
use xgc2_ugv_controller.Unicycle.Tick.{
  drops_sample, sample_taken, tick, tick_flatness, tick_nmpc, tick_tracked, tick_reset, unexpired,
}
use xgc2_ugv_controller.Unicycle.Publish.{
  emit_command, emit_zero, idle_period, publish_idle, emit_reset_zero,
}
use xgc2_ugv_controller.Unicycle.Publish.Effects.{emit_command-Effect, emit_zero-Effect}
use xgc2_ugv_controller.Unicycle.Requests.{
  Effect-Sound, HasCurrent, IsCurrent, IsLatest, Sound, request_solve-Sound, unexpired-IsCurrent,
}

module _ {D : Type 0} ⦃f : Double D⦄ where
  in_flight-sample_taken :
      (w : Option (WallControlCadence D)) (s : Custom1 D) (wall : D)
      → (sample_taken w s wall).0.in_flight ≡ s.in_flight
  unfolding sample_taken
  in_flight-sample_taken none s wall = refl
  in_flight-sample_taken (some w) s wall = ground arith

module _ {D M C : Type 0} ⦃f : Double D⦄ where
  pub emit_zero-Sound :
      (force : Bool) (s : Custom1 D) (c : Controller D M C)
      → Sound (Alternative.custom1 s) c
      → let r = emit_zero force s c in Sound (Alternative.custom1 r.0) r.1
  emit_zero-Sound force s c h = Effect-Sound s c _ (emit_zero-Effect force s c) h

  pub emit_command-Sound :
      (s : Custom1 D) (c : Controller D M C)
      → Sound (Alternative.custom1 s) c
      → let r = emit_command s c in Sound (Alternative.custom1 r.0) r.1
  emit_command-Sound s c h = Effect-Sound s c _ (emit_command-Effect s c) h

  abbrev pub AllSound : Custom1 D × Controller D M C → Type 0
  AllSound r = Sound (Alternative.custom1 r.0) r.1

  tick_tracked-Sound :
      (h : Health) (s : Custom1 D) (dt : D) (c : Controller D M C)
      → Sound (Alternative.custom1 s) c
      → AllSound (tick_tracked h s dt c)
  unfolding tick_tracked set_command
  tick_tracked-Sound h s dt c sound =
      let output =
        compute_flatness_command (control_state c) (lift_world_pva s.pva c.current_time_sec)
          s.body_speed dt c.config in
      if_cases AllSound (not output.valid)
        (λ _.
          emit_zero-Sound false (record s { last_tick = c.current_time_sec }) c
            (record { current = sound.current; latest = sound.latest }))
        (λ _. emit_command-Sound _ _ (record { current = sound.current; latest = sound.latest }))

  tick_flatness-Sound :
      (h : Health) (s : Custom1 D) (c : Controller D M C)
      → Sound (Alternative.custom1 s) c
      → AllSound (tick_flatness h s c)
  unfolding tick_flatness
  tick_flatness-Sound h s c sound =
      let dt = c.current_time_sec ⊖ s.last_tick in
      let t = sample_taken c.wall_control s c.wall_time_sec in
      let taken : Sound (Alternative.custom1 t.0) c = record {
        current =
            subst (IsCurrent c.request_sequence)
              (sym (in_flight-sample_taken c.wall_control s c.wall_time_sec)) sound.current;
        latest = sound.latest;
      } in
      let unsampled : Sound (Alternative.custom1 (record s { sample_wall = none })) c = record {
        current = sound.current;
        latest = sound.latest;
      } in
      if_cases AllSound (not (world_pva_ready s.pva))
        (λ _. emit_zero-Sound false (record s { sample_wall = none }) c unsampled)
        (λ _.
          if_cases AllSound ((lit 0 0 ≼ dt) && (dt ≼ c.config.velocity_dt_min))
            (λ _. emit_command-Sound _ c (
              if_cases (λ (s' : Custom1 D). Sound (Alternative.custom1 s') c)
                (drops_sample c.wall_control) (λ _. unsampled) (λ _. sound)))
            (λ _.
              if_cases AllSound (not t.1)
                (λ _.
                  if_cases AllSound (command_ready c) (λ _. emit_command-Sound t.0 c taken)
                    (λ _. taken))
                (λ _. tick_tracked-Sound h t.0 dt c taken)))

  tick_nmpc-Sound :
      ⦃source : ReferenceSource C⦄
      → (s : Custom1 D) (c : Controller D M C) → IsCurrent c.request_sequence s.in_flight
      → c.outputs ≡ []
      → AllSound (tick_nmpc s c)
  unfolding tick_nmpc
  tick_nmpc-Sound s c current none_yet =
      let ticket = unexpired c.current_time_sec s.in_flight in
      let kept = unexpired-IsCurrent c.request_sequence c.current_time_sec s.in_flight current in
      if_cases AllSound (not (reference_ready (Alternative.custom1 s) c))
        (λ _.
          emit_zero-Sound false (record s { in_flight = ticket }) c
            (record { current = kept; latest = rw none_yet tt }))
        (λ _. emit_command-Sound _ _ (request_solve-Sound ticket s c kept none_yet))

  abbrev pub Latest : Controller D M C → Type 0
  Latest c = All (IsLatest c.request_sequence) c.outputs

  publish_idle-Latest :
      (gate : PeriodicGate D) (c : Controller D M C)
      → c.outputs ≡ []
      → Latest (publish_idle gate c).1
  unfolding publish_idle
  publish_idle-Latest gate c none_yet =
      elim (Bool-cases (due c.current_time_sec (idle_period c) gate).1) [
        | inl is_due ↦ rw (is_due, none_yet) (tt, tt)
        | inr early ↦ rw (early, none_yet) tt
      ]

  zero-Latest :
      (c : Controller D M C) (t : D) → Latest c → Latest (emit (ControllerOutput.publish_zero t) c)
  zero-Latest c t h = All-append (IsLatest c.request_sequence) c.outputs _ h (tt, tt)

  command-Latest :
      (c : Controller D M C) (t : D)
      → Latest c
      → Latest (emit (ControllerOutput.publish_command t) c)
  command-Latest c t h = All-append (IsLatest c.request_sequence) c.outputs _ h (tt, tt)

  pub emit_reset_zero-Latest :
      (force : Bool) (gate : PeriodicGate D) (c : Controller D M C)
      → Latest c
      → Latest (emit_reset_zero force gate c).1
  unfolding emit_reset_zero
  emit_reset_zero-Latest force gate c h =
      if_cases Latest
        (force
          || (due c.wall_time_sec
              (if lit 0 0 ≺ c.config.idle_cmd_rate_hz
                then lit 1 0 ⊘ c.config.idle_cmd_rate_hz
                else lit 1 0 ⊘ c.config.command_publish_rate_hz)
              gate).1)
        (λ _. zero-Latest (clear_command c) c.current_time_sec h) (λ _. h)

  tick_reset-Sound :
      (h : Health) (gate : PeriodicGate D) (c : Controller D M C)
      → Latest c
      → let r = tick_reset h gate c in Sound r.0 r.1
  unfolding tick_reset set_command
  tick_reset-Sound h gate c latest =
      let s = step (reset_measurement h c) c.executor in
      let stepped = record c { executor = s.0 } in
      let zero = emit_reset_zero-Latest false gate stepped latest in
      if_cases (λ (r : Alternative D × Controller D M C × Bool). Sound r.0 r.1) s.1.ended
        (λ _. record { current = tt; latest = zero })
        (λ _.
          if_cases (λ (r : Alternative D × Controller D M C × Bool). Sound r.0 r.1) (not h.ready)
            (λ _. record { current = tt; latest = zero })
            (λ _. record {
              current = tt;
              latest =
                  if_cases Latest
                    (due c.wall_time_sec (lit 1 0 ⊘ c.config.command_publish_rate_hz) gate).1
                    (λ _. command-Latest c c.current_time_sec latest) (λ _. latest);
            }))

  -- A tick with no outputs yet leaves a sound alternative and controller.
  pub tick-Sound :
      ⦃source : ReferenceSource C⦄
      → (h : Health) (s : Alternative D) (c : Controller D M C) → HasCurrent c.request_sequence s
      → c.outputs ≡ []
      → let r = tick h s c in Sound r.0 r.1
  unfolding tick
  tick-Sound h (Alternative.self_check gate) c current none_yet = record {
    current = tt;
    latest = publish_idle-Latest gate c none_yet;
  }
  tick-Sound h (Alternative.ready gate) c current none_yet = record {
    current = tt;
    latest = publish_idle-Latest gate c none_yet;
  }
  tick-Sound h (Alternative.custom1 s) c current none_yet =
      if_cases AllSound (is_flatness c.config.tracking_strategy)
        (λ _. tick_flatness-Sound h s c (record { current = current; latest = rw none_yet tt }))
        (λ _. tick_nmpc-Sound s c current none_yet)
  tick-Sound h (Alternative.reset gate) c current none_yet =
      tick_reset-Sound h gate c (rw none_yet tt)
