-- ===== src/Unicycle/Requests/Calls.antt =====
-- unicycle_ugv_controller.cpp: the numbers of solves over any calls of a controller.
use xgc2_ugv_controller.Base.{
  ℕ, ◌≡◌, refl, subst, not, ◌&&◌, ◌||◌, List, [], ◌∷◌, Option, none, some, if_cases, and_then, pos,
  Option-cases, ◌⊎◌, inl, inr,
}
use native.Mathlib.Decide.{ℕ_discrete}
use xgc2_ugv_controller.Floating.{Double, ◌≐◌}
use xgc2_ugv_controller.StateMachine.{AdtMachine}
use xgc2_ugv_controller.Clock.Time.{time_from_sec, time_nsec, time_to_sec}
use xgc2_ugv_controller.ResetClient.Executor.Grants.{on_grant}
use xgc2_ugv_controller.Mecanum.Types.{AngleMath}
use xgc2_ugv_controller.Mecanum.Controller.{Health, requires_zero_command}
use xgc2_ugv_controller.Unicycle.Types.{NmpcCompletion, UgvState, WorldPvaReference, finite_pose}
use xgc2_ugv_controller.Unicycle.Config.{uses_pose_velocity_filter}
use xgc2_ugv_controller.Unicycle.Filter.{update_pose_velocity_estimator}
use xgc2_ugv_controller.Unicycle.Controller.{
  Alternative, Controller, ReferenceSource, health, new_controller, apply_reset_spec, set_config,
  set_command, post_completion, reset_measurement,
}
use xgc2_ugv_controller.Unicycle.Handlers.{handle_completion, handle_pva}
use xgc2_ugv_controller.Unicycle.Turn.{set_world_pva, turn, turn_at}
use xgc2_ugv_controller.Unicycle.Operations.{
  at_time, notify_reset_zero_published, observe_inputs, observed, observed_at, on_reset_grant,
  phase_or, reset_result_published, reset_session_published, status_published, take_reset_result,
  update_pose_velocity,
}
use xgc2_ugv_controller.Unicycle.Events.{Event, handle_event, handle_events, turned}
use xgc2_ugv_controller.Unicycle.Requests.{Sound}
use xgc2_ugv_controller.Unicycle.Requests.Handlers.{handle_completion-stale}
use xgc2_ugv_controller.Unicycle.Requests.Turns.{IsSound, placed, turn_at-IsSound}

-- A property of what a call leaves, where it does not throw.
abbrev pub Unless {ℓ κ} : {A : Type ℓ} → (A → Type κ) → Option A → Type κ
Unless P none = Unit
Unless P (some a) = P a

Unless-and_then {ℓ κ} :
    {A B : Type ℓ} (P : B → Type κ) (o : Option A) (g : A → Option B)
    → ((a : A) → Unless P (g a))
    → Unless P (and_then o g)
Unless-and_then P none g h = tt
Unless-and_then P (some a) g h = h a

module _ {D M C : Type 0} ⦃f : Double D⦄ ⦃k : AdtMachine (Alternative D) D M⦄ where
  -- A controller with the same machine, requests and outputs.
  same_requests :
      (c c' : Controller D M C)
      → c'.machine ≡ c.machine
      → c'.request_sequence ≡ c.request_sequence
      → c'.outputs ≡ c.outputs
      → IsSound c
      → IsSound c'
  same_requests c c' m n o sound = record {
    current = rw (m, n) sound.current;
    latest = rw (n, o) sound.latest;
  }

  update_pose_velocity-IsSound :
      ⦃angle : AngleMath D⦄
      → (c : Controller D M C) → IsSound c
      → Unless IsSound (update_pose_velocity c)
  unfolding update_pose_velocity
  update_pose_velocity-IsSound c sound =
      let stamp = time_to_sec c.state.stamp in
      if_cases (Unless IsSound) (not (uses_pose_velocity_filter c.config.state_source)) (λ _. sound)
        (λ _.
          if_cases (Unless IsSound) (not c.state.received || not (finite_pose c.state)) (λ _. sound)
            (λ _.
              if_cases (Unless IsSound) (c.have_pose_stamp && (stamp ≐ c.last_pose_stamp))
                (λ _. sound)
                (λ _.
                  Unless-and_then IsSound
                    (update_pose_velocity_estimator c.pose_velocity stamp c.state.x c.state.y
                      c.state.yaw c.config)
                    _ (λ e. record { current = sound.current; latest = sound.latest }))))

  handle_pva-Sound :
      (s : Alternative D) (p : WorldPvaReference D) (c : Controller D M C)
      → Sound s c
      → let r = handle_pva s p c in Sound r.0 r.1
  unfolding handle_pva
  handle_pva-Sound (Alternative.custom1 s) p c sound = record {
    current = sound.current;
    latest = sound.latest;
  }
  handle_pva-Sound (Alternative.self_check gate) p c sound = record {
    current = tt;
    latest = sound.latest;
  }
  handle_pva-Sound (Alternative.ready gate) p c sound = record {
    current = tt;
    latest = sound.latest;
  }
  handle_pva-Sound (Alternative.reset gate) p c sound = record {
    current = tt;
    latest = sound.latest;
  }

  module _ ⦃angle : AngleMath D⦄ where
    observed_at-IsSound :
        (now wall : D) (c : Controller D M C)
        → IsSound c
        → Unless (λ (r : Health × Controller D M C). IsSound r.1) (observed_at now wall c)
    unfolding observed_at observed
    observed_at-IsSound now wall c sound = Unless-and_then _ (health (at_time now wall c)) _ (λ h.
        let phased = record (at_time now wall c) {
          control_phase_ns = phase_or c.control_phase_ns (pos (time_nsec h.now));
        } in
        let moved =
          update_pose_velocity-IsSound phased
            (record { current = sound.current; latest = sound.latest }) in
        kept h (update_pose_velocity phased) moved)
      where
        kept :
            (h : Health) (o : Option (Controller D M C))
            → Unless IsSound o
            → Unless
                (λ (r : Health × Controller D M C). IsSound r.1)
                (and_then o (λ c'. some (h, observed h c')))
        kept h none sound = tt
        kept h (some c') sound = record { current = sound.current; latest = sound.latest }

    module _ ⦃source : ReferenceSource C⦄ where
      handle_event-IsSound :
          (e : Event D C) (c : Controller D M C) → IsSound c → Unless IsSound (handle_event e c)
      unfolding handle_event turn observe_inputs on_reset_grant notify_reset_zero_published
          reset_session_published reset_result_published take_reset_result status_published
          set_world_pva set_config apply_reset_spec set_command post_completion
      handle_event-IsSound (Event.turns now wall input topic) c sound =
          turned_from _ (observed_at-IsSound now wall c sound)
        where
          turned_from :
              (o : Option (Health × Controller D M C))
              → Unless (λ (r : Health × Controller D M C). IsSound r.1) o
              → Unless IsSound
                  (and_then (and_then o (λ r. some (turn_at r.0 input topic r.1))) turned)
          turned_from none sound = tt
          turned_from (some (h, c')) sound = turn_at-IsSound h input topic c' sound
      handle_event-IsSound (Event.observes now wall) c sound =
          observed_from _ (observed_at-IsSound now wall c sound)
        where
          observed_from :
              (o : Option (Health × Controller D M C))
              → Unless (λ (r : Health × Controller D M C). IsSound r.1) o
              → Unless IsSound (and_then o (λ r. some r.1))
          observed_from none sound = tt
          observed_from (some r) sound = sound
      handle_event-IsSound (Event.completes result) c sound = same_requests c _ refl refl refl sound
      handle_event-IsSound (Event.grants g) c sound = Unless-and_then IsSound (health c) _ (λ h.
          if_cases IsSound (requires_zero_command (on_grant g (reset_measurement h c) c.executor))
            (λ _. same_requests c _ refl refl refl sound)
            (λ _. same_requests c _ refl refl refl sound))
      handle_event-IsSound (Event.zero_published now generation brake) c sound =
          Unless-and_then IsSound (health c) _ (λ h.
            if_cases IsSound (reset_measurement h c).external_command_zero
              (λ _. same_requests c _ refl refl refl sound) (λ _. sound))
      handle_event-IsSound Event.publishes_session c sound =
          Unless-and_then IsSound (health c) _ (λ h. same_requests c _ refl refl refl sound)
      handle_event-IsSound Event.publishes_result c sound = same_requests c _ refl refl refl sound
      handle_event-IsSound Event.takes_result c sound = same_requests c _ refl refl refl sound
      handle_event-IsSound Event.publishes_status c sound =
          Unless-and_then IsSound (time_from_sec c.current_time_sec) _
            (λ t. same_requests c _ refl refl refl sound)
      handle_event-IsSound Event.clears c sound = same_requests c _ refl refl refl sound
      handle_event-IsSound (Event.commands command) c sound = same_requests c _ refl refl refl sound
      handle_event-IsSound (Event.configures config) c sound =
          same_requests c _ refl refl refl sound
      handle_event-IsSound (Event.targets target) c sound = same_requests c _ refl refl refl sound
      handle_event-IsSound (Event.refers reference) c sound =
          placed _ _ _ (k.state-put _ _) (handle_pva-Sound (k.state c.machine) reference c sound)
      handle_event-IsSound (Event.phases phase) c sound = same_requests c _ refl refl refl sound
      handle_event-IsSound (Event.wall_phases phase external) c sound =
          same_requests c _ refl refl refl sound
      handle_event-IsSound (Event.senses state) c sound = same_requests c _ refl refl refl sound
      handle_event-IsSound (Event.caches cache) c sound = same_requests c _ refl refl refl sound

      handle_events-IsSound :
          (es : List (Event D C)) (c : Controller D M C)
          → IsSound c
          → Unless IsSound (handle_events es c)
      unfolding handle_events
      handle_events-IsSound [] c sound = sound
      handle_events-IsSound (e ∷ es) c sound = elim (Option-cases (handle_event e c)) [
        | inl threw ↦ rw threw tt
        | inr (c', went) ↦ rw went (
            handle_events-IsSound es c'
              (subst (Unless IsSound) went (handle_event-IsSound e c sound)))
      ]

      new_controller-IsSound :
          (seed : ℕ) (nan : D) (cache : C) (state : UgvState D)
          → IsSound (new_controller {M = M} seed nan cache state)
      unfolding new_controller apply_reset_spec
      new_controller-IsSound seed nan cache state = record {
        current = rw (k.state-start _ _) tt;
        latest = tt;
      }

      -- What calls leave: an exception, or a controller whose solve in flight and whose requests have the
      -- last number, and that the completion of any other solve does not change.
      pub data Numbered : Option (Controller D M C) → Type 0 where
        throws : Numbered none
        leaves :
            (c : Controller D M C)
            → IsSound c
            → ((result : NmpcCompletion D)
                → (result.sequence ≡ c.request_sequence)
                  ⊎ (handle_completion (k.state c.machine) result c ≡ (k.state c.machine, c)))
            → Numbered (some c)

      -- After any calls from the start, one throws, or the solve in flight and every request among the
      -- outputs of the last turn have the number that was given out last, and the completion of a solve
      -- with another number changes neither the alternative nor the controller.
      pub handle_events-Numbered :
          (seed : ℕ) (nan : D) (cache : C) (state : UgvState D) (es : List (Event D C))
          → Numbered (handle_events es (new_controller seed nan cache state))
      handle_events-Numbered seed nan cache state es =
          numbered _ (handle_events-IsSound es _ (new_controller-IsSound seed nan cache state))
        where
          numbered : (o : Option (Controller D M C)) → Unless IsSound o → Numbered o
          numbered none sound = throws
          numbered (some c) sound = leaves c sound (λ result.
              elim (ℕ_discrete result.sequence c.request_sequence) [
                | yes same ↦ inl same
                | no stale ↦ inr (handle_completion-stale _ result c sound stale)
              ])
