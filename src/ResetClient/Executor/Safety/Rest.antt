-- ===== src/ResetClient/Executor/Safety/Rest.antt =====
-- reset_executor.h: a vehicle that drives no route, under the calls that do not poll.
use xgc2_ugv_controller.Base.{
  ◌≡◌, refl, ap, ◌∙◌, Bool, true, false, not, Option, none, some, ◌&&◌, ◌||◌, if_cases,
  if◌then◌else◌, ◌==◌, u32_max, String,
}
use xgc2_ugv_controller.Floating.{Double, ◌≺◌, ◌⊖◌, lit}
use xgc2_ugv_controller.ResetClient.Protocol.{Grant, GrantState, Outcome, Reason}
use xgc2_ugv_controller.ResetClient.Executor.{
  Executor, Authority, Permission, Run, Measurement, permission, active, set_permission,
  is_executing, is_await_brake, is_await_go, is_await_zero, authority_permission, with_permission,
}
use xgc2_ugv_controller.ResetClient.Executor.Session.{
  request_authority, end, retire, finish_as, finish, abort, install, asks_again, set_spec,
  set_timeout,
}
use xgc2_ugv_controller.ResetClient.Executor.Observe.{
  observe, watch_clock, uncertify, fresh_pose, predates_zero, zero_since, on_zero_published,
  is_other_zero,
}
use xgc2_ugv_controller.ResetClient.Executor.Grants.{
  ignored, outdated, admissible, heard, accept, apply_brake, apply_go, apply_hold, apply_reject,
  apply_grant, on_grant, go_permission,
}
use xgc2_ugv_controller.ResetClient.Executor.Report.{mark_session_published, commit_result}
use xgc2_ugv_controller.ResetClient.Executor.Fields.{permission-with_permission}
use xgc2_ugv_controller.ResetClient.Executor.Invariant.{Rests, request_authority-Rests}
use xgc2_ugv_controller.ResetClient.Executor.Reach.{Call, call, install_prepared}

-- The calls that poll.
abbrev pub polls_first : {D : Type 0} → Call D → Bool
polls_first (Call.polls m) = true
polls_first (Call.steps m) = true
polls_first _ = false

module _ {D : Type 0} ⦃f : Double D⦄ where
  same-Rests : (e u : Executor D) → permission u ≡ permission e → Rests e → Rests u
  unfolding Rests
  same-Rests e u same r = ap is_executing same ∙ r

  put-Rests :
      (p : Permission D) (e u : Executor D)
      → u.authority ≡ with_permission p e.authority
      → is_executing p ≡ false
      → Rests u
  unfolding Rests
  put-Rests p e u at r =
      ap is_executing (ap authority_permission at ∙ permission-with_permission p e.authority) ∙ r

  uncertify-executing : (p : Permission D) → is_executing (uncertify p) ≡ is_executing p
  unfolding uncertify
  uncertify-executing (Permission.await_go zero b d) = refl
  uncertify-executing _ = refl

  watch_clock-Rests : (m : Measurement D) (e : Executor D) → Rests e → Rests (watch_clock m e)
  unfolding watch_clock
  watch_clock-Rests m e r =
      let distrusted : Executor D =
        set_permission (uncertify (permission e)) (record e { clock_invalid = true }) in
      let backwards = e.have_ros_clock && (m.ros_now ≺ (e.last_ros_now ⊖ lit 1 9)) in
      same-Rests (if backwards then distrusted else e) _ refl (
        if_cases Rests backwards
          (λ _.
            put-Rests (uncertify (permission e)) e _ refl
              (uncertify-executing (permission e) ∙ unfold Rests in r))
          (λ _. r))

  observe-Rests : (m : Measurement D) (e : Executor D) → Rests e → Rests (observe m e)
  unfolding observe
  observe-Rests m e r =
      let watched = watch_clock m e in
      let w = watch_clock-Rests m e r in
      if_cases Rests (not (fresh_pose m watched)) (λ _. w)
        (λ _.
          if_cases Rests (is_await_zero (permission watched) || is_await_brake (permission watched))
            (λ _. same-Rests watched _ refl w)
            (λ _.
              if_cases Rests (predates_zero _ m (zero_since (permission watched)))
                (λ _. same-Rests watched _ refl w) (λ _. same-Rests watched _ refl w)))

  end-rest :
      (o : Outcome) (s : Reason) (t : String) (m : Measurement D) (e : Executor D)
      → Rests e
      → Rests (end o s t m e)
  unfolding end
  end-rest o s t m e r = if_cases Rests (active e) (λ _. request_authority-Rests true _) (λ _. r)

  go_permission-executing :
      (g : Grant D) (wall : D) (p : Permission D)
      → is_executing (go_permission g wall p) ≡ is_executing p
  go_permission-executing g wall (Permission.executing x) = refl
  go_permission-executing g wall (Permission.await_go z b d) = refl
  go_permission-executing g wall Permission.none = refl
  go_permission-executing g wall Permission.await_brake = refl
  go_permission-executing g wall Permission.await_zero = refl
  go_permission-executing g wall Permission.complete = refl
  go_permission-executing g wall (Permission.await_stopped z) = refl

  apply_grant-Rests :
      (t : GrantState) (g : Grant D) (m : Measurement D) (e : Executor D)
      → Rests e
      → Rests (apply_grant t g m e)
  unfolding apply_grant apply_brake apply_go apply_hold apply_reject
  apply_grant-Rests GrantState.brake g m e r =
      if_cases Rests (is_await_brake (permission e))
        (λ _. put-Rests Permission.await_zero e _ refl refl)
        (λ _.
          if_cases Rests (g.grant_id == e.brake_id) (λ _. r)
            (λ _. request_authority-Rests (not (active e)) e))
  apply_grant-Rests GrantState.go g m e r =
      let rested : is_executing (permission e) ≡ false = unfold Rests in r in
      let still = go_permission-executing g m.wall_now (permission e) ∙ rested in
      if_cases Rests (is_executing (permission e))
        (λ _. put-Rests (go_permission g m.wall_now (permission e)) e _ refl still)
        (λ _. put-Rests (go_permission g m.wall_now (permission e)) e _ refl still)
  apply_grant-Rests GrantState.hold g m e r =
      if_cases Rests (not (active e) && is_await_go (permission e))
        (λ _. put-Rests Permission.complete e _ refl refl) (λ _. r)
  apply_grant-Rests GrantState.reject g m e r =
      if_cases Rests (active e) (λ _. end-rest _ _ _ m e r) (λ _. r)

  heard-permission :
      (g : Grant D) (m : Measurement D) (a : Authority D)
      → authority_permission (heard g m a) ≡ authority_permission a
  heard-permission g m (Authority.retirement h p) = refl
  heard-permission g m (Authority.run r) = refl

  on_grant-Rests :
      (g : Grant D) (m : Measurement D) (e : Executor D) → Rests e → Rests (on_grant g m e)
  unfolding on_grant accept
  on_grant-Rests g m e r =
      if_cases Rests (ignored g e || outdated g e || not (admissible g e)) (λ _. r)
        (λ _.
          apply_grant-Rests g.state g m _
            (same-Rests e (accept g m e) (heard-permission g m e.authority) r))

  finish_as-Rests : (a : Authority D) (e : Executor D) → Rests e → Rests (finish_as a e)
  unfolding finish_as retire
  finish_as-Rests (Authority.retirement h p) e r = r
  finish_as-Rests (Authority.run s) e r =
      same-Rests (if is_executing (permission e) then request_authority true e else e) _ refl (
        if_cases Rests (is_executing (permission e)) (λ _. request_authority-Rests true e) (λ _. r))

  resets-Rests :
      (o : Option (Run D)) (m : Measurement D) (e : Executor D)
      → Rests e
      → Rests (install_prepared o m e)
  unfolding install
  resets-Rests none m e r = r
  resets-Rests (some s) m e r = request_authority-Rests false _

  -- A vehicle that drives no route still drives none after any call that does not poll: after a
  -- measurement, a grant of any kind, a published zero, a new Reset, an abort, a finish, a declaration,
  -- and the taking or publishing of what it reports.
  pub call-Rests :
      (c : Call D) (e : Executor D) → polls_first c ≡ false → Rests e → Rests (call c e)
  unfolding call set_timeout finish abort set_spec on_zero_published mark_session_published
      commit_result
  call-Rests (Call.observes m) e other r = observe-Rests m e r
  call-Rests (Call.polls m) e other r = cc
  call-Rests (Call.steps m) e other r = cc
  call-Rests (Call.publishes m) e other r =
      if_cases Rests (e.next_publication == u32_max) (λ _. same-Rests e _ refl r)
        (λ _. same-Rests e _ refl r)
  call-Rests (Call.zero_published t g b) e other r =
      if_cases Rests (is_other_zero t g b e) (λ _. r)
        (λ _. put-Rests (Permission.await_stopped t) e _ refl refl)
  call-Rests (Call.receives g m) e other r = on_grant-Rests g m e r
  call-Rests (Call.resets i t valid m) e other r = resets-Rests _ m e r
  call-Rests (Call.aborts o t m) e other r =
      if_cases Rests (active e) (λ _. end-rest o Reason.none t m e r) (λ _. r)
  call-Rests Call.finishes e other r = finish_as-Rests e.authority e r
  call-Rests Call.commits e other r =
      if_cases Rests e.previous_pending (λ _. same-Rests e _ refl r) (λ _. same-Rests e _ refl r)
  call-Rests (Call.declares spec) e other r =
      if_cases Rests (asks_again spec e) (λ _. request_authority-Rests (not (active e)) _)
        (λ _. same-Rests e _ refl r)
  call-Rests (Call.sets_timeout seconds) e other r = same-Rests e _ refl r
