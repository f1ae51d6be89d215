-- ===== src/ResetSafety/Coordinator/Deadline/Quiet.antt =====
-- reset_coordinator.cpp, `nextDeadline` against the heartbeat of `step`: until the deadline nothing that was
-- said is said again.
use xgc2_ugv_controller.Base.{
  ◌≡◌, refl, subst, Bool, true, false, not, ◌||◌, ◌==◌, String, List, [], ◌∷◌, Option, none, some,
  ℤ, str_eq, if◌then◌else◌, arith, Bool-cases, inl, inr, if_cases,
}
use text.Mathlib.TextEquality.{eq_iff}
use xgc2_ugv_controller.Floating.{◌⊖◌, ◌≺◌, ◌≼◌}
use xgc2_ugv_controller.Floating.Fixed.{fixed_double}
use xgc2_ugv_controller.ResetSafety.Planner.{Planner}
use xgc2_ugv_controller.ResetSafety.Coordinator.{
  Coordinator, CoordinatorConfig, Entry, Publication, find_entry, has_value,
}
use xgc2_ugv_controller.ResetSafety.Coordinator.Vehicles.{lost, member, participant, outside}
use xgc2_ugv_controller.ResetSafety.Coordinator.Step.{
  Turn, is_pending, keep_alive, refresh, refusal_text, resend, says_reject,
}
use xgc2_ugv_controller.ResetSafety.Coordinator.Deadline.{
  deadline_of, expiry_deadline, next_deadline, repeat_deadline, repeat_time, repeats,
}

not_later : (a b c : ℤ) → (a ≺ b) ≡ false → (b ≺ c) ≡ false → (a ≺ c) ≡ false
not_later a b c h k = ground (arith, h, k)

module _ (cfg : CoordinatorConfig ℤ) (now : ℤ) where
  expiry_le : (e : Entry ℤ) (next : ℤ) → (next ≺ expiry_deadline cfg now e next) ≡ false
  unfolding expiry_deadline
  expiry_le e next = ground arith

  repeat_le :
      (n : String) (e : Entry ℤ) (o : Option (Publication ℤ)) (next : ℤ)
      → (next ≺ repeat_deadline cfg now n e o next) ≡ false
  unfolding repeat_deadline
  repeat_le n e none next = ground arith
  repeat_le n e (some p) next = ground arith

  repeat_lem :
      (n : String) (e : Entry ℤ) (o : Option (Publication ℤ)) (p : Publication ℤ) (next : ℤ)
      → o ≡ some p
      → repeats cfg now n e p ≡ true
      → (repeat_time cfg p ≺ repeat_deadline cfg now n e o next) ≡ false
  unfolding repeat_deadline
  repeat_lem n e o p next said wanted = rw (said, repeat_deadline, wanted) (ground arith)

  deadline_le :
      (es : List (String × Entry ℤ)) (next : ℤ) → (next ≺ deadline_of cfg now es next) ≡ false
  unfolding deadline_of
  deadline_le [] next = ground arith
  deadline_le ((n, e) ∷ rest) next =
      let expiry = expiry_deadline cfg now e next in
      let repeated = repeat_deadline cfg now n e e.last expiry in
      not_later next repeated _
        (not_later next expiry repeated (expiry_le e next) (repeat_le n e e.last expiry))
        (deadline_le rest repeated)

  -- The deadline is not later than the time at which a message that was said last is repeated.
  deadline_of-find_entry :
      (id : String) (e : Entry ℤ) (p : Publication ℤ) (es : List (String × Entry ℤ)) (next : ℤ)
      → find_entry id es ≡ some e
      → e.last ≡ some p
      → repeats cfg now id e p ≡ true
      → (repeat_time cfg p ≺ deadline_of cfg now es next) ≡ false
  unfolding deadline_of find_entry
  deadline_of-find_entry id e p [] next found said wanted = cc found
  deadline_of-find_entry id e p ((n, e₀) ∷ rest) next found said wanted =
      let expiry = expiry_deadline cfg now e₀ next in
      let repeated = repeat_deadline cfg now n e₀ e₀.last expiry in
      elim (Bool-cases (str_eq n id)) [
        | inl here ↦
            let same : e₀ ≡ e =
              cc (subst (λ b. (if b then some e₀ else find_entry id rest) ≡ some e) here found) in
            let name : n ≡ id = (eq_iff n id).0 here in
            not_later (repeat_time cfg p) repeated _
              (repeat_lem n e₀ e₀.last p expiry (rw same said) (rw (same, name) wanted))
              (deadline_le rest repeated)
        | inr elsewhere ↦
            deadline_of-find_entry id e p rest repeated
              (subst (λ b. (if b then some e₀ else find_entry id rest) ≡ some e) elsewhere found)
              said wanted
      ]

module _ {P : Type 0} (planner : Planner ℤ P) (cfg : CoordinatorConfig ℤ) (later : ℤ) where
  -- What is said last was not said too long ago.
  early :
      (p : Publication ℤ) (deadline : ℤ)
      → (repeat_time cfg p ≺ deadline) ≡ false
      → (fixed_double.next_up later ≺ deadline) ≡ true
      → ((later ⊖ p.sent) ≺ cfg.refresh_period) ≡ true
  early p deadline h k = ground (arith, h, k)

  lost_before :
      (now : ℤ) (e : Entry ℤ)
      → (later ≺ now) ≡ false
      → lost cfg later e ≡ false
      → lost cfg now e ≡ false
  unfolding lost
  lost_before now e h k = ground (arith, h, k)

  resend_early :
      (id : String) (e : Entry ℤ) (p : Publication ℤ) (t : Turn ℤ P)
      → ((later ⊖ p.sent) ≺ cfg.refresh_period) ≡ true
      → resend planner cfg later id e (some p) t ≡ some t
  resend_early id e p t h =
      let not_due : (cfg.refresh_period ≼ (later ⊖ p.sent)) ≡ false = ground (arith, h) in
      rw not_due refl

  refresh_early :
      (id : String) (e : Entry ℤ) (p : Publication ℤ) (t : Turn ℤ P) (wanted : Bool)
      → ((later ⊖ p.sent) ≺ cfg.refresh_period) ≡ true
      → refresh planner cfg later wanted id e (some p) t ≡ some t
  refresh_early id e p t wanted h = rw h refl

  -- A refresh that is not wanted and not pending sends nothing.
  refresh_unwanted :
      (id : String) (e : Entry ℤ) (p : Publication ℤ) (t : Turn ℤ P) (wanted : Bool)
      → (wanted || is_pending e.session p.grant) ≡ false
      → refresh planner cfg later wanted id e (some p) t ≡ some t
  refresh_unwanted id e p t wanted h = ground (arith, h)

  participant_before :
      (now : ℤ) (e : Entry ℤ)
      → lost cfg now e ≡ false
      → participant cfg later e ≡ true
      → participant cfg now e ≡ true
  unfolding participant
  participant_before now e h k = ground (arith, h, k)

  module _ (now : ℤ) (id : String) (e : Entry ℤ) (t : Turn ℤ P) (ordered : (later ≺ now) ≡ false)
      (awake : (lost cfg later e || member id t.sent || (e.session.request_generation == 0))
        ≡ false)
      (in_time : (p : Publication ℤ)
        → e.last ≡ some p
        → repeats cfg now id e p ≡ true
        → ((later ⊖ p.sent) ≺ cfg.refresh_period) ≡ true) where
    still_lost : lost cfg now e ≡ false
    still_lost = lost_before now e ordered (ground (arith, awake))

    repeats_refused :
        (p : Publication ℤ)
        → (has_value e.bad_reason || outside cfg id) ≡ true
        → repeats cfg now id e p ≡ true
    unfolding repeats
    repeats_refused p refused = ground (arith, refused, awake, still_lost)

    repeats_wanted :
        (p : Publication ℤ)
        → (participant cfg later e || is_pending e.session p.grant) ≡ true
        → repeats cfg now id e p ≡ true
    unfolding repeats
    repeats_wanted p wanted = elim (Bool-cases (participant cfg later e)) [
      | inl takes_part ↦
          ground (arith, participant_before now e still_lost takes_part, awake, still_lost)
      | inr apart ↦ ground (arith, wanted, apart, awake, still_lost)
    ]

    refused_quiet :
        (o : Option (Publication ℤ)) (detail : String)
        → e.last ≡ o
        → (has_value e.bad_reason || outside cfg id) ≡ true
        → says_reject planner cfg later detail o ≡ true
        → resend planner cfg later id e o t ≡ some t
    refused_quiet none detail said refused rejects = refl
    refused_quiet (some p) detail said refused rejects =
        resend_early id e p t (in_time p said (repeats_refused p refused))

    wanted_quiet :
        (o : Option (Publication ℤ))
        → e.last ≡ o
        → refresh planner cfg later (participant cfg later e) id e o t ≡ some t
    wanted_quiet none said = refl
    wanted_quiet (some p) said =
        elim (Bool-cases (participant cfg later e || is_pending e.session p.grant)) [
          | inl wanted ↦
              refresh_early id e p t (participant cfg later e)
                (in_time p said (repeats_wanted p wanted))
          | inr unwanted ↦ refresh_unwanted id e p t (participant cfg later e) unwanted
        ]

  keep_alive-quiet :
      (now : ℤ) (id : String) (e : Entry ℤ) (t : Turn ℤ P)
      → (later ≺ now) ≡ false
      → find_entry id t.entries ≡ some e
      → (not (has_value e.bad_reason || outside cfg id)
          || says_reject planner cfg later (refusal_text planner cfg later e.bad_reason) e.last)
        ≡ true
      → ((p : Publication ℤ)
          → e.last ≡ some p
          → repeats cfg now id e p ≡ true
          → ((later ⊖ p.sent) ≺ cfg.refresh_period) ≡ true)
      → keep_alive planner cfg later id t ≡ some t
  unfolding keep_alive
  keep_alive-quiet now id e t ordered found rejected in_time =
      rw (found, keep_alive)
        (if_cases (λ r. r ≡ some t)
          (lost cfg later e || member id t.sent || (e.session.request_generation == 0)) (λ _. refl)
          (λ awake.
            if_cases (λ r. r ≡ some t) (has_value e.bad_reason || outside cfg id)
              (λ refused.
                let says : says_reject planner cfg later
                      (refusal_text planner cfg later e.bad_reason) e.last
                    ≡ true =
                  ground (arith, refused, rejected) in
                rw says (
                  refused_quiet now id e t ordered awake in_time e.last
                    (refusal_text planner cfg later e.bad_reason) refl refused says))
              (λ _. wanted_quiet now id e t ordered awake in_time e.last refl)))

-- Over exact numbers, from a time on until more than one unit before the next deadline that is computed
-- then, the heartbeat of a step sends nothing to a vehicle whose entry is the same in the step, provided
-- that a vehicle that is refused or outside the scope was told so last.
pub next_deadline-keep_alive :
    {P : Type 0} (planner : Planner ℤ P) (now later : ℤ) (c : Coordinator ℤ P) (id : String)
    (e : Entry ℤ) (t : Turn ℤ P)
    → (later ≺ now) ≡ false
    → (fixed_double.next_up later ≺ next_deadline planner now c) ≡ true
    → find_entry id c.entries ≡ some e
    → find_entry id t.entries ≡ some e
    → (not (has_value e.bad_reason || outside c.config id)
        || says_reject planner c.config later
            (refusal_text planner c.config later e.bad_reason)
            e.last)
      ≡ true
    → keep_alive planner c.config later id t ≡ some t
unfolding next_deadline
next_deadline-keep_alive planner now later c id e t ordered before known found rejected =
    keep_alive-quiet planner c.config later now id e t ordered found rejected (λ p said wanted.
      early planner c.config later p _
        (deadline_of-find_entry c.config now id e p c.entries _ known said wanted) before)
