-- ===== src/ResetSafety/Coordinator/Publications.antt =====
-- reset_coordinator.cpp: the numbers, sessions and requests of the messages that the coordinator sent, and
-- what `onSession` does to them.
use xgc2_ugv_controller.Base.{
  ℕ, ◌≤◌, ◌<◌, ◌≡◌, refl, sym, ◌∙◌, subst, Bool, true, false, not, String, List, [], ◌∷◌, Option,
  none, some, str_eq, u32_max, All, arith, if_cases, Bool-cases, Option-cases, inl, inr, ◌⊎◌,
}
use Prim.Native.String.{compare}
use text.Mathlib.Text.{is_lt}
use xgc2_ugv_controller.Floating.{Double, lit, ◌⊖◌, ◌≼◌}
use xgc2_ugv_controller.ResetClient.Protocol.{Grant, Session}
use xgc2_ugv_controller.ResetSafety.Coordinator.{
  Coordinator, Entry, Publication, OutgoingGrant, find_entry, change_entry, insert_entry,
  note_session, note_motion, keep_last, new_entry, on_session, is_stale, same_request, has_value,
  refusal,
}

module _ {D : Type 0} ⦃f : Double D⦄ where
  -- The last message is one of the session and the request, under a number that is used up.
  abbrev pub IsCurrent : Session D → ℕ → Option (Publication D) → Type 0
  IsCurrent s next none = Unit {0}
  IsCurrent s next (some p) =
      (p.grant.session ≡ s.session)
      × (p.grant.request_generation ≡ s.request_generation)
      × (p.grant.publication_seq < next)

  pub record Sound (e : Entry D) : Type 0 where
    pub last_current : IsCurrent e.session e.next_publication_seq e.last
    pub counted : (0 < e.next_publication_seq) × (e.next_publication_seq ≤ u32_max)

  unfoldable pub AllSound : List (String × Entry D) → Type 0
  AllSound entries = All (λ (n : String × Entry D). Sound n.1) entries

  -- The message speaks of the vehicle's session and request as it stands in the entries.
  abbrev pub Speaks : Option (Entry D) → Grant D → Type 0
  Speaks none g = ⊥
  Speaks (some e) g =
      (g.session ≡ e.session.session)
      × (g.request_generation ≡ e.session.request_generation)
      × (g.publication_seq < e.next_publication_seq)

  unfoldable pub IsAddressed : List (String × Entry D) → OutgoingGrant D → Type 0
  IsAddressed entries o = Speaks (find_entry o.vehicle entries) o.grant

  pub find-Sound :
      (id : String) (entries : List (String × Entry D)) (e : Entry D)
      → AllSound entries
      → find_entry id entries ≡ some e
      → Sound e
  unfolding AllSound find_entry
  find-Sound id [] e a h = absurd cc
  find-Sound id ((n, d) ∷ rest) e a h = elim (Bool-cases (str_eq n id)) [
    | inl t ↦ let same : d ≡ e = ground (arith, h, t) in subst Sound same a.0
    | inr t ↦ find-Sound id rest e a.1 (ground (arith, h, t))
  ]

  pub change-AllSound :
      (id : String) (change : Entry D → Entry D) (entries : List (String × Entry D))
      → ((e : Entry D) → find_entry id entries ≡ some e → Sound e → Sound (change e))
      → AllSound entries
      → AllSound (change_entry id change entries)
  unfolding AllSound change_entry find_entry
  change-AllSound id change [] keeps a = a
  change-AllSound id change ((n, d) ∷ rest) keeps a = elim (Bool-cases (str_eq n id)) [
    | inl t ↦ rw t (keeps d (rw t refl) a.0, a.1)
    | inr t ↦ rw t (a.0, change-AllSound id change rest (λ e h. keeps e (rw t h)) a.1)
  ]

  pub find-change-same :
      (id : String) (change : Entry D → Entry D) (entries : List (String × Entry D)) (e : Entry D)
      → find_entry id entries ≡ some e
      → find_entry id (change_entry id change entries) ≡ some (change e)
  unfolding change_entry find_entry
  find-change-same id change [] e h = absurd cc
  find-change-same id change ((n, d) ∷ rest) e h = elim (Bool-cases (str_eq n id)) [
    | inl t ↦ rw (t, t) (ground (arith, h, t))
    | inr t ↦ rw (t, t) (find-change-same id change rest e (ground (arith, h, t)))
  ]

  pub find-change :
      (k id : String) (change : Entry D → Entry D) (entries : List (String × Entry D))
      → (find_entry k (change_entry id change entries) ≡ find_entry k entries)
        ⊎ ((e : Entry D) × (find_entry k entries ≡ some e)
            × (find_entry id entries ≡ some e)
            × (find_entry k (change_entry id change entries) ≡ some (change e)))
  unfolding change_entry find_entry
  find-change k id change [] = inl refl
  find-change k id change ((n, d) ∷ rest) = elim (Bool-cases (str_eq n id)) [
    | inl t ↦ elim (Bool-cases (str_eq n k)) [
      | inl s ↦ inr (d, rw s refl, rw t refl, rw (t, s) refl)
      | inr s ↦ inl (rw (t, s) refl)
    ]
    | inr t ↦ elim (Bool-cases (str_eq n k)) [
      | inl s ↦ inl (rw (t, s) refl)
      | inr s ↦ rw (t, s) (find-change k id change rest)
    ]
  ]

  insert-AllSound :
      (id : String) (new : Entry D) (entries : List (String × Entry D))
      → Sound new
      → AllSound entries
      → AllSound (insert_entry id new entries)
  unfolding AllSound insert_entry
  insert-AllSound id new [] v a = (v, _)
  insert-AllSound id new ((n, d) ∷ rest) v a =
      if_cases AllSound (is_lt (compare id n)) (λ _. (v, a))
        (λ _. (a.0, insert-AllSound id new rest v a.1))

  same-IsCurrent :
      (s known : Session D) (next : ℕ) (o : Option (Publication D))
      → s.session ≡ known.session
      → s.request_generation ≡ known.request_generation
      → IsCurrent known next o
      → IsCurrent s next o
  same-IsCurrent s known next none a b c = _
  same-IsCurrent s known next (some p) a b c = (c.0 ∙ sym a, c.1 ∙ sym b, c.2)

  record Follows (s : Session D) (next : ℕ) (o : Option (Publication D)) : Type 0 where
    current : IsCurrent s next o

  keep_last-Follows :
      (inserted : Bool) (s : Session D) (e : Entry D)
      → (inserted ≡ true → e.last ≡ none)
      → Sound e
      → Follows s e.next_publication_seq (keep_last inserted s e)
  unfolding keep_last same_request
  keep_last-Follows true s e fresh v = record { current = rw (fresh refl) _ }
  keep_last-Follows false s e fresh v =
      if_cases (Follows s e.next_publication_seq) (not (same_request s e.session))
        (λ _. record { current = _ })
        (λ t. record {
          current =
              same-IsCurrent s e.session e.next_publication_seq e.last (ground arith) (ground arith)
                v.last_current;
        })

  -- What the publications need of an entry.
  record Kept (o : Option (Publication D)) (next : ℕ) (e : Entry D) : Type 0 where
    same_last : e.last ≡ o
    same_next : e.next_publication_seq ≡ next

  note_motion-Kept :
      (inserted : Bool) (s : Session D) (e : Entry D)
      → Kept e.last e.next_publication_seq (note_motion inserted s e)
  unfolding note_motion
  note_motion-Kept inserted s e =
      if_cases (Kept e.last e.next_publication_seq) inserted
        (λ _. record { same_last = refl; same_next = refl })
        (λ _.
          if_cases (Kept e.last e.next_publication_seq)
            (lit 2 1 ≼ (s.pose_stamp ⊖ e.reference_stamp))
            (λ _. record { same_last = refl; same_next = refl })
            (λ _. record { same_last = refl; same_next = refl }))

  note_session-Kept :
      (inserted : Bool) (vehicle : String) (s : Session D) (now : D) (e : Entry D)
      → Kept (keep_last inserted s e) e.next_publication_seq (note_session inserted vehicle s now e)
  unfolding note_session
  note_session-Kept inserted vehicle s now e =
      let kept =
        if_cases (Kept (keep_last inserted s e) e.next_publication_seq)
          (has_value (refusal vehicle s)) (λ _. record { same_last = refl; same_next = refl })
          (λ _. note_motion-Kept inserted s _) in
      record { same_last = kept.same_last; same_next = kept.same_next }

  session-note_session :
      (inserted : Bool) (vehicle : String) (s : Session D) (now : D) (e : Entry D)
      → (note_session inserted vehicle s now e).session ≡ s
  unfolding note_session
  session-note_session inserted vehicle s now e = refl

  -- The numbers are left alone, and what was said last is forgotten with another session or request.
  note_session-Sound :
      (inserted : Bool) (vehicle : String) (s : Session D) (now : D) (e : Entry D)
      → (inserted ≡ true → e.last ≡ none)
      → Sound e
      → Sound (note_session inserted vehicle s now e)
  note_session-Sound inserted vehicle s now e fresh v =
      let kept = note_session-Kept inserted vehicle s now e in
      record {
        last_current =
            rw (session-note_session inserted vehicle s now e, kept.same_last, kept.same_next)
              (keep_last-Follows inserted s e fresh v).current;
        counted = rw kept.same_next v.counted;
      }

  new_entry-Sound : Sound new_entry
  new_entry-Sound = record { last_current = _; counted = omega arith }

  -- A Session message, stale or not, of a vehicle that is known or not, keeps every entry sound: the
  -- last message to each vehicle is one of the session and request that it last reported, under a
  -- publication number that is used up.
  pub on_session-AllSound :
      {P : Type 0} (vehicle : String) (s : Session D) (now : D) (c : Coordinator D P)
      → AllSound c.entries
      → AllSound (on_session vehicle s now c).entries
  unfolding on_session
  on_session-AllSound {P} vehicle s now c v = elim (Option-cases (find_entry vehicle c.entries)) [
    | inl h ↦
        rw (h, on_session)
          (insert-AllSound vehicle _ c.entries
            (note_session-Sound true vehicle s now new_entry (λ _. refl) new_entry-Sound) v)
    | inr (e, h) ↦
        rw (h, on_session)
          (if_cases (λ (u : Coordinator D P). AllSound u.entries) (is_stale s e.session) (λ _. v)
            (λ _.
              change-AllSound vehicle (note_session false vehicle s now) c.entries
                (λ d here ok. note_session-Sound false vehicle s now d (λ t. absurd cc) ok) v))
  ]
