-- ===== src/Clock/Time/Laws.antt =====
-- time.h: nanoseconds and back, the range of a duration, and the arithmetic of times.
use xgc2_ugv_controller.Base.{
  ℕ, ◌+◌, ◌-◌, ◌*◌, ◌/◌, ◌%◌, ◌^◌, ◌≤◌, ◌<◌, ◌≡◌, refl, sym, subst, ap, ◌∙◌, true, false, ◌||◌,
  ◌&&◌, Option, none, some, ltb, leb, ◌==◌, u32_max, ℤ, pos, negsuc, pos_part, neg_part, sub_ℕ,
  ltb_ℤ, quot_ℤ, rem_ℤ, to_u64, to_i64, if◌then◌else◌, arith, if_cases, ◌⊎◌, inl, inr, Bool-cases,
  Option-cases, zero, suc,
}
use xgc2_ugv_controller.Clock.Time.{
  Duration, Time, second, fits_i32, borrow, normalize, duration_from_nsec, duration_nsec, time_nsec,
  normalize_time, time_from_nsec, sub_time, add_time, normalize_unsigned,
}

-- A duration as the constructors leave it: the nanoseconds are a fraction of a second.
pub record IsNormal (d : Duration) : Type 0 where
  pub fraction : (neg_part d.nsec ≡ 0) × (pos_part d.nsec < second)
  pub in_range : fits_i32 d.sec ≡ true

pub record IsTime (t : Time) : Type 0 where
  pub fraction : t.nsec < second
  pub in_range : t.sec ≤ u32_max

quot_rem :
    (t : ℤ)
    → pos_part t + (neg_part (quot_ℤ t second) * second + neg_part (rem_ℤ t second))
      ≡ neg_part t + (pos_part (quot_ℤ t second) * second + pos_part (rem_ℤ t second))
quot_rem (pos n) = omega arith
quot_rem (negsuc n) = ground arith

-- A duration whose nanoseconds are a fraction of a second, with seconds that fit, is what its
-- nanoseconds give back.
pub duration_from_nsec-duration_nsec :
    (d : Duration) → IsNormal d → duration_from_nsec (duration_nsec d) ≡ some d
unfolding duration_from_nsec normalize
duration_from_nsec-duration_nsec d n = ground (arith, n.fraction, n.in_range)

-- What nanoseconds come to: an exception outside the seconds of an `int32_t`, and otherwise a normal
-- duration of just that many.
pub data Represents (t : ℤ) : Option Duration → Type 0 where
  out_of_range : (2 ^ 31 * second ≤ pos_part t) ⊎ (2 ^ 31 * second < neg_part t) → Represents t none
  exact : (d : Duration) → IsNormal d → duration_nsec d ≡ t → Represents t (some d)

-- Seconds and nanoseconds by division that rounds down.
abbrev floor_sec : ℤ → ℤ
floor_sec (pos n) = pos (n / second)
floor_sec (negsuc n) = negsuc (n / second)

abbrev floor_nsec : ℤ → ℕ
floor_nsec (pos n) = n % second
floor_nsec (negsuc n) = second - 1 - n % second

borrow_negative :
    (q r : ℕ)
    → r < second
    → borrow
        (sub_ℕ
          (pos_part (sub_ℕ 0 q) + pos_part (quot_ℤ (sub_ℕ 0 r) second))
          (neg_part (sub_ℕ 0 q) + neg_part (quot_ℤ (sub_ℕ 0 r) second)))
        (rem_ℤ (sub_ℕ 0 r) second)
      ≡ (if r == 0 then (sub_ℕ 0 q, pos 0) else (sub_ℕ 0 (q + 1), pos (second - r)))
borrow_negative q zero h = ground arith
borrow_negative q (suc r) h = ground (arith, h)

floor_negative :
    (n : ℕ)
    → ◌≡◌ {A = ℤ × ℤ}
        (if (suc n % second) == 0
          then (sub_ℕ 0 (suc n / second), pos 0)
          else (sub_ℕ 0 (suc n / second + 1), pos (second - (suc n % second))))
        (floor_sec (negsuc n), pos (floor_nsec (negsuc n)))
floor_negative n = ground arith

fits_floor : (t : ℤ) → fits_i32 (quot_ℤ t second) ≡ false → fits_i32 (floor_sec t) ≡ false
fits_floor (pos n) h = h
fits_floor (negsuc n) h = ground (arith, h)

borrowed :
    (t : ℤ)
    → borrow
        (sub_ℕ
          (pos_part (quot_ℤ t second) + pos_part (quot_ℤ (rem_ℤ t second) second))
          (neg_part (quot_ℤ t second) + neg_part (quot_ℤ (rem_ℤ t second) second)))
        (rem_ℤ (rem_ℤ t second) second)
      ≡ (floor_sec t, pos (floor_nsec t))
borrowed (pos n) = ground arith
borrowed (negsuc n) =
    borrow_negative (suc n / second) (suc n % second) (omega arith) ∙ floor_negative n

-- `fromNSec` rounds down: a duration is whole seconds, negative ones too, and a fraction of a second.
duration_from_nsec_lem :
    (t : ℤ)
    → duration_from_nsec t ≡ (
        if fits_i32 (floor_sec t)
        then some (record { sec = floor_sec t; nsec = pos (floor_nsec t) })
        else none)
unfolding duration_from_nsec normalize
duration_from_nsec_lem t = elim (Bool-cases (fits_i32 (quot_ℤ t second))) [
  | inl h ↦ rw (borrowed t, h) refl
  | inr h ↦ rw (h, fits_floor t h) refl
]

Represents-floor :
    (t : ℤ)
    → Represents t (
        if fits_i32 (floor_sec t)
        then some (record { sec = floor_sec t; nsec = pos (floor_nsec t) })
        else none)
Represents-floor (pos n) =
    if_cases (Represents (pos n)) (fits_i32 (pos (n / second)))
      (λ h. exact _ (record { fraction = (refl, omega arith); in_range = h }) (ground arith))
      (λ h. out_of_range (inl (ground (arith, h))))
Represents-floor (negsuc n) =
    if_cases (Represents (negsuc n)) (fits_i32 (negsuc (n / second)))
      (λ h. exact _ (record { fraction = (refl, omega arith); in_range = h }) (ground arith))
      (λ h. out_of_range (inr (ground (arith, h))))

-- Nanoseconds either lie outside the seconds of an `int32_t` and are refused, or give a duration of
-- exactly that many nanoseconds, whose `nsec` is a fraction of a second.
pub duration_from_nsec-Represents : (t : ℤ) → Represents t (duration_from_nsec t)
duration_from_nsec-Represents t = rw (duration_from_nsec_lem t) (Represents-floor t)

-- A time is what its nanoseconds give back.
pub time_from_nsec-time_nsec : (t : Time) → IsTime t → time_from_nsec (time_nsec t) ≡ some t
unfolding time_from_nsec normalize_time
time_from_nsec-time_nsec t n = ground (arith, n.fraction, n.in_range)

to_i64_sub : (a b : ℕ) → a < 2 ^ 63 → b < 2 ^ 63 → to_i64 ((a + (2 ^ 64 - b)) % 2 ^ 64) ≡ sub_ℕ a b
to_i64_sub a b ha hb = ground arith

-- The difference of two times goes through 64-bit words without loss: it is the exact difference in
-- nanoseconds, as a duration where one exists.
pub sub_time_lem :
    (a b : Time)
    → IsTime a
    → IsTime b
    → sub_time a b ≡ duration_from_nsec (sub_ℕ (time_nsec a) (time_nsec b))
unfolding sub_time
sub_time_lem a b ha hb = ap duration_from_nsec (
    to_i64_sub (time_nsec a) (time_nsec b) (omega (arith, ha.fraction, ha.in_range))
      (omega (arith, hb.fraction, hb.in_range)))

to_i64_add :
    (a : ℕ) (b : ℤ)
    → a < 2 ^ 62
    → pos_part b < 2 ^ 62
    → neg_part b < 2 ^ 62
    → to_i64 ((a + to_u64 b) % 2 ^ 64) ≡ sub_ℕ (a + pos_part b) (neg_part b)
to_i64_add a (pos n) ha hb hc = ground arith
to_i64_add a (negsuc n) ha hb hc = ground arith

carried :
    (a b k : ℕ) → sub_ℕ (pos_part (sub_ℕ a b) + k) (neg_part (sub_ℕ a b) + 0) ≡ sub_ℕ (a + k) b
carried a b k = ground arith

checked_seconds :
    (x b k : ℕ)
    → k < second
    → (if ltb_ℤ (sub_ℕ x b) (pos 0) || ltb u32_max (pos_part (sub_ℕ x b))
        then none
        else normalize_time (pos_part (sub_ℕ x b)) k)
      ≡ (if leb b x && leb (x - b) u32_max then some (record { sec = x - b; nsec = k }) else none)
unfolding normalize_time
checked_seconds x b k h = ground (arith, h)

borrow_pos : (s : ℤ) (k : ℕ) → borrow s (pos k) ≡ (s, pos k)
borrow_pos s k = ground arith

-- A whole sum of seconds with less than two seconds of nanoseconds.
normalize_sum :
    (a b m : ℕ)
    → m < 2 * second
    → normalize_unsigned (sub_ℕ a b) (pos m) ≡ (
        if leb b (a + m / second) && leb (a + m / second - b) u32_max
        then some (record { sec = a + m / second - b; nsec = m % second })
        else none)
unfolding normalize_unsigned normalize_time
normalize_sum a b m h =
    rw
      (
        borrow_pos (sub_ℕ (pos_part (sub_ℕ a b) + m / second) (neg_part (sub_ℕ a b) + 0))
            (m % second),
        carried a b (m / second),
      )
      (checked_seconds (a + m / second) b (m % second) (omega arith))

sum_of_parts :
    (t : Time) (d : Duration)
    → IsTime t
    → IsNormal d
    → add_time t d
      ≡ normalize_unsigned
          (sub_ℕ (t.sec + pos_part d.sec) (neg_part d.sec))
          (pos (t.nsec + pos_part d.nsec))
unfolding add_time
sum_of_parts t d ht hd =
    let seconds =
      to_i64_add t.sec d.sec (omega (arith, ht.in_range)) (ground (arith, hd.in_range))
        (ground (arith, hd.in_range)) in
    let fraction =
      to_i64_add t.nsec d.nsec (omega (arith, ht.fraction)) (ground (arith, hd.fraction))
        (ground (arith, hd.fraction)) in
    let whole : sub_ℕ (t.nsec + pos_part d.nsec) (neg_part d.nsec)
        ≡ pos (t.nsec + pos_part d.nsec) =
      ground (arith, hd.fraction) in
    rw (seconds, fraction, whole) refl

represented : (t : ℤ) (d : Duration) → Represents t (some d) → IsNormal d × (duration_nsec d ≡ t)
represented t d (exact _ n e) = (n, e)

sub_ℕ_inj : (a b c d : ℕ) → sub_ℕ a b ≡ sub_ℕ c d → a + d ≡ c + b
sub_ℕ_inj a b c d h = ground (arith, h)

landed :
    (a b : Time) (d : Duration)
    → IsTime a
    → IsTime b
    → IsNormal d
    → pos_part d.sec * second + pos_part d.nsec + time_nsec b
      ≡ time_nsec a + neg_part d.sec * second
    → let x = b.sec + pos_part d.sec in
      let m = b.nsec + pos_part d.nsec in
      (neg_part d.sec ≤ x + m / second)
      × (x + m / second - neg_part d.sec ≡ a.sec)
      × (m % second ≡ a.nsec)
landed a b d ha hb hd e = (
  omega (arith, e, ha.fraction, hb.fraction, hd.fraction),
  omega (arith, e, ha.fraction, hb.fraction, hd.fraction),
  omega (arith, e, ha.fraction, hb.fraction, hd.fraction),
)

-- Adding to a time the duration up to another gives that other time, wherever the duration exists.
pub add_time-sub_time :
    (a b : Time) (d : Duration)
    → IsTime a
    → IsTime b
    → sub_time a b ≡ some d
    → add_time b d ≡ some a
add_time-sub_time a b d ha hb h =
    let found = represented (sub_ℕ (time_nsec a) (time_nsec b)) d (
      subst (Represents (sub_ℕ (time_nsec a) (time_nsec b))) (sym (sub_time_lem a b ha hb) ∙ h)
        (duration_from_nsec-Represents (sub_ℕ (time_nsec a) (time_nsec b)))) in
    let hd = found.0 in
    let whole = sub_ℕ_inj _ _ _ _ found.1 in
    let at = landed a b d ha hb hd (omega (arith, whole, hd.fraction)) in
    sum_of_parts b d hb hd
    ∙ normalize_sum (b.sec + pos_part d.sec) (neg_part d.sec) (b.nsec + pos_part d.nsec)
        (omega (arith, hb.fraction, hd.fraction))
    ∙ ground (arith, at, ha.in_range)

-- There is no duration up to a time from one that lies 2^31 seconds or more before it, nor from one that
-- lies more than 2^31 seconds after it.
pub sub_time-none :
    (a b : Time)
    → IsTime a
    → IsTime b
    → (time_nsec b + 2 ^ 31 * second ≤ time_nsec a) ⊎ (time_nsec a + 2 ^ 31 * second < time_nsec b)
    → sub_time a b ≡ none
sub_time-none a b ha hb wide = elim (Option-cases (sub_time a b)) [
  | inl h ↦ h
  | inr (d, h) ↦ absurd (too_wide d h)
]
  where
    too_wide : (d : Duration) → sub_time a b ≡ some d → ⊥
    too_wide d h =
        let found = represented (sub_ℕ (time_nsec a) (time_nsec b)) d (
          subst (Represents (sub_ℕ (time_nsec a) (time_nsec b))) (sym (sub_time_lem a b ha hb) ∙ h)
            (duration_from_nsec-Represents (sub_ℕ (time_nsec a) (time_nsec b)))) in
        let n = found.0 in
        let whole = sub_ℕ_inj _ _ _ _ found.1 in
        let after : pos_part d.sec < 2 ^ 31 = ground (arith, n.in_range) in
        let before : neg_part d.sec ≤ 2 ^ 31 = ground (arith, n.in_range) in
        omega (arith, whole, n.fraction, after, before, wide)
