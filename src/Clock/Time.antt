-- ===== src/Clock/Time.antt =====
-- mecanum_ugv_controller/include/mecanum_ugv_controller/common/time.h, of which the unicycle controller
-- has a copy: seconds and nanoseconds in 32-bit words. `none` is the exception on a range error.
pub mod Laws
use xgc2_ugv_controller.Base.{
  ℕ, ◌+◌, ◌-◌, ◌*◌, ◌/◌, ◌%◌, ◌^◌, Bool, ◌||◌, ◌&&◌, not, Option, none, some, ltb, leb, ◌==◌, u32,
  u32_max, ℤ, pos, pos_part, neg_part, sub_ℕ, ◌+ℤ◌, ◌-ℤ◌, ltb_ℤ, leb_ℤ, quot_ℤ, rem_ℤ, to_u64,
  to_i64, if◌then◌else◌,
}
use xgc2_ugv_controller.Floating.{Double, lit, ◌⊕◌, ◌⊖◌, ◌⊗◌, ◌≺◌, ◌≼◌}

pub record Duration : Type 0 where
  pub sec : ℤ  -- int32_t
  pub nsec : ℤ  -- int32_t

pub record Time : Type 0 where
  pub sec : ℕ  -- uint32_t
  pub nsec : ℕ  -- uint32_t

abbrev pub second : ℕ
second = 1000000000

abbrev pub zero_duration : Duration
zero_duration = record { sec = pos 0; nsec = pos 0 }

abbrev pub zero_time : Time
zero_time = record { sec = 0; nsec = 0 }

-- The range of an `int32_t`.
abbrev pub fits_i32 : ℤ → Bool
fits_i32 a = leb (neg_part a) (2 ^ 31) && ltb (pos_part a) (2 ^ 31)

-- A negative remainder borrows a second.
abbrev pub borrow : ℤ → ℤ → ℤ × ℤ
borrow s ns =
    if ltb_ℤ ns (pos 0)
    then (sub_ℕ (pos_part s) (neg_part s + 1), sub_ℕ second (neg_part ns))
    else (s, ns)

-- `Duration::normalize`
unfoldable pub normalize : ℤ → ℤ → Option Duration
normalize s ns =
    let (sec_part, nsec_part) =
      borrow
        (sub_ℕ (pos_part s + pos_part (quot_ℤ ns second))
          (neg_part s + neg_part (quot_ℤ ns second)))
        (rem_ℤ ns second) in
    if fits_i32 sec_part then some (record { sec = sec_part; nsec = nsec_part }) else none

-- `Duration::fromNSec`
unfoldable pub duration_from_nsec : ℤ → Option Duration
unfolding normalize
duration_from_nsec t =
    if fits_i32 (quot_ℤ t second) then normalize (quot_ℤ t second) (rem_ℤ t second) else none

-- `Duration::toNSec`
abbrev pub duration_nsec : Duration → ℤ
duration_nsec d =
    sub_ℕ (pos_part d.sec * second + pos_part d.nsec) (neg_part d.sec * second + neg_part d.nsec)

unfoldable pub neg_duration : Duration → Option Duration
neg_duration d = duration_from_nsec (pos 0 -ℤ duration_nsec d)

unfoldable pub add_duration : Duration → Duration → Option Duration
add_duration a b = duration_from_nsec (duration_nsec a +ℤ duration_nsec b)

unfoldable pub sub_duration : Duration → Duration → Option Duration
sub_duration a b = duration_from_nsec (duration_nsec a -ℤ duration_nsec b)

-- `Time::toNSec`
abbrev pub time_nsec : Time → ℕ
time_nsec t = t.sec * second + t.nsec

-- `Time::normalize64`, with the casts to `uint32_t`
unfoldable pub normalize_time : ℕ → ℕ → Option Time
normalize_time s ns =
    if ltb u32_max (s + ns / second)
    then none
    else some (record { sec = s + ns / second; nsec = ns % second })

-- `Time::fromNSec`
unfoldable pub time_from_nsec : ℕ → Option Time
time_from_nsec n = normalize_time 0 n

-- `Time - Time`: the difference of two `uint64_t`, as an `int64_t`.
unfoldable pub sub_time : Time → Time → Option Duration
sub_time a b = duration_from_nsec (to_i64 ((time_nsec a + (2 ^ 64 - time_nsec b)) % 2 ^ 64))

-- `Time::normalizeUnsigned`, with the constructor that its result goes to
unfoldable pub normalize_unsigned : ℤ → ℤ → Option Time
normalize_unsigned s ns =
    let (sec_part, nsec_part) =
      borrow
        (sub_ℕ (pos_part s + pos_part (quot_ℤ ns second))
          (neg_part s + neg_part (quot_ℤ ns second)))
        (rem_ℤ ns second) in
    if ltb_ℤ sec_part (pos 0) || ltb u32_max (pos_part sec_part)
    then none
    else normalize_time (pos_part sec_part) (pos_part nsec_part)

-- `Time + Duration`: the fields are added as `uint64_t`, and the sums are `int64_t`.
unfoldable pub add_time : Time → Duration → Option Time
add_time t d =
    normalize_unsigned (to_i64 ((t.sec + to_u64 d.sec) % 2 ^ 64))
      (to_i64 ((t.nsec + to_u64 d.nsec) % 2 ^ 64))

module _ {D : Type 0} ⦃f : Double D⦄ where
  unfoldable pub to_sec : Duration → D
  to_sec d = f.of_ℤ d.sec ⊕ lit 1 9 ⊗ f.of_ℤ d.nsec

  unfoldable pub time_to_sec : Time → D
  time_to_sec t = f.of_ℤ (pos t.sec) ⊕ lit 1 9 ⊗ f.of_ℤ (pos t.nsec)

  -- `Time::fromSec`
  unfoldable pub time_from_sec : D → Option Time
  time_from_sec t =
      let sec64 = f.floor_int t in
      let sec = u32 (pos_part sec64) in
      let nsec = u32 (pos_part (f.llround ((t ⊖ f.of_ℤ (pos sec)) ⊗ f.of_ℤ (pos second)))) in
      if (t ≺ lit 0 0)
        || not (f.isfinite t)
        || (f.of_ℤ (pos (2 ^ 63 - 1)) ≼ t)
        || ltb u32_max (pos_part sec64)
      then none
      else some (record { sec = u32 (sec + nsec / second); nsec = nsec % second })
