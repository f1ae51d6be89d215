-- ===== src/Floating/Fixed.antt =====
-- A `double` that can be computed with: integers in units of 1e-9, with plain stand-ins for the
-- transcendental functions (a sine that is the identity, an Euclidean norm that is the sum of the
-- absolute values). The concrete runs of the theorems use it.
use xgc2_ugv_controller.Base.{
  ℕ, ◌+◌, ◌-◌, ◌*◌, ◌/◌, ◌^◌, ltb, leb, ◌&&◌, if◌then◌else◌, ℤ, pos, pos_part, neg_part, sub_ℕ,
  ltb_ℤ, leb_ℤ,
}
use xgc2_ugv_controller.Floating.{Double}

abbrev pub unit : ℕ
unit = 10 ^ 9

abbrev pub magnitude : ℤ → ℕ
magnitude a = pos_part a + neg_part a

-- The product and the quotient of two numbers, rounded towards zero, under the product of their signs.
abbrev signed : ℤ → ℤ → ℕ → ℤ
signed a b n =
    if ltb_ℤ a (pos 0)
    then (if ltb_ℤ b (pos 0) then pos n else sub_ℕ 0 n)
    else if ltb_ℤ b (pos 0)
    then sub_ℕ 0 n
    else pos n

abbrev add_fixed : ℤ → ℤ → ℤ
add_fixed a b = sub_ℕ (pos_part a + pos_part b) (neg_part a + neg_part b)

abbrev sub_fixed : ℤ → ℤ → ℤ
sub_fixed a b = sub_ℕ (pos_part a + neg_part b) (neg_part a + pos_part b)

instance abbrev pub fixed_double : Double ℤ
fixed_double = record {
  literal = λ m e. pos (if leb e 9 then m * 10 ^ (9 - e) else m / 10 ^ (e - 9));
  infinity = pos (10 ^ 30);
  add = add_fixed;
  sub = sub_fixed;
  mul = λ a b. signed a b (magnitude a * magnitude b / unit);
  div = λ a b. signed a b (magnitude a * unit / magnitude b);
  neg = λ a. sub_fixed (pos 0) a;
  lt = ltb_ℤ;
  le = leb_ℤ;
  eq = λ a b. leb_ℤ a b && leb_ℤ b a;
  isfinite = λ a. ltb (magnitude a) (10 ^ 30);
  abs = λ a. pos (magnitude a);
  hypot = λ a b. pos (magnitude a + magnitude b);
  sqrt = λ a. a;
  sin = λ a. a;
  cos = λ _. pos unit;
  atan2 = λ y _. y;
  copysign = λ a b. if ltb_ℤ b (pos 0) then sub_ℕ 0 (magnitude a) else pos (magnitude a);
  next_up = λ a. add_fixed a (pos 1);
  floor_int = λ a.
      if ltb_ℤ a (pos 0) then sub_ℕ 0 ((neg_part a + unit - 1) / unit) else pos (pos_part a / unit);
  ceil_int = λ a.
      if ltb_ℤ a (pos 0) then sub_ℕ 0 (neg_part a / unit) else pos ((pos_part a + unit - 1) / unit);
  llround = λ a.
      if ltb_ℤ a (pos 0)
      then sub_ℕ 0 ((neg_part a + unit / 2) / unit)
      else pos ((pos_part a + unit / 2) / unit);
  of_ℤ = λ a. sub_ℕ (pos_part a * unit) (neg_part a * unit);
  cross_track_text = λ _. "left the route tube";
}
