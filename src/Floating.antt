-- ===== src/Floating.antt =====
-- C++ `double`: an abstract type with the operations of <cmath> that the Reset code calls. The
-- comparisons are Booleans and no law is assumed of them.
pub mod Fixed
use xgc2_ugv_controller.Base.{ℕ, Bool, String, ℤ, if◌then◌else◌}

pub record Double (D : Type 0) : Type 0 where
  -- The literal m / 10 ^ e, such as `literal 45 2` for 0.45.
  pub literal : ℕ → ℕ → D
  pub infinity : D
  pub add : D → D → D
  pub sub : D → D → D
  pub mul : D → D → D
  pub div : D → D → D
  pub neg : D → D
  pub lt : D → D → Bool
  pub le : D → D → Bool
  pub eq : D → D → Bool
  pub isfinite : D → Bool
  pub abs : D → D
  pub hypot : D → D → D
  pub sqrt : D → D
  pub sin : D → D
  pub cos : D → D
  pub atan2 : D → D → D
  pub copysign : D → D → D
  -- `std::nextafter(x, infinity)`
  pub next_up : D → D
  -- `static_cast<int64_t>(std::floor(x))`
  pub floor_int : D → ℤ
  -- `static_cast<int>(std::ceil(x))` and `static_cast<int64_t>(std::llround(x))`
  pub ceil_int : D → ℤ
  pub llround : D → ℤ
  -- `static_cast<double>` of an integer
  pub of_ℤ : ℤ → D
  -- The text that `snprintf` writes for a cross-track error into the buffer of 96 bytes:
  -- "left the route tube: cross-track %.2f m".
  pub cross_track_text : D → String

module _ {D : Type 0} ⦃f : Double D⦄ where
  infixl 65 ◌⊕◌ ◌⊖◌
  infixl 70 ◌⊗◌ ◌⊘◌
  infix 50 ◌≺◌ ◌≼◌ ◌≐◌
  abbrev pub lit : ℕ → ℕ → D
  lit = f.literal

  abbrev pub ◌⊕◌ : D → D → D
  a ⊕ b = f.add a b

  abbrev pub ◌⊖◌ : D → D → D
  a ⊖ b = f.sub a b

  abbrev pub ◌⊗◌ : D → D → D
  a ⊗ b = f.mul a b

  abbrev pub ◌⊘◌ : D → D → D
  a ⊘ b = f.div a b

  -- The tests `a < b`, `a <= b` and `a == b`.
  abbrev pub ◌≺◌ : D → D → Bool
  a ≺ b = f.lt a b

  abbrev pub ◌≼◌ : D → D → Bool
  a ≼ b = f.le a b

  abbrev pub ◌≐◌ : D → D → Bool
  a ≐ b = f.eq a b

  -- `std::min`, `std::max` and `std::clamp`, by the comparisons that the standard prescribes.
  abbrev pub dmin : D → D → D
  dmin a b = if b ≺ a then b else a

  abbrev pub dmax : D → D → D
  dmax a b = if a ≺ b then b else a

  abbrev pub clamp : D → D → D → D
  clamp v lo hi = if v ≺ lo then lo else if hi ≺ v then hi else v
