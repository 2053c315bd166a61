-- ===== src/Number.antt =====
-- Python's numbers, `int` and `float` together, and the functions of `math` that the program calls.
-- The type and its operations are parameters of the development: no law of arithmetic is assumed,
-- and a theorem that needs facts about the order takes `IsOrdered` or `IsTransitive`, which IEEE
-- numbers satisfy (NaN among them, since the laws are about comparisons that came out true).
pub mod Fixed
use ros2_mcp_server.Base.{ℕ, ◌≡◌, Bool, true, false, if◌then◌else◌}

pub record Number (R : Type 0) : Type 0 where
  pub lt : R → R → Bool  -- a < b
  pub le : R → R → Bool  -- a <= b
  pub is_int : R → Bool  -- isinstance(a, int)
  pub to_float : R → R  -- float(a)
  pub ratio : ℕ → ℕ → R  -- the literal that denotes n / d
  pub plus : R → R → R
  pub minus : R → R → R
  pub times : R → R → R
  pub over : R → R → R
  pub neg : R → R
  pub cos : R → R
  pub sin : R → R
  pub hypot : R → R → R
  pub atan2 : R → R → R
  pub pi : R
  pub is_nan : R → Bool  -- math.isnan(a)
  pub is_inf : R → Bool  -- math.isinf(a)

pub record IsOrdered {R : Type 0} (n : Number R) : Type 0 where
  pub lt_irrefl : (a : R) → n.lt a a ≡ false
  pub lt_asymm : (a b : R) → n.lt a b ≡ true → n.lt b a ≡ false
  pub lt_trans : (a b c : R) → n.lt a b ≡ true → n.lt b c ≡ true → n.lt a c ≡ true
  pub le_not_lt : (a b : R) → n.le a b ≡ true → n.lt b a ≡ false

-- A chain of comparisons that came out true.
abbrev pub IsTransitive : {R : Type 0} → Number R → Type 0
IsTransitive {R} n = (a b c : R) → n.le a b ≡ true → n.le b c ≡ true → n.le a c ≡ true

-- What rounding to the nearest keeps of the order. NaN is no exception, since the premises are
-- comparisons that came out true (or, in `rise` and `fall`, one of them did).
pub record IsRounded {R : Type 0} (n : Number R) : Type 0 where
  pub zero_le_zero : n.le (n.ratio 0 1) (n.ratio 0 1) ≡ true
  pub zero_le_one : n.le (n.ratio 0 1) (n.ratio 1 1) ≡ true
  pub minus_one_below : n.le (n.ratio 0 1) (n.neg (n.ratio 1 1)) ≡ false
  pub lt_le : (a b : R) → n.lt a b ≡ true → n.le a b ≡ true
  pub lt_le_right : (a b : R) → n.lt a b ≡ true → n.le b b ≡ true
  pub le_trans : (a b c : R) → n.le a b ≡ true → n.le b c ≡ true → n.le a c ≡ true
  pub neg_le : (a b : R) → n.le a b ≡ true → n.le (n.neg b) (n.neg a) ≡ true
  pub neg_zero : n.le (n.neg (n.ratio 0 1)) (n.ratio 0 1) ≡ true
  pub times_one : (a : R) → n.le (n.ratio 0 1) a ≡ true → n.times (n.ratio 1 1) a ≡ a
  pub times_minus_one :
      (a : R) → n.le (n.ratio 0 1) a ≡ true → n.times (n.neg (n.ratio 1 1)) a ≡ n.neg a
  -- A step up of d > 0 from b that is shorter than the way to a ends between them.
  pub rise :
      (a b d : R)
      → n.le d (n.ratio 0 1) ≡ false
      → n.lt d (n.minus a b) ≡ true
      → (n.le b (n.plus b d) ≡ true) × (n.le (n.plus b d) a ≡ true)
  pub fall :
      (a b d : R)
      → n.le d (n.ratio 0 1) ≡ false
      → n.lt (n.minus a b) (n.neg d) ≡ true
      → (n.le (n.minus b d) b ≡ true) × (n.le a (n.minus b d) ≡ true)

module _ {R : Type 0} ⦃n : Number R⦄ where
  -- Python's `min(a, b)` and `max(a, b)`: the first argument unless the second is strictly better.
  abbrev pub min : R → R → R
  min a b = if n.lt b a then b else a

  abbrev pub max : R → R → R
  max a b = if n.lt a b then b else a

  abbrev pub nat : ℕ → R
  nat k = n.ratio k 1

  -- abs(a)
  abbrev pub abs : R → R
  abs a = if n.lt a (n.ratio 0 1) then n.neg a else a
