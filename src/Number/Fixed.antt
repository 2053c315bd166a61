-- ===== src/Number/Fixed.antt =====
-- A concrete instance of `Number`, for tests and witnesses: integers that count thousandths.
-- `cos` and `sin` are those of the heading 0, and `hypot` is exact along the axes only.
use ros2_mcp_server.Base.{
  ℕ, suc, ◌+◌, ◌-◌, ◌*◌, ◌/◌, ◌%◌, ◌≡◌, refl, ap, Bool, true, false, arith, ltb, leb, ◌==ℕ◌,
  if◌then◌else◌,
}
use ros2_mcp_server.Number.{Number, IsOrdered, IsRounded}

-- `negsuc n` is -(n + 1).
pub data ℤ : Type 0 where
  pos : ℕ → ℤ
  negsuc : ℕ → ℤ

abbrev pub pos_part : ℤ → ℕ
pos_part (pos k) = k
pos_part (negsuc k) = 0

abbrev pub neg_part : ℤ → ℕ
neg_part (pos k) = 0
neg_part (negsuc k) = suc k

abbrev pub sub_ℕ : ℕ → ℕ → ℤ
sub_ℕ a b = if leb b a then pos (a - b) else negsuc (b - a - 1)

abbrev lt_ℤ : ℤ → ℤ → Bool
lt_ℤ a b = ltb (pos_part a + neg_part b) (pos_part b + neg_part a)

abbrev le_ℤ : ℤ → ℤ → Bool
le_ℤ a b = leb (pos_part a + neg_part b) (pos_part b + neg_part a)

abbrev plus_ℤ : ℤ → ℤ → ℤ
plus_ℤ a b = sub_ℕ (pos_part a + pos_part b) (neg_part a + neg_part b)

abbrev neg_ℤ : ℤ → ℤ
neg_ℤ a = sub_ℕ (neg_part a) (pos_part a)

abbrev abs_ℕ : ℤ → ℕ
abs_ℕ a = pos_part a + neg_part a

abbrev same_sign : ℤ → ℤ → Bool
same_sign (pos a) (pos b) = true
same_sign (negsuc a) (negsuc b) = true
same_sign _ _ = false

abbrev signed : Bool → ℕ → ℤ
signed true a = pos a
signed false a = sub_ℕ 0 a

instance abbrev pub fixed : Number ℤ
fixed = record {
  lt = lt_ℤ;
  le = le_ℤ;
  is_int = λ a. abs_ℕ a % 1000 ==ℕ 0;
  to_float = λ a. a;
  ratio = λ a b. pos (a * 1000 / b);
  plus = plus_ℤ;
  minus = λ a b. plus_ℤ a (neg_ℤ b);
  times = λ a b. signed (same_sign a b) (abs_ℕ a * abs_ℕ b / 1000);
  over = λ a b. signed (same_sign a b) (abs_ℕ a * 1000 / abs_ℕ b);
  neg = neg_ℤ;
  cos = λ _. pos 1000;
  sin = λ _. pos 0;
  hypot = λ a b. pos (abs_ℕ a + abs_ℕ b);
  atan2 = λ _ _. pos 0;
  pi = pos 3142;
  is_nan = λ _. false;
  is_inf = λ _. false;
}

lt_asymm : (a b : ℤ) → lt_ℤ a b ≡ true → lt_ℤ b a ≡ false
lt_asymm a b h = ground arith

lt_trans : (a b c : ℤ) → lt_ℤ a b ≡ true → lt_ℤ b c ≡ true → lt_ℤ a c ≡ true
lt_trans a b c h k = ground arith

le_not_lt : (a b : ℤ) → le_ℤ a b ≡ true → lt_ℤ b a ≡ false
le_not_lt a b h = ground arith

pub fixed-IsOrdered : IsOrdered fixed
fixed-IsOrdered = record {
  lt_irrefl = λ a. ground arith;
  lt_asymm = lt_asymm;
  lt_trans = lt_trans;
  le_not_lt = le_not_lt;
}

times_one : (a : ℤ) → le_ℤ (pos 0) a ≡ true → fixed.times (pos 1000) a ≡ a
times_one (pos k) h = ap pos (omega arith)
times_one (negsuc k) h = absurd (ground arith)

times_minus_one : (a : ℤ) → le_ℤ (pos 0) a ≡ true → fixed.times (negsuc 999) a ≡ neg_ℤ a
times_minus_one (pos k) h = ap (sub_ℕ 0) (omega arith)
times_minus_one (negsuc k) h = absurd (ground arith)

rise :
    (a b d : ℤ)
    → le_ℤ d (pos 0) ≡ false
    → lt_ℤ d (fixed.minus a b) ≡ true
    → (le_ℤ b (plus_ℤ b d) ≡ true) × (le_ℤ (plus_ℤ b d) a ≡ true)
rise a b d h k = (ground arith, ground arith)

fall :
    (a b d : ℤ)
    → le_ℤ d (pos 0) ≡ false
    → lt_ℤ (fixed.minus a b) (neg_ℤ d) ≡ true
    → (le_ℤ (fixed.minus b d) b ≡ true) × (le_ℤ a (fixed.minus b d) ≡ true)
fall a b d h k = (ground arith, ground arith)

pub fixed-IsRounded : IsRounded fixed
fixed-IsRounded = record {
  zero_le_zero = refl;
  zero_le_one = refl;
  minus_one_below = refl;
  lt_le = λ a b h. ground arith;
  lt_le_right = λ a b h. ground arith;
  le_trans = λ a b c h k. ground arith;
  neg_le = λ a b h. ground arith;
  neg_zero = refl;
  times_one = times_one;
  times_minus_one = times_minus_one;
  rise = rise;
  fall = fall;
}
