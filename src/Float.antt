-- ===== src/Float.antt =====
-- Go's float64, as the program uses it: the operations are an interface, with the facts about
-- IEEE 754 rounding that the theorems rely on in a second record. Float/Fixed.antt meets both.
pub mod Fixed
pub mod Clamp
use log_generator.Prelude.{Bool, false, ℕ, ◌*◌, ◌+◌, ◌/◌, ◌<◌, ◌^◌, ◌≡◌, ◌≤◌}
use log_generator.Prelude.Int.{pos, ℤ, ◌<ℤ◌, ◌≤ℤ◌}

pub record Float64 (F : Type 0) : Type 0 where
  -- float64(n) and int64(x)
  pub of_int : ℤ → F
  pub to_int : F → ℤ
  -- the constant n / 10 ^ k
  pub decimal : ℤ → ℕ → F
  pub add : F → F → F
  pub sub : F → F → F
  pub mul : F → F → F
  pub div : F → F → F
  pub neg : F → F
  pub abs : F → F
  -- x < y
  pub lt : F → F → Bool

module _ {F : Type 0} (fl : Float64 F) where
  abbrev pub float_zero : F
  float_zero = fl.of_int (pos 0)

  abbrev pub float_hundred : F
  float_hundred = fl.of_int (pos 100)

-- 2 ^ 53: the integers up to it are float64 values.
abbrev pub exact_limit : ℤ
exact_limit = pos 9007199254740992

-- Rounding is monotone, integers up to 2 ^ 53 are exact, and conversion to an integer truncates.
pub record IsIeee {F : Type 0} (fl : Float64 F) : Type 0 where
  pub lt_irrefl : (x : F) → fl.lt x x ≡ false
  -- a / 10 ^ k ≤ b / 10 ^ l
  pub decimal_mono :
      (a b k l : ℕ)
      → a * 10 ^ l ≤ b * 10 ^ k
      → fl.lt (fl.decimal (pos b) l) (fl.decimal (pos a) k) ≡ false
  pub to_int-of_int : (n : ℤ) → pos 0 ≤ℤ n → n ≤ℤ exact_limit → fl.to_int (fl.of_int n) ≡ n
  -- a share r = a / b of at most 1 scales n to at most n
  pub scale_le :
      (n a b : ℤ)
      → pos 0 ≤ℤ n
      → n ≤ℤ exact_limit
      → pos 0 ≤ℤ a
      → a ≤ℤ b
      → pos 0 <ℤ b
      → b ≤ℤ exact_limit
      → fl.to_int (fl.mul (fl.of_int n) (fl.div (fl.of_int a) (fl.of_int b))) ≤ℤ n
  -- an exact quotient is exact
  pub div_exact :
      (a b : ℕ)
      → 0 < b
      → pos (a * b) ≤ℤ exact_limit
      → fl.div (fl.of_int (pos (a * b))) (fl.of_int (pos b)) ≡ fl.of_int (pos a)
  -- scaling n by at most k / 10 ^ d gives at most that share of n, up to 1
  pub scale_cap :
      (n k d : ℕ) (x : F)
      → n ≤ 1_000_000_000
      → k ≤ 10_000
      → fl.lt (fl.decimal (pos k) d) x ≡ false
      → fl.to_int (fl.mul (fl.of_int (pos n)) x) ≤ℤ pos (n * k / 10 ^ d + 1)
