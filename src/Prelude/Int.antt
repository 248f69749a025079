-- ===== src/Prelude/Int.antt =====
-- Go's signed integers: the integers of the library over the native numbers, the truncating
-- division of `/`, and the wrap-around of 64 bits.
use log_generator.Prelude.{
  Bool, List, [], ap, arith, if◌then◌else◌, leb, ltb, suc, zero, ℕ, ◌%◌, ◌*◌, ◌+◌, ◌-◌, ◌/◌, ◌<◌,
  ◌==◌, ◌∙◌, ◌∷◌, ◌≡◌, ◌≤◌,
}

-- `negsuc n` is -(n + 1).
pub data ℤ : Type 0 where
  pos : ℕ → ℤ
  negsuc : ℕ → ℤ

abbrev pub pos_part : ℤ → ℕ
pos_part (pos n) = n
pos_part (negsuc n) = 0

abbrev pub neg_part : ℤ → ℕ
neg_part (pos n) = 0
neg_part (negsuc n) = suc n

-- a - b, as an integer.
abbrev pub sub_ℕ : ℕ → ℕ → ℤ
sub_ℕ a b = if leb b a then pos (a - b) else negsuc (b - a - 1)

infixl 65 ◌+ℤ◌ ◌-ℤ◌
infixl 70 ◌*ℤ◌
infix 50 ◌≤ℤ◌ ◌<ℤ◌
unfoldable pub ◌+ℤ◌ : ℤ → ℤ → ℤ
a +ℤ b = sub_ℕ (pos_part a + pos_part b) (neg_part a + neg_part b)

unfoldable pub ◌-ℤ◌ : ℤ → ℤ → ℤ
a -ℤ b = sub_ℕ (pos_part a + neg_part b) (neg_part a + pos_part b)

unfoldable pub ◌*ℤ◌ : ℤ → ℤ → ℤ
a *ℤ b =
    sub_ℕ (pos_part a * pos_part b + neg_part a * neg_part b)
      (pos_part a * neg_part b + neg_part a * pos_part b)

abbrev pub ◌≤ℤ◌ : ℤ → ℤ → Type 0
a ≤ℤ b = pos_part a + neg_part b ≤ pos_part b + neg_part a

abbrev pub ◌<ℤ◌ : ℤ → ℤ → Type 0
a <ℤ b = pos_part a + neg_part b < pos_part b + neg_part a

abbrev pub ltb_ℤ : ℤ → ℤ → Bool
ltb_ℤ a b = ltb (pos_part a + neg_part b) (pos_part b + neg_part a)

abbrev pub leb_ℤ : ℤ → ℤ → Bool
leb_ℤ a b = leb (pos_part a + neg_part b) (pos_part b + neg_part a)

abbrev pub eqb_ℤ : ℤ → ℤ → Bool
eqb_ℤ a b = pos_part a + neg_part b == pos_part b + neg_part a

-- -n
abbrev pub neg_ℕ : ℕ → ℤ
neg_ℕ zero = pos 0
neg_ℕ (suc n) = negsuc n

abbrev pub neg_ℤ : ℤ → ℤ
neg_ℤ (pos n) = neg_ℕ n
neg_ℤ (negsuc n) = pos (suc n)

-- Go's `/`, which rounds towards 0. Where the divisor may be 0 the caller panics first.
unfoldable pub quot : ℤ → ℤ → ℤ
quot (pos a) (pos b) = pos (a / b)
quot (pos a) (negsuc b) = neg_ℕ (a / suc b)
quot (negsuc a) (pos b) = neg_ℕ (suc a / b)
quot (negsuc a) (negsuc b) = pos (suc a / suc b)

-- The value of a 64-bit two's complement integer.
unfoldable pub wrap64 : ℤ → ℤ
wrap64 (pos n) =
    let m = n % 18446744073709551616 in
    if ltb m 9223372036854775808 then pos m else negsuc (18446744073709551615 - m)
wrap64 (negsuc n) =
    let m = n % 18446744073709551616 in
    if ltb m 9223372036854775808 then negsuc m else pos (18446744073709551615 - m)

abbrev pub InInt64 : ℤ → Type 0
InInt64 a = (pos_part a < 9223372036854775808) × (neg_part a ≤ 9223372036854775808)

-- A value in range is not changed.
pub wrap64_id : (a : ℤ) → InInt64 a → wrap64 a ≡ a
unfolding wrap64
wrap64_id (pos n) h = ground arith
wrap64_id (negsuc n) h = ground arith

pub wrap64-InInt64 : (a : ℤ) → InInt64 (wrap64 a)
unfolding wrap64
wrap64-InInt64 (pos n) = ground arith
wrap64-InInt64 (negsuc n) = ground arith

-- One lemma for each operation lets `omega` work with the operations shut, at any depth.
pub +ℤ_parts :
    (a b : ℤ)
    → pos_part (a +ℤ b) + neg_part a + neg_part b ≡ neg_part (a +ℤ b) + pos_part a + pos_part b
unfolding ◌+ℤ◌
+ℤ_parts a b = ground arith

pub -ℤ_parts :
    (a b : ℤ)
    → pos_part (a -ℤ b) + neg_part a + pos_part b ≡ neg_part (a -ℤ b) + pos_part a + neg_part b
unfolding ◌-ℤ◌
-ℤ_parts a b = ground arith

pub eq_of_parts : (a b : ℤ) → pos_part a + neg_part b ≡ pos_part b + neg_part a → a ≡ b
eq_of_parts a b h = ground arith

pub ruleset int_laws = (arith, +ℤ_parts, -ℤ_parts, eq_of_parts)

pub quot_nonneg : (a b : ℤ) → pos 0 ≤ℤ a → pos 0 ≤ℤ b → pos 0 ≤ℤ quot a b
unfolding quot
quot_nonneg (pos a) (pos b) h k = omega arith
quot_nonneg (pos a) (negsuc b) h k = absurd (omega arith)
quot_nonneg (negsuc a) b h k = absurd (omega arith)

-- Go's `%` for a divisor other than 0.
unfoldable pub rem : ℤ → ℤ → ℤ
rem a b = a -ℤ quot a b *ℤ b

-- A difference of times is cut off at the ends of the 64-bit range.
unfoldable pub saturate64 : ℤ → ℤ
saturate64 a =
    if ltb_ℤ (pos 9223372036854775807) a
    then pos 9223372036854775807
    else if ltb_ℤ a (negsuc 9223372036854775807)
    then negsuc 9223372036854775807
    else a

-- 64-bit addition, subtraction and multiplication
unfoldable pub add64 : ℤ → ℤ → ℤ
add64 a b = wrap64 (a +ℤ b)

unfoldable pub sub64 : ℤ → ℤ → ℤ
sub64 a b = wrap64 (a -ℤ b)

unfoldable pub mul64 : ℤ → ℤ → ℤ
mul64 a b = wrap64 (a *ℤ b)

-- The number of rounds of a loop `for i := 0; i < n; i++`.
abbrev pub rounds : ℤ → ℕ
rounds = pos_part

pub add64_pos : (a b : ℕ) → a + b < 9223372036854775808 → add64 (pos a) (pos b) ≡ pos (a + b)
unfolding add64
add64_pos a b h =
    ap wrap64 (omega (arith, eq_of_parts (pos a +ℤ pos b) (pos (a + b)), +ℤ_parts (pos a) (pos b)))
    ∙ wrap64_id (pos (a + b)) (h, omega arith)

pub add64_counted :
    (a : ℕ) (b : ℤ)
    → pos 0 ≤ℤ b
    → a + pos_part b < 9223372036854775808
    → add64 (pos a) b ≡ pos (a + pos_part b)
add64_counted a (pos b) h k = add64_pos a b k
add64_counted a (negsuc b) h k = absurd (omega arith)

-- The sum of what is not negative.
abbrev pub total : {A : Type 0} → (A → ℤ) → List A → ℕ
total f [] = 0
total f (x ∷ xs) = pos_part (f x) + total f xs
