-- ===== src/Float/Fixed.antt =====
-- Fixed-point numbers in millionths: an instance of the interface of float64, with which the
-- theorems over that interface run. It rounds towards 0 where float64 rounds to nearest.
use native.Mathlib.Nat.{
  zero-div, pow-suc, le-div_iff_mul-le, div-le_of_le-mul, mul-div_cancel, div-mul-le_self,
  mul-le-mul_right, mul-le-mul_left, le_of_mul-le-mul_right,
}
use log_generator.Float.{Float64, IsIeee}
use log_generator.Prelude.{
  ap, arith, false, if◌then◌else◌, refl, suc, zero, ℕ, ◌*◌, ◌+◌, ◌/◌, ◌<◌, ◌^◌, ◌∙◌, ◌≡◌, ◌≤◌,
}
use log_generator.Prelude.Int.{
  ltb_ℤ, neg_ℕ, neg_ℤ, negsuc, pos, pos_part, quot, ℤ, ◌*ℤ◌, ◌+ℤ◌, ◌-ℤ◌, ◌<ℤ◌, ◌≤ℤ◌,
}

abbrev m : ℕ
m = 1000000

abbrev pub millionths : Float64 ℤ
millionths = record {
  of_int = λ n. n *ℤ pos m;
  to_int = λ x. quot x (pos m);
  decimal = λ n k. quot (n *ℤ pos m) (pos (10 ^ k));
  add = λ x y. x +ℤ y;
  sub = λ x y. x -ℤ y;
  mul = λ x y. quot (x *ℤ y) (pos m);
  div = λ x y. quot (x *ℤ pos m) y;
  neg = neg_ℤ;
  abs = λ x. if ltb_ℤ x (pos 0) then neg_ℤ x else x;
  lt = ltb_ℤ;
}

pos-*ℤ : (a b : ℕ) → pos a *ℤ pos b ≡ pos (a * b)
unfolding ◌*ℤ◌
pos-*ℤ a b = ground arith

pos-quot : (a b : ℕ) → quot (pos a) (pos b) ≡ pos (a / b)
unfolding quot
pos-quot a b = refl

ten_pos : (k : ℕ) → 0 < 10 ^ k
ten_pos zero = omega arith
ten_pos (suc k) = simp pow-suc (omega (arith, ten_pos k))

scaled-le : (a b p q x : ℕ) → 0 < p → x * p ≤ a * m → a * q ≤ b * p → x * q ≤ b * m
scaled-le a b p q x pos_p h k =
    le_of_mul-le-mul_right (omega (arith, mul-le-mul_right q h, mul-le-mul_right m k)) pos_p

decimal-le : (a b k l : ℕ) → a * 10 ^ l ≤ b * 10 ^ k → a * m / 10 ^ k ≤ b * m / 10 ^ l
decimal-le a b k l h = (le-div_iff_mul-le (ten_pos l)).1 (
    scaled-le a b (10 ^ k) (10 ^ l) (a * m / 10 ^ k) (ten_pos k) (div-mul-le_self (a * m) (10 ^ k))
      h)

share-le : (n a b : ℕ) → a ≤ b → 0 < b → n * m * (a * m * m / (b * m)) / m / m ≤ n
share-le n a b h p =
    let x = a * m * m / (b * m) in
    let small : x ≤ m = div-le_of_le-mul (b * m) (omega arith) in
    omega (arith, mul-le-mul_left n small)

cap-le : (n k d x : ℕ) → x ≤ k * m / 10 ^ d → n * m * x / m / m ≤ n * k / 10 ^ d
cap-le n k d x h =
    let p = 10 ^ d in
    let below : x * p ≤ k * m = (le-div_iff_mul-le (ten_pos d)).0 h in
    let y = n * m * x / m / m in
    let whole : y * m ≤ n * x = omega arith in
    (le-div_iff_mul-le (ten_pos d)).1
      (omega (arith, mul-le-mul_right p whole, mul-le-mul_left n below))

exact-eq : (a b : ℕ) → 0 < b → a * b * m * m / (b * m) ≡ a * m
exact-eq a b p = ap (λ (t : ℕ). t / (b * m)) (omega arith) ∙ mul-div_cancel (a * m) (omega arith)

to_int-of_int : (n : ℤ) → pos 0 ≤ℤ n → quot (n *ℤ pos m) (pos m) ≡ n
to_int-of_int (pos n) h = rw (pos-*ℤ n m, pos-quot (n * m) m) (ap pos (omega arith))
to_int-of_int (negsuc n) h = absurd (omega arith)

decimal_mono :
    (a b k l : ℕ)
    → a * 10 ^ l ≤ b * 10 ^ k
    → ltb_ℤ (quot (pos b *ℤ pos m) (pos (10 ^ l))) (quot (pos a *ℤ pos m) (pos (10 ^ k))) ≡ false
decimal_mono a b k l h =
    rw (pos-*ℤ a m, pos-*ℤ b m, pos-quot, pos-quot) (ground (arith, decimal-le a b k l h))

scale_le :
    (n a b : ℤ)
    → pos 0 ≤ℤ n
    → pos 0 ≤ℤ a
    → a ≤ℤ b
    → pos 0 <ℤ b
    → quot (quot ((n *ℤ pos m) *ℤ quot ((a *ℤ pos m) *ℤ pos m) (b *ℤ pos m)) (pos m)) (pos m) ≤ℤ n
scale_le (pos n) (pos a) (pos b) h i j k =
    simp (pos-*ℤ, pos-quot) (omega (arith, share-le n a b (omega arith) (omega arith)))
scale_le (pos n) (pos a) (negsuc b) h i j k = absurd (omega arith)
scale_le (pos n) (negsuc a) b h i j k = absurd (omega arith)
scale_le (negsuc n) a b h i j k = absurd (omega arith)

div_exact :
    (a b : ℕ) → 0 < b → quot ((pos (a * b) *ℤ pos m) *ℤ pos m) (pos b *ℤ pos m) ≡ pos a *ℤ pos m
div_exact a b p = simp (pos-*ℤ, pos-quot) (ap pos (exact-eq a b p))

negative : (a x : ℕ) → pos_part (pos a *ℤ negsuc x) ≡ 0
unfolding ◌*ℤ◌
negative a x = ground arith

quot-nonpos : (a : ℤ) (b : ℕ) → pos_part a ≡ 0 → pos_part (quot a (pos b)) ≡ 0
unfolding quot
quot-nonpos (pos a) b h = rw h (zero-div b)
quot-nonpos (negsuc a) b h = neg_ℕ-nonpos (suc a / b)
  where
    neg_ℕ-nonpos : (n : ℕ) → pos_part (neg_ℕ n) ≡ 0
    neg_ℕ-nonpos zero = refl
    neg_ℕ-nonpos (suc n) = refl

scale_cap :
    (n k d : ℕ) (x : ℤ)
    → ltb_ℤ (quot (pos k *ℤ pos m) (pos (10 ^ d))) x ≡ false
    → quot (quot ((pos n *ℤ pos m) *ℤ x) (pos m)) (pos m) ≤ℤ pos (n * k / 10 ^ d + 1)
scale_cap n k d (pos x) h =
    simp (pos-*ℤ, pos-quot) (omega (arith, cap-le n k d x (below (simp (pos-*ℤ, pos-quot) at h))))
  where
    below : ltb_ℤ (pos (k * m / 10 ^ d)) (pos x) ≡ false → x ≤ k * m / 10 ^ d
    below e = ground arith
scale_cap n k d (negsuc x) h = omega (
  arith,
  quot-nonpos (quot ((pos n *ℤ pos m) *ℤ negsuc x) (pos m)) m
      (quot-nonpos ((pos n *ℤ pos m) *ℤ negsuc x) m (rw (pos-*ℤ n m) (negative (n * m) x))),
)

pub millionths-IsIeee : IsIeee millionths
millionths-IsIeee = record {
  lt_irrefl = λ x. ground arith;
  decimal_mono = decimal_mono;
  to_int-of_int = λ n h k. to_int-of_int n h;
  scale_le = λ n a b h k i j l o. scale_le n a b h i j l;
  div_exact = λ a b p h. div_exact a b p;
  scale_cap = λ n k d x h i. scale_cap n k d x;
}
