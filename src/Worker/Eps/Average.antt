-- ===== src/Worker/Eps/Average.antt =====
-- What GetAverageEPS in internal/worker/udp_worker.go computes, and its bounds.
use native.Mathlib.Nat.{add_comm, le-div_iff_mul-le, div-le_of_le-mul, mul_comm}
use log_generator.Prelude.{
  All, List, [], arith, if◌then◌else◌, length, lt→ltb, suc, zero, ℕ, ◌*◌, ◌+◌, ◌/◌, ◌<◌, ◌∙◌, ◌∷◌,
  ◌≡◌, ◌≤◌,
}
use log_generator.Prelude.Int.{add64_pos, ltb_ℤ, negsuc, pos, pos_part, quot, ℤ, ◌<ℤ◌, ◌≤ℤ◌}
use log_generator.Worker.Eps.{average_loop, get_average_eps}

-- The number of positive rates, and their sum.
unfoldable pub positives : List ℤ → ℕ
positives [] = 0
positives (e ∷ es) = let rest = positives es in if ltb_ℤ (pos 0) e then suc rest else rest

unfoldable pub positive_sum : List ℤ → ℕ
positive_sum [] = 0
positive_sum (e ∷ es) =
    let rest = positive_sum es in if ltb_ℤ (pos 0) e then pos_part e + rest else rest

-- A positive rate lies between `lo` and `hi`.
abbrev pub InBand : ℕ → ℕ → ℤ → Type 0
InBand lo hi e = pos 0 <ℤ e → (pos lo ≤ℤ e) × (e ≤ℤ pos hi)

average_loop-eq :
    (xs : List ℤ) (s c : ℕ)
    → s + positive_sum xs < 9223372036854775808
    → c + length xs < 9223372036854775808
    → average_loop xs (pos s) (pos c) ≡ (pos (s + positive_sum xs), pos (c + positives xs))
unfolding average_loop positives positive_sum
average_loop-eq [] s c h k = ground arith
average_loop-eq (pos e ∷ xs) s c h k = ground (
  arith,
  add64_pos s e,
  add64_pos c 1,
  average_loop-eq xs (s + e) (c + 1),
  average_loop-eq xs s c,
)
average_loop-eq (negsuc e ∷ xs) s c h k = ground (arith, average_loop-eq xs s c)

grow_above : (lo c s e : ℕ) → lo ≤ e → lo * c ≤ s → lo * suc c ≤ e + s
grow_above lo c s e a h = omega arith

grow_below : (hi c s e : ℕ) → e ≤ hi → s ≤ hi * c → e + s ≤ hi * suc c
grow_below hi c s e a h = omega arith

positive_sum_bounds :
    (lo hi : ℕ) (xs : List ℤ)
    → All (InBand lo hi) xs
    → (lo * positives xs ≤ positive_sum xs) × (positive_sum xs ≤ hi * positives xs)
unfolding positives positive_sum
positive_sum_bounds lo hi [] b = (omega arith, omega arith)
positive_sum_bounds lo hi (pos zero ∷ xs) b = positive_sum_bounds lo hi xs b.1
positive_sum_bounds lo hi (pos (suc e) ∷ xs) b =
    let (above, below) = positive_sum_bounds lo hi xs b.1 in
    let (low, high) = b.0 (omega arith) in
    rw (lt→ltb 0 (suc e + 0) (omega arith)) (
      grow_above lo (positives xs) (positive_sum xs) (suc e) (omega arith) above,
      grow_below hi (positives xs) (positive_sum xs) (suc e) (omega arith) below,
    )
positive_sum_bounds lo hi (negsuc e ∷ xs) b = ground (arith, positive_sum_bounds lo hi xs b.1)

positives-le : (xs : List ℤ) → positives xs ≤ length xs
unfolding positives
positives-le [] = omega arith
positives-le (e ∷ xs) = ground (arith, positives-le xs)

quotient_bounds : (lo hi s c : ℕ) → 0 < c → lo * c ≤ s → s ≤ hi * c → (lo ≤ s / c) × (s / c ≤ hi)
quotient_bounds lo hi s c p a b =
    ((le-div_iff_mul-le p).1 a, div-le_of_le-mul c (rw (mul_comm c hi) b))

sum_fits :
    (hi s c n : ℕ)
    → s ≤ hi * c
    → c ≤ n
    → n ≤ 1000
    → hi ≤ 1_000_000_000_000
    → s < 9223372036854775808
sum_fits hi s c n a b d e = grind arith

average_loop-start :
    (xs : List ℤ)
    → positive_sum xs < 9223372036854775808
    → length xs ≤ 1000
    → average_loop xs (pos 0) (pos 0) ≡ (pos (positive_sum xs), pos (positives xs))
average_loop-start xs h k =
    average_loop-eq xs 0 0 (omega arith) (omega arith)
    ∙ ground (arith, add_comm 0 (positive_sum xs), add_comm 0 (positives xs))

-- Up to 1000 rates of at most 10^12: their average is 0 if none is positive; otherwise it is at
-- least the least and at most the greatest of the positive ones.
pub get_average_eps_bounds :
    (lo hi : ℕ) (xs : List ℤ)
    → hi ≤ 1_000_000_000_000
    → length xs ≤ 1000
    → All (InBand lo hi) xs
    → (positives xs ≡ 0 → get_average_eps xs ≡ pos 0)
      × (0 < positives xs → (pos lo ≤ℤ get_average_eps xs) × (get_average_eps xs ≤ℤ pos hi))
unfolding get_average_eps quot
get_average_eps_bounds lo hi xs fits short b =
    let (above, below) = positive_sum_bounds lo hi xs b in
    let c = positives xs in
    let s = positive_sum xs in
    let e =
      average_loop-start xs (sum_fits hi s c (length xs) below (positives-le xs) short fits)
        short in
    rw e (ground (arith, quotient_bounds lo hi s c))
