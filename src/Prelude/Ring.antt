-- ===== src/Prelude/Ring.antt =====
-- A slice that is written round and round: what its entries are, from the oldest to the newest.
use mathlib.Core.List.{append_assoc, append-nil}
use native.Mathlib.Numerals.{add-one}
use native.Mathlib.Nat.{mod-eq_of_lt, mod_self}
use log_generator.Prelude.{
  Bool-cases, List, [], ap, arith, drop, inl, inr, length, length-set, refl, set, suc, sym, take,
  zero, ℕ, ◌%◌, ◌++◌, ◌+◌, ◌<◌, ◌==◌, ◌∙◌, ◌∷◌, ◌≡◌, ◌≤◌,
}

module _ {ℓ} {A : Type ℓ} where
  -- The entries from the index on, then those before it.
  unfoldable pub oldest_first : List A → ℕ → List A
  oldest_first xs i = drop i xs ++ take i xs

  drop-set : (xs : List A) (i : ℕ) (v : A) → drop (suc i) (set xs i v) ≡ drop (suc i) xs
  drop-set [] i v = refl
  drop-set (x ∷ xs) zero v = refl
  drop-set (x ∷ xs) (suc i) v = drop-set xs i v

  take-set :
      (xs : List A) (i : ℕ) (v : A)
      → i < length xs
      → take (suc i) (set xs i v) ≡ take i xs ++ v ∷ []
  take-set [] i v h = elim h [ ]
  take-set (x ∷ xs) zero v h = refl
  take-set (x ∷ xs) (suc i) v h = ap (λ r. x ∷ r) (take-set xs i v (omega arith))

  drop-append :
      (xs ys : List A) (i : ℕ) → i < length xs → drop 1 (drop i xs ++ ys) ≡ drop (suc i) xs ++ ys
  drop-append [] ys i h = elim h [ ]
  drop-append (x ∷ xs) ys zero h = refl
  drop-append (x ∷ xs) ys (suc i) h = drop-append xs ys i (omega arith)

  take-all : (xs : List A) (n : ℕ) → length xs ≤ n → take n xs ≡ xs
  take-all [] zero h = refl
  take-all [] (suc n) h = refl
  take-all (x ∷ xs) zero h = absurd (omega arith)
  take-all (x ∷ xs) (suc n) h = ap (λ r. x ∷ r) (take-all xs n (omega arith))

  drop-all : (xs : List A) (n : ℕ) → length xs ≤ n → drop n xs ≡ []
  drop-all [] zero h = refl
  drop-all [] (suc n) h = refl
  drop-all (x ∷ xs) zero h = absurd (omega arith)
  drop-all (x ∷ xs) (suc n) h = drop-all xs n (omega arith)

  wrapped :
      (xs : List A) (i : ℕ) (v : A)
      → suc i ≡ length xs
      → set xs i v ≡ drop (suc i) xs ++ (take i xs ++ v ∷ [])
  wrapped xs i v h =
      sym (take-all (set xs i v) (suc i) (omega (arith, length-set xs i v)))
      ∙ take-set xs i v (omega arith)
      ∙ sym (rw (drop-all xs (suc i) (omega arith)) refl)

  next-index :
      (xs : List A) (i : ℕ) (v : A)
      → i < length xs
      → oldest_first (set xs i v) ((i + 1) % length xs) ≡ drop (suc i) xs ++ (take i xs ++ v ∷ [])
  unfolding oldest_first
  next-index xs i v h = elim (Bool-cases (suc i == length xs)) [
    | inl e ↦
        let last : suc i ≡ length xs = ground arith in
        let start : (i + 1) % length xs ≡ 0 = rw (← last) (rw add-one (mod_self (suc i))) in
        rw start (rw append-nil (wrapped xs i v last))
    | inr e ↦
        let inside : suc i < length xs = ground arith in
        let stay : (i + 1) % length xs ≡ suc i = rw add-one (mod-eq_of_lt inside) in
        rw (stay, drop-set xs i v, take-set xs i v h)
  ]

  -- A write at the index drops the oldest entry and adds the new one as the newest.
  pub oldest_first-set :
      (xs : List A) (i : ℕ) (v : A)
      → i < length xs
      → oldest_first (set xs i v) ((i + 1) % length xs) ≡ drop 1 (oldest_first xs i) ++ v ∷ []
  oldest_first-set xs i v h =
      next-index xs i v h
      ∙ sym (
          unfold oldest_first in
          rw (drop-append xs (take i xs) i h) (append_assoc (drop (suc i) xs) (take i xs) (v ∷ [])))
