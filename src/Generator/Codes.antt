-- ===== src/Generator/Codes.antt =====
-- The bytes of the texts of internal/generator/syslog_generator.go, which are ASCII, and how a
-- receiver cuts them.
use Prim.Native.Char.{code}
use Prim.Native.String.{◌++◌ as append_text}
use text.Mathlib.TextLemmas.{cons-append, nil-append}
use log_generator.Prelude.{
  Bool, List, Option, String, [], ap, arith, false, get_or, if◌then◌else◌, none, not, refl, some,
  suc, true, zero, ℕ, ◌&&◌, ◌*◌, ◌++◌, ◌+◌, ◌-◌, ◌==◌, ◌∷◌, ◌≡◌,
}

abbrev pub codes : String → List ℕ
codes String.[] = []
codes (String.◌∷◌ c s) = code c ∷ codes s

pub codes-append : (s t : String) → codes (append_text s t) ≡ codes s ++ codes t
codes-append String.[] t = rw (nil-append t) refl
codes-append (String.◌∷◌ c s) t = rw (cons-append c s t) (ap (λ l. code c ∷ l) (codes-append s t))

-- Whether a byte is not among the bytes.
abbrev pub lacks : ℕ → List ℕ → Bool
lacks c [] = true
lacks c (x ∷ xs) = not (x == c) && lacks c xs

unfoldable pub with_first : ℕ → Option (List ℕ × List ℕ) → Option (List ℕ × List ℕ)
with_first x none = none
with_first x (some (before, after)) = some (x ∷ before, after)

pub both : (a b : Bool) → a && b ≡ true → (a ≡ true) × (b ≡ true)
both true b h = (refl, h)
both false b h = cc

-- The bytes before the first `c`, and those after it.
unfoldable pub cut : ℕ → List ℕ → Option (List ℕ × List ℕ)
cut c [] = none
cut c (x ∷ xs) = let rest = with_first x (cut c xs) in if x == c then some ([], xs) else rest

pub cut-append : (c : ℕ) (xs ys : List ℕ) → lacks c xs ≡ true → cut c (xs ++ c ∷ ys) ≡ some (xs, ys)
unfolding cut with_first
cut-append c [] ys h = ground arith
cut-append c (x ∷ xs) ys h =
    let (ne, rest) = both (not (x == c)) (lacks c xs) h in
    let other : (x == c) ≡ false = ground arith in rw (cut, other, cut-append c xs ys rest) refl

-- A decimal number
unfoldable pub number : ℕ → List ℕ → ℕ
number n [] = n
number n (x ∷ xs) = number (10 * n + (x - b'0')) xs

pub number-append : (n : ℕ) (xs ys : List ℕ) → number n (xs ++ ys) ≡ number (number n xs) ys
unfolding number
number-append n [] ys = refl
number-append n (x ∷ xs) ys = number-append (10 * n + (x - b'0')) xs ys

abbrev pub all_lack : ℕ → List String → Bool
all_lack c [] = true
all_lack c (s ∷ ss) = lacks c (codes s) && all_lack c ss

pub lacks-get_or :
    (c : ℕ) (table : List String) (i : ℕ)
    → all_lack c table ≡ true
    → lacks c (codes (get_or table i "")) ≡ true
lacks-get_or c [] i h = refl
lacks-get_or c (s ∷ ss) zero h = (both (lacks c (codes s)) (all_lack c ss) h).0
lacks-get_or c (s ∷ ss) (suc i) h =
    lacks-get_or c ss i (both (lacks c (codes s)) (all_lack c ss) h).1
