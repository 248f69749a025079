-- ===== src/Generator/Parse/Tables.antt =====
-- The tables of internal/generator/syslog_generator.go as a receiver reads them.
use native.Mathlib.Nat.{pow-suc}
use log_generator.Generator.{digits, itoa, priorities}
use log_generator.Generator.Codes.{
  all_lack, both, codes, codes-append, cut, lacks, lacks-get_or, number, number-append, with_first,
}
use log_generator.Generator.Parse.{priority_value}
use log_generator.Prelude.{
  List, String, [], ap, arith, drop, get_or, if_ind, if◌then◌else◌, length, ltb, not, refl, some,
  suc, take, true, zero, ℕ, ◌%◌, ◌++◌, ◌+◌, ◌-◌, ◌/◌, ◌<◌, ◌==◌, ◌^◌, ◌∙◌, ◌∷◌, ◌≡◌,
}

-- The priority up to its closing bracket.
abbrev pub opening : String → List ℕ
opening s = take (length (codes s) - 1) (codes s)

-- The texts are the priorities from index `n` on.
abbrev pub Rows : ℕ → List String → Type 0
Rows n [] = Unit {0}
Rows n (s ∷ ss) =
    (cut b'>' (codes s) ≡ some (opening s, []))
    × (number 0 (drop 1 (opening s)) ≡ priority_value n)
    × Rows (suc n) ss

pub priorities-Rows : Rows 0 priorities
unfolding cut with_first number priority_value
priorities-Rows = (
  refl,
  refl,
  (
    refl,
    refl,
    (
      refl,
      refl,
      (
        refl,
        refl,
        (
          refl,
          refl,
          (
            refl,
            refl,
            (
              refl,
              refl,
              (
                refl,
                refl,
                (
                  refl,
                  refl,
                  (
                    refl,
                    refl,
                    (
                      refl,
                      refl,
                      (
                        refl,
                        refl,
                        (
                          refl,
                          refl,
                          (
                            refl,
                            refl,
                            (
                              refl,
                              refl,
                              (
                                refl,
                                refl,
                                (
                                  refl,
                                  refl,
                                  (
                                    refl,
                                    refl,
                                    (
                                      refl,
                                      refl,
                                      (
                                        refl,
                                        refl,
                                        (refl, refl, (refl, refl, (refl, refl, (refl, refl, tt)))),
                                      ),
                                    ),
                                  ),
                                ),
                              ),
                            ),
                          ),
                        ),
                      ),
                    ),
                  ),
                ),
              ),
            ),
          ),
        ),
      ),
    ),
  ),
)

pub Rows-get_or :
    (n i : ℕ) (table : List String)
    → Rows n table
    → i < length table
    → let s = get_or table i "" in
      (cut b'>' (codes s) ≡ some (opening s, []))
      × (number 0 (drop 1 (opening s)) ≡ priority_value (n + i))
Rows-get_or n i [] h k = elim k [ ]
Rows-get_or n zero (s ∷ ss) h k = (h.0, h.1 ∙ ap priority_value (omega arith))
Rows-get_or n (suc i) (s ∷ ss) h k =
    let (a, b) = Rows-get_or (suc n) i ss h.2 (omega arith) in
    (a, b ∙ ap priority_value (omega arith))

pub digits-Rows : (d : ℕ) → d < 10 → codes (get_or digits d "") ≡ (48 + d) ∷ []
digits-Rows zero h = refl
digits-Rows (suc zero) h = refl
digits-Rows (suc (suc zero)) h = refl
digits-Rows (suc (suc (suc zero))) h = refl
digits-Rows (suc (suc (suc (suc zero)))) h = refl
digits-Rows (suc (suc (suc (suc (suc zero))))) h = refl
digits-Rows (suc (suc (suc (suc (suc (suc zero)))))) h = refl
digits-Rows (suc (suc (suc (suc (suc (suc (suc zero))))))) h = refl
digits-Rows (suc (suc (suc (suc (suc (suc (suc (suc zero)))))))) h = refl
digits-Rows (suc (suc (suc (suc (suc (suc (suc (suc (suc zero))))))))) h = refl
digits-Rows (suc (suc (suc (suc (suc (suc (suc (suc (suc (suc d)))))))))) h = absurd (omega arith)

pub lacks-append :
    (c : ℕ) (xs ys : List ℕ) → lacks c xs ≡ true → lacks c ys ≡ true → lacks c (xs ++ ys) ≡ true
lacks-append c [] ys h k = k
lacks-append c (x ∷ xs) ys h k =
    let (a, b) = both (not (x == c)) (lacks c xs) h in rw (a, lacks-append c xs ys b k) refl

pub number-itoa : (fuel n : ℕ) → n < 10 ^ fuel → number 0 (codes (itoa fuel n)) ≡ n
unfolding itoa
number-itoa zero n h = unfold number in omega arith
number-itoa (suc fuel) n h =
    let digit = get_or digits (n % 10) "" in
    let front : String = if ltb n 10 then "" else itoa fuel (n / 10) in
    let few : n / 10 < 10 ^ fuel = omega (arith, pow-suc 10 fuel) in
    let e : number 0 (codes front) ≡ n / 10 =
      if_ind (λ t. number 0 (codes t) ≡ n / 10) (ltb n 10) (λ below. unfold number in ground arith)
        (λ _. number-itoa fuel (n / 10) few) in
    rw
      (
        codes-append front digit,
        number-append 0 (codes front) (codes digit),
        e,
        digits-Rows (n % 10) (omega arith),
      )
      (unfold number in omega arith)

pub lacks-itoa : (c fuel n : ℕ) → all_lack c digits ≡ true → lacks c (codes (itoa fuel n)) ≡ true
unfolding itoa
lacks-itoa c zero n h = refl
lacks-itoa c (suc fuel) n h =
    let digit = get_or digits (n % 10) "" in
    let front : String = if ltb n 10 then "" else itoa fuel (n / 10) in
    let e : lacks c (codes front) ≡ true =
      if_ind (λ t. lacks c (codes t) ≡ true) (ltb n 10) (λ _. refl)
        (λ _. lacks-itoa c fuel (n / 10) h) in
    rw (codes-append front digit)
      (lacks-append c (codes front) (codes digit) e (lacks-get_or c digits (n % 10) h))
