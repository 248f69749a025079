-- ===== src/Generator/Bounds.antt =====
-- The length of the logs of internal/generator/syslog_generator.go, and their two makers.
use Prim.Native.String.{len, ◌++◌ as append_text}
use text.Mathlib.TextLemmas.{append_assoc}
use text.Mathlib.TextPositions.{len-append}
use log_generator.Generator.{
  Draws, digits, generate_system_log, generate_system_log_unsafe, hostnames, itoa, messages, pid_at,
  pid_count, priorities, services,
}
use log_generator.Prelude.{
  Bool, List, String, [], ap, arith, false, get_or, if◌then◌else◌, length, ltb, refl, suc, sym,
  true, zero, ℕ, ◌%◌, ◌+◌, ◌/◌, ◌<◌, ◌∷◌, ◌≡◌, ◌≤◌,
}

-- The texts of a table have from `low` to `high` bytes.
abbrev pub Lengths : ℕ → ℕ → List String → Type 0
Lengths low high [] = Unit {0}
Lengths low high (s ∷ ss) = (low ≤ len s) × (len s ≤ high) × Lengths low high ss

len-get_or :
    (low high : ℕ) (table : List String) (i : ℕ)
    → Lengths low high table
    → i < length table
    → (low ≤ len (get_or table i "")) × (len (get_or table i "") ≤ high)
len-get_or low high [] i h k = elim k [ ]
len-get_or low high (s ∷ ss) zero h k = (h.0, h.1)
len-get_or low high (s ∷ ss) (suc i) h k = len-get_or low high ss i h.2 (omega arith)

priorities-Lengths : Lengths 3 4 priorities
priorities-Lengths = omega arith

len-digit : (d : ℕ) → d < 10 → len (get_or digits d "") ≡ 1
len-digit d h = let (low, high) = len-get_or 1 1 digits d (omega arith) (omega arith) in omega arith

len-if :
    (b : Bool) (rest : String) → len (if b then "" else rest) + 1 ≡ (if b then 1 else len rest + 1)
len-if true rest = omega arith
len-if false rest = refl

len-itoa :
    (fuel n : ℕ) → len (itoa (suc fuel) n) ≡ (if ltb n 10 then 1 else len (itoa fuel (n / 10)) + 1)
unfolding itoa
len-itoa fuel n =
    rw (len-append, len-digit (n % 10) (omega arith)) (len-if (ltb n 10) (itoa fuel (n / 10)))

len-pid_at : (i : ℕ) → i < pid_count → (4 ≤ len (pid_at i)) × (len (pid_at i) ≤ 5)
unfolding pid_at
len-pid_at i h =
    let n = 1000 + i in
    ground (
      arith,
      len-itoa 4 n,
      len-itoa 3 (n / 10),
      len-itoa 2 (n / 10 / 10),
      len-itoa 1 (n / 10 / 10 / 10),
      len-itoa 0 (n / 10 / 10 / 10 / 10),
    )

-- The indices are those of entries.
pub record IsDraw (d : Draws) : Type 0 where
  pub priority : d.priority < length priorities
  pub hostname : d.hostname < length hostnames
  pub service : d.service < length services
  pub pid : d.pid < pid_count
  pub message : d.message < length messages

separator :
    (s : String) → append_text (append_text (append_text s "]") ":") " " ≡ append_text s "]: "
separator s = rw (append_assoc, append_assoc) refl

-- A log is from 41 to 90 bytes longer than its time stamp, whatever is drawn, and the two makers give
-- the same log for the same draws.
pub generate_system_log_bounds :
    (timestamp : String) (d : Draws)
    → IsDraw d
    → let log = generate_system_log timestamp d in
      (len timestamp + 41 ≤ len log)
      × (len log ≤ len timestamp + 90)
      × (generate_system_log_unsafe timestamp d ≡ log)
unfolding generate_system_log generate_system_log_unsafe
generate_system_log_bounds timestamp d h =
    let a = len-get_or 3 4 priorities d.priority (omega arith) h.priority in
    let b = len-get_or 4 8 hostnames d.hostname (omega arith) h.hostname in
    let c = len-get_or 4 14 services d.service (omega arith) h.service in
    let e = len-pid_at d.pid h.pid in
    let f = len-get_or 20 53 messages d.message (omega arith) h.message in
    (
      omega (arith, len-append),
      omega (arith, len-append),
      ap (λ s. append_text s (get_or messages d.message "")) (sym (separator _)),
    )
