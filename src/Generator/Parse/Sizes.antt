-- ===== src/Generator/Parse/Sizes.antt =====
-- How many bytes a packet of generated logs has: it fits into a UDP datagram.
use log_generator.Generator.{digits, hostnames, itoa, messages, pid_at, priorities, services}
use log_generator.Generator.Clock.{format_utc, length-format_utc}
use log_generator.Generator.Codes.{codes, codes-append}
use log_generator.Generator.Parse.Packets.{Log, bytes_of}
use log_generator.Generator.Parse.RoundTrip.{log_bytes}
use log_generator.Prelude.{
  All, List, String, [], arith, get_or, if_ind, if◌then◌else◌, length, length-append, length-map,
  ltb, map, suc, zero, ℕ, ◌%◌, ◌*◌, ◌+◌, ◌/◌, ◌∷◌, ◌≤◌,
}
use log_generator.Worker.Batch.{join_batch}
use log_generator.Worker.Batch.Lines.{length-join_batch}

-- The texts of a table have at most `high` bytes.
abbrev AreShort : ℕ → List String → Type 0
AreShort high [] = Unit {0}
AreShort high (s ∷ ss) = (length (codes s) ≤ high) × AreShort high ss

length-get_or :
    (high : ℕ) (table : List String) (i : ℕ)
    → AreShort high table
    → length (codes (get_or table i "")) ≤ high
length-get_or high [] i h = omega arith
length-get_or high (s ∷ ss) zero h = h.0
length-get_or high (s ∷ ss) (suc i) h = length-get_or high ss i h.1

length-itoa : (fuel n : ℕ) → length (codes (itoa fuel n)) ≤ fuel
unfolding itoa
length-itoa zero n = omega arith
length-itoa (suc fuel) n =
    let digit = get_or digits (n % 10) "" in
    let front : String = if ltb n 10 then "" else itoa fuel (n / 10) in
    let e : length (codes front) ≤ fuel =
      if_ind (λ t. length (codes t) ≤ fuel) (ltb n 10) (λ _. omega arith)
        (λ _. length-itoa fuel (n / 10)) in
    rw (codes-append front digit) (
      omega (
        arith,
        length-append (codes front) (codes digit),
        length-get_or 1 digits (n % 10) (omega arith),
      ))

length-bytes_of : (l : Log) → length (bytes_of l) ≤ 114
unfolding bytes_of pid_at
length-bytes_of (t, d) =
    let p = length-get_or 4 priorities d.priority (omega arith) in
    let h = length-get_or 8 hostnames d.hostname (omega arith) in
    let s = length-get_or 14 services d.service (omega arith) in
    let i = length-itoa 5 (1000 + d.pid) in
    let m = length-get_or 53 messages d.message (omega arith) in
    rw (log_bytes (format_utc t) d) (omega (arith, length-append {0}, length-format_utc t))

logs_short : (ls : List Log) → All (λ l. length l ≤ 114) (map bytes_of ls)
logs_short [] = tt
logs_short (l ∷ ls) = (length-bytes_of l, logs_short ls)

-- The packet of a batch of generated logs has at most 115 bytes for each, whatever is drawn and
-- whenever; so one of up to 569 logs fits into a UDP datagram over IPv4.
pub packet-fits :
    (ls : List Log)
    → let packet = join_batch (map bytes_of ls) in
      (length packet ≤ length ls * 115) × (length ls ≤ 569 → length packet ≤ 65507)
packet-fits ls =
    let h = length-join_batch 114 (map bytes_of ls) (logs_short ls) in
    let n = length-map ls bytes_of in (omega (arith, h, n), λ few. omega (arith, h, n))
