-- ===== src/Generator/Parse.antt =====
-- What a receiver reads off a log of internal/generator/syslog_generator.go.
pub mod Tables
pub mod RoundTrip
pub mod Packets
pub mod Sizes
use mathlib.Core.List.{append_assoc}
use Prim.Native.String.{◌++◌ as append_text}
use log_generator.Generator.{Draws, hostnames, messages, services}
use log_generator.Generator.Codes.{codes, cut, number}
use log_generator.Prelude.{
  List, Option, String, [], drop, get_or, if◌then◌else◌, none, some, ℕ, ◌%◌, ◌&&◌, ◌*◌, ◌+◌, ◌/◌,
  ◌==◌, ◌∷◌,
}

-- The parts of a log.
pub record Fields : Type 0 where
  pub priority : ℕ
  pub timestamp : List ℕ
  pub hostname : List ℕ
  pub service : List ℕ
  pub pid : ℕ
  pub message : List ℕ

infixl 5 ◌>>=◌
abbrev pub ◌>>=◌ : {A B : Type 0} → Option A → (A → Option B) → Option B
none >>= f = none
some a >>= f = f a

-- What follows a colon and a space
unfoldable pub after_colon : List ℕ → Option (List ℕ)
after_colon [] = none
after_colon (c ∷ []) = none
after_colon (c ∷ d ∷ rest) = if c == b':' && d == b' ' then some rest else none

-- <priority>timestamp hostname service[pid]: message
unfoldable pub parse : List ℕ → Option Fields
parse line = do
  p ← cut b'>' line
  t ← cut b' ' p.1
  h ← cut b' ' t.1
  s ← cut b'[' h.1
  i ← cut b']' s.1
  m ← after_colon i.1
  some (record {
    priority = number 0 (drop 1 p.0);
    timestamp = t.0;
    hostname = h.0;
    service = s.0;
    pid = number 0 i.0;
    message = m;
  })

-- The priority of the table's entry `i`: 8 times a facility, 0, 2 or 4, and a severity.
unfoldable pub priority_value : ℕ → ℕ
priority_value i = 8 * (2 * (i / 8)) + i % 8

-- The parts that the generator puts together.
unfoldable pub drawn : String → Draws → Fields
drawn timestamp d = record {
  priority = priority_value d.priority;
  timestamp = codes timestamp;
  hostname = codes (get_or hostnames d.hostname "");
  service = codes (get_or services d.service "");
  pid = 1000 + d.pid;
  message = codes (get_or messages d.message "");
}
