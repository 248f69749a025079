-- ===== src/Generator/Parse/RoundTrip.antt =====
-- A receiver reads off each log of internal/generator/syslog_generator.go what was drawn.
use mathlib.Core.List.{append_assoc}
use native.Mathlib.Nat.{zero-add}
use log_generator.Generator.{
  Draws, generate_system_log, hostnames, messages, pid_at, priorities, services,
}
use log_generator.Generator.Bounds.{IsDraw}
use log_generator.Generator.Codes.{
  codes, codes-append, cut, cut-append, lacks, lacks-get_or, with_first,
}
use log_generator.Generator.Parse.{after_colon, drawn, parse}
use log_generator.Generator.Parse.Tables.{Rows-get_or, lacks-itoa, number-itoa, priorities-Rows}
use log_generator.Prelude.{
  Bool-cases, List, Option, String, [], arith, get_or, inl, inr, none, refl, some, true, ℕ, ◌++◌,
  ◌+◌, ◌<◌, ◌==◌, ◌^◌, ◌∷◌, ◌≡◌,
}

with_first-eq :
    (x : ℕ) (o : Option (List ℕ × List ℕ)) (before after : List ℕ)
    → with_first x o ≡ some (before, after)
    → (rest : List ℕ) × (o ≡ some (rest, after)) × (before ≡ x ∷ rest)
unfolding with_first
with_first-eq x none before after h = absurd (let f : ⊥ = cc in f)
with_first-eq x (some (p, q)) before after h = (p, cc, cc)

-- More bytes after a cut stand after what was there.
cut-longer :
    (c : ℕ) (xs ys before after : List ℕ)
    → cut c xs ≡ some (before, after)
    → cut c (xs ++ ys) ≡ some (before, after ++ ys)
unfolding cut
cut-longer c [] ys before after h = cc
cut-longer c (x ∷ xs) ys before after h = elim (Bool-cases (x == c)) [
  | inl e ↦ let f : some ([], xs) ≡ some (before, after) = rw e at h in rw e (cc f)
  | inr e ↦
      let f : with_first x (cut c xs) ≡ some (before, after) = rw e at h in
      let (rest, g, k) = with_first-eq x (cut c xs) before after f in
      rw (e, cut-longer c xs ys rest after g, k) (unfold with_first in refl)
]

-- The bytes of a log, part by part.
pub log_bytes :
    (timestamp : String) (d : Draws)
    → codes (generate_system_log timestamp d)
      ≡ codes (get_or priorities d.priority "")
        ++ (codes timestamp
            ++ b' '
              ∷ (codes (get_or hostnames d.hostname "")
                  ++ b' '
                    ∷ (codes (get_or services d.service "")
                        ++ b'['
                          ∷ (codes (pid_at d.pid)
                              ++ b']' ∷ b':' ∷ b' ' ∷ codes (get_or messages d.message "")))))
unfolding generate_system_log
log_bytes timestamp d = simp (codes-append, append_assoc)

-- A receiver that cuts a log at the first bracket, the two spaces and the brackets of the process id
-- has what was drawn: the priority and the process id as numbers, and the texts of the tables, if the
-- time stamp holds no space, whatever is drawn within the tables.
pub parse-generate_system_log :
    (timestamp : String) (d : Draws)
    → lacks b' ' (codes timestamp) ≡ true
    → IsDraw d
    → parse (codes (generate_system_log timestamp d)) ≡ some (drawn timestamp d)
unfolding parse drawn after_colon pid_at
parse-generate_system_log timestamp d spaceless h =
    let few : 1000 + d.pid < 10 ^ 5 = omega arith in
    let (open_bracket, value) = Rows-get_or 0 d.priority priorities priorities-Rows h.priority in
    rw
      (
        log_bytes timestamp d,
        cut-longer b'>' (codes (get_or priorities d.priority "")) _ _ _ open_bracket,
        cut-append b' ' (codes timestamp) _ spaceless,
        cut-append b' ' (codes (get_or hostnames d.hostname "")) _
            (lacks-get_or b' ' hostnames d.hostname refl),
        cut-append b'[' (codes (get_or services d.service "")) _
            (lacks-get_or b'[' services d.service refl),
        cut-append b']' (codes (pid_at d.pid)) _ (lacks-itoa b']' 5 (1000 + d.pid) refl),
      )
      (rw (value, number-itoa 5 (1000 + d.pid) few, zero-add) refl)
