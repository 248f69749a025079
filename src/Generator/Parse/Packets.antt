-- ===== src/Generator/Parse/Packets.antt =====
-- The packets of internal/worker/udp_worker.go that hold logs of internal/generator: what a receiver
-- reads off a whole batch.
use log_generator.Generator.{
  Draws, generate_system_log, hostnames, messages, pid_at, priorities, services,
}
use log_generator.Generator.Bounds.{IsDraw}
use log_generator.Generator.Clock.{UtcTime, format_utc, format_utc-lacks}
use log_generator.Generator.Codes.{both, codes, lacks, lacks-get_or}
use log_generator.Generator.Parse.{Fields, drawn, parse}
use log_generator.Generator.Parse.RoundTrip.{log_bytes, parse-generate_system_log}
use log_generator.Generator.Parse.Tables.{lacks-append, lacks-itoa}
use log_generator.Prelude.{
  All, List, Option, [], arith, get_or, map, not, refl, some, true, ℕ, ◌+◌, ◌<◌, ◌==◌, ◌∷◌, ◌≡◌,
  ◌≢◌,
}
use log_generator.Worker.Batch.{join_batch, newline}
use log_generator.Worker.Batch.Lines.{IsLine, join_batch-split, split_lines}
use log_generator.Worker.State.{Bytes}

-- A log as it is sent: the time of the cached stamp, and what is drawn.
abbrev pub Log : Type 0
Log = UtcTime × Draws

unfoldable pub bytes_of : Log → Bytes
bytes_of (t, d) = codes (generate_system_log (format_utc t) d)

-- The receiver splits the packet at the newlines and reads each line.
unfoldable pub read_packet : Bytes → List (Option Fields)
read_packet packet = map parse (split_lines packet)

abbrev pub AreDraws : List Log → Type 0
AreDraws = All (λ l. IsDraw l.1)

lacks-IsLine : (xs : List ℕ) → lacks newline xs ≡ true → IsLine xs
lacks-IsLine [] h = tt
lacks-IsLine (x ∷ xs) h =
    let (a, b) = both (not (x == newline)) (lacks newline xs) h in (ground arith, lacks-IsLine xs b)

bytes_of-IsLine : (l : Log) → IsLine (bytes_of l)
unfolding bytes_of
bytes_of-IsLine (t, d) =
    let below : newline < 45 = omega arith in
    let m = lacks-get_or newline messages d.message refl in
    let i =
      lacks-append newline (codes (pid_at d.pid)) _
        (unfold pid_at in lacks-itoa newline 5 (1000 + d.pid) refl) m in
    let s =
      lacks-append newline (codes (get_or services d.service "")) _
        (lacks-get_or newline services d.service refl) i in
    let n =
      lacks-append newline (codes (get_or hostnames d.hostname "")) _
        (lacks-get_or newline hostnames d.hostname refl) s in
    let u = lacks-append newline (codes (format_utc t)) _ (format_utc-lacks newline t below) n in
    let all =
      lacks-append newline (codes (get_or priorities d.priority "")) _
        (lacks-get_or newline priorities d.priority refl) u in
    lacks-IsLine (codes (generate_system_log (format_utc t) d))
      (rw (log_bytes (format_utc t) d) all)

logs-IsLine : (ls : List Log) → All IsLine (map bytes_of ls)
logs-IsLine [] = tt
logs-IsLine (l ∷ ls) = (bytes_of-IsLine l, logs-IsLine ls)

parse_all :
    (ls : List Log)
    → AreDraws ls
    → map parse (map bytes_of ls) ≡ map (λ l. some (drawn (format_utc l.0) l.1)) ls
unfolding bytes_of
parse_all [] h = refl
parse_all ((t, d) ∷ ls) h =
    rw
      (
        parse-generate_system_log (format_utc t) d (format_utc-lacks b' ' t (omega arith)) h.0,
        parse_all ls h.1,
      )
      refl

-- A receiver that splits the packet of a batch of generated logs at newlines, and cuts each line, has
-- the time stamp of each log and what was drawn for it, in the order of the batch and nothing else, if
-- the batch is not empty and the draws are within the tables.
pub read_packet-join_batch :
    (ls : List Log)
    → ls ≢ []
    → AreDraws ls
    → read_packet (join_batch (map bytes_of ls)) ≡ map (λ l. some (drawn (format_utc l.0) l.1)) ls
unfolding read_packet
read_packet-join_batch [] ne h = absurd (ne refl)
read_packet-join_batch (l ∷ ls) ne h =
    rw
      (join_batch-split (map bytes_of (l ∷ ls)) (λ e. let f : ⊥ = cc e in f) (logs-IsLine (l ∷ ls)))
      (parse_all (l ∷ ls) h)
