-- ===== src/Worker/Batch/Lines.antt =====
-- The packet of a batch, read line by line: what sendBatch in internal/worker/udp_worker.go writes.
use mathlib.Core.List.{append_assoc, append-nil}
use log_generator.Prelude.{
  All, List, [], ap, arith, if◌then◌else◌, length, length-append, lt→ltb, refl, suc, sym, ℕ, ◌*◌,
  ◌++◌, ◌+◌, ◌-◌, ◌==◌, ◌∙◌, ◌∷◌, ◌≡◌, ◌≢◌, ◌≤◌,
}
use log_generator.Worker.Batch.{join_batch, join_loop, newline}
use log_generator.Worker.State.{Bytes}

-- The logs with a newline between each two.
unfoldable pub join_lines : List Bytes → Bytes
join_lines [] = []
join_lines (l ∷ []) = l
join_lines (l ∷ m ∷ ls) = l ++ newline ∷ join_lines (m ∷ ls)

join_loop-eq :
    (n i : ℕ) (ls : List Bytes) (buffer : Bytes)
    → i + length ls ≡ n
    → join_loop n i ls buffer ≡ buffer ++ join_lines ls
unfolding join_loop join_lines
join_loop-eq n i [] buffer h = sym (append-nil buffer)
join_loop-eq n i (l ∷ []) buffer h = ground arith
join_loop-eq n i (l ∷ m ∷ ls) buffer h = rw (lt→ltb i (n - 1) (omega arith)) (
    join_loop-eq n (suc i) (m ∷ ls) ((buffer ++ l) ++ newline ∷ []) (omega arith)
    ∙ simp append_assoc)

join_batch-eq : (ls : List Bytes) → join_batch ls ≡ join_lines ls
unfolding join_batch
join_batch-eq ls = join_loop-eq (length ls) 0 ls [] (omega arith)

-- How a receiver reads a packet: a newline ends a line.
abbrev pub cons_head : ℕ → List Bytes → List Bytes
cons_head c [] = (c ∷ []) ∷ []
cons_head c (l ∷ ls) = (c ∷ l) ∷ ls

unfoldable pub split_lines : Bytes → List Bytes
split_lines [] = [] ∷ []
split_lines (c ∷ cs) =
    let rest = split_lines cs in if c == newline then [] ∷ rest else cons_head c rest

abbrev pub IsLine : Bytes → Type 0
IsLine = All (λ c. c ≢ newline)

split_lines-line : (l : Bytes) → IsLine l → split_lines l ≡ l ∷ []
unfolding split_lines
split_lines-line [] h = refl
split_lines-line (c ∷ cs) h = ground (arith, split_lines-line cs h.1)

split_lines-append :
    (l rest : Bytes) → IsLine l → split_lines (l ++ newline ∷ rest) ≡ l ∷ split_lines rest
unfolding split_lines
split_lines-append [] rest h = refl
split_lines-append (c ∷ cs) rest h = ground (arith, split_lines-append cs rest h.1)

split-join :
    (l : Bytes) (ls : List Bytes) → All IsLine (l ∷ ls) → split_lines (join_lines (l ∷ ls)) ≡ l ∷ ls
unfolding join_lines
split-join l [] h = split_lines-line l h.0
split-join l (m ∷ ls) h =
    split_lines-append l (join_lines (m ∷ ls)) h.0 ∙ ap (λ r. l ∷ r) (split-join m ls h.1)

-- A receiver that splits the packet of a batch at newlines has the logs of the batch, each whole and
-- in order, if the batch is not empty and no log holds a newline.
pub join_batch-split :
    (batch : List Bytes) → batch ≢ [] → All IsLine batch → split_lines (join_batch batch) ≡ batch
join_batch-split [] h k = absurd (h refl)
join_batch-split (l ∷ ls) h k = rw (join_batch-eq (l ∷ ls)) (split-join l ls k)

length-join_lines :
    (b : ℕ) (ls : List Bytes)
    → All (λ l. length l ≤ b) ls
    → length (join_lines ls) ≤ length ls * (b + 1)
unfolding join_lines
length-join_lines b [] h = omega arith
length-join_lines b (l ∷ []) h = omega arith
length-join_lines b (l ∷ m ∷ ls) h =
    omega (arith, length-append l (newline ∷ join_lines (m ∷ ls)), length-join_lines b (m ∷ ls) h.1)

-- The packet of a batch of logs of at most `b` bytes has at most `b` + 1 bytes for each log.
pub length-join_batch :
    (b : ℕ) (batch : List Bytes)
    → All (λ l. length l ≤ b) batch
    → length (join_batch batch) ≤ length batch * (b + 1)
length-join_batch b batch h = rw (join_batch-eq batch) (length-join_lines b batch h)
