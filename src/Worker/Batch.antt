-- ===== src/Worker/Batch.antt =====
-- The batches of internal/worker/udp_worker.go: how logs are collected, joined and sent.
pub mod Delivery
pub mod Lines
use log_generator.Prelude.{
  Bool, List, Option, [], if◌then◌else◌, length, ltb, none, some, suc, zero, ℕ, ◌++◌, ◌-◌, ◌∷◌,
}
use log_generator.Prelude.Int.{add64, pos, rounds, ℤ}
use log_generator.Worker.State.{Bytes, Conn, Worker, closed_conn, nil_conn, open_conn}

-- One pass of a send loop: the logs that the generator gives, what the connection answers to a
-- packet (`true`: sent), and the readings of the clock.
pub record Round : Type 0 where
  pub log : ℕ → Bytes
  pub write : Bytes → Bool
  pub now : ℕ → ℤ

-- `for i < n { batchBuffer = append(batchBuffer, GenerateSystemLog()) }`, from the log `i` on
unfoldable pub fill_batch : (ℕ → Bytes) → ℕ → ℕ → List Bytes
fill_batch log i zero = []
fill_batch log i (suc n) = log i ∷ fill_batch log (suc i) n

abbrev pub newline : ℕ
newline = 10

-- The loop that joins the logs of a batch of `n` in the send buffer.
unfoldable pub join_loop : ℕ → ℕ → List Bytes → Bytes → Bytes
join_loop n i [] buffer = buffer
join_loop n i (l ∷ ls) buffer =
    join_loop n (suc i) ls (if ltb i (n - 1) then (buffer ++ l) ++ newline ∷ [] else buffer ++ l)

unfoldable pub join_batch : List Bytes → Bytes
unfolding join_loop
join_batch batch = join_loop (length batch) 0 batch []

pub data SendError : Type 0 where
  nil_connection write_failed : SendError

-- conn.Write, which fails after Close
unfoldable pub conn_write : Conn → (Bytes → Bool) → Bytes → Option SendError
conn_write open_conn write packet = if write packet then none else some write_failed
conn_write closed_conn write packet = some write_failed
conn_write nil_conn write packet = some nil_connection

module _ {F : Type 0} where
  unfoldable pub send_nonempty : (Bytes → Bool) → Conn → Worker F → Worker F × Option SendError
  send_nonempty write nil_conn w = (w, some nil_connection)
  send_nonempty write conn w =
      let packet = join_batch w.batch_buffer in
      (record w { send_buffer = packet }, conn_write conn write packet)

  -- sendBatch
  unfoldable pub send_batch : (Bytes → Bool) → Worker F → Worker F × Option SendError
  unfolding send_nonempty
  send_batch write w = elim w.batch_buffer [
    | [] ↦ (w, none)
    | l ∷ ls ↦ send_nonempty write w.conn w
  ]

  -- Fill the batch buffer with `n` logs and send it.
  unfoldable pub deliver : Round → ℤ → Worker F → Worker F × Option SendError
  deliver r n w = send_batch r.write (record w { batch_buffer = fill_batch r.log 0 (rounds n) })

  -- The count of a loop that counts failures.
  unfoldable pub count_all : ℤ → Worker F × Option SendError → Worker F
  count_all n (w, none) = record w { total_sent = add64 w.total_sent n }
  count_all n (w, some e) = record w { error_count = add64 w.error_count (pos 1) }

  -- The count of a loop that passes over failures.
  unfoldable pub count_sent : ℤ → Worker F × Option SendError → Worker F
  count_sent n (w, none) = record w { total_sent = add64 w.total_sent n }
  count_sent n (w, some e) = w

-- sendBatchPartial: the packet, and the error
unfoldable pub send_batch_partial : (Bytes → Bool) → Conn → List Bytes → Bytes × Option SendError
send_batch_partial write conn [] = ([], none)
send_batch_partial write conn (l ∷ ls) =
    let packet = join_batch (l ∷ ls) in (packet, conn_write conn write packet)

-- sendBatchIndividual: the number of logs that could not be sent
unfoldable pub send_batch_individual : (Bytes → Bool) → Conn → List Bytes → ℕ
send_batch_individual write conn [] = 0
send_batch_individual write conn (l ∷ ls) =
    let rest = send_batch_individual write conn ls in
    elim (conn_write conn write l) [ none ↦ rest | some e ↦ suc rest ]
