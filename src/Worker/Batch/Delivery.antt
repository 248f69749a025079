-- ===== src/Worker/Batch/Delivery.antt =====
-- What deliver does with a batch that is not empty, by the state of the connection.
use log_generator.Prelude.{
  Bool, Option, ap, if◌then◌else◌, length, none, refl, some, suc, zero, ℕ, ◌≡◌,
}
use log_generator.Prelude.Int.{pos, rounds, ℤ}
use log_generator.Worker.Batch.{
  Round, SendError, conn_write, deliver, fill_batch, join_batch, send_batch, send_nonempty,
  write_failed,
}
use log_generator.Worker.State.{Bytes, Conn, Worker, closed_conn, nil_conn, open_conn}

-- The packet of a batch of `n` logs.
unfoldable pub packet_of : Round → ℤ → Bytes
packet_of r n = join_batch (fill_batch r.log 0 (rounds n))

pub length-fill_batch : (log : ℕ → Bytes) (i n : ℕ) → length (fill_batch log i n) ≡ n
unfolding fill_batch
length-fill_batch log i zero = refl
length-fill_batch log i (suc n) = ap suc (length-fill_batch log (suc i) n)

-- What a send answers on an open connection.
abbrev pub answer : Round → ℤ → Option SendError
answer r n = if r.write (packet_of r n) then none else some write_failed

module _ {F : Type 0} where
  open_send :
      (write : Bytes → Bool) (c : Conn) (w : Worker F)
      → c ≡ open_conn
      → send_nonempty write c w ≡ (
        record w { send_buffer = join_batch w.batch_buffer },
        if write (join_batch w.batch_buffer) then none else some write_failed,
      )
  unfolding send_nonempty conn_write
  open_send write nil_conn w h = cc
  open_send write open_conn w h = refl
  open_send write closed_conn w h = cc

  pub deliver-open :
      (r : Round) (k : ℕ) (w : Worker F)
      → w.conn ≡ open_conn
      → deliver r (pos (suc k)) w ≡ (
        record w {
          batch_buffer = fill_batch r.log 0 (suc k);
          send_buffer = packet_of r (pos (suc k));
        },
        answer r (pos (suc k)),
      )
  unfolding deliver send_batch fill_batch packet_of
  deliver-open r k w h =
      open_send r.write w.conn (record w { batch_buffer = fill_batch r.log 0 (suc k) }) h
