-- ===== src/Monitor/Hub.antt =====
-- The web sockets of internal/monitor/dashboard.go and control_server.go, which keep their clients
-- and their channel of messages in the same way. A connection is a number, and a message is any
-- value. A handler, a turn of a loop and a write are one step each; a write may fail, as the
-- connection says.
pub mod View
pub mod Refinement
pub mod Delivery
pub mod Bounds
use log_generator.Prelude.{
  Bool, List, Option, [], false, if◌then◌else◌, length, ltb, none, some, ℕ, ◌++◌, ◌==◌, ◌||◌, ◌∷◌,
}

-- A set of connections: the map from a connection to true, in the order in which it is ranged over.
unfoldable pub member : ℕ → List ℕ → Bool
member c [] = false
member c (d ∷ ds) = d == c || member c ds

unfoldable pub insert : ℕ → List ℕ → List ℕ
insert c ds = if member c ds then ds else c ∷ ds

unfoldable pub delete : ℕ → List ℕ → List ℕ
delete c [] = []
delete c (d ∷ ds) = let rest = delete c ds in if d == c then rest else d ∷ rest

abbrev pub channel_size : ℕ
channel_size = 100

-- The clients and the channel of a server, with what the connections have got and which of them the
-- server has closed.
pub record Hub (M : Type 0) : Type 0 where
  pub clients : List ℕ
  pub broadcast : List M  -- the channel, its oldest message first
  pub written : List (ℕ × M)
  pub closed : List ℕ

-- What can happen to a hub.
pub data Event (M : Type 0) : Type 0 where
  -- a web socket is open, and its handler registers it
  connects : ℕ → Event M
  -- the handler writes the first message to it, which may fail
  greets : ℕ → M → Bool → Event M
  -- its handler fails to read from it
  leaves : ℕ → Event M
  -- the streamer's ticker fires, and the metrics are encoded or are not
  ticks : Option M → Event M
  -- the broadcast loop takes a message, and each write succeeds or fails
  broadcasts : (ℕ → Bool) → Event M

module _ {M : Type 0} where
  unfoldable pub new_hub : Hub M
  new_hub = record { clients = []; broadcast = []; written = []; closed = [] }

  -- handleWebSocket: the registration, the first message, whose failure is ignored, and the end
  unfoldable pub register : ℕ → Hub M → Hub M
  register c h = record h { clients = insert c h.clients }

  unfoldable pub greet : ℕ → M → Bool → Hub M → Hub M
  greet c m sent h = record h { written = if sent then h.written ++ (c, m) ∷ [] else h.written }

  unfoldable pub leave : ℕ → Hub M → Hub M
  leave c h = record h { clients = delete c h.clients; closed = h.closed ++ c ∷ [] }

  -- A turn of metricsStreamer: a message that does not fit into the channel is dropped.
  unfoldable pub stream_tick : Option M → Hub M → Hub M
  stream_tick none h = h
  stream_tick (some m) h = record h {
    broadcast =
        if ltb (length h.broadcast) channel_size then h.broadcast ++ m ∷ [] else h.broadcast;
  }

  -- A write of broadcastLoop: a client whose connection fails is removed and closed.
  unfoldable pub write_one : (ℕ → Bool) → M → ℕ → Hub M → Hub M
  write_one sends m c h =
      if sends c
      then record h { written = h.written ++ (c, m) ∷ [] }
      else record h { clients = delete c h.clients; closed = h.closed ++ c ∷ [] }

  -- The loop over the clients
  unfoldable pub write_all : (ℕ → Bool) → M → List ℕ → Hub M → Hub M
  write_all sends m [] h = h
  write_all sends m (c ∷ cs) h = write_all sends m cs (write_one sends m c h)

  -- A turn of broadcastLoop, with the channel as it is; with an empty channel it waits.
  unfoldable pub broadcast_turn : (ℕ → Bool) → List M → Hub M → Hub M
  broadcast_turn sends [] h = h
  broadcast_turn sends (m ∷ rest) h = write_all sends m h.clients (record h { broadcast = rest })

  unfoldable pub happen : Event M → Hub M → Hub M
  happen (connects c) h = register c h
  happen (greets c m sent) h = greet c m sent h
  happen (leaves c) h = leave c h
  happen (ticks m) h = stream_tick m h
  happen (broadcasts sends) h = broadcast_turn sends h.broadcast h

  unfoldable pub happen_all : List (Event M) → Hub M → Hub M
  happen_all [] h = h
  happen_all (e ∷ es) h = happen_all es (happen e h)
