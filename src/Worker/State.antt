-- ===== src/Worker/State.antt =====
-- The state of a UDPWorker in internal/worker/udp_worker.go, its construction and its setters.
-- Times and durations are in nanoseconds. What `net` and the clock answer is an argument.
use log_generator.Float.{Float64}
use log_generator.Prelude.{Bool, List, String, [], false, if◌then◌else◌, not, replicate, ℕ, ◌*◌}
use log_generator.Prelude.Int.{leb_ℤ, ltb_ℤ, negsuc, pos, quot, saturate64, ℤ, ◌*ℤ◌, ◌-ℤ◌}
use log_generator.Prelude.Result.{Result, err, ok, ◌>>=◌}

abbrev pub Bytes : Type 0
Bytes = List ℕ

-- A nil connection, an open one, and one after Close.
pub data Conn : Type 0 where
  nil_conn open_conn closed_conn : Conn

pub record Worker (F : Type 0) : Type 0 where
  pub id : ℤ
  pub port : ℤ
  pub target_host : String
  pub batch_size : ℤ
  pub ticker_interval : ℤ  -- microseconds
  pub send_buffer_size : ℤ
  pub recv_buffer_size : ℤ
  pub conn : Conn
  pub batch_buffer : List Bytes
  pub send_buffer : Bytes
  pub is_running : Bool
  pub current_eps : ℤ
  pub total_sent : ℤ
  pub error_count : ℤ
  pub last_metric_time : ℤ
  pub last_total_sent : ℤ
  pub eps_counts : List ℤ
  pub eps_index : ℕ
  pub stop_closed : Bool  -- stopChan
  pub ticker_stopped : Bool
  pub ticker_period : ℤ
  pub target_eps : ℤ
  pub adaptive_control : Bool
  pub pid_kp : F
  pub pid_ki : F
  pub pid_kd : F
  pub pid_integral : F
  pub pid_last_error : F
  pub control_interval : ℤ
  pub last_control_time : ℤ
  pub batch_interval : ℤ
  pub precision_mode : String

abbrev pub microsecond : ℕ
microsecond = 1_000

abbrev pub millisecond : ℕ
millisecond = 1_000_000

abbrev pub second : ℕ
second = 1_000_000_000

-- The zero Time, 1 January of the year 1, in nanoseconds after 1970.
abbrev pub zero_time : ℤ
zero_time = negsuc 62135596799_999999999

-- t.Sub(s)
unfoldable pub time_sub : ℤ → ℤ → ℤ
time_sub t s = saturate64 (t -ℤ s)

-- What NewUDPWorkerWithConfig asks of the network, in order.
pub record Network : Type 0 where
  pub resolves : Bool  -- net.ResolveUDPAddr
  pub dials : Bool  -- net.DialUDP
  pub buffers : Bool  -- the two setsockopt calls

pub data SetupError : Type 0 where
  address_failed dial_failed buffers_failed : SetupError

-- setupUDPConnection
unfoldable pub setup_udp_connection : Network → Result SetupError Conn
setup_udp_connection net =
    if not net.resolves
    then err address_failed
    else if not net.dials
    then err dial_failed
    else if not net.buffers
    then err buffers_failed
    else ok open_conn

-- The period of the ticker: whole milliseconds from 1000 microseconds on.
unfoldable pub period_of : ℤ → ℤ
period_of interval =
    if ltb_ℤ interval (pos 1000)
    then interval *ℤ pos microsecond
    else quot interval (pos 1000) *ℤ pos millisecond

abbrev pub udp_send_buffer_size : ℤ
udp_send_buffer_size = pos (2 * 1024 * 1024)

abbrev pub udp_recv_buffer_size : ℤ
udp_recv_buffer_size = pos (1 * 1024 * 1024)

module _ {F : Type 0} (fl : Float64 F) where
  -- The worker that NewUDPWorkerWithConfig makes with its connection.
  unfoldable pub initial_worker : ℤ → ℤ → ℤ → String → ℤ → ℤ → Conn → Worker F
  initial_worker now id port host batch_size ticker_interval conn = record {
    id = id;
    port = port;
    target_host = host;
    batch_size = batch_size;
    ticker_interval = ticker_interval;
    send_buffer_size = udp_send_buffer_size;
    recv_buffer_size = udp_recv_buffer_size;
    conn = conn;
    batch_buffer = [];
    send_buffer = [];
    is_running = false;
    current_eps = pos 0;
    total_sent = pos 0;
    error_count = pos 0;
    last_metric_time = now;
    last_total_sent = pos 0;
    eps_counts = replicate 60 (pos 0);
    eps_index = 0;
    stop_closed = false;
    ticker_stopped = false;
    ticker_period = period_of ticker_interval;
    target_eps = pos 0;
    adaptive_control = false;
    pid_kp = fl.of_int (pos 0);
    pid_ki = fl.of_int (pos 0);
    pid_kd = fl.of_int (pos 0);
    pid_integral = fl.of_int (pos 0);
    pid_last_error = fl.of_int (pos 0);
    control_interval = pos 0;
    last_control_time = zero_time;
    batch_interval = pos 0;
    precision_mode = "";
  }

  -- NewUDPWorkerWithConfig, at the time `now`
  unfoldable pub new_udp_worker_with_config :
      Network → ℤ → ℤ → ℤ → String → ℤ → ℤ → Result SetupError (Worker F)
  new_udp_worker_with_config net now id port host batch_size ticker_interval = do
    conn ← setup_udp_connection net
    ok (initial_worker now id port host batch_size ticker_interval conn)

  -- SetBufferSizes
  unfoldable pub set_buffer_sizes : ℤ → ℤ → Worker F → Worker F
  set_buffer_sizes send recv w = record w { send_buffer_size = send; recv_buffer_size = recv }

  -- SetPrecisionMode
  unfoldable pub set_precision_mode : String → Worker F → Worker F
  set_precision_mode mode w = record w { precision_mode = mode }

  -- adjustPIDForProfile
  unfoldable pub adjust_pid_for_profile : ℤ → Worker F → Worker F
  adjust_pid_for_profile target w =
      if leb_ℤ target (pos 20_000)
      then record w {
        pid_kp = fl.decimal (pos 5) 5;
        pid_ki = fl.decimal (pos 1) 5;
        pid_kd = fl.decimal (pos 5) 6;
      }
      else if leb_ℤ target (pos 50_000)
      then record w {
        pid_kp = fl.decimal (pos 3) 5;
        pid_ki = fl.decimal (pos 8) 6;
        pid_kd = fl.decimal (pos 3) 6;
      }
      else if leb_ℤ target (pos 70_000)
      then record w {
        pid_kp = fl.decimal (pos 2) 5;
        pid_ki = fl.decimal (pos 5) 6;
        pid_kd = fl.decimal (pos 2) 6;
      }
      else record w {
        pid_kp = fl.decimal (pos 1) 5;
        pid_ki = fl.decimal (pos 3) 6;
        pid_kd = fl.decimal (pos 1) 6;
      }

  -- The interval between batches that SetTargetEPS starts from.
  unfoldable pub initial_interval : ℤ → ℤ → ℤ
  initial_interval target batch_size =
      let per_second = fl.div (fl.of_int target) (fl.of_int batch_size) in
      if fl.lt (fl.of_int (pos 0)) per_second
      then fl.to_int (fl.div (fl.of_int (pos second)) per_second)
      else pos millisecond

  -- SetTargetEPS, at the time `now`
  unfoldable pub set_target_eps : ℤ → ℤ → Worker F → Worker F
  set_target_eps now target w =
      let w1 = record w { target_eps = target; adaptive_control = ltb_ℤ (pos 0) target } in
      let w2 = adjust_pid_for_profile target w1 in
      if ltb_ℤ (pos 0) target
      then record w2 {
        batch_interval = initial_interval target w.batch_size;
        control_interval = pos (100 * millisecond);
        last_control_time = now;
        pid_integral = fl.of_int (pos 0);
        pid_last_error = fl.of_int (pos 0);
      }
      else w1
