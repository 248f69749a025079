-- ===== src/Generator.antt =====
-- internal/generator/syslog_generator.go: the system logs. The random indices are those that rng.Intn
-- draws, each below the length of its table; the time stamp is the cached text.
pub mod Bounds
pub mod Codes
pub mod Parse
pub mod Clock
use Prim.Native.String.{◌++◌ as append_text}
use log_generator.Prelude.{
  List, String, [], get_or, if◌then◌else◌, ltb, suc, zero, ℕ, ◌%◌, ◌+◌, ◌/◌, ◌∷◌,
}

-- The priorities, 8 * facility + severity.
abbrev pub priorities : List String
priorities =
    "<0>" ∷ "<1>" ∷ "<2>" ∷ "<3>" ∷ "<4>" ∷ "<5>" ∷ "<6>" ∷ "<7>" ∷ "<16>" ∷ "<17>" ∷ "<18>"
    ∷ "<19>" ∷ "<20>" ∷ "<21>" ∷ "<22>" ∷ "<23>" ∷ "<32>" ∷ "<33>" ∷ "<34>" ∷ "<35>" ∷ "<36>"
    ∷ "<37>" ∷ "<38>" ∷ "<39>" ∷ []

abbrev pub hostnames : List String
hostnames =
    "server01" ∷ "server02" ∷ "server03" ∷ "server04" ∷ "server05" ∷ "web01" ∷ "web02" ∷ "web03"
    ∷ "db01" ∷ "db02" ∷ "cache01" ∷ "cache02" ∷ "app01" ∷ "app02" ∷ "app03" ∷ "proxy01" ∷ "proxy02"
    ∷ "lb01" ∷ "lb02" ∷ []

abbrev pub services : List String
services =
    "systemd" ∷ "kernel" ∷ "sshd" ∷ "nginx" ∷ "apache2" ∷ "mysqld" ∷ "redis-server" ∷ "cron"
    ∷ "rsyslog" ∷ "NetworkManager" ∷ "docker" ∷ "kubelet" ∷ "containerd" ∷ "etcd" ∷ "prometheus"
    ∷ "grafana" ∷ []

abbrev pub messages : List String
messages =
    "Starting nginx.service" ∷ "Started nginx.service" ∷ "Stopping nginx.service"
    ∷ "Starting docker.service" ∷ "Started docker.service" ∷ "Unit entered failed state"
    ∷ "CPU0: temperature above threshold" ∷ "Out of memory: Kill process" ∷ "device eth0: link up"
    ∷ "TCP: Possible SYN flooding on port 80" ∷ "oom-killer: Killed process"
    ∷ "Accepted password for admin from 192.168.1.100"
    ∷ "Failed password for admin from 192.168.1.200" ∷ "Connection closed by 192.168.1.100"
    ∷ "pam_unix(sshd:session): session opened for user admin" ∷ "(root) CMD (/usr/bin/updatedb)"
    ∷ "action 'action 17' suspended" ∷ "device (eth0): state change" ∷ "Certificate will expire"
    ∷ "Disk space warning: /var partition at 85%" ∷ []

abbrev pub digits : List String
digits = "0" ∷ "1" ∷ "2" ∷ "3" ∷ "4" ∷ "5" ∷ "6" ∷ "7" ∷ "8" ∷ "9" ∷ []

-- strconv.Itoa of a number with at most `fuel` digits
unfoldable pub itoa : ℕ → ℕ → String
itoa zero n = ""
itoa (suc fuel) n =
    let rest = itoa fuel (n / 10) in
    append_text (if ltb n 10 then "" else rest) (get_or digits (n % 10) "")

-- The table of process ids holds the numbers from 1000 to 10999, of at most five digits.
unfoldable pub pid_at : ℕ → String
pid_at i = itoa 5 (1000 + i)

abbrev pub pid_count : ℕ
pid_count = 10000

-- The indices that a log is made of.
pub record Draws : Type 0 where
  pub priority : ℕ
  pub hostname : ℕ
  pub service : ℕ
  pub pid : ℕ
  pub message : ℕ

-- A byte slice and a builder grow at their end.
abbrev pub append_all : String → List String → String
append_all buffer [] = buffer
append_all buffer (s ∷ ss) = append_all (append_text buffer s) ss

-- GenerateSystemLog
unfoldable pub generate_system_log : String → Draws → String
generate_system_log timestamp d = append_all "" (
    get_or priorities d.priority ""
    ∷ timestamp
    ∷ " "
    ∷ get_or hostnames d.hostname ""
    ∷ " "
    ∷ get_or services d.service ""
    ∷ "["
    ∷ pid_at d.pid
    ∷ "]"
    ∷ ":"
    ∷ " "
    ∷ get_or messages d.message ""
    ∷ [])

-- GenerateSystemLogUnsafe
unfoldable pub generate_system_log_unsafe : String → Draws → String
generate_system_log_unsafe timestamp d = append_all "" (
    get_or priorities d.priority ""
    ∷ timestamp
    ∷ " "
    ∷ get_or hostnames d.hostname ""
    ∷ " "
    ∷ get_or services d.service ""
    ∷ "["
    ∷ pid_at d.pid
    ∷ "]: "
    ∷ get_or messages d.message ""
    ∷ [])
