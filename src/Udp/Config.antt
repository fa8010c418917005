-- ===== src/Udp/Config.antt =====
-- config.rs: the configuration of a connection, with its defaults and its builder methods.
use tunshell.Prelude.{ℕ, ◌*◌, List, [], ◌∷◌, Outcome, ◌>>◌, done, assert, leb}
use tunshell.Udp.Packet.{max_packet_size}

-- std's `Duration`, in nanoseconds.
abbrev pub Duration : Type 0
Duration = ℕ

abbrev pub from_millis : ℕ → Duration
from_millis n = n * 1000000

-- std's `SocketAddr`: the bytes of the address, and the port.
pub record SocketAddr : Type 0 where
  pub ip : List ℕ
  pub port : ℕ

abbrev pub default_connect_timeout : ℕ
default_connect_timeout = 5000

abbrev pub default_keep_alive_interval : ℕ
default_keep_alive_interval = 15000

abbrev pub default_initial_transit_window : ℕ
default_initial_transit_window = 102400

abbrev pub default_recv_window : ℕ
default_recv_window = 102400

abbrev pub default_packet_resend_limit : ℕ
default_packet_resend_limit = 10

pub record UdpConnectionConfig : Type 0 where
  pub connect_timeout : Duration
  pub bind_addr : SocketAddr
  pub keep_alive_interval : Duration
  pub recv_timeout : Duration
  pub initial_transit_window : ℕ
  pub recv_window : ℕ
  pub packet_resend_limit : ℕ

-- `UdpConnectionConfig::default`.
abbrev pub default_config : UdpConnectionConfig
default_config = record {
  connect_timeout = from_millis default_connect_timeout;
  bind_addr = record { ip = 0 ∷ 0 ∷ 0 ∷ 0 ∷ []; port = 0 };
  keep_alive_interval = from_millis default_keep_alive_interval;
  recv_timeout = from_millis (default_keep_alive_interval * 2);
  initial_transit_window = default_initial_transit_window;
  recv_window = default_recv_window;
  packet_resend_limit = default_packet_resend_limit;
}

abbrev pub with_connect_timeout : UdpConnectionConfig → Duration → UdpConnectionConfig
with_connect_timeout c value = record c { connect_timeout = value }

abbrev pub with_bind_addr : UdpConnectionConfig → SocketAddr → UdpConnectionConfig
with_bind_addr c value = record c { bind_addr = value }

abbrev pub with_keep_alive_interval : UdpConnectionConfig → Duration → UdpConnectionConfig
with_keep_alive_interval c value = record c { keep_alive_interval = value }

abbrev pub with_recv_timeout : UdpConnectionConfig → Duration → UdpConnectionConfig
with_recv_timeout c value = record c { recv_timeout = value }

abbrev pub with_initial_transit_window : UdpConnectionConfig → ℕ → UdpConnectionConfig
with_initial_transit_window c value = record c { initial_transit_window = value }

-- The only setter that checks its argument.
unfoldable pub with_recv_window : UdpConnectionConfig → ℕ → Outcome UdpConnectionConfig
with_recv_window c value = do
  assert (leb max_packet_size value)
  done (record c { recv_window = value })

abbrev pub with_packet_resend_limit : UdpConnectionConfig → ℕ → UdpConnectionConfig
with_packet_resend_limit c value = record c { packet_resend_limit = value }
