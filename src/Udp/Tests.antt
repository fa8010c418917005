-- ===== src/Udp/Tests.antt =====
-- The parameters of the models at concrete values, and the theorems applied to concrete inputs.
mod Transport
mod Connecting
mod Variables
mod Packets
use tunshell.Prelude.{
  ℕ, ◌+◌, ◌*◌, ◌/◌, ◌%◌, ◌^◌, refl, List, [], ◌∷◌, ◌++◌, Option, none, some, Result, ok, err,
}
use tunshell.Prelude.Crates.{ByteOrder, HashWrite, XxHash, write_u8, write_u16, write_u32, write}
use tunshell.Udp.Config.{default_config}
use tunshell.Udp.Packet.{UdpPacket, data_type}
use tunshell.Udp.State.{UdpConnectionVars, SendEvent, connected, new_vars}

abbrev read_byte : List ℕ → Option (ℕ × List ℕ)
read_byte [] = none
read_byte (a ∷ rest) = some (a, rest)

abbrev read_word16 : List ℕ → Option (ℕ × List ℕ)
read_word16 (a ∷ b ∷ rest) = some (a * 256 + b, rest)
read_word16 _ = none

abbrev read_word32 : List ℕ → Option (ℕ × List ℕ)
read_word32 (a ∷ b ∷ c ∷ d ∷ rest) = some (((a * 256 + b) * 256 + c) * 256 + d, rest)
read_word32 _ = none

abbrev pub big_endian : ByteOrder
big_endian = record {
  read_u8 = read_byte;
  read_u16 = read_word16;
  read_u32 = read_word32;
  write_u16 = λ n. n / 256 ∷ n % 256 ∷ [];
  write_u32 = λ n. n / 2 ^ 24 ∷ n / 2 ^ 16 % 256 ∷ n / 2 ^ 8 % 256 ∷ n % 256 ∷ [];
  read_u8-cons = λ a rest. refl;
  read_u16-cons = λ a b rest. refl;
  read_u32-cons = λ a b c d rest. refl;
  write_u16-bytes = λ n h. refl;
  write_u32-bytes = λ n h. refl;
}

abbrev sum_of : List ℕ → ℕ
sum_of [] = 0
sum_of (x ∷ xs) = x + sum_of xs

abbrev pub sum_hash : XxHash
sum_hash [] = 0
sum_hash (write_u8 n ∷ ws) = n + sum_hash ws
sum_hash (write_u16 n ∷ ws) = n + sum_hash ws
sum_hash (write_u32 n ∷ ws) = n + sum_hash ws
sum_hash (write bytes ∷ ws) = sum_of bytes + sum_hash ws

-- A connected end that has numbered and acknowledged everything up to `base`.
abbrev pub end_at : ℕ → List SendEvent → UdpConnectionVars
end_at base channel = record (new_vars default_config) {
  state = connected;
  peer_window = 102400;
  sequence_number = base;
  ack_number = base;
  peer_ack_number = base;
  recv_wakers = 5 ∷ [];
  event_sender = some channel;
}

-- The packet that carries `payload` at `position`, as the sum hashes it.
abbrev pub packet_at : (position ack window checksum length : ℕ) → List ℕ → UdpPacket
packet_at position ack window checksum length payload = record {
  packet_type = data_type;
  sequence_number = position;
  ack_number = ack;
  window = window;
  length = length;
  checksum = checksum;
  payload = payload;
  resend_count = 0;
}
