-- ===== src/Udp/Packet.antt =====
-- packet.rs: the datagram of the protocol, its checksum, and its bytes.
pub mod Codec
pub mod Create
pub mod Decode
use tunshell.Prelude.{
  ℕ, ◌+◌, ◌-◌, Bool, ◌&&◌, List, [], ◌∷◌, ◌++◌, Outcome, done, ◌>>=◌, ◌>>◌, assert, unwrap, Result,
  ok, err, min, ltb, leb, ◌==◌, if◌then◌else◌, length, take, drop,
}
use tunshell.Prelude.Words.{u16, u32}
use tunshell.Prelude.Crates.{ByteOrder, XxHash, write_u8, write_u16, write_u32, write}
use tunshell.Udp.SeqNumber
use tunshell.Udp.SeqNumber.{SequenceNumber}

abbrev pub max_packet_size : ℕ
max_packet_size = 576

abbrev pub udp_packet_header_size : ℕ
udp_packet_header_size = 1 + 4 + 4 + 4 + 2 + 4

pub data UdpPacketType : Type 0 where
  open_type data_type close_type : UdpPacketType

pub record UdpPacket : Type 0 where
  pub packet_type : UdpPacketType
  pub sequence_number : SequenceNumber
  pub ack_number : SequenceNumber
  pub window : ℕ
  pub length : ℕ
  pub checksum : ℕ
  pub payload : List ℕ
  pub resend_count : ℕ

pub data UdpPacketParseError : Type 0 where
  invalid_type buffer_too_small : ℕ → UdpPacketParseError
  payload_length_mismatch : ℕ → ℕ → UdpPacketParseError

-- `UdpPacketType::parse`.
unfoldable pub parse_type : ℕ → Result UdpPacketType UdpPacketParseError
parse_type byte =
    if byte == 0
    then ok open_type
    else if byte == 1
    then ok data_type
    else if byte == 2
    then ok close_type
    else err (invalid_type byte)

-- `UdpPacketType::to_byte`.
abbrev pub to_byte : UdpPacketType → ℕ
to_byte open_type = 0
to_byte data_type = 1
to_byte close_type = 2

-- `UdpPacket::to_vec`; a byte is written as it is.
unfoldable pub to_vec : ByteOrder → UdpPacket → List ℕ
to_vec bo p =
    to_byte p.packet_type
    ∷ (bo.write_u32 p.sequence_number
        ++ (bo.write_u32 p.ack_number
            ++ (bo.write_u32 p.window
                ++ (bo.write_u16 p.length ++ (bo.write_u32 p.checksum ++ p.payload)))))

-- `&bytes[start..end]`, which panics when it is out of range.
abbrev pub slice : ℕ → ℕ → List ℕ → Outcome (List ℕ)
slice start end bytes = do
  assert (leb start end)
  assert (leb end (length bytes))
  done (take (end - start) (drop start bytes))

-- The part of `UdpPacket::parse` after the packet type: `cursor` is what has not been read, and the
-- payload starts where it stands when the header is read.
unfoldable pub parse_fields :
    ByteOrder
    → (bytes cursor : List ℕ) → UdpPacketType
    → Outcome (Result UdpPacket UdpPacketParseError)
parse_fields bo bytes cursor t = do
  (sequence_number, c1) ← unwrap (bo.read_u32 cursor)
  (ack_number, c2) ← unwrap (bo.read_u32 c1)
  (window, c3) ← unwrap (bo.read_u32 c2)
  (len16, c4) ← unwrap (bo.read_u16 c3)
  (checksum, c5) ← unwrap (bo.read_u32 c4)
  let payload_start = length bytes - length c5
  let payload_end = payload_start + len16
  if ltb (length bytes) payload_end
      then done (err (payload_length_mismatch len16 (length bytes)))
      else (do
        payload ← slice payload_start payload_end bytes
        done (
            ok (record {
              packet_type = t;
              sequence_number = sequence_number;
              ack_number = ack_number;
              window = window;
              length = len16;
              checksum = checksum;
              payload = payload;
              resend_count = 0;
            })))

unfoldable pub parse_header : ByteOrder → List ℕ → Outcome (Result UdpPacket UdpPacketParseError)
parse_header bo bytes = do
  (byte, cursor) ← unwrap (bo.read_u8 bytes)
  elim (parse_type byte) [ ok t ↦ parse_fields bo bytes cursor t | err e ↦ done (err e) ]

-- `UdpPacket::parse`.
unfoldable pub parse : ByteOrder → List ℕ → Outcome (Result UdpPacket UdpPacketParseError)
parse bo bytes =
    if ltb (length bytes) udp_packet_header_size
    then done (err (buffer_too_small (length bytes)))
    else parse_header bo bytes

unfoldable pub calculate_checksum : XxHash → UdpPacket → ℕ
calculate_checksum xx p = u32 (
    xx (
      write_u8 (to_byte p.packet_type)
      ∷ write_u32 p.sequence_number
      ∷ write_u32 p.ack_number
      ∷ write_u32 p.window
      ∷ write_u16 p.length
      ∷ write p.payload
      ∷ []))

unfoldable pub is_checksum_valid : XxHash → UdpPacket → Bool
unfolding calculate_checksum
is_checksum_valid xx p = p.checksum == calculate_checksum xx p

-- `UdpPacket::create`; the checksum does not read the field that it is stored in.
unfoldable pub create :
    XxHash
    → UdpPacketType
    → (sequence_number ack_number : SequenceNumber) → (window : ℕ) → List ℕ
    → UdpPacket
unfolding calculate_checksum
create xx t sequence_number ack_number window buff =
    let len16 = u16 (min (length buff) (max_packet_size - udp_packet_header_size)) in
    let packet : UdpPacket = record {
      packet_type = t;
      sequence_number = sequence_number;
      ack_number = ack_number;
      window = window;
      length = len16;
      checksum = 0;
      payload = take len16 buff;
      resend_count = 0;
    } in
    record packet { checksum = calculate_checksum xx packet }

-- The constructors `UdpPacket::open`, `data` and `close`.
unfoldable pub open_packet : XxHash → SequenceNumber → SequenceNumber → ℕ → UdpPacket
unfolding create
open_packet xx seq ack window = create xx open_type seq ack window []

unfoldable pub data_packet : XxHash → SequenceNumber → SequenceNumber → ℕ → List ℕ → UdpPacket
unfolding create
data_packet xx seq ack window buff = create xx data_type seq ack window buff

unfoldable pub close_packet : XxHash → SequenceNumber → SequenceNumber → UdpPacket
unfolding create
close_packet xx seq ack = create xx close_type seq ack 0 []

-- `UdpPacket::len`.
abbrev pub packet_len : UdpPacket → ℕ
packet_len p = udp_packet_header_size + length p.payload

abbrev pub end_sequence_number : UdpPacket → SequenceNumber
end_sequence_number p = SeqNumber.add p.sequence_number (u32 p.length)

unfoldable pub overlaps : UdpPacket → UdpPacket → Bool
overlaps p other =
    leb p.sequence_number (end_sequence_number other)
    && leb other.sequence_number (end_sequence_number p)
