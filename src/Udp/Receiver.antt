-- ===== src/Udp/Receiver.antt =====
-- receiver.rs: acceptance of incoming packets, reassembly of the byte stream, the receive window.
pub mod Delivery
pub mod InOrder
pub mod Window
pub mod Reassemble
pub mod Stream
use tunshell.Prelude.{
  ℕ, suc, ◌+◌, ◌-◌, ◌%◌, ◌^◌, Bool, ◌&&◌, ◌||◌, List, [], ◌∷◌, ◌++◌, Option, none, some, Outcome,
  done, ◌>>=◌, ◌>>◌, Result, ok, err, min, ltb, leb, ◌==◌, if◌then◌else◌, length, take, drop, not,
}
use tunshell.Prelude.Words.{u32}
use tunshell.Udp.Config.{UdpConnectionConfig}
use tunshell.Udp.Packet.{UdpPacket, end_sequence_number, overlaps, packet_len, max_packet_size}
use tunshell.Udp.SeqNumber
use tunshell.Udp.SeqNumber.{SequenceNumber}
use tunshell.Udp.State.{UdpConnectionVars, send_event, ack_update, window_update, wake_recv_tasks}

pub data UdpRecvError : Type 0 where
  out_of_window overlaps_other_message :
      SequenceNumber → SequenceNumber → SequenceNumber → SequenceNumber → UdpRecvError

abbrev pub recv_window_start : UdpConnectionVars → SequenceNumber
recv_window_start con = con.ack_number

abbrev pub recv_window_end : UdpConnectionVars → SequenceNumber
recv_window_end con = SeqNumber.add con.ack_number con.config.recv_window

-- `iter().find(|i| packet.overlaps(i))`.
unfoldable pub find_overlap : UdpPacket → List UdpPacket → Option UdpPacket
find_overlap packet [] = none
find_overlap packet (i ∷ rest) = if overlaps packet i then some i else find_overlap packet rest

-- `iter().take_while(|i| i.sequence_number < packet.sequence_number).count()`.
unfoldable pub insert_position : UdpPacket → List UdpPacket → ℕ
insert_position packet [] = 0
insert_position packet (i ∷ rest) =
    if SeqNumber.lt i.sequence_number packet.sequence_number
    then suc (insert_position packet rest)
    else 0

-- `Vec::insert`.
abbrev pub insert_at {ℓ} : {A : Type ℓ} → ℕ → A → List A → List A
insert_at i x xs = take i xs ++ (x ∷ drop i xs)

-- The variables of the loop of `recv_reassemble_packets`.
pub record Reassembly : Type 0 where
  pub reassembled_packets : ℕ
  pub reassembled_bytes : ℕ
  pub advanced_sequence_numbers : ℕ
  pub reassembled_buffer : List ℕ
  pub ack_number : SequenceNumber

-- The body of the loop after the `break`.
abbrev pub reassemble_packet : UdpPacket → Reassembly → Reassembly
reassemble_packet packet r = record {
  reassembled_packets = r.reassembled_packets + 1;
  reassembled_bytes = r.reassembled_bytes + length packet.payload;
  advanced_sequence_numbers =
      u32 (r.advanced_sequence_numbers + u32 (1 + u32 (length packet.payload)));
  reassembled_buffer = r.reassembled_buffer ++ packet.payload;
  ack_number = end_sequence_number packet;
}

unfoldable pub reassemble_loop : List UdpPacket → Reassembly → Reassembly
reassemble_loop [] r = r
reassemble_loop (packet ∷ packets) r =
    let next = reassemble_loop packets (reassemble_packet packet r) in
    if SeqNumber.add r.ack_number 1 == packet.sequence_number then next else r

abbrev pub reassembly_of : UdpConnectionVars → Reassembly
reassembly_of con = record {
  reassembled_packets = 0;
  reassembled_bytes = 0;
  advanced_sequence_numbers = 0;
  reassembled_buffer = con.reassembled_buffer;
  ack_number = con.ack_number;
}

-- The variables after the loop and `recv_packets.drain(..reassembled_packets)`.
abbrev pub store_reassembly : UdpConnectionVars → Reassembly → UdpConnectionVars
store_reassembly con r = record con {
  ack_number = r.ack_number;
  reassembled_buffer = r.reassembled_buffer;
  recv_packets = drop r.reassembled_packets con.recv_packets;
}

unfoldable pub recv_reassemble_packets : UdpConnectionVars → Outcome (UdpConnectionVars × ℕ)
recv_reassemble_packets con =
    let r = reassemble_loop con.recv_packets (reassembly_of con) in
    let stored = store_reassembly con r in
    if ltb 0 r.reassembled_bytes
    then (do
      con' ← send_event (wake_recv_tasks stored) ack_update
      done (con', r.advanced_sequence_numbers))
    else done (stored, r.advanced_sequence_numbers)

-- The part of `recv_process_packet` that runs once the packet is accepted.
unfoldable pub recv_insert_packet :
    UdpConnectionVars → UdpPacket → Outcome (UdpConnectionVars × Result ℕ UdpRecvError)
recv_insert_packet con packet = do
  let at = insert_position packet con.recv_packets
  (con', advanced) ←
      recv_reassemble_packets (record con { recv_packets = insert_at at packet con.recv_packets })
  done (con', ok advanced)

unfoldable pub recv_process_packet :
    UdpConnectionVars → UdpPacket → Outcome (UdpConnectionVars × Result ℕ UdpRecvError)
recv_process_packet con packet =
    if length packet.payload == 0
    then done (con, ok 0)
    else if SeqNumber.le packet.sequence_number (recv_window_start con)
        || SeqNumber.gt (end_sequence_number packet) (recv_window_end con)
    then done (
      con,
      err (
          out_of_window packet.sequence_number (end_sequence_number packet) (recv_window_start con)
            (recv_window_end con)),
    )
    else elim (find_overlap packet con.recv_packets) [
      | some other ↦ done (
        con,
        err (
            overlaps_other_message packet.sequence_number (end_sequence_number packet)
              other.sequence_number (end_sequence_number other)),
      )
      | none ↦ recv_insert_packet con packet
    ]

abbrev pub recv_available_bytes : UdpConnectionVars → ℕ
recv_available_bytes con = length con.reassembled_buffer

-- `iter().map(|i| i.len() as u32).sum::<u32>()`.
unfoldable pub packet_bytes : List UdpPacket → ℕ
packet_bytes [] = 0
packet_bytes (i ∷ rest) = u32 (u32 (packet_len i) + packet_bytes rest)

unfoldable pub calculate_recv_window : UdpConnectionVars → ℕ
calculate_recv_window con =
    let buffered_packet_bytes =
      u32 (packet_bytes con.recv_packets + u32 (length con.reassembled_buffer)) in
    let recv_window = con.config.recv_window in
    if ltb recv_window buffered_packet_bytes then 0 else recv_window - buffered_packet_bytes

unfoldable pub recv_drain_bytes : UdpConnectionVars → ℕ → Outcome (UdpConnectionVars × List ℕ)
recv_drain_bytes con len =
    let original_window = calculate_recv_window con in
    let bytes = min (recv_available_bytes con) len in
    let drained = take bytes con.reassembled_buffer in
    let con' = record con { reassembled_buffer = drop bytes con.reassembled_buffer } in
    let new_window = calculate_recv_window con' in
    if ltb original_window max_packet_size && leb max_packet_size new_window
    then (do con'' ← send_event con' window_update; done (con'', drained))
    else done (con', drained)
