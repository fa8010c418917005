-- ===== src/Udp/Sender.antt =====
-- sender.rs: the packets that a connection creates, and the choice of the next one to send.
pub mod Stream
use tunshell.Prelude.{ℕ, List, [], ◌∷◌, Option, none, some, ◌==◌, if◌then◌else◌, length}
use tunshell.Prelude.Crates.{XxHash}
use tunshell.Udp.Packet.{UdpPacket, data_packet, open_packet, close_packet, end_sequence_number}
use tunshell.Udp.Receiver.{calculate_recv_window}
use tunshell.Udp.SeqNumber
use tunshell.Udp.State.{
  UdpConnectionVars, SendEvent, send, resend, ack_update, window_update, close,
}

abbrev pub update_sequence_number : UdpConnectionVars → UdpPacket → UdpConnectionVars
update_sequence_number con packet = record con { sequence_number = end_sequence_number packet }

-- What one pass of the inner `loop` of `wait_for_next_packet` ends with.
pub data Drained : Type 0 where
  found : UdpPacket → Drained
  closing only_updates : Drained

-- The inner `loop`: updates are dropped until something else is found or `try_recv` fails. The list
-- is what the channel holds; what is left of it is returned.
unfoldable pub drain_updates : SendEvent → List SendEvent → Drained × List SendEvent
drain_updates (send packet) queue = (found packet, queue)
drain_updates (resend packet) queue = (found packet, queue)
drain_updates close queue = (closing, queue)
drain_updates ack_update [] = (only_updates, [])
drain_updates ack_update (event ∷ queue) = drain_updates event queue
drain_updates window_update [] = (only_updates, [])
drain_updates window_update (event ∷ queue) = drain_updates event queue

-- What the wait of a tenth of the round trip ends with: the delay, an event, or the end of the
-- channel; the list is what the channel holds when it is looked at again.
pub data Late : Type 0 where
  delay_over : List SendEvent → Late
  event_received : SendEvent → List SendEvent → Late
  channel_ended : Late

-- The result of `wait_for_next_packet`, with the connection and the channel it leaves.
abbrev pub NextPacket : Type 0
NextPacket = UdpConnectionVars × Option UdpPacket × List SendEvent

module _ (xx : XxHash) where
  unfoldable pub create_data_packet : UdpConnectionVars → List ℕ → UdpConnectionVars × UdpPacket
  create_data_packet con payload =
      let sequence_number =
        if length payload == 0 then con.sequence_number else SeqNumber.add con.sequence_number 1 in
      let packet =
        data_packet xx sequence_number con.ack_number (calculate_recv_window con) payload in
      (update_sequence_number con packet, packet)

  unfoldable pub create_open_packet : UdpConnectionVars → UdpConnectionVars × UdpPacket
  create_open_packet con =
      let packet =
        open_packet xx (SeqNumber.add con.sequence_number 1) con.ack_number
          (calculate_recv_window con) in
      (update_sequence_number con packet, packet)

  unfoldable pub create_close_packet : UdpConnectionVars → UdpConnectionVars × UdpPacket
  create_close_packet con =
      let packet = close_packet xx (SeqNumber.add con.sequence_number 1) con.ack_number in
      (update_sequence_number con packet, packet)

  -- The packet of a `Close` event, and the empty one where there are only updates.
  abbrev send_close : UdpConnectionVars → List SendEvent → NextPacket
  send_close con queue = let (con', packet) = create_close_packet con in (con', some packet, queue)

  abbrev send_update : UdpConnectionVars → List SendEvent → NextPacket
  send_update con queue =
      let (con', packet) = create_data_packet con [] in (con', some packet, queue)

  -- The second round of the outer `for`, after which no wait follows.
  unfoldable pub second_round : UdpConnectionVars → Drained × List SendEvent → NextPacket
  second_round con (found packet, queue) = (con, some packet, queue)
  second_round con (closing, queue) = send_close con queue
  second_round con (only_updates, queue) = send_update con queue

  -- After a delay the event in hand is still an update.
  unfoldable pub after_wait : UdpConnectionVars → Late → NextPacket
  unfolding second_round drain_updates
  after_wait con (delay_over queue) = second_round con (drain_updates ack_update queue)
  after_wait con (event_received event queue) = second_round con (drain_updates event queue)
  after_wait con channel_ended = (con, none, [])

  unfoldable pub first_round : UdpConnectionVars → Drained × List SendEvent → Late → NextPacket
  unfolding after_wait
  first_round con (found packet, queue) late = (con, some packet, queue)
  first_round con (closing, queue) late = send_close con queue
  first_round con (only_updates, queue) late = after_wait con late

  -- `wait_for_next_packet`, from what `recv` gives first; `none` is the end of the channel.
  unfoldable pub wait_for_next_packet :
      UdpConnectionVars → Option (SendEvent × List SendEvent) → Late → NextPacket
  unfolding first_round
  wait_for_next_packet con none late = (con, none, [])
  wait_for_next_packet con (some (event, queue)) late =
      first_round con (drain_updates event queue) late
