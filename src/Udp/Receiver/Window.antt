-- ===== src/Udp/Receiver/Window.antt =====
-- The receive window: what is advertised to the peer, and when a drain reports that it has grown.
use tunshell.Prelude.{
  ℕ, ◌+◌, ◌-◌, ◌^◌, ◌<◌, ◌≡◌, refl, ◌&&◌, Bool-cases, inl, inr, Option, List, [], ◌∷◌, ◌++◌, some,
  done, err, arith, length as list_length, min, ltb, leb, if◌then◌else◌, Returns, drop,
  take-append-drop, length-take,
}
use tunshell.Udp.Packet.{UdpPacket, packet_len, max_packet_size}
use tunshell.Udp.State.{UdpConnectionVars, SendEvent, window_update}
use tunshell.Udp.State.Events.{send_event_lem}
use tunshell.Udp.Receiver.{
  UdpRecvError, recv_process_packet, recv_insert_packet, packet_bytes, calculate_recv_window,
  recv_drain_bytes, recv_available_bytes,
}

-- The bytes that a connection holds for its reader, headers of waiting packets included, before any
-- wrapping.
abbrev pub waiting_bytes : List UdpPacket → ℕ
waiting_bytes [] = 0
waiting_bytes (p ∷ ps) = packet_len p + waiting_bytes ps

abbrev pub stored_bytes : UdpConnectionVars → ℕ
stored_bytes con = waiting_bytes con.recv_packets + list_length con.reassembled_buffer

packet_bytes_lem :
    (ps : List UdpPacket) → waiting_bytes ps < 2 ^ 32 → packet_bytes ps ≡ waiting_bytes ps
unfolding packet_bytes
packet_bytes_lem [] h = refl
packet_bytes_lem (p ∷ ps) h = omega (arith, packet_bytes_lem ps (omega arith))

-- As long as less than 4 GiB is stored, the advertised window is the configured one less all that
-- is stored, and 0 when more than that is stored.
pub calculate_recv_window_lem :
    (con : UdpConnectionVars)
    → stored_bytes con < 2 ^ 32
    → calculate_recv_window con ≡ con.config.recv_window - stored_bytes con
unfolding calculate_recv_window
calculate_recv_window_lem con h = ground (arith, packet_bytes_lem con.recv_packets (omega arith))

same_window :
    (con : UdpConnectionVars) (o : Option (List SendEvent))
    → calculate_recv_window (record con { event_sender = o }) ≡ calculate_recv_window con
unfolding calculate_recv_window
same_window con o = refl

-- On a connection with its channel, a drain hands out the oldest bytes, as many as are asked for
-- and there, keeps the rest in order, and sends a window update exactly if the window has grown to
-- hold a packet that it did not hold.
pub recv_drain_bytes_lem :
    (con : UdpConnectionVars) (len : ℕ) (channel : List SendEvent)
    → con.event_sender ≡ some channel
    → Returns
        (λ (out : UdpConnectionVars × List ℕ).
          (out.1 ++ out.0.reassembled_buffer ≡ con.reassembled_buffer)
          × (list_length out.1 ≡ min len (list_length con.reassembled_buffer))
          × (out.0.recv_packets ≡ con.recv_packets)
          × (out.0.event_sender
              ≡ some (
                  if ltb (calculate_recv_window con) max_packet_size
                    && leb max_packet_size (calculate_recv_window out.0)
                  then channel ++ (window_update ∷ [])
                  else channel)))
        (recv_drain_bytes con len)
unfolding recv_drain_bytes
recv_drain_bytes_lem con len channel h =
    let n = min (recv_available_bytes con) len in
    let con' : UdpConnectionVars = record con {
      reassembled_buffer = drop n con.reassembled_buffer;
    } in
    elim (Bool-cases (
      ltb (calculate_recv_window con) max_packet_size
      && leb max_packet_size (calculate_recv_window con'))) [
        | inr quiet ↦
            rw (quiet, quiet)
              (
                take-append-drop n con.reassembled_buffer,
                omega (arith, length-take n con.reassembled_buffer),
                refl,
                h,
              )
        | inl grown ↦
            rw (grown, send_event_lem con' window_update channel h)
              (
                take-append-drop n con.reassembled_buffer,
                omega (arith, length-take n con.reassembled_buffer),
                refl,
                rw (same_window con' (some (channel ++ (window_update ∷ []))), grown),
              )
      ]

-- A refused packet leaves every variable of the connection as it was.
pub recv_process_packet-err :
    (con con' : UdpConnectionVars) (p : UdpPacket) (e : UdpRecvError)
    → recv_process_packet con p ≡ done (con', err e)
    → con' ≡ con
unfolding recv_process_packet recv_insert_packet
recv_process_packet-err con con' p e h = ground arith
