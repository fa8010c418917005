-- ===== src/Udp/Connection/Calls.antt =====
-- What the calls of a connection's owner lead to.
use tunshell.Prelude.{
  Waker, subst, lt→ltb, ℕ, ◌≡◌, ◌<◌, ◌⊎◌, refl, Bool, true, false, inl, inr, List, [], ◌∷◌, ◌++◌,
  Option, none, some, done, panic, Returns, Returns->>=, Result, ok, err, ready, pending, ◌==◌,
  if◌then◌else◌, take, min, arith, All, Bool-cases, length-take, length as list_length,
}
use tunshell.Prelude.Crates.{ByteOrder, XxHash}
use tunshell.Udp.Config.{UdpConnectionConfig, SocketAddr}
use tunshell.Udp.Congestion.{is_congested}
use tunshell.Udp.Connection.{
  State, new, bound, disconnected, running, disconnecting, ConnectError, is_connected,
  finish_connect, do_connect, connect, poll_write, write_connected, send_on, poll_shutdown,
}
use tunshell.Udp.Negotiator.{NegotiateError, Network, negotiate_connection}
use tunshell.Udp.Negotiator.Safety.{NotMerged, Settled, negotiate_connection-Settled}
use tunshell.Udp.SeqNumber
use tunshell.Udp.Packet.{end_sequence_number, UdpPacket, data_packet, data_type}
use tunshell.Udp.Packet.Create.{create_lem, max_payload}
use tunshell.Udp.Receiver.{calculate_recv_window}
use tunshell.Udp.Sender.{create_data_packet}
use tunshell.Udp.State.{
  UdpConnectionVars, SendEvent, send, close, new_vars, set_state_connected,
  set_state_connect_failed, is_connected as vars_connected,
}
use tunshell.Udp.State.Events.{send_event_lem}

module _ (bo : ByteOrder) (xx : XxHash) where
  -- Either the connection runs and is connected, with an empty channel, or it is new again, with
  -- its configuration.
  abbrev pub ConnectedOrNew : UdpConnectionConfig → State × Result (Unit {0}) ConnectError → Type 0
  ConnectedOrNew config (state, ok u) =
      (con : UdpConnectionVars) × (state ≡ running con)
      × (is_connected state ≡ true)
      × (con.config ≡ config)
      × (con.event_sender ≡ some [])
  ConnectedOrNew config (state, err e) = state ≡ new config

  finish_connect_lem :
      (config : UdpConnectionConfig)
      (out : UdpConnectionVars × Result (SocketAddr × List ℕ) NegotiateError)
      → Settled bo xx true (new_vars config) {A = SocketAddr × List ℕ} out
      → Returns (ConnectedOrNew config) (finish_connect bo xx out)
  unfolding finish_connect set_state_connected set_state_connect_failed is_connected vars_connected
  finish_connect_lem config (con, ok a) h = ground arith
  finish_connect_lem config (con, err e) h = ground arith

  do_connect_lem :
      (ip : List ℕ) (master_side : Bool) (net : Network) (config : UdpConnectionConfig)
      → net.first_hello_sent ≡ true
      → All NotMerged net.syncs
      → Returns (ConnectedOrNew config) (do_connect bo xx ip master_side net config)
  unfolding do_connect
  do_connect_lem ip master_side net config sent h =
      Returns->>= (Settled bo xx true (new_vars config) {A = SocketAddr × List ℕ})
        (ConnectedOrNew config) (negotiate_connection bo xx ip master_side net (new_vars config))
        (finish_connect bo xx)
        (subst
          (λ b.
            Returns (Settled bo xx b (new_vars config) {A = SocketAddr × List ℕ})
              (negotiate_connection bo xx ip master_side net (new_vars config)))
          sent (negotiate_connection-Settled bo xx ip master_side net (new_vars config) refl h))
        (finish_connect_lem config)

  -- A new or bound connection whose first hello can be sent, and which meets no hello with
  -- something behind it, is after `connect` connected with an empty channel, or new again with the
  -- configuration that it had, so that it can be tried again.
  pub connect_lem :
      (state : State) (config : UdpConnectionConfig) (port : Option ℕ) (ip : List ℕ)
      (master_side : Bool) (net : Network)
      → (state ≡ new config) ⊎ (state ≡ bound config)
      → net.first_hello_sent ≡ true
      → All NotMerged net.syncs
      → Returns (ConnectedOrNew config) (connect bo xx state port ip master_side net)
  unfolding connect
  connect_lem state config (some port) ip master_side net (inl e) sent h =
      rw e (do_connect_lem ip master_side net config sent h)
  connect_lem state config none ip master_side net (inl e) sent h = rw e refl
  connect_lem state config port ip master_side net (inr e) sent h =
      rw e (do_connect_lem ip master_side net config sent h)

  -- Where the first hello of a bound connection cannot be sent, `connect` panics.
  pub connect-unsent :
      (config : UdpConnectionConfig) (port : Option ℕ) (ip : List ℕ) (master_side : Bool)
      (net : Network)
      → net.first_hello_sent ≡ false
      → connect bo xx (bound config) port ip master_side net ≡ panic
  unfolding connect do_connect negotiate_connection finish_connect set_state_connect_failed
  connect-unsent config port ip master_side net unsent = simp unsent

-- The packet of a write.
written_packet :
    (xx : XxHash) (con : UdpConnectionVars) (buff : List ℕ)
    → 0 < list_length buff
    → let (con', p) = create_data_packet xx con buff in
      (p.payload ≡ take max_payload buff)
      × (p.sequence_number ≡ SeqNumber.add con.sequence_number 1)
      × (con' ≡ record con { sequence_number = end_sequence_number p })
unfolding create_data_packet data_packet
written_packet xx con buff h =
    let made =
      create_lem xx data_type
        (if list_length buff == 0 then con.sequence_number else SeqNumber.add con.sequence_number 1)
        con.ack_number (calculate_recv_window con) buff in
    (made.0, ground arith, refl)

-- A write of at least one byte to a connected connection whose channel is received: if the
-- connection is congested, nothing is sent, and the writer's waker is registered, behind the others,
-- for the next sequence number, and the write is pending; otherwise one packet with the next
-- number and the first bytes goes to the channel, as many bytes as a packet holds, and their number
-- is reported.
pub poll_write_lem :
    (xx : XxHash) (con : UdpConnectionVars) (waker : Waker) (buff : List ℕ)
    (channel : List SendEvent)
    → vars_connected con ≡ true
    → con.event_sender ≡ some channel
    → 0 < list_length buff
    → ((is_congested con ≡ true)
        × (poll_write xx true (running con) waker buff
            ≡ done (
              running (record con {
                window_wakers =
                    con.window_wakers ++ ((waker, SeqNumber.add con.sequence_number 1) ∷ []);
              }),
              pending,
            )))
      ⊎ ((is_congested con ≡ false)
          × ((p : UdpPacket) × (p.payload ≡ take max_payload buff)
              × (p.sequence_number ≡ SeqNumber.add con.sequence_number 1)
              × (poll_write xx true (running con) waker buff
                  ≡ done (
                    running (record con {
                      sequence_number = end_sequence_number p;
                      event_sender = some (channel ++ (send p ∷ []));
                    }),
                    ready (ok (min max_payload (list_length buff))),
                  ))))
unfolding poll_write write_connected send_on
poll_write_lem xx con waker buff channel up ch h = elim (Bool-cases (is_congested con)) [
  | inl full ↦ inl (full, rw (lt→ltb 0 (list_length buff) h, up, full) refl)
  | inr room ↦
      (let made = written_packet xx con buff h in
        let p = (create_data_packet xx con buff).1 in
        inr (
          room,
          (
            p,
            made.0,
            made.1,
            rw
                (
                  lt→ltb 0 (list_length buff) h,
                  up,
                  room,
                  made.2,
                  send_event_lem (record con { sequence_number = end_sequence_number p }) (send p)
                      channel ch,
                  made.0,
                  length-take max_payload buff,
                )
                refl,
          ),
        ))
]

-- On a connected connection whose channel is received, the second poll of a shutdown reports its
-- end although nothing has happened since the first: the close event is still in the channel and
-- the connection's variables are still connected.
pub poll_shutdown-early :
    (con : UdpConnectionVars) (waker waker' : Waker) (channel : List SendEvent)
    → vars_connected con ≡ true
    → con.event_sender ≡ some channel
    → (d : UdpConnectionVars) × (poll_shutdown true (running con) waker
        ≡ done (disconnecting d, pending))
      × (d.event_sender ≡ some (channel ++ (close ∷ [])))
      × (vars_connected d ≡ true)
      × (poll_shutdown true (disconnecting d) waker' ≡ done (disconnected, ready (ok tt)))
unfolding poll_shutdown send_on vars_connected
poll_shutdown-early con waker waker' channel up ch = (
  record con {
    event_sender = some (channel ++ (close ∷ []));
    close_wakers = con.close_wakers ++ (waker ∷ []);
  },
  rw (send_event_lem con close channel ch) refl,
  refl,
  up,
  refl,
)
