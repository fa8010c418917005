-- ===== src/Udp/Receiver/Delivery.antt =====
-- A whole run of the receiver: packets of one stream arrive in any order, any number of times or
-- never, and the reader takes bytes in between.
use tunshell.Prelude.{
  ℕ, ◌+◌, ◌^◌, ◌<◌, ◌≡◌, refl, sym, true, subst, List, [], ◌∷◌, ◌++◌, Outcome, done, Result, ◌>>=◌,
  Returns, Returns->>=, Returns-map, ◌∙◌, append_assoc, take, drop, take-append-drop, min, All,
  Bool-cases, inl, inr, ltb, leb, ◌&&◌, ap,
}
use tunshell.Prelude.Words.{u32}
use tunshell.Udp.Packet.{UdpPacket, max_packet_size}
use tunshell.Udp.State.{UdpConnectionVars, send_event, window_update}
use tunshell.Udp.State.Events.{send_event-Returns}
use tunshell.Udp.State.Machine.{has_channel}
use tunshell.Udp.Receiver.{
  UdpRecvError, recv_process_packet, recv_drain_bytes, recv_available_bytes, calculate_recv_window,
}
use tunshell.Udp.Receiver.Stream.{Segments, end_position, Carries, HasPrefix}
use tunshell.Udp.Receiver.Reassemble.{Receives, recv_process_packet-Receives}

-- What happens to a receiver: a packet arrives, or the reader asks for some bytes.
pub data RecvOp : Type 0 where
  arrive : UdpPacket → RecvOp
  read : ℕ → RecvOp

-- The calls that the operations make, in order, with the bytes that the reader has had so far.
unfoldable pub run_receiver :
    UdpConnectionVars → List ℕ → List RecvOp → Outcome (UdpConnectionVars × List ℕ)
run_receiver con taken [] = done (con, taken)
run_receiver con taken (arrive p ∷ ops) = do
  (con', result) ← recv_process_packet con p
  run_receiver con' taken ops
run_receiver con taken (read len ∷ ops) = do
  (con', drained) ← recv_drain_bytes con len
  run_receiver con' (taken ++ drained) ops

module _ (base : ℕ) (segments : Segments) (short : end_position base segments < base + 2 ^ 32) where
  abbrev pub CarriesOp : RecvOp → Type 0
  CarriesOp (arrive p) = Carries base segments p
  CarriesOp (read len) = Unit {0}

  drained-Receives :
      (taken : List ℕ) (con : UdpConnectionVars) (n : ℕ)
      → Receives base segments short taken con
      → Receives base segments short
          (taken ++ take n con.reassembled_buffer)
          (record con { reassembled_buffer = drop n con.reassembled_buffer })
  drained-Receives taken con n h = record {
    delivered =
        subst (HasPrefix base segments con.ack_number)
          (ap (◌++◌ taken) (sym (take-append-drop n con.reassembled_buffer))
            ∙ sym (
                append_assoc taken (take n con.reassembled_buffer) (drop n con.reassembled_buffer)))
          h.delivered;
    waiting = h.waiting;
    channel = h.channel;
  }

  recv_drain_bytes-Receives :
      (taken : List ℕ) (con : UdpConnectionVars) (len : ℕ)
      → Receives base segments short taken con
      → Returns
          (λ (out : UdpConnectionVars × List ℕ).
            Receives base segments short (taken ++ out.1) out.0)
          (recv_drain_bytes con len)
  unfolding recv_drain_bytes
  recv_drain_bytes-Receives taken con len h =
      let n = min (recv_available_bytes con) len in
      let con' : UdpConnectionVars = record con {
        reassembled_buffer = drop n con.reassembled_buffer;
      } in
      let h' = drained-Receives taken con n h in
      elim (Bool-cases (
        ltb (calculate_recv_window con) max_packet_size
        && leb max_packet_size (calculate_recv_window con'))) [
          | inr quiet ↦ rw quiet h'
          | inl grown ↦ rw grown (
              Returns->>= (Receives base segments short (taken ++ take n con.reassembled_buffer))
                (λ (out : UdpConnectionVars × List ℕ).
                  Receives base segments short (taken ++ out.1) out.0)
                (send_event con' window_update) (λ c. done (c, take n con.reassembled_buffer))
                (send_event-Returns
                  (Receives base segments short (taken ++ take n con.reassembled_buffer)) con'
                  window_update h.channel
                  (λ ch. record { delivered = h'.delivered; waiting = h'.waiting; channel = refl }))
                (λ c hc. hc))
        ]

  run_receiver-Receives :
      (taken : List ℕ) (con : UdpConnectionVars) (ops : List RecvOp)
      → Receives base segments short taken con
      → All CarriesOp ops
      → Returns
          (λ (out : UdpConnectionVars × List ℕ). Receives base segments short out.1 out.0)
          (run_receiver con taken ops)
  unfolding run_receiver
  run_receiver-Receives taken con [] h c = h
  run_receiver-Receives taken con (arrive p ∷ ops) h c =
      Returns->>=
        (λ (out : UdpConnectionVars × Result ℕ UdpRecvError).
          Receives base segments short taken out.0)
        (λ (out : UdpConnectionVars × List ℕ). Receives base segments short out.1 out.0)
        (recv_process_packet con p) (λ out. run_receiver out.0 taken ops)
        (recv_process_packet-Receives base segments short taken con p h c.0)
        (λ out h'. run_receiver-Receives taken out.0 ops h' c.1)
  run_receiver-Receives taken con (read len ∷ ops) h c =
      Returns->>=
        (λ (out : UdpConnectionVars × List ℕ). Receives base segments short (taken ++ out.1) out.0)
        (λ (out : UdpConnectionVars × List ℕ). Receives base segments short out.1 out.0)
        (recv_drain_bytes con len) (λ out. run_receiver out.0 (taken ++ out.1) ops)
        (recv_drain_bytes-Receives taken con len h)
        (λ out h'. run_receiver-Receives (taken ++ out.1) out.0 ops h' c.1)

  -- A connected receiver that has acknowledged `base` and holds nothing, given packets of a stream
  -- shorter than the sequence space in any order, any number of times, with reads in between: it
  -- never panics, and the bytes that the reader has had, followed by those in the buffer, are
  -- always the segments of the stream up to the acknowledged position.
  pub run_receiver-HasPrefix :
      (con : UdpConnectionVars) (ops : List RecvOp)
      → con.ack_number ≡ u32 base
      → con.recv_packets ≡ []
      → con.reassembled_buffer ≡ []
      → has_channel con ≡ true
      → All CarriesOp ops
      → Returns
          (λ (out : UdpConnectionVars × List ℕ).
            HasPrefix base segments out.0.ack_number (out.1 ++ out.0.reassembled_buffer))
          (run_receiver con [] ops)
  run_receiver-HasPrefix con ops ha hp hb hc c =
      Returns-map (λ (out : UdpConnectionVars × List ℕ). Receives base segments short out.1 out.0)
        (λ (out : UdpConnectionVars × List ℕ).
          HasPrefix base segments out.0.ack_number (out.1 ++ out.0.reassembled_buffer))
        (run_receiver con [] ops) (λ out h. h.delivered) (run_receiver-Receives [] con ops start c)
    where
      start : Receives base segments short [] con
      start = record {
        delivered = record {
          before = [];
          after = segments;
          cut = refl;
          position = ha;
          received = hb;
        };
        waiting = rw hp tt;
        channel = hc;
      }
