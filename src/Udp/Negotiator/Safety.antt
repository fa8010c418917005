-- ===== src/Udp/Negotiator/Safety.antt =====
-- What a negotiation leaves behind: the state, the configuration, and where it panics.
use tunshell.Prelude.{
  ◌||◌, ℕ, ◌≡◌, ◌<◌, refl, Bool, true, false, ◌&&◌, Bool-cases, inl, inr, List, [], ◌∷◌, ◌++◌, done,
  panic, Outcome-cases, Returns, Result, ok, err, ltb, ◌==◌, length, take, arith, All, ◌∙◌,
}
use tunshell.Prelude.Crates.{ByteOrder, XxHash}
use tunshell.Udp.Config.{SocketAddr}
use tunshell.Udp.Negotiator.{
  magic_hello, bytes_eq, NegotiateError, not_connected, hello_not_sent, Attempt, ◌>>?◌, HelloEvent,
  hello_datagram, hello_failed, hello_timeout, SyncEvent, sync_datagram, sync_failed, Network,
  check_sent, wait_for_magic_hello, send_sync_packet, accept_sync, wait_for_sync_packet,
  exchange_syncs, negotiate_connection,
}
use tunshell.Udp.Packet.{parse}
use tunshell.Udp.Packet.Decode.{parse-ne-panic}
use tunshell.Udp.Sender.{create_open_packet}
use tunshell.Udp.State.{
  UdpConnectionVars, state_eq, new, sent_hello, sent_sync, waiting_for_sync, set_state_sent_hello,
  set_state_sent_sync, set_state_waiting_for_sync,
}

-- The datagram is not a hello with something behind it.
abbrev pub NotMerged : SyncEvent → Type 0
NotMerged sync_failed = Unit {0}
NotMerged (sync_datagram bytes) =
    (ltb (length magic_hello) (length bytes)
      && bytes_eq (take (length magic_hello) bytes) magic_hello)
    ≡ false

-- A call that leaves the state and the configuration as they were.
abbrev pub Keeps :
    UdpConnectionVars → {A : Type 0} → UdpConnectionVars × Result A NegotiateError → Type 0
Keeps con out = (out.0.state ≡ con.state) × (out.0.config ≡ con.config)

>>?-Returns :
    {A B : Type 0} (P : UdpConnectionVars × Result A NegotiateError → Type 0)
    (Q : UdpConnectionVars × Result B NegotiateError → Type 0) (m : Attempt A)
    (k : UdpConnectionVars → A → Attempt B)
    → Returns P m
    → ((con : UdpConnectionVars) (e : NegotiateError) → P (con, err e) → Q (con, err e))
    → ((con : UdpConnectionVars) (a : A) → P (con, ok a) → Returns Q (k con a))
    → Returns Q (m >>? k)
>>?-Returns P Q (done (con, ok a)) k h he hk = hk con a h
>>?-Returns P Q (done (con, err e)) k h he hk = he con e h
>>?-Returns P Q panic k h he hk = elim h [ ]

check_sent-Keeps :
    (sent : Bool) (e : NegotiateError) (con : UdpConnectionVars)
    → Returns (Keeps con) (check_sent sent e con)
check_sent-Keeps true e con = (refl, refl)
check_sent-Keeps false e con = (refl, refl)

wait_for_magic_hello-Keeps :
    (event : HelloEvent) (peer_ip : List ℕ) (con : UdpConnectionVars)
    → Returns (Keeps con) (wait_for_magic_hello event peer_ip con)
unfolding wait_for_magic_hello
wait_for_magic_hello-Keeps hello_failed peer_ip con = (refl, refl)
wait_for_magic_hello-Keeps hello_timeout peer_ip con = (refl, refl)
wait_for_magic_hello-Keeps (hello_datagram bytes from_addr) peer_ip con = ground arith

module _ (bo : ByteOrder) (xx : XxHash) where
  send_sync_packet-Keeps :
      (net : Network) (con : UdpConnectionVars)
      → Returns (Keeps con) (send_sync_packet bo xx net con)
  unfolding send_sync_packet create_open_packet
  send_sync_packet-Keeps net con = ground arith

  accept_sync-Keeps :
      (bytes : List ℕ) (con : UdpConnectionVars) → Returns (Keeps con) (accept_sync bo xx bytes con)
  unfolding accept_sync
  accept_sync-Keeps bytes con = elim (Outcome-cases (parse bo bytes)) [
    | inr e ↦ absurd (parse-ne-panic bo bytes e)
    | inl (ok p, e) ↦ rw e (ground arith)
    | inl (err x, e) ↦ rw e (refl, refl)
  ]

  wait_for_sync_packet-Keeps :
      (syncs : List SyncEvent) (con : UdpConnectionVars)
      → All NotMerged syncs
      → Returns (Keeps con) (wait_for_sync_packet bo xx syncs con)
  unfolding wait_for_sync_packet
  wait_for_sync_packet-Keeps [] con h = (refl, refl)
  wait_for_sync_packet-Keeps (sync_failed ∷ syncs) con h = (refl, refl)
  wait_for_sync_packet-Keeps (sync_datagram bytes ∷ syncs) con h =
      elim (Bool-cases ((length bytes == length magic_hello) && bytes_eq bytes magic_hello)) [
        | inl hello ↦ rw hello (wait_for_sync_packet-Keeps syncs con h.1)
        | inr other ↦ rw (other, h.0) (accept_sync-Keeps bytes con)
      ]

  -- Where the sync was exchanged the connection can be set connected, and where not it can be set
  -- failed.
  abbrev pub Exchanged :
      UdpConnectionVars → {A : Type 0} → UdpConnectionVars × Result A NegotiateError → Type 0
  Exchanged con (d, ok a) =
      (state_eq d.state sent_sync || state_eq d.state waiting_for_sync ≡ true)
      × (d.config ≡ con.config)
  Exchanged con (d, err e) =
      (state_eq d.state sent_hello
          || (state_eq d.state sent_sync || state_eq d.state waiting_for_sync)
        ≡ true)
      × (d.config ≡ con.config)

  exchange_syncs-Exchanged :
      (master_side : Bool) (net : Network) (con : UdpConnectionVars)
      → con.state ≡ sent_hello
      → All NotMerged net.syncs
      → Returns (Exchanged con) (exchange_syncs bo xx master_side net con)
  unfolding exchange_syncs set_state_sent_sync set_state_waiting_for_sync
  exchange_syncs-Exchanged true net con start h =
      >>?-Returns (Keeps con) (Exchanged con) (send_sync_packet bo xx net con) _
        (send_sync_packet-Keeps net con) (λ d e k. ground arith)
        (λ d sync k.
          rw (k.0, start)
            (>>?-Returns (Keeps (record d { state = sent_sync })) (Exchanged con)
              (wait_for_sync_packet bo xx net.syncs (record d { state = sent_sync })) _
              (wait_for_sync_packet-Keeps net.syncs (record d { state = sent_sync }) h)
              (λ c e l. ground arith) (λ c u l. ground arith)))
  exchange_syncs-Exchanged false net con start h =
      let w : UdpConnectionVars = record con { state = waiting_for_sync } in
      rw start (
        >>?-Returns (Keeps w) (Exchanged con) (wait_for_sync_packet bo xx net.syncs w) _
          (wait_for_sync_packet-Keeps net.syncs w h) (λ c e l. ground arith)
          (λ c u l.
            >>?-Returns (Keeps c) (Exchanged con) (send_sync_packet bo xx net c) _
              (send_sync_packet-Keeps net c) (λ d e k. ground arith) (λ d sync k. ground arith)))

  abbrev pub Settled :
      Bool → UdpConnectionVars → {A : Type 0} → UdpConnectionVars × Result A NegotiateError → Type 0
  Settled first_hello_sent con (d, ok a) =
      (state_eq d.state sent_sync || state_eq d.state waiting_for_sync ≡ true)
      × (d.config ≡ con.config)
  Settled first_hello_sent con (d, err e) =
      (state_eq d.state sent_hello
          || (state_eq d.state sent_sync || state_eq d.state waiting_for_sync)
        ≡ first_hello_sent)
      × (d.config ≡ con.config)

  after_first_hello :
      (peer_ip : List ℕ) (master_side : Bool) (net : Network) (con c : UdpConnectionVars)
      → c.state ≡ sent_hello
      → c.config ≡ con.config
      → All NotMerged net.syncs
      → Returns (Settled true con {A = SocketAddr × List ℕ}) (
          wait_for_magic_hello net.hello peer_ip c >>? λ con3 peer_addr.
          (check_sent net.socket_connected not_connected con3 >>? λ con4 v.
          (check_sent net.second_hello_sent hello_not_sent con4 >>? λ con5 w.
          (exchange_syncs bo xx master_side net con5 >>? λ con6 sync.
          done (con6, ok (peer_addr, sync))))))
  after_first_hello peer_ip master_side net con c start same h =
      >>?-Returns (Keeps c) (Settled true con {A = SocketAddr × List ℕ})
        (wait_for_magic_hello net.hello peer_ip c) _
        (wait_for_magic_hello-Keeps net.hello peer_ip c) (λ d e k. ground arith)
        (λ c3 a k3.
          >>?-Returns (Keeps c3) (Settled true con {A = SocketAddr × List ℕ})
            (check_sent net.socket_connected _ c3) _ (check_sent-Keeps net.socket_connected _ c3)
            (λ d e k. ground arith)
            (λ c4 v k4.
              >>?-Returns (Keeps c4) (Settled true con {A = SocketAddr × List ℕ})
                (check_sent net.second_hello_sent _ c4) _
                (check_sent-Keeps net.second_hello_sent _ c4) (λ d e k. ground arith)
                (λ c5 w k5.
                  >>?-Returns (Exchanged c5) (Settled true con {A = SocketAddr × List ℕ})
                    (exchange_syncs bo xx master_side net c5) _
                    (exchange_syncs-Exchanged master_side net c5 (k5.0 ∙ k4.0 ∙ k3.0 ∙ start) h)
                    (λ d e k. (k.0, k.1 ∙ k5.1 ∙ k4.1 ∙ k3.1 ∙ same))
                    (λ d sync k. (k.0, k.1 ∙ k5.1 ∙ k4.1 ∙ k3.1 ∙ same)))))

  -- A negotiation from the state `New` in which no datagram after the first hello is a hello with
  -- something behind it does not panic. It keeps the configuration. Where it succeeds the
  -- connection can be set connected; where it fails it can be set failed exactly if the first hello
  -- was sent.
  pub negotiate_connection-Settled :
      (peer_ip : List ℕ) (master_side : Bool) (net : Network) (con : UdpConnectionVars)
      → con.state ≡ new
      → All NotMerged net.syncs
      → Returns
          (Settled net.first_hello_sent con {A = SocketAddr × List ℕ})
          (negotiate_connection bo xx peer_ip master_side net con)
  unfolding negotiate_connection set_state_sent_hello
  negotiate_connection-Settled peer_ip master_side net con start h =
      elim (Bool-cases net.first_hello_sent) [
        | inl sent ↦
            simp (start, sent)
              (after_first_hello peer_ip master_side net con (record con { state = sent_hello })
                refl refl h)
        | inr unsent ↦ simp (start, unsent) (refl, refl)
      ]

  -- A sync that arrives behind a hello, in one datagram, with fewer bytes than a hello has, as
  -- every sync packet has, makes the wait for it panic.
  pub wait_for_sync_packet-merged :
      (sync : List ℕ) (syncs : List SyncEvent) (con : UdpConnectionVars)
      → 0 < length sync
      → length sync < length magic_hello
      → wait_for_sync_packet bo xx (sync_datagram (magic_hello ++ sync) ∷ syncs) con ≡ panic
  unfolding wait_for_sync_packet bytes_eq
  wait_for_sync_packet-merged sync syncs con some few = ground arith
