-- ===== src/Udp/Congestion/Waiters.antt =====
-- The tasks that wait for the window: who is woken, and that nobody is forgotten.
use tunshell.Prelude.{
  Waker, ℕ, ◌/◌, ◌<◌, ◌≡◌, refl, not, List, [], ◌∷◌, ◌++◌, map, keep_if, ap, All, Bool-cases, inl,
  inr, min, ltb, leb, arith,
}
use tunshell.Prelude.Words.{IsU32, u32_max}
use tunshell.Udp.SeqNumber
use tunshell.Udp.SeqNumber.Order.{lt-add_window}
use tunshell.Udp.State.{UdpConnectionVars}
use tunshell.Udp.Congestion.{is_ready, wake_pending_send_events}

-- Tasks that wait for numbers, given by how far these are beyond a base.
abbrev pub waiting_from : ℕ → List (Waker × ℕ) → List (Waker × ℕ)
waiting_from base ws = map (λ w. (w.0, SeqNumber.add base w.1)) ws

abbrev pub wakers_of : List (Waker × ℕ) → List Waker
wakers_of ws = map (λ w. w.0) ws

leb-not-ltb : (m n : ℕ) → leb n m ≡ not (ltb m n)
leb-not-ltb m n = ground arith

module _ (con : UdpConnectionVars) (ack : IsU32 con.peer_ack_number)
    (short : con.transit_window < u32_max / 2) where
  abbrev room : ℕ
  room = min con.peer_window con.transit_window

  is_ready_lem :
      (k : Waker) (i : ℕ)
      → i < u32_max / 2
      → is_ready con (k, SeqNumber.add con.peer_ack_number i) ≡ ltb i room
  is_ready_lem k i h = lt-add_window con.peer_ack_number i room ack h (omega arith)

  ready-waiting_from :
      (ws : List (Waker × ℕ))
      → All (λ w. w.1 < u32_max / 2) ws
      → wakers_of (keep_if (is_ready con) (waiting_from con.peer_ack_number ws))
        ≡ wakers_of (keep_if (λ w. ltb w.1 room) ws)
  ready-waiting_from [] h = refl
  ready-waiting_from ((k, i) ∷ ws) (h, hs) = elim (Bool-cases (ltb i room)) [
    | inl e ↦ rw (is_ready_lem k i h, e) (ap (λ ks. k ∷ ks) (ready-waiting_from ws hs))
    | inr e ↦ rw (is_ready_lem k i h, e) (ready-waiting_from ws hs)
  ]

  pending-waiting_from :
      (ws : List (Waker × ℕ))
      → All (λ w. w.1 < u32_max / 2) ws
      → keep_if (λ w. not (is_ready con w)) (waiting_from con.peer_ack_number ws)
        ≡ waiting_from con.peer_ack_number (keep_if (λ w. leb room w.1) ws)
  pending-waiting_from [] h = refl
  pending-waiting_from ((k, i) ∷ ws) (h, hs) = elim (Bool-cases (ltb i room)) [
    | inl e ↦ rw (is_ready_lem k i h, leb-not-ltb i room, e) (pending-waiting_from ws hs)
    | inr e ↦
        rw (is_ready_lem k i h, leb-not-ltb i room, e)
          (ap (λ rest. (k, SeqNumber.add con.peer_ack_number i) ∷ rest)
            (pending-waiting_from ws hs))
  ]

-- For tasks that wait for numbers less than u32::MAX / 2 beyond the last acknowledged one, in a
-- transit window of less than u32::MAX / 2: the tasks whose numbers lie within the smaller of the two
-- windows are woken, in the order in which they came, and only these; the others wait on in their
-- order, and nothing else changes.
pub wake_pending_send_events_lem :
    (con : UdpConnectionVars) (ws : List (Waker × ℕ))
    → IsU32 con.peer_ack_number
    → con.window_wakers ≡ waiting_from con.peer_ack_number ws
    → All (λ w. w.1 < u32_max / 2) ws
    → con.transit_window < u32_max / 2
    → let window = min con.peer_window con.transit_window in
      wake_pending_send_events con ≡ record con {
        window_wakers = waiting_from con.peer_ack_number (keep_if (λ w. leb window w.1) ws);
        woken = con.woken ++ wakers_of (keep_if (λ w. ltb w.1 window) ws);
      }
unfolding wake_pending_send_events
wake_pending_send_events_lem con ws ack waiting near short =
    rw (
      waiting,
      ready-waiting_from con ack short ws near,
      pending-waiting_from con ack short ws near,
    )
