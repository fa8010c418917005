-- ===== src/Udp/Congestion/Bounds.antt =====
-- The transit window stays in a range in which its arithmetic neither panics nor wraps.
use tunshell.Prelude.{
  ℕ, zero, suc, ◌+◌, ◌*◌, ◌/◌, ◌≤◌, ◌<◌, ◌≡◌, List, [], ◌∷◌, Outcome, done, ◌>>=◌, Returns,
  Returns->>=, Returns-map, arith, min, ltb, leb,
}
use native.Mathlib.Decide.{dec_lt}
use tunshell.Prelude.Words.{IsU32, u32_max}
use tunshell.Udp.Packet.{max_packet_size}
use tunshell.Udp.SeqNumber
use tunshell.Udp.SeqNumber.Order.{lt-add_window, ge-not-lt}
use tunshell.Udp.State.{UdpConnectionVars}
use tunshell.Udp.Congestion.{
  increase_transit_window_after_send, decrease_transit_window_after_drop, is_congested,
  can_send_sequence_number, max_send_sequence_number,
}

-- The largest transit window that growth leads to: 577 packets.
abbrev pub max_transit_window : ℕ
max_transit_window = 577 * 576

abbrev pub InRange : UdpConnectionVars → Type 0
InRange con = (max_packet_size ≤ con.transit_window) × (con.transit_window ≤ max_transit_window)

quotient_le : (q : ℕ) → 576 / q ≤ 576
quotient_le zero = omega arith
quotient_le (suc q) = grind arith

quotient_top : (w : ℕ) → 331776 ≤ w → w ≤ 332352 → w + 576 / (w / 576) ≤ 332352
quotient_top w lo hi = elim (dec_lt w 332352) [
  | yes below ↦ (let q : w / 576 ≡ 576 = omega arith in rw q (omega arith))
  | no above ↦ (let q : w / 576 ≡ 577 = omega arith in rw q (omega arith))
]

growth_in_range : (w : ℕ) → w ≤ 332352 → w + 576 / (w / 576) ≤ 332352
growth_in_range w hi = elim (dec_lt w 331776) [
  | yes below ↦ omega (arith, quotient_le (w / 576))
  | no above ↦ quotient_top w (omega arith) hi
]

step_in_range : (w : ℕ) → 576 ≤ w → w ≤ 332352 → (0 < w / 576) × (w + 576 / (w / 576) ≤ 332352)
step_in_range w lo hi = (omega arith, growth_in_range w hi)

pub increase-InRange :
    (con : UdpConnectionVars)
    → InRange con
    → Returns
        (λ d. InRange d × (con.transit_window ≤ d.transit_window))
        (increase_transit_window_after_send con)
unfolding increase_transit_window_after_send
increase-InRange con h = ground (arith, step_in_range con.transit_window)

pub decrease-InRange :
    (con : UdpConnectionVars) → InRange con → InRange (decrease_transit_window_after_drop con)
unfolding decrease_transit_window_after_drop
decrease-InRange con h = ground arith

-- A packet was sent, or one was found lost.
pub data Change : Type 0 where
  sent dropped : Change

abbrev change : UdpConnectionVars → Change → Outcome UdpConnectionVars
change con sent = increase_transit_window_after_send con
change con dropped = done (decrease_transit_window_after_drop con)

unfoldable pub run_changes : UdpConnectionVars → List Change → Outcome UdpConnectionVars
run_changes con [] = done con
run_changes con (c ∷ cs) = do con' ← change con c; run_changes con' cs

change-InRange :
    (con : UdpConnectionVars) (c : Change) → InRange con → Returns InRange (change con c)
change-InRange con sent h =
    Returns-map (λ d. InRange d × (con.transit_window ≤ d.transit_window)) InRange
      (increase_transit_window_after_send con) (λ d g. g.0) (increase-InRange con h)
change-InRange con dropped h = decrease-InRange con h

-- From a transit window of at least one packet and at most `max_transit_window`, as the default
-- configuration's is, no sequence of sends and losses divides by zero or leaves that range, so the
-- `u32` arithmetic never wraps either.
pub run_changes-InRange :
    (con : UdpConnectionVars) (cs : List Change)
    → InRange con
    → Returns InRange (run_changes con cs)
unfolding run_changes
run_changes-InRange con [] h = h
run_changes-InRange con (c ∷ cs) h =
    Returns->>= InRange InRange (change con c) (λ d. run_changes d cs) (change-InRange con c h)
      (λ d h'. run_changes-InRange d cs h')

-- `in_flight` numbers have been used and not been acknowledged.
pub record InFlight (con : UdpConnectionVars) (in_flight : ℕ) : Type 0 where
  pub ack : IsU32 con.peer_ack_number
  pub sequence : con.sequence_number ≡ SeqNumber.add con.peer_ack_number in_flight
  pub short : in_flight < u32_max / 2
  pub window : con.transit_window < u32_max / 2

-- While the numbers in flight and the transit window are below u32::MAX / 2: a connection is
-- congested exactly if the numbers in flight fill the smaller of the two windows,
-- and a number further on may be sent exactly if it still lies below that.
pub is_congested_lem :
    (con : UdpConnectionVars) (in_flight further : ℕ)
    → InFlight con in_flight
    → in_flight + further < u32_max / 2
    → (is_congested con ≡ leb (min con.peer_window con.transit_window) in_flight)
      × (can_send_sequence_number con (SeqNumber.add con.sequence_number further)
          ≡ ltb (in_flight + further) (min con.peer_window con.transit_window))
unfolding is_congested
is_congested_lem con in_flight further f h =
    let w : min con.peer_window con.transit_window < u32_max / 2 = omega (arith, f.window) in
    let at : SeqNumber.add con.sequence_number further
        ≡ SeqNumber.add con.peer_ack_number (in_flight + further) =
      omega (arith, f.sequence) in
    (
      rw
          (
            ge-not-lt con.sequence_number (max_send_sequence_number con),
            f.sequence,
            lt-add_window con.peer_ack_number in_flight (min con.peer_window con.transit_window)
                f.ack f.short w,
          )
          (ground arith),
      rw at (
          lt-add_window con.peer_ack_number (in_flight + further)
            (min con.peer_window con.transit_window) f.ack h w),
    )
