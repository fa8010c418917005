-- ===== src/Udp/Tests/Packets.antt =====
-- A packet of three bytes, its datagram, and numbers on both sides of the end of the sequence
-- space.
use Prim.Native.Nat.{compare}
use tunshell.Prelude.{
  ℕ, ◌≡◌, ◌≤◌, ◌≢◌, ◌↔◌, refl, true, some, List, [], ◌∷◌, ◌++◌, done, panic, ok, arith,
}
use tunshell.Udp.Packet.{UdpPacket, parse, parse_header, parse_fields, parse_type, to_vec, overlaps}
use tunshell.Udp.Packet.Codec.{parse-to_vec}
use tunshell.Udp.Packet.Create.{overlaps_iff}
use tunshell.Udp.Packet.Decode.{Wrote, parse-Wrote, parse-ne-panic}
use tunshell.Udp.SeqNumber.{partial_cmp}
use tunshell.Udp.SeqNumber.Order.{partial_cmp-add_window}
use tunshell.Udp.Tests.{big_endian, packet_at}

abbrev small_packet : UdpPacket
small_packet = packet_at 258 7 1024 1299 3 (1 ∷ 2 ∷ 3 ∷ [])

abbrev small_datagram : List ℕ
small_datagram =
    1 ∷ 0 ∷ 0 ∷ 1 ∷ 2 ∷ 0 ∷ 0 ∷ 0 ∷ 7 ∷ 0 ∷ 0 ∷ 4 ∷ 0 ∷ 0 ∷ 3 ∷ 0 ∷ 0 ∷ 5 ∷ 19 ∷ 1 ∷ 2 ∷ 3 ∷ 9 ∷ []

parse-to_vec_example :
    parse big_endian (to_vec big_endian small_packet ++ (9 ∷ [])) ≡ done (ok small_packet)
parse-to_vec_example = parse-to_vec big_endian small_packet (9 ∷ []) (record {
  sequence_number = omega arith;
  ack_number = omega arith;
  window = omega arith;
  length = omega arith;
  checksum = omega arith;
  payload = refl;
})

parse-Wrote_example : Wrote big_endian small_datagram small_packet
unfolding parse parse_header parse_fields parse_type
parse-Wrote_example =
    parse-Wrote big_endian small_datagram small_packet
      (
        omega arith,
        (
          omega arith,
          (
            omega arith,
            (
              omega arith,
              (
                omega arith,
                (
                  omega arith,
                  (
                    omega arith,
                    (
                      omega arith,
                      (
                        omega arith,
                        (
                          omega arith,
                          (
                            omega arith,
                            (
                              omega arith,
                              (
                                omega arith,
                                (
                                  omega arith,
                                  (
                                    omega arith,
                                    (
                                      omega arith,
                                      (
                                        omega arith,
                                        (
                                          omega arith,
                                          (
                                            omega arith,
                                            (
                                              omega arith,
                                              (omega arith, (omega arith, (omega arith, tt))),
                                            ),
                                          ),
                                        ),
                                      ),
                                    ),
                                  ),
                                ),
                              ),
                            ),
                          ),
                        ),
                      ),
                    ),
                  ),
                ),
              ),
            ),
          ),
        ),
      )
      refl

parse-ne-panic_example : parse big_endian (1 ∷ 2 ∷ []) ≢ panic
parse-ne-panic_example = parse-ne-panic big_endian (1 ∷ 2 ∷ [])

abbrev next_packet : UdpPacket
next_packet = packet_at 261 7 1024 0 1 (4 ∷ [])

overlaps_iff_example :
    (overlaps small_packet next_packet ≡ true)
    ↔ ((n : ℕ) × (258 ≤ n) × (n ≤ 261) × (261 ≤ n) × (n ≤ 262))
overlaps_iff_example = overlaps_iff small_packet next_packet (omega arith) (omega arith)

abbrev last_packet : UdpPacket
last_packet = packet_at 4294967294 7 1024 0 3 (1 ∷ 2 ∷ 3 ∷ [])

partial_cmp-add_window_example : partial_cmp 4294967294 4 ≡ some (compare 1 7)
partial_cmp-add_window_example =
    partial_cmp-add_window 4294967293 1 7 (omega arith) (omega arith) (omega arith)
