-- ===== src/Shared/Tests.antt =====
-- The messages with a simple stand-in for JSON.
use tunshell.Prelude.{
  false, ok, ready, Poll, Result, ◌++◌, ℕ, ◌≡◌, refl, ap, subst, arith, List, [], ◌∷◌, Option, none,
  some, Returns,
}
use tunshell.Shared.MessageStream.{MessageStream, ReadEvent, StreamError, chunk, ended, poll_next}
use tunshell.Shared.MessageStream.Frames.{stream_bytes, poll_next-frame}
use tunshell.Shared.Message.{
  RawMessage, ClientMessage, direct_connect_bound, new_raw, raw_to_vec, PeerJoinedPayload,
  PortBindings, KeyPayload, Serde, serialise_server, deserialise_server, serialise_client,
  deserialise_client, attempt_direct_connect, key,
}
use tunshell.Shared.Message.RoundTrip.{
  server_wire, Serialised, serialise_server-Serialised, serialise_client-Serialised,
}

same_key : (k bytes : List ℕ) → some k ≡ some bytes → bytes ≡ k
same_key k bytes e = cc

abbrev keys : Serde KeyPayload
keys = record {
  json_to_vec = λ k. some k.key;
  json_from_slice = λ bytes. some (record { key = bytes });
  from_slice-to_vec = λ k bytes e. ap (λ b. some (record { key = b })) (same_key k.key bytes e);
}

abbrev write_ports : Option ℕ → Option ℕ → Option (List ℕ)
write_ports none none = some []
write_ports (some a) none = some (a ∷ [])
write_ports (some a) (some b) = some (a ∷ b ∷ [])
write_ports none (some b) = some (b ∷ b ∷ b ∷ [])

abbrev read_ports : List ℕ → Option PortBindings
read_ports [] = some (record { udp_port = none; tcp_port = none })
read_ports (a ∷ []) = some (record { udp_port = some a; tcp_port = none })
read_ports (a ∷ b ∷ []) = some (record { udp_port = some a; tcp_port = some b })
read_ports (a ∷ _) = some (record { udp_port = none; tcp_port = some a })

read-write_ports :
    (u t : Option ℕ) (bytes : List ℕ)
    → write_ports u t ≡ some bytes
    → read_ports bytes ≡ some (record { udp_port = u; tcp_port = t })
read-write_ports none none bytes e =
    (let same : [] ≡ bytes = cc in
      subst (λ z. read_ports z ≡ some (record { udp_port = none; tcp_port = none })) same refl)
read-write_ports (some a) none bytes e =
    (let same : a ∷ [] ≡ bytes = cc in
      subst (λ z. read_ports z ≡ some (record { udp_port = some a; tcp_port = none })) same refl)
read-write_ports (some a) (some b) bytes e =
    (let same : a ∷ b ∷ [] ≡ bytes = cc in
      subst (λ z. read_ports z ≡ some (record { udp_port = some a; tcp_port = some b })) same refl)
read-write_ports none (some b) bytes e =
    (let same : b ∷ b ∷ b ∷ [] ≡ bytes = cc in
      subst (λ z. read_ports z ≡ some (record { udp_port = none; tcp_port = some b })) same refl)

abbrev ports : Serde PortBindings
ports = record {
  json_to_vec = λ p. write_ports p.udp_port p.tcp_port;
  json_from_slice = read_ports;
  from_slice-to_vec = λ p bytes e. read-write_ports p.udp_port p.tcp_port bytes e;
}

-- A joined peer of which only the key is known.
abbrev write_joined : (peer_key peer_ip_address session_nonce : List ℕ) → Option (List ℕ)
write_joined peer_key [] [] = some peer_key
write_joined peer_key _ _ = none

abbrev read_joined : List ℕ → Option PeerJoinedPayload
read_joined bytes = some (record { peer_key = bytes; peer_ip_address = []; session_nonce = [] })

read-write_joined :
    (k i n bytes : List ℕ)
    → write_joined k i n ≡ some bytes
    → read_joined bytes ≡ some (record { peer_key = k; peer_ip_address = i; session_nonce = n })
read-write_joined k [] [] bytes e = ground arith
read-write_joined k (x ∷ i) n bytes e = cc
read-write_joined k [] (x ∷ n) bytes e = cc

abbrev joined : Serde PeerJoinedPayload
joined = record {
  json_to_vec = λ p. write_joined p.peer_key p.peer_ip_address p.session_nonce;
  json_from_slice = read_joined;
  from_slice-to_vec =
      λ p bytes e. read-write_joined p.peer_key p.peer_ip_address p.session_nonce bytes e;
}

abbrev direct : PortBindings
direct = record { udp_port = some 4000; tcp_port = none }

serialise_server-Serialised_example :
    Returns
      (Serialised
        (deserialise_server joined ports)
        (attempt_direct_connect direct)
        (server_wire joined ports (attempt_direct_connect direct)))
      (serialise_server joined ports (attempt_direct_connect direct))
serialise_server-Serialised_example =
    serialise_server-Serialised joined ports (attempt_direct_connect direct)

abbrev session_key : KeyPayload
session_key = record { key = 97 ∷ 98 ∷ [] }

serialise_client-Serialised_example :
    Returns
      (Serialised (deserialise_client keys ports) (key session_key) (some (1, 97 ∷ 98 ∷ [])))
      (serialise_client keys ports (key session_key))
serialise_client-Serialised_example = serialise_client-Serialised keys ports (key session_key)

-- A close message behind a direct connection's ports, cut in the middle of its header.
abbrev bound_raw : RawMessage
bound_raw = record { type_id = 2; length = 2; bytes = 9 ∷ 8 ∷ [] }

abbrev cut : List ReadEvent
cut = chunk (0 ∷ 2 ∷ 9 ∷ []) ∷ chunk (8 ∷ 0 ∷ 0 ∷ []) ∷ chunk (0 ∷ []) ∷ ended ∷ []

abbrev starting : MessageStream
starting = record { read_buff = 2 ∷ []; closed = false }

poll_next-frame_example :
    Returns
      (λ (out : MessageStream × List ReadEvent × Poll (Option (Result ClientMessage StreamError))).
        (out.2
          ≡ ready
              (some (ok (direct_connect_bound (record { udp_port = some 9; tcp_port = some 8 })))))
        × (out.0.closed ≡ false)
        × (out.0.read_buff ++ stream_bytes out.1 ≡ 0 ∷ 0 ∷ 0 ∷ []))
      (poll_next (deserialise_client keys ports) starting cut)
unfolding new_raw deserialise_client raw_to_vec
poll_next-frame_example =
    poll_next-frame (deserialise_client keys ports) starting cut bound_raw
      (direct_connect_bound (record { udp_port = some 9; tcp_port = some 8 })) (0 ∷ 0 ∷ 0 ∷ []) refl
      refl refl refl
