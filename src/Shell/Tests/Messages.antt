-- ===== src/Shell/Tests/Messages.antt =====
-- The shell's messages with simple stand-ins for JSON and for UTF-8.
use tunshell.Prelude.{
  ℕ, ◌≡◌, refl, subst, arith, true, List, [], ◌∷◌, Option, none, some, done, ok, Returns,
}
use tunshell.Shared.Message.{RawMessage, Serde}
use tunshell.Shell.Proto.{
  NetworkMessage, with_con_id, tcp_send, udp_recv, client_network, server_network,
  serialise_network, deserialise_network, serialise_shell_client, deserialise_shell_client,
  serialise_shell_server, deserialise_shell_server,
}
use tunshell.Shell.Proto.Network.{embedded_length, serialise_network-udp_recv}
use tunshell.Shell.Proto.RoundTrip.{
  ShellSerialised, serialise_shell_client-ShellSerialised, serialise_shell_server-ShellSerialised,
}

nothing : {A : Type 0} (a : A) (bytes : List ℕ) → none ≡ some bytes → none ≡ some a
nothing a bytes e = cc

-- Nothing can be written.
abbrev unwritten : {A : Type 0} → Serde A
unwritten = record {
  json_to_vec = λ a. none;
  json_from_slice = λ bytes. none;
  from_slice-to_vec = nothing;
}

-- Empty datagrams can be written.
abbrev write_network : NetworkMessage → Option (List ℕ)
write_network (udp_recv con_id []) = some (b'{' ∷ b'"' ∷ b'U' ∷ b'd' ∷ con_id ∷ [])
write_network _ = none

abbrev read_network : List ℕ → Option NetworkMessage
read_network (_ ∷ _ ∷ _ ∷ _ ∷ con_id ∷ []) = some (udp_recv con_id [])
read_network _ = none

read-write_network :
    (m : NetworkMessage) (bytes : List ℕ)
    → write_network m ≡ some bytes
    → read_network bytes ≡ some m
read-write_network (udp_recv con_id []) bytes e =
    (let same : b'{' ∷ b'"' ∷ b'U' ∷ b'd' ∷ con_id ∷ [] ≡ bytes = cc in
      subst (λ z. read_network z ≡ some (udp_recv con_id [])) same refl)
read-write_network m bytes e = cc

abbrev networks : Serde NetworkMessage
networks = record {
  json_to_vec = write_network;
  json_from_slice = read_network;
  from_slice-to_vec = read-write_network;
}

-- Three bytes for connection 258.
abbrev payload : NetworkMessage
payload = tcp_send 258 (b'a' ∷ b'b' ∷ b'c' ∷ [])

serialise_shell_client-ShellSerialised_example :
    Returns
      (ShellSerialised
        (deserialise_shell_client {C = Unit {0}} (λ _. true) networks unwritten unwritten unwritten)
        (client_network payload)
        embedded_length
        (some (6, 5 ∷ with_con_id 258 (b'a' ∷ b'b' ∷ b'c' ∷ []))))
      (serialise_shell_client {C = Unit {0}}
        (λ _. true)
        networks
        unwritten
        unwritten
        unwritten
        (client_network payload))
serialise_shell_client-ShellSerialised_example =
    serialise_shell_client-ShellSerialised (λ _. true) networks unwritten unwritten unwritten
      (client_network payload) (omega arith)

serialise_shell_server-ShellSerialised_example :
    Returns
      (ShellSerialised
        (deserialise_shell_server (λ _. true) networks unwritten unwritten)
        (server_network payload)
        embedded_length
        (some (7, 5 ∷ with_con_id 258 (b'a' ∷ b'b' ∷ b'c' ∷ []))))
      (serialise_shell_server (λ _. true) networks unwritten unwritten (server_network payload))
serialise_shell_server-ShellSerialised_example =
    serialise_shell_server-ShellSerialised (λ _. true) networks unwritten unwritten
      (server_network payload) (omega arith)

serialise_network-udp_recv_example :
    (raw : RawMessage) × (serialise_network networks (udp_recv 1 []) ≡ done (ok raw))
    × (deserialise_network networks raw ≡ ok (udp_recv 2065847652 (1 ∷ [])))
serialise_network-udp_recv_example =
    serialise_network-udp_recv networks 1 b'{' b'"' b'U' b'd' [] (1 ∷ []) refl (omega arith)
