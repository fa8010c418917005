-- ===== src/Shell/Proto/RoundTrip.antt =====
-- A message between the shell's client and server that is written is read back by the other side.
use tunshell.Prelude.{
  ℕ, ◌≡◌, ◌∙◌, refl, ap, Bool, true, List, [], ◌∷◌, Outcome, done, Returns, Result, ok, some,
  length as list_length,
}
use tunshell.Shared.Message.{RawMessage, MessageError, Serde, new_raw, new_json, read_json}
use tunshell.Shared.Message.RoundTrip.{Made, Wire, json_wire, raw_of, new_raw-Made, new_json-Made}
use tunshell.Shell.Proto.{
  ShellClientMessage, key, stdin, client_error, start_shell, client_network, resize,
  remote_pty_data, StartShellPayload, WindowSize, RemotePtyDataPayload, ShellServerMessage,
  key_accepted, key_rejected, shell_started, server_network, stdout, server_error, exited,
  remote_pty_event, ShellStartedPayload, RemotePtyEventPayload, NetworkMessage,
  serialise_shell_client, deserialise_shell_client, serialise_shell_server,
  deserialise_shell_server, read_string,
}
use tunshell.Shell.Proto.Network.{
  IsSendable, network_wire, embedded_wire, embedded_length, serialise_embedded-Made,
}

-- A `String` is UTF-8, and a network message is one that can be sent.
abbrev pub IsClientMessage : {C : Type 0} → (List ℕ → Bool) → ShellClientMessage C → Type 0
IsClientMessage utf8 (key bytes) = utf8 bytes ≡ true
IsClientMessage utf8 (client_error bytes) = utf8 bytes ≡ true
IsClientMessage utf8 (client_network message) = IsSendable message
IsClientMessage utf8 _ = Unit {0}

abbrev pub IsServerMessage : (List ℕ → Bool) → ShellServerMessage → Type 0
IsServerMessage utf8 (server_error bytes) = utf8 bytes ≡ true
IsServerMessage utf8 (server_network message) = IsSendable message
IsServerMessage utf8 _ = Unit {0}

read_string_lem :
    {M : Type 0} (utf8 : List ℕ → Bool) (make : List ℕ → M) (bytes : List ℕ)
    → utf8 bytes ≡ true
    → read_string utf8 make bytes ≡ ok (make bytes)
read_string_lem utf8 make bytes h = rw h refl

-- What a serialiser makes reads back as the message.
abbrev pub ShellSerialised :
    {M : Type 0}
    → (RawMessage → Outcome (Result M MessageError))
    → M
    → (List ℕ → ℕ)
    → Wire
    → Result RawMessage MessageError
    → Type 0
ShellSerialised deserialise message = Made (λ raw. deserialise raw ≡ done (ok message))

-- The type id and the data that a shell's message goes over the wire as.
module _ {C : Type 0} (networks : Serde NetworkMessage) (starts : Serde (StartShellPayload C))
    (sizes : Serde WindowSize) (ptys : Serde RemotePtyDataPayload) where
  abbrev pub shell_client_wire : ShellClientMessage C → Wire
  shell_client_wire (key bytes) = some (1, bytes)
  shell_client_wire (start_shell p) = json_wire 2 (starts.json_to_vec p)
  shell_client_wire (stdin bytes) = some (3, bytes)
  shell_client_wire (resize size) = json_wire 4 (sizes.json_to_vec size)
  shell_client_wire (remote_pty_data p) = json_wire 5 (ptys.json_to_vec p)
  shell_client_wire (client_network message) = embedded_wire 6 (network_wire networks message)
  shell_client_wire (client_error bytes) = some (255, bytes)

module _ (networks : Serde NetworkMessage) (shells : Serde ShellStartedPayload)
    (events : Serde RemotePtyEventPayload) where
  abbrev pub shell_server_wire : ShellServerMessage → Wire
  shell_server_wire key_accepted = some (1, [])
  shell_server_wire key_rejected = some (2, [])
  shell_server_wire (shell_started p) = json_wire 3 (shells.json_to_vec p)
  shell_server_wire (stdout bytes) = some (4, bytes)
  shell_server_wire (exited code) = some (5, code ∷ [])
  shell_server_wire (remote_pty_event p) = json_wire 6 (events.json_to_vec p)
  shell_server_wire (server_network message) = embedded_wire 7 (network_wire networks message)
  shell_server_wire (server_error bytes) = some (255, bytes)

-- The length in the error for a message that is too long.
abbrev pub client_length : {C : Type 0} → ShellClientMessage C → List ℕ → ℕ
client_length (client_network message) = embedded_length
client_length _ = list_length

abbrev pub server_length : ShellServerMessage → List ℕ → ℕ
server_length (server_network message) = embedded_length
server_length _ = list_length

json-ShellSerialised :
    {A M : Type 0} (serde : Serde A) (deserialise : RawMessage → Outcome (Result M MessageError))
    (make : A → M) (payload : A) (type_id : ℕ)
    → ((bytes : List ℕ)
        → deserialise (raw_of type_id bytes) ≡ done (read_json make (serde.json_from_slice bytes)))
    → Returns
        (ShellSerialised deserialise
          (make payload)
          list_length
          (json_wire type_id (serde.json_to_vec payload)))
        (new_json type_id (serde.json_to_vec payload))
json-ShellSerialised serde deserialise make payload type_id reads =
    new_json-Made (λ raw. deserialise raw ≡ done (ok (make payload))) serde payload type_id
      (λ bytes e. reads bytes ∙ ap (λ o. done (read_json make o)) e)

raw-ShellSerialised :
    {M : Type 0} (deserialise : RawMessage → Outcome (Result M MessageError)) (message : M)
    (type_id : ℕ) (bytes : List ℕ)
    → deserialise (raw_of type_id bytes) ≡ done (ok message)
    → Returns
        (ShellSerialised deserialise message list_length (some (type_id, bytes)))
        (new_raw type_id bytes)
raw-ShellSerialised deserialise message type_id bytes reads =
    new_raw-Made (λ raw. deserialise raw ≡ done (ok message)) list_length type_id bytes
      (λ fits. reads) refl

module _ {C : Type 0} (utf8 : List ℕ → Bool) (networks : Serde NetworkMessage)
    (starts : Serde (StartShellPayload C)) (sizes : Serde WindowSize)
    (ptys : Serde RemotePtyDataPayload) where
  -- A message of the shell's client, in which strings are UTF-8 and the network message is no
  -- `UdpRecv` and has ids of 32 bits, is serialised, without a panic, to its type id and its data,
  -- which the shell's server deserialises as the same message; except that it is refused where
  -- serde_json fails on its payload, and where its data is longer than 32767 bytes, with the length
  -- of the data or, where the data of the embedded network message is too long by itself, of this.
  pub serialise_shell_client-ShellSerialised :
      (message : ShellClientMessage C)
      → IsClientMessage utf8 message
      → Returns
          (ShellSerialised
            (deserialise_shell_client utf8 networks starts sizes ptys)
            message
            (client_length message)
            (shell_client_wire networks starts sizes ptys message))
          (serialise_shell_client utf8 networks starts sizes ptys message)
  unfolding serialise_shell_client deserialise_shell_client
  serialise_shell_client-ShellSerialised (key bytes) h =
      raw-ShellSerialised (deserialise_shell_client utf8 networks starts sizes ptys) (key bytes) 1
        bytes (ap done (read_string_lem utf8 key bytes h))
  serialise_shell_client-ShellSerialised (start_shell p) h =
      json-ShellSerialised starts (deserialise_shell_client utf8 networks starts sizes ptys)
        start_shell p 2 (λ bytes. refl)
  serialise_shell_client-ShellSerialised (stdin bytes) h =
      raw-ShellSerialised (deserialise_shell_client utf8 networks starts sizes ptys) (stdin bytes) 3
        bytes refl
  serialise_shell_client-ShellSerialised (resize size) h =
      json-ShellSerialised sizes (deserialise_shell_client utf8 networks starts sizes ptys) resize
        size 4 (λ bytes. refl)
  serialise_shell_client-ShellSerialised (remote_pty_data p) h =
      json-ShellSerialised ptys (deserialise_shell_client utf8 networks starts sizes ptys)
        remote_pty_data p 5 (λ bytes. refl)
  serialise_shell_client-ShellSerialised (client_network message) h =
      serialise_embedded-Made networks client_network
        (λ raw.
          deserialise_shell_client utf8 networks starts sizes ptys raw
          ≡ done (ok (client_network message)))
        6 message (λ bytes e. e) h
  serialise_shell_client-ShellSerialised (client_error bytes) h =
      raw-ShellSerialised (deserialise_shell_client utf8 networks starts sizes ptys)
        (client_error bytes) 255 bytes (ap done (read_string_lem utf8 client_error bytes h))

module _ (utf8 : List ℕ → Bool) (networks : Serde NetworkMessage)
    (shells : Serde ShellStartedPayload) (events : Serde RemotePtyEventPayload) where
  -- A message of the shell's server, in which strings are UTF-8 and the network message is no
  -- `UdpRecv` and has ids of 32 bits, is serialised, without a panic, to its type id and its data,
  -- which the shell's client deserialises as the same message; except that it is refused where
  -- serde_json fails on its payload, and where its data is longer than 32767 bytes, with the length
  -- of the data or, where the data of the embedded network message is too long by itself, of this.
  pub serialise_shell_server-ShellSerialised :
      (message : ShellServerMessage)
      → IsServerMessage utf8 message
      → Returns
          (ShellSerialised
            (deserialise_shell_server utf8 networks shells events)
            message
            (server_length message)
            (shell_server_wire networks shells events message))
          (serialise_shell_server utf8 networks shells events message)
  unfolding serialise_shell_server deserialise_shell_server
  serialise_shell_server-ShellSerialised key_accepted h =
      raw-ShellSerialised (deserialise_shell_server utf8 networks shells events) key_accepted 1 []
        refl
  serialise_shell_server-ShellSerialised key_rejected h =
      raw-ShellSerialised (deserialise_shell_server utf8 networks shells events) key_rejected 2 []
        refl
  serialise_shell_server-ShellSerialised (shell_started p) h =
      json-ShellSerialised shells (deserialise_shell_server utf8 networks shells events)
        shell_started p 3 (λ bytes. refl)
  serialise_shell_server-ShellSerialised (stdout bytes) h =
      raw-ShellSerialised (deserialise_shell_server utf8 networks shells events) (stdout bytes) 4
        bytes refl
  serialise_shell_server-ShellSerialised (exited code) h =
      raw-ShellSerialised (deserialise_shell_server utf8 networks shells events) (exited code) 5
        (code ∷ []) refl
  serialise_shell_server-ShellSerialised (remote_pty_event p) h =
      json-ShellSerialised events (deserialise_shell_server utf8 networks shells events)
        remote_pty_event p 6 (λ bytes. refl)
  serialise_shell_server-ShellSerialised (server_network message) h =
      serialise_embedded-Made networks server_network
        (λ raw.
          deserialise_shell_server utf8 networks shells events raw
          ≡ done (ok (server_network message)))
        7 message (λ bytes e. e) h
  serialise_shell_server-ShellSerialised (server_error bytes) h =
      raw-ShellSerialised (deserialise_shell_server utf8 networks shells events)
        (server_error bytes) 255 bytes (ap done (read_string_lem utf8 server_error bytes h))
