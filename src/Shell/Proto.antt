-- ===== src/Shell/Proto.antt =====
-- proto.rs: the messages between the shell's client and server, with the network messages that they
-- carry. A `String` is the list of its bytes, as in Shared/Message.
pub mod Network
pub mod RoundTrip
use tunshell.Prelude.{
  ℕ, ◌+◌, ◌*◌, ◌/◌, ◌%◌, ◌^◌, Bool, List, [], ◌∷◌, ◌++◌, Option, none, some, Outcome, done, ◌>>=◌,
  Result, ok, err, ◌==◌, if◌then◌else◌,
}
use tunshell.Shared.Message.{
  RawMessage, MessageError, not_utf8, no_exit_code, truncated, empty_network, unknown_type, Serde,
  new_raw, new_json, read_json,
}

abbrev pub ConId : Type 0
ConId = ℕ

pub data NetworkMessage : Type 0 where
  tcp_connect : ConId → List ℕ → ℕ → NetworkMessage
  tcp_connect_result : ConId → Option (List ℕ) → NetworkMessage
  tcp_send tcp_recv udp_send udp_recv : ConId → List ℕ → NetworkMessage
  tcp_close : ConId → NetworkMessage
  notice : List ℕ → NetworkMessage

pub record WindowSize : Type 0 where
  pub columns : ℕ
  pub rows : ℕ

-- `NetworkPeerConfig` of shell/network.rs is a parameter of the messages.
pub record StartShellPayload (NetworkPeerConfig : Type 0) : Type 0 where
  pub term : List ℕ
  pub color : Bool
  pub size : WindowSize
  pub remote_pty_support : Bool
  pub network_peer_config : NetworkPeerConfig

pub data ShellStartedPayload : Type 0 where
  local_pty remote_pty fallback : ShellStartedPayload

pub record RemotePtyDataPayload : Type 0 where
  pub con_id : ℕ
  pub bytes : List ℕ

pub data RemotePtyEventPayload : Type 0 where
  connect close : ℕ → RemotePtyEventPayload
  payload : RemotePtyDataPayload → RemotePtyEventPayload

pub data ShellClientMessage (C : Type 0) : Type 0 where
  key stdin client_error : List ℕ → ShellClientMessage C
  start_shell : StartShellPayload C → ShellClientMessage C
  client_network : NetworkMessage → ShellClientMessage C
  resize : WindowSize → ShellClientMessage C
  remote_pty_data : RemotePtyDataPayload → ShellClientMessage C

pub data ShellServerMessage : Type 0 where
  key_accepted key_rejected : ShellServerMessage
  shell_started : ShellStartedPayload → ShellServerMessage
  server_network : NetworkMessage → ShellServerMessage
  stdout server_error : List ℕ → ShellServerMessage
  exited : ℕ → ShellServerMessage
  remote_pty_event : RemotePtyEventPayload → ShellServerMessage

-- `u32::to_be_bytes` in front of a payload, and back.
abbrev pub with_con_id : ConId → List ℕ → List ℕ
with_con_id con_id bytes =
    con_id / 2 ^ 24 % 256 ∷ con_id / 2 ^ 16 % 256 ∷ con_id / 2 ^ 8 % 256 ∷ con_id % 256 ∷ bytes

abbrev pub from_be_bytes : ℕ → ℕ → ℕ → ℕ → ConId
from_be_bytes a b c d = ((a * 256 + b) * 256 + c) * 256 + d

unfoldable pub deserialise_send_like :
    List ℕ → (ConId → List ℕ → NetworkMessage) → Result NetworkMessage MessageError
deserialise_send_like (a ∷ b ∷ c ∷ d ∷ rest) make = ok (make (from_be_bytes a b c d) rest)
deserialise_send_like _ make = err truncated

-- `NetworkMessage::type_id`.
abbrev pub network_type_id : NetworkMessage → ℕ
network_type_id (tcp_connect _ _ _) = 3
network_type_id (tcp_connect_result _ _) = 4
network_type_id (tcp_send _ _) = 5
network_type_id (tcp_recv _ _) = 6
network_type_id (tcp_close _) = 7
network_type_id (udp_recv _ _) = 10
network_type_id (udp_send _ _) = 11
network_type_id (notice _) = 255

-- `Ok(Self::Network(message?))`.
abbrev pub make_message :
    {M : Type 0} → (NetworkMessage → M) → Result NetworkMessage MessageError → Result M MessageError
make_message make (ok message) = ok (make message)
make_message make (err e) = err e

module _ (networks : Serde NetworkMessage) where
  -- `NetworkMessage::serialise`; all but three kinds are JSON.
  unfoldable pub serialise_network : NetworkMessage → Outcome (Result RawMessage MessageError)
  serialise_network (tcp_send con_id bytes) = new_raw 5 (with_con_id con_id bytes)
  serialise_network (tcp_recv con_id bytes) = new_raw 6 (with_con_id con_id bytes)
  serialise_network (udp_send con_id bytes) = new_raw 11 (with_con_id con_id bytes)
  serialise_network message = new_json (network_type_id message) (networks.json_to_vec message)

  unfoldable pub deserialise_network : RawMessage → Result NetworkMessage MessageError
  deserialise_network raw =
      if raw.type_id == 5
      then deserialise_send_like raw.bytes tcp_send
      else if raw.type_id == 6
      then deserialise_send_like raw.bytes tcp_recv
      else if raw.type_id == 10
      then deserialise_send_like raw.bytes udp_recv
      else if raw.type_id == 11
      then deserialise_send_like raw.bytes udp_send
      else read_json (λ m. m) (networks.json_from_slice raw.bytes)

  -- The type id and the data of the network message, in one buffer, behind a type id of its own.
  unfoldable pub serialise_embedded : ℕ → NetworkMessage → Outcome (Result RawMessage MessageError)
  serialise_embedded type_id message = do
    result ← serialise_network message
    elim result [ err e ↦ done (err e) | ok raw ↦ new_raw type_id (raw.type_id ∷ raw.bytes) ]

  unfoldable pub deserialise_embedded :
      {M : Type 0} → (NetworkMessage → M) → List ℕ → Outcome (Result M MessageError)
  deserialise_embedded make [] = done (err empty_network)
  deserialise_embedded make (type_id ∷ bytes) = do
    result ← new_raw type_id bytes
    elim result [
      | err e ↦ done (err e)
      | ok raw ↦ done (make_message make (deserialise_network raw))
    ]

-- `String::from_utf8` of the standard library: `utf8` tells which bytes are a `String`.
abbrev pub read_string :
    {M : Type 0} → (List ℕ → Bool) → (List ℕ → M) → List ℕ → Result M MessageError
read_string utf8 make bytes = if utf8 bytes then ok (make bytes) else err not_utf8

module _ {C : Type 0} (utf8 : List ℕ → Bool) (networks : Serde NetworkMessage)
    (starts : Serde (StartShellPayload C)) (sizes : Serde WindowSize)
    (ptys : Serde RemotePtyDataPayload) where
  -- `ShellClientMessage::type_id` and `serialise`.
  unfoldable pub serialise_shell_client :
      ShellClientMessage C → Outcome (Result RawMessage MessageError)
  serialise_shell_client (key bytes) = new_raw 1 bytes
  serialise_shell_client (start_shell p) = new_json 2 (starts.json_to_vec p)
  serialise_shell_client (stdin bytes) = new_raw 3 bytes
  serialise_shell_client (resize size) = new_json 4 (sizes.json_to_vec size)
  serialise_shell_client (remote_pty_data p) = new_json 5 (ptys.json_to_vec p)
  serialise_shell_client (client_network message) = serialise_embedded networks 6 message
  serialise_shell_client (client_error bytes) = new_raw 255 bytes

  unfoldable pub deserialise_shell_client :
      RawMessage → Outcome (Result (ShellClientMessage C) MessageError)
  deserialise_shell_client raw =
      if raw.type_id == 1
      then done (read_string utf8 key raw.bytes)
      else if raw.type_id == 2
      then done (read_json start_shell (starts.json_from_slice raw.bytes))
      else if raw.type_id == 3
      then done (ok (stdin raw.bytes))
      else if raw.type_id == 4
      then done (read_json resize (sizes.json_from_slice raw.bytes))
      else if raw.type_id == 5
      then done (read_json remote_pty_data (ptys.json_from_slice raw.bytes))
      else if raw.type_id == 6
      then deserialise_embedded networks client_network raw.bytes
      else if raw.type_id == 255
      then done (read_string utf8 client_error raw.bytes)
      else done (err (unknown_type raw.type_id))

-- `data().get(0)`.
abbrev pub read_exit_code : List ℕ → Result ShellServerMessage MessageError
read_exit_code [] = err no_exit_code
read_exit_code (code ∷ rest) = ok (exited code)

module _ (utf8 : List ℕ → Bool) (networks : Serde NetworkMessage)
    (shells : Serde ShellStartedPayload) (events : Serde RemotePtyEventPayload) where
  -- `ShellServerMessage::type_id` and `serialise`.
  unfoldable pub serialise_shell_server :
      ShellServerMessage → Outcome (Result RawMessage MessageError)
  serialise_shell_server key_accepted = new_raw 1 []
  serialise_shell_server key_rejected = new_raw 2 []
  serialise_shell_server (shell_started p) = new_json 3 (shells.json_to_vec p)
  serialise_shell_server (stdout bytes) = new_raw 4 bytes
  serialise_shell_server (exited code) = new_raw 5 (code ∷ [])
  serialise_shell_server (remote_pty_event p) = new_json 6 (events.json_to_vec p)
  serialise_shell_server (server_network message) = serialise_embedded networks 7 message
  serialise_shell_server (server_error bytes) = new_raw 255 bytes

  unfoldable pub deserialise_shell_server :
      RawMessage → Outcome (Result ShellServerMessage MessageError)
  deserialise_shell_server raw =
      if raw.type_id == 1
      then done (ok key_accepted)
      else if raw.type_id == 2
      then done (ok key_rejected)
      else if raw.type_id == 3
      then done (read_json shell_started (shells.json_from_slice raw.bytes))
      else if raw.type_id == 4
      then done (ok (stdout raw.bytes))
      else if raw.type_id == 5
      then done (read_exit_code raw.bytes)
      else if raw.type_id == 6
      then done (read_json remote_pty_event (events.json_from_slice raw.bytes))
      else if raw.type_id == 7
      then deserialise_embedded networks server_network raw.bytes
      else if raw.type_id == 255
      then done (read_string utf8 server_error raw.bytes)
      else done (err (unknown_type raw.type_id))
