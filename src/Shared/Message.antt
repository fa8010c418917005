-- ===== src/Shared/Message.antt =====
-- message.rs: the messages between the server and its clients. A `String` is the list of its bytes;
-- the field `data` of a message is called `bytes`.
pub mod RoundTrip
use tunshell.Prelude.{
  ℕ, ◌-◌, ◌/◌, ◌%◌, ◌≡◌, Bool, ◌&&◌, List, [], ◌∷◌, Option, none, some, Outcome, done, ◌>>=◌, ◌>>◌,
  assert, Result, ok, err, ltb, leb, ◌==◌, if◌then◌else◌, length,
}
use tunshell.Prelude.Words.{u16}

pub record RawMessage : Type 0 where
  pub type_id : ℕ
  pub length : ℕ
  pub bytes : List ℕ

pub record PeerJoinedPayload : Type 0 where
  pub peer_key : List ℕ
  pub peer_ip_address : List ℕ
  pub session_nonce : List ℕ

pub record PortBindings : Type 0 where
  pub udp_port : Option ℕ
  pub tcp_port : Option ℕ

pub record KeyPayload : Type 0 where
  pub key : List ℕ

pub record RelayPayload : Type 0 where
  pub bytes : List ℕ

pub data ServerMessage : Type 0 where
  close key_accepted key_rejected already_joined peer_left bind_for_direct_connect
        start_relay_mode :
      ServerMessage
  peer_joined : PeerJoinedPayload → ServerMessage
  attempt_direct_connect : PortBindings → ServerMessage
  relay : RelayPayload → ServerMessage

pub data ClientMessage : Type 0 where
  client_close direct_connect_succeeded direct_connect_failed : ClientMessage
  key : KeyPayload → ClientMessage
  direct_connect_bound : PortBindings → ClientMessage
  client_relay : RelayPayload → ClientMessage

-- The errors of this file, and those of the shell's messages, shell/proto.rs.
pub data MessageError : Type 0 where
  too_long : ℕ → MessageError
  json_failed : MessageError
  not_a_message : RawMessage → MessageError
  not_utf8 no_exit_code truncated empty_network : MessageError
  unknown_type : ℕ → MessageError

-- serde_json on one type: `to_vec` and `from_slice`, which may fail. The law is that a value that
-- was written is read back.
pub record Serde (A : Type 0) : Type 0 where
  pub json_to_vec : A → Option (List ℕ)
  pub json_from_slice : List ℕ → Option A
  pub from_slice-to_vec :
      (a : A) (bytes : List ℕ) → json_to_vec a ≡ some bytes → json_from_slice bytes ≡ some a

-- `i16::MAX`.
abbrev pub i16_max : ℕ
i16_max = 32767

-- `RawMessage::new`.
unfoldable pub new_raw : ℕ → List ℕ → Outcome (Result RawMessage MessageError)
new_raw type_id bytes =
    if ltb i16_max (length bytes)
    then done (err (too_long (length bytes)))
    else (assert (leb (length bytes) i16_max)
        >> done (ok (record { type_id = type_id; length = u16 (length bytes); bytes = bytes })))

-- `RawMessage::to_vec`; masking and shifting a length is division by 256.
unfoldable pub raw_to_vec : RawMessage → List ℕ
raw_to_vec raw = raw.type_id ∷ length raw.bytes / 256 % 256 ∷ length raw.bytes % 256 ∷ raw.bytes

-- The bytes of a payload, where serde_json gives them.
abbrev pub new_json : ℕ → Option (List ℕ) → Outcome (Result RawMessage MessageError)
new_json type_id none = done (err json_failed)
new_json type_id (some bytes) = new_raw type_id bytes

abbrev pub read_json : {A M : Type 0} → (A → M) → Option A → Result M MessageError
read_json make none = err json_failed
read_json make (some a) = ok (make a)

module _ (joined : Serde PeerJoinedPayload) (ports : Serde PortBindings) where
  -- `ServerMessage::type_id` and `serialise`.
  unfoldable pub serialise_server : ServerMessage → Outcome (Result RawMessage MessageError)
  serialise_server close = new_raw 0 []
  serialise_server key_accepted = new_raw 1 []
  serialise_server key_rejected = new_raw 2 []
  serialise_server already_joined = new_raw 3 []
  serialise_server (peer_joined payload) = new_json 4 (joined.json_to_vec payload)
  serialise_server peer_left = new_raw 5 []
  serialise_server bind_for_direct_connect = new_raw 6 []
  serialise_server (attempt_direct_connect payload) = new_json 7 (ports.json_to_vec payload)
  serialise_server start_relay_mode = new_raw 8 []
  serialise_server (relay payload) = new_raw 9 payload.bytes

  unfoldable pub deserialise_server : RawMessage → Result ServerMessage MessageError
  deserialise_server raw =
      if (raw.type_id == 0) && (raw.length == 0)
      then ok close
      else if raw.type_id == 1
      then ok key_accepted
      else if (raw.type_id == 2) && (raw.length == 0)
      then ok key_rejected
      else if (raw.type_id == 3) && (raw.length == 0)
      then ok already_joined
      else if raw.type_id == 4
      then read_json peer_joined (joined.json_from_slice raw.bytes)
      else if (raw.type_id == 5) && (raw.length == 0)
      then ok peer_left
      else if raw.type_id == 6
      then ok bind_for_direct_connect
      else if raw.type_id == 7
      then read_json attempt_direct_connect (ports.json_from_slice raw.bytes)
      else if (raw.type_id == 8) && (raw.length == 0)
      then ok start_relay_mode
      else if raw.type_id == 9
      then ok (relay (record { bytes = raw.bytes }))
      else err (not_a_message raw)

module _ (keys : Serde KeyPayload) (ports : Serde PortBindings) where
  -- `ClientMessage::type_id` and `serialise`.
  unfoldable pub serialise_client : ClientMessage → Outcome (Result RawMessage MessageError)
  serialise_client client_close = new_raw 0 []
  serialise_client (key payload) = new_json 1 (keys.json_to_vec payload)
  serialise_client (direct_connect_bound payload) = new_json 2 (ports.json_to_vec payload)
  serialise_client direct_connect_succeeded = new_raw 3 []
  serialise_client direct_connect_failed = new_raw 4 []
  serialise_client (client_relay payload) = new_raw 5 payload.bytes

  unfoldable pub deserialise_client : RawMessage → Result ClientMessage MessageError
  deserialise_client raw =
      if (raw.type_id == 0) && (raw.length == 0)
      then ok client_close
      else if raw.type_id == 1
      then read_json key (keys.json_from_slice raw.bytes)
      else if raw.type_id == 2
      then read_json direct_connect_bound (ports.json_from_slice raw.bytes)
      else if (raw.type_id == 3) && (raw.length == 0)
      then ok direct_connect_succeeded
      else if (raw.type_id == 4) && (raw.length == 0)
      then ok direct_connect_failed
      else if raw.type_id == 5
      then ok (client_relay (record { bytes = raw.bytes }))
      else err (not_a_message raw)
