-- ===== src/Shared/Message/RoundTrip.antt =====
-- A message that is written is read back, and which messages are refused.
use native.Mathlib.Decide.{dec_lt}
use tunshell.Prelude.Words.{u16}
use tunshell.Prelude.{
  some, done, leb, lt→ltb, le→not-ltb, ◌∙◌, ap, ℕ, ◌≡◌, ◌≤◌, ◌<◌, sym, none, Option, refl, true,
  inl, inr, List, [], Option-cases, Returns, Result, ok, err, arith, length as list_length,
}
use tunshell.Shared.Message.{
  RawMessage, ServerMessage, ClientMessage, PeerJoinedPayload, PortBindings, KeyPayload,
  MessageError, Serde, json_failed, too_long, i16_max, new_raw, new_json, read_json,
  serialise_server, deserialise_server, serialise_client, deserialise_client, close, key_accepted,
  key_rejected, already_joined, peer_left, bind_for_direct_connect, start_relay_mode, peer_joined,
  attempt_direct_connect, relay, client_close, direct_connect_succeeded, direct_connect_failed, key,
  direct_connect_bound, client_relay,
}

-- The type id and the data that a message goes over the wire as: none where its payload is JSON and
-- serde_json fails on it.
abbrev pub Wire : Type 0
Wire = Option (ℕ × List ℕ)

abbrev pub json_wire : ℕ → Option (List ℕ) → Wire
json_wire type_id none = none
json_wire type_id (some bytes) = some (type_id, bytes)

-- What a serialiser makes of a message that goes over the wire as `w`: just that, with its length,
-- where the data fits and the result has the property. It refuses just the messages on which
-- serde_json fails, and those whose data is too long, with the length that it reports.
abbrev pub Made :
    (RawMessage → Type 0) → (List ℕ → ℕ) → Wire → Result RawMessage MessageError → Type 0
Made Reads reported none (ok raw) = ⊥
Made Reads reported none (err e) = e ≡ json_failed
Made Reads reported (some (type_id, body)) (ok raw) =
    Reads raw
    × (raw.type_id ≡ type_id)
    × (raw.bytes ≡ body)
    × (raw.length ≡ list_length body)
    × (list_length body ≤ i16_max)
Made Reads reported (some (type_id, body)) (err e) =
    (e ≡ too_long (reported body)) × (i16_max < list_length body)

-- What is made reads back as the message.
abbrev pub Serialised :
    {M : Type 0}
    → (RawMessage → Result M MessageError)
    → M
    → Wire
    → Result RawMessage MessageError
    → Type 0
Serialised deserialise message = Made (λ raw. deserialise raw ≡ ok message) list_length

abbrev pub server_wire : Serde PeerJoinedPayload → Serde PortBindings → ServerMessage → Wire
server_wire joined ports close = some (0, [])
server_wire joined ports key_accepted = some (1, [])
server_wire joined ports key_rejected = some (2, [])
server_wire joined ports already_joined = some (3, [])
server_wire joined ports (peer_joined payload) = json_wire 4 (joined.json_to_vec payload)
server_wire joined ports peer_left = some (5, [])
server_wire joined ports bind_for_direct_connect = some (6, [])
server_wire joined ports (attempt_direct_connect payload) = json_wire 7 (ports.json_to_vec payload)
server_wire joined ports start_relay_mode = some (8, [])
server_wire joined ports (relay payload) = some (9, payload.bytes)

abbrev pub client_wire : Serde KeyPayload → Serde PortBindings → ClientMessage → Wire
client_wire keys ports client_close = some (0, [])
client_wire keys ports (key payload) = json_wire 1 (keys.json_to_vec payload)
client_wire keys ports (direct_connect_bound payload) = json_wire 2 (ports.json_to_vec payload)
client_wire keys ports direct_connect_succeeded = some (3, [])
client_wire keys ports direct_connect_failed = some (4, [])
client_wire keys ports (client_relay payload) = some (5, payload.bytes)

lt→leb : (n : ℕ) → n ≤ i16_max → leb n i16_max ≡ true
lt→leb n h = ground arith

u16_small : (n : ℕ) → n ≤ i16_max → u16 n ≡ n
u16_small n h = omega arith

new_raw-long :
    (type_id : ℕ) (bytes : List ℕ)
    → i16_max < list_length bytes
    → new_raw type_id bytes ≡ done (err (too_long (list_length bytes)))
unfolding new_raw
new_raw-long type_id bytes long = rw (lt→ltb i16_max (list_length bytes) long) refl

-- The message that `new_raw` makes of bytes that fit.
abbrev pub raw_of : ℕ → List ℕ → RawMessage
raw_of type_id bytes = record { type_id = type_id; length = list_length bytes; bytes = bytes }

pub new_raw-fitting :
    (type_id : ℕ) (bytes : List ℕ)
    → list_length bytes ≤ i16_max
    → new_raw type_id bytes ≡ done (ok (raw_of type_id bytes))
unfolding new_raw
new_raw-fitting type_id bytes fits = rw (
  le→not-ltb i16_max (list_length bytes) fits,
  lt→leb (list_length bytes) fits,
  u16_small (list_length bytes) fits,
)

pub new_raw-Made :
    (Reads : RawMessage → Type 0) (reported : List ℕ → ℕ) (type_id : ℕ) (bytes : List ℕ)
    → (list_length bytes ≤ i16_max → Reads (raw_of type_id bytes))
    → reported bytes ≡ list_length bytes
    → Returns (Made Reads reported (some (type_id, bytes))) (new_raw type_id bytes)
new_raw-Made Reads reported type_id bytes reads same = elim (dec_lt i16_max (list_length bytes)) [
  | yes long ↦ rw (new_raw-long type_id bytes long) (ap too_long (sym same), long)
  | no fits ↦
      rw (new_raw-fitting type_id bytes (omega arith))
        (reads (omega arith), refl, refl, refl, omega arith)
]

pub new_json-Made :
    {A : Type 0} (Reads : RawMessage → Type 0) (serde : Serde A) (payload : A) (type_id : ℕ)
    → ((bytes : List ℕ) → serde.json_from_slice bytes ≡ some payload → Reads (raw_of type_id bytes))
    → Returns
        (Made Reads list_length (json_wire type_id (serde.json_to_vec payload)))
        (new_json type_id (serde.json_to_vec payload))
new_json-Made Reads serde payload type_id reads = elim (Option-cases (serde.json_to_vec payload)) [
  | inl e ↦ rw e refl
  | inr (bytes, e) ↦ rw e (
      new_raw-Made Reads list_length type_id bytes
        (λ fits. reads bytes (serde.from_slice-to_vec payload bytes e)) refl)
]

new_raw-Serialised :
    {M : Type 0} (deserialise : RawMessage → Result M MessageError) (message : M) (type_id : ℕ)
    (bytes : List ℕ)
    → deserialise (raw_of type_id bytes) ≡ ok message
    → Returns (Serialised deserialise message (some (type_id, bytes))) (new_raw type_id bytes)
new_raw-Serialised deserialise message type_id bytes reads =
    new_raw-Made (λ raw. deserialise raw ≡ ok message) list_length type_id bytes (λ fits. reads)
      refl

new_json-Serialised :
    {A M : Type 0} (serde : Serde A) (deserialise : RawMessage → Result M MessageError)
    (make : A → M) (payload : A) (type_id : ℕ)
    → ((bytes : List ℕ)
        → deserialise (raw_of type_id bytes) ≡ read_json make (serde.json_from_slice bytes))
    → Returns
        (Serialised deserialise (make payload) (json_wire type_id (serde.json_to_vec payload)))
        (new_json type_id (serde.json_to_vec payload))
new_json-Serialised serde deserialise make payload type_id reads =
    new_json-Made (λ raw. deserialise raw ≡ ok (make payload)) serde payload type_id
      (λ bytes e. reads bytes ∙ ap (read_json make) e)

-- A server's message is serialised, without a panic, to its type id and its data, which the
-- client deserialises as the same message; except that it is refused where serde_json fails on its
-- payload, and where its data is longer than 32767 bytes, with the length of the data.
pub serialise_server-Serialised :
    (joined : Serde PeerJoinedPayload) (ports : Serde PortBindings) (message : ServerMessage)
    → Returns
        (Serialised (deserialise_server joined ports) message (server_wire joined ports message))
        (serialise_server joined ports message)
unfolding serialise_server deserialise_server
serialise_server-Serialised joined ports close =
    new_raw-Serialised (deserialise_server joined ports) close 0 [] refl
serialise_server-Serialised joined ports key_accepted =
    new_raw-Serialised (deserialise_server joined ports) key_accepted 1 [] refl
serialise_server-Serialised joined ports key_rejected =
    new_raw-Serialised (deserialise_server joined ports) key_rejected 2 [] refl
serialise_server-Serialised joined ports already_joined =
    new_raw-Serialised (deserialise_server joined ports) already_joined 3 [] refl
serialise_server-Serialised joined ports (peer_joined payload) =
    new_json-Serialised joined (deserialise_server joined ports) peer_joined payload 4
      (λ bytes. refl)
serialise_server-Serialised joined ports peer_left =
    new_raw-Serialised (deserialise_server joined ports) peer_left 5 [] refl
serialise_server-Serialised joined ports bind_for_direct_connect =
    new_raw-Serialised (deserialise_server joined ports) bind_for_direct_connect 6 [] refl
serialise_server-Serialised joined ports (attempt_direct_connect payload) =
    new_json-Serialised ports (deserialise_server joined ports) attempt_direct_connect payload 7
      (λ bytes. refl)
serialise_server-Serialised joined ports start_relay_mode =
    new_raw-Serialised (deserialise_server joined ports) start_relay_mode 8 [] refl
serialise_server-Serialised joined ports (relay payload) =
    new_raw-Serialised (deserialise_server joined ports) (relay payload) 9 payload.bytes refl

-- A client's message is serialised, without a panic, to its type id and its data, which the
-- server deserialises as the same message; except that it is refused where serde_json fails on its
-- payload, and where its data is longer than 32767 bytes, with the length of the data.
pub serialise_client-Serialised :
    (keys : Serde KeyPayload) (ports : Serde PortBindings) (message : ClientMessage)
    → Returns
        (Serialised (deserialise_client keys ports) message (client_wire keys ports message))
        (serialise_client keys ports message)
unfolding serialise_client deserialise_client
serialise_client-Serialised keys ports client_close =
    new_raw-Serialised (deserialise_client keys ports) client_close 0 [] refl
serialise_client-Serialised keys ports (key payload) =
    new_json-Serialised keys (deserialise_client keys ports) key payload 1 (λ bytes. refl)
serialise_client-Serialised keys ports (direct_connect_bound payload) =
    new_json-Serialised ports (deserialise_client keys ports) direct_connect_bound payload 2
      (λ bytes. refl)
serialise_client-Serialised keys ports direct_connect_succeeded =
    new_raw-Serialised (deserialise_client keys ports) direct_connect_succeeded 3 [] refl
serialise_client-Serialised keys ports direct_connect_failed =
    new_raw-Serialised (deserialise_client keys ports) direct_connect_failed 4 [] refl
serialise_client-Serialised keys ports (client_relay payload) =
    new_raw-Serialised (deserialise_client keys ports) (client_relay payload) 5 payload.bytes refl
