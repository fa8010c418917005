-- ===== src/Shell/Proto/Network.antt =====
-- Network messages, in a message of their own and embedded in one of the shell's; and the one kind
-- that is not read back.
use tunshell.Prelude.{
  ℕ, ◌/◌, ◌%◌, ◌^◌, ◌≡◌, ◌≤◌, ◌∙◌, refl, ap, sym, subst, suc, ltb, if◌then◌else◌, lt→ltb,
  le→not-ltb, [], none, List, ◌∷◌, some, done, Returns, Returns->>=, Result, ok, err, arith,
  length as list_length,
}
use tunshell.Prelude.Words.{IsU32}
use tunshell.Shared.Message.{RawMessage, MessageError, Serde, new_raw, read_json, i16_max, too_long}
use tunshell.Shared.Message.RoundTrip.{
  Made, Wire, json_wire, raw_of, new_raw-fitting, new_raw-Made, new_json-Made,
}
use tunshell.Shell.Proto.{
  NetworkMessage, tcp_connect, tcp_connect_result, tcp_send, tcp_recv, udp_send, udp_recv,
  tcp_close, notice, with_con_id, from_be_bytes, deserialise_send_like, serialise_network,
  deserialise_network, serialise_embedded, deserialise_embedded, make_message,
}

-- A `UdpRecv` is excepted, and a connection's id is a `u32`.
abbrev pub IsSendable : NetworkMessage → Type 0
IsSendable (udp_recv con_id bytes) = ⊥
IsSendable (tcp_send con_id bytes) = IsU32 con_id
IsSendable (tcp_recv con_id bytes) = IsU32 con_id
IsSendable (udp_send con_id bytes) = IsU32 con_id
IsSendable _ = Unit {0}

-- The type id and the data that a network message goes over the wire as, on its own and embedded.
abbrev pub network_wire : Serde NetworkMessage → NetworkMessage → Wire
network_wire networks (tcp_connect c a p) = json_wire 3 (networks.json_to_vec (tcp_connect c a p))
network_wire networks (tcp_connect_result c r) =
    json_wire 4 (networks.json_to_vec (tcp_connect_result c r))
network_wire networks (tcp_send c bs) = some (5, with_con_id c bs)
network_wire networks (tcp_recv c bs) = some (6, with_con_id c bs)
network_wire networks (tcp_close c) = json_wire 7 (networks.json_to_vec (tcp_close c))
network_wire networks (udp_recv c bs) = json_wire 10 (networks.json_to_vec (udp_recv c bs))
network_wire networks (udp_send c bs) = some (11, with_con_id c bs)
network_wire networks (notice n) = json_wire 255 (networks.json_to_vec (notice n))

abbrev pub embedded_wire : ℕ → Wire → Wire
embedded_wire type_id none = none
embedded_wire type_id (some (inner, body)) = some (type_id, inner ∷ body)

-- The length in the error for an embedded message that is too long: that of its own data, if this is
-- too long without the type id before it.
abbrev pub embedded_length : List ℕ → ℕ
embedded_length [] = 0
embedded_length (inner ∷ body) =
    if ltb i16_max (list_length body) then list_length body else suc (list_length body)

from_be_bytes-to :
    (n : ℕ)
    → IsU32 n
    → from_be_bytes (n / 2 ^ 24 % 256) (n / 2 ^ 16 % 256) (n / 2 ^ 8 % 256) (n % 256) ≡ n
from_be_bytes-to n h = omega arith

module _ (networks : Serde NetworkMessage) where
  abbrev pub ReadsAs : NetworkMessage → RawMessage → Type 0
  ReadsAs message raw = deserialise_network networks raw ≡ ok message

  pub serialise_network-Made :
      (message : NetworkMessage)
      → IsSendable message
      → Returns
          (Made (ReadsAs message) list_length (network_wire networks message))
          (serialise_network networks message)
  unfolding serialise_network deserialise_network deserialise_send_like
  serialise_network-Made (tcp_send c bs) h =
      new_raw-Made (ReadsAs (tcp_send c bs)) list_length 5 (with_con_id c bs)
        (λ fits. ap (λ n. ok (tcp_send n bs)) (from_be_bytes-to c h)) refl
  serialise_network-Made (tcp_recv c bs) h =
      new_raw-Made (ReadsAs (tcp_recv c bs)) list_length 6 (with_con_id c bs)
        (λ fits. ap (λ n. ok (tcp_recv n bs)) (from_be_bytes-to c h)) refl
  serialise_network-Made (udp_send c bs) h =
      new_raw-Made (ReadsAs (udp_send c bs)) list_length 11 (with_con_id c bs)
        (λ fits. ap (λ n. ok (udp_send n bs)) (from_be_bytes-to c h)) refl
  serialise_network-Made (udp_recv c bs) h = absurd h
  serialise_network-Made (tcp_connect c a p) h =
      new_json-Made (ReadsAs (tcp_connect c a p)) networks (tcp_connect c a p) 3
        (λ bytes e. ap (read_json (λ m. m)) e)
  serialise_network-Made (tcp_connect_result c r) h =
      new_json-Made (ReadsAs (tcp_connect_result c r)) networks (tcp_connect_result c r) 4
        (λ bytes e. ap (read_json (λ m. m)) e)
  serialise_network-Made (tcp_close c) h =
      new_json-Made (ReadsAs (tcp_close c)) networks (tcp_close c) 7
        (λ bytes e. ap (read_json (λ m. m)) e)
  serialise_network-Made (notice n) h =
      new_json-Made (ReadsAs (notice n)) networks (notice n) 255
        (λ bytes e. ap (read_json (λ m. m)) e)

  raw_eta :
      (raw : RawMessage) → raw.length ≡ list_length raw.bytes → raw_of raw.type_id raw.bytes ≡ raw
  raw_eta raw h = cc

  deserialise_embedded_lem :
      {M : Type 0} (make : NetworkMessage → M) (message : NetworkMessage) (raw : RawMessage)
      → ReadsAs message raw
      → raw.length ≡ list_length raw.bytes
      → list_length raw.bytes ≤ i16_max
      → deserialise_embedded networks make (raw.type_id ∷ raw.bytes) ≡ done (ok (make message))
  unfolding deserialise_embedded
  deserialise_embedded_lem make message raw reads same fits =
      rw (new_raw-fitting raw.type_id raw.bytes fits) (
        ap (λ r. done (make_message make r))
          (ap (deserialise_network networks) (raw_eta raw same) ∙ reads))

  module _ {M : Type 0} (make : NetworkMessage → M) (Reads : RawMessage → Type 0) (type_id : ℕ)
      (message : NetworkMessage)
      (reads : (bytes : List ℕ)
        → deserialise_embedded networks make bytes ≡ done (ok (make message))
        → Reads (raw_of type_id bytes)) where
    embed-Made :
        (w : Wire) (result : Result RawMessage MessageError)
        → Made (ReadsAs message) list_length w result
        → Returns (Made Reads embedded_length (embedded_wire type_id w)) (elim result [
          | err e ↦ done (err e)
          | ok raw ↦ new_raw type_id (raw.type_id ∷ raw.bytes)
        ])
    embed-Made none (err e) made = made
    embed-Made none (ok raw) made = absurd made
    embed-Made (some (inner, body)) (err e) made = (
      made.0
          ∙ ap too_long (
              sym (
                ap (λ b. if b then list_length body else suc (list_length body))
                  (lt→ltb i16_max (list_length body) made.1))),
      omega (arith, made.1),
    )
    embed-Made (some (inner, body)) (ok raw) (e, t, b, l, fits) =
        subst
          (λ n.
            Returns (Made Reads embedded_length (some (type_id, n ∷ body)))
              (new_raw type_id (raw.type_id ∷ raw.bytes)))
          t
          (subst
            (λ bs.
              Returns (Made Reads embedded_length (some (type_id, raw.type_id ∷ bs)))
                (new_raw type_id (raw.type_id ∷ raw.bytes)))
            b
            (new_raw-Made Reads embedded_length type_id (raw.type_id ∷ raw.bytes)
              (λ short. reads (raw.type_id ∷ raw.bytes) (
                deserialise_embedded_lem make message raw e (l ∙ ap list_length (sym b))
                  (omega (arith, fits, ap list_length b))))
              (ap (λ b. if b then list_length raw.bytes else suc (list_length raw.bytes))
                (le→not-ltb i16_max (list_length raw.bytes)
                  (omega (arith, fits, ap list_length b))))))

    pub serialise_embedded-Made :
        IsSendable message
        → Returns
            (Made Reads embedded_length (embedded_wire type_id (network_wire networks message)))
            (serialise_embedded networks type_id message)
    unfolding serialise_embedded
    serialise_embedded-Made h =
        Returns->>= (Made (ReadsAs message) list_length (network_wire networks message))
          (Made Reads embedded_length (embedded_wire type_id (network_wire networks message)))
          (serialise_network networks message) _ (serialise_network-Made message h)
          (embed-Made (network_wire networks message))

  -- A `UdpRecv` is written as JSON but read as an id and a payload: where its JSON has at least 4
  -- and at most 32767 bytes, what is read is a `UdpRecv` whose id is the number that the first four bytes of the JSON
  -- make, and whose payload is the rest of the JSON.
  pub serialise_network-udp_recv :
      (con_id a b c d : ℕ) (payload rest : List ℕ)
      → networks.json_to_vec (udp_recv con_id payload) ≡ some (a ∷ b ∷ c ∷ d ∷ rest)
      → list_length (a ∷ b ∷ c ∷ d ∷ rest) ≤ i16_max
      → (raw : RawMessage) × (serialise_network networks (udp_recv con_id payload) ≡ done (ok raw))
        × (deserialise_network networks raw ≡ ok (udp_recv (from_be_bytes a b c d) rest))
  unfolding serialise_network deserialise_network deserialise_send_like
  serialise_network-udp_recv con_id a b c d payload rest json fits = (
    raw_of 10 (a ∷ b ∷ c ∷ d ∷ rest),
    rw json (new_raw-fitting 10 (a ∷ b ∷ c ∷ d ∷ rest) fits),
    refl,
  )
