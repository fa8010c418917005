-- ===== src/Shell/Network.antt =====
-- network.rs: the ports that the shell's peers forward to each other. This file has the configuration
-- and the choice of addresses; Peer has the state and the handlers. A `String` is the list of its
-- bytes. What the resolver and the sockets do are arguments.
pub mod Addrs
pub mod Peer
pub mod Handlers
pub mod Run
pub mod Ids
pub mod Agrees
pub mod Steps
pub mod Setup
pub mod Roles
pub mod Tcp
pub mod Udp
use tunshell.Prelude.{
  ℕ, ◌≡◌, refl, ap, Bool, true, false, not, ◌||◌, List, [], ◌∷◌, ◌++◌, map, Option, none, some,
  Result, ok, err, ◌==◌, if◌then◌else◌, keep_if, length,
}
use tunshell.Udp.Config.{SocketAddr}

pub data NetworkPeerBindingDirection : Type 0 where
  local_to_remote remote_to_local : NetworkPeerBindingDirection

pub data NetworkPeerProtocol : Type 0 where
  tcp udp : NetworkPeerProtocol

pub record NetworkPeerBinding : Type 0 where
  pub direction : NetworkPeerBindingDirection
  pub protocol : NetworkPeerProtocol
  pub local_addr : List ℕ
  pub local_port : ℕ
  pub remote_addr : List ℕ
  pub remote_port : ℕ

abbrev invert_direction : NetworkPeerBindingDirection → NetworkPeerBindingDirection
invert_direction local_to_remote = remote_to_local
invert_direction remote_to_local = local_to_remote

-- `NetworkPeerBinding::invert`.
unfoldable pub invert_binding : NetworkPeerBinding → NetworkPeerBinding
invert_binding binding = record {
  direction = invert_direction binding.direction;
  protocol = binding.protocol;
  local_addr = binding.remote_addr;
  local_port = binding.remote_port;
  remote_addr = binding.local_addr;
  remote_port = binding.local_port;
}

pub record NetworkPeerConfig : Type 0 where
  pub bindings : List NetworkPeerBinding

-- `NetworkPeerConfig::invert`.
unfoldable pub invert : NetworkPeerConfig → NetworkPeerConfig
invert config = record { bindings = map invert_binding config.bindings }

pub data NetworkPeerRole : Type 0 where
  client server : NetworkPeerRole

pub data SocketAddrPreference : Type 0 where
  any v4 v6 : SocketAddrPreference

-- An `io::Error` of a socket: its text.
abbrev pub SocketError : Type 0
SocketError = List ℕ

pub data NetworkError : Type 0 where
  io_failed : SocketError → NetworkError
  not_resolved : List ℕ → ℕ → NetworkError
  channel_closed : NetworkError

-- An IPv4 address has four bytes, an IPv6 address sixteen.
abbrev pub is_ipv4 : SocketAddr → Bool
is_ipv4 addr = length addr.ip == 4

unfoldable pub socket_addr_matches_preference : SocketAddr → SocketAddrPreference → Bool
socket_addr_matches_preference addr any = true
socket_addr_matches_preference addr v4 = is_ipv4 addr
socket_addr_matches_preference addr v6 = not (is_ipv4 addr)

-- `find` of an iterator.
unfoldable pub find : (SocketAddr → Bool) → List SocketAddr → Option SocketAddr
find p [] = none
find p (addr ∷ addrs) = let rest = find p addrs in if p addr then some addr else rest

-- `to_socket_addrs` of the standard library.
abbrev pub Resolver : Type 0
Resolver = List ℕ → ℕ → Result (List SocketAddr) SocketError

abbrev pub or_not_resolved : List ℕ → ℕ → Option SocketAddr → Result SocketAddr NetworkError
or_not_resolved addr port none = err (not_resolved addr port)
or_not_resolved addr port (some a) = ok a

unfoldable pub pick_addr :
    List ℕ → ℕ → SocketAddrPreference → List SocketAddr → Result SocketAddr NetworkError
pick_addr addr port preference [] = err (not_resolved addr port)
pick_addr addr port preference (first_addr ∷ addrs) =
    if socket_addr_matches_preference first_addr preference
    then ok first_addr
    else or_not_resolved addr port (find (λ a. socket_addr_matches_preference a preference) addrs)

unfoldable pub resolve_socket_addr :
    Resolver → List ℕ → ℕ → SocketAddrPreference → Result SocketAddr NetworkError
resolve_socket_addr resolve addr port preference = elim (resolve addr port) [
  | err e ↦ err (io_failed e)
  | ok addrs ↦ pick_addr addr port preference addrs
]

-- `sort_by_key(is_ipv4)`, which is stable: `false` comes first.
abbrev pub sort_by_is_ipv4 : List SocketAddr → List SocketAddr
sort_by_is_ipv4 addrs = keep_if (λ a. not (is_ipv4 a)) addrs ++ keep_if is_ipv4 addrs

unfoldable pub resolve_socket_addrs_for_connect :
    Resolver → List ℕ → ℕ → Result (List SocketAddr) NetworkError
resolve_socket_addrs_for_connect resolve addr port = elim (resolve addr port) [
  | err e ↦ err (io_failed e)
  | ok [] ↦ err (not_resolved addr port)
  | ok (a ∷ addrs) ↦ ok (sort_by_is_ipv4 (a ∷ addrs))
]

-- The `io::Error` of `connect_socket_addr`.
pub data ConnectFailure : Type 0 where
  addr_not_available : NetworkError → ConnectFailure
  no_address : ConnectFailure
  connect_failed : SocketError → ConnectFailure

abbrev last_error : Option SocketError → ConnectFailure
last_error none = no_address
last_error (some e) = connect_failed e

module _ {Stream : Type 0} (connect : SocketAddr → Result Stream SocketError) where
  unfoldable pub connect_first : Option SocketError → List SocketAddr → Result Stream ConnectFailure
  connect_first last_err [] = err (last_error last_err)
  connect_first last_err (addr ∷ addrs) = elim (connect addr) [
    | ok stream ↦ ok stream
    | err e ↦ connect_first (some e) addrs
  ]

  unfoldable pub connect_socket_addr : Resolver → List ℕ → ℕ → Result Stream ConnectFailure
  connect_socket_addr resolve addr port =
      elim (resolve_socket_addrs_for_connect resolve addr port) [
        | err e ↦ err (addr_not_available e)
        | ok addrs ↦ connect_first none addrs
      ]

-- `==` of strings.
unfoldable pub text_eq : List ℕ → List ℕ → Bool
text_eq [] [] = true
text_eq (x ∷ xs) (y ∷ ys) = let rest = text_eq xs ys in if x == y then rest else false
text_eq _ _ = false

-- `contains` of a string, for one ASCII character.
unfoldable pub contains : ℕ → List ℕ → Bool
contains c [] = false
contains c (x ∷ xs) = let rest = contains c xs in if x == c then true else rest

-- "localhost" in bytes.
abbrev pub localhost : List ℕ
localhost = b'l' ∷ b'o' ∷ b'c' ∷ b'a' ∷ b'l' ∷ b'h' ∷ b'o' ∷ b's' ∷ b't' ∷ []

-- "0.0.0.0" in bytes, which is one of the texts that parse.
abbrev pub any_v4 : List ℕ
any_v4 = b'0' ∷ b'.' ∷ b'0' ∷ b'.' ∷ b'0' ∷ b'.' ∷ b'0' ∷ []

-- `parses` is `parse::<Ipv4Addr>().is_ok()`.
unfoldable pub udp_addr_preference : (List ℕ → Bool) → NetworkPeerBinding → SocketAddrPreference
udp_addr_preference parses binding =
    if text_eq binding.local_addr localhost
    then any
    else if contains b':' binding.local_addr
    then v6
    else if parses binding.local_addr || text_eq binding.local_addr any_v4
    then v4
    else any

-- What `UdpSocket::bind` is called with: the texts that the code builds are a host and a port.
pub data BindAddr : Type 0 where
  loopback_v4 loopback_v6 unspecified_v4 unspecified_v6 : ℕ → BindAddr
  named : List ℕ → ℕ → BindAddr

unfoldable pub udp_bind_addr : List ℕ → ℕ → SocketAddr → BindAddr
udp_bind_addr addr port target_addr =
    if text_eq addr localhost
    then (if is_ipv4 target_addr then loopback_v4 port else loopback_v6 port)
    else named addr port

unfoldable pub udp_unspecified_bind_addr : SocketAddr → BindAddr
udp_unspecified_bind_addr target_addr =
    if is_ipv4 target_addr then unspecified_v4 0 else unspecified_v6 0
