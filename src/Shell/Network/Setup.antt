-- ===== src/Shell/Network/Setup.antt =====
-- Setting up the bindings leaves the connections alone.
use tunshell.Prelude.{◌+◌, refl, List, [], ◌∷◌, ◌++◌, Option, none, some, arith, Result, ok, err}
use tunshell.Shell.Proto.{ConId, notice}
use tunshell.Udp.Config.{SocketAddr}
use tunshell.Shell.Network.{
  NetworkPeerBinding, SocketError, io_failed, NetworkError, NetworkPeerBindingDirection,
  local_to_remote, remote_to_local, NetworkPeerProtocol, tcp, udp,
}
use tunshell.Shell.Network.Peer.{Sockets, NetworkPeer, Step, ◌>>?◌, send, setup_failed}
use tunshell.Shell.Network.Steps.{Steps, Steps-then, unchanged-Steps, send-Steps}
use tunshell.Shell.Network.Run.{
  Binder, target, bind_addr_of, add_udp, setup_udp, setup_tcp, setup_binding, setup_bindings,
}

module _ {Stream Sender : Type 0} (binder : Binder Sender) where
  setup_udp-Steps :
      (p : NetworkPeer Stream Sender) (c : ConId) (binding : NetworkPeerBinding)
      → Steps 0 p (setup_udp binder p c binding).0
  unfolding setup_udp
  setup_udp-Steps p c binding = resolved (target binder.resolve binder.parses binding)
    where
      bound :
          (addr : SocketAddr) (result : Result Sender SocketError)
          → Steps 0 p
              (elim result as (λ _. Step Stream Sender) [
                | err e ↦ (p, some (io_failed e))
                | ok sender ↦ add_udp p c binding addr sender
              ]).0
      bound addr (err e) = unchanged-Steps 0 p p refl refl (omega arith)
      bound addr (ok sender) =
          unchanged-Steps 0 p (add_udp p c binding addr sender).0 refl refl (omega arith)

      resolved :
          (result : Result SocketAddr NetworkError)
          → Steps 0 p
              (elim result as (λ _. Step Stream Sender) [
                | err e ↦ (p, some e)
                | ok addr ↦
                    elim (binder.bind_socket (bind_addr_of binding addr))
                      as (λ _. Step Stream Sender) [
                        | err e ↦ (p, some (io_failed e))
                        | ok sender ↦ add_udp p c binding addr sender
                      ]
              ]).0
      resolved (err e) = unchanged-Steps 0 p p refl refl (omega arith)
      resolved (ok addr) = bound addr (binder.bind_socket (bind_addr_of binding addr))

  setup_tcp-Steps :
      (p : NetworkPeer Stream Sender) (binding : NetworkPeerBinding)
      → Steps 0 p (setup_tcp binder p binding).0
  unfolding setup_tcp
  setup_tcp-Steps p binding = directed binding.direction
    where
      listening :
          (result : Option SocketError)
          → Steps 0 p
              (elim result as (λ _. Step Stream Sender) [
                | some e ↦ (p, some (io_failed e))
                | none ↦ (record p { tcp_listeners = p.tcp_listeners ++ (binding ∷ []) }, none)
              ]).0
      listening (some e) = unchanged-Steps 0 p p refl refl (omega arith)
      listening none = unchanged-Steps 0 p _ refl refl (omega arith)

      directed :
          (direction : NetworkPeerBindingDirection)
          → Steps 0 p
              (elim direction as (λ _. Step Stream Sender) [
                | remote_to_local ↦ (p, none)
                | local_to_remote ↦
                    elim (binder.bind_listener binding.local_addr binding.local_port)
                      as (λ _. Step Stream Sender) [
                        | some e ↦ (p, some (io_failed e))
                        | none ↦
                            (record p { tcp_listeners = p.tcp_listeners ++ (binding ∷ []) }, none)
                      ]
              ]).0
      directed remote_to_local = unchanged-Steps 0 p p refl refl (omega arith)
      directed local_to_remote =
          listening (binder.bind_listener binding.local_addr binding.local_port)

  setup_binding-Steps :
      (p : NetworkPeer Stream Sender) (c : ConId) (binding : NetworkPeerBinding)
      → Steps 0 p (setup_binding binder p c binding).0
  unfolding setup_binding
  setup_binding-Steps p c binding = with_protocol binding.protocol
    where
      with_protocol :
          (protocol : NetworkPeerProtocol)
          → Steps 0 p
              (elim protocol as (λ _. Step Stream Sender) [
                | tcp ↦ setup_tcp binder p binding
                | udp ↦ setup_udp binder p c binding
              ]).0
      with_protocol tcp = setup_tcp-Steps p binding
      with_protocol udp = setup_udp-Steps p c binding

module _ {Stream Sender : Type 0} (sockets : Sockets Stream Sender) (binder : Binder Sender) where
  told-Steps :
      (p : NetworkPeer Stream Sender) (step : Step Stream Sender)
      (more : NetworkPeer Stream Sender → Step Stream Sender)
      → Steps 0 p step.0
      → ((q : NetworkPeer Stream Sender) → Steps 0 q (more q).0)
      → Steps 0 p (step >>? more).0
  told-Steps p (q, none) more h k = Steps-then 0 0 p q (more q).0 h (k q)
  told-Steps p (q, some e) more h k = h

  pub setup_bindings-Steps :
      (p : NetworkPeer Stream Sender) (c : ConId) (bindings : List NetworkPeerBinding)
      → Steps 0 p (setup_bindings sockets binder p c bindings).0
  unfolding setup_bindings
  setup_bindings-Steps p c [] = unchanged-Steps 0 p p refl refl (omega arith)
  setup_bindings-Steps p c (binding ∷ bindings) =
      Steps-then 0 0 p (setup_binding binder p c binding).0 _
        (setup_binding-Steps binder p c binding)
        (ends (setup_binding binder p c binding).0 (setup_binding binder p c binding).1
          (λ q. setup_bindings-Steps q (c + 1) bindings))
    where
      ends :
          (q : NetworkPeer Stream Sender) (result : Option NetworkError)
          → ((r : NetworkPeer Stream Sender)
              → Steps 0 r (setup_bindings sockets binder r (c + 1) bindings).0)
          → Steps 0 q
              (elim result as (λ _. Step Stream Sender) [
                | none ↦ setup_bindings sockets binder q (c + 1) bindings
                | some e ↦ send q (notice (sockets.notice_text (setup_failed binding e))) >>? λ r.
                    setup_bindings sockets binder r (c + 1) bindings
              ]).0
      ends q none more = more q
      ends q (some e) more =
          told-Steps q (send q (notice (sockets.notice_text (setup_failed binding e))))
            (λ r. setup_bindings sockets binder r (c + 1) bindings)
            (send-Steps q (notice (sockets.notice_text (setup_failed binding e)))) more
