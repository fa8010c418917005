-- ===== src/Udp.antt =====
-- The reliable UDP transport, tunshell-client/src/p2p/udp.
pub mod SeqNumber
pub mod Packet
pub mod Config
pub mod State
pub mod Receiver
pub mod Sender
pub mod Congestion
pub mod Resender
pub mod Rtt
pub mod Orchestrator
pub mod Negotiator
pub mod Connection
mod Tests
