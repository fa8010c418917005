-- ===== src/Server.antt =====
-- The relay server, tunshell-server/src: its sessions and what it does with two connections that it
-- has paired.
pub mod Session
pub mod Relay
pub mod Accept
mod Tests
