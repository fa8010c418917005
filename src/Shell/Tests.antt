-- ===== src/Shell/Tests.antt =====
-- The shell's streams, messages and forwarded ports on concrete inputs.
mod Streams
mod Messages
mod Forwarding
