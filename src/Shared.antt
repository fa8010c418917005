-- ===== src/Shared.antt =====
-- What client and server share, tunshell-shared/src: the messages and the message stream of the
-- control connection.
pub mod Message
pub mod MessageStream
mod Tests
