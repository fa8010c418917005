-- ===== src/Shell.antt =====
-- The shells, tunshell-client/src/shell: the streams and the line editor of the fallback shell, the
-- protocol between the shell's client and server, and the forwarding of network connections.
pub mod ByteChannel
pub mod OutputStream
pub mod InputStream
pub mod Proto
pub mod Network
pub mod Interpreter
mod Tests
