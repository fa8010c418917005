-- ===== src/Lib.antt =====
-- tunshell: remote shells over a relay server or a direct connection between the peers. This
-- library is about the direct connection's transport, a reliable byte stream over UDP,
-- tunshell-client/src/p2p/udp; about the messages of the control connection,
-- tunshell-shared/src/message.rs and message_stream.rs; about the shell,
-- tunshell-client/src/shell: its messages, the ports that it forwards and the streams of its
-- fallback terminal; and about the relay server, tunshell-server/src: who is let in, which
-- connections are paired, and what the server does with a pair.
--
-- The parts and their files. Udp/SeqNumber is seq_number.rs, the wrapping positions in the byte
-- stream and their order. Udp/Packet is packet.rs: UdpPacket::parse, create, to_vec, overlaps and
-- the checksum. Udp/Config is config.rs. Udp/State is state.rs: the record UdpConnectionVars that
-- all tasks of a connection share, the setters of its state with their assertions, and the
-- channel of send events. Udp/Receiver is receiver.rs: recv_process_packet,
-- recv_reassemble_packets, recv_drain_bytes and calculate_recv_window. Udp/Sender is sender.rs:
-- the create functions and wait_for_next_packet. Udp/Congestion is congestion.rs, Udp/Resender is
-- resender.rs and Udp/Rtt is rtt_estimator.rs. Udp/Orchestrator is orchestrator.rs: the handlers
-- of the two loops, and the receive loop, which calls all of the above. Udp/Negotiator is
-- negotiator.rs: the exchange of hello and sync datagrams. Udp/Connection is connection.rs: the
-- states of a UdpConnection, bind, connect, which negotiates, and poll_read, poll_write and
-- poll_shutdown, which act on the shared variables. Shared/Message is message.rs: RawMessage, the
-- messages of the server and of its clients, serialise and deserialise; Shared/MessageStream is
-- the reading half of message_stream.rs. Shell/Proto is shell/proto.rs: the messages between the
-- shell's client and server, and the network messages that they carry. Shell/Network is
-- shell/network.rs: the configuration and the choice of addresses; Shell/Network/Peer has the
-- state of a NetworkPeer, Handlers its handle functions and Run its loop. A TCP connection that
-- is accepted gets an id, waits in tcp_pending until the other peer has connected, and then moves
-- to tcp_connections; the bytes that arrive before wait in tcp_pending_writes. Shell/ByteChannel,
-- Shell/OutputStream and Shell/InputStream are the files of these names in shell/server/fallback,
-- and Shell/Interpreter is the line editor of interpreter.rs there. Server/Session is the session
-- of db/session.rs and session_validation.rs; Server/Accept is relay/server/mod.rs: a connection
-- gives its key (negotiate_key), waits for its peer in a table (handle_accepted_connection), and
-- leaves it when it is paired, closed or expired; Server/Relay is relay/server/relay.rs, the task
-- of a pair: the attempt at a direct connection, whose failure starts the relay loop.
--
-- Modelling. A method with &mut self is a function from the variables to the variables that it
-- leaves, with its result; fallible steps of the negotiation chain by >>?, which is the question
-- mark of Rust. What may panic (unwrap, assert!, a division by zero) returns an Outcome, done or
-- panic; Result is Rust's. An unsigned integer is a natural number with the wrapping of a release
-- build written out. A Vec is a list, a HashMap is an association list, in which insert replaces.
-- A waker is the number of its task, and the field woken, which the program does not have,
-- records the wakers that were woken, in order. A channel is the list of the events sent on it.
-- The sockets (record Network and the events), the clock, the random numbers, the random order of
-- a select! and the success of try_lock are arguments. byteorder, twox_hash and serde_json are
-- parameters, and so are the sockets, the resolver and the formatting of notices of a
-- NetworkPeer: byteorder with the laws of big-endian words as hypotheses, serde_json with the law
-- that it reads what it wrote, the test of UTF-8 without any, twox_hash without any.
--
-- Bounds. There is no fuel, but in the search for the id of a connection (first_free): as many
-- rounds as connections are pending or open, and one, are enough, as long as they are fewer than
-- 2^31. Every other loop of the modelled code runs over a list, that of NetworkPeer::run over the
-- events that its select! meets. Statements about positions take the part of the sequence space
-- in which they are meant (below u32::MAX / 2 ahead for the order, below 2^32 in all for a
-- stream), as hypotheses.
--
-- Left out: the logging, the send loop and the start and stop of the tasks, the close function of
-- a connection; further the server's listeners, its lists of running tasks and its database, the
-- terminals and processes of the shell, the ciphers, the writing half of the message stream and
-- the website.
--
-- Prelude holds what the modules share: tests on numbers, lists with lengths in machine numbers,
-- association lists, machine words, Outcome, and the parameters. Udp/Tests, Shared/Tests,
-- Shell/Tests and Server/Tests run the theorems on concrete inputs.
pub mod Prelude
pub mod Udp
pub mod Server
pub mod Shared
pub mod Shell
