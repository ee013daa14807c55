-- ===== src/Lib.antt =====
-- asio_kcp: a server and clients that talk over KCP, a reliable protocol on UDP.
--
-- The server (server_lib) has a connection manager, which owns the UDP socket, the timer and a container of
-- connections. A client asks for a connection with a connect packet; the manager gives out a conv, makes a
-- connection, and answers with a packet that carries the conv. From then on both ends speak KCP under this
-- conv; the timer drives KCP and removes connections from which nothing has come for ten seconds. Beside
-- this, a multicast manager sends messages to groups, and multicast clients receive them. The library KCP
-- itself (util/ikcp.c) is a copy of another project's: the model takes its operations as a record `Kcp`,
-- and states what it relies on as hypotheses.
--
-- The files:
--   Prelude            what they share: tests on numbers, lists, byte strings, integers, maps
--   StdText            "%u" and `atol` of the standard library
--   ConnectPacket      util/connect_packet.cpp; `making_..`, `is_..` and `grab_conv_..` have its names
--   Kcp                the operations of KCP that the program calls
--   Server             server_lib: Connection is connection.cpp, Container is connection_container.cpp,
--                      Manager is connection_manager.cpp, with a definition for each method; Steps takes the
--                      handlers and the calls of the application in any order; Sessions says what the server
--                      promises, without container and timers; the other files are proofs
--   UdpMulticast       server_lib/udp_multicast_manager.cpp; Timers counts the waits of a timer
--   MulticastClient    client_lib/kcp_multicast_client.cpp; Thread is the loop around `poll`
--   Facade             server_lib/server.cpp, which forwards to the two managers
--   MemberGroups       server_lib/multicast_manager.cpp; Refinement has its groups as predicates
--   Client             client_lib/kcp_client.cpp; Queue is threadsafe_queue_mutex.hpp
--   ClientWrap         client_lib/kcp_client_wrap.cpp; Thread is its loop, with the calls that come between
--                      its turns; Sleep is client_lib/kcp_client_util.cpp
--   ThreadsafeQueue    essential/utility/threadsafe_queue.hpp, with the threads that wait on it
--   BinaryStream       essential/binary_stream: binary_ostream.h and binary_istream.h; Buf is binary_buf.hpp,
--                      Appointed is appointed_buf.h, Values packs types and wide strings
--   Strutil            essential/_src/utility/strutil.cpp: CStyle, HexDump, Names, Spaces
--   Programs           TestMsg is client_with_asio/test_util.cpp and the messages of client_with_asio.cpp,
--                      TestClient is the rest of this file, with its two timers; EchoServer is
--                      server/server.cpp; MulticastTest is udp_multicast_test_server and
--                      udp_multicast_test_client, with Main for `main` of the client, and Plain is
--                      multicast_test_client
--   Tests              the theorems at concrete inputs, with a small KCP
--
-- State is passed from call to call; what a call sends and reports is a list of effects in their order;
-- an exception or the use of a null pointer is the `Exit` of a call. Results of system calls, the clock and
-- random numbers are arguments. Integers are natural numbers with the wrap-around of their width written
-- out. Two loops of the code need not end, and run on fuel: the client's loop over received messages, for
-- which one more than the messages that wait suffices, and that of the hexadecimal dump, for which one more
-- than the bytes suffices where the width is not 0. The loop that reads C-style strings takes the length of
-- the text for its fuel, since each turn takes a byte at least, and so does the one that cuts spaces off
-- the end. The wait for a connect takes the list of the updates that it makes; the loops of the threads and
-- of `main` take the lists of their passes, and the sleep that of the answers of `nanosleep`.
--
-- Not modelled: KCP itself; what happens inside a call that holds a mutex (it is one step); logging, timing
-- and stack traces (essential/utility/timer.hpp, essential/stack_trace, server_lib/asio_kcp_log.hpp, docker),
-- which do not act on the state; the unit tests; what the programs print and `main` of the servers; and
-- multicast_test_server, which calls methods that the server does not have.
mod Prelude
pub mod StdText
pub mod ConnectPacket
pub mod Kcp
pub mod Server
pub mod UdpMulticast
pub mod MulticastClient
pub mod Client
pub mod Facade
pub mod MemberGroups
pub mod ThreadsafeQueue
pub mod Programs
pub mod Strutil
pub mod BinaryStream
pub mod ClientWrap
mod Tests
