-- ===== src/Lib.antt =====
-- Verification of sas, a client and a server that stream audio over UDP, and of rxc, the library of
-- pull-driven pipelines that both are built on.
--
-- The parts, and how they interact. A client sends a SYN that names a file. The server looks the
-- sender up in its table of sessions, opens the file, answers SYN-ACK, and starts a pipeline from the
-- WAVE file to a sink that sends packets. Every later packet of the client makes one request on that
-- pipeline. The client plays what it gets through a pipeline of its own, whose source answers each
-- request by an acknowledgement. Sessions that are silent too long are taken from a heap and freed.
--
--   Base              helpers: tests, lists, 8- to 64-bit words, and Run, the result of a call that may
--                     show undefined behaviour (a null or freed pointer, a read out of bounds)
--   Transport         sas-core/include/sas/transport.h and sas-core/src/transport.c: the packet
--                     structures, the flags, *_encode and *_decode; Transport/Wire lays them out as
--                     bytes on a host of either byte order
--   Timeout           sas-server/src/timeout.c: sas_server_timeout_add, heapify and _pop, on the list of
--                     the entries in use
--   Rxc               rxc: Rxc/Connection is rxc/src/logic.c, Rxc/Pipeline is rxc/src/pipeline.c with
--                     rxc/src/schedulers/trampoline.c, Rxc/Trampoline the nodes of that file's queue
--                     in memory, Rxc/Ops is the logics of rxc/src/ops, and Rxc/Stages the sources,
--                     sinks, flows and pipelines in memory, with their constructors, rxc_source_to,
--                     rxc_source_via, rxc_flow_to, the start and the deallocation
--   Server            Server/Address, Server/Session, Server/Table and Server/Machine are
--                     sas-server/src/session.c (addr_hash and addr_eq; the sends; find, get and
--                     delete; the state machine), Server/Wav is sas-server/src/formats/wav.c,
--                     Server/Sink is sas-server/src/sink.c, Server/Loop is sas_server_run of
--                     sas-server/src/server.c, Server/Invariant what holds of the server between two
--                     packets, and Server/Program is sas-server/src/main.c with the rest of server.c
--   Client            Client is the session and the sends of sas-client/src/client.c, Client/Machine
--                     its state machine and sas_client_receive with sas-client/src/source.c,
--                     Client/Drivers is sas-client/src/drivers/ignore.c and oss.c, Client/Connect
--                     sas_client_connect_hostname, and Client/Program sas-client/src/main.c
--   Sockets           the descriptors that the two programs open and close
--   Meeting           the SYN that sas-client/src/client.c sends, as sas-server/src/session.c reads it;
--                     Meeting/Packets has the packets of a stream of session.c, Meeting/Stream how
--                     sas_client_receive takes them in order, and Meeting/Network how it takes and
--                     plays them when the network loses, repeats and reorders them; Meeting/Exchange
--                     is what sas_server_run does with a packet and sas_client_receive, from the SYN
--                     to the end of the stream, where the network keeps every packet in order
--
-- The state is passed explicitly. A pipeline is a record Pipe of the connection's demand, the
-- worker's queue, and the states of its source and its sink; callbacks are records of functions on
-- it. The server's memory is a function from pointers to sessions, so that a use of a freed session is
-- a fault, and a chain of its table is the list of its pointers. Integers are natural numbers with the
-- wrap-around of their width written out; a `long` is its 64-bit pattern.
--
-- What is outside the source is a parameter or an argument: what read, open, select, recvfrom, the
-- clock, the resolver, the sockets and the audio device give, what the network does to the packets,
-- whether sendto fails, the byte order, the padding bytes, and what malloc and the stack leave in
-- memory that the code does not initialise. malloc itself does not fail, save in
-- Rxc/Stages, where the memory has a number of blocks for the stages, the logics, the requests with
-- their queue nodes, and the elements, and in the two programs.
--
-- Fuel bounds the loops of the heap, of the worker and of the expiry of sessions, of which each round
-- uses up an index, a level of the heap, a request or an entry of the heap. up_loop has the index and
-- one, heapify the length of the heap and one, expire the length of the heap and one. The worker has 2
-- where a sink makes one request at a time, as in the server and the client; for the operators it is
-- an argument. The start of pipelines in memory has a fuel for the depth of the stages, which is twice
-- the number of flows and three. The exchange of Meeting/Exchange has a fuel for its rounds, which is
-- the number of chunks and two.
--
-- Not modelled: logging and the usage messages, the deallocation of logics, workers and connections,
-- which nothing calls, and the interfaces for codecs and filters, which no code implements. A pipeline
-- of the server or of the client is started from its logics and not from stages in memory, since
-- neither has a flow.
mod Base
pub mod Client
pub mod Meeting
pub mod Rxc
pub mod Server
pub mod Sockets
pub mod Timeout
pub mod Transport
