-- ===== src/Lib.antt =====
-- SoftUiWarp, a userspace iWARP stack: a model of its protocol layers, and what holds of them.
--
-- The stack has three layers on a TCP socket. MPA (suiw/mpa) frames payloads on the byte stream.
-- DDP (suiw/ddp) cuts messages into segments and places them: tagged messages into registered
-- buffers, untagged ones into posted buffers. RDMAP (suiw/rdmap) runs two threads, one that sends
-- work requests and one that receives messages, and reports to completion queues (common/cq.h).
--
-- The files, and the code that each is about:
--   Wire        byte order and the bytes of packed structures (htonll of common/common.h);
--               Wire/Control: the accessors of header fields there
--   Tcp, Queue  the socket and the concurrent queue, which are parameters: records of the calls
--               that the code makes, and records of their documented behaviour
--   Memory      the process's memory, as a function from addresses to bytes
--   Mpa         suiw/mpa/mpa.cpp: mpa_send, mpa_recv; Mpa/Connect: the handshake
--   Ddp         suiw/ddp/ddp.cpp and its headers; Ddp/Send, Ddp/Message and
--               Ddp/Recv: the sends, the messages and the receive
--   WorkQueue   common/cq.h and common/cq.cpp, and the operations of common/common.h
--   Rdmap       suiw/rdmap/rdmap.cpp and its headers; Rdmap/RecvLoop is rnic_recv and
--               Rdmap/SendLoop is rnic_send; Rdmap/Write, Rdmap/Sends and Rdmap/ReadTransfer
--               follow a request from one machine to the other; Rdmap/Threads is the stream with
--               both loops and its user, as a step relation
--   Daemon      libsuiw/libsuiwd.cpp: the work loop of the daemon; Daemon/Start: its main;
--               Daemon/Growth: a pass in which its lists grow
--   Suiw        libsuiw/softuiwarp.cpp: the library's calls; Suiw/Device: the device that it
--               shows; Suiw/Channel: an event channel between the library and the daemon, as a
--               step relation
--   Verbs       libibverbs/verbs.cpp: the calls that choose between this library's device and
--               those of the real library
--   Perftest    perftest/perftest.cpp: the command line; Perftest/Requests and
--               Perftest/Iterations: the init and iteration functions of write_bw.cpp,
--               read_bw.cpp, write_lat.cpp and read_lat.cpp; Perftest/Exchange and
--               Perftest/Run: the messages about buffers and the frame of a run
--   Ping        fake_ping_client.cpp: the text of a ping and the thread that serves the
--               completion queue; Ping/Main: the main thread, as steps beside that thread
--   Tests       the theorems at concrete inputs
-- The children of these modules hold what is proved of them.
--
-- State is passed explicitly: a call takes the socket, the memory, the context, and gives them
-- back. Where the code calls the other machine only through the socket, a theorem about both
-- machines says which bytes have arrived. A pointer is an address, and a gather list of `mpa_send`
-- is given by the bytes that it points to. An `int` that can be negative is of type ℤ; unsigned
-- integers are natural numbers with their wrap-around written out.
--
-- Loops that wait for the socket run on fuel, and give `none` when it runs out. `recv_all` uses one
-- unit for each call of `recv`, so a unit more than the bytes of a segment is enough; the segment
-- loop uses one for each segment; `rnic_recv` and `rnic_send` use one for each round. The theorems
-- on receiving say how much is enough. The loops of the sends run on the bytes that are left, and
-- always end. The benchmarks' waits use one unit for each poll; what the other threads do between
-- two polls is a parameter.
--
-- Not modelled: the builds with USE_TAS or RPING, the creation and joining of threads and the
-- freeing of memory (but for the devices of Verbs), log output, the sockets and the clock of the
-- benchmarks, which are parameters, the connection of the example client, the wrappers that
-- only pass a call on or return an error, and the concurrent queue, which is another project's.
-- A thread is modelled by its rounds: Rdmap/Threads interleaves the user's calls with the test at
-- the head of each loop and what its round does, in any order, so that a stream may be disconnected
-- when a loop is in a round. What a round does is one step, so two rounds that run at once are not
-- modelled there (Rdmap/Overtake says what happens when a response comes between the two parts of a
-- read request). The length of a received message is counted without a bound; it is an int in the
-- code, whose overflow at 2^31 bytes C leaves undefined.
pub mod Prelude
pub mod Wire
pub mod Tcp
pub mod Queue
pub mod Memory
pub mod Mpa
pub mod Ddp
pub mod WorkQueue
pub mod Rdmap
pub mod Daemon
pub mod Suiw
pub mod Verbs
pub mod Perftest
pub mod Ping
pub mod Tests
