-- ===== src/Lib.antt =====
-- A model of a game server's core library (src/lib-core), of the game program's window, input and
-- textures (src/exe-game), and of the stress client's sessions and their thread
-- (src/exe-StressTest), and what holds of them.
--
-- Server. A `Server` owns a table of sessions, a pool of worker threads with a queue of jobs, a
-- poll job and an accept job. A poll job waits for events and queues the job of each; the accept
-- job gives each client a session; a session's receive job reads from its socket into a byte ring
-- and hands what came to the server's `OnRecv`, which may call `Send`; a send queues a packet and,
-- unless another send is under way, writes the queue to the socket.
--
-- - RecvBuffer and its children: `RecvBuffer` of src/lib-core/src/Network/RecvBuffer.hpp, function
--   by function (reset is Reset, copy_in and copy_out its memcpy). The array is a function from
--   offsets to bytes; offsets and sizes are numbers that stand for an Int32 that is not negative.
--   `none` is undefined behaviour.
-- - RecvJob: `RecvJob` of src/lib-core/src/ServerJob.cpp. The results of `recv` in one Execute are
--   a list with one of four ends, so the loop is a recursion on it and needs no fuel; `OnRecv` is a
--   parameter, and Keeps and Admits are what is asked of it and of `recv`.
-- - Session: `Session` of src/lib-core/src/Network/Session.cpp with `SendJob` of ServerJob.cpp.
--   Calls of the system and the server are a trace, newest first. The results of `writev` are a
--   list, as above. The sum of the sizes and the number that `writev` returns are 32-bit patterns:
--   a number from 2^31 on is negative and goes the way of an error, `errno` being taken for neither
--   EAGAIN nor EINTR, and theorems on whole or partial writes are for fewer than 2^31 bytes.
--   Session.Threads has the same code as steps of several calls: the push, the exchange of the
--   flag, the swap, each `writev`, the clearing of the flag, `Disconnect`.
-- - SessionGroup: src/lib-core/src/Network/SessionGroup.cpp. Ids are the bit patterns of an Int64.
--   `Serves` is the table's invariant, `Reaches` its histories.
-- - WorkerThreadPool: src/lib-core/src/WorkerThreadPool.cpp as a step relation over what a thread
--   does between two points where others may run; `Reach` is any interleaving; `Stop` is the flag,
--   the writes of the events, and the threads' own steps to their ends, which the joins wait for. A
--   job's Execute and Complete end with one step, and the calls of AddJob that they make are the
--   steps of a caller.
-- - AcceptJob and PollJob: the other jobs of ServerJob.cpp, over the results of `accept` and
--   `epoll_wait`.
-- - Server: src/lib-core/src/Server.cpp, its descriptors, those that WorkerThreadPool::Start opens
--   included, and pointers, over the results of the system's calls; `Send` over the table and the
--   sessions by index.
-- - Lock: src/lib-core/include/core/Lock.hpp. The functions of pthread are a parameter with what
--   POSIX says of them; `Lockable` is what `LockGuard` asks of a lock.
-- - Endpoint: src/lib-core/src/Network/Endpoint.cpp over the bytes of a `sockaddr_storage`;
--   `inet_pton` and `inet_ntop` are parameters.
-- - Logger: src/lib-core/src/Logger.cpp and src/lib-core/include/core/Logger.hpp. A call carries
--   the formatted message, the time, and what `fopen` would yield.
-- - Game.Input and Game.Window: src/exe-game/Base/Input.cpp, src/exe-game/Base/Window.cpp and
--   src/exe-game/Game/GameWindow.cpp. Run is over the rounds of messages that the system delivers.
-- - Game.Renderer: the textures and the back buffer of src/exe-game/Base/Render/GDI/Renderer.cpp,
--   over the results of GDI and as a trace of its calls.
-- - StressTest: src/exe-StressTest/Session.cpp, over the receive buffer's operations, which
--   StressTest.RingBuffer finds to be those of its rings (src/exe-StressTest/RingBuffer.hpp). The
--   loop over packets has fuel, one more than the bytes to read, since each pass takes four at
--   least. StressTest.PollThread is src/exe-StressTest/PollThread.cpp over the results of the
--   system's calls: its map is a list of sockets and sessions, `Run` is over the turns and calls of
--   `Stop` that come, `connect` answers by the mode that its socket was given, and the second loop
--   of `ConnectClients` has the six passes that `loopCount` allows.
-- - Common: tests on numbers, lists, byte arrays, lists without repetition. Each Tests module runs
--   definitions on small inputs and applies the theorems.
--
-- Assumptions. The build is a release, but for Lock, which has both: ASSERT and assert do nothing.
-- The mutexes exclude, as Lock.Exclusion shows of guards. Outside of Session.Threads one session's
-- jobs run one at a time. A byte is any number, since bytes are only moved.
--
-- Not modelled: the memory that packets are copied to and freed from; thread creation; file locks;
-- fmt and the clock (library calls); the window system and the rest of GDI
-- (src/exe-game/Base/Render); the base headers; the creation of the stress client's threads; the
-- test programs.
pub mod Common
pub mod RecvBuffer
pub mod SessionGroup
pub mod Session
pub mod RecvJob
pub mod WorkerThreadPool
pub mod Endpoint
pub mod Server
pub mod AcceptJob
pub mod PollJob
pub mod Lock
pub mod Logger
pub mod StressTest
pub mod Game
