-- ===== src/Lib.antt =====
-- net_base, a network library in C++ with coroutines: a model of its core and the theorems on it.
--
-- The program's parts and the files that model them:
-- - Base: lists, Boolean tests, chains of Option results and machine words, shared by all.
-- - File: include/base/file.h, the buffered file of the file loggers. File.Flush, File.Append and
--   File.Close follow `flushBuffer`, `append` and `closeFile`; File.Write has the loop over ::write,
--   File.Opening `createDir` and the constructor.
-- - Timer: include/base/timer.h. The multiset of timers is a list in the order of its comparator;
--   Timer.Bag forgets that order.
-- - Executor: include/coroutine/executor.h and src/coroutine/executor.cpp, the coroutines of a
--   thread. A thread is the map from addresses to executors and the thread-local pointers; a stack
--   and a saved context are data of their own, so that the use of freed memory shows. Both
--   libraries for contexts, ucontext and fcontext, are modelled.
-- - Scheduler: include/coroutine/scheduler.h and src/coroutine/scheduler.cpp, the queue of ready
--   executors and its loop. What an executor's callback does is a parameter. There the list of tasks
--   from other threads changes at once; Scheduler.Remote has its nodes, and the accesses that the
--   threads make to them one by one, and shows that the list seems to change at once.
-- - FdManager: include/io/fd_manager.h, the table of descriptors that the hooks consult.
-- - IoManager: include/io/io_manager.h and src/io/io_manager.cpp, which uses Timer and Scheduler.
--   Its calls of ::epoll_ctl are kept, and IoManager.Epoll says what they leave watched.
--   IoManager.Wakeup has `addRemoteTask` and `wakeup` of other threads against the loop, as steps,
--   IoManager.Blocking the theorem on `blockPending` as a whole.
-- - CoIo: src/io/co_io_function.cpp, the calls that suspend a coroutine instead of its thread, which
--   use FdManager and IoManager. CoIo.Options has the calls on flags, time-outs and closing,
--   CoIo.Connecting those that connect and sleep, CoIo.Calls those that accept, read and write, and
--   CoIo.Expiring the callback of a time-out.
-- - TcpServer: src/net/tcp/tcp_server.cpp, which binds addresses and queues accepting loops.
--   TcpServer.Serving has the loops themselves, over Socket.
-- - Logging: src/base/string_parsers.h (Logging.Pattern), src/logging/LogSStream.cpp
--   (Logging.Stream), src/logger.cpp, include/logger.h and src/logging/logger_formatters.cpp
--   (Logging.Logger), include/logging/logger_flusher.h and src/logging/logger_filename.cpp
--   (Logging.Flushers, whose Opening makes a flusher's file; Logging.Sinks has what the flushers do with a text, over File, and
--   Logging.Async the threads of the asynchronous ones as a step relation), and _LogManager with
--   include/logging/logger_data_convert.h (Logging.Manager). A logger parses its pattern with Logging.Pattern and prints into the buffer of Logging.Stream.
-- - Address: src/net/address.cpp. Address.V4, Address.V6 and Address.Resolve have the classes for IP
--   addresses and `IPAddress::create`, Address.Order the operators on addresses.
-- - Socket: src/net/socket.cpp, over Address for its addresses and IoManager for stopRead and
--   stopWrite. Socket.Messages has what src/net/socket_opt.cpp and src/net/tcp/connection.cpp send
--   and receive.
-- - Hook: src/io/hook.cpp, which of its two versions a hooked call leads to.
-- - Strings: src/base/string_piece.cpp and include/base/lstring.h, which Config uses for its keys.
-- - Config: include/config.h, `get` and `getIfExists` over the libraries for JSON and YAML.
-- - Balancer: src/balancer/io, the choice of an IOManager for a coroutine, and, in
--   Balancer.Filling, the threads that enter their managers.
-- - Info: include/base/info.h and src/base/info.cpp, names, ids and the text of a backtrace.
-- - Printing: include/base/print_helper.h, the printing of containers and of test cases' marks.
-- A function of the source has the definition of its name in snake case; a lambda or a part of a
-- long function has a helper that its comment names. A handler's state is passed on explicitly, and
-- `none` is undefined behaviour or a failed assertion, as each file's first comment says.
--
-- The loops that depend on the system run on fuel. `write` has enough with one unit for each byte
-- and each interrupting signal, the scheduler's loop with one unit for each queued executor and one
-- more, and `ioInner` with more than the signals and suspensions to come; theorems say that they then
-- return. The pattern parser and the loop of splitStringPiece run on the length of their text, and
-- the loop of `convert` on more rounds than there are digits; the theorems on them say what they
-- return. The parser that reads back what `doPrint` prints runs on the
-- size of the value. The loop of `insertFront` and the spin lock of `wakeup` have no fuel: they are
-- steps, of which there may be any number. All other loops are structural.
--
-- Taken as parameters: the system calls (`Kernel` in File and in CoIo.Options, `Sockets` in
-- TcpServer, `System` and `Calls` in Socket, `FileSystem` in File.Opening, `Names` in Address.V6; where a theorem needs their documented
-- behaviour, it is a hypothesis or a record `KernelLaws`), the clock, strftime, getaddrinfo, what
-- ::epoll_wait reports, the libraries for YAML and JSON (`Library` in Config), what a thread does
-- while a coroutine is suspended, and the callbacks of clients. Locks make the operations that they
-- guard atomic, and threads that share memory without a lock see it change in one order.
--
-- Not modelled: the arguments of hooked calls, the conversions between nodes and values, the
-- thread-local pointers of Scheduler, and messages to the log.
pub mod Base
pub mod File
pub mod Timer
pub mod Executor
pub mod Scheduler
pub mod FdManager
pub mod IoManager
pub mod CoIo
pub mod TcpServer
pub mod Logging
pub mod Address
pub mod Socket
pub mod Hook
pub mod Balancer
pub mod Strings
pub mod Config
pub mod Info
pub mod Printing
