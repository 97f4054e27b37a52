-- ===== src/Lib.antt =====
-- A model of apexstorm, a C++ library for servers on coroutines, with the theorems that make its
-- parts correct.
--
-- The program. `lib/bytearray.cpp` is a growing array of bytes, by which the streams serialise.
-- `lib/timer.cpp` keeps timers in a set in the order of their time. `lib/iomanager.cpp` registers
-- events of file descriptors with epoll, and in its idle loop hands the callbacks of expired
-- timers, and what is registered for the events that have come, to the scheduler.
-- `lib/stream.cpp` and `lib/socket_stream.cpp` move bytes over a socket, `lib/fdmanager.cpp`
-- keeps what the hooked system calls of `lib/hook.cpp` have to know of each descriptor.
-- `lib/fiber.cpp` has the fibers, `lib/scheduler.cpp` the threads that run them and callbacks
-- from a queue, `lib/address.cpp` the addresses of sockets, `lib/log.cpp` the log,
-- `lib/http_session.cpp` the requests of a connection, `lib/config.cpp` the variables that a file
-- of settings sets.
--
-- The files.
-- - ByteArray (`lib/bytearray.cpp`, `lib/include/bytearray.h`, `lib/include/endian.h`). The
--   linked nodes are a list, `m_cur` is a place in it, a place behind the last node is a null
--   pointer. ByteArray.antt has `addCapacity`, `write`, both `read`s, `setPosition`, `clear` and
--   `toString`; Integers, Varints, Texts, Buffers and Files have the functions that stand on
--   them. Nodes and Walks relate the loops over the nodes to flat bytes, Invariant is the
--   invariant, Transfer says what one call does, Positions what `setPosition` does, Stream what a
--   sequence of writes and reads does, Refinement has the contract of all calls.
-- - Timer (`lib/timer.cpp`, `lib/include/timer.h`). A timer is named by its address, and a store
--   says what the addresses hold. The set is the list of its elements in order, and goes by the
--   comparator alone, as `std::set` does. Order has the comparator and the set, Invariant the
--   operations, Dues which timers are due, Expiry the loop over them, Due `listExpiredCb` and
--   `getNextTimer`.
-- - IoManager (`lib/iomanager.cpp`, `lib/include/iomanager.h`). The table of contexts is a list,
--   the four sets of events are a data type, `schedule` appends to the list of tasks. Contexts
--   and Joins are about one context, Registry about the table and the count of pending events,
--   Operations, Additions, Wakeups and Idle about the operations.
-- - Stream (`lib/stream.cpp`, `lib/socket_stream.cpp`): `readFixSize` and `writeFixSize` on
--   buffers over any stream, and the socket stream's `read` and `write`. Transfers says what they
--   deliver.
-- - FdManager (`lib/fdmanager.cpp`, `lib/include/fdmanager.h`): what is known of each descriptor,
--   as objects that an address names, and the table of their addresses. Table says what `get` and
--   `del` do to it, Initials what `init` makes, Timeouts of the timeouts.
-- - Hook (`lib/hook.cpp`): the hooked system calls over the managers of descriptors, events and
--   timers. Hook.antt has `do_io`, Entries the calls that sleep, connect, read, write and close,
--   Options `fcntl`, `ioctl` and the socket options. Waits and Ends are about waiting and what it
--   ends with, Timeouts about the timer of a wait; the children of Entries and Options are about
--   their calls.
-- - Http (`lib/http.cpp`, `lib/include/http/http.h`): the request methods and their texts;
--   Messages has the statuses, the fields, requests and responses, Reading is about their texts,
--   Fields about the fields.
-- - HttpServer (`lib/http_server.cpp`): `handleClient` over a session; Serving is about its loop.
-- - HttpSession (`lib/http_session.cpp`): `recvRequest` over a parser and a stream,
--   `sendResponse`. Bodies is about its loop and the body.
-- - Address (`lib/address.cpp`, `lib/include/address.h`): a field of an address is the number
--   that it holds on a machine with the lowest byte first, an address to compare is its bytes.
--   Subnets has the masks, Order the comparison, Unix the unix addresses, Hosts the text that
--   `Lookup` parts, Ones `CountBytes`; Swap is about a swap of bytes.
-- - Fiber (`lib/fiber.cpp`, `lib/include/fiber.h`): the fibers that addresses name and the three
--   pointers of a thread. Runs says what a fiber is after it gave up the thread.
-- - Scheduler (`lib/scheduler.cpp`, `lib/include/scheduler.h`). Scheduler.antt has the queue and
--   the search in it, Loop the loop of `run`, over the fibers of Fiber, Control the constructor,
--   `start` and `stop`. Queue is about the search, Visits and Callbacks about one turn of a fiber
--   or a callback, Workers is about workers in order, Turns and Rounds about what becomes of
--   them, Stops about the end of the loop.
-- - Log (`lib/log.cpp`, `lib/include/log.h`): the levels, and `LogFormatter::init` from the
--   pattern to the items; Loggers has the loggers, their appenders and the manager. Levels,
--   Patterns and Endings are about reading texts and patterns, Loggers/Reach about the way of an
--   event.
-- - Config (`lib/config.cpp`, `lib/include/config.h`): the variables that addresses name, the map
--   from names to them, and the load of a tree that yaml-cpp has parsed. Names is about `Lookup`,
--   Values about `setValue` and the listeners, Trees about `ListAllMember`, Loads about
--   `LoadFromYaml`.
-- - Common: lists over the native numbers, slices, bits, machine words, and `Result`, in which
--   `fault` is undefined behaviour or a failed assertion, and `throws` an exception.
--
-- Bounds. Unsigned subtraction is `sub64`, which wraps at `2^64`; times and counts wrap where
-- they are added, but for the scheduler's counts of threads. Loops recur on the nodes, on the
-- list, or on a counter: the writer of varints on the room in its buffer, the reader on the
-- number of rounds of its loop, `readFromFile` on one more round than the file has bytes where a
-- read of it does not fail, the stream loops on fuel, one more than there are bytes, the loop of
-- `run` on a number of rounds, `CountBytes` on one more round than there are bits, the parser of
-- patterns on one more round than there are characters, an event on two loggers, `recvRequest` on
-- one more round than the stream has answers, `handleClient` on one more round than there are
-- requests, `ListAllMember` on more than the depth of the tree, `do_io` on one more call than the
-- system answers EINTR or EAGAIN; the theorems show that these are enough. Sums of positions and
-- sizes of a byte array are not wrapped, since its bytes have to fit into memory.
--
-- Not modelled. The clock, the addresses and contents of new memory, the answers of `epoll_ctl`,
-- `epoll_wait`, `fstat` and `fcntl`, of a socket and of opening a file are arguments. Locks are
-- left out: each operation is one step. Of other threads the scheduler's loop sees what they
-- schedule while a fiber of this one has the thread, the idle fiber too. A listener that throws is
-- not modelled, and the answers of a socket and the length of a unix path are numbers of any
-- size. The HTTP parser, sockets and the TCP server are not modelled; `packages/http11` is another
-- project's parser. Logging, floats, hexadecimal dumps, the switch of contexts and the
-- system calls are not modelled.
pub mod Common
pub mod ByteArray
pub mod Timer
pub mod IoManager
pub mod Stream
pub mod FdManager
pub mod Fiber
pub mod Scheduler
pub mod Hook
pub mod Http
pub mod HttpSession
pub mod HttpServer
pub mod Address
pub mod Log
pub mod Config
