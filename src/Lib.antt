-- ===== src/Lib.antt =====
-- rednet: the framework of services that exchange events (rednet-src).
--
-- A service has a context with an id, a queue of events and a component. `ucall` sends an event to
-- an id: the context manager finds the context, the event goes to the end of its queue, and a queue
-- that gets work goes to the global queue. Worker threads take queues from there and let the
-- component execute the events. Lua services pack the values that they send with the serialiser.
--
-- Common holds what the parts share: Boolean tests on numbers, list lemmas, integers.
--
-- LuaSeri models rednet-src/lua/uluaseri.cc and uluaseri.h. Value has the Lua values: numbers are
-- 64-bit patterns, strings are lists of bytes, and a table is its array part with the pairs that
-- `lua_next` walks through. Block is the chain of blocks of `lWriteBlock`, with `push` and
-- `serialize`; Pack has its other methods, and `luaseri_pack`; Unpack has `lReadBlock` and
-- `luaseri_unpack`. The jump in `push` runs on one unit of fuel per byte, which is enough since each
-- jump follows a copy or a full block. The length of a string is an `int`, as in the source, and a run in
-- which `len__` passes 2^31 - 1 has an outcome of its own; an array part has less than 2^31 values. The
-- reader runs on two units per byte of the stream, which is enough since every call reads a byte or ends a
-- loop. The encoding that Pack is compared with is in Pack/Encode. Tables with a `__pairs` metamethod
-- are not modelled: what they hold is up to Lua code.
--
-- EventQueue models rednet-src/uevent_queue.h, uevent_queue.cc and uevent.h: the ring of a service
-- with its expansion, and the global queue. The loop over the overload threshold runs on as many
-- units as the length plus 1, which is enough since the threshold doubles. The destructor is not
-- modelled.
--
-- Dispatch models `onDispatchEvent` of rednet-src/uframework.cc as the worker threads call it, with
-- `sendEvent` of rednet-src/ucall.cc and the launch and retirement of a service. Each step is a call
-- that is atomic under its lock; the steps of all threads come in any order. A new service gets an id
-- whose old queue, if there was one, is in no thread's hands.
--
-- ContextMgr models `uctxMgr` of rednet-src/ucontext.h and ucontext.cc: the table of ids and its
-- expansion, the names, and the sessions. A round of the outer loop of `registerId` costs a unit of
-- fuel: the theorems are about what it returns when it does, and about the tables on which it does
-- not return with any fuel. The outer loop of `retireAll` has no end: `retire_all` gives the table
-- after as many of its rounds as its first argument says.
--
-- Env models rednet-src/uenv.h and uenv.cc: the settings, each call under its lock one step, with the
-- loop of `loadDeploy` in rednet-src/uframework.cc and `luaSetEnv` of rednet-src/ucall.cc. The Lua state,
-- which holds only the texts that `setEnv` puts there, is a parameter with its two calls and their laws;
-- so are `sprintf` and `strtol`. Two threads that read one setting at once are not modelled.
--
-- Ini models rednet-src/uini.h and uini.cc: the lines of a file as `fgets` delivers them in chunks,
-- the trimming and the parse of a line, and the map. The loops over chunks and lines run on one unit
-- of fuel per byte and one more, which is enough since each round reads a byte or is the last. A file
-- that holds the byte 0, and one that does not open, are outside the model.
--
-- NetDrive models rednet-src/unetdrive.h and unetdrive.cc: the sockets of a service with their
-- buffers, and what the handlers do to them. A callback is a function on the sockets, which the
-- theorems take as a parameter. A round of the loop of `onData` costs a unit of fuel: the theorems
-- are about the inputs where it ends in one or two rounds, and where it does not end.
--
-- Socket and SocketServer model rednet-src/network/usocket.h, usocket.cc, usocket_server.h and
-- usocket_server.cc. Socket has the methods of a socket; SocketServer the places of the sockets and the
-- commands of the channel; SocketServer/Calls what the other threads call; SocketServer/Poll the events
-- of the poll. What a system call returns is an argument: the counts and errors of `write`, the bytes of
-- `read`, whether the poll registers a handle. The bytes that were written to a handle are part of the
-- state. A method under the lock of its socket is one step, and a `write` that finds no result in its
-- list blocks. The loop of `reserveId` runs for as many rounds as there are places, as in the source.
-- A node of a socket's list is taken to have room for its fields, for which the source allocates as many
-- bytes as its data have. `operOpenSocket` is not modelled, since no command reaches it. SocketServer/Runs
-- composes the calls, the
-- commands and the events; Stream, Commands, Apart, Ready, Others, Closing, Channel, Accept and Events
-- have its steps one by one.
--
-- Timer models rednet-src/utimer.h and utimer.cc: the slots, the levels, `tick` and `timeOut`, with what
-- the clock returns as an argument. A round of the loop of `local_move` costs a unit of fuel: the
-- theorems are about the calls that return, and about those that do not with any fuel. While a slot is
-- handed out no other thread appends to it.
--
-- Calls models rednet-src/ucall.h and ucall.cc: `toAddr`, `addrTo` and the three forms of `sendEvent`, on
-- the tables of ContextMgr and the queues of Dispatch. `strtoul` of the C library is a parameter, with the
-- reading of upper-case digits in base 16 as a hypothesis where a theorem needs it. Of the commands
-- from Lua `luaSetEnv` alone is modelled, in Env, and `luaAbort`, which only calls `retireAll`.
--
-- NetGames models `protoAnalyze`, `onRecv` and the requests of service-src/service_netgames.cc with the
-- structs of service-src/gameevent.h, on the sockets of NetDrive and the calls of Calls. A round of the loop
-- of `onRecv` costs a unit of fuel, and two are enough, since a read leaves no byte. NetGames/Replies
-- models `onCallback` and the replies that it sends by `unetdrive::send`; what the memory of a reply
-- holds before it is written is an argument, and a read or a write outside the data or the buffer is an
-- outcome of its own. The acceptance of clients is not modelled.
--
-- SocketServer/Wait models the loop of `onWait` in usocket_server.cc, with the flag that
-- rednet-src/network/uchannel.cc keeps for it. A turn of the loop takes one element of a list, which has
-- what the system calls return and the commands that other threads send meanwhile; the theorems hold for
-- lists of any length.
--
-- Workers models `uworks` of rednet-src/uwork.h and uwork.cc, with the loops `onWorkLogic` and
-- `onWorkTimer` of rednet-src/uframework.cc and the start of the threads in `startup`: where each thread
-- stands, the mutex, and the condition variable, which behaves as POSIX says, wake-ups for no reason
-- included. The events that a worker handles are Dispatch's; here that is one step.
--
-- Locks models rednet-src/uspinlock.h and urecursivelock.h: one word and the counters of any number of
-- threads, where the exchange of the compiler is one step.
--
-- Modules models rednet-src/umodule.h and umodule.cc: the search along the path, the symbols, and the
-- modules that are kept. `dlopen` and `dlsym` are parameters. The loop of the search runs on one unit of
-- fuel per byte of the path and one more, which is enough since each round reads a byte or is the last.
--
-- Services models `execute` and `disponseAll` of rednet-src/ucontext.cc on the queues of EventQueue. The
-- callback of a component is a function from its user data and an event to whether it keeps the data, the
-- user data after it, and the events that it sends to its own queue. A round of `disponseAll` costs a unit
-- of fuel: one more than the events that wait is enough where the callback sends none.
--
-- Memory models rednet-src/umemory_hook.cc: the counters of all memory and of each context. The usable
-- size of a block, which the allocator tells, is an argument, and each method is one step.
--
-- Not modelled: the wrappers of system calls (the rest of rednet-src/network), the other locks, which are
-- calls of pthread, the Lua bindings and scripts, and the libraries
-- under 3rd/.
pub mod Common
pub mod LuaSeri
pub mod EventQueue
pub mod Dispatch
pub mod ContextMgr
pub mod Ini
pub mod NetDrive
pub mod Socket
pub mod SocketServer
pub mod Timer
pub mod Calls
pub mod NetGames
pub mod Workers
pub mod Locks
pub mod Modules
pub mod Services
pub mod Memory
pub mod Env
