-- ===== src/Lib.antt =====
-- A verification library for zookeeper-cpp: the client of zk and the server configuration of zk/server.
--
-- The client hands its requests to the ZooKeeper C library and satisfies promises in that library's
-- callbacks; `connection_zk` (zk/connection_zk.cpp) is the part where the state lives, and the rest
-- makes its arguments and results. The parts and their modules, with paths under src/zk:
--
-- - Base: numbers, lists, texts as lists of bytes, decimal numbers, scanning, association lists.
-- - Error: error.hpp and error.cpp, the codes, the exception classes and `throw_error`. A function that
--   can throw has a `Result`, which is a value or an exception.
-- - Types, Acl: types.hpp, types.cpp, acl.hpp and acl.cpp.
-- - Connection: the parsing and printing of connection strings in connection.cpp. `Split` is
--   `split_each_substr`, `Match` the regular expression, `Parse` and `Params` the rest.
-- - Zk: connection_zk.cpp. `Zoo` and `Adaptors` are the C library's constants and structures and their
--   translation; `Promise` is `std::promise`; `Request` has the nine operations with one callback;
--   `Watch` the watchers, and `Watch.Race` their deliveries by several threads; `Session` the map of
--   watches with `watch`, `deliver_watch` and `close`;
--   `StateWatch` the watches of the session's state in connection.cpp; `Open` is the constructor,
--   `Client` client.cpp, and `Results` the printing in results.cpp.
-- - Multi: multi.hpp and multi.cpp, and `commit` with its completer in connection_zk.cpp.
-- - Process: server/detail, the wrappers of system calls: `Pipe`, `Transfer` for the loops of `read` and
--   `write`, `Event`, and `Subprocess`, with both sides of `fork` in `Spawn`.
-- - Server: server/configuration.cpp, with `Registry` for server/package_registry.cpp, `Classpath` for
--   server/classpath.cpp, `Run` for server/server.cpp with its constructors in `Run.Start` and its worker
--   in `Run.Worker`, and `Group` for server/server_group.cpp.
-- - Examples: the theorems at concrete inputs.
--
-- The C library is not modelled: its constants are a parameter, `Zoo`; what it returns from a call and
-- hands to a callback are arguments; and the order in which it completes requests and triggers watches
-- is any that it documents, as step relations (`Request.Delivery`, `Session.Handlers`). A promise or a
-- watcher has the place in a list as its address, and a use of a destroyed watcher, a null pointer, a
-- write past an array or, in a callback, `std::future_error` is the result `none`. A new watcher may get
-- the address of a destroyed one; the step relation leaves out that it gets one which the C library has
-- still registered, and `Examples.Sessions` shows the fault that follows then. Each handler is one step,
-- and no callback runs inside of the call of its request; `submit_fence` has that case for `load_fence`.
-- A text that is read through a `char` pointer ends at its first byte 0. `std::stod` and the printing of
-- seconds are the parameter `Seconds`.
--
-- The operating system is not modelled either: a function that makes one call has its answer as an
-- argument, a loop the list of the answers in their order, and what depends on a path, such as
-- `stat` and `mkdir`, is a function of the path. A loop whose answers end before it returns has the
-- result `none`, so that a theorem says which answers are enough.
--
-- Numbers are natural numbers and integers with the source's casts written out. Three loops recurse on
-- fuel: the split of a text and the white list take one byte a round at least and have the text's
-- length, and the binary search of a commit at least halves its range and has the range's length.
--
-- Not modelled: a server's worker and its `shutdown` at the same time (server/server.cpp), what a
-- constructor that throws leaves open (server/detail/subprocess.cpp), the lifetime of package
-- registrations, the hashes of the standard library, which are a parameter, and the bodies of its
-- futures. But for `Watch.Race` two threads do not interleave inside of one handler.
mod Base
pub mod Error
pub mod Types
pub mod Acl
pub mod Connection
pub mod Multi
pub mod Process
pub mod Server
pub mod Zk
pub mod Examples
