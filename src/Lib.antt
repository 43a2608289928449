-- ===== src/Lib.antt =====
-- A verification library for partake, a daemon that lends pieces of shared memory to its clients as
-- objects. A client allocates an object, writes it as its exclusive writer, shares it, and others open
-- it by its key; a voucher keeps an object for a while and lets others find it. A client may wait for
-- an object to be shared, or until it is the only user and may unshare the object, that is write it
-- again under a new key.
--
-- How the parts interact: common/message.hpp delimits the messages of a socket; daemon/client.hpp ties
-- socket, session and request handler together; daemon/request_handler.hpp takes the requests out of
-- a message and calls daemon/session.hpp, which finds objects and vouchers in daemon/repository.hpp by
-- their keys (daemon/key_sequence.hpp), and opens, closes, shares and unshares them through
-- daemon/handle.hpp and daemon/proper_object.hpp, which resume the requests that wait. The memory of an
-- object is an allocation of daemon/allocator.hpp; vouchers expire by daemon/voucher_queue.hpp.
-- At the start, daemon/cli.cpp makes a configuration of the command line, daemon/segment.cpp makes the
-- segment that it asks for out of the system's shared memory (daemon/shmem_mmap.cpp, shmem_sysv.cpp
-- and shmem_win32.cpp, with page sizes from daemon/page_size.cpp), and daemon/daemon.hpp accepts
-- connections (daemon/connection_acceptor.hpp) until daemon/quitter.hpp tells it to stop.
--
-- The files:
-- - Prelude: tests, lists and bits over the native numbers.
-- - SizeClass, Arena, Allocator: daemon/allocator.hpp. `Arena` is the chunk list and the free
--   lists; `allocate` and `deallocate` are `arena::allocate` and `arena::deallocate` with their
--   loops; the modules below Arena hold its invariant (Row, Counts, FreeLists, Invariant), each
--   operation (Allocation, Deallocation), the arena over time (Lifetime), and its specification
--   (Refinement). `none` stands for a failed allocation, and in `deallocate` for a failed
--   assertion.
-- - KeySequence: daemon/key_sequence.hpp. Protocol: the enumerations of protocol/partake_protocol.fbs.
-- - Object, Closing: daemon/proper_object.hpp and daemon/handle.hpp, on a `Cell`, an object with its
--   handles and what all objects share: the key sequence, the responses that were sent, and whether an
--   assertion failed. A handle is known by a number, in place of its address. A deferred request is
--   known by its sequence number, and `resume_open` and `resume_unshare` are its handler. Closing/Resume
--   and Woken are about resuming, Share, Drain, Settle and Waiting about the operations, and Unique,
--   Dropped, Writer and Close about `handle::close`, whose parts they are.
-- - Session: daemon/session.hpp, daemon/repository.hpp and daemon/voucher.hpp, on a `World` of objects,
--   vouchers and the arena; Session/Requests has the handlers of the requests, Session/Departure the
--   end of a session and of vouchers, Session/Lifetime the requests on one object as a step relation.
--   Shared pointers are replaced by `release` (Session/Release), which ends what nothing refers to.
--   Session/Ledger and its modules are about the vouchers and the memory of all objects together: what
--   each operation leaves as it is (Kept), what `release` gives back (Released), each request
--   (Balanced, Found, Requested), and any sequence of them (Lifetime, Memory). Session/Whole and its
--   modules are about the validity of all objects together, with the same steps.
-- - VoucherQueue: daemon/voucher_queue.hpp. RequestHandler: daemon/request_handler.hpp and
--   daemon/response_builder.hpp. Client: daemon/client.hpp. Message: common/message.hpp. Proquint:
--   common/proquint.hpp and common/proquint.cpp. Sizes: daemon/sizes.hpp and daemon/sizes.cpp.
--   Sizes/PowersOfTwo: what is a power of 2. TokenHashTable: daemon/token_hash_table.hpp.
-- - Text: the functions of the standard library on strings. Cli: the number parsers of
--   daemon/cli.cpp; Cli/Names its defaults and checks for names, Cli/Config `validate_segment_config`
--   and `validate_cli_args`, with what they accept in Accepted, Granularity and Sound.
-- - System: the monad of the code that calls the operating system, which extends a `Log` of calls and
--   answers; the host's answer to a call is a function of the log. System/Balance says which calls
--   acquire and release a resource. Random: common/random.cpp. PageSize: daemon/page_size.cpp.
-- - Shmem: common/posix.hpp, posix.cpp, win32.hpp and win32.cpp and the file of a mapping. Shmem/Mmap,
--   Shmem/Sysv and Shmem/Win32 model daemon/shmem_mmap, shmem_sysv and shmem_win32 (.hpp and .cpp); a
--   Lifetime module below each is about what destruction gives back.
-- - Segment: daemon/segment.hpp and daemon/segment.cpp. Daemon: daemon/daemon.hpp,
--   daemon/connection_acceptor.hpp and daemon/quitter.hpp, with Daemon/Shutdown the events of the
--   daemon as a step relation, and Daemon/Worlds its objects as a run of requests.
-- - Tests: the code on small inputs.
--
-- Numbers are natural numbers. Sizes have 64 bits: where sizes can wrap around, the remainder is
-- written out. The counts of an object and its handles (opens, open handles, vouchers) are `unsigned` in
-- daemon/handle.hpp and daemon/proper_object.hpp; here they do not wrap around, and the theorems on
-- whole runs of requests that say that no assertion fails have it as a condition that the counts stay
-- below 2 ^ 32. A policy is one of the two of the protocol, although the code takes any number of 8
-- bits. Fuel: the loop that counts leading zeros and that of log2_size take at most one round
-- for each of 64 bits, close_all as many rounds as the handle is open, drop_expired one for each
-- voucher, and the loop that delimits messages one for each byte.
--
-- Not modelled: the FlatBuffers encoding (third-party code), logging and messages, the parser of the
-- command line, sockets and timers of asio but for the events that they deliver, permissions, and
-- what is in the buckets of the hash tables. What the operating system answers is a parameter, as are
-- the random device, the canonical form of a path, and what is left of a string that was moved from;
-- the segment's description is one of the request handler. A `double` of the
-- command line is an integer of nanoseconds. The assertions of `close_session` in daemon/session.hpp
-- that no handle of the session is left are left out; a second handle of a session for an object, which
-- is what they would find, counts as a failed assertion when it is made. Vouchers that end together end
-- in the order of the list, not the earliest first. In common/message.hpp, the assertion on the error of
-- a write, and that a completion may destroy the client with its writer, are left out.
pub mod Prelude
pub mod SizeClass
pub mod Arena
pub mod KeySequence
pub mod Protocol
pub mod Object
pub mod Closing
pub mod Session
pub mod VoucherQueue
pub mod Message
pub mod Sizes
pub mod Proquint
pub mod Allocator
pub mod Client
pub mod Text
pub mod System
pub mod Random
pub mod PageSize
pub mod Shmem
pub mod Segment
pub mod Cli
pub mod Daemon
pub mod TokenHashTable
pub mod RequestHandler
mod Tests
