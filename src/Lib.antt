-- ===== src/Lib.antt =====
-- lproxy: a SOCKS5 proxy in two programs. The local end serves SOCKS5 clients and sends their data,
-- in encrypted packets, to the server, which connects to the remote hosts. Both are built on asio:
-- a session starts asynchronous operations on its sockets, and each operation, when it completes,
-- calls the handler that was bound to it.
--
-- The files, and the parts of the program that they model:
--   Base                  shared helpers: tests, lists, byte strings; `Outcome`, what a C++ call ends
--                         in (a value, an exception, or undefined behaviour); `Handler`, the code of
--                         a handler, which changes a session
--   Packet                src/core/lss/lss_packet.h: `__packet`, the types of packets, `buffers`
--   Session               src/core/lss/session.h: status, exceptions, `lss_pack_integrity_check`,
--                         `cut_lss`, and the reading on of a packet that both session classes share
--   Socks5                src/core/lss/socks5_protocol.h: greeting, request, answer
--   Server                src/core/lss/session_server.h and session_server.cpp: State (members,
--                         operations), Pack (`pack_*`, `unpack_*`), Answer (SOCKS processing), Left and
--                         Right (the handlers), World (completions of pending operations)
--   LssServer             src/core/lss/lss_server.h: the accept loop, over any class of sessions; those
--                         of both ends in it are in Server/Served and Local/Served
--   Local                 src/core/lss/session_local.h and session_local.cpp, in the same way
--   Config                src/core/lss/config_local.* (Local) and config_server.* (Server): `configure`;
--                         Keys and Complete say what comes of a file
--   Crypto                src/core/crypto: the interface `Encrypt`, and its classes Xor, Aes, Rsa, Md5,
--                         Rc4, Base64, and `Encryptor` over them
--   Tunnel                both ends together: the handshake with its configurations and key sizes, and the
--                         data of both directions (Transfer, Carried, Returned); Joint is the step
--                         relation of two sessions and the connection between them, of which
--                         Established is a run, and Agreement what holds of all runs
--   Log                   src/core/log/priority_queue.h (Queue), src/core/store/store.h (Store, over its
--                         container: Fifo, and Prioritized for src/core/log/logstore_priority.h; its
--                         threads take turns under the mutex), src/core/log/loglevel.* (Level),
--                         logoutput.h, logoutput2.h and logoutput_if.h (Output), and
--                         src/core/lss/log.cpp and log.h (Thread)
--   Program               src/core/program_options/program_options.h (Options), src/core/lss/keep.cpp
--                         (Keep), and the options of src/core/lss/local.cpp and server.cpp with
--                         typedefine.h (Start, Main)
--   Examples              runs at concrete inputs
--
-- A session is a record of its members and of the operations that are pending, `issued`. A handler of
-- the source is a function of the same or of a telling name; `f_handler` that is bound to a write
-- is `after_f`. The step relation `Step` of a World completes one pending operation, in any order
-- and with any result. Calls of CryptoPP and of asio's address classes, and the configuration, are
-- the members of `Env`; what is documented of the ciphers is in `Agrees`.
--
-- Bytes, lengths and ports are native numbers; the length field of a packet and the port keep their
-- 16 bits by an explicit remainder, and the `int` differences of lengths are the type `ℤ`. No
-- definition of the sessions or of the store runs on fuel: what comes one after the other is a step
-- relation. `drain` of the queue has fuel for every value, and `do_loop` of lkeep, which need not end,
-- has it for its rounds. The rounds of Rsa are counted by the number of blocks.
--
-- Not modelled: the primitives of CryptoPP, src/core/crypto/rc4.c, which is FreeBSD's,
-- Boost.PropertyTree, Boost.Filesystem and the shell, which are parameters; the macros that make log
-- lines; the lock-free forms of the store; the waits for threads, and the signals; timers beyond
-- their expiry; the calls of Python; and the copies of Boost in the tree.
pub mod Base
pub mod Packet
pub mod Session
pub mod Socks5
pub mod Server
pub mod Local
pub mod Tunnel
pub mod Log
pub mod Crypto
pub mod Program
pub mod Config
pub mod LssServer
pub mod Examples
