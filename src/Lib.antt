-- ===== src/Lib.antt =====
-- Verification of rabinFingerprinting: file transfer that cuts a file into blocks by Rabin
-- fingerprints and sends only the blocks that the other side does not have yet.
--
-- The program's parts. A `RabinServer` cuts a file into blocks, gives each a number by hashing it,
-- keeps the blocks it has sent in a map, and writes a descriptor for every block, with the data only
-- for a block that is new. A `RabinClient` reads descriptors and data, keeps the blocks in a map of
-- its own, and takes the old blocks from there. The two maps must stay in step, and nothing in the
-- protocol checks that they do. Two example programs use them for files; two relays, and two
-- bridges over Boost.Asio, put them between an HTTP proxy and a browser. Two C programs stand beside
-- them: a forward proxy, and a server through which several connections share an interpreter.
--
-- Which file models which part (paths from the root of the repository):
--   Base       shared notation, results with faults, lemmas on lists (Base/Lists, Base/Faults,
--              Base/Tests for the Boolean tests)
--   Wire       the packed `block_desc` of Server/rabinserver.h and Client/rabinclient.h as bytes
--   Socket     `write` as the server calls it, `read` and the loops of reads as the client does
--   Server     Server/rabinserver.cc (its copy under Integration/tcpproxy is the same): the class as a
--              record, `send_file` with its loop, `hash_function`, `rabin_func`, `insert_block`,
--              `write_block_to_client`; proofs by subject in Server/Hash, Cache, Pieces, Sending,
--              Totality and Delivery
--   Client     Client/rabinclient.cc (its copy under Integration/tcpclient is the same):
--              `receive_file`, `receive_block`, `insert_block`, `get_block`
--   Descriptors  the descriptors that both classes open and close, from constructor to destructor;
--              Descriptors/Files has the table of descriptors that other parts use
--   Memory     Server/rabinserver.cc and Client/rabinclient.cc again, with the pointers in their
--              maps and what is allocated and deleted. Cells is about what stands behind a pointer;
--              of the server, Blocks and Inserts are about `insert_block`, Writes about
--              `write_block_to_client`, and Files has `send_file`, which Rounds and Leaks are
--              about; Receiver has the client, Replacements is about its `insert_block`, Receptions
--              about `receive_block`, Copies about `receive_file`
--   Transfer   server and client together: what one writes, the other reads, also when a write fails
--   Relay      Integration/psb.cc and Integration/hrd.cc: the start and a turn of either loop, and in
--              Relay/Mains both programs; proofs about a turn in Relay/Chain and Turns, about whole
--              runs in Sessions, about failures in Forward and Delays, about descriptors in Leaks and Exhaustion
--   Bridge     Integration/tcpproxy/tcpproxy_server.cpp (Bridge/ProxyServer) and
--              Integration/tcpclient/tcpproxy_client.cpp (Bridge/ProxyClient): the class `bridge`
--              with its handlers, over the operations that Boost.Asio ends; Bridge/Rooms, Runs and
--              Reception are about any order of events, Rounds and Sessions about both bridges
--              together, Crossing about several of them; Endings, Lifetimes and Leaks about closed
--              bridges; Bridge/Acceptor has the class `acceptor` and both `main`
--   Programs   Server/main.cc and Client/main.cc; Programs/Mains is about both from their start
--   Proxy      the forward proxy Integration/normalproxy.c: `sscanf` and `strtok`
--              as it uses them, and what it sends on; Proxy/Urls and Proxy/Requests are about URLs
--              and whole requests; Proxy/Mains has its main, with `accept` and `fork`
--   Interpreter  the network interpreter Files/C/NewIServ.c: its state in Interpreter, `parenCheck`
--              in Interpreter/Parens, `service_client`, `read_socks` and the loop of `main` in
--              Interpreter/Service; proofs in Interpreter/Table (connections), Reading, Replies,
--              Answers and Commands (messages), Keeping, Invariant and Runs (any rounds), Turns
--              (one pass); the descriptors of its processes in Interpreter/Plumbing and Leaks, an
--              end by SIGINT in Signals; the earlier text Files/C/OldIServ.c in Interpreter/Old,
--              and the two compared in Old/Same and Old/Runs
--   Tests      the model and the theorems at concrete inputs
--
-- How code becomes definitions. An object is a record that an operation takes and returns; a map is a
-- function to `Option`. What a system call returns is a parameter: a `write` takes its outcome from a
-- list, none left meaning that all is written, in runs in which each `write` returns; a `read` takes from the segments in which the stream
-- comes, an empty segment being a read that gives nothing. An exception, the end of the program and
-- undefined behaviour are values of `Fault`. `unsigned` is ℕ with `% 2 ^ 32` written out, the host
-- being little-endian with 64-bit `unsigned long`.
--
-- Bounds and fuel. The loop of `send_file` has the number of bytes as fuel, the loops of
-- `receive_file`, of the relays and of the forward proxy the length of the stream and one more: every
-- round takes a byte at least from what is left.
--
-- Not modelled: a `write` that never returns, and SIGPIPE, which ends a process that writes to a
-- closed peer: every theorem about writes is about runs without them; debug output; the viewer that
-- Client/main.cc starts after a round, which changes nothing of the program; the mutex in `close`,
-- since one thread runs all handlers of the bridges; of the interpreter the program in the child
-- process, a signal within a round, and `FILE_SEND`, which is in no file of the repository, and
-- descriptors beyond the size of an `fd_set`.
pub mod Base
pub mod Wire
pub mod Socket
pub mod Server
pub mod Client
pub mod Descriptors
pub mod Memory
pub mod Transfer
pub mod Relay
pub mod Programs
pub mod Bridge
pub mod Interpreter
pub mod Proxy
pub mod Tests
