-- ===== src/Lib.antt =====
-- PacketInspector: a packet filter on Linux netfilter queues that holds back the packets of a TCP flow
-- until it knows the host name of the flow's TLS ClientHello, and drops the flow if the name is on a
-- block list.
--
-- The parts, and the files that model them (paths from the repository's root):
-- Memory: reads through a pointer with a length. A pointer and its length are a list of bytes; a read
--   outside of it is the fault `out_of_bounds`, a loop that uses up its fuel is `out_of_fuel`.
-- Tls: src/hostname_extractor.cpp, lines 84 to 271. Tls.Records is collectHandshake, Tls.Hello is
--   parseClientHello, Tls is extractHostname. Offsets are uint32_t and wrap. The out parameters are
--   the spans that they are set to. Tls.Wire is an encoder, written from RFC 8446 and not from the parser.
-- Packet: include/packet.hpp and src/packet.cpp. Packet.Dissect is parseFlow and what it calls, and
--   the flow key; Packet is the class. Packet.Wire and Packet.Wire6 are encoders,
--   written from the RFCs. The bytes behind a pointer are a list, null is `none`.
-- Extractor: TcpTlsHostnameExtractor of include/hostname_extractor.hpp and src/hostname_extractor.cpp.
--   Extractor.State is the data, Extractor.Table the hash map as an association list, Extractor.Ring the
--   decided buffer and the ring of blocked flows, Extractor.Callbacks resolve and the callbacks,
--   Extractor.Feed feed, tick, sweep and flush, and Extractor.Reached the states that calls of these, in
--   any order, lead to. Extractor.Stable is an induction principle over the operations, for predicates
--   on the flows, the verdicts and the ring; Extractor.Blocked, Extractor.Justified and Extractor.Idle
--   use it, and so does Extractor.Isolated, on a flow that others run past. Extractor.Followed has a
--   flow on its own, without the table, and the table's flow beside it from its first packet on.
--   pcpp::TcpReassembly is the record `Reassembler`: each call gives the
--   callbacks that it makes, in order, and its next state; nothing is assumed of it. The policy is an
--   argument. Times are nanoseconds of the steady clock, and are arguments.
-- BlockList: src/blocklist.cpp on the lines of the file. The two hash sets are lists. BlockList.Suffixes
--   says what the sets ask to block, BlockList.Entries what a line asks for.
-- Worker: src/worker.cpp, with handle and submit of src/NFQueue.cpp. The state keeps each call of
--   nfq_set_verdict; whether the kernel takes it is a parameter. A run is a list of turns: what each recv
--   brought, and the time of the tick. The list ends where the queue was stopped or failed.
-- Poll: run_once, record_error and error of src/NFQueue.cpp, on what poll, recv and strerror return.
-- Service: the loop of src/worker.cpp over run_once: what each call meets, and where the loop breaks.
-- Setup: the constructor and the destructor of src/NFQueue.cpp, as the calls of libnetfilter_queue and of
--   setsockopt that they make; which of them fail, with what errno, is a parameter.
-- Program: src/main.cpp. The workers that it builds, its exit code, and the sums of stats_line, which
--   reads two counters of each worker twice;
--   Program.Threads is start and join of src/worker.cpp as main calls them.
-- Cli: src/cli.cpp and include/config.hpp. Strings are lists of bytes, strtoull is a parameter. A pending
--   option that waits for its value is an argument of the loop. Cli.Rendered has the other direction, the
--   options that a configuration is written as.
-- The worker feeds the packets to the extractor, which dissects them, hands the segments to the
-- reassembler, parses the stream that comes back, asks the block list through the policy, and leaves
-- verdicts in the decided buffer; the worker submits these to the queue.
--
-- Fuel: a round of the record loop goes at least six bytes on and a round over extensions or names at
-- least three, so that the stream's length and one is enough. The
-- walk over IPv6 headers has the bound of eight rounds that the code has.
--
-- Not modelled: signal handlers, what eventfd does, and in src/main.cpp the lines that the
-- statistics thread prints meanwhile, log lines, usage and other text, and failures of allocation. Each
-- worker has its own state and one thread, and what others read of it are its counters; sum_up takes
-- what was read as it is.
--
-- Base has the shared names and lemmas; Tests has runs of the model at concrete inputs.
pub mod Base
pub mod Memory
pub mod Tls
pub mod Packet
pub mod Extractor
pub mod BlockList
pub mod Worker
pub mod Poll
pub mod Service
pub mod Setup
pub mod Cli
pub mod Program
pub mod Tests
