-- ===== src/Lib.antt =====
-- Verification library of the deep packet analyzer.
--
-- The program reads packets from a capture, parses them, and passes each over a load balancer to a
-- fast path, which finds or makes the record of its flow, looks into its payload for the name of
-- the service, asks the rules, and forwards or drops it. The engine runs these parts in threads with
-- queues between them; a single-threaded program and a multi-threaded program in one file do the
-- same work with simpler flows and rules. The parts:
--
-- - Tuple: the five-tuple, its canonical form and its hash (include/types.h, `canonicalTuple` of
--   src/connection_tracker.cpp). `std::hash` is a parameter.
-- - App: application types, and `sniToAppType` (include/types.h, src/types.cpp).
-- - Ip: `parseIP` and `ipToString` (src/rule_manager.cpp).
-- - Connection: the records and enums that the parts share (include/types.h).
-- - Tracker: the flow table of a fast path (src/connection_tracker.cpp). A table is the list of its
--   nodes in the order of iteration; the place of a new node and the readings of the clock are
--   arguments. A pointer to a record is the key of its node.
-- - Extract: the TLS, HTTP, DNS and QUIC extractors (src/sni_extractor.cpp). A payload is a list of
--   bytes, and a read outside of it is the fault `out_of_bounds`. The loops of the TLS and DNS
--   extractors have the length of the payload as fuel, which is enough since each round moves on.
-- - Rules: the rule manager and its file of rules (src/rule_manager.cpp). A set is the list of its
--   elements, a file the text in it.
-- - Pcap: the capture reader (src/pcap_reader.cpp) and the writes of a capture (src/dpi_engine.cpp).
--   A file is the list of its bytes. The loop over the packets has the length of the file and one as
--   fuel, which is enough since each packet takes 16 bytes at least.
-- - Packet: the packet parser and the byte order (src/packet_parser.cpp, include/platform.h). The
--   byte order of the machine is an argument.
-- - Balance: the load balancers and the choice of a worker (src/load_balancer.cpp).
-- - Queue: the bounded queue between threads (include/thread_safe_queue.h), each call one step.
-- - FastPath: `processPacket` with what it calls, and the loop around it (src/fast_path.cpp).
-- - Engine: the initialization, the reader thread, `createPacketJob`, `handleOutput` and the rule
--   interface (src/dpi_engine.cpp).
-- - Pipeline: the threads of the engine as a step relation (src/dpi_engine.cpp,
--   src/load_balancer.cpp, src/fast_path.cpp). A step is what one thread does between two calls on
--   queues; a call that would wait takes no step. The clock readings of a worker are arbitrary.
-- - Simple: the single-threaded program (src/main_working.cpp), from the file to the output.
-- - Multi: the packets, flows and statistics of the multi-threaded program (src/dpi_mt.cpp).
-- - Report: the totals over the trackers of all fast paths (src/connection_tracker.cpp).
-- - Base: what the parts share. Examples: concrete packets, flows, rules and messages.
--
-- Code that can fail returns a `Result`, whose faults are undefined behaviour, exceptions, and
-- `no_fuel` for a loop that outruns its bound. One undefined behaviour is left out: the loads of 16
-- and 32 bits of src/packet_parser.cpp are taken to be allowed at any address, as the usual machines
-- allow them, also where the pointer is not aligned. Counters of 64 bits wrap around; sizes and
-- offsets are natural numbers, since they stay far below 2 ^ 64. Locks make a call atomic, so the
-- model has calls in sequence. Bytes are natural numbers, with a bound as a hypothesis where it
-- matters.
--
-- Not modelled: the start of the threads, and their stop by running flags, shut queues and waits of
-- a fixed time; the printing of reports; the threads and queues of src/dpi_mt.cpp, which repeat
-- those of the engine; the command lines of the other programs; and the statistics of the managers
-- of threads, which only sum up counters.
pub mod Base
pub mod Tuple
pub mod App
pub mod Ip
pub mod Connection
pub mod Extract
pub mod Rules
pub mod Tracker
pub mod Pcap
pub mod Packet
pub mod Balance
pub mod Queue
pub mod FastPath
pub mod Engine
pub mod Pipeline
pub mod Simple
pub mod Multi
pub mod Report
pub mod Examples
