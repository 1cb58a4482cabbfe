-- ===== src/Lib.antt =====
-- A model of the two programs of AgentGuard, in C. agfast, the fast path, reads a stream of process
-- events and scores each process, from probabilistic sketches, a policy and a graph of the processes.
-- agentguard traces a process, decides each of its system calls by a policy and keeps an audit log.
--
-- The parts and their files
--   Common      operators on the native numbers, words of 8 to 64 bits, bits, lists: what the other
--               files share, with lemmas.
--   Text        src/common.c: copy_trunc, trim_newline, str_ieq, contains_glob, skip_ws and the JSON
--               and HTML writers. A string is the list of its bytes before the terminating NUL.
--   Hash        src/common.c: fnv1a64 and mix64, on which every sketch rests.
--   StringList  src/string_list.c: the lists of a policy. `fnmatch` is a parameter.
--   Json        src/agfast_parts/policy.c: parse_json_string_token and json_get_string, json_get_long and
--               json_get_int, which the policy and the event parser use. `strtol` is a parameter.
--   Policy      src/agfast_parts/policy.c: policy_load and the checks. A policy keeps a Bloom filter
--               beside each of its lists and asks it first.
--   Parser      src/agfast_parts/parser.c: a line of JSON or CSV as an event. `strtol` is a parameter.
--   GuardSketch src/agfast_parts/guardsketch.c: per process the exact counters of its signals, a small
--               Count-Min Sketch of them, and the two risk scores.
--   Graph       src/agfast_parts/graph.c: a node for each process, with its lists and its timeline.
--   Risk        src/agfast_parts/risk_reports.c: the score of a node, from its flags and the weights of
--               the policy, with the reasons and the level.
--   Ingest      src/agfast_parts/risk_reports.c, graph_ingest_event, and load_graph_from_events of
--               src/agfast_parts/commands.c: lines go through Parser into Graph, by Policy, and Risk
--               scores the nodes. `fnmatch` is a parameter.
--   Sketch      src/agfast_parts/sketches.c: Bloom filter, Cuckoo filter, Count-Min Sketch,
--               HyperLogLog, Space-Saving and the candidate lists, each in a module of its name. The
--               sketches use the hashes and strings only; the event loop of
--               src/agfast_parts/commands.c feeds each event to them.
--
--   AgentGuard  agentguard, the tracer. Config is src/config.c: the policies and what they block;
--               Syscalls its table of system calls. Utils is src/utils.c: strings and the JSON
--               formatter. Audit is src/audit.c: the ring of entries, which Monitor, src/monitor.c,
--               fills when it blocks a call; Context is the global context both count in. Monitor
--               reads the registers and the memory of the traced process, asks Config for a decision
--               and answers with the requests that it makes of ptrace. Integrity is
--               src/integrity.c: records of files and their comparison.
--
-- Conventions. A structure is a record with the C names of its fields; an operation on a pointer to
-- it takes the record and returns the new one, with the result first where there is one. Unsigned
-- arithmetic keeps its wrap-around (`u8`, `u16`, `u32`, `u64`). A pointer that may be NULL is modelled
-- where it is not NULL. An array is a list, and an index outside it, which the theorems rule out
-- under their invariants, reads 0 and writes nothing. The allocators end the program when they fail
-- and are left out.
--
-- Fuel. A loop over a number of rounds, rows or kicks recurses on the number of rounds left, which is
-- the bound of the C loop, so no run is cut short: 64 kicks in `cuckoo_insert`, `depth` rows in the
-- Count-Min Sketch, `hashes` rounds in the Bloom filter, 50 bits in the portable rank.
-- The loop over a policy array, which the C code bounds by its text alone, takes the length of the text
-- as fuel: each round but the last moves the cursor forward. The loop that reads a string of the traced
-- process word by word takes the room in its buffer as fuel: each word but the last fills a byte at least.
--
-- Not modelled: the streaming loop process_events of src/agfast_parts/commands.c, the floating-point estimates (hll_estimate, the rates of the
-- telemetry), the printers of sketches and reports, the log lines and reports of agentguard, and
-- the walk of a directory in src/integrity.c, src/main.c and src/sandbox.c, which call the system.
pub mod Common
pub mod Text
pub mod Hash
pub mod StringList
pub mod Sketch
pub mod Json
pub mod Policy
pub mod GuardSketch
pub mod Graph
pub mod Risk
pub mod Parser
pub mod Ingest
pub mod AgentGuard
