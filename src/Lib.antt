-- ===== src/Lib.antt =====
-- putup, a build system that reads Tupfiles, keeps a graph of files and commands, and runs the
-- commands whose inputs changed.
--
-- Prelude holds what the modules share: tests on numbers, lists, results, text as bytes.
-- Core/Path models src/core/path.cpp as it is built for POSIX: `normalize` and `is_normal`, in
-- Core/Path/Compose `join` and `relative`, in Core/Path/Names `parent`, `filename`, `stem` and
-- `extension`. Core/Path/Utils models src/core/path_utils.cpp.
-- Core/Instruction models src/core/instruction.cpp: the builder of a command template, its text and
-- the parser of that text.
-- Core/RobinHood models src/core/robin_hood_index.cpp and its header, on which the string and path
-- pools stand. A displacement is a `uint16_t`, so the table is followed up to 65536 slots.
-- Core/HashHex models `hash_to_hex` and `hex_to_hash` of src/core/hash.cpp.
-- Core/StringPool models `intern`, `get` and `find` of src/core/string_pool.cpp, on Core/RobinHood.
-- Core/SortedVec models src/core/sorted_id_vec.cpp: sorted vectors of ids and of pairs.
-- Graph models the node and edge tables of include/pup/graph/dag.hpp and src/graph/dag.cpp, and
-- Graph/Topo the depth-first topological sort of src/graph/topo.cpp (`topological_sort`,
-- `detect_cycles`, `is_dag`).
-- Exec/Scheduler models the event loop of `Scheduler::execute_parallel` in src/exec/scheduler.cpp,
-- which runs the jobs that the graph yields: its slots, its queue, its counters and its callbacks.
-- Exec/DependencyMap models `build_dependency_map`, whose result the event loop takes as arguments,
-- and Exec/DependencyMap/Cycle `has_cycle` and the choice of the map that `execute_parallel` makes.
-- Parser/Glob models the matching of src/parser/glob.cpp, and `glob_split_path`.
-- Samples holds the tests, and each theorem at an input that meets its hypotheses.
--
-- Outside of Core/StringPool an interned `StringId` is the text that it names, and a
-- `std::string_view` is the list of its bytes. Numbers are the native naturals. Node ids stand for `uint32_t`, and no operation
-- modelled here computes one that leaves that range; edge indices have no bound, where the source asserts
-- one. Assertions are left out: the functions are modelled on all arguments. `--x` on a `std::size_t` is written out for 0.
-- Graph/Topo recurs on fuel where the source recurs on the call stack: as many levels as the graph
-- has nodes, which is enough because each level turns a white node gray.
-- Parser/Glob recurs on fuel, the length of the pattern, which every call and every turn shortens.
-- Core/Instruction recurs on fuel, one more than the length of the text, which every turn shortens.
-- Core/RobinHood recurs on fuel, the number of slots, since a walk over all slots meets an empty one;
-- a search that ran out of it would answer `exhausted`, which no table gives.
-- Exec/DependencyMap/Cycle recurs on fuel, the number of jobs, since no job is popped twice.
-- Exec/Scheduler needs no fuel: the operating system is a list of rounds, one for each turn of the
-- loop, which says whether a launch succeeds, which children have left and how, and whether the
-- build was cancelled. A job is its index. Pipes, timeouts and the environment of a child only
-- decide what a round says, so they are not modelled.
--
-- Not modelled: the file system, the terminal and the system calls (src/platform, src/exec/runner.cpp,
-- the directory listing of src/parser/glob.cpp), allocation and containers (src/core/arena.cpp and the
-- files beside it, which the models take as lists), the texts of the error messages, and the SHA-256
-- digest, which is a library. The models also leave out the lexer, the parser and the evaluator of Tupfiles,
-- the graph builder, the index file, the ignore rules, the dependency files and the commands.
pub mod Prelude
pub mod Core
pub mod Graph
pub mod Exec
pub mod Parser
mod Samples
