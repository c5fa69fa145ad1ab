-- ===== src/Lib.antt =====
-- Verification of Satis: the virtual file system that its plans run on, the language of its chunks and
-- the values of its variables, the checks on the graph of a plan, and the order of a batch of tasks.
--
-- The program. Satis runs plans whose steps (chunks) create, read, write, move and delete files of
-- a virtual file system (the package vfs). A chunk works in a transaction: what it does is seen by
-- others only once its transaction commits. The service in memory (vfs/memory.go) is the one
-- modelled here.
--
-- Vfs/Types.antt has the data of vfs/types.go, vfs/api.go and vfs/errors.go: a struct is a record
-- with the fields of the source, an error a constructor of VfsError. A Go string or byte slice is a
-- list of bytes, a time a number of nanoseconds.
--
-- Vfs/Names.antt has normalizeVirtualPath (vfs/disk.go) with strings.TrimSpace and filepath.Clean
-- on a Unix system, and the keys of the path index (vfs/path_index.go).
--
-- Vfs/Memory.antt and the files below Vfs/Memory have vfs/memory.go: memoryTxnState is TxnState,
-- MemoryService is MemoryService, an operation of a transaction is a function on the two (Ctx of
-- Exec.antt), which the exported method wraps by requireTxn and by writing the transaction's state
-- back (in_txn). What is written before an error stays written, as in Go. Create is create and
-- create_body, Read is read and read_body, and likewise Write, Delete and Rename (Edit.antt, with
-- the content of each write mode in Content.antt); BeginChunkTxn, CommitChunkTxn and
-- RollbackChunkTxn are in Txns.antt, Resolve is resolve_committed, ListDir is list_dir (Listing.antt). Go walks a map in no fixed order; the model walks it in that of its
-- list, which matters for listDir only where two paths of a directory have entries of one key. Calls.antt has histories: lists
-- of calls, each with its time, that several transactions may interleave in any order.
--
-- Bridge.antt and the files below Bridge have searches on the graph of a plan (bridge/plan.go): a plan's
-- chunks and its edges by their identifiers. Bridge/Search.antt is the breadth-first loop,
-- Bridge/Graph.antt has isConditionalEdgeKind, findUnreachable, edgeCreatesBackReference and
-- validateBackEdgesRequireLoopPolicy (bridge/validate.go), where an issue is the edge it is about, and
-- Bridge/Corridor.antt has bfsChunkIDs and collectLoopBackCorridorChunkIDs (bridge/execute.go), not what resets and runs the chunks again. A Go
-- set is the list of its elements.
--
-- Bridge/Plan.antt has the types of a plan, validateChunkRepeat (bridge/validate.go) and the defaults of
-- policiesOrDefault and retryPolicyOrDefault (bridge/execute.go). What a map to `any` holds, a floating-point
-- number, and which texts the package text/template parses are parameters. Bridge/Codes.antt has the
-- groups of error codes (bridge/codes.go).
--
-- Bridge/Cycle.antt has hasCycle (bridge/validate.go): its inner function dfs is dfs, with how deep it may
-- call itself as fuel, and its map of colours is an association list.
--
-- Bridge/Accept.antt has two parts of ValidateChunkGraphPlan (bridge/validate.go): the loop over the edges with
-- validateLoopPolicy, and what follows the computation of the degrees: the entries, hasCycle and
-- findUnreachable, each reported only if the stage before it reported nothing.
--
-- Language.antt and the files below Language have the language of chunks. Language/Ast.antt has the
-- statements (satis/ast.go): the interface Instruction is a data type with a constructor for each
-- statement. Chars.antt has the regular expressions and strconv.Atoi, Tokens.antt tokenizeCommandLine with
-- its scanners, Values.antt parseValue, parsePathToken and the other parts of an instruction, Lines.antt
-- splitLogicalLines, and Parse/Files.antt, Parse/Objects.antt and Parse/Calls.antt the statements of
-- parseInstruction, which Parse/Chunks.antt puts together to Parse and ParseBody (satis/parser.go): a line is
-- passed over, is a header while no instruction was seen, or is an instruction. What returns an error
-- besides a value returns an Option, and Parse a number of a line. The registry of software is a value that
-- is passed in. Language/Validate.antt has Validate (satis/validate.go), with one function for each case of its
-- switch and the map objectKinds passed along. Language/Grammar.antt is a grammar of the statements on
-- files as a relation between tokens and statements, which describes the parser independently of its code.
--
-- Runtime.antt has how an instruction reads its values at run time (satis/runtime.go): a runtimeValue is a data
-- type with a constructor for each kind, the variables are a map, applyListSelector is apply_list_selector,
-- resolveValueSelection resolve_value_selection, and so on for texts, prompts, objects and paths.
--
-- Batch.antt has orderedTaskIndices, SerialScheduler and the cost levels (satis/batch_scheduler.go).
-- A task's function and the context's error are functions of a state that stands for the rest of
-- the program; sort.SliceStable is an insertion sort.
--
-- Parameters. Env holds the clock's reading and the hexadecimal SHA-256 digest; the theorems hold
-- for every function in the digest's place.
--
-- Bounds. The counters seq and rev are uint64 and wrap in the model as in the code; a theorem that
-- needs them not to wrap says so by the number of calls, or by the room that is left. A file's size is
-- a number without bound, since a length is one. The
-- loops are over lists, but for the searches, whose fuel is the number of entries and edges: a
-- chunk enters the queue once, and the theorems on the searches hold with this fuel. hasCycle calls
-- itself no deeper than there are chunks and targets, since it colours a chunk first. tokenizeCommandLine has
-- a round for each byte of the line and one more: a round takes a byte at least.
--
-- Not modelled: Glob, the locks (each operation is one step), the concurrent scheduler,
-- the texts of parse and validation errors, Validate of a nil chunk, ParseFile, the loading of the software
-- registry, the rest of the validation and the execution of plans, and the other packages: the disk service,
-- the remote service, the execution of the statements, the language models' clients, the sandboxes and
-- the terminal.
pub mod Base
pub mod Batch
pub mod Bridge
pub mod Language
pub mod Runtime
pub mod Vfs
