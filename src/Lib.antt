-- ===== src/Lib.antt =====
-- matchX, a deterministic limit order book and matching engine with a write-ahead journal: a model of
-- its core and the theorems that hold of it.
--
-- The parts of the program and the files that model them:
--
-- crates/matchx-types/src/lib.rs is Types: orders, price levels, events, commands. The newtypes
-- OrderId and ArenaIndex are their numbers, and every integer is a natural number; an operation that
-- can overflow goes through add64, add32 or sub64 of Base/Words, which panic as a build with overflow
-- checks does.
--
-- crates/matchx-arena/src/lib.rs is Arena: the slab of orders with its free list, in the build with
-- debug assertions, where a generation per slot makes a use after free or a double free panic.
-- HugePageArena, which has no generations, is Arena/HugePages, where the answers of `mmap` are arguments;
-- Arena/HugePages/Calls has the sequences of calls of both.
--
-- crates/matchx-book/src/lib.rs is Book. FenwickTree is Book/Fenwick, where Represents says that a
-- tree stands for a function from entries to quantities; its children have the cover relation of the
-- nodes, the sums, the updates and the queries. SparseVolumeIndex is Book/SparseIndex, BTreeMap the
-- sorted association list of Book/PriceMap, the occupancy words Book/Bitset. OrderBook is Book/State
-- with insert_order in Book/Insert, remove_order and reduce_order_qty in Book/Remove, the two liquidity
-- queries in Book/Depth, the recentering of the dense window in Book/Recenter. The hash map from
-- order ids to slots is the interface IndexMap of Book/State, a record of operations and laws;
-- Book/AssocMap fills it for the tests. Arena/FreeList has the invariant of the free list. Book/Queue says
-- which list of orders the links of the orders and the ends and totals of a level stand for, Book/Levels what
-- reads of levels see of writes to the book, and Book/Queues which queues, one for each side and price, a book
-- and its arena stand for; its children follow the three operations that change queues,
-- and Book/Queues/History any sequence of them.
--
-- crates/matchx-engine/src is Engine. policy.rs is Engine/Policy. Engine/Matching/Queues follows a fill in the queues of Book/Queues. In lib.rs the state, new and emit are
-- Engine/State; match_against_book is Engine/Matching, cut into the steps of a round, with `stop` and
-- `continue` for the ways in which a round ends; the arguments and the checks of process_new_order are
-- Engine/Request, the rest of it, process_cancel and process_modify are Engine/Orders;
-- drain_stop_triggers is Engine/Stops; process is Engine/Process. The event buffer is the list of its
-- events, the newest first, and process returns it reversed.
--
-- crates/matchx-journal/src is Journal. codec.rs is Journal/Codec on the byte lists of Journal/Bytes,
-- reader.rs (read_all) and recovery.rs are Journal/Reader, where a file is its bytes and the list of
-- segment paths is the list of the files. crc32fast::hash is the parameter `crc`; the theorems that
-- need it ask that its values have four bytes. streaming_reader.rs is Journal/Streaming, where a
-- BufReader is what is left of its file. writer.rs is Journal/Writer: a directory is the list of its
-- segments in the order of their paths, each with its index, and what the operating system answers to the calls is an argument, a list of
-- successes and failures, a failed write leaving a piece of its bytes in the file. async_journal.rs is
-- Journal/AsyncJournal: callers, queue and worker thread are one state, and Step is a relation with one
-- constructor for each access of a caller to what the threads share, one for a step of the worker;
-- Reach is its closure. The worker's local variables stand in its program counter. Both flags are read
-- in one step, since `closed` is never cleared. A batch is written and its result stored in one step; a crash
-- in the middle of it leaves the file that a failed write leaves.
--
-- The engine takes a command, rejects it or changes book and arena through the operations of Book,
-- which keep the orders in Arena and the depth in the two indices, and reports each change by an event.
-- The journal stores the commands.
--
-- crates/matchx-bench/src/pipeline.rs is Pipeline: an engine and an asynchronous journal. A call of
-- `append` by the one thread that owns the pipeline is Journal/AsyncJournal/Append, whose arguments are
-- the steps that the worker takes meanwhile. Runs is the relation between a pipeline and the pipelines
-- that calls and the worker make of it, with the history of commands.
--
-- Code that can panic has the type Exec of Base/Outcome, code that returns an error the type Result of
-- Journal/Outcome. Loops that are not structural run on fuel and have the outcome out_of_fuel, apart
-- from panic. The matching loop gets one more than the quantity left and the number of orders in the
-- arena, since a round that goes on lowers their sum; the cascade of stops gets one more than the number
-- of queued stops, since a pass that changes the last price fires one and none is added; a walk in a
-- Fenwick tree gets one more than the nodes, a scan of a file one more than its bytes. The reader that
-- asks for entry after entry takes its number of rounds as an argument.
--
-- Not modelled: the release of a memory mapping, the parsing of segment names and the listing
-- of directories, a message queue of capacity 0 (it refuses every message here, where the channel hands one
-- to a waiting worker), the join of the worker thread in close, the failure that a test injects, the measurements of the benchmarks and the tests.
pub mod Base
pub mod Types
pub mod Arena
pub mod Book
pub mod Engine
pub mod Journal
pub mod Pipeline
