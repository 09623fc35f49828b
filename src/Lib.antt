-- ===== src/Lib.antt =====
-- A model of pricetime, a limit order book with price-time priority, its NASDAQ feed handlers, and
-- its matching engine (C++ headers under include/pricetime).
--
-- The parts and how they interact. An order book (book.hpp) keeps its levels in a ladder, the
-- orders of each level in a queue (level.hpp), and an index from order ids to orders (id_map.hpp).
-- Order entry validates, matches against the opposite side, and rests what is left. The engine
-- (engine.hpp) takes requests off a TCP stream (wire.hpp), runs them on a book, answers each and
-- encodes market data as ITCH messages (itch_writer.hpp) that leave in MoldUDP64 packets
-- (moldudp64.hpp). A replay (itch_replay.hpp) reads a framed file (itch_reader.hpp), decodes its
-- messages (itch.hpp) and applies them to the books of all symbols (multi_book.hpp). A sandbox
-- simulates a market maker (market_maker.hpp) whose order waits in a real queue
-- (queue_position.hpp).
--
-- Which file models which part:
-- - Types: include/pricetime/types.hpp, and the result codes of include/pricetime/book.hpp.
-- - Level: include/pricetime/level.hpp. The intrusive list is the list of the orders themselves,
--   head first, so the book keeps no pool. Tally compares aggregates and queue.
-- - OrderPool: include/pricetime/order_pool.hpp, the nodes as numbers with their `next` fields;
--   FreeList is about the list through them, Nodes about the calls in any order.
-- - LadderMap: include/pricetime/ladder_map.hpp. A `std::map` is the list of its levels, best
--   first. `settle` is a write of a level followed by `on_level_empty` if its count is 0. Sides
--   has the invariant of one side.
-- - LadderDense: include/pricetime/ladder_dense.hpp. `get_or_create` is `activate`,
--   `on_level_empty` is `deactivate`. Scan is about its scan for the next best level.
-- - LadderPooled: include/pricetime/ladder_pooled.hpp; `park` is `on_level_empty` of one side.
--   Recycling compares it with LadderMap.
-- - IdMap: `StdIdMap` of include/pricetime/id_map.hpp, an association list; IdMap.OpenAddress:
--   `OpenAddressMap` of the same file. IdMap.Agree: what it means that an index lists orders.
-- - Matching: `match` and `available` of include/pricetime/book.hpp, one function for a turn of
--   each loop (`prevent`, `trade`), one for each loop (`match_level`, `match_levels`). Rule has
--   the invariant rules of the loops; Fills, Frame, Prices, Scan, Entries, Index and Reach apply
--   them.
-- - Book: `OrderBook<MapLadder, StdIdMap>` of include/pricetime/book.hpp, and `apply` of
--   include/pricetime/op.hpp. Entry, Removal and Guarantees are about its operations, Invariant
--   has the invariant. Entries, Index, Room and Sound: the index of its orders; Uncrossed: its
--   best prices; History: the sequences of its operations, a step for each public operation. Same,
--   Front, Mirror and Feed: a second book that takes the executions of a match one by one;
--   Messages and Replacing: what it takes of an order's entry and of a replace; Each, Orders: what
--   the operations keep of the orders and of the index. Views: its depth snapshot and state hash,
--   and include/pricetime/hash.hpp.
-- - Symbol, Itch, Itch.Writer, Itch.Reader: include/pricetime/symbol.hpp, itch.hpp,
--   itch_writer.hpp and itch_reader.hpp there; Itch.RoundTrip, Itch.Orders, Itch.Stream and
--   Itch.RawStream relate them, Itch.Visits is about the rounds of the framed walk. Itch.Chunks:
--   include/pricetime/itch_stream.hpp; a file is its bytes, and `overrun` is a write behind the
--   end of the buffer. Cut is about where a walk stops, Outcome about one round; Stitch and Whole
--   compare the rounds with one framed walk.
-- - Spsc: include/pricetime/spsc_queue.hpp. A thread's call is a sequence of accesses to what the
--   other thread writes, and `Producer` and `Consumer` say before which one it stands; Threads has
--   the interleavings, Ring the positions, Invariant the invariant of the shared state, Doubling
--   the constructor's loop, Contract what the two ends can count on.
-- - Wire: include/pricetime/wire.hpp. Mold: include/pricetime/moldudp64.hpp; Blocks is about its
--   packer, Gaps about its tracker.
-- - Engine: `handle`, and the intake loop of `recv_loop`, of include/pricetime/engine.hpp.
--   Answers: the responses of each handler. Service: the requests of the match thread, one after
--   another. Messages, Published: the bytes of the market-data queue. Feed, Removals, Replaces:
--   what each handler publishes against what it does to the book; Integrity: all that was
--   published, in any history; Rebuild: the same read by the replayer. Drain: how `match_loop`,
--   `send_loop` and `md_loop` come to their end while the thread before still pushes; Drain/Losing
--   what is lost. Datagrams: what `md_loop` makes of the messages, and what a receiver reads.
--   Batches: what `send_loop` makes of the responses.
-- - MultiBook, Replay: include/pricetime/multi_book.hpp and itch_replay.hpp. Books, Total:
--   arbitrary messages; Follow, Removals, Mirror: messages of one symbol.
-- - StatsObserver: the observer of tools/book_stats.cpp. Cli: tools/cli.hpp.
-- - QueuePosition, MarketMaker: include/pricetime/queue_position.hpp and market_maker.hpp.
-- - Common: list, option and word helpers; Tests: the properties at concrete inputs.
--
-- The books of the engine and of the replay index their orders with `OpenAddressMap` in the source
-- and with the association list here, as does the owner index of MultiBook.
--
-- Numbers. A quantity, an id and a count are natural numbers, with their width as a hypothesis
-- where it matters; the counters of the book and the totals of a level wrap at 2 ^ 64, the count
-- of a level at 2 ^ 32. Hence the accounts of the book hold modulo 2 ^ 64, and an order is added
-- under the hypothesis that fewer than 2 ^ 32 - 1 rest. A price is an integer: the book only
-- compares prices. A sum or a product of the market maker that int64 does not hold is undefined in
-- the source, and the operation has no result; the partial sums of `peak_loop` are unbounded, and
-- fewer than 2 ^ 31 fills keep them within int64.
--
-- State. An operation takes the book and returns it, with its result code and the list of the
-- executions that it reported, oldest first. An `Order*` is the order's side, price and id; an
-- operation that follows one returns `none` if it dangles. A predicate `IsLinked` says that it
-- does not at the id that is used; History shows it of the books that the operations reach.
--
-- Threads. The accesses of the two threads of a queue are sequentially consistent: the release and
-- acquire orders of the source, which make them so, are assumed. The engine's own queues are
-- lists.
--
-- Loops. `match_levels` and `match_level` recurse on the levels and the queue. The walks over a
-- buffer have fuel, its length plus one: each turn takes at least one byte. The rounds of the
-- streamed walk have the file's length plus one: each but the last reads a byte. The binary search
-- has the number of mids plus one; each turn halves the range. The doubling of `round_up_pow2` on
-- a size_t has 64 rounds, enough for the powers of two up to 2 ^ 63. The probes of the
-- open-addressing table have its capacity, one turn round the table, and the doubling of `reserve`
-- ten times its argument plus one.
--
-- Not modelled. Sockets and files (net.hpp, thread_util.hpp, mmap_file.hpp, the threads of
-- engine.hpp), which call the operating system; the reports in doubles of market_maker.hpp; the
-- `main` functions under tools, and bench and fuzz.
pub mod Common
pub mod Types
pub mod Level
pub mod IdMap
pub mod LadderMap
pub mod LadderDense
pub mod LadderPooled
pub mod Matching
pub mod Book
pub mod Symbol
pub mod Itch
pub mod Wire
pub mod Mold
pub mod OrderPool
pub mod Spsc
pub mod StatsObserver
pub mod Cli
pub mod QueuePosition
pub mod MarketMaker
pub mod MultiBook
pub mod Replay
pub mod Engine
pub mod Tests
