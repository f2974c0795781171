-- ===== src/Lib.antt =====
-- A limit order book exchange: price levels, order books, pre-trade checks, the matching engine, and
-- the tools of its benchmark.
--
-- An order enters by `MatchingEngine::submitOrder`. The engine asks `RiskValidator` about it, records
-- its id, finds the `OrderBook` of its symbol and hands it over. The book matches the order against the
-- opposite side, level by level and order by order, and rests what a limit order has left. The index of
-- the book finds a resting order for its cancellation. `SpscRingBuffer` joins the producer and the
-- consumer of a benchmark, `MemoryPool` supplies its orders, and `InvariantChecker` judges the end state
-- of a run of `BenchmarkRunner`.
--
-- Which file models which part:
--   * Types: include/core/Types.hpp, Order.hpp and Trade.hpp, the data that all parts exchange.
--   * PriceLevel: include/core/PriceLevel.hpp. The deque is a list with its front first.
--   * PriceMap and Index: the standard library's `std::map<Price, ...>`, in the order of its iterators,
--     and `std::unordered_map<OrderId, ...>`, as association lists.
--   * OrderBook: include/core/OrderBook.hpp and src/core/OrderBook.cpp. Defs has `drainSide` and
--     `restOrder`, Match `addOrder` with the order types and `cancelOrder`, Query the `const` members.
--     The other modules prove: Valid states when a book is well formed; Round, Drain, Ledger and Priority
--     are about the loop, Entry and Rest about `restOrder`, Places about the index, Drained, Preserve and Outcomes about
--     `addOrder`,
--     Cancel, Removal and Cancelled about `cancelOrder`, Modest and Leaves about
--     the quantities and prices that rest, Liquidity about `availableFill`, Known about the ids that a book
--     holds, Checks about `checkInvariants`, Abstract about books up to the order of their index, Shares
--     about what trades and rests under one id.
--   * RiskValidator: include/core/RiskValidator.hpp.
--   * MatchingEngine: include/core/MatchingEngine.hpp and src/core/MatchingEngine.cpp.
--   * MemoryPool: include/utils/MemoryPool.hpp.
--   * Spsc: include/utils/SpscRingBuffer.hpp. Slots and Shape are about the storage and the indices, Fifo
--     about an operation as a whole, Threads about the two threads, whose operations are cut into steps
--     that interleave.
--   * InvariantChecker: include/benchmark/InvariantChecker.hpp and src/benchmark/InvariantChecker.cpp.
--   * Benchmark: include/benchmark/BenchmarkRunner.hpp and src/benchmark/BenchmarkRunner.cpp. Defs has
--     the baseline run, PoolRun the one in a memory pool, Pipeline the one of two threads.
--     Modes has the choice among them over the generated orders, Csv the file of results, Table
--     what is shown of a result. Filled is about what the loop over the orders trades under one id.
--   * Generator: include/benchmark/OrderGenerator.hpp and src/benchmark/OrderGenerator.cpp. Defs has the kinds
--     of orders, Loop `generate`, Stream what a generated list is.
--   * LatencyTimer: include/benchmark/LatencyTimer.hpp and src/benchmark/LatencyTimer.cpp.
--   * Floating: the interfaces to doubles and random numbers, and the conversions of include/core/Types.hpp.
--   * CsvParser: include/parser/CsvParser.hpp and src/parser/CsvParser.cpp. The lines of the file are
--     given, and the standard library's conversions of numbers are parameters.
--   * Replay: include/benchmark/ReplayEngine.hpp and src/benchmark/ReplayEngine.cpp. Output, Digits and
--     Format are about what it writes, Whole about what it returns.
--   * Feed: include/feed and src/feed, the event log and the lines that show a book.
--   * Bench: src/exchange_bench.cpp, its arguments and, in Program, the whole of it. Interactive:
--     src/main.cpp, its arguments, the session over lines of input, a replay in Replays and, in Program,
--     the whole of it.
--   * Base: what these share; the tests of a part stand in its module Tests.
--
-- How the code is written here. A call that changes an object takes the state and returns the new
-- one. An order that the program shares by pointer between the caller and a level is written in
-- both places: the incoming order is part of what a call returns, and the loop writes the maker
-- through the front of its level. Quantities, ids and times are 64-bit words whose sums and
-- differences wrap as `uint64_t` does; prices are integers, and only compared, except in `spread`,
-- whose overflow is not written out. The clock is a parameter, read by the number of trades before
-- it in a call, and in a run also by the call. Texts of rejections are constructors, one for each
-- message; Replay has their words. How the standard library prints a number is a parameter.
--
-- The loop of `drainSide` runs on fuel, the number of orders on the side and one more round. Each round
-- takes an order off the side or fills the incoming order, so the fuel is enough. The loop of `nextPow2`
-- has the wanted capacity and one more round: each round adds at least one to the power, unless the
-- shift wraps.
--
-- The loop of `fmt` is given as many rounds as its text has characters, and goes back by three in each.
--
-- `runPool` declares its pool after the engine, so the pool dies first, and an order that still rests is then
-- given back to storage that is gone. A run ends there in undefined behaviour, a value of its own, after
-- which the program may end in any way. That the CSV file can be opened is an argument of the program.
--
-- Not modelled: the measurement of memory and the unit tests. The two threads of the ring interleave in steps of one
-- access each; that the acquire and release operations of its atomics give such an order is taken for
-- granted. The arithmetic of doubles and the random engine are interfaces, with what is used of them as
-- hypotheses.

mod Base
pub mod Types
pub mod PriceLevel
pub mod PriceMap
pub mod Index
pub mod OrderBook
pub mod RiskValidator
pub mod MatchingEngine
pub mod InvariantChecker
pub mod Floating
pub mod Generator
pub mod LatencyTimer
pub mod Benchmark
pub mod Bench
pub mod Feed
pub mod Interactive
pub mod CsvParser
pub mod Replay
pub mod MemoryPool
pub mod Spsc
