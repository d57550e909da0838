-- ===== src/Lib.antt =====
-- The Aave V3 flash liquidator: a bot that keeps the positions of all users of an Aave V3 pool in
-- memory, watches their health factors, and looks for profitable liquidations.
--
-- The parts. internal/store holds the shared state. internal/engine/log_replay_engine.go applies the
-- pool's events to it, first the history and then a live stream, and hands the users that an event
-- concerns to the risk engine's queue. internal/engine/risk_engine.go computes health factors from
-- the store; internal/engine/strategy_engine.go chooses the liquidation with the highest profit.
-- internal/engine/tx_executor.go sends it. internal/oracle/oracle.go feeds prices into the store.
-- internal/rpc/rpc.go calls the nodes, and internal/rpc/multicall.go reads the pool in batches.
-- internal/dex/fee_cache.go keeps the swap fee of each pair of assets. cmd/bot/main.go reads the
-- configuration of internal/config, fills the store once with the users of internal/rpc/graph_client.go
-- and starts the engines. pkg/math has the fixed-point and hexadecimal helpers.
--
-- The files.
--   Prelude, Text, Hex, Ray: numbers, lists, maps, byte strings, and pkg/math. A `*big.Int` is a ℤ
--     over the native numbers, with the Euclidean quotient of `Div`; a Go string is its list of bytes;
--     `strings.ToLower` is that of ASCII texts.
--   Models: the records of internal/models, field for field.
--   Store: `StateStore` and its methods; Store/View and Store/Methods say what a lookup sees after an
--     update, Store/Pair what two writes through pointers do, which may be one reserve, and
--     Store/Fanout whom the subscriptions reach.
--   Replay: the handlers from the point where the event has been read; Replay/Events the guards, the
--     decoding and the dispatch, over a parameter for Keccak-256; Replay/Stream the history and the
--     live loop of `Start`; Replay/Fetch `fetchHistoricLogs`, over a parameter for the node.
--     Replay/Start is `Start` as a whole, with the reader and `fetchLatestBlock`. Replay/Keeps, Sound,
--     Accounts and History hold the proofs on single logs and on duplicates; Replay/Core is about what
--     the handlers read, and Replay/Delivery and Replay/Once about history and stream together.
--   Risk: Risk/Queue is the task queue, Risk/Health `computeHFMath` and `calculateHF`. Risk/Heap is
--     `RiskHeap` of internal/models/risk.go under container/heap: Risk/Heap/Swap, Order, Up, Down, Calls
--     and Removal hold the proofs. Risk/Update is `updateHeap` and the watchdog: Risk/Update/View is the
--     abstract map of the users at risk, Listing the table of their places, and Leave, Change, Newcomer
--     and Refines the update of that map. Risk/Worker is one round of `workerLoop`, over parameters for
--     the replies of the chain and the fate of a liquidation; Guards, Cooldown and Total are the proofs.
--     Risk/Worker/Context is about the context that the worker hands to the executor.
--   System: a step relation over all of these parts, with a worker's computation and its action as two
--     steps, and `Start` of the log engine as the fetch of the history, a step for each of its logs, the
--     switch to the stream and a step for each live log. System/Index, Events and Invariant are about
--     what every step keeps, System/History about the steps of the history.
--   Startup: `main` of cmd/bot/main.go up to the start of the engines, over parameters for the outside;
--     Startup/Idle is about the state in which they start.
--   Run, Strategy: `CalculateOptimalRecipe`, where a division by zero is a panic. Strategy/Amounts and
--     Strategy/Bounds are about the amounts, Strategy/Totality about the panics, Strategy/Best and
--     Strategy/Optimal about the choice.
--   Rpc: the constructor, the choice of the node and `CallWithRetry`, over a parameter for the HTTP
--     exchange.
--   Dex: `BuildCache` and `GetOptimalFee` of internal/dex/fee_cache.go, over parameters for the ABI
--     coder and the multicall; Dex/Depth is about the choice of a pool.
--   Executor: `SendLiquidation`, over parameters for the ABI coder, the signer and the nodes, where a
--     node may take a transaction although `SendTransaction` returns an error;
--     Executor/Attempts is about its attempts, Executor/Refused about nodes that refuse the estimate.
--   Oracle: `fetchAndStorePrices` from the reply on; Oracle/Prices is about the store, Oracle/Reach about
--     the queue.
--   Multicall: internal/rpc/multicall.go, over parameters for the ABI coder and the call of the node;
--     Multicall/Fields is about the bitmap, Multicall/Batches about the maps, Multicall/Reverts about
--     the reasons of reverts, Multicall/Categories the batch of E-Mode categories. Multicall/UserData is
--     internal/rpc/user_data_on_chain.go, Multicall/OnchainCall the single reads of
--     internal/rpc/onchain_call.go and internal/rpc/pool.go.
--   Bootstrap: the first filling of the store by internal/rpc/bootstrapper.go, over parameters for the
--     replies; Bootstrap/Loading and Bootstrap/Users are about the store that it leaves.
--   Graph: internal/rpc/graph_client.go, the queries, the pages and the partitions, over parameters for
--     HTTP and the JSON coder. Graph/Order is about users in order, Graph/Pages the loop over the pages,
--     Graph/Partitions, Arrivals and Borrowers the partitions, and Graph/Filling the users in the store.
--   Config: internal/config/config.go, over parameters for the environment and the address functions.
--     Config/Urls is about the list of nodes, and Config/Nodes the whole configuration
--     and the client made from it.
--   Tests: small stores and an example for each result.
--
-- State and pointers. Each method of the store runs under its lock and is one function on the
-- state. A pointer to a reserve that a method returns is the pair of user and asset, and a write
-- through it is `modify_reserve`. A `range` over a map visits an association list in its order.
-- The items of the risk heap are shared by the heap and the table: `risk_items` of the store is
-- the memory that holds them, and the heap and the table hold places in it; a new item takes the first
-- free place. In System the goroutines take turns: a log of the history or the stream, a heartbeat of the prices, a tick and each
-- half of a worker's round are steps. A half runs to its end, also where the source releases the lock.
--
-- Fuel. The loop over the chunks of `fetchHistoricLogs` runs on fuel of one more than the number of
-- blocks, and each round moves on by at least one block. The loop over the pages of The Graph runs on
-- fuel; each page that is not empty brings a user, so more fuel than users is enough. `CallWithRetry`,
-- the queries of The Graph and `SendLiquidation` have their own bounds of attempts. A sift of the heap
-- runs on fuel of one more than the position or the size, and each round moves on by at least one
-- position. All other loops are over lists.
--
-- Not modelled: the interleaving inside one step; log messages, the logger, the signals and the
-- timers of cmd/bot, the snapshot file and the contract, which are I/O or not Go code.
pub mod Bootstrap
pub mod Graph
pub mod Config
pub mod System
pub mod Startup
pub mod Executor
pub mod Oracle
pub mod Multicall
pub mod Prelude
pub mod Text
pub mod Hex
pub mod Ray
pub mod Models
pub mod Store
pub mod Run
pub mod Rpc
pub mod Dex
pub mod Risk
pub mod Strategy
pub mod Replay
pub mod Tests
