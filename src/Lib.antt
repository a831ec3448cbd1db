-- ===== src/Lib.antt =====
-- The verification library of foxfire-sniper, a Solana trading bot: its agents, their strategies, the
-- shared cache and the account table, as functions, with theorems about them.
--
-- The program. Collectors turn what the chain, the clock and the users do into events
-- (src/types/events/events.rs). The engine hands every event to each strategy, a strategy to the state
-- machines of its agents, and an agent answers by a transition whose entry action queues an order. The
-- strategy hands the queued orders to the executor, which sends them to the chain and reports back by
-- an ExecutionResult; a collector later reports the receipt.
--
-- The modules.
--  Base          Boolean tests, lists over native numbers, association lists, and Outcome: a result or a
--                panic (unwrap, division by zero, an index out of bounds).
--  Types         src/types/actions, src/types/events/events.rs, src/strategies/events.rs and
--                src/config/constants.rs. Keys, identifiers and signatures are numbers. Events are over
--                the type of the prices.
--  Stopwatch     src/utils/stopwatch.rs, with the cast to u64 and the division by the tick.
--  Cache         src/utils/circular_buffer.rs, src/utils/circular_buffer_w_rev.rs, the signatures of
--                src/config/cache.rs, and one round of the loop of
--                src/collectors/poll_tx_confirmation_collector.rs.
--  Accounts      src/solana/generic_api.rs with the account table of src/config/cache.rs.
--  Statechart    What the program relies on of the library of state machines (the crate statig): a
--                handler answers, a transition runs the exit action of the source and the entry action
--                of the target. A record Library with this law is a parameter of the theorems on runs.
--  Orders        queue_action, process_execution_receipt and is_cooled_down_before_retry, which both
--                kinds of agent repeat.
--  Agent         src/strategies/volume_strategy/agent/agent_state_machine.rs: State holds AgentState
--                and the getters, Entry the entry actions, Handlers the handlers of the states.
--  Sniper        src/strategies/sniper_strategy: State and Handlers the agent of one snipe, Strategy the
--                tests of a new pool and the table of the snipes, Strategy.Dispatch the hand-over of
--                events, Strategy.Process process_event, Strategy.Reach their steps.
--                The operations on f64 are a parameter (Floats), with no law.
--  Utils         src/utils/math.rs, src/utils/rolling_average.rs and src/utils/fee_metrics.rs. The shares
--                of the random distribution, the rank of a percentile and the rounding of floats are
--                parameters.
--  Volume        src/strategies/volume_strategy/strategy_state_machine.rs: Status the status of a
--                tranche, Batches the chunks of transfers, Actions and Funding the entry and exit
--                actions, Machine the handlers, Process process_event of strategy.rs.
--  Sweeper       src/strategies/sweeper_strategy: Machine the states, the actions and process_event,
--                Dispatch the hand-over of events and drop.
--  Executor      src/executors: Instructions the calls of the Solana libraries and the results, Steps one
--                step of an action, Build the checks and the loop of build_instructions.rs, Estimate
--                its compute units, Execute the two executors and execute_tx.rs. A lock is free or
--                held by the call.
--  Manager       src/strategies/solana_strategy_manager.rs: Registry the table of the strategies, Runner
--                the loop over their tasks, Identifiers src/utils/crypto.rs and the order of keys.
--  Feed          src/collectors/realtime_feed_events_collector.rs: Updates parse_account, State
--                the cache and the receipts, Reserves the prices, Stream parse_transaction; Transactions
--                and Swaps are src/solana/tx_parser.rs.
--  Deposit       src/strategies/deposit/strategy.rs.
--  Aggregators   src/aggregators: TickBar one bar, TickBars and EveryTick the bars and the indicators of a
--                pool, Indicators aggregate_event. Library is what is used of the crate yata.
--  Telegram      src/tg_bot: Config and SnipingConfig the settings of a strategy, Dialogue state.rs, Session
--                what a handler works on and helpers/username.rs, Texts and Presses
--                user_menu/strategies/handler.rs and user_menu/top/handler.rs, Dispatch init.rs and
--                user_menu/top/endpoints.rs. Input is what is read of a text; Making, Moves,
--                Evolution, Steps, Updates, Soundness, Runs and Access are proofs.
--  Rpc           src/solana/rpc_pool.rs: Calls the calls over the providers and the sending with its three
--                attempts (the fuel of the loop), Pools the reserves, price, details and test of a pool;
--                NewPools src/solana/pool.rs, PoolKeys to_liquidity_keys of
--                src/types/pool.rs. Answers, Reserves, Validity and Vaults are proofs.
--  Keys          src/utils/keys.rs and src/types/keys.rs.
--  Engine        src/engine.rs: the channels and the steps of the tasks; Order, Tasks and Runs are proofs.
--  Tests         Concrete runs.
--
-- The environment. What a handler reads from outside (the clock, new identifiers, the RPC node, the
-- database, new key pairs, random shares) is an argument: Env for an agent, World for a strategy.
-- Every step of a run has its own, so a theorem on runs holds for any answers. The stores behind Arc
-- (the queued actions, the action and account tables) are the record Shared; a strategy puts it into an
-- agent before it works and takes it back afterwards. Tasks that the source spawns are functions that
-- run between events: Volume.Machine.deliver, Sweeper.Dispatch.deliver, Sniper.Strategy.run_spawned
-- and Sniper.Strategy.Dispatch.deliver. Lists that the source fills in any order are filled in
-- the order of their sources, and the new key pairs are as many as are asked for. Arithmetic on u64
-- and u32 wraps as in a release build. Loops are structural recursion; Batches.chunks recurses on the
-- length of its list, which is enough fuel since every chunk takes an element.
--
-- What the executor and the feed ask of other code is a parameter too: Wire for the blockhash, the
-- simulation, the answers of the providers and the signing; Chain for the decoding of instructions and
-- the addresses of token accounts; Libraries for the LRU cache of mints and checked_pow; Host for the
-- database and the hasher; Yata for candles and indicators. The bot has its own Env for what
-- Telegram, Redis, the database and the RPC nodes answer to one update, and Reader for numbers of f64 and
-- addresses in texts; Reads are the answers for one pool, InitTx what is read of a transaction,
-- ClientErrors the errors of RPC clients, and Keypairs the keys of the Solana SDK. The sorted identifiers of the
-- manager are only compared, so they are sorted as the numbers of their bits.
--
-- Not modelled. The logger strategy; log lines, waits before a retry and the database rows beyond
-- what the handlers read; concurrent work on agents, which is taken one after the other. The screens
-- and notifications of the bot, the settings, the storage and the answers of RPC clients are input and output.
-- The crates solana_farm_client and solana_farm_sdk are a copy of a third-party library.
pub mod Base
pub mod Types
pub mod Stopwatch
pub mod Cache
pub mod Accounts
pub mod Statechart
pub mod Orders
pub mod Agent
pub mod Sniper
pub mod Utils
pub mod Volume
pub mod Sweeper
pub mod Executor
pub mod Manager
pub mod Feed
pub mod Deposit
pub mod Aggregators
pub mod Engine
pub mod Rpc
pub mod Telegram
pub mod Keys
pub mod Tests
