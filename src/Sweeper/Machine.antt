-- ===== src/Sweeper/Machine.antt =====
-- src/strategies/sweeper_strategy/strategy_state_machine.rs and strategy.rs.
use foxfire_sniper.Base.{
  ℕ, ◌+◌, ltb, Bool, true, false, Option, none, some, List, [], ◌∷◌, if◌then◌else◌, Outcome, done,
  panic, ◌>>=◌,
}
use foxfire_sniper.Types.{
  Pubkey, LiquidityPoolKeys, as_u64, max, max_and_close, sol, token, SolanaTransferActionPayload,
  SolanaAction, BotEvent, heart_beat, blockchain_event, SolanaStrategyEvent, original, for_agent,
  sell, transfer_batch,
}
use foxfire_sniper.Statechart.{Response, handled, super, transition, Chart, Library}
use foxfire_sniper.Orders.{Env, Shared}
use foxfire_sniper.Agent.State.{AgentState, get_token_balance, State as AgentPhase}
use foxfire_sniper.Agent.State as Phase
use foxfire_sniper.Agent.Handlers.{chart as agent_chart}
use foxfire_sniper.Volume.State.{
  Machine, Trader, World, VolumeStrategyInstance, with_shared, handle,
}
use foxfire_sniper.Volume.Status.{ExecutionStatus, idle_status, error_status, done_status, pending}
use foxfire_sniper.Volume.Actions.{each_agent}
use foxfire_sniper.Volume.Funding.{load_each, others}

pub record SweeperStrategy : Type 0 where
  pub instance_of : VolumeStrategyInstance
  pub pool : LiquidityPoolKeys
  pub main_wallet : Machine
  pub agents : List Machine
  pub shared : Shared

-- `finished` is `State::Done`.
pub data State : Type 0 where
  listing sweeping selling_token_main_w finished : State

-- How one agent counts: unlike for the volume strategy, one that is being deactivated is working.
pub data Tally : Type 0 where
  succeeded failed working : Tally

unfoldable pub tally : AgentPhase → Tally
tally Phase.success = succeeded
tally (Phase.error _) = failed
tally Phase.deactivated = failed
tally _ = working

unfoldable pub count_each : ℕ → List Machine → ExecutionStatus
unfolding tally
count_each agents_with_success [] = if ltb 0 agents_with_success then done_status else error_status
count_each agents_with_success ((a, s) ∷ rest) =
    let more = count_each (agents_with_success + 1) rest in
    let same = count_each agents_with_success rest in
    elim (tally s) [ succeeded ↦ more | failed ↦ same | working ↦ pending ]

unfoldable pub get_execution_status : List Machine → ExecutionStatus
unfolding count_each
get_execution_status [] = idle_status
get_execution_status (m ∷ ms) = count_each 0 (m ∷ ms)

unfoldable pub on_status : ExecutionStatus → Response State
on_status done_status = transition selling_token_main_w
on_status _ = super

-- `w.traders` are the rows that the query finds: those whose own `id` is that of the instance.
load : Option (List Trader) → World → SweeperStrategy → SweeperStrategy
unfolding load_each
load none w st = st
load (some ts) w st =
    let main = st.main_wallet.0 in
    let keep = as_u64 st.instance_of.agents_keep_tokens_lamports in
    let (shared, ms) =
      load_each w 0 main.main_wallet st.pool keep (others main.agent_key ts) st.shared in
    record st { agents = ms; shared = shared }

unfoldable pub get_agents_with_balance : World → SweeperStrategy → Outcome SweeperStrategy
unfolding load
get_agents_with_balance w st = if (w.at 0).db_available then done (load w.traders w st) else panic

-- What an agent is told to send: its tokens, if it has any, and its SOL.
unfoldable pub transfers : Pubkey → Pubkey → ℕ → List SolanaTransferActionPayload
transfers mint receiver token_balance =
    let rest : List SolanaTransferActionPayload =
      record { asset = sol; receiver = receiver; amount = max } ∷ [] in
    if ltb 0 token_balance
    then record { asset = token mint; receiver = receiver; amount = max_and_close } ∷ rest
    else rest

module _ {F : Type 0} where
  unfoldable pub respond :
      World × SolanaStrategyEvent F
      → State
      → SweeperStrategy
      → Outcome (SweeperStrategy × Response State)
  unfolding on_status get_execution_status
  respond e listing st = done (st, transition sweeping)
  respond e sweeping st = done (st, on_status (get_execution_status st.agents))
  respond e selling_token_main_w st = done (st, transition finished)
  respond e finished st = done (st, handled)

module _ (F : Type 0) (lib : Library (agent_chart {F = F})) where
  sweep_one : Pubkey → Pubkey → Env → Shared → Machine → Outcome (Machine × Shared)
  unfolding handle with_shared transfers
  sweep_one mint receiver env shared (a, s) =
      let (a', token_balance) = get_token_balance env (with_shared shared a) in
      handle F lib env (for_agent (transfer_batch (transfers mint receiver token_balance)))
        a'.orders.shared (a', s)

  unfoldable pub sweep : World → SweeperStrategy → Outcome SweeperStrategy
  unfolding sweep_one each_agent
  sweep w st = do
    (ms, shared) ←
        each_agent F lib (sweep_one st.pool.base_mint st.main_wallet.0.agent_key) w 0 st.agents
          st.shared
    done (record st { agents = ms; shared = shared })

  unfoldable pub sell_token : World → SweeperStrategy → Outcome SweeperStrategy
  unfolding handle
  sell_token w st = do
    (m, shared) ← handle F lib (w.at 0) (for_agent (sell max)) st.shared st.main_wallet
    done (record st { main_wallet = m; shared = shared })

  unfoldable pub enter : World → State → SweeperStrategy → Outcome SweeperStrategy
  enter w listing st = get_agents_with_balance w st
  enter w sweeping st = sweep w st
  enter w selling_token_main_w st = sell_token w st
  enter w finished st = done st

  unfoldable pub chart : Chart SweeperStrategy State (World × SolanaStrategyEvent F)
  unfolding respond enter
  chart = record { respond = respond; enter = λ e s st. enter e.0 s st; leave = λ e s st. done st }

-- `process_event`: which events reach the machine, and the orders that are taken away.
unfoldable pub forwards : {F : Type 0} → BotEvent F → Bool
forwards (heart_beat _) = true
forwards (blockchain_event _) = true
forwards _ = false

unfoldable pub take_actions :
    SweeperStrategy × State → (SweeperStrategy × State) × List SolanaAction
take_actions (st, s) =
    ((record st { shared = record (st.shared) { generated = [] } }, s), st.shared.generated)

module _ (F : Type 0) (lib : Library (agent_chart {F = F})) (machine : Library (chart F lib)) where
  unfoldable pub process_event :
      World
      → BotEvent F
      → SweeperStrategy × State
      → Outcome ((SweeperStrategy × State) × List SolanaAction)
  unfolding forwards take_actions
  process_event w event x = do
    x' ← (if forwards event then machine.handle (w, original event) x else done x)
    done (take_actions x')
