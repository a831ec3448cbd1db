-- ===== src/Volume/Actions.antt =====
-- The entry and exit actions of src/strategies/volume_strategy/strategy_state_machine.rs. The agents
-- that the source works with at the same time are worked with one after the other.
use foxfire_sniper.Base.{
  ℕ, zero, suc, ◌+◌, ◌-◌, ltb, leb, ◌==◌, ◌&&◌, List, [], ◌∷◌, if◌then◌else◌, Outcome, done, ◌>>=◌,
}
use foxfire_sniper.Types.{
  Pubkey, as_u64, wrapping_sub, exact, max, max_but_leave_for_transfer, token,
  SolanaTransferActionPayload, for_agent, AgentEvent, buy, sell, transfer_batch, collect,
  base_tx_fee_sol, transfer_priority_fee_sol, rent_exemption_threshold_sol,
}
use foxfire_sniper.Accounts
use foxfire_sniper.Accounts.{Balance, ok, err}
use foxfire_sniper.Statechart.{Library}
use foxfire_sniper.Orders.{Env, Shared}
use foxfire_sniper.Agent.State.{get_token_balance, get_sol_balance}
use foxfire_sniper.Agent.Handlers.{chart}
use foxfire_sniper.Volume.State.{Machine, World, VolumeStrategy, with_shared, handle}

abbrev pub fee : ℕ
fee = base_tx_fee_sol + transfer_priority_fee_sol

-- `stop_monitoring_account` and `stop_monitoring_token_account` of every agent.
abbrev pub unmonitor : Env → Pubkey → List Machine → Accounts.Accounts → Accounts.Accounts
unmonitor env mint [] accounts = accounts
unmonitor env mint ((a, s) ∷ ms) accounts = unmonitor env mint ms (
    Accounts.stop_monitoring_account (env.associated_token_address a.agent_key mint)
      (Accounts.stop_monitoring_account a.agent_key accounts))

unfoldable pub zero_agents : World → VolumeStrategy → VolumeStrategy
zero_agents w st = record st {
  agents = [];
  shared = record (st.shared) {
    accounts = unmonitor (w.at 0) st.pool.base_mint st.agents st.shared.accounts;
  };
}

module _ (F : Type 0) (lib : Library (chart {F = F})) where
  -- The main wallet handles an event.
  unfoldable pub on_main_wallet : Env → AgentEvent → VolumeStrategy → Outcome VolumeStrategy
  unfolding handle
  on_main_wallet env event st = do
    (m, shared) ← handle F lib env (for_agent event) st.shared st.main_wallet
    done (record st { main_wallet = m; shared = shared })

  -- What is done with one agent.
  abbrev pub Task : Type 0
  Task = Env → Shared → Machine → Outcome (Machine × Shared)

  -- `join_all` over the agents, from the i-th on.
  unfoldable pub each_agent :
      Task → World → ℕ → List Machine → Shared → Outcome (List Machine × Shared)
  each_agent task w i [] shared = done ([], shared)
  each_agent task w i (m ∷ ms) shared = do
    (m', shared') ← task (w.at i) shared m
    (ms', shared'') ← each_agent task w (i + 1) ms shared'
    done (m' ∷ ms', shared'')

  unfoldable pub on_agents : Task → World → VolumeStrategy → Outcome VolumeStrategy
  unfolding each_agent
  on_agents task w st = do
    (ms, shared) ← each_agent task w 0 st.agents st.shared
    done (record st { agents = ms; shared = shared })

  -- The task that gives every agent the same event.
  unfoldable pub tell : AgentEvent → Task
  tell event env shared m = handle F lib env (for_agent event) shared m

  unfoldable pub buy_action : World → VolumeStrategy → Outcome VolumeStrategy
  unfolding on_agents tell
  buy_action w st = on_agents (tell (buy max_but_leave_for_transfer)) w st

  unfoldable pub collect_sol_from_agents : World → VolumeStrategy → Outcome VolumeStrategy
  unfolding on_agents tell
  collect_sol_from_agents w st = on_agents (tell collect) w st

  -- Both balances of an agent, that holds the stores after the queries.
  unfoldable pub balances : Env → Shared → Machine → Machine × ℕ × ℕ
  unfolding with_shared
  balances env shared (a, s) =
      let (a', tokens) = get_token_balance env (with_shared shared a) in
      let (a'', lamports) = get_sol_balance env a' in ((a'', s), tokens, lamports)

  unfoldable pub collect_tokens : Pubkey → ℕ → Task
  unfolding balances
  collect_tokens main_wallet keep env shared m =
      let (m', tokens, lamports) = balances env shared m in
      let minimum_sol = if keep == 0 then fee else rent_exemption_threshold_sol + fee in
      let payload : SolanaTransferActionPayload = record {
        asset = token m'.0.pool.base_mint;
        receiver = main_wallet;
        amount = exact (tokens - keep);
      } in
      if ltb keep tokens && leb minimum_sol lamports
      then handle F lib env
          (for_agent (if keep == 0 then collect else transfer_batch (payload ∷ [])))
          m'.0.orders.shared m'
      else done (m', m'.0.orders.shared)

  unfoldable pub collect_token_from_agents : World → VolumeStrategy → Outcome VolumeStrategy
  unfolding on_agents collect_tokens
  collect_token_from_agents w st =
      on_agents
        (collect_tokens st.main_wallet.0.agent_key
          (as_u64 st.instance_of.agents_keep_tokens_lamports))
        w st

  unfoldable pub sell_tokens : ℕ → Task
  unfolding with_shared balances
  sell_tokens zero env shared (a, s) =
      let (a', tokens) = get_token_balance env (with_shared shared a) in
      if ltb 0 tokens
      then handle F lib env (for_agent collect) a'.orders.shared (a', s)
      else done ((a', s), a'.orders.shared)
  sell_tokens (suc n) env shared m =
      let (m', tokens, lamports) = balances env shared m in
      if leb fee lamports
      then handle F lib env (for_agent (sell (exact (wrapping_sub tokens (suc n)))))
          m'.0.orders.shared m'
      else done (m', m'.0.orders.shared)

  unfoldable pub sell_action : World → VolumeStrategy → Outcome VolumeStrategy
  unfolding on_agents sell_tokens
  sell_action w st =
      on_agents (sell_tokens (as_u64 st.instance_of.agents_keep_tokens_lamports)) w st

  unfoldable pub offload_inventory : World → VolumeStrategy → Outcome VolumeStrategy
  unfolding handle balances
  offload_inventory w st =
      let (m, tokens, lamports) = balances (w.at 0) st.shared st.main_wallet in
      let read = record st { main_wallet = m; shared = m.0.orders.shared } in
      if ltb 0 tokens && leb fee lamports
      then on_main_wallet (w.at 0) (sell max) read
      else done read
