-- ===== src/Volume/Funding.antt =====
-- The makers of a tranche's agents and the transfers to them, of
-- src/strategies/volume_strategy/strategy_state_machine.rs.
use foxfire_sniper.Base.{
  ℕ, zero, suc, ◌+◌, ◌*◌, ◌-◌, ltb, ◌==◌, Bool, true, false, ◌&&◌, Option, none, some, List, [],
  ◌∷◌, ◌++◌, take, if◌then◌else◌, Outcome, done, panic, ◌>>=◌,
}
use foxfire_sniper.Types.{
  Pubkey, LiquidityPoolKeys, as_u64, exact, exact_with_fees, sol, token,
  SolanaTransferActionPayload, transfer_batch, collect, rent_exemption_threshold_sol,
  new_account_threshold_sol, max_transfers_in_one_tx,
}
use foxfire_sniper.Utils.Math.{
  get_dirichlet_distributed_amount, get_dirichlet_distributed_with_min_amount,
}
use foxfire_sniper.Accounts
use foxfire_sniper.Accounts.{Balance, ok, err, unwrap_or_zero}
use foxfire_sniper.Statechart.{Library}
use foxfire_sniper.Orders.{Env}
use foxfire_sniper.Orders.{Shared}
use foxfire_sniper.Agent.State.{get_token_balance, State, idle, error, deactivated}
use foxfire_sniper.Agent.Handlers.{chart}
use foxfire_sniper.Volume.State.{
  Machine, Trader, World, VolumeStrategy, with_shared, new, new_from_trader,
}
use foxfire_sniper.Volume.Batches.{chunks}
use foxfire_sniper.Volume.Actions.{on_main_wallet, on_agents, tell, fee}

-- What every agent of the tranche needs at least, for its fees and its accounts.
unfoldable pub minimum_amount : ℕ → ℕ
minimum_amount zero = new_account_threshold_sol + 3 * fee
minimum_amount (suc keep) = 3 * fee + rent_exemption_threshold_sol

abbrev funded : Pubkey → ℕ → SolanaTransferActionPayload
funded key amount = record { asset = sol; receiver = key; amount = exact_with_fees amount }

-- One agent is made by `AgentState::new`, and is idle.
unfoldable pub make_agent :
    Env → Pubkey × Option Trader → VolumeStrategy → VolumeStrategy × Option Machine
unfolding new
make_agent env key st =
    let (shared, made) =
      new env st.pool st.instance_of.id st.main_wallet.0.agent_key key st.shared in
    (record st { shared = shared }, elim made [ none ↦ none | some a ↦ some (a, idle) ])

-- The loop over the amounts: the agents that could not be made are left out, with their amounts.
unfoldable pub fund_each :
    World
    → ℕ
    → List ℕ
    → List (Pubkey × Option Trader)
    → VolumeStrategy
    → VolumeStrategy × List SolanaTransferActionPayload
unfolding make_agent
fund_each w i [] keys st = (st, [])
fund_each w i (amount ∷ amounts) [] st = (st, [])
fund_each w i (amount ∷ amounts) (key ∷ keys) st =
    let (st', made) = make_agent (w.at i) key st in
    let skipped = fund_each w (i + 1) amounts keys st' in
    elim made [
      | none ↦ skipped
      | some m ↦
          let (st'', transfers) =
            fund_each w (i + 1) amounts keys (record st' { agents = st'.agents ++ m ∷ [] }) in
          (st'', funded m.0.agent_key amount ∷ transfers)
    ]

-- `create_agents`: the agents replace those of the strategy.
unfoldable pub create_each :
    World → ℕ → List (Pubkey × Option Trader) → VolumeStrategy → VolumeStrategy × List Machine
unfolding make_agent
create_each w i [] st = (st, [])
create_each w i (key ∷ keys) st =
    let (st', made) = make_agent (w.at i) key st in
    let (st'', ms) = create_each w (i + 1) keys st' in
    elim made [ none ↦ (st'', ms) | some m ↦ (st'', m ∷ ms) ]

unfoldable pub create_agents : World → ℕ → VolumeStrategy → VolumeStrategy
unfolding create_each
create_agents w n st =
    let (st', ms) = create_each w 0 (take n w.keys) st in record st' { agents = ms }

-- `agent::State::Error { .. } | agent::State::Deactivated {}`
gone : State → Bool
gone (error _) = true
gone deactivated = true
gone _ = false

-- The amounts and the agents go together by their index: an agent that is missing panics.
unfoldable pub seller_transfers :
    Pubkey → List ℕ → List Machine → Outcome (List SolanaTransferActionPayload)
unfolding gone
seller_transfers mint [] ms = done []
seller_transfers mint (amount ∷ amounts) [] = panic
seller_transfers mint (amount ∷ amounts) ((a, s) ∷ ms) = do
  rest ← seller_transfers mint amounts ms
  done (
      if gone s
      then rest
      else record {
        asset = sol;
        receiver = a.agent_key;
        amount = exact (fee + rent_exemption_threshold_sol);
      }
        ∷ record { asset = token mint; receiver = a.agent_key; amount = exact amount }
        ∷ rest)

-- The agents of `traders` that still hold something, made from their rows. `keep` are the tokens
-- that an agent keeps.
unfoldable pub load_each :
    World → ℕ → Option Pubkey → LiquidityPoolKeys → ℕ → List Trader → Shared → Shared × List Machine
unfolding new_from_trader
load_each w i mw pool keep [] shared = (shared, [])
load_each w i mw pool keep (t ∷ ts) shared =
    let env = w.at i in
    let (queried, lamports) = Accounts.get_balance env.rpc t.wallet shared.accounts in
    let (both, tokens) =
      Accounts.get_token_balance env.rpc (env.associated_token_address t.wallet pool.base_mint)
        queried in
    let asked = record shared { accounts = both } in
    let (shared', made) = new_from_trader env pool t mw asked in
    let skipped = load_each w (i + 1) mw pool keep ts asked in
    let (after, ms) = load_each w (i + 1) mw pool keep ts shared' in
    let empty =
      ltb (unwrap_or_zero lamports) new_account_threshold_sol && ltb (unwrap_or_zero tokens) keep in
    elim lamports [
      | err _ ↦ skipped
      | ok _ ↦
          (if empty
            then skipped
            else elim made [ none ↦ (after, ms) | some a ↦ (after, (a, idle) ∷ ms) ])
    ]

-- The query leaves out the main wallet, and keeps the traders of every strategy.
abbrev pub others : Pubkey → List Trader → List Trader
others mw [] = []
others mw (t ∷ ts) = let rest = others mw ts in if t.wallet == mw then rest else t ∷ rest

module _ (F : Type 0) (lib : Library (chart {F = F})) where
  -- The batches go to the main wallet one after the other.
  unfoldable pub send_batches :
      World → ℕ → List (List SolanaTransferActionPayload) → VolumeStrategy → Outcome VolumeStrategy
  unfolding on_main_wallet
  send_batches w i [] st = done st
  send_batches w i (batch ∷ batches) st =
      on_main_wallet F lib (w.at i) (transfer_batch batch) st >>= send_batches w (i + 1) batches

  fund_with : World → VolumeStrategy × List SolanaTransferActionPayload → Outcome VolumeStrategy
  unfolding send_batches
  fund_with w (st, transfers) = send_batches w 0 (chunks (max_transfers_in_one_tx - 1) transfers) st

  unfoldable pub initialize_agents_with_sol : World → VolumeStrategy → Outcome VolumeStrategy
  unfolding minimum_amount fund_each fund_with
  initialize_agents_with_sol w st =
      let least = minimum_amount (as_u64 st.instance_of.agents_keep_tokens_lamports) in
      get_dirichlet_distributed_with_min_amount w.shares st.instance_of.tranche_size_lamports
        st.instance_of.agents_buying_in_tranche least
      >>= λ amounts. fund_with w (fund_each w 0 amounts w.keys st)

  unfoldable pub transfer_token_to_sellers : World → VolumeStrategy → Outcome VolumeStrategy
  unfolding create_agents seller_transfers send_batches with_shared
  transfer_token_to_sellers w st =
      let (a, token_balance) =
        get_token_balance (w.at 0) (with_shared st.shared st.main_wallet.0) in
      let read = record st { main_wallet = (a, st.main_wallet.1); shared = a.orders.shared } in
      let sellers = st.instance_of.agents_selling_in_tranche in
      let st' = create_agents w sellers read in
      get_dirichlet_distributed_amount w.shares token_balance sellers >>= λ amounts.
      seller_transfers st.pool.base_mint amounts st'.agents >>= λ transfers.
      send_batches w 0 (chunks (max_transfers_in_one_tx - 1) transfers) st'

  load_staled : Option (List Trader) → World → VolumeStrategy → VolumeStrategy
  unfolding load_each
  load_staled none w st = st
  load_staled (some ts) w st =
      let mw = st.main_wallet.0.agent_key in
      let keep = as_u64 st.instance_of.agents_keep_tokens_lamports in
      let (shared, ms) = load_each w 0 (some mw) st.pool keep (others mw ts) st.shared in
      record st { agents = ms; shared = shared }

  unfoldable pub collect_everything_from_staled_agents :
      World → VolumeStrategy → Outcome VolumeStrategy
  unfolding load_staled on_agents tell
  collect_everything_from_staled_agents w st =
      if (w.at 0).db_available
      then on_agents F lib (tell F lib collect) w (load_staled w.traders w st)
      else panic
