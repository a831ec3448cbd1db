-- ===== src/Agent/Entry.antt =====
-- The entry actions of src/strategies/volume_strategy/agent/agent_state_machine.rs. The waits before
-- a retry and the log lines have no part in the model.
use foxfire_sniper.Base.{
  ℕ, ltb, Bool, false, ◌&&◌, ◌||◌, List, [], ◌∷◌, ◌++◌, map, if◌then◌else◌, Outcome, done, ◌>>=◌,
  unwrap,
}
use foxfire_sniper.Types.{
  Pubkey, Amount, max, max_and_close, max_but_leave_for_transfer, is_max_and_close, token, is_sol,
  sol, SolanaTransferActionPayload, SolanaActionPayload, transfer, swap, SolanaAction, new_action,
  new_with_feepayer, SwapMethod, buy_tokens_for_exact_sol, sell_exact_tokens_for_sol,
}
use foxfire_sniper.Orders.{Env, queue_action}
use foxfire_sniper.Agent.State.{
  AgentState, State, idle, transferring, collecting, buying, selling, success, error, deactivating,
  deactivated, get_main_wallet, get_token_balance, drop,
}

unfoldable pub queue : Env → SolanaAction → AgentState → AgentState
queue env action a = record a { orders = queue_action env action a.orders }

-- `batch.iter().find(|x| x.amount == Amount::MaxAndClose && x.asset == Asset::Sol).is_some()`
unfoldable pub closes_sol : List SolanaTransferActionPayload → Bool
closes_sol [] = false
closes_sol (x ∷ batch) = (is_max_and_close x.amount && is_sol x.asset) || closes_sol batch

unfoldable pub transfer_order : Env → List SolanaTransferActionPayload → AgentState → SolanaAction
unfolding get_main_wallet closes_sol
transfer_order env batch a =
    let fee_payer = if closes_sol batch then get_main_wallet a else a.agent_key in
    new_with_feepayer env.fresh env.now a.agent_key fee_payer (map transfer batch)

unfoldable pub transfer_action : Env → List SolanaTransferActionPayload → AgentState → AgentState
unfolding queue transfer_order
transfer_action env batch a = queue env (transfer_order env batch a) a

unfoldable pub swap_order : Env → SwapMethod → Amount → AgentState → SolanaAction
swap_order env swap_method amount_in a = new_action env.fresh env.now a.agent_key (
    swap (record {
      keys = a.pool;
      swap_method = swap_method;
      amount_in = amount_in;
      min_amount_out = 0;
    })
    ∷ [])

-- The amount of the state is not read.
unfoldable pub buy_for_all : Env → AgentState → AgentState
unfolding queue swap_order
buy_for_all env a =
    queue env (swap_order env buy_tokens_for_exact_sol max_but_leave_for_transfer a) a

unfoldable pub sell : Env → Amount → AgentState → AgentState
unfolding queue swap_order
sell env amt a = queue env (swap_order env sell_exact_tokens_for_sol amt a) a

-- All tokens, if there are any, then all SOL, for the main wallet's fees. An agent without a main
-- wallet panics.
unfoldable pub collected : ℕ → Pubkey → Pubkey → List SolanaActionPayload
collected token_balance mint receiver =
    (if ltb 0 token_balance
      then transfer (record { asset = token mint; receiver = receiver; amount = max_and_close })
        ∷ []
      else [])
    ++ transfer (record { asset = sol; receiver = receiver; amount = max }) ∷ []

unfoldable pub collect_order : Env → ℕ → Pubkey → AgentState → SolanaAction
unfolding collected
collect_order env token_balance main a =
    new_with_feepayer env.fresh env.now a.agent_key main
      (collected token_balance a.pool.base_mint main)

unfoldable pub collect : Env → AgentState → Outcome AgentState
unfolding queue collect_order
collect env a = do
  let (a', token_balance) = get_token_balance env a
  main ← unwrap a'.main_wallet
  done (queue env (collect_order env token_balance main a') a')

-- The entry action that each state names.
unfoldable pub enter : Env → State → AgentState → Outcome AgentState
unfolding transfer_action collect buy_for_all sell
enter env idle a = done a
enter env (transferring batch retry) a = done (transfer_action env batch a)
enter env (collecting retry) a = collect env a
enter env (buying amt retry) a = done (buy_for_all env a)
enter env (selling amt retry) a = done (sell env amt a)
enter env success a = done a
enter env (error msg) a = done a
enter env (deactivating retry) a = collect env a
enter env deactivated a = done (drop env a)
