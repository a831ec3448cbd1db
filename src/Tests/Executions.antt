-- ===== src/Tests/Executions.antt =====
-- Runs of src/executors.
use foxfire_sniper.Base.{
  ℕ, ◌+◌, ◌≤◌, ◌<◌, ◌≡◌, ◌⊎◌, refl, true, false, none, some, List, [], ◌∷◌, ◌==◌, if◌then◌else◌,
  arith,
}
use foxfire_sniper.Types.{
  Amount, exact, max, token, SolanaAction, SolanaActionPayload, swap, transfer,
  SolanaSwapActionPayload, LiquidityPoolKeys, buy_tokens_for_exact_sol, wsol_mint_pubkey,
  not_enough_token_balance, execution_error, action_too_old, no_instructions_generated, u32_mod,
}
use foxfire_sniper.Accounts.{Accounts, not_found, get_balance, get_token_balance, is_account_exist}
use foxfire_sniper.Cache.Operational
use foxfire_sniper.Orders.{Env}
use foxfire_sniper.Executor.Instructions.{
  Instruction, spent_from, create_token_account, token_transfer, sync_native, sol_transfer,
  swap_fixed_in, close_account,
}
use foxfire_sniper.Executor.Steps.{Situation, sniper_token_ata, step_of}
use foxfire_sniper.Executor.Build.{Balances, survey, build_instructions}
use foxfire_sniper.Executor.Spending.{build_instructions-spends}
use foxfire_sniper.Executor.Refusals.{IsJustified, build_instructions-IsJustified}
use foxfire_sniper.Executor.Purchases.{lamports_sent, purchase_fees, build_instructions-purchase}
use foxfire_sniper.Executor.Estimate.{estimate_cu_per_tx}
use foxfire_sniper.Executor.Units.{units_by_count, estimate_cu_per_tx-counts}
use foxfire_sniper.Executor.Execute.{Wire, Store, execute}
use foxfire_sniper.Executor.Reports.{execute-reports}

-- The token 30, whose accounts are numbered apart from the wallets'.
abbrev env : Env
env = record {
  now = 5000;
  fresh = 8;
  rpc = λ key. not_found;
  associated_token_address = λ wallet mint. if mint == 30 then 100 + wallet else 200 + wallet;
  db_available = true;
}

-- The wallet 1 has 10,000,000 lamports, and 100 tokens in the account 101.
abbrev accounts : Accounts
accounts =
    (1, some (record { lamports = 10000000; token_amount = none }))
    ∷ (101, some (record { lamports = 2039280; token_amount = some 100 }))
    ∷ []

abbrev pays : Amount → SolanaActionPayload
pays amount = transfer (record { asset = token 30; receiver = 2; amount = amount })

abbrev keys : LiquidityPoolKeys
keys = record { base_mint = 30; quote_mint = wsol_mint_pubkey }

abbrev trade : SolanaSwapActionPayload
trade = record {
  keys = keys;
  swap_method = buy_tokens_for_exact_sol;
  amount_in = max;
  min_amount_out = 0;
}

abbrev asked : ℕ → List SolanaActionPayload → SolanaAction
asked created_at payload = record {
  uuid = 7;
  sniper = 1;
  fee_payer = 1;
  created_at = created_at;
  action_payload = payload;
}

-- Thirty tokens, and then all that is left.
abbrev two_transfers : List SolanaActionPayload
two_transfers = pays (exact 30) ∷ pays max ∷ []

abbrev balances : Balances
balances = record { sol_lamports = 10000000; token_lamports = (30, 100) ∷ [] }

abbrev made : List Instruction
made =
    create_token_account 1 2 30
    ∷ token_transfer 101 102 1 30
    ∷ create_token_account 1 2 30
    ∷ token_transfer 101 102 1 70
    ∷ []

abbrev situation : List SolanaActionPayload → Situation
unfolding survey
situation payload = survey env (asked 0 payload) 1000000 70300 accounts

build_instructions-spends_example :
    spent_from (sniper_token_ata (situation two_transfers)) made
    ≤ (situation two_transfers).token_balance
unfolding build_instructions survey get_balance step_of get_token_balance is_account_exist
build_instructions-spends_example =
    build_instructions-spends env (asked 0 two_transfers) 1000000 70300 accounts balances made
      (λ e. absurd (omega (arith, e))) refl

-- More tokens than there are, after thirty of them.
abbrev too_many : List SolanaActionPayload
too_many = pays (exact 30) ∷ pays (exact 80) ∷ []

build_instructions-IsJustified_example :
    IsJustified (situation too_many) too_many (not_enough_token_balance 150 100)
unfolding build_instructions survey get_balance step_of get_token_balance is_account_exist
build_instructions-IsJustified_example =
    build_instructions-IsJustified env (asked 0 too_many) 1000000 70300 accounts
      (not_enough_token_balance 150 100) (omega arith) refl

abbrev purchase : List SolanaActionPayload
purchase = swap trade ∷ []

abbrev bought : List Instruction
bought =
    create_token_account 1 1 wsol_mint_pubkey
    ∷ sol_transfer 1 201 7885419
    ∷ sync_native 201
    ∷ swap_fixed_in keys (record { user_source = 201; user_destination = 101; user_owner = 1 })
        7885419 0
    ∷ close_account 201 1 1
    ∷ []

build_instructions-purchase_example :
    lamports_sent 1 bought + purchase_fees (situation purchase) ≡ 10000000
unfolding build_instructions survey get_balance step_of get_token_balance is_account_exist
build_instructions-purchase_example =
    build_instructions-purchase env (asked 0 purchase) trade 1000000 70300 accounts balances bought
      (omega arith) refl refl refl refl

estimate_cu_per_tx-counts_example :
    (estimate_cu_per_tx purchase ≡ units_by_count purchase) × (units_by_count purchase < u32_mod)
estimate_cu_per_tx-counts_example = estimate_cu_per_tx-counts purchase (omega arith)

-- The node answers, nothing is simulated, and the providers accept.
abbrev wire : Wire
wire = record {
  latest_blockhash = some 77;
  simulate_execution = false;
  simulate_tx = λ ixs attempt. none;
  use_bloxroute = false;
  bloxroute_accepts = false;
  providers_accept = true;
  bloxroute_first = false;
  sign = λ senders payer ixs blockhash. 900 + blockhash;
}

abbrev store : Store
unfolding Operational.new
store = record { accounts = accounts; signatures = Operational.new }

-- An action without steps.
execute-reports_example :
    (◌≡◌ {A = ℕ} 7 7)
    × ((execution_error no_instructions_generated ≡ execution_error action_too_old)
        ⊎ (execution_error no_instructions_generated ≡ execution_error no_instructions_generated))
unfolding execute build_instructions survey get_balance step_of get_token_balance store
    estimate_cu_per_tx
execute-reports_example =
    execute-reports env wire (asked 0 []) store 7 (execution_error no_instructions_generated)
      (omega arith) refl
