-- ===== src/Tests/Pools.antt =====
-- Runs of src/solana/rpc_pool.rs.
use foxfire_sniper.Base.{
  Outcome, done, ℕ, ◌≡◌, ◌≢◌, ◌≤◌, ◌↔◌, refl, Bool, true, false, Option, none, some, List, [], ◌∷◌,
  ◌==◌,
}
use foxfire_sniper.Base.Results.{Result, ok, err}
use foxfire_sniper.Types.{wsol_mint_pubkey, RaydiumPoolPriceUpdate}
use foxfire_sniper.Feed.Transactions.{partially_decoded}
use foxfire_sniper.Rpc.NewPools.{InitTx, InitializeLog, find_initialize, extract_pool_from_init_tx}
use foxfire_sniper.Rpc.Vaults.{IsNewPool, extract_pool_from_init_tx-IsAsInitialised}
use foxfire_sniper.Tests.Snipes.{whole}
use foxfire_sniper.Tests.Feeds.{libraries}
use foxfire_sniper.Rpc.Calls.{
  RpcError, ClientErrors, account_not_found, account_exists, Task, runs, panics, max_retries,
  send_loop, send_tx_to_all_providers,
}
use foxfire_sniper.Rpc.Answers.{
  Decides, account_exists_iff, SomeTakes, send_tx_to_all_providers_iff,
}
use foxfire_sniper.Rpc.Pools.{
  RaydiumPool, LiquidityStateV4, Reads, get_pool_price, is_valid_raydium_pool,
}
use foxfire_sniper.Rpc.Validity.{IsSolMarket, is_valid_raydium_pool_iff}
use foxfire_sniper.Rpc.Reserves.{IsPriceRead, get_pool_price_iff}

-- Errors by number: 0 says that there is no account.
abbrev errors : ClientErrors
errors = record {
  ClientError = ℕ;
  is_account_not_found = λ e. e == 0;
  names_account_not_found = λ e. e == 0;
}

abbrev answers : List (Result ℕ ℕ)
answers = err 5 ∷ err 0 ∷ ok 3 ∷ []

account_exists_iff_example :
    ((b : Bool) → (account_exists errors answers ≡ ok b) ↔ Decides errors answers b)
    × (account_exists errors answers ≢ err account_not_found)
account_exists_iff_example = account_exists_iff errors answers

abbrev tasks : List Task
tasks = panics ∷ runs (λ i. i == 2) ∷ []

send_tx_to_all_providers_iff_example :
    ((send_tx_to_all_providers tasks ≡ true) ↔ SomeTakes tasks)
    × ((given : ℕ → Bool)
        → (sent : Bool) × (failed : ℕ) × (send_loop max_retries given 0 ≡ some (sent, failed))
          × (failed ≤ max_retries))
send_tx_to_all_providers_iff_example = send_tx_to_all_providers_iff tasks

abbrev market : LiquidityStateV4
market = record {
  base_mint = 30;
  quote_mint = wsol_mint_pubkey;
  lp_mint = 32;
  base_decimal = 1;
  quote_decimal = 2;
  open_orders = 33;
  target_orders = 34;
  base_vault = 35;
  quote_vault = 36;
  withdraw_queue = 37;
  lp_vault = 38;
  market_program_id = 39;
  market_id = 41;
}

abbrev reads : Reads
reads = record {
  owner = ok 50;
  details = ok (some market);
  market = ok (some market);
  balance = λ vault. ok (some 900);
  raydium_v4_program_id = 50;
  raydium_v4_authority = 51;
}

abbrev price_read : Outcome (Result RpcError (RaydiumPoolPriceUpdate ℕ)) → RaydiumPoolPriceUpdate ℕ
price_read (done (ok price)) = price
price_read _ = record { pool = 0; price = 0; base_reserve = 0; quote_reserve = 0 }

abbrev price_now : RaydiumPoolPriceUpdate ℕ
price_now = price_read (get_pool_price whole libraries 40 reads)

get_pool_price_iff_example :
    (get_pool_price whole libraries 40 reads ≡ done (ok price_now))
    ↔ IsPriceRead whole libraries 40 reads price_now
get_pool_price_iff_example = get_pool_price_iff whole libraries 40 reads price_now

price_is_read : get_pool_price whole libraries 40 reads ≡ done (ok price_now)
unfolding get_pool_price
price_is_read = refl

is_valid_raydium_pool_iff_example :
    (is_valid_raydium_pool whole libraries 40 reads ≡ done true) ↔ IsSolMarket whole libraries reads
is_valid_raydium_pool_iff_example = is_valid_raydium_pool_iff whole libraries 40 reads

-- The pool of this run is valid.
reads_valid : is_valid_raydium_pool whole libraries 40 reads ≡ done true
unfolding is_valid_raydium_pool
reads_valid = refl

-- A pool whose first mint is SOL, with 600 lamports and 300 of the token 30.
abbrev init_tx : InitTx
init_tx = record {
  initialize_log = some (record { init_pc_amount = 300; init_coin_amount = 600 });
  instructions =
      partially_decoded (record {
        program_id = 50;
        accounts =
            60 ∷ 61 ∷ 62 ∷ 63 ∷ 40 ∷ 65 ∷ 66 ∷ 67 ∷ wsol_mint_pubkey ∷ 30 ∷ 70 ∷ 71 ∷ 72 ∷ 73 ∷ 74
            ∷ 75 ∷ 76 ∷ [];
        encoded_data = 1;
      })
      ∷ [];
  pre_token_balances = some (record { mint = 30; decimals = 2 } ∷ []);
  raydium_v4_program_id = 50;
  system_program_id = 52;
}

abbrev no_pool : RaydiumPool × RaydiumPoolPriceUpdate ℕ
no_pool = (
  record {
    id = 0;
    base_mint = 0;
    quote_mint = 0;
    lp_mint = 0;
    base_decimals = 0;
    quote_decimals = 0;
    lp_decimals = 0;
    version = 0;
    program_id = 0;
    authority = 0;
    open_orders = 0;
    target_orders = 0;
    base_vault = 0;
    quote_vault = 0;
    withdraw_queue = 0;
    lp_vault = 0;
    market_version = 0;
    market_program_id = 0;
    market_id = 0;
    lp_reserve = 0;
    open_time = 0;
    reverse_pool = false;
    freeze_authority = none;
  },
  record { pool = 0; price = 0; base_reserve = 0; quote_reserve = 0 },
)

abbrev found_in :
    Outcome (Option (RaydiumPool × RaydiumPoolPriceUpdate ℕ))
    → RaydiumPool × RaydiumPoolPriceUpdate ℕ
found_in (done (some p)) = p
found_in _ = no_pool

abbrev found : RaydiumPool × RaydiumPoolPriceUpdate ℕ
found = found_in (extract_pool_from_init_tx whole libraries init_tx)

extract_pool_from_init_tx-IsAsInitialised_example :
    (log : InitializeLog) × (init_tx.initialize_log ≡ some log)
    × (accounts : List ℕ) × (find_initialize 50 init_tx.instructions ≡ some accounts)
    × IsNewPool whole libraries init_tx accounts log found.0 found.1
unfolding extract_pool_from_init_tx
extract_pool_from_init_tx-IsAsInitialised_example =
    extract_pool_from_init_tx-IsAsInitialised whole libraries init_tx found.0 found.1 refl

found_reversed :
    (found.0.reverse_pool ≡ true) × (found.0.base_vault ≡ 71) × (found.1.base_reserve ≡ 3)
unfolding extract_pool_from_init_tx
found_reversed = (refl, refl, refl)
