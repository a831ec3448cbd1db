-- ===== src/Rpc/NewPools.antt =====
-- src/solana/pool.rs: a new pool, from the transaction that initialises it.
use foxfire_sniper.Base.{
  ℕ, Bool, true, false, ◌==◌, Option, none, some, List, [], ◌∷◌, get_elem?, if◌then◌else◌, Outcome,
  done, ◌>>=◌, unwrap,
}
use foxfire_sniper.Types.{Pubkey, RaydiumPoolPriceUpdate, wsol_mint_pubkey}
use foxfire_sniper.Sniper.Floats.{Floats}
use foxfire_sniper.Feed.State.{Libraries}
use foxfire_sniper.Feed.Transactions.{UiInstruction, partially_decoded}
use foxfire_sniper.Feed.Reserves.{tokens_to_ui_amount_with_decimals_f64}
use foxfire_sniper.Telegram.Texts.{lamports_to_sol}
use foxfire_sniper.Rpc.Pools.{RaydiumPool}

-- The numbers that the regular expression takes out of the log.
pub record InitializeLog : Type 0 where
  pub init_pc_amount : ℕ
  pub init_coin_amount : ℕ

pub record TokenBalance : Type 0 where
  pub mint : Pubkey
  pub decimals : ℕ

-- What is read of a transaction, and two addresses.
pub record InitTx : Type 0 where
  pub initialize_log : Option InitializeLog
  pub instructions : List UiInstruction
  pub pre_token_balances : Option (List TokenBalance)
  pub raydium_v4_program_id : Pubkey
  pub system_program_id : Pubkey

-- The accounts of the first instruction of Raydium.
unfoldable pub find_initialize : Pubkey → List UiInstruction → Option (List Pubkey)
find_initialize program [] = none
find_initialize program (partially_decoded i ∷ is) =
    let rest = find_initialize program is in
    if i.program_id == program then some i.accounts else rest
find_initialize program (_ ∷ is) = find_initialize program is

abbrev decimals_among : Pubkey → List TokenBalance → Option ℕ
decimals_among mint [] = none
decimals_among mint (b ∷ bs) =
    let rest = decimals_among mint bs in if b.mint == mint then some b.decimals else rest

unfoldable pub extract_token_balance : Option (List TokenBalance) → Pubkey → Option ℕ
extract_token_balance none mint = none
extract_token_balance (some balances) mint = decimals_among mint balances

pub record Mints : Type 0 where
  pub base_mint : Pubkey
  pub base_vault : Pubkey
  pub quote_mint : Pubkey
  pub quote_vault : Pubkey

-- An account that is not there is out of range.
unfoldable pub read_mints : List Pubkey → Outcome Mints
read_mints accounts = do
  base_mint ← unwrap (get_elem? accounts 8)
  base_vault ← unwrap (get_elem? accounts 10)
  quote_mint ← unwrap (get_elem? accounts 9)
  quote_vault ← unwrap (get_elem? accounts 11)
  done (record {
    base_mint = base_mint;
    base_vault = base_vault;
    quote_mint = quote_mint;
    quote_vault = quote_vault;
  })

abbrev pub is_reversed : Mints → Bool
is_reversed m = m.base_mint == wsol_mint_pubkey

abbrev pub swapped : Mints → Mints
swapped m = record {
  base_mint = m.quote_mint;
  base_vault = m.quote_vault;
  quote_mint = m.base_mint;
  quote_vault = m.base_vault;
}

-- The mints with SOL as the quote, by whether the pool is reversed.
abbrev pub ordered : Bool → Mints → Mints
ordered true m = swapped m
ordered false m = m

abbrev pub sol_reserve : Bool → InitializeLog → ℕ
sol_reserve true log = log.init_coin_amount
sol_reserve false log = log.init_pc_amount

abbrev pub token_reserve : Bool → InitializeLog → ℕ
token_reserve true log = log.init_pc_amount
token_reserve false log = log.init_coin_amount

unfoldable pub pool_of : InitTx → Bool → Mints → ℕ → List Pubkey → Outcome RaydiumPool
pool_of tx reversed m decimals accounts = do
  id ← unwrap (get_elem? accounts 4)
  lp_mint ← unwrap (get_elem? accounts 7)
  authority ← unwrap (get_elem? accounts 5)
  open_orders ← unwrap (get_elem? accounts 6)
  target_orders ← unwrap (get_elem? accounts 13)
  lp_vault ← unwrap (get_elem? accounts 12)
  market_program_id ← unwrap (get_elem? accounts 15)
  market_id ← unwrap (get_elem? accounts 16)
  done (record {
    id = id;
    base_mint = m.base_mint;
    quote_mint = m.quote_mint;
    lp_mint = lp_mint;
    base_decimals = decimals;
    quote_decimals = 9;
    lp_decimals = 0;
    version = 4;
    program_id = tx.raydium_v4_program_id;
    authority = authority;
    open_orders = open_orders;
    target_orders = target_orders;
    base_vault = m.base_vault;
    quote_vault = m.quote_vault;
    withdraw_queue = tx.system_program_id;
    lp_vault = lp_vault;
    market_version = 3;
    market_program_id = market_program_id;
    market_id = market_id;
    lp_reserve = 0;
    open_time = 0;
    reverse_pool = reversed;
    freeze_authority = none;
  })

module _ (fl : Floats) (libs : Libraries) where
  open fl use {F}

  abbrev pub Found : Type 0
  Found = RaydiumPool × RaydiumPoolPriceUpdate F

  abbrev pub priced :
      InitTx → InitializeLog → List Pubkey → Bool → Mints → Option ℕ → Outcome (Option Found)
  unfolding pool_of tokens_to_ui_amount_with_decimals_f64 lamports_to_sol
  priced tx log accounts reversed m none = done none
  priced tx log accounts reversed m (some decimals) =
      tokens_to_ui_amount_with_decimals_f64 fl libs (token_reserve reversed log) decimals
      >>= λ base_reserve. pool_of tx reversed m decimals accounts >>= λ pool. done (
          some (
            pool,
            record {
              pool = pool.id;
              price = fl.div (lamports_to_sol fl (sol_reserve reversed log)) base_reserve;
              base_reserve = base_reserve;
              quote_reserve = lamports_to_sol fl (sol_reserve reversed log);
            },
          ))

  -- The lp mint is read before the balance is looked for.
  abbrev pub by_accounts : InitTx → InitializeLog → Option (List Pubkey) → Outcome (Option Found)
  unfolding read_mints extract_token_balance
  by_accounts tx log none = done none
  by_accounts tx log (some accounts) = read_mints accounts >>= λ m.
      unwrap (get_elem? accounts 7) >>= λ lp_mint.
      let o = ordered (is_reversed m) m in
      priced tx log accounts (is_reversed m) o
        (extract_token_balance tx.pre_token_balances o.base_mint)

  abbrev pub logged : InitTx → Option InitializeLog → Outcome (Option Found)
  unfolding find_initialize
  logged tx none = done none
  logged tx (some log) =
      by_accounts tx log (find_initialize tx.raydium_v4_program_id tx.instructions)

  unfoldable pub extract_pool_from_init_tx : InitTx → Outcome (Option Found)
  unfolding find_initialize read_mints extract_token_balance pool_of
      tokens_to_ui_amount_with_decimals_f64 lamports_to_sol
  extract_pool_from_init_tx tx = logged tx tx.initialize_log
