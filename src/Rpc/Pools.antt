-- ===== src/Rpc/Pools.antt =====
-- What src/solana/rpc_pool.rs reads of a Raydium pool, and src/types/pool.rs.
use foxfire_sniper.Base.{
  ℕ, ◌%◌, Bool, false, ◌||◌, ◌&&◌, ◌==◌, Option, none, if◌then◌else◌, Outcome, done, panic, ◌>>=◌,
  unwrap,
}
use foxfire_sniper.Base.Results.{Result, ok, err}
use foxfire_sniper.Types.{Pubkey, RaydiumPoolPriceUpdate, wsol_mint_pubkey}
use foxfire_sniper.Sniper.Floats.{Floats}
use foxfire_sniper.Feed.State.{Libraries}
use foxfire_sniper.Feed.Reserves.{tokens_to_ui_amount_with_decimals_f64}
use foxfire_sniper.Rpc.Calls.{RpcError}

pub record RaydiumPool : Type 0 where
  pub id : Pubkey
  pub base_mint : Pubkey
  pub quote_mint : Pubkey
  pub lp_mint : Pubkey
  pub base_decimals : ℕ
  pub quote_decimals : ℕ
  pub lp_decimals : ℕ
  pub version : ℕ
  pub program_id : Pubkey
  pub authority : Pubkey
  pub open_orders : Pubkey
  pub target_orders : Pubkey
  pub base_vault : Pubkey
  pub quote_vault : Pubkey
  pub withdraw_queue : Pubkey
  pub lp_vault : Pubkey
  pub market_version : ℕ
  pub market_program_id : Pubkey
  pub market_id : Pubkey
  pub lp_reserve : ℕ
  pub open_time : ℕ
  pub reverse_pool : Bool
  pub freeze_authority : Option Pubkey

-- The fields of the farm library's LiquidityStateV4 that are read.
pub record LiquidityStateV4 : Type 0 where
  pub base_mint : Pubkey
  pub quote_mint : Pubkey
  pub lp_mint : Pubkey
  pub base_decimal : ℕ
  pub quote_decimal : ℕ
  pub open_orders : Pubkey
  pub target_orders : Pubkey
  pub base_vault : Pubkey
  pub quote_vault : Pubkey
  pub withdraw_queue : Pubkey
  pub lp_vault : Pubkey
  pub market_program_id : Pubkey
  pub market_id : Pubkey

-- What the calls for one pool come to, one after the other: the owner of the account; its data for the
-- details and again for the reserves, where none is data that cannot be read; and the balances of
-- token accounts, where none is a text that is no u64. With the addresses of Raydium.
pub record Reads : Type 0 where
  pub owner : Result RpcError Pubkey
  pub details : Result RpcError (Option LiquidityStateV4)
  pub market : Result RpcError (Option LiquidityStateV4)
  pub balance : Pubkey → Result RpcError (Option ℕ)
  pub raydium_v4_program_id : Pubkey
  pub raydium_v4_authority : Pubkey

-- `?` in a call that may panic.
infixl 5 ◌>>?◌
abbrev pub ◌>>?◌ {ℓ κ} :
    {A : Type ℓ} {B : Type κ}
    → Result RpcError A
    → (A → Outcome (Result RpcError B))
    → Outcome (Result RpcError B)
ok a >>? f = f a
err e >>? f = done (err e)

abbrev pub u8_mod : ℕ
u8_mod = 256

-- A vault with the decimals of its token.
pub record Side : Type 0 where
  pub vault : Pubkey
  pub decimal : ℕ

-- The sides of the base and of the quote: SOL is the quote.
unfoldable pub sides : LiquidityStateV4 → Side × Side
sides m =
    let base : Side = record { vault = m.base_vault; decimal = m.base_decimal % u8_mod } in
    let quote : Side = record { vault = m.quote_vault; decimal = m.quote_decimal % u8_mod } in
    if m.base_mint == wsol_mint_pubkey then (quote, base) else (base, quote)

module _ (fl : Floats) (libs : Libraries) where
  open fl use {F}

  abbrev pub reserves_of : Reads → Side × Side → Outcome (Result RpcError (F × F))
  unfolding tokens_to_ui_amount_with_decimals_f64
  reserves_of r (base, quote) = r.balance base.vault >>? λ base_text.
      unwrap base_text >>= λ base_amount. r.balance quote.vault >>? λ quote_text. do
        quote_amount ← unwrap quote_text
        base_reserve ← tokens_to_ui_amount_with_decimals_f64 fl libs base_amount base.decimal
        quote_reserve ← tokens_to_ui_amount_with_decimals_f64 fl libs quote_amount quote.decimal
        done (ok (base_reserve, quote_reserve))

  unfoldable pub get_pool_reserves_f64 : Reads → Outcome (Result RpcError (F × F))
  unfolding sides reserves_of
  get_pool_reserves_f64 r = r.market >>? λ state. unwrap state >>= λ m. reserves_of r (sides m)

  unfoldable pub get_pool_price :
      Pubkey → Reads → Outcome (Result RpcError (RaydiumPoolPriceUpdate F))
  unfolding get_pool_reserves_f64
  get_pool_price pool_lp r = get_pool_reserves_f64 r >>= λ reserves. reserves >>? λ pair. done (
      ok (record {
        pool = pool_lp;
        price = fl.div pair.1 pair.0;
        base_reserve = pair.0;
        quote_reserve = pair.1;
      }))

  unfoldable pub get_pool_details : Pubkey → Reads → Outcome (Result RpcError RaydiumPool)
  get_pool_details pool_pubkey r = r.details >>? λ state. unwrap state >>= λ m. done (
      ok (record {
        id = pool_pubkey;
        base_mint = m.base_mint;
        quote_mint = m.quote_mint;
        lp_mint = m.lp_mint;
        base_decimals = m.base_decimal % u8_mod;
        quote_decimals = m.quote_decimal % u8_mod;
        lp_decimals = 0;
        version = 3;
        program_id = r.raydium_v4_program_id;
        authority = r.raydium_v4_authority;
        open_orders = m.open_orders;
        target_orders = m.target_orders;
        base_vault = m.base_vault;
        quote_vault = m.quote_vault;
        withdraw_queue = m.withdraw_queue;
        lp_vault = m.lp_vault;
        market_version = 3;
        market_program_id = m.market_program_id;
        market_id = m.market_id;
        lp_reserve = 0;
        open_time = 0;
        reverse_pool = false;
        freeze_authority = none;
      }))

  abbrev pub is_liquid : RaydiumPool → Result RpcError (F × F) → Outcome Bool
  is_liquid pool (err e) = panic
  is_liquid pool (ok (base, quote)) = done (
      fl.lt (fl.lit 0) base
      && fl.lt (fl.lit 0) quote
      && (pool.base_mint == wsol_mint_pubkey || pool.quote_mint == wsol_mint_pubkey))

  -- With the details: the reserves are read again, and an error of that call panics.
  abbrev pub valid_by :
      Result RpcError RaydiumPool → Outcome (Result RpcError (F × F)) → Outcome Bool
  valid_by (err e) reserves = done false
  valid_by (ok pool) reserves = reserves >>= λ read. is_liquid pool read

  abbrev pub valid_with :
      Result RpcError Pubkey
      → Pubkey
      → Outcome (Result RpcError RaydiumPool)
      → Outcome (Result RpcError (F × F))
      → Outcome Bool
  valid_with (err e) program details reserves = done false
  valid_with (ok owner) program details reserves =
      if owner == program then details >>= (λ pool. valid_by pool reserves) else done false

  unfoldable pub is_valid_raydium_pool : Pubkey → Reads → Outcome Bool
  unfolding get_pool_details get_pool_reserves_f64
  is_valid_raydium_pool pubkey r =
      valid_with r.owner r.raydium_v4_program_id (get_pool_details pubkey r)
        (get_pool_reserves_f64 r)
