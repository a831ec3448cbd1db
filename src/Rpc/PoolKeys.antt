-- ===== src/Rpc/PoolKeys.antt =====
-- The keys of a pool: src/types/pool.rs.
use foxfire_sniper.Base.{ℕ, if◌then◌else◌}
use foxfire_sniper.Types.{Pubkey}
use foxfire_sniper.Rpc.Pools.{RaydiumPool}

-- The keys that the farm library asks for.
pub record LiquidityPoolKeys : Type 0 where
  pub id : Pubkey
  pub base_mint : Pubkey
  pub quote_mint : Pubkey
  pub lp_mint : Pubkey
  pub base_decimals : ℕ
  pub quote_decimals : ℕ
  pub lp_decimals : ℕ
  pub version : ℕ
  pub program_id : Pubkey
  pub authority : Pubkey
  pub open_orders : Pubkey
  pub target_orders : Pubkey
  pub base_vault : Pubkey
  pub quote_vault : Pubkey
  pub withdraw_queue : Pubkey
  pub lp_vault : Pubkey
  pub market_version : ℕ
  pub market_program_id : Pubkey
  pub market_id : Pubkey
  pub market_authority : Pubkey
  pub market_base_vault : Pubkey
  pub market_quote_vault : Pubkey
  pub market_bids : Pubkey
  pub market_asks : Pubkey
  pub market_event_queue : Pubkey

unfoldable pub to_liquidity_keys : RaydiumPool → LiquidityPoolKeys
to_liquidity_keys p = record {
  id = p.id;
  base_mint = p.base_mint;
  quote_mint = p.quote_mint;
  lp_mint = p.lp_mint;
  base_decimals = p.base_decimals;
  quote_decimals = p.quote_decimals;
  lp_decimals = p.lp_decimals;
  version = p.version;
  program_id = p.program_id;
  authority = p.authority;
  open_orders = p.id;
  target_orders = p.id;
  base_vault = if p.reverse_pool then p.quote_vault else p.base_vault;
  quote_vault = if p.reverse_pool then p.base_vault else p.quote_vault;
  withdraw_queue = p.withdraw_queue;
  lp_vault = p.lp_vault;
  market_version = p.market_version;
  market_program_id = p.id;
  market_id = p.id;
  market_authority = p.id;
  market_base_vault = p.id;
  market_quote_vault = p.id;
  market_bids = p.id;
  market_asks = p.id;
  market_event_queue = p.id;
}
