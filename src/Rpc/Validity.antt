-- ===== src/Rpc/Validity.antt =====
-- When a pool counts as valid: src/solana/rpc_pool.rs.
use foxfire_sniper.Base.{
  ◌≡◌, ◌↔◌, ◌⊎◌, inl, inr, refl, ap, sym, ◌∙◌, Bool, true, ◌||◌, ◌&&◌, ◌==◌, ==_iff, ==_refl, some,
  Outcome, done, Outcome-bind_inv, done-injective, if-elim-with, arith,
}
use foxfire_sniper.Base.Results.{succeeded, ok-injective, Result, ok, err}
use foxfire_sniper.Types.{Pubkey, wsol_mint_pubkey}
use foxfire_sniper.Sniper.Floats.{Floats}
use foxfire_sniper.Feed.State.{Libraries}
use foxfire_sniper.Rpc.Calls.{RpcError}
use foxfire_sniper.Rpc.Pools.{
  LiquidityStateV4, Reads, RaydiumPool, get_pool_details, is_valid_raydium_pool, valid_with,
  valid_by, is_liquid,
}
use foxfire_sniper.Rpc.Reserves.{
  read-inv, reads_to, AreReserves, get_pool_reserves_f64-AreReserves,
  AreReserves-get_pool_reserves_f64,
}

liquid_test :
    {a b : Bool} {x y : Pubkey}
    → a ≡ true
    → b ≡ true
    → (x ≡ wsol_mint_pubkey) ⊎ (y ≡ wsol_mint_pubkey)
    → (a && b && (x == wsol_mint_pubkey || y == wsol_mint_pubkey)) ≡ true
liquid_test h k sol = ground arith

test_liquid :
    {a b : Bool} {x y : Pubkey}
    → (a && b && (x == wsol_mint_pubkey || y == wsol_mint_pubkey)) ≡ true
    → (a ≡ true) × (b ≡ true) × ((x ≡ wsol_mint_pubkey) ⊎ (y ≡ wsol_mint_pubkey))
test_liquid h = ground arith

module _ (fl : Floats) (libs : Libraries) where
  open fl use {F}

  -- A pool with both reserves, of which one mint is that of SOL.
  pub record IsLiquid (pool : RaydiumPool) (base quote : F) : Type 0 where
    pub has_base : fl.lt (fl.lit 0) base ≡ true
    pub has_quote : fl.lt (fl.lit 0) quote ≡ true
    pub sol : (pool.base_mint ≡ wsol_mint_pubkey) ⊎ (pool.quote_mint ≡ wsol_mint_pubkey)

  -- The account is Raydium's, one of the mints of the details is SOL's, and the market that is read
  -- has both reserves.
  pub record IsSolMarket (r : Reads) : Type 0 where
    pub owner : r.owner ≡ ok r.raydium_v4_program_id
    pub state : LiquidityStateV4
    pub details : r.details ≡ ok (some state)
    pub sol : (state.base_mint ≡ wsol_mint_pubkey) ⊎ (state.quote_mint ≡ wsol_mint_pubkey)
    pub base : F
    pub quote : F
    pub reserves : AreReserves fl libs r base quote
    pub has_base : fl.lt (fl.lit 0) base ≡ true
    pub has_quote : fl.lt (fl.lit 0) quote ≡ true

  -- The details that are read have the mints of the state.
  pub record DetailsOf (r : Reads) (pool : RaydiumPool) : Type 0 where
    pub state : LiquidityStateV4
    pub known : r.details ≡ ok (some state)
    pub base_mint : pool.base_mint ≡ state.base_mint
    pub quote_mint : pool.quote_mint ≡ state.quote_mint

  get_pool_details-DetailsOf :
      (pubkey : Pubkey) (r : Reads) (pool : RaydiumPool)
      → get_pool_details fl libs pubkey r ≡ done (ok pool)
      → DetailsOf r pool
  unfolding get_pool_details
  get_pool_details-DetailsOf pubkey r pool h =
      let (m, known, made) = read-inv r.details _ h in
      let same = ok-injective RpcError (done-injective made) in
      record {
        state = m;
        known = known;
        base_mint = ap (λ t. t.base_mint) (sym same);
        quote_mint = ap (λ t. t.quote_mint) (sym same);
      }

  details-read :
      (pubkey : Pubkey) (r : Reads) (m : LiquidityStateV4)
      → r.details ≡ ok (some m)
      → (pool : RaydiumPool) × (get_pool_details fl libs pubkey r ≡ done (ok pool))
        × (pool.base_mint ≡ m.base_mint)
        × (pool.quote_mint ≡ m.quote_mint)
  unfolding get_pool_details
  details-read pubkey r m h = (_, reads_to r.details _ h refl, refl, refl)

  IsLiquid-is_liquid :
      (pool : RaydiumPool) (base quote : F)
      → IsLiquid pool base quote
      → is_liquid fl libs pool (ok (base, quote)) ≡ done true
  IsLiquid-is_liquid pool base quote h = ap done (liquid_test h.has_base h.has_quote h.sol)

  is_liquid-IsLiquid :
      (pool : RaydiumPool) (read : Result RpcError (F × F))
      → is_liquid fl libs pool read ≡ done true
      → (base : F) × (quote : F) × (read ≡ ok (base, quote)) × IsLiquid pool base quote
  is_liquid-IsLiquid pool (err e) h = cc
  is_liquid-IsLiquid pool (ok (base, quote)) h =
      let (b, q, sol) = test_liquid (done-injective h) in
      (base, quote, refl, record { has_base = b; has_quote = q; sol = sol })

  valid_by-inv :
      (details : Result RpcError RaydiumPool) (reserves : Outcome (Result RpcError (F × F)))
      → valid_by fl libs details reserves ≡ done true
      → (pool : RaydiumPool) × (details ≡ ok pool)
        × (base : F) × (quote : F) × (reserves ≡ done (ok (base, quote)))
        × IsLiquid pool base quote
  valid_by-inv (err e) reserves h = cc
  valid_by-inv (ok pool) reserves h =
      let (read, e, l) = Outcome-bind_inv reserves (is_liquid fl libs pool) h in
      let (base, quote, f, liquid) = is_liquid-IsLiquid pool read l in
      (pool, refl, base, quote, e ∙ ap done f, liquid)

  valid_with-inv :
      (owner : Result RpcError Pubkey) (program : Pubkey)
      (details : Outcome (Result RpcError RaydiumPool))
      (reserves : Outcome (Result RpcError (F × F)))
      → valid_with fl libs owner program details reserves ≡ done true
      → (owner ≡ ok program)
        × (pool : RaydiumPool) × (details ≡ done (ok pool))
        × (base : F) × (quote : F) × (reserves ≡ done (ok (base, quote)))
        × IsLiquid pool base quote
  valid_with-inv (err e) program details reserves h = cc
  valid_with-inv (ok owner) program details reserves h =
      let Found : Type 0 =
        (ok owner ≡ ok program)
        × (pool : RaydiumPool) × (details ≡ done (ok pool))
        × (base : F) × (quote : F) × (reserves ≡ done (ok (base, quote)))
        × IsLiquid pool base quote in
      if-elim-with (λ o. o ≡ done true → Found) (owner == program)
        (λ e k.
          let (d, known, v) = Outcome-bind_inv details (λ d. valid_by fl libs d reserves) k in
          let (pool, f, base, quote, read, liquid) = valid_by-inv d reserves v in
          (
            ap (succeeded {E = RpcError}) ((==_iff owner program).0 e),
            pool,
            known ∙ ap done f,
            base,
            quote,
            read,
            liquid,
          ))
        (λ e k. cc) h

  IsSolMarket-valid :
      (pubkey : Pubkey) (r : Reads) (owner : Result RpcError Pubkey)
      (details : Outcome (Result RpcError RaydiumPool))
      (reserves : Outcome (Result RpcError (F × F))) {pool : RaydiumPool} {base quote : F}
      → owner ≡ ok r.raydium_v4_program_id
      → details ≡ done (ok pool)
      → reserves ≡ done (ok (base, quote))
      → IsLiquid pool base quote
      → valid_with fl libs owner r.raydium_v4_program_id details reserves ≡ done true
  IsSolMarket-valid pubkey r owner details reserves {pool} {base} {quote} ho hd hr liquid =
      rw (ho, ==_refl r.raydium_v4_program_id, hd, hr) (IsLiquid-is_liquid pool base quote liquid)

  -- A pool is valid, and the call returns, exactly where the account is Raydium's, one of the two mints
  -- of the details is SOL's, and the market with both balances is read and both its reserves are above
  -- 0: the balances of the vaults of the token and of SOL, each in units by its own decimals.
  pub is_valid_raydium_pool_iff :
      (pubkey : Pubkey) (r : Reads)
      → (is_valid_raydium_pool fl libs pubkey r ≡ done true) ↔ IsSolMarket r
  unfolding is_valid_raydium_pool
  is_valid_raydium_pool_iff pubkey r = (
    λ h.
        let (o, pool, known, base, quote, read, liquid) = valid_with-inv r.owner _ _ _ h in
        let d = get_pool_details-DetailsOf pubkey r pool known in
        record {
          owner = o;
          state = d.state;
          details = d.known;
          sol = elim liquid.sol [
            | inl e ↦ inl (sym d.base_mint ∙ e)
            | inr e ↦ inr (sym d.quote_mint ∙ e)
          ];
          base = base;
          quote = quote;
          reserves = get_pool_reserves_f64-AreReserves fl libs r base quote read;
          has_base = liquid.has_base;
          has_quote = liquid.has_quote;
        },
    λ m.
        let (pool, known, base_mint, quote_mint) = details-read pubkey r m.state m.details in
        IsSolMarket-valid pubkey r r.owner _ _ m.owner known
          (AreReserves-get_pool_reserves_f64 fl libs r m.base m.quote m.reserves)
          (record {
            has_base = m.has_base;
            has_quote = m.has_quote;
            sol = elim m.sol [ inl e ↦ inl (base_mint ∙ e) | inr e ↦ inr (quote_mint ∙ e) ];
          }),
  )
