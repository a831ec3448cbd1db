-- ===== src/Rpc/Reserves.antt =====
-- The reserves and the price of a pool: src/solana/rpc_pool.rs.
use foxfire_sniper.Base.{
  ◌≡◌, ◌≢◌, ◌↔◌, refl, ap, sym, subst, ◌∙◌, ◌==◌, some, Outcome, done, unwrap, ◌>>=◌,
  Outcome-bind_inv, ◌%◌, ℕ, Option, none, done-injective, if-elim-with, arith,
}
use foxfire_sniper.Base.Results.{ok-injective, Result, ok, err}
use foxfire_sniper.Types.{Pubkey, wsol_mint_pubkey}
use foxfire_sniper.Sniper.Floats.{Floats}
use foxfire_sniper.Feed.State.{Libraries}
use foxfire_sniper.Feed.Reserves.{tokens_to_ui_amount_with_decimals_f64}
use foxfire_sniper.Types.{RaydiumPoolPriceUpdate}
use foxfire_sniper.Rpc.Calls.{RpcError}
use foxfire_sniper.Rpc.Pools.{
  LiquidityStateV4, Reads, Side, sides, ◌>>?◌, u8_mod, reserves_of, get_pool_reserves_f64,
  get_pool_price,
}

-- The sides of the token and of SOL, by the mint that the pool names as its base: SOL's is the side of
-- the base where that mint is SOL's, and the side of the quote where it is not.
pub data SidesAre (m : LiquidityStateV4) : Side → Side → Type 0 where
  sol_first :
      m.base_mint ≡ wsol_mint_pubkey
      → SidesAre m
          (record { vault = m.quote_vault; decimal = m.quote_decimal % u8_mod })
          (record { vault = m.base_vault; decimal = m.base_decimal % u8_mod })
  token_first :
      m.base_mint ≢ wsol_mint_pubkey
      → SidesAre m
          (record { vault = m.base_vault; decimal = m.base_decimal % u8_mod })
          (record { vault = m.quote_vault; decimal = m.quote_decimal % u8_mod })

sides-SidesAre : (m : LiquidityStateV4) → SidesAre m (sides m).0 (sides m).1
unfolding sides
sides-SidesAre m =
    if-elim-with (λ (p : Side × Side). SidesAre m p.0 p.1) (m.base_mint == wsol_mint_pubkey)
      (λ e. sol_first (ground (arith, e))) (λ e. token_first (λ q. ground (arith, e, q)))

SidesAre-sides :
    (m : LiquidityStateV4) (token sol : Side) → SidesAre m token sol → sides m ≡ (token, sol)
unfolding sides
SidesAre-sides m token sol (sol_first h) = ground (arith, h)
SidesAre-sides m token sol (token_first h) = ground (arith, h)

-- A call that is read, and what is made of it.
try-inv :
    {A B : Type 0} (m : Result RpcError A) (f : A → Outcome (Result RpcError B)) {b : B}
    → (m >>? f) ≡ done (ok b)
    → (a : A) × (m ≡ ok a) × (f a ≡ done (ok b))
try-inv (err e) f h = cc
try-inv (ok a) f h = (a, refl, h)

pub read-inv :
    {A B : Type 0} (m : Result RpcError (Option A)) (f : A → Outcome (Result RpcError B)) {b : B}
    → (m >>? λ o. unwrap o >>= f) ≡ done (ok b)
    → (a : A) × (m ≡ ok (some a)) × (f a ≡ done (ok b))
read-inv (err e) f h = cc
read-inv (ok none) f h = cc
read-inv (ok (some a)) f h = (a, refl, h)

pub reads_to :
    {A B : Type 0} (m : Result RpcError (Option A)) (f : A → Outcome (Result RpcError B)) {a : A}
    {b : B}
    → m ≡ ok (some a)
    → f a ≡ done (ok b)
    → (m >>? λ o. unwrap o >>= f) ≡ done (ok b)
reads_to m f h k = rw h k

module _ (fl : Floats) (libs : Libraries) where
  open fl use {F}

  -- One reserve: the balance of the side's vault, in units by its decimals.
  pub record IsReserve (r : Reads) (side : Side) (reserve : F) : Type 0 where
    pub amount : ℕ
    pub balance : r.balance side.vault ≡ ok (some amount)
    pub units : tokens_to_ui_amount_with_decimals_f64 fl libs amount side.decimal ≡ done reserve

  -- The reserves of the market that is read: those of the token and of SOL.
  pub record AreReserves (r : Reads) (base quote : F) : Type 0 where
    pub market : LiquidityStateV4
    pub known : r.market ≡ ok (some market)
    pub token : Side
    pub sol : Side
    pub market_sides : SidesAre market token sol
    pub base_reserve : IsReserve r token base
    pub quote_reserve : IsReserve r sol quote

  reserves_of-inv :
      (r : Reads) (token sol : Side) (base quote : F)
      → reserves_of fl libs r (token, sol) ≡ done (ok (base, quote))
      → IsReserve r token base × IsReserve r sol quote
  unfolding tokens_to_ui_amount_with_decimals_f64
  reserves_of-inv r token sol base quote h =
      let (a, ha, h₁) = read-inv (r.balance token.vault) _ h in
      let (b, hb, h₂) = read-inv (r.balance sol.vault) _ h₁ in
      let (x, hx, h₃) =
        Outcome-bind_inv (tokens_to_ui_amount_with_decimals_f64 fl libs a token.decimal) _ h₂ in
      let (y, hy, h₄) =
        Outcome-bind_inv (tokens_to_ui_amount_with_decimals_f64 fl libs b sol.decimal) _ h₃ in
      let same = ok-injective RpcError (done-injective h₄) in
      (
        record { amount = a; balance = ha; units = hx ∙ ap (λ p. done p.0) same },
        record { amount = b; balance = hb; units = hy ∙ ap (λ p. done p.1) same },
      )

  pub get_pool_reserves_f64-AreReserves :
      (r : Reads) (base quote : F)
      → get_pool_reserves_f64 fl libs r ≡ done (ok (base, quote))
      → AreReserves r base quote
  unfolding get_pool_reserves_f64
  get_pool_reserves_f64-AreReserves r base quote h =
      let (m, known, h₁) = read-inv r.market (λ m. reserves_of fl libs r (sides m)) h in
      let (of_token, of_sol) = reserves_of-inv r (sides m).0 (sides m).1 base quote h₁ in
      record {
        market = m;
        known = known;
        token = (sides m).0;
        sol = (sides m).1;
        market_sides = sides-SidesAre m;
        base_reserve = of_token;
        quote_reserve = of_sol;
      }

  pub AreReserves-get_pool_reserves_f64 :
      (r : Reads) (base quote : F)
      → AreReserves r base quote
      → get_pool_reserves_f64 fl libs r ≡ done (ok (base, quote))
  unfolding get_pool_reserves_f64
  AreReserves-get_pool_reserves_f64 r base quote h =
      rw
        (
          h.known,
          SidesAre-sides h.market h.token h.sol h.market_sides,
          h.base_reserve.balance,
          h.quote_reserve.balance,
          h.base_reserve.units,
          h.quote_reserve.units,
        )
        refl

  -- The price is read for the pool: its reserves are those of the token and of SOL, the quote, and the
  -- price is SOL for a token.
  pub record IsPriceRead (pool : Pubkey) (r : Reads) (price : RaydiumPoolPriceUpdate F)
      : Type 0 where
    pub pool_id : price.pool ≡ pool
    pub reserves : AreReserves r price.base_reserve price.quote_reserve
    pub ratio : price.price ≡ fl.div price.quote_reserve price.base_reserve

  price-IsPriceRead :
      (pool : Pubkey) (r : Reads) (price : RaydiumPoolPriceUpdate F)
      → get_pool_price fl libs pool r ≡ done (ok price)
      → IsPriceRead pool r price
  unfolding get_pool_price
  price-IsPriceRead pool r price h =
      let (read, e, h₁) = Outcome-bind_inv (get_pool_reserves_f64 fl libs r) _ h in
      let ((base, quote), f, h₂) = try-inv read _ h₁ in
      subst (IsPriceRead pool r) (ok-injective RpcError (done-injective h₂)) (record {
        pool_id = refl;
        reserves = get_pool_reserves_f64-AreReserves r base quote (e ∙ ap done f);
        ratio = refl;
      })

  IsPriceRead-price :
      (pool : Pubkey) (r : Reads) (price : RaydiumPoolPriceUpdate F)
      → IsPriceRead pool r price
      → get_pool_price fl libs pool r ≡ done (ok price)
  unfolding get_pool_price
  IsPriceRead-price pool r price h =
      rw (AreReserves-get_pool_reserves_f64 r _ _ h.reserves, sym h.pool_id, sym h.ratio) refl

  -- The price of a pool is read exactly where the market and both balances are: the base of the price
  -- is the balance of the token's vault and its quote the one of SOL's, each in units by the decimals
  -- of its own side, whichever of the two mints is the base of the pool (a pool whose base mint is not
  -- SOL's counts as one whose quote is); and the price is the quote over the base, for that pool.
  pub get_pool_price_iff :
      (pool : Pubkey) (r : Reads) (price : RaydiumPoolPriceUpdate F)
      → (get_pool_price fl libs pool r ≡ done (ok price)) ↔ IsPriceRead pool r price
  get_pool_price_iff pool r price = (price-IsPriceRead pool r price, IsPriceRead-price pool r price)
