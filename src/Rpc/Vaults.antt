-- ===== src/Rpc/Vaults.antt =====
-- The vaults and the mints of a new pool: src/solana/pool.rs with src/types/pool.rs.
use foxfire_sniper.Base.{
  ℕ, ◌≡◌, ◌≢◌, refl, arith, sym, ap, ◌∙◌, subst, Bool, true, false, ==_iff, Option, none, some,
  List, get_elem?, if◌then◌else◌, Outcome, done, ◌>>=◌, unwrap, Outcome-bind_inv, done-injective,
}
use foxfire_sniper.Types.{Pubkey, RaydiumPoolPriceUpdate, wsol_mint_pubkey}
use foxfire_sniper.Sniper.Floats.{Floats}
use foxfire_sniper.Feed.State.{Libraries}
use foxfire_sniper.Feed.Reserves.{tokens_to_ui_amount_with_decimals_f64}
use foxfire_sniper.Telegram.Texts.{lamports_to_sol}
use foxfire_sniper.Rpc.Pools.{RaydiumPool}
use foxfire_sniper.Rpc.PoolKeys.{to_liquidity_keys}
use foxfire_sniper.Rpc.NewPools.{
  InitTx, InitializeLog, Mints, find_initialize, extract_token_balance, read_mints, is_reversed,
  ordered, pool_of, token_reserve, sol_reserve, priced, by_accounts, logged,
  extract_pool_from_init_tx,
}

unwrap-inv : {A : Type 0} (o : Option A) {a : A} → unwrap o ≡ done a → o ≡ some a
unwrap-inv none h = cc
unwrap-inv (some a) h = ap some (done-injective h)

-- An account at a place.
unwrap-bind_inv :
    {A B : Type 0} (o : Option A) (f : A → Outcome B) {b : B}
    → (unwrap o >>= f) ≡ done b
    → (a : A) × (o ≡ some a) × (f a ≡ done b)
unwrap-bind_inv none f h = cc
unwrap-bind_inv (some a) f h = (a, refl, h)

-- The mints and vaults are at their places.
pub record ReadAt (accounts : List Pubkey) (m : Mints) : Type 0 where
  pub base_mint : get_elem? accounts 8 ≡ some m.base_mint
  pub quote_mint : get_elem? accounts 9 ≡ some m.quote_mint
  pub base_vault : get_elem? accounts 10 ≡ some m.base_vault
  pub quote_vault : get_elem? accounts 11 ≡ some m.quote_vault

read_mints-ReadAt :
    (accounts : List Pubkey) (m : Mints) → read_mints accounts ≡ done m → ReadAt accounts m
unfolding read_mints
read_mints-ReadAt accounts m h =
    let (a, ha, h₁) = unwrap-bind_inv (get_elem? accounts 8) _ h in
    let (b, hb, h₂) = unwrap-bind_inv (get_elem? accounts 10) _ h₁ in
    let (c, hc, h₃) = unwrap-bind_inv (get_elem? accounts 9) _ h₂ in
    let (d, hd, h₄) = unwrap-bind_inv (get_elem? accounts 11) _ h₃ in
    subst (ReadAt accounts) (done-injective h₄)
      (record { base_mint = ha; quote_mint = hc; base_vault = hb; quote_vault = hd })

-- The pool has the mints and vaults, and knows whether they are reversed.
pub record HasMints (reversed : Bool) (m : Mints) (pool : RaydiumPool) : Type 0 where
  pub reverse_pool : pool.reverse_pool ≡ reversed
  pub base_mint : pool.base_mint ≡ m.base_mint
  pub quote_mint : pool.quote_mint ≡ m.quote_mint
  pub base_vault : pool.base_vault ≡ m.base_vault
  pub quote_vault : pool.quote_vault ≡ m.quote_vault

pool_of-HasMints :
    (tx : InitTx) (reversed : Bool) (m : Mints) (decimals : ℕ) (accounts : List Pubkey)
    (pool : RaydiumPool)
    → pool_of tx reversed m decimals accounts ≡ done pool
    → HasMints reversed m pool
unfolding pool_of
pool_of-HasMints tx reversed m decimals accounts pool h =
    let (a₁, _, h₁) = unwrap-bind_inv (get_elem? accounts 4) _ h in
    let (a₂, _, h₂) = unwrap-bind_inv (get_elem? accounts 7) _ h₁ in
    let (a₃, _, h₃) = unwrap-bind_inv (get_elem? accounts 5) _ h₂ in
    let (a₄, _, h₄) = unwrap-bind_inv (get_elem? accounts 6) _ h₃ in
    let (a₅, _, h₅) = unwrap-bind_inv (get_elem? accounts 13) _ h₄ in
    let (a₆, _, h₆) = unwrap-bind_inv (get_elem? accounts 12) _ h₅ in
    let (a₇, _, h₇) = unwrap-bind_inv (get_elem? accounts 15) _ h₆ in
    let (a₈, _, h₈) = unwrap-bind_inv (get_elem? accounts 16) _ h₇ in
    subst (HasMints reversed m) (done-injective h₈) (record {
      reverse_pool = refl;
      base_mint = refl;
      quote_mint = refl;
      base_vault = refl;
      quote_vault = refl;
    })

-- The mints of the pool and its amounts of tokens and of SOL: as they were initialised, where the first
-- mint is not SOL, and exchanged, so that SOL is the quote, where it is.
pub data SidesAre (accounts : List Pubkey) (log : InitializeLog) (pool : RaydiumPool)
    : ℕ → ℕ → Type 0 where
  straight :
      get_elem? accounts 8 ≡ some pool.base_mint
      → get_elem? accounts 9 ≡ some pool.quote_mint
      → pool.base_mint ≢ wsol_mint_pubkey
      → SidesAre accounts log pool log.init_coin_amount log.init_pc_amount
  exchanged :
      get_elem? accounts 8 ≡ some pool.quote_mint
      → get_elem? accounts 9 ≡ some pool.base_mint
      → pool.quote_mint ≡ wsol_mint_pubkey
      → SidesAre accounts log pool log.init_pc_amount log.init_coin_amount

-- The keys have the vaults of the accounts 10 and 11, whichever mint comes first.
pub record IsAsInitialised (accounts : List Pubkey) (log : InitializeLog) (pool : RaydiumPool)
    (tokens lamports : ℕ) : Type 0 where
  pub base_vault : get_elem? accounts 10 ≡ some (to_liquidity_keys pool).base_vault
  pub quote_vault : get_elem? accounts 11 ≡ some (to_liquidity_keys pool).quote_vault
  pub pool_sides : SidesAre accounts log pool tokens lamports

keys-base_vault :
    (pool : RaydiumPool) (reversed : Bool)
    → pool.reverse_pool ≡ reversed
    → (to_liquidity_keys pool).base_vault ≡ (if reversed then pool.quote_vault else pool.base_vault)
unfolding to_liquidity_keys
keys-base_vault pool reversed h = ap (λ b. if b then pool.quote_vault else pool.base_vault) h

keys-quote_vault :
    (pool : RaydiumPool) (reversed : Bool)
    → pool.reverse_pool ≡ reversed
    → (to_liquidity_keys pool).quote_vault
      ≡ (if reversed then pool.base_vault else pool.quote_vault)
unfolding to_liquidity_keys
keys-quote_vault pool reversed h = ap (λ b. if b then pool.base_vault else pool.quote_vault) h

HasMints-IsAsInitialised :
    (accounts : List Pubkey) (log : InitializeLog) (m : Mints) (reversed : Bool)
    (pool : RaydiumPool)
    → is_reversed m ≡ reversed
    → ReadAt accounts m
    → HasMints reversed (ordered reversed m) pool
    → IsAsInitialised accounts log pool (token_reserve reversed log) (sol_reserve reversed log)
HasMints-IsAsInitialised accounts log m true pool e r h = record {
  base_vault =
      r.base_vault ∙ ap some (sym (keys-base_vault pool true h.reverse_pool ∙ h.quote_vault));
  quote_vault =
      r.quote_vault ∙ ap some (sym (keys-quote_vault pool true h.reverse_pool ∙ h.base_vault));
  pool_sides =
      exchanged (r.base_mint ∙ ap some (sym h.quote_mint))
        (r.quote_mint ∙ ap some (sym h.base_mint))
        (h.quote_mint ∙ (==_iff m.base_mint wsol_mint_pubkey).0 e);
}
HasMints-IsAsInitialised accounts log m false pool e r h = record {
  base_vault =
      r.base_vault ∙ ap some (sym (keys-base_vault pool false h.reverse_pool ∙ h.base_vault));
  quote_vault =
      r.quote_vault ∙ ap some (sym (keys-quote_vault pool false h.reverse_pool ∙ h.quote_vault));
  pool_sides =
      straight (r.base_mint ∙ ap some (sym h.base_mint)) (r.quote_mint ∙ ap some (sym h.quote_mint))
        (λ q. ground (arith, e, h.base_mint, q));
}

found-injective : {A : Type 0} {a b : A} → done (some a) ≡ done (some b) → a ≡ b
found-injective h = cc

module _ (fl : Floats) (libs : Libraries) where
  open fl use {F}

  -- The price is that of the pool: the reserves are the amounts in units, the tokens by the decimals of
  -- the base mint before the transaction, and the price is their ratio.
  pub record IsPriceOf (tx : InitTx) (pool : RaydiumPool) (price : RaydiumPoolPriceUpdate F)
      (tokens lamports : ℕ) : Type 0 where
    pub pool_id : price.pool ≡ pool.id
    pub decimals : ℕ
    pub known : extract_token_balance tx.pre_token_balances pool.base_mint ≡ some decimals
    pub base_reserve :
        tokens_to_ui_amount_with_decimals_f64 fl libs tokens decimals ≡ done price.base_reserve
    pub quote_reserve : price.quote_reserve ≡ lamports_to_sol fl lamports
    pub ratio : price.price ≡ fl.div price.quote_reserve price.base_reserve

  priced-inv :
      (tx : InitTx) (log : InitializeLog) (accounts : List Pubkey) (reversed : Bool) (m : Mints)
      (decimals : Option ℕ) (pool : RaydiumPool) (price : RaydiumPoolPriceUpdate F)
      → extract_token_balance tx.pre_token_balances m.base_mint ≡ decimals
      → priced fl libs tx log accounts reversed m decimals ≡ done (some (pool, price))
      → HasMints reversed m pool
        × IsPriceOf tx pool price (token_reserve reversed log) (sol_reserve reversed log)
  unfolding pool_of tokens_to_ui_amount_with_decimals_f64 lamports_to_sol
  priced-inv tx log accounts reversed m none pool price k h = cc
  priced-inv tx log accounts reversed m (some decimals) pool price k h =
      let (base_reserve, units, h₁) =
        Outcome-bind_inv
          (tokens_to_ui_amount_with_decimals_f64 fl libs (token_reserve reversed log) decimals) _
          h in
      let (made, e, h₂) = Outcome-bind_inv (pool_of tx reversed m decimals accounts) _ h₁ in
      let same = found-injective h₂ in
      let mints =
        subst (HasMints reversed m) (ap (λ t. t.0) same)
          (pool_of-HasMints tx reversed m decimals accounts made e) in
      (
        mints,
        record {
          pool_id = ap (λ t. t.1.pool) (sym same) ∙ ap (λ t. t.0.id) same;
          decimals = decimals;
          known = ap (extract_token_balance tx.pre_token_balances) mints.base_mint ∙ k;
          base_reserve = units ∙ ap (λ t. done t.1.base_reserve) same;
          quote_reserve = ap (λ t. t.1.quote_reserve) (sym same);
          ratio =
              subst (λ t. t.price ≡ fl.div t.quote_reserve t.base_reserve) (ap (λ t. t.1) same)
                refl;
        },
      )

  -- The pool and its price are those of the accounts and the log, for some amounts.
  pub record IsNewPool (tx : InitTx) (accounts : List Pubkey) (log : InitializeLog)
      (pool : RaydiumPool) (price : RaydiumPoolPriceUpdate F) : Type 0 where
    pub tokens : ℕ
    pub lamports : ℕ
    pub initialised : IsAsInitialised accounts log pool tokens lamports
    pub priced : IsPriceOf tx pool price tokens lamports

  by_accounts-inv :
      (tx : InitTx) (log : InitializeLog) (found : Option (List Pubkey)) (pool : RaydiumPool)
      (price : RaydiumPoolPriceUpdate F)
      → by_accounts fl libs tx log found ≡ done (some (pool, price))
      → (accounts : List Pubkey) × (found ≡ some accounts) × IsNewPool tx accounts log pool price
  unfolding read_mints extract_token_balance
  by_accounts-inv tx log none pool price h = cc
  by_accounts-inv tx log (some accounts) pool price h =
      let (m, e, h₁) = Outcome-bind_inv (read_mints accounts) _ h in
      let (_, _, h₂) = unwrap-bind_inv (get_elem? accounts 7) _ h₁ in
      let (mints, priced_so) = priced-inv tx log accounts (is_reversed m) _ _ pool price refl h₂ in
      (
        accounts,
        refl,
        record {
          tokens = token_reserve (is_reversed m) log;
          lamports = sol_reserve (is_reversed m) log;
          initialised =
              HasMints-IsAsInitialised accounts log m (is_reversed m) pool refl
                (read_mints-ReadAt accounts m e) mints;
          priced = priced_so;
        },
      )

  logged-inv :
      (tx : InitTx) (found : Option InitializeLog) (pool : RaydiumPool)
      (price : RaydiumPoolPriceUpdate F)
      → logged fl libs tx found ≡ done (some (pool, price))
      → (log : InitializeLog) × (found ≡ some log)
        × (accounts : List Pubkey) × (find_initialize tx.raydium_v4_program_id tx.instructions
            ≡ some accounts)
        × IsNewPool tx accounts log pool price
  unfolding find_initialize
  logged-inv tx none pool price h = cc
  logged-inv tx (some log) pool price h =
      let (accounts, found, new) = by_accounts-inv tx log _ pool price h in
      (log, refl, accounts, found, new)

  -- Where a new pool is found, the keys that are made of it have the vaults of the accounts 10 and 11
  -- of Raydium's first instruction, whichever mint comes first. Where the first mint is not SOL, the
  -- pool has the mints as they are, the coin amount of the log as its tokens and the pc amount as its
  -- SOL; where it is SOL, both are exchanged and SOL is the quote. The reserves are these amounts in
  -- units, the tokens with the decimals of the base mint, and the price is their ratio.
  pub extract_pool_from_init_tx-IsAsInitialised :
      (tx : InitTx) (pool : RaydiumPool) (price : RaydiumPoolPriceUpdate F)
      → extract_pool_from_init_tx fl libs tx ≡ done (some (pool, price))
      → (log : InitializeLog) × (tx.initialize_log ≡ some log)
        × (accounts : List Pubkey) × (find_initialize tx.raydium_v4_program_id tx.instructions
            ≡ some accounts)
        × IsNewPool tx accounts log pool price
  unfolding extract_pool_from_init_tx
  extract_pool_from_init_tx-IsAsInitialised tx pool price h =
      logged-inv tx tx.initialize_log pool price h
