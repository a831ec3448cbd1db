-- ===== src/Sniper/Strategy/Limit.antt =====
-- The limit on simultaneous snipes of src/strategies/sniper_strategy/strategy_state_machine.rs.
use foxfire_sniper.Base.{
  ◌⊎◌, ℕ, ◌+◌, ◌≤◌, ◌<◌, ◌≡◌, refl, false, ◌&&◌, some, List, [], ◌∷◌, ◌++◌, length, length-append,
  has_key, erase_key, done, Outcome-bind_inv, arith, subst,
}
use foxfire_sniper.Types.{RaydiumPool, RaydiumPoolPriceUpdate, as_u64}
use foxfire_sniper.Statechart.Runs.{done-injective}
use foxfire_sniper.Sniper.Floats.{Floats}
use foxfire_sniper.Sniper.State.{SniperEnv}
use foxfire_sniper.Sniper.Strategy.{
  SniperStrategy, Mint, Verdict, start, judge, on_new_pool, run_spawned, spawn_each, obey,
}

length-erase_key_le : {V : Type 0} (k : ℕ) (m : List (ℕ × V)) → length (erase_key k m) ≤ length m
length-erase_key_le k [] = omega arith
length-erase_key_le k ((j, v) ∷ m) = ground (arith, length-erase_key_le k m)

module _ (fl : Floats) where
  open fl use {F, lt}

  -- A snipe is started only for a pool that passes every test: it is not captured, it is not
  -- named after pump.fun where such are skipped, its token cannot be frozen, nor minted where
  -- such are skipped, its liquidity suffices, and fewer snipes are in the table than the limit.
  pub judge-start :
      (m : Mint) (pool : RaydiumPool) (price : RaydiumPoolPriceUpdate F) (st : SniperStrategy F)
      → judge fl m pool price st ≡ done start
      → (has_key pool.id st.pool_snipes ≡ false)
        × ((st.instance_of.skip_pump_fun && m.name_has_pump) ≡ false)
        × (m.freezable ≡ some false)
        × ((st.instance_of.skip_mintable ≡ false) ⊎ (m.mintable ≡ some false))
        × (lt price.quote_reserve st.instance_of.min_pool_liquidity_sol ≡ false)
        × (length st.pool_snipes < as_u64 st.instance_of.max_simultaneous_snipes)
  unfolding judge
  judge-start m pool price st h = ground arith

  -- The snipes in the table and those that are about to be added stay within the limit.
  pub record WithinLimit (st : SniperStrategy F) : Type 0 where
    pub bounded :
        length st.pool_snipes + length st.pending ≤ as_u64 st.instance_of.max_simultaneous_snipes

  obey-WithinLimit :
      (m : Mint) (pool : RaydiumPool) (price : RaydiumPoolPriceUpdate F) (st : SniperStrategy F)
      {st' : SniperStrategy F}
      → WithinLimit st
      → st.pending ≡ []
      → (v : Verdict) → judge fl m pool price st ≡ done v
      → done (obey fl pool price st v) ≡ done st'
      → WithinLimit st'
  unfolding obey
  obey-WithinLimit m pool price st w p start hv e =
      let (_, _, _, _, _, below) = judge-start m pool price st hv in
      let table = length st.pool_snipes in
      let grown : WithinLimit (record st { pending = st.pending ++ (pool, price) ∷ [] }) = record {
        bounded = ground (arith, length-append st.pending ((pool, price) ∷ []));
      } in
      subst WithinLimit (done-injective e) grown
  obey-WithinLimit m pool price st w p v hv e = subst WithinLimit (done-injective e) w

  -- Where the snipes are within the limit, a new pool that is handled without a panic while no
  -- task is pending keeps them within it, the new task included.
  pub on_new_pool-WithinLimit :
      (m : Mint) (pool : RaydiumPool) (price : RaydiumPoolPriceUpdate F) (st : SniperStrategy F)
      {st' : SniperStrategy F}
      → WithinLimit st
      → st.pending ≡ []
      → on_new_pool fl m pool price st ≡ done st'
      → WithinLimit st'
  unfolding on_new_pool
  on_new_pool-WithinLimit m pool price st w p h =
      let (v, hv, e) =
        Outcome-bind_inv (judge fl m pool price st) (λ v. done (obey fl pool price st v)) h in
      obey-WithinLimit m pool price st w p v hv e

  spawn_each_bounded :
      (env : SniperEnv F) (q : List (RaydiumPool × RaydiumPoolPriceUpdate F))
      (st : SniperStrategy F)
      → st.pending ≡ q
      → length st.pool_snipes + length q ≤ as_u64 st.instance_of.max_simultaneous_snipes
      → let st' = spawn_each fl env q st in
        length st'.pool_snipes + length st'.pending ≤ as_u64 st'.instance_of.max_simultaneous_snipes
  unfolding spawn_each
  spawn_each_bounded env [] st e h = ground (arith)
  spawn_each_bounded env ((pool, price) ∷ rest) st e h =
      ground (arith, length-erase_key_le pool.id st.pool_snipes)

  -- Where the snipes and the pending tasks are within the limit, they still are once the oldest
  -- of the tasks has added its snipe.
  pub run_spawned-WithinLimit :
      (env : SniperEnv F) (st : SniperStrategy F)
      → WithinLimit st
      → WithinLimit (run_spawned fl env st)
  unfolding run_spawned
  run_spawned-WithinLimit env st w = record {
    bounded = spawn_each_bounded env st.pending st refl w.bounded;
  }

  pending_unread :
      (m : Mint) (pool : RaydiumPool) (price : RaydiumPoolPriceUpdate F) (st : SniperStrategy F)
      (q : List (RaydiumPool × RaydiumPoolPriceUpdate F))
      → judge fl m pool price (record st { pending = q }) ≡ judge fl m pool price st
  unfolding judge
  pending_unread m pool price st q = ground arith

  -- A pool that passes the tests is put among the pending tasks however many tasks are pending
  -- already: new pools that come before the tasks run are not held to the limit on simultaneous
  -- snipes.
  pub on_new_pool-raced :
      (m : Mint) (pool : RaydiumPool) (price : RaydiumPoolPriceUpdate F) (st : SniperStrategy F)
      (q : List (RaydiumPool × RaydiumPoolPriceUpdate F))
      → judge fl m pool price st ≡ done start
      → on_new_pool fl m pool price (record st { pending = q })
        ≡ done (record st { pending = q ++ (pool, price) ∷ [] })
  unfolding on_new_pool
  on_new_pool-raced m pool price st q h = rw (pending_unread m pool price st q, h)
