-- ===== src/Sniper/Strategy/Dispatch.antt =====
-- `on_dispatch` of src/strategies/sniper_strategy/strategy_state_machine.rs and `process_event` of
-- src/strategies/sniper_strategy/strategy.rs. The snipes that the source wakes at the same time work
-- one after the other.
use foxfire_sniper.Base.{
  ◌≤◌, ◌≡◌, false, List, [], ◌∷◌, Outcome, Outcome-bind_inv, done, ◌>>=◌, length, arith, subst, ap,
  sym, ◌∙◌, suc, Bool-cases, inl, inr,
}
use foxfire_sniper.Types.{Pubkey, SolanaStrategyEvent}
use foxfire_sniper.Statechart.{Library}
use foxfire_sniper.Statechart.Runs.{done-injective}
use foxfire_sniper.Sniper.Floats.{Floats}
use foxfire_sniper.Sniper.State.{SniperAgentState, SniperEnv, State}
use foxfire_sniper.Sniper.Handlers.{chart}
use foxfire_sniper.Sniper.Strategy.{SniperStrategy, remove_ended, keep_live, ended}

module _ (fl : Floats) (lib : Library (chart fl)) where
  open fl use {F}

  -- The stores of the strategy, given to a snipe, and taken back from it.
  unfoldable pub lend : SniperStrategy F → SniperAgentState F → SniperAgentState F
  lend st a = record a {
    orders = record (a.orders) { shared = st.shared };
    target_pools = st.target_pools;
    target_pools_prices = st.target_pools_prices;
  }

  unfoldable pub regain : SniperAgentState F → SniperStrategy F → SniperStrategy F
  regain a st = record st {
    shared = a.orders.shared;
    target_pools = a.target_pools;
    target_pools_prices = a.target_pools_prices;
  }

  unfoldable pub handle_each :
      SniperEnv F
      → SolanaStrategyEvent F
      → List (Pubkey × (SniperAgentState F × State))
      → SniperStrategy F
      → Outcome (List (Pubkey × (SniperAgentState F × State)) × SniperStrategy F)
  unfolding lend regain
  handle_each env event [] st = done ([], st)
  handle_each env event ((k, (a, s)) ∷ rest) st = do
    m ← lib.handle (env, event) (lend st a, s)
    (ms, st') ← handle_each env event rest (regain m.0 st)
    done ((k, m) ∷ ms, st')

  -- Every snipe handles the event, and those that have ended leave the table.
  unfoldable pub deliver :
      SniperEnv F → SolanaStrategyEvent F → SniperStrategy F → Outcome (SniperStrategy F)
  unfolding handle_each
  deliver env event st = do
    (ms, st') ← handle_each env event st.pool_snipes st
    done (remove_ended fl (record st' { pool_snipes = ms }))

  -- No snipe of the table has ended.
  abbrev pub AllLive : List (Pubkey × (SniperAgentState F × State)) → Type 0
  AllLive [] = Unit
  AllLive ((k, (a, s)) ∷ m) = (ended fl s ≡ false) × AllLive m

  keep_live-AllLive : (m : List (Pubkey × (SniperAgentState F × State))) → AllLive (keep_live fl m)
  unfolding keep_live
  keep_live-AllLive [] = tt
  keep_live-AllLive ((k, (a, s)) ∷ m) = elim (Bool-cases (ended fl s)) [
    | inl e ↦ rw (e, keep_live) (keep_live-AllLive m)
    | inr e ↦ rw (e, keep_live) (e, keep_live-AllLive m)
  ]

  length-keep_live_le :
      (m : List (Pubkey × (SniperAgentState F × State))) → length (keep_live fl m) ≤ length m
  unfolding keep_live
  length-keep_live_le [] = omega arith
  length-keep_live_le ((k, (a, s)) ∷ m) = ground (arith, length-keep_live_le m)

  length-handle_each :
      (env : SniperEnv F) (event : SolanaStrategyEvent F)
      (m : List (Pubkey × (SniperAgentState F × State))) (st : SniperStrategy F)
      {y : List (Pubkey × (SniperAgentState F × State)) × SniperStrategy F}
      → handle_each env event m st ≡ done y
      → length y.0 ≡ length m
  unfolding handle_each
  length-handle_each env event [] st h = ap (λ y. length y.0) (sym (done-injective h))
  length-handle_each env event ((k, (a, s)) ∷ rest) st h =
      let (x, _, h') = Outcome-bind_inv (lib.handle (env, event) (lend st a, s)) _ h in
      let (z, e, h'') = Outcome-bind_inv (handle_each env event rest (regain x.0 st)) _ h' in
      ap (λ y. length y.0) (sym (done-injective h''))
      ∙ ap suc (length-handle_each env event rest (regain x.0 st) e)

  -- After the snipes have handled an event, none that has ended is in the table, and the table has
  -- not grown.
  pub deliver-AllLive :
      (env : SniperEnv F) (event : SolanaStrategyEvent F) (st : SniperStrategy F)
      {st' : SniperStrategy F}
      → deliver env event st ≡ done st'
      → AllLive st'.pool_snipes × (length st'.pool_snipes ≤ length st.pool_snipes)
  unfolding deliver remove_ended
  deliver-AllLive env event st h =
      let (y, e, d) = Outcome-bind_inv (handle_each env event st.pool_snipes st) _ h in
      subst (λ z. AllLive z.pool_snipes × (length z.pool_snipes ≤ length st.pool_snipes))
        (done-injective d)
        (
          keep_live-AllLive y.0,
          omega (arith, length-keep_live_le y.0, length-handle_each env event st.pool_snipes st e),
        )
