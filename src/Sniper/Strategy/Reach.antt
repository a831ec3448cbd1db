-- ===== src/Sniper/Strategy/Reach.antt =====
-- The events of a sniper strategy and the tasks that run between them, as steps.
use foxfire_sniper.Base.{
  ◌+◌, ◌≤◌, ◌≡◌, sym, ap, ◌∙◌, subst, if-cases, if◌then◌else◌, inl, inr, List, [], ◌∷◌, length,
  Outcome-bind_inv, done, arith,
}
use foxfire_sniper.Types.{
  Pubkey, SolanaAction, SolanaStrategyEvent, BotEvent, blockchain_event, raydium_new_pool_event,
  as_u64,
}
use foxfire_sniper.Statechart.{Library}
use foxfire_sniper.Statechart.Runs.{done-injective}
use foxfire_sniper.Sniper.Floats.{Floats}
use foxfire_sniper.Sniper.State.{SniperAgentState, SniperEnv, State}
use foxfire_sniper.Sniper.Handlers.{chart}
use foxfire_sniper.Sniper.Strategy.{SniperStrategy, Mint, run_spawned, remove_ended}
use foxfire_sniper.Sniper.Strategy.Limit.{
  WithinLimit, on_new_pool-WithinLimit, run_spawned-WithinLimit,
}
use foxfire_sniper.Sniper.Strategy.Process.{forwards, respond, process_event, take_actions}
use foxfire_sniper.Sniper.Strategy.Dispatch.{deliver, handle_each, lend, regain, deliver-AllLive}

module _ (fl : Floats) (lib : Library (chart fl)) where
  open fl use {F}

  -- An event is processed while no spawned task is pending, a pending task adds its snipe, or the
  -- snipes take an event.
  pub data Step : SniperStrategy F → SniperStrategy F → Type 0 where
    processed :
        (m : Mint) (event : BotEvent F) (st st' : SniperStrategy F) (actions : List SolanaAction)
        → st.pending ≡ []
        → process_event fl m event st ≡ done (st', actions)
        → Step st st'
    spawned : (env : SniperEnv F) (st : SniperStrategy F) → Step st (run_spawned fl env st)
    delivered :
        (env : SniperEnv F) (event : SolanaStrategyEvent F) (st st' : SniperStrategy F)
        → deliver fl lib env event st ≡ done st'
        → Step st st'

  pub data Reaches : SniperStrategy F → SniperStrategy F → Type 0 where
    here : (st : SniperStrategy F) → Reaches st st
    then_on : (st₀ st₁ st₂ : SniperStrategy F) → Step st₀ st₁ → Reaches st₁ st₂ → Reaches st₀ st₂

  respond-WithinLimit :
      (m : Mint) (event : BotEvent F) (st st' : SniperStrategy F)
      → WithinLimit fl st
      → st.pending ≡ []
      → respond fl m event st ≡ done st'
      → WithinLimit fl st'
  unfolding respond
  respond-WithinLimit m (blockchain_event (raydium_new_pool_event pool price)) st st' w p h =
      on_new_pool-WithinLimit fl m pool price st w p h
  respond-WithinLimit m _ st st' w p h = subst (WithinLimit fl) (done-injective h) w

  process_event-WithinLimit :
      (m : Mint) (event : BotEvent F) (st st' : SniperStrategy F) (actions : List SolanaAction)
      → WithinLimit fl st
      → st.pending ≡ []
      → process_event fl m event st ≡ done (st', actions)
      → WithinLimit fl st'
  unfolding process_event take_actions
  process_event-WithinLimit m event st st' actions w p h =
      let (mid, e, r) =
        Outcome-bind_inv (if forwards event then respond fl m event st else done st) _ h in
      let kept : WithinLimit fl mid =
        elim (if-cases (forwards event) (respond fl m event st) (done st)) [
          | inl (_, q) ↦ respond-WithinLimit m event st mid w p (sym q ∙ e)
          | inr (_, q) ↦ subst (WithinLimit fl) (done-injective (sym q ∙ e)) w
        ] in
      subst (WithinLimit fl) (ap (λ x. x.0) (done-injective r)) (record { bounded = kept.bounded })

  handle_each-kept :
      (env : SniperEnv F) (event : SolanaStrategyEvent F)
      (m : List (Pubkey × (SniperAgentState F × State))) (st : SniperStrategy F)
      {y : List (Pubkey × (SniperAgentState F × State)) × SniperStrategy F}
      → handle_each fl lib env event m st ≡ done y
      → (y.1.pending ≡ st.pending) × (y.1.instance_of ≡ st.instance_of)
  unfolding handle_each regain
  handle_each-kept env event [] st h = (
    ap (λ y. y.1.pending) (sym (done-injective h)),
    ap (λ y. y.1.instance_of) (sym (done-injective h)),
  )
  handle_each-kept env event ((k, (a, s)) ∷ rest) st h =
      let (x, _, h') = Outcome-bind_inv (lib.handle (env, event) (lend fl lib st a, s)) _ h in
      let (z, e, h'') =
        Outcome-bind_inv (handle_each fl lib env event rest (regain fl lib x.0 st)) _ h' in
      let (p, i) = handle_each-kept env event rest (regain fl lib x.0 st) e in
      (
        ap (λ y. y.1.pending) (sym (done-injective h'')) ∙ p,
        ap (λ y. y.1.instance_of) (sym (done-injective h'')) ∙ i,
      )

  deliver-kept :
      (env : SniperEnv F) (event : SolanaStrategyEvent F) (st st' : SniperStrategy F)
      → deliver fl lib env event st ≡ done st'
      → (st'.pending ≡ st.pending) × (st'.instance_of ≡ st.instance_of)
  unfolding deliver remove_ended
  deliver-kept env event st st' h =
      let (y, e, d) = Outcome-bind_inv (handle_each fl lib env event st.pool_snipes st) _ h in
      let (p, i) = handle_each-kept env event st.pool_snipes st e in
      (
        ap (λ z. z.pending) (sym (done-injective d)) ∙ p,
        ap (λ z. z.instance_of) (sym (done-injective d)) ∙ i,
      )

  deliver-WithinLimit :
      (env : SniperEnv F) (event : SolanaStrategyEvent F) (st st' : SniperStrategy F)
      → WithinLimit fl st
      → deliver fl lib env event st ≡ done st'
      → WithinLimit fl st'
  deliver-WithinLimit env event st st' w h =
      let (p, i) = deliver-kept env event st st' h in
      let (_, fewer) = deliver-AllLive fl lib env event st h in
      record {
        bounded =
            subst
              (λ q.
                length st'.pool_snipes + length q ≤ as_u64 st'.instance_of.max_simultaneous_snipes)
              (sym p)
              (subst
                (λ j. length st'.pool_snipes + length st.pending ≤ as_u64 j.max_simultaneous_snipes)
                (sym i) (omega (arith, fewer, w.bounded)));
      }

  Step-WithinLimit :
      {st st' : SniperStrategy F} → Step st st' → WithinLimit fl st → WithinLimit fl st'
  Step-WithinLimit (processed m event st st' actions p h) w =
      process_event-WithinLimit m event st st' actions w p h
  Step-WithinLimit (spawned env st) w = run_spawned-WithinLimit fl env st w
  Step-WithinLimit (delivered env event st st' h) w = deliver-WithinLimit env event st st' w h

  -- Where every spawned task runs before the next event is processed, the snipes never exceed the
  -- limit: if the table and the pending tasks are within it at the start, they are after any sequence
  -- of events, of tasks that add a snipe and of events that the snipes take, whatever the node and the
  -- chain answer.
  pub Reaches-WithinLimit :
      {st st' : SniperStrategy F} → Reaches st st' → WithinLimit fl st → WithinLimit fl st'
  Reaches-WithinLimit (here st) w = w
  Reaches-WithinLimit (then_on st₀ st₁ st₂ step rest) w =
      Reaches-WithinLimit rest (Step-WithinLimit step w)
