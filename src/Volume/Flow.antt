-- ===== src/Volume/Flow.antt =====
-- The order of the states of src/strategies/volume_strategy/strategy_state_machine.rs.
use foxfire_sniper.Base.{
  ◌≡◌, ◌⊎◌, inl, inr, refl, ◌∙◌, sym, done, ap, subst, true, false, Bool, ◌<◌, length,
  Outcome-bind_inv,
}
use foxfire_sniper.Types.{SolanaStrategyEvent, original, heart_beat}
use foxfire_sniper.Stopwatch
use foxfire_sniper.Statechart.{Response, handled, super, transition, Library, step}
use foxfire_sniper.Statechart.Runs.{done-injective, target, step-parts, follow-target}
use foxfire_sniper.Agent.State as Phase
use foxfire_sniper.Agent.State.{State as AgentPhase}
use foxfire_sniper.Agent.Handlers.{chart as agent_chart}
use foxfire_sniper.Volume.State.{
  World, VolumeStrategy, State, sweeping, offloading_inventory, fund, buying, collecting_tokens,
  transferring_token_to_sellers, selling, collecting_sol, sleeping, idle, error,
}
use foxfire_sniper.Volume.Status.{
  ExecutionStatus, done_status, error_status, idle_status, pending, get_execution_status,
  get_execution_status-done, AllSuccess,
}
use foxfire_sniper.Volume.Machine.{
  respond, chart, on_status, on_status_or_idle, after_offloading, after_funding, after_transfer,
  on_sleeping, wake,
}

-- The transitions of the strategy.
pub data Next : State → State → Type 0 where
  swept : Next sweeping offloading_inventory
  offloaded : Next offloading_inventory fund
  funded : Next fund buying
  not_funded : Next fund sweeping
  bought : Next buying collecting_tokens
  not_bought : Next buying sweeping
  collected : Next collecting_tokens transferring_token_to_sellers
  not_collected : Next collecting_tokens sweeping
  transferred : Next transferring_token_to_sellers selling
  not_transferred : Next transferring_token_to_sellers offloading_inventory
  sold : Next selling collecting_sol
  not_sold : Next selling sweeping
  returned : Next collecting_sol sleeping
  not_returned : Next collecting_sol sweeping
  woken : Next sleeping fund

-- Where an answer leads is the state itself or a next one.
abbrev Proper : State → Response State → Type 0
Proper s handled = Unit
Proper s super = Unit
Proper s (transition t) = Next s t

Proper-target :
    (s : State) (r : Response State) → Proper s r → (target s r ≡ s) ⊎ Next s (target s r)
Proper-target s handled h = inl refl
Proper-target s super h = inl refl
Proper-target s (transition t) h = inr h

on_status-Proper :
    {s next back : State}
    → Next s next
    → Next s back
    → (e : ExecutionStatus) → Proper s (on_status next back e)
unfolding on_status
on_status-Proper n b done_status = n
on_status-Proper n b error_status = b
on_status-Proper n b idle_status = tt
on_status-Proper n b pending = tt

on_status_or_idle-Proper :
    {s next back : State}
    → Next s next
    → Next s back
    → (e : ExecutionStatus) → Proper s (on_status_or_idle next back e)
unfolding on_status_or_idle
on_status_or_idle-Proper n b done_status = n
on_status_or_idle-Proper n b error_status = b
on_status_or_idle-Proper n b idle_status = b
on_status_or_idle-Proper n b pending = tt

after_offloading-Proper : (p : AgentPhase) → Proper offloading_inventory (after_offloading p)
unfolding after_offloading
after_offloading-Proper Phase.success = offloaded
after_offloading-Proper (Phase.error _) = offloaded
after_offloading-Proper Phase.deactivated = offloaded
after_offloading-Proper Phase.idle = offloaded
after_offloading-Proper _ = tt

after_funding-Proper : (p : AgentPhase) → Proper fund (after_funding p)
unfolding after_funding
after_funding-Proper Phase.success = funded
after_funding-Proper (Phase.error _) = not_funded
after_funding-Proper _ = tt

after_transfer-Proper : (p : AgentPhase) → Proper transferring_token_to_sellers (after_transfer p)
unfolding after_transfer
after_transfer-Proper Phase.success = transferred
after_transfer-Proper Phase.idle = transferred
after_transfer-Proper (Phase.error _) = not_transferred
after_transfer-Proper Phase.deactivated = not_transferred
after_transfer-Proper _ = tt

wake-Proper : (b : Bool) (st : VolumeStrategy) → Proper sleeping (wake b st).1
unfolding wake
wake-Proper true st = woken
wake-Proper false st = tt

on_status_or_idle_done :
    (e : ExecutionStatus)
    → target buying (on_status_or_idle collecting_tokens sweeping e) ≡ collecting_tokens
    → e ≡ done_status
unfolding on_status_or_idle
on_status_or_idle_done done_status h = refl
on_status_or_idle_done error_status h = cc
on_status_or_idle_done idle_status h = cc
on_status_or_idle_done pending h = cc

module _ (F : Type 0) where
  on_sleeping-Proper :
      (w : World) (event : SolanaStrategyEvent F) (st : VolumeStrategy)
      {x : VolumeStrategy × Response State}
      → on_sleeping w event st ≡ done x
      → Proper sleeping x.1
  unfolding on_sleeping
  on_sleeping-Proper w (original (heart_beat tick_ms)) st h =
      let (b, _, e) =
        Outcome-bind_inv (Stopwatch.is_time_elapsed (w.at 0).now st.stopwatch tick_ms)
          (λ b. done (wake b st)) h in
      subst (λ z. Proper sleeping z.1) (done-injective e) (wake-Proper b st)
  on_sleeping-Proper w _ st h = subst (λ z. Proper sleeping z.1) (done-injective h) tt

  respond-Proper :
      (e : World × SolanaStrategyEvent F) (s : State) (st : VolumeStrategy)
      {x : VolumeStrategy × Response State}
      → respond e s st ≡ done x
      → Proper s x.1
  unfolding respond
  respond-Proper e sweeping st h =
      subst (λ z. Proper sweeping z.1) (done-injective h)
        (on_status-Proper swept swept (get_execution_status st.agents))
  respond-Proper e offloading_inventory st h =
      subst (λ z. Proper offloading_inventory z.1) (done-injective h)
        (after_offloading-Proper st.main_wallet.1)
  respond-Proper e fund st h =
      subst (λ z. Proper fund z.1) (done-injective h) (after_funding-Proper st.main_wallet.1)
  respond-Proper e buying st h =
      subst (λ z. Proper buying z.1) (done-injective h)
        (on_status_or_idle-Proper bought not_bought (get_execution_status st.agents))
  respond-Proper e collecting_tokens st h =
      subst (λ z. Proper collecting_tokens z.1) (done-injective h)
        (on_status-Proper collected not_collected (get_execution_status st.agents))
  respond-Proper e transferring_token_to_sellers st h =
      subst (λ z. Proper transferring_token_to_sellers z.1) (done-injective h)
        (after_transfer-Proper st.main_wallet.1)
  respond-Proper e selling st h =
      subst (λ z. Proper selling z.1) (done-injective h)
        (on_status-Proper sold not_sold (get_execution_status st.agents))
  respond-Proper e collecting_sol st h =
      subst (λ z. Proper collecting_sol z.1) (done-injective h)
        (on_status-Proper returned not_returned (get_execution_status st.agents))
  respond-Proper e sleeping st h = on_sleeping-Proper e.0 e.1 st h
  respond-Proper e idle st h = subst (λ z. Proper idle z.1) (done-injective h) tt
  respond-Proper e error st h = subst (λ z. Proper error z.1) (done-injective h) tt

  module _ (lib : Library (agent_chart {F = F})) where
    -- A step of the strategy stays in its state or takes one of the transitions of the cycle.
    pub step-Next :
        (e : World × SolanaStrategyEvent F) (s : State) (st : VolumeStrategy)
        {y : VolumeStrategy × State}
        → step (chart F lib) e (st, s) ≡ done y
        → (y.1 ≡ s) ⊎ Next s y.1
    unfolding chart
    step-Next e s st h =
        let (x, answered, followed) = step-parts (chart F lib) e st s h in
        let led = follow-target (chart F lib) e s x.0 x.1 followed in
        subst (λ t. (t ≡ s) ⊎ Next s t) (sym led)
          (Proper-target s x.1 (respond-Proper e s st answered))

    -- The strategy goes on from the purchases to the collection of the tokens only where the tranche
    -- has an agent and every agent is in the state `Success`.
    pub step-bought :
        (e : World × SolanaStrategyEvent F) (st st' : VolumeStrategy)
        → step (chart F lib) e (st, buying) ≡ done (st', collecting_tokens)
        → (0 < length st.agents) × AllSuccess st.agents
    unfolding chart respond
    step-bought e st st' h =
        let (x, answered, followed) = step-parts (chart F lib) e st buying h in
        let led = follow-target (chart F lib) e buying x.0 x.1 followed in
        (get_execution_status-done st.agents).0 (
          on_status_or_idle_done (get_execution_status st.agents)
            (ap (λ z. target buying z.1) (done-injective answered) ∙ sym led))
