-- ===== src/Agent/Ordering.antt =====
-- When an agent hands an order to the executor.
use foxfire_sniper.Base.{
  ◌≡◌, refl, sym, ◌∙◌, ap, Bool, true, false, [], ◌∷◌, ◌++◌, done, contains, subst, unwrap,
  Outcome-bind_inv, contains-append_self, arith,
}
use foxfire_sniper.Types.{
  SolanaStrategyEvent, SolanaAction, buy_tokens_for_exact_sol, sell_exact_tokens_for_sol,
  max_but_leave_for_transfer,
}
use foxfire_sniper.Statechart.{Response, handled, super, transition, step}
use foxfire_sniper.Orders.{Env, queue_action, is_cooled_down_before_retry}
use foxfire_sniper.Agent.State.{
  AgentState, State, idle, transferring, collecting, buying, selling, success, error, deactivating,
  deactivated, get_token_balance, drop,
}
use foxfire_sniper.Agent.Entry.{enter, collect, queue, transfer_order, swap_order, collect_order}
use foxfire_sniper.Statechart.Runs.{done-injective}
use foxfire_sniper.Agent.Handlers.{respond, chart}
use foxfire_sniper.Agent.Steps.{Arrives, step-Arrives}

-- The states whose entry action sends an order.
abbrev pub sends : State → Bool
sends (transferring _ _) = true
sends (collecting _) = true
sends (buying _ _) = true
sends (selling _ _) = true
sends (deactivating _) = true
sends _ = false

abbrev pub sends_on : Response State → Bool
sends_on (transition t) = sends t
sends_on _ = false

-- Between `a` and `b`, orders were generated: none, or one that bears the new identifier and the
-- agent's key, and that is then in progress.
abbrev pub Generates : Env → AgentState → AgentState → Bool → Type 0
Generates env a b false = b.orders.shared.generated ≡ a.orders.shared.generated
Generates env a b true =
    (order : SolanaAction) × (b.orders.shared.generated ≡ a.orders.shared.generated ++ order ∷ [])
    × (order.uuid ≡ env.fresh)
    × (order.sniper ≡ a.agent_key)
    × (contains env.fresh b.orders.actions_in_progress ≡ true)

queue-Generates :
    (env : Env) (order : SolanaAction) (a b : AgentState)
    → order.uuid ≡ env.fresh
    → order.sniper ≡ a.agent_key
    → b.orders.shared.generated ≡ a.orders.shared.generated
    → Generates env a (queue env order b) true
unfolding queue queue_action
queue-Generates env order a b u k g = (
  order,
  rw g,
  u,
  k,
  subst (λ n. contains n (b.orders.actions_in_progress ++ order.uuid ∷ []) ≡ true) u
      (contains-append_self order.uuid b.orders.actions_in_progress),
)

collect-Generates : (env : Env) (a b : AgentState) → collect env a ≡ done b → Generates env a b true
unfolding collect get_token_balance
collect-Generates env a b h =
    let (a', balance) = get_token_balance env a in
    let (main, _, queued) = Outcome-bind_inv (unwrap a.main_wallet) _ h in
    subst (λ z. Generates env a z true) (done-injective queued)
      (queue-Generates env (collect_order env balance main a') a a' refl refl refl)

enter-Generates :
    (env : Env) (s : State) (a b : AgentState)
    → enter env s a ≡ done b
    → Generates env a b (sends s)
unfolding enter drop
enter-Generates env idle a b h = ground arith
enter-Generates env success a b h = ground arith
enter-Generates env (error m) a b h = ground arith
enter-Generates env deactivated a b h = ground arith
enter-Generates env (transferring batch r) a b h =
    subst (λ z. Generates env a z true) (done-injective h)
      (queue-Generates env (transfer_order env batch a) a a refl refl refl)
enter-Generates env (buying amt r) a b h =
    subst (λ z. Generates env a z true) (done-injective h)
      (queue-Generates env (swap_order env buy_tokens_for_exact_sol max_but_leave_for_transfer a) a
        a refl refl refl)
enter-Generates env (selling amt r) a b h =
    subst (λ z. Generates env a z true) (done-injective h)
      (queue-Generates env (swap_order env sell_exact_tokens_for_sol amt a) a a refl refl refl)
enter-Generates env (collecting r) a b h = collect-Generates env a b h
enter-Generates env (deactivating r) a b h = collect-Generates env a b h

Generates-after :
    (env : Env) (a a' b : AgentState) (sending : Bool)
    → a'.orders.shared ≡ a.orders.shared
    → a'.agent_key ≡ a.agent_key
    → Generates env a' b sending
    → Generates env a b sending
Generates-after env a a' b true o k g =
    (g.0, g.1 ∙ ap (λ t. t.generated ++ g.0 ∷ []) o, g.2, g.3 ∙ k, g.4)
Generates-after env a a' b false o k g = g ∙ ap (λ t. t.generated) o

arrive-Generates :
    (env : Env) (s : State) (a a' : AgentState) (r : Response State) (y : AgentState × State)
    → a'.orders.shared ≡ a.orders.shared
    → a'.agent_key ≡ a.agent_key
    → Arrives env s a' r y
    → Generates env a y.0 (sends_on r)
arrive-Generates env s a a' handled y o k h = ground arith
arrive-Generates env s a a' super y o k h = ground arith
arrive-Generates env s a a' (transition t) y o k h =
    Generates-after env a a' y.0 (sends t) o k (enter-Generates env t a' y.0 h.0)

module _ {F : Type 0} where
  respond-generated :
      (env : Env) (ev : SolanaStrategyEvent F) (s : State) (a : AgentState)
      {x : AgentState × Response State}
      → respond (env, ev) s a ≡ done x
      → (x.0.orders.shared ≡ a.orders.shared) × (x.0.agent_key ≡ a.agent_key)
  unfolding respond is_cooled_down_before_retry
  respond-generated env ev idle a h = ground arith
  respond-generated env ev s a h = ground arith

  -- An agent hands the executor one order when the handler's answer is a transition to a state of an
  -- order, also to the state it is in, and none otherwise. The order bears the new identifier and
  -- the agent's key, and is then in progress.
  pub step-Generates :
      (env : Env) (ev : SolanaStrategyEvent F) (s : State) (a : AgentState)
      {x : AgentState × Response State} {y : AgentState × State}
      → respond (env, ev) s a ≡ done x
      → step chart (env, ev) (a, s) ≡ done y
      → Generates env a y.0 (sends_on x.1)
  step-Generates env ev s a {x} {y} h st =
      let (x', answered, arrived) = step-Arrives env ev s a st in
      let same : x' ≡ x = done-injective (sym answered ∙ h) in
      let (shared, key) = respond-generated env ev s a h in
      arrive-Generates env s a x.0 x.1 y shared key
        (subst (λ z. Arrives env s z.0 z.1 y) same arrived)
