-- ===== src/Agent/Identity.antt =====
-- What no event changes of an agent: its keys, its strategy and its pool.
use foxfire_sniper.Base.{◌≡◌, done, arith}
use foxfire_sniper.Types.{SolanaStrategyEvent}
use foxfire_sniper.Statechart.{Response, handled, super, transition, step}
use foxfire_sniper.Orders.{Env}
use foxfire_sniper.Agent.State.{AgentState, State, idle, get_token_balance, drop}
use foxfire_sniper.Agent.Entry.{collect, enter}
use foxfire_sniper.Agent.Steps.{Arrives, step-Arrives}
use foxfire_sniper.Agent.Handlers.{respond, chart}

pub record SameWallet (a b : AgentState) : Type 0 where
  pub key : b.agent_key ≡ a.agent_key
  pub main : b.main_wallet ≡ a.main_wallet
  pub strategy : b.strategy_id_opt ≡ a.strategy_id_opt
  pub pool : b.pool ≡ a.pool

pub enter-SameWallet :
    (env : Env) (s : State) (a : AgentState) {b : AgentState}
    → enter env s a ≡ done b
    → SameWallet a b
unfolding enter collect get_token_balance drop
enter-SameWallet env idle a h = ground arith
enter-SameWallet env s a h = ground arith

arrive-SameWallet :
    (env : Env) (s : State) (a b : AgentState) (r : Response State) (y : AgentState × State)
    → SameWallet a b
    → Arrives env s b r y
    → SameWallet a y.0
arrive-SameWallet env s a b handled y w h = ground arith
arrive-SameWallet env s a b super y w h = ground arith
arrive-SameWallet env s a b (transition t) y w h = ground (arith, enter-SameWallet env t b h.0)

module _ {F : Type 0} where
  pub respond-SameWallet :
      (env : Env) (ev : SolanaStrategyEvent F) (s : State) (a : AgentState)
      {x : AgentState × Response State}
      → respond (env, ev) s a ≡ done x
      → SameWallet a x.0
  unfolding respond
  respond-SameWallet env ev idle a h = ground arith
  respond-SameWallet env ev s a h = ground arith

  pub step-SameWallet :
      (env : Env) (ev : SolanaStrategyEvent F) (s : State) (a : AgentState) {y : AgentState × State}
      → step chart (env, ev) (a, s) ≡ done y
      → SameWallet a y.0
  step-SameWallet env ev s a {y} h =
      let (x, answered, arrived) = step-Arrives env ev s a h in
      arrive-SameWallet env s a x.0 x.1 y (respond-SameWallet env ev s a answered) arrived
