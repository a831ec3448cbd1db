-- ===== src/Agent/Steps.antt =====
-- A step of the agent's machine, taken apart into the handler's answer and the entry action.
use foxfire_sniper.Base.{◌≡◌, done, arith}
use foxfire_sniper.Types.{SolanaStrategyEvent}
use foxfire_sniper.Statechart.{Response, handled, super, transition, step, follow}
use foxfire_sniper.Statechart.Runs.{step-parts}
use foxfire_sniper.Orders.{Env}
use foxfire_sniper.Agent.State.{AgentState, State}
use foxfire_sniper.Agent.Entry.{enter}
use foxfire_sniper.Agent.Handlers.{respond, chart}

-- `y` is where the answer `r`, given in `s` with the storage `a`, leads.
abbrev pub Arrives : Env → State → AgentState → Response State → AgentState × State → Type 0
Arrives env s a handled y = y ≡ (a, s)
Arrives env s a super y = y ≡ (a, s)
Arrives env s a (transition t) y = (enter env t a ≡ done y.0) × (y.1 ≡ t)

module _ {F : Type 0} where
  follow-Arrives :
      (env : Env) (ev : SolanaStrategyEvent F) (s : State) (a : AgentState) (r : Response State)
      {y : AgentState × State}
      → follow chart (env, ev) s (a, r) ≡ done y
      → Arrives env s a r y
  unfolding follow chart
  follow-Arrives env ev s a handled h = ground arith
  follow-Arrives env ev s a super h = ground arith
  follow-Arrives env ev s a (transition t) h = ground arith

  pub step-Arrives :
      (env : Env) (ev : SolanaStrategyEvent F) (s : State) (a : AgentState) {y : AgentState × State}
      → step chart (env, ev) (a, s) ≡ done y
      → (x : AgentState × Response State) × (respond (env, ev) s a ≡ done x)
        × Arrives env s x.0 x.1 y
  unfolding chart
  step-Arrives env ev s a h =
      let (x, answered, followed) = step-parts chart (env, ev) a s h in
      (x, answered, follow-Arrives env ev s x.0 x.1 followed)

  -- The other way round: an answer and an entry action make a step.
  pub step_stay :
      (env : Env) (ev : SolanaStrategyEvent F) (s : State) (a : AgentState) {a' : AgentState}
      → respond (env, ev) s a ≡ done (a', super)
      → step chart (env, ev) (a, s) ≡ done (a', s)
  unfolding step follow chart
  step_stay env ev s a h = rw h

  pub step_move :
      (env : Env) (ev : SolanaStrategyEvent F) (s t : State) (a : AgentState) {a' a'' : AgentState}
      → respond (env, ev) s a ≡ done (a', transition t)
      → enter env t a' ≡ done a''
      → step chart (env, ev) (a, s) ≡ done (a'', t)
  unfolding step follow chart
  step_move env ev s t a h e = rw (h, e)
