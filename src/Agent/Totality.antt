-- ===== src/Agent/Totality.antt =====
-- When an agent's step returns, and does not panic.
use foxfire_sniper.Base.{◌<◌, ◌≡◌, refl, ◌∙◌, some, true, returns, returns-bind, arith}
use foxfire_sniper.Types.{Pubkey, SolanaStrategyEvent, original, heart_beat}
use foxfire_sniper.Statechart.{Response, handled, super, transition, step, follow}
use foxfire_sniper.Orders.{Env, is_cooled_down_before_retry}
use foxfire_sniper.Stopwatch.{is_time_elapsed}
use foxfire_sniper.Agent.State.{AgentState, State, idle, get_token_balance}
use foxfire_sniper.Agent.Entry.{enter, collect}
use foxfire_sniper.Agent.Handlers.{respond, chart}
use foxfire_sniper.Agent.Identity.{respond-SameWallet}

-- A heart beat whose tick is not 0 ms; any other event.
abbrev pub IsTimed : {F : Type 0} → SolanaStrategyEvent F → Type 0
IsTimed (original (heart_beat tick_ms)) = 0 < tick_ms
IsTimed _ = Unit

enter_returns :
    (env : Env) (s : State) (a : AgentState) (w : Pubkey)
    → a.main_wallet ≡ some w
    → returns (enter env s a) ≡ true
unfolding enter collect get_token_balance
enter_returns env idle a w m = refl
enter_returns env s a w m = ground arith

follow-returns :
    {F : Type 0} (env : Env) (ev : SolanaStrategyEvent F) (s : State) (a : AgentState)
    (r : Response State) (w : Pubkey)
    → a.main_wallet ≡ some w
    → returns (follow chart (env, ev) s (a, r)) ≡ true
unfolding follow chart
follow-returns env ev s a handled w m = refl
follow-returns env ev s a super w m = refl
follow-returns env ev s a (transition t) w m =
    returns-bind (enter env t a) _ (enter_returns env t a w m) (λ b e. refl)

module _ {F : Type 0} where
  respond_returns :
      (env : Env) (ev : SolanaStrategyEvent F) (s : State) (a : AgentState)
      → IsTimed ev
      → returns (respond (env, ev) s a) ≡ true
  unfolding respond is_cooled_down_before_retry is_time_elapsed
  respond_returns env ev idle a h = ground arith
  respond_returns env ev s a h = ground arith

  -- An agent with a main wallet above it never panics, whatever it is told, as long as the ticks of
  -- the heart beats are not 0 ms: every event takes it to a next state.
  pub step-returns :
      (env : Env) (ev : SolanaStrategyEvent F) (s : State) (a : AgentState) (w : Pubkey)
      → a.main_wallet ≡ some w
      → IsTimed ev
      → returns (step chart (env, ev) (a, s)) ≡ true
  unfolding step chart
  step-returns env ev s a w m h =
      returns-bind (respond (env, ev) s a) (follow chart (env, ev) s) (respond_returns env ev s a h)
        λ x e. follow-returns env ev s x.0 x.1 w ((respond-SameWallet env ev s a e).main ∙ m)
