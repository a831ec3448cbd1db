-- ===== src/Agent/Retries.antt =====
-- The number of retries of an agent, over any events.
use foxfire_sniper.Base.{ℕ, ◌≤◌, ◌≡◌, done, List, arith, subst, sym}
use foxfire_sniper.Types.{SolanaStrategyEvent}
use foxfire_sniper.Statechart.{Response, Library, step}
use foxfire_sniper.Statechart.Runs.{target, follow-target, step-parts, run, run_invariant}
use foxfire_sniper.Orders.{Env}
use foxfire_sniper.Agent.State.{
  AgentState, State, idle, transferring, collecting, buying, selling, deactivating,
}
use foxfire_sniper.Agent.Handlers.{respond, chart}

-- The retry that a state carries.
abbrev pub retries : State → ℕ
retries (transferring batch retry) = retry
retries (collecting retry) = retry
retries (buying amt retry) = retry
retries (selling amt retry) = retry
retries (deactivating retry) = retry
retries _ = 0

module _ {F : Type 0} where
  respond-retries :
      (env : Env) (ev : SolanaStrategyEvent F) (s : State) (a : AgentState)
      {x : AgentState × Response State}
      → retries s ≤ 3
      → respond (env, ev) s a ≡ done x
      → retries (target s x.1) ≤ 3
  unfolding respond
  respond-retries env ev idle a h e = ground arith
  respond-retries env ev s a h e = ground arith

  step-retries :
      (e : Env × SolanaStrategyEvent F) (x y : AgentState × State)
      → retries x.1 ≤ 3
      → step chart e x ≡ done y
      → retries y.1 ≤ 3
  unfolding chart
  step-retries e x y h st =
      let (r, answered, followed) = step-parts chart e x.0 x.1 st in
      subst (λ t. retries t ≤ 3) (sym (follow-target chart e x.1 r.0 r.1 followed))
        (respond-retries e.0 e.1 x.1 x.0 h answered)

  -- Whatever events an agent handles, in any order, its retry counter is at most 3 where it is
  -- at most 3 before.
  pub run-retries :
      (lib : Library (chart {F = F})) (es : List (Env × SolanaStrategyEvent F))
      (x : AgentState × State) {y : AgentState × State}
      → retries x.1 ≤ 3
      → run chart lib es x ≡ done y
      → retries y.1 ≤ 3
  run-retries lib es x = run_invariant chart lib (λ y. retries y.1 ≤ 3) step-retries es x
