-- ===== src/Agent/MainWallet.antt =====
-- The main wallet of a user is never deactivated.
use foxfire_sniper.Base.{◌≡◌, refl, sym, ◌∙◌, subst, done, none, List, arith}
use foxfire_sniper.Types.{SolanaStrategyEvent, Pubkey}
use foxfire_sniper.Statechart.{Response, Library, step}
use foxfire_sniper.Statechart.Runs.{target, step-parts, follow-target, run, run_invariant}
use foxfire_sniper.Orders.{Env}
use foxfire_sniper.Agent.State.{AgentState, State, idle, deactivating, deactivated}
use foxfire_sniper.Agent.Handlers.{respond, chart}
use foxfire_sniper.Agent.Identity.{step-SameWallet}

abbrev pub IsDeactivation : State → Type 0
IsDeactivation (deactivating _) = Unit
IsDeactivation deactivated = Unit
IsDeactivation _ = ⊥

-- An agent of no strategy and with no other wallet above it, that is not being deactivated.
pub record IsMain (x : AgentState × State) : Type 0 where
  pub no_strategy : x.0.strategy_id_opt ≡ none
  pub no_main : x.0.main_wallet ≡ none
  pub alive : ¬ IsDeactivation x.1

module _ {F : Type 0} where
  respond-alive :
      (env : Env) (ev : SolanaStrategyEvent F) (s : State) (a : AgentState)
      {x : AgentState × Response State}
      → a.strategy_id_opt ≡ none
      → a.main_wallet ≡ none
      → ¬ IsDeactivation s
      → respond (env, ev) s a ≡ done x
      → ¬ IsDeactivation (target s x.1)
  unfolding respond
  respond-alive env ev idle a o m n h = ground arith
  respond-alive env ev s a o m n h = ground arith

  step-IsMain :
      (e : Env × SolanaStrategyEvent F) (x y : AgentState × State)
      → IsMain x
      → step chart e x ≡ done y
      → IsMain y
  unfolding chart
  step-IsMain e x y m h =
      let same = step-SameWallet e.0 e.1 x.1 x.0 h in
      let (r, answered, followed) = step-parts chart e x.0 x.1 h in
      record {
        no_strategy = same.strategy ∙ m.no_strategy;
        no_main = same.main ∙ m.no_main;
        alive =
            subst (λ s. ¬ IsDeactivation s) (sym (follow-target chart e x.1 r.0 r.1 followed))
              (respond-alive e.0 e.1 x.1 x.0 m.no_strategy m.no_main m.alive answered);
      }

  step-keeps :
      (key : Pubkey) (e : Env × SolanaStrategyEvent F) (x y : AgentState × State)
      → IsMain x × (x.0.agent_key ≡ key)
      → step chart e x ≡ done y
      → IsMain y × (y.0.agent_key ≡ key)
  step-keeps key e x y (m, k) h =
      (step-IsMain e x y m h, (step-SameWallet e.0 e.1 x.1 x.0 h).key ∙ k)

  -- The main wallet of a user never comes to the states `Deactivating` and `Deactivated`, whatever
  -- events it handles, and it keeps its key, no strategy and no wallet above it.
  pub run-IsMain :
      (lib : Library (chart {F = F})) (es : List (Env × SolanaStrategyEvent F))
      (x : AgentState × State) {y : AgentState × State}
      → IsMain x
      → run chart lib es x ≡ done y
      → IsMain y × (y.0.agent_key ≡ x.0.agent_key)
  run-IsMain lib es x m =
      run_invariant chart lib (λ y. IsMain y × (y.0.agent_key ≡ x.0.agent_key))
        (step-keeps x.0.agent_key) es x (m, refl)
