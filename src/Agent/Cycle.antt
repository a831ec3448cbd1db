-- ===== src/Agent/Cycle.antt =====
-- The deactivation of an agent whose collections keep failing.
use foxfire_sniper.Base.{
  ℕ, ◌+◌, ◌≡◌, refl, ◌∙◌, some, true, [], ◌∷◌, length, length-append, leb, if◌then◌else◌, without,
  done, contains, contains-append_self, arith,
}
use foxfire_sniper.Types.{
  Pubkey, Uuid, ExecutionReceipt, SolanaStrategyEvent, original, blockchain_event,
  execution_receipt,
}
use foxfire_sniper.Statechart.{transition, Library, step}
use foxfire_sniper.Statechart.Runs.{run}
use foxfire_sniper.Orders.{Env, queue_action}
use foxfire_sniper.Agent.State.{
  AgentState, error, deactivating, get_token_balance, Failure, processing_receipt,
}
use foxfire_sniper.Agent.Entry.{enter, collect, queue, collect_order}
use foxfire_sniper.Agent.Handlers.{respond, chart}
use foxfire_sniper.Agent.Steps.{step_move}

-- The receipt of a transaction that failed.
abbrev pub refusal : Uuid → ℕ → ExecutionReceipt
refusal u code = record { action_uuid = u; transaction_signature = 0; err = some code }

-- `b` is `a` after one more collection was ordered: the order is in progress.
pub record Collects (env : Env) (a b : AgentState) : Type 0 where
  pub in_progress : contains env.fresh b.orders.actions_in_progress ≡ true
  pub ordered : length b.orders.shared.generated ≡ length a.orders.shared.generated + 1
  pub main : b.main_wallet ≡ a.main_wallet
  pub strategy : b.strategy_id_opt ≡ a.strategy_id_opt

collect-Collects :
    (env : Env) (a : AgentState) (w : Pubkey)
    → a.main_wallet ≡ some w
    → (b : AgentState) × (collect env a ≡ done b) × Collects env a b
unfolding collect get_token_balance queue queue_action
collect-Collects env a w m =
    let (a', balance) = get_token_balance env a in
    (
      queue env (collect_order env balance w a') a',
      rw m,
      record {
        in_progress = contains-append_self env.fresh a.orders.actions_in_progress;
        ordered =
            omega (
              arith,
              length-append a.orders.shared.generated (collect_order env balance w a' ∷ []),
            );
        main = refl;
        strategy = refl;
      },
    )

-- The agent once a refused order has left the list.
abbrev settled : Uuid → AgentState → AgentState
settled u a = record a {
  orders = record (a.orders) {
    actions_in_progress = without u a.orders.actions_in_progress;
    timeout_timer = record (a.orders.timeout_timer) { lap_ticks = 0 };
  };
}

abbrev pub refused : {F : Type 0} → Env → Uuid → ℕ → Env × SolanaStrategyEvent F
refused env u code = (env, original (blockchain_event (execution_receipt (refusal u code))))

module _ (F : Type 0) where
  refused_answer :
      (env : Env) (u : Uuid) (code n : ℕ) (a : AgentState)
      → contains u a.orders.actions_in_progress ≡ true
      → respond {F = F} (refused env u code) (deactivating n) a
        ≡ done (
          settled u a,
          transition (if leb n 2 then deactivating (n + 1) else error processing_receipt),
        )
  unfolding respond
  refused_answer env u code n a c = ground arith

  step-refused :
      (env : Env) (u : Uuid) (code n : ℕ) (a : AgentState) (w : Pubkey)
      → a.main_wallet ≡ some w
      → contains u a.orders.actions_in_progress ≡ true
      → leb n 2 ≡ true
      → (b : AgentState) × (step (chart {F = F}) (refused env u code) (a, deactivating n)
          ≡ done (b, deactivating (n + 1)))
        × Collects env a b
  unfolding enter
  step-refused env u code n a w m c h =
      let (b, collected, fresh) = collect-Collects env (settled u a) w m in
      let (_, ev) = refused {F = F} env u code in
      let answer = refused_answer env u code n a c in
      (
        b,
        step_move env ev (deactivating n) (deactivating (n + 1)) a (answer ∙ rw h) collected,
        record {
          in_progress = fresh.in_progress;
          ordered = fresh.ordered;
          main = fresh.main;
          strategy = fresh.strategy;
        },
      )

  step_exhausted :
      (env : Env) (u : Uuid) (code : ℕ) (a : AgentState)
      → contains u a.orders.actions_in_progress ≡ true
      → step (chart {F = F}) (refused env u code) (a, deactivating 3)
        ≡ done (settled u a, error processing_receipt)
  unfolding enter
  step_exhausted env u code a c =
      step_move env _ (deactivating 3) (error processing_receipt) a
        (refused_answer env u code 3 a c) refl

  step_error :
      (env : Env) (ev : SolanaStrategyEvent F) (f : Failure) (a : AgentState) (w : Pubkey) (i : ℕ)
      → a.main_wallet ≡ some w
      → a.strategy_id_opt ≡ some i
      → (b : AgentState) × (step chart (env, ev) (a, error f) ≡ done (b, deactivating 0))
        × Collects env a b
  unfolding respond enter
  step_error env ev f a w i m s =
      let (b, collected, fresh) = collect-Collects env a w m in
      (b, step_move env ev (error f) (deactivating 0) a (ground arith) collected, fresh)

  -- An agent under a main wallet whose collections are refused is not deactivated: after four
  -- refusals, whatever event comes next brings it back to where it began, with the retry counter at
  -- 0, four more collections ordered and the last of them in progress.
  pub deactivating_cycle :
      (lib : Library (chart {F = F})) (env₀ env₁ env₂ env₃ env₄ : Env) (u : Uuid) (code : ℕ)
      (ev : SolanaStrategyEvent F) (a : AgentState) (w : Pubkey) (i : ℕ)
      → a.main_wallet ≡ some w
      → a.strategy_id_opt ≡ some i
      → contains u a.orders.actions_in_progress ≡ true
      → (b : AgentState) × (run chart lib
            (refused env₀ u code
              ∷ refused env₁ env₀.fresh code
              ∷ refused env₂ env₁.fresh code
              ∷ refused env₃ env₂.fresh code
              ∷ (env₄, ev)
              ∷ [])
            (a, deactivating 0)
          ≡ done (b, deactivating 0))
        × (contains env₄.fresh b.orders.actions_in_progress ≡ true)
        × (length b.orders.shared.generated ≡ length a.orders.shared.generated + 4)
        × (b.main_wallet ≡ some w)
        × (b.strategy_id_opt ≡ some i)
  unfolding run
  deactivating_cycle lib env₀ env₁ env₂ env₃ env₄ u code ev a w i m s c =
      let (b₁, st₁, k₁) = step-refused env₀ u code 0 a w m c refl in
      let m₁ = k₁.main ∙ m in
      let (b₂, st₂, k₂) = step-refused env₁ env₀.fresh code 1 b₁ w m₁ k₁.in_progress refl in
      let m₂ = k₂.main ∙ m₁ in
      let (b₃, st₃, k₃) = step-refused env₂ env₁.fresh code 2 b₂ w m₂ k₂.in_progress refl in
      let m₃ = k₃.main ∙ m₂ in
      let st₄ = step_exhausted env₃ env₂.fresh code b₃ k₃.in_progress in
      let s₃ = k₃.strategy ∙ k₂.strategy ∙ k₁.strategy ∙ s in
      let (b, st₅, k) = step_error env₄ ev processing_receipt (settled env₂.fresh b₃) w i m₃ s₃ in
      (
        b,
        rw (lib.handle_law, st₁)
            (rw (lib.handle_law, st₂)
              (rw (lib.handle_law, st₃) (rw (lib.handle_law, st₄) (rw (lib.handle_law, st₅))))),
        k.in_progress,
        omega (arith, k.ordered, k₃.ordered, k₂.ordered, k₁.ordered),
        k.main ∙ m₃,
        k.strategy ∙ s₃,
      )
