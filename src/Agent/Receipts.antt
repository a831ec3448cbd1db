-- ===== src/Agent/Receipts.antt =====
-- What an agent makes of the answers to its orders.
use foxfire_sniper.Base.{
  ℕ, ◌+◌, leb, sym, ◌≡◌, ◌≢◌, ◌∙◌, refl, true, Option, none, some, [], ◌∷◌, done, contains,
  if◌then◌else◌, arith,
}
use foxfire_sniper.Types.{
  Uuid, ExecutionReceipt, SolanaStrategyEvent, original, for_agent, AgentEvent, deactivate,
  execution_result, sent, blockchain_event, execution_receipt,
}
use foxfire_sniper.Statechart.{Response, super, Library, step}
use foxfire_sniper.Statechart.Runs.{run, target, step-parts, follow-target}
use foxfire_sniper.Orders.{Env, settle}
use foxfire_sniper.Orders.Laws.{process_execution_receipt-settle}
use foxfire_sniper.Agent.State.{
  AgentState, State, transferring, collecting, buying, selling, success, error, processing_receipt,
}
use foxfire_sniper.Agent.Handlers.{respond, chart, transition_to_success_or_error}
use foxfire_sniper.Agent.Retries.{retries}
use foxfire_sniper.Agent.Steps.{step_stay}

-- An order is under way: the four states that share `transition_to_success_or_error`.
abbrev pub IsAttempt : State → Type 0
IsAttempt (transferring _ _) = Unit
IsAttempt (collecting _) = Unit
IsAttempt (buying _ _) = Unit
IsAttempt (selling _ _) = Unit
IsAttempt _ = ⊥

-- The four states answer alike: by `transition_to_success_or_error`, with a retry of their own.
abbrev pub again : State → State
again (transferring batch retry) = transferring batch (retry + 1)
again (collecting retry) = collecting (retry + 1)
again (buying amt retry) = buying amt (retry + 1)
again (selling amt retry) = selling amt (retry + 1)
again s = s

-- Where a receipt leads from an order with the retry counter `n`, if `t` sends the order again.
abbrev pub verdict : State → ℕ → Option ℕ → State
verdict t n none = success
verdict t n (some err) = if leb n 2 then t else error processing_receipt

module _ (F : Type 0) where
  attempt_respond :
      (env : Env) (ev : SolanaStrategyEvent F) (s : State) (a : AgentState)
      → IsAttempt s
      → respond (env, ev) s a ≡ transition_to_success_or_error env ev (again s) (retries s) a
  unfolding respond
  attempt_respond env ev (transferring batch retry) a h = refl
  attempt_respond env ev (collecting retry) a h = refl
  attempt_respond env ev (buying amt retry) a h = refl
  attempt_respond env ev (selling amt retry) a h = refl
  attempt_respond env ev _ a h = elim h [ ]

  busy_super :
      (env : Env) (ev : AgentEvent) (t : State) (n : ℕ) (a : AgentState)
      → ev ≢ deactivate
      → transition_to_success_or_error {F = F} env (for_agent ev) t n a ≡ done (a, super)
  unfolding transition_to_success_or_error
  busy_super env deactivate t n a h = absurd (h refl)
  busy_super env ev t n a h = refl

  -- While an order is under way, a new one changes nothing at all: a purchase, a sale, a transfer
  -- and a collection are dropped.
  pub step_busy :
      (env : Env) (ev : AgentEvent) (s : State) (a : AgentState)
      → IsAttempt s
      → ev ≢ deactivate
      → step (chart {F = F}) (env, for_agent ev) (a, s) ≡ done (a, s)
  step_busy env ev s a h n =
      step_stay env (for_agent ev) s a
        (attempt_respond env (for_agent ev) s a h ∙ busy_super env ev (again s) (retries s) a n)

  sent_settles :
      (env : Env) (u : Uuid) (s : State) (a : AgentState)
      → IsAttempt s
      → contains u a.orders.actions_in_progress ≡ true
      → step (chart {F = F}) (env, original (execution_result u sent)) (a, s)
        ≡ done (record a { orders = settle u a.orders }, s)
  unfolding transition_to_success_or_error
  sent_settles env u s a h c =
      step_stay env (original (execution_result u sent)) s a
        (attempt_respond env (original (execution_result u sent)) s a h ∙ rw c)

  late_receipt :
      (env : Env) (r : ExecutionReceipt) (s : State) (a : AgentState)
      → IsAttempt s
      → step
          (chart {F = F})
          (env, original (blockchain_event (execution_receipt r)))
          (record a { orders = settle r.action_uuid a.orders }, s)
        ≡ done (record a { orders = settle r.action_uuid a.orders }, s)
  unfolding transition_to_success_or_error
  late_receipt env r s a h =
      let ev = original (blockchain_event (execution_receipt r)) in
      let a' : AgentState = record a { orders = settle r.action_uuid a.orders } in
      step_stay env ev s a'
        (attempt_respond env ev s a' h ∙ rw (process_execution_receipt-settle r a.orders))

  -- Where the executor reports an order in progress as sent before its receipt comes, and no
  -- other event comes between, the receipt is not heard: whether the transaction went through or
  -- failed, the agent stays in the state of the order, and the order has left the list of those
  -- in progress.
  pub sent-receipt_lost :
      (lib : Library (chart {F = F})) (sent_at confirmed_at : Env) (r : ExecutionReceipt)
      (s : State) (a : AgentState)
      → IsAttempt s
      → contains r.action_uuid a.orders.actions_in_progress ≡ true
      → run chart lib
          ((sent_at, original (execution_result r.action_uuid sent))
            ∷ (confirmed_at, original (blockchain_event (execution_receipt r)))
            ∷ [])
          (a, s)
        ≡ done (record a { orders = settle r.action_uuid a.orders }, s)
  unfolding run
  sent-receipt_lost lib sent_at confirmed_at r s a h c =
      rw (lib.handle_law, sent_settles sent_at r.action_uuid s a h c)
        (rw (lib.handle_law, late_receipt confirmed_at r s a h))

  receipt_answer :
      (env : Env) (r : ExecutionReceipt) (s t : State) (n : ℕ) (a : AgentState)
      {x : AgentState × Response State}
      → contains r.action_uuid a.orders.actions_in_progress ≡ true
      → transition_to_success_or_error {F = F} env
          (original (blockchain_event (execution_receipt r)))
          t
          n
          a
        ≡ done x
      → target s x.1 ≡ verdict t n r.err
  unfolding transition_to_success_or_error
  receipt_answer env r s t n a c e = ground arith

  -- A receipt that comes while its order is in progress decides the order: without an error the
  -- agent comes to `Success`; with one it sends the order again, its retry counter one higher, as
  -- long as the counter is at most 2, and comes to `Error` from then on.
  pub step-verdict :
      (env : Env) (r : ExecutionReceipt) (s : State) (a : AgentState) {y : AgentState × State}
      → IsAttempt s
      → contains r.action_uuid a.orders.actions_in_progress ≡ true
      → step (chart {F = F}) (env, original (blockchain_event (execution_receipt r))) (a, s)
        ≡ done y
      → y.1 ≡ verdict (again s) (retries s) r.err
  unfolding chart
  step-verdict env r s a h c st =
      let ev = original (blockchain_event (execution_receipt r)) in
      let (x, answered, followed) = step-parts chart (env, ev) a s st in
      follow-target chart (env, ev) s x.0 x.1 followed
      ∙ receipt_answer env r s (again s) (retries s) a c
          (sym (attempt_respond env ev s a h) ∙ answered)
