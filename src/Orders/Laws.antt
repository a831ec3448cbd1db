-- ===== src/Orders/Laws.antt =====
-- Laws of the order book of an agent.
use foxfire_sniper.Base.{
  ℕ, Bool, if◌then◌else◌, false, ◌+◌, ◌<◌, ◌≡◌, true, false, ◌∷◌, [], length, length-append, done,
  contains, contains-without, contains-append_self, arith,
}
use foxfire_sniper.Types.{SolanaAction, ExecutionReceipt}
use foxfire_sniper.Stopwatch.{turn_off}
use foxfire_sniper.Stopwatch.Laws.{is_time_elapsed_total}
use foxfire_sniper.Orders.{
  Env, Orders, queue_action, settle, process_execution_receipt, is_cooled_down_before_retry,
  not_ours, read_receipt,
}

pub queue_action-contains :
    (env : Env) (a : SolanaAction) (o : Orders)
    → contains a.uuid (queue_action env a o).actions_in_progress ≡ true
unfolding queue_action
queue_action-contains env a o = contains-append_self a.uuid o.actions_in_progress

pub queue_action-generated :
    (env : Env) (a : SolanaAction) (o : Orders)
    → length (queue_action env a o).shared.generated ≡ length o.shared.generated + 1
unfolding queue_action
queue_action-generated env a o = omega (arith, length-append o.shared.generated (a ∷ []))

-- A receipt never adds to what was generated.
pub process_execution_receipt-shared :
    (r : ExecutionReceipt) (o : Orders) → (process_execution_receipt r o).0.shared ≡ o.shared
unfolding process_execution_receipt read_receipt
process_execution_receipt-shared r o = ground arith

-- An action that is settled is in progress no more: a receipt for it is not the agent's.
pub process_execution_receipt-settle :
    (r : ExecutionReceipt) (o : Orders)
    → process_execution_receipt r (settle r.action_uuid o) ≡ (settle r.action_uuid o, not_ours)
unfolding process_execution_receipt settle
process_execution_receipt-settle r o =
    ground (arith, contains-without r.action_uuid o.actions_in_progress)

-- With a tick that is not 0 ms the timer can always be read.
pub is_cooled_down_total :
    (env : Env) (tick : ℕ) (o : Orders)
    → 0 < tick
    → (b : Bool) × (is_cooled_down_before_retry env tick o
        ≡ done (
            if b
            then (record o { timeout_timer = turn_off o.timeout_timer }, true)
            else (o, false)))
unfolding is_cooled_down_before_retry
is_cooled_down_total env tick o h =
    let (b, read) = is_time_elapsed_total env.now o.timeout_timer tick h in (b, rw read)

-- Reading the timer leaves the shared stores alone.
pub is_cooled_down-shared :
    (env : Env) (tick : ℕ) (o : Orders) {r : Orders × Bool}
    → is_cooled_down_before_retry env tick o ≡ done r
    → r.0.shared ≡ o.shared
unfolding is_cooled_down_before_retry
is_cooled_down-shared env tick o h = ground arith
