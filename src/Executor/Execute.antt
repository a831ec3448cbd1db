-- ===== src/Executor/Execute.antt =====
-- src/executors/solana_executor.rs, src/executors/execute_tx.rs and src/executors/paper_executor.rs.
use foxfire_sniper.Base.{
  ℕ, zero, suc, ◌-◌, ◌/◌, Bool, true, false, not, Option, none, some, List, [], ◌∷◌, ltb, ◌==◌,
  if◌then◌else◌,
}
use Prim.Native.String.{String}
use foxfire_sniper.Types.{
  Pubkey, Uuid, Signature, SolanaAction, ExecutionError, action_too_old, no_instructions_generated,
  simulation_failed, other, ExecutionResult, sent, execution_error, action_expiry_s,
  simulation_retries,
}
use foxfire_sniper.Accounts.{Accounts}
use foxfire_sniper.Cache.Operational.{Signatures, add_agent_tx}
use foxfire_sniper.Orders.{Env}
use foxfire_sniper.Executor.Instructions.{
  Instruction, set_compute_unit_limit, set_compute_unit_price, Built, built, bail,
}
use foxfire_sniper.Executor.Build.{Balances, build_instructions}
use foxfire_sniper.Executor.Estimate.{estimate_cu_per_tx}

-- What the environment answers while one action is executed: the latest blockhash, whether
-- transactions are simulated first and with which error each attempt fails, whether bloxroute is
-- used, the answers of the ways to send in the order in which they come, and the signature of the
-- transaction by its signers, its fee payer, its instructions and its blockhash.
pub record Wire : Type 0 where
  pub latest_blockhash : Option ℕ
  pub simulate_execution : Bool
  pub simulate_tx : List Instruction → ℕ → Option String
  pub use_bloxroute : Bool
  pub bloxroute_accepts : Bool
  pub providers_accept : Bool
  pub bloxroute_first : Bool
  pub sign : List Pubkey → Pubkey → List Instruction → ℕ → Signature

-- The part of the cache that the executor writes.
pub record Store : Type 0 where
  pub accounts : Accounts
  pub signatures : Signatures

-- How a call of `execute` ends: with the result of its event, with an error that the engine only
-- logs, or never, where it waits for a lock that it holds itself.
pub data Execution : Type 0 where
  event : Uuid → ExecutionResult → Execution
  failed : Execution
  blocked : Execution

-- The action's lock is free or held by this call.
pub data Lock : Type 0 where
  free held : Lock

-- `action.lock().await`: the lock is not reentrant.
abbrev pub lock_then : Lock → Execution → Execution
lock_then free e = e
lock_then held e = blocked

-- `Utc::now() - created_at` in whole seconds.
unfoldable pub is_expired : Env → SolanaAction → Bool
is_expired env action = ltb action_expiry_s ((env.now - action.created_at) / 1000)

abbrev pub price_per_cu_priority : ℕ
price_per_cu_priority = 3052504

-- The loop over the ways to send, in the order in which they answer.
unfoldable pub first_success : List Bool → Bool
first_success [] = false
first_success (true ∷ rest) = true
first_success (false ∷ rest) = first_success rest

abbrev answers : Wire → List Bool
answers wire =
    if not wire.use_bloxroute
    then wire.providers_accept ∷ []
    else if wire.bloxroute_first
    then wire.bloxroute_accepts ∷ wire.providers_accept ∷ []
    else wire.providers_accept ∷ wire.bloxroute_accepts ∷ []

unfoldable pub execute_tx : Wire → ℕ → Pubkey → Pubkey → List Instruction → Option Signature
unfolding first_success
execute_tx wire recent_blockhash sender fee_payer instructions =
    let senders = if sender == fee_payer then sender ∷ [] else sender ∷ fee_payer ∷ [] in
    let signature = wire.sign senders fee_payer instructions recent_blockhash in
    if first_success (answers wire) then some signature else none

-- The loop over the simulations, with the retries that are left: the error of the last attempt.
unfoldable pub simulate : Wire → List Instruction → ℕ → Option String
simulate wire instructions zero = none
simulate wire instructions (suc retries) =
    let rest = simulate wire instructions retries in
    elim (wire.simulate_tx instructions retries) [
      | none ↦ none
      | some error ↦ if retries == 0 then some error else rest
    ]

-- From the sending on, while the lock is held.
unfoldable pub send : Wire → SolanaAction → ℕ → List Instruction → Store → Store × Execution
unfolding execute_tx
send wire action blockhash instructions store =
    elim (execute_tx wire blockhash action.sniper action.fee_payer instructions) [
      | none ↦ (store, failed)
      | some signature ↦ (
        record store { signatures = add_agent_tx action.uuid signature store.signatures },
        lock_then held (event action.uuid sent),
      )
    ]

unfoldable pub simulated : Wire → List Instruction → Option String
unfolding simulate
simulated wire instructions =
    if wire.simulate_execution then simulate wire instructions simulation_retries else none

-- From the simulation's answer on.
unfoldable pub simulated_then :
    Wire → SolanaAction → ℕ → List Instruction → Store → Option String → Store × Execution
unfolding send
simulated_then wire action blockhash instructions store none =
    send wire action blockhash instructions store
simulated_then wire action blockhash instructions store (some error) =
    (store, lock_then held (event action.uuid (execution_error (simulation_failed error))))

-- From the blockhash on: the lock is taken before it is asked for.
unfoldable pub blockhash_then :
    Wire → SolanaAction → List Instruction → Store → Option ℕ → Store × Execution
unfolding simulated_then simulated
blockhash_then wire action instructions store none = (store, failed)
blockhash_then wire action instructions store (some blockhash) =
    simulated_then wire action blockhash instructions store (simulated wire instructions)

-- The instructions are there.
unfoldable pub send_all : Wire → SolanaAction → ℕ → List Instruction → Store → Store × Execution
unfolding blockhash_then
send_all wire action units action_ixs store =
    let instructions =
      set_compute_unit_limit units ∷ set_compute_unit_price price_per_cu_priority ∷ action_ixs in
    blockhash_then wire action instructions store wire.latest_blockhash

-- Of the errors only `Other` becomes an event.
abbrev pub refused : Uuid → ExecutionError → Execution
refused uuid (other error_text) = event uuid (execution_error (other error_text))
refused uuid _ = failed

unfoldable pub conclude :
    Wire → SolanaAction → ℕ → Store → Built (Balances × List Instruction) → Store × Execution
unfolding send_all
conclude wire action units store (built (before, [])) =
    (store, event action.uuid (execution_error no_instructions_generated))
conclude wire action units store (built (before, ix ∷ ixs)) =
    send_all wire action units (ix ∷ ixs) store
conclude wire action units store (bail e) = (store, refused action.uuid e)

unfoldable pub execute : Env → Wire → SolanaAction → Store → Store × Execution
unfolding conclude is_expired
execute env wire action store =
    let units = estimate_cu_per_tx action.action_payload in
    let (accounts, answer) =
      build_instructions env action price_per_cu_priority units store.accounts in
    if is_expired env action
    then (store, event action.uuid (execution_error action_too_old))
    else conclude wire action units (record store { accounts = accounts }) answer

-- `PaperExecutor::execute`: `paper` is the text made of the action's identifier.
unfoldable pub paper_execute : (Uuid → Signature) → SolanaAction → Store → Store × Execution
paper_execute paper action store = (
  record store { signatures = add_agent_tx action.uuid (paper action.uuid) store.signatures },
  event action.uuid sent,
)
