-- ===== src/Rpc/Calls.antt =====
-- The calls of src/solana/rpc_pool.rs over the providers, in the order of their names.
use foxfire_sniper.Base.{
  ℕ, zero, suc, ◌+◌, leb, Bool, true, false, Option, none, some, List, [], ◌∷◌, map, if◌then◌else◌,
}
use foxfire_sniper.Base.Results.{Result, ok, err}

-- Errors of the RPC client: whether the kind is TransactionError::AccountNotFound, and whether the
-- text has "AccountNotFound" or "Account not found".
pub record ClientErrors : Type 1 where
  pub ClientError : Type 0
  pub is_account_not_found : ClientError → Bool
  pub names_account_not_found : ClientError → Bool

pub data RpcError : Type 0 where
  account_not_found all_failed : RpcError

module _ (errors : ClientErrors) where
  open errors use {ClientError}

  abbrev or_next {ℓ} : {T : Type ℓ} → Result ClientError T → Result RpcError T → Result RpcError T
  or_next (ok result) rest = ok result
  or_next (err e) rest = if errors.names_account_not_found e then err account_not_found else rest

  -- `execute_rpc_method_consequently_till_first_success`, with what the method comes to on each
  -- provider.
  unfoldable pub execute_consequently {ℓ} :
      {T : Type ℓ} → List (Result ClientError T) → Result RpcError T
  execute_consequently [] = err all_failed
  execute_consequently (answer ∷ answers) = or_next answer (execute_consequently answers)

  -- What `account_exists` makes of `get_account` on one provider.
  abbrev pub exists_on {ℓ} : {T : Type ℓ} → Result ClientError T → Result ClientError Bool
  exists_on (ok account) = ok true
  exists_on (err e) =
      if errors.is_account_not_found e
      then ok false
      else if errors.names_account_not_found e
      then ok false
      else err e

  unfoldable pub account_exists {ℓ} :
      {T : Type ℓ} → List (Result ClientError T) → Result RpcError Bool
  unfolding execute_consequently
  account_exists answers = execute_consequently (map exists_on answers)

abbrev pub max_retries : ℕ
max_retries = 3

-- The loop of one task: whether the transaction was sent, and how many attempts failed. `answers` says
-- which attempts succeed.
unfoldable pub send_loop : ℕ → (ℕ → Bool) → ℕ → Option (Bool × ℕ)
send_loop zero answers attempts = none
send_loop (suc fuel) answers attempts =
    let again = send_loop fuel answers (attempts + 1) in
    if answers attempts
    then some (true, attempts)
    else if leb max_retries (attempts + 1)
    then some (false, attempts + 1)
    else again

-- A task that panics sends nothing; a result that is out of fuel is none.
pub data Task : Type 0 where
  runs : (ℕ → Bool) → Task
  panics : Task

abbrev succeeded : Option (Bool × ℕ) → Bool
succeeded none = false
succeeded (some (sent, _)) = sent

unfoldable pub task_result : Task → Bool
unfolding send_loop
task_result (runs answers) = succeeded (send_loop max_retries answers 0)
task_result panics = false

-- The results of all tasks, in the order of the providers.
unfoldable pub send_tx_to_all_providers : List Task → Bool
unfolding task_result
send_tx_to_all_providers [] = false
send_tx_to_all_providers (t ∷ ts) =
    let rest = send_tx_to_all_providers ts in if task_result t then true else rest
