-- ===== src/Executor/Build.antt =====
-- src/executors/build_instructions.rs: the checks before the first step, and the loop over the steps.
use foxfire_sniper.Base.{
  ℕ, ◌-◌, ◌*◌, ◌/◌, ◌%◌, Option, none, some, List, [], ◌∷◌, ◌++◌, ltb, ◌==◌, if◌then◌else◌, length,
  contains,
}
use foxfire_sniper.Types.{
  Pubkey, sol, token, SolanaActionPayload, swap, transfer, SolanaAction, several_tokens_in_one_tx,
  zero_sol_balance, not_enough_sol_balance, not_enough_token_balance, base_tx_fee_sol,
  wsol_mint_pubkey, u64_mod, wrapping_add, wrapping_sub,
}
use foxfire_sniper.Accounts.{Accounts, get_balance, get_token_balance, unwrap_or_zero}
use foxfire_sniper.Orders.{Env}
use foxfire_sniper.Executor.Instructions.{Instruction, Step, Built, built, bail, ◌>>=◌}
use foxfire_sniper.Executor.Steps.{Situation, Progress, step_of}

abbrev token_of : SolanaActionPayload → Option Pubkey
token_of (transfer t) = elim t.asset [ sol ↦ none | token token_pubkey ↦ some token_pubkey ]
token_of (swap w) =
    if w.keys.base_mint == wsol_mint_pubkey then some w.keys.quote_mint else some w.keys.base_mint

-- `collect` into a `HashSet`: every mint once.
unfoldable pub get_tokens_used_in_tx : List SolanaActionPayload → List Pubkey
get_tokens_used_in_tx [] = []
get_tokens_used_in_tx (step ∷ steps) =
    let rest = get_tokens_used_in_tx steps in
    elim (token_of step) [
      | none ↦ rest
      | some mint ↦ if contains mint rest then rest else mint ∷ rest
    ]

-- `tokens.iter().next().cloned().unwrap_or_default()`
abbrev pub first_or_default : List Pubkey → Pubkey
first_or_default [] = 0
first_or_default (mint ∷ _) = mint

unfoldable pub tx_fee_of : ℕ → ℕ → ℕ
tx_fee_of price_per_cu_microlamports compute_units_per_tx =
    wrapping_add
      (wrapping_add base_tx_fee_sol
        ((price_per_cu_microlamports * compute_units_per_tx % u64_mod) / 1000000))
      1

module _ (s : Situation) where
  abbrev fee_taken : Progress → Progress
  fee_taken p =
      if ltb 0 p.tx_fee_pointer
      then record p {
        tx_fee_pointer = 0;
        sol_balance_pointer = wrapping_sub p.sol_balance_pointer s.tx_fee;
      }
      else p

  -- `+` of `min_sol_to_keep_after_pointer` and the costs taken from the pointers.
  abbrev costs_taken : Step → Progress → Progress
  costs_taken t p = record p {
    action_ixs = p.action_ixs ++ t.step_ixs;
    sol_balance_pointer =
        if ltb t.sol_cost p.sol_balance_pointer then p.sol_balance_pointer - t.sol_cost else 0;
    token_balance_pointer = p.token_balance_pointer - t.token_cost;
    min_sol_to_keep_after_pointer =
        wrapping_add p.min_sol_to_keep_after_pointer t.min_sol_to_keep_after;
  }

  -- The body of the `if let`; a step with nothing to do is left out.
  unfoldable pub advance : Progress → Option Step → Built Progress
  advance p none = built p
  advance p (some t) =
      if ltb p.token_balance_pointer t.token_cost
      then bail (
          not_enough_token_balance (wrapping_add t.token_cost p.token_balance_pointer)
            s.token_balance)
      else built (costs_taken t (fee_taken p))

  unfoldable pub run_steps : List SolanaActionPayload → Progress → Built Progress
  unfolding advance
  run_steps [] p = built p
  run_steps (step ∷ steps) p = do
    planned ← step_of s p step
    p' ← advance p planned
    run_steps steps p'

  -- The pointers before the loop.
  abbrev pub initial : Progress
  initial = record {
    action_ixs = [];
    sol_balance_pointer = s.sol_balance;
    tx_fee_pointer = s.tx_fee;
    token_balance_pointer = s.token_balance;
    min_sol_to_keep_after_pointer = 0;
  }

-- `Balance` of src/types/actions/solana_action.rs.
pub record Balances : Type 0 where
  pub sol_lamports : ℕ
  pub token_lamports : List (Pubkey × ℕ)

abbrev paired : ℕ → List Pubkey → List (Pubkey × ℕ)
paired n [] = []
paired n (mint ∷ mints) = (mint, n) ∷ paired n mints

-- Both queries in their order, the second on what the first left of the account table.
unfoldable pub survey : Env → SolanaAction → ℕ → ℕ → Accounts → Situation
unfolding get_tokens_used_in_tx tx_fee_of
survey env action price units accounts =
    let token_mint = first_or_default (get_tokens_used_in_tx action.action_payload) in
    let ata = env.associated_token_address action.sniper token_mint in
    let (accounts', lamports) = get_balance env.rpc action.sniper accounts in
    let (accounts'', tokens) = get_token_balance env.rpc ata accounts' in
    record {
      sniper_pubkey = action.sniper;
      fee_payer = action.fee_payer;
      token_mint = token_mint;
      owned_by = env.associated_token_address;
      accounts = accounts'';
      sol_balance = unwrap_or_zero lamports;
      token_balance = unwrap_or_zero tokens;
      tx_fee = tx_fee_of price units;
    }

-- From the fee on.
unfoldable pub build_from :
    Situation → List SolanaActionPayload → Built (Balances × List Instruction)
unfolding run_steps get_tokens_used_in_tx
build_from s payload =
    if ltb s.sol_balance s.tx_fee then bail (not_enough_sol_balance s.tx_fee s.sol_balance) else do
      p ← run_steps s payload (initial s)
      built (
        record {
          sol_lamports = s.sol_balance;
          token_lamports = paired s.token_balance (get_tokens_used_in_tx payload);
        },
        p.action_ixs,
      )

-- The account table that is left, and the answer. The token account is asked about only once the
-- SOL balance and the number of tokens are checked.
unfoldable pub build_instructions :
    Env → SolanaAction → ℕ → ℕ → Accounts → Accounts × Built (Balances × List Instruction)
unfolding survey get_tokens_used_in_tx build_from
build_instructions env action price units accounts =
    let s = survey env action price units accounts in
    let accounts' = (get_balance env.rpc action.sniper accounts).0 in
    if s.sol_balance == 0
    then (accounts', bail zero_sol_balance)
    else if ltb 1 (length (get_tokens_used_in_tx action.action_payload))
    then (accounts', bail several_tokens_in_one_tx)
    else (s.accounts, build_from s action.action_payload)
