-- ===== src/Executor/Inversion.antt =====
-- What it takes for src/executors/build_instructions.rs to return instructions.
use foxfire_sniper.Base.{
  ℕ, ◌≤◌, ◌≡◌, refl, ◌⊎◌, inl, inr, length, List, arith, ltb, ◌==◌, Bool, true, false,
  if◌then◌else◌,
}
use foxfire_sniper.Types.{
  SolanaAction, Pubkey, Asset, sol, token, ExecutionError, SolanaActionPayload,
  several_tokens_in_one_tx,
}
use foxfire_sniper.Accounts.{Accounts, get_balance}
use foxfire_sniper.Orders.{Env}
use foxfire_sniper.Executor.Instructions.{Instruction, Built, built, bail, Built-bind_inv}
use foxfire_sniper.Executor.Steps.{Situation, Progress}
use foxfire_sniper.Executor.Build.{
  Balances, run_steps, initial, build_from, survey, build_instructions, get_tokens_used_in_tx,
}

pub Asset-cases : (a : Asset) → (a ≡ sol) ⊎ ((mint : Pubkey) × (a ≡ token mint))
Asset-cases sol = inl refl
Asset-cases (token mint) = inr (mint, refl)

pub if-supported {ℓ} :
    {A : Type ℓ} (b : Bool) (m : Built A) (e : ExecutionError) {a : A}
    → (if b then m else bail e) ≡ built a
    → (b ≡ true) × (m ≡ built a)
if-supported true m e h = (refl, h)
if-supported false m e h = cc

pub if-built {ℓ} :
    {A : Type ℓ} (b : Bool) (m : Built A) (e : ExecutionError) {a : A}
    → (if b then bail e else m) ≡ built a
    → (b ≡ false) × (m ≡ built a)
if-built true m e h = cc
if-built false m e h = (refl, h)

if-answer {ℓ} :
    {X : Type 0} {A : Type ℓ} (b : Bool) (x : X) (m : X × Built A) (e : ExecutionError) {a : A}
    → (if b then (x, bail e) else m).1 ≡ built a
    → m.1 ≡ built a
if-answer true x m e h = cc
if-answer false x m e h = h

build_from-inv :
    (s : Situation) (payload : List SolanaActionPayload) (before : Balances)
    (ixs : List Instruction)
    → build_from s payload ≡ built (before, ixs)
    → (p : Progress) × (run_steps s payload (initial s) ≡ built p)
      × (p.action_ixs ≡ ixs)
      × (s.tx_fee ≤ s.sol_balance)
unfolding build_from
build_from-inv s payload before ixs h =
    let (enough, run) = if-built (ltb s.sol_balance s.tx_fee) _ _ h in
    let (p, e, made) = Built-bind_inv (run_steps s payload (initial s)) _ run in
    (p, e, ground (arith, made), ground (arith, enough))

pub build_instructions-inv :
    (env : Env) (action : SolanaAction) (price units : ℕ) (accounts : Accounts) (before : Balances)
    (ixs : List Instruction)
    → (build_instructions env action price units accounts).1 ≡ built (before, ixs)
    → let s = survey env action price units accounts in
      (p : Progress) × (run_steps s action.action_payload (initial s) ≡ built p)
      × (p.action_ixs ≡ ixs)
      × (s.tx_fee ≤ s.sol_balance)
unfolding build_instructions
build_instructions-inv env action price units accounts before ixs h =
    let s = survey env action price units accounts in
    let payload = action.action_payload in
    let left = (get_balance env.rpc action.sniper accounts).0 in
    let made : Accounts × Built (Balances × List Instruction) =
      (s.accounts, build_from s payload) in
    let few =
      if-answer (s.sol_balance == 0) left
        (if ltb 1 (length (get_tokens_used_in_tx payload))
          then (left, bail several_tokens_in_one_tx)
          else made)
        _ h in
    build_from-inv s payload before ixs
      (if-answer (ltb 1 (length (get_tokens_used_in_tx payload))) left made _ few)
