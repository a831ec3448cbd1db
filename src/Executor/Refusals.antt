-- ===== src/Executor/Refusals.antt =====
-- Why src/executors/build_instructions.rs refuses an action.
use foxfire_sniper.Base.{
  ℕ, ◌≤◌, ◌<◌, ◌≡◌, ◌≢◌, ◌⊎◌, inl, inr, refl, subst, Bool, true, false, Option, none, some, List,
  [], ◌∷◌, ◌==◌, length, arith, ap, ◌∙◌, ltb, if◌then◌else◌,
}
use foxfire_sniper.Types.{
  Amount, exact, exact_with_fees, max_but_leave_for_transfer, max, max_and_close,
  SolanaSwapActionPayload, SolanaActionPayload, swap, transfer, u64_mod, SolanaAction,
  ExecutionError, several_tokens_in_one_tx, zero_sol_balance, not_enough_sol_balance,
  not_enough_token_balance, unsupported_pool, wsol_mint_pubkey, wrapping_add,
  buy_tokens_for_exact_sol, sell_exact_tokens_for_sol, SwapMethod,
}
use foxfire_sniper.Accounts.{Accounts, get_balance}
use foxfire_sniper.Orders.{Env}
use foxfire_sniper.Executor.Instructions.{Instruction, Step, Built, built, bail, ◌>>=◌}
use foxfire_sniper.Executor.Steps.{
  Situation, Progress, buy_of, buy_amount, buy_step, step_of, swap_step, is_supported,
}
use foxfire_sniper.Executor.Build.{
  advance, run_steps, initial, build_from, build_instructions, survey, Balances,
  get_tokens_used_in_tx,
}
use foxfire_sniper.Executor.Inversion.{Asset-cases}
use foxfire_sniper.Executor.Charges.{IsCharged, initial-IsCharged, step_of-acts, advance-IsCharged}

-- In the loop over the steps, from the pointers on, a step costs more tokens than are left; the number
-- is its cost and what is left.
pub data LacksTokens (s : Situation) : List SolanaActionPayload → Progress → ℕ → Type 0 where
  here :
      {step : SolanaActionPayload} {steps : List SolanaActionPayload} {p : Progress} (t : Step)
      → step_of s p step ≡ built (some t)
      → p.token_balance_pointer < t.token_cost
      → LacksTokens s (step ∷ steps) p (wrapping_add t.token_cost p.token_balance_pointer)
  later :
      {step : SolanaActionPayload} {steps : List SolanaActionPayload} {p p' : Progress} {n : ℕ}
      (planned : Option Step)
      → step_of s p step ≡ built planned
      → advance s p planned ≡ built p'
      → LacksTokens s steps p' n
      → LacksTokens s (step ∷ steps) p n

-- What holds of the action when the steps, from the pointers on, give an error.
abbrev IsJustifiedFrom :
    Situation
    → List SolanaActionPayload
    → List SolanaActionPayload
    → Progress
    → ExecutionError
    → Type 0
IsJustifiedFrom s payload steps p zero_sol_balance = s.sol_balance ≡ 0
IsJustifiedFrom s payload steps p several_tokens_in_one_tx =
    1 < length (get_tokens_used_in_tx payload)
IsJustifiedFrom s payload steps p (not_enough_sol_balance needed available) =
    (available < needed) × (available ≤ s.sol_balance)
IsJustifiedFrom s payload steps p (not_enough_token_balance needed available) =
    (available ≡ s.token_balance) × LacksTokens s steps p needed
IsJustifiedFrom s payload steps p (unsupported_pool base quote) =
    (base ≡ wsol_mint_pubkey) ⊎ (quote ≢ wsol_mint_pubkey)
IsJustifiedFrom s payload steps p _ = ⊥

-- A lack of SOL or of tokens is real, the balance that is named is the one read or what is left of it,
-- and a pool is refused only for its mints. No other error is given.
abbrev pub IsJustified : Situation → List SolanaActionPayload → ExecutionError → Type 0
IsJustified s payload e = IsJustifiedFrom s payload payload (initial s) e

pub Built-bind_bail {ℓ κ} :
    {A : Type ℓ} {B : Type κ} (m : Built A) (f : A → Built B) {e : ExecutionError}
    → (m >>= f) ≡ bail e
    → (m ≡ bail e) ⊎ ((a : A) × (m ≡ built a) × (f a ≡ bail e))
Built-bind_bail (built a) f h = inr (a, refl, h)
Built-bind_bail (bail e) f {e = e'} h = let q : e ≡ e' = cc in inl (ap bail q)

if-refuses {ℓ} :
    {A : Type ℓ} (b : Bool) (err : ExecutionError) (m : Built A) {e : ExecutionError}
    → (if b then m else bail err) ≡ bail e
    → ((b ≡ false) × (err ≡ e)) ⊎ (m ≡ bail e)
if-refuses true err m h = inr h
if-refuses false err m h = inl (refl, cc)

if-bails {ℓ} :
    {A : Type ℓ} (b : Bool) (err : ExecutionError) (m : Built A) {e : ExecutionError}
    → (if b then bail err else m) ≡ bail e
    → ((b ≡ true) × (err ≡ e)) ⊎ ((b ≡ false) × (m ≡ bail e))
if-bails true err m h = inl (refl, cc)
if-bails false err m h = inr (refl, h)

if-answers {ℓ} :
    {X : Type 0} {A : Type ℓ} (b : Bool) (x : X) (m : X × Built A) (err : ExecutionError)
    {e : ExecutionError}
    → (if b then (x, bail err) else m).1 ≡ bail e
    → ((b ≡ true) × (err ≡ e)) ⊎ (m.1 ≡ bail e)
if-answers true x m err h = inl (refl, cc)
if-answers false x m err h = inr h

module _ (s : Situation) (payload steps : List SolanaActionPayload) (p : Progress) where
  -- A shortage of SOL that is found by comparing with what is left.
  short :
      (left needed n : ℕ) (e : ExecutionError)
      → left ≤ s.sol_balance
      → (if ltb left needed then bail (not_enough_sol_balance needed left) else built n) ≡ bail e
      → IsJustifiedFrom s payload steps p e
  short left needed n e within h = elim (if-bails (ltb left needed) _ (built n) h) [
    | inl (lack, q) ↦ subst (IsJustifiedFrom s payload steps p) q (ground (arith, lack), within)
    | inr (_, impossible) ↦ cc
  ]

  buy_amount-IsJustified :
      (amount : Amount) (e : ExecutionError)
      → p.sol_balance_pointer ≤ s.sol_balance
      → buy_amount s p amount ≡ bail e
      → IsJustifiedFrom s payload steps p e
  unfolding buy_amount
  buy_amount-IsJustified (exact n) e within h = cc
  buy_amount-IsJustified (exact_with_fees n) e within h = short p.sol_balance_pointer n _ e within h
  buy_amount-IsJustified max e within h = short p.sol_balance_pointer _ _ e within h
  buy_amount-IsJustified max_but_leave_for_transfer e within h =
      short p.sol_balance_pointer _ _ e within h
  buy_amount-IsJustified max_and_close e within h = cc

  swap_step-IsJustified :
      (w : SolanaSwapActionPayload) (m : SwapMethod) (e : ExecutionError)
      → p.sol_balance_pointer ≤ s.sol_balance
      → swap_step s p w m ≡ bail e
      → IsJustifiedFrom s payload steps p e
  unfolding swap_step buy_step
  swap_step-IsJustified w buy_tokens_for_exact_sol e within h =
      elim (Built-bind_bail (buy_amount s p w.amount_in) (λ n. built (buy_of s w n)) h) [
        | inl q ↦ buy_amount-IsJustified w.amount_in e within q
        | inr (n, _, q) ↦ cc
      ]
  swap_step-IsJustified w sell_exact_tokens_for_sol e within h = cc

  step_of-IsJustified :
      (step : SolanaActionPayload) (e : ExecutionError)
      → p.sol_balance_pointer ≤ s.sol_balance
      → step_of s p step ≡ bail e
      → IsJustifiedFrom s payload steps p e
  unfolding step_of
  step_of-IsJustified (transfer x) e within h = elim (Asset-cases x.asset) [
    | inl a ↦ ground arith
    | inr (mint, a) ↦ ground arith
  ]
  step_of-IsJustified (swap w) e within h =
      elim (if-refuses (is_supported s w) _ (swap_step s p w w.swap_method) h) [
        | inl (b, q) ↦ subst (IsJustifiedFrom s payload steps p) q (ground (arith, b))
        | inr q ↦ swap_step-IsJustified w w.swap_method e within q
      ]

  -- What holds from the pointers after a step on holds from those before it on.
  IsJustifiedFrom-later :
      (step : SolanaActionPayload) (p' : Progress) (planned : Option Step) (e : ExecutionError)
      → step_of s p step ≡ built planned
      → advance s p planned ≡ built p'
      → IsJustifiedFrom s payload steps p' e
      → IsJustifiedFrom s payload (step ∷ steps) p e
  IsJustifiedFrom-later step p' planned zero_sol_balance q r h = h
  IsJustifiedFrom-later step p' planned several_tokens_in_one_tx q r h = h
  IsJustifiedFrom-later step p' planned (not_enough_sol_balance needed available) q r h = h
  IsJustifiedFrom-later step p' planned (not_enough_token_balance needed available) q r h =
      (h.0, later planned q r h.1)
  IsJustifiedFrom-later step p' planned (unsupported_pool base quote) q r h = h
  IsJustifiedFrom-later step p' planned _ q r h = h

  advance-IsJustified :
      (step : SolanaActionPayload) (planned : Option Step) (e : ExecutionError)
      → step_of s p step ≡ built planned
      → advance s p planned ≡ bail e
      → IsJustifiedFrom s payload (step ∷ steps) p e
  unfolding advance
  advance-IsJustified step none e q h = cc
  advance-IsJustified step (some t) e q h =
      elim (if-bails (ltb p.token_balance_pointer t.token_cost) _ _ h) [
        | inl (lack, z) ↦
            subst (IsJustifiedFrom s payload (step ∷ steps) p) z
              (refl, here t q (ground (arith, lack)))
        | inr (_, impossible) ↦ cc
      ]

module _ (s : Situation) (payload : List SolanaActionPayload) where
  module _ (enough : s.tx_fee ≤ s.sol_balance) (fits : s.sol_balance < u64_mod) where
    run_steps-IsJustified :
        (steps : List SolanaActionPayload) (p : Progress) (e : ExecutionError)
        → IsCharged s p
        → run_steps s steps p ≡ bail e
        → IsJustifiedFrom s payload steps p e
    unfolding run_steps
    run_steps-IsJustified [] p e c h = cc
    run_steps-IsJustified (step ∷ steps) p e c h =
        elim (Built-bind_bail (step_of s p step)
          (λ t. advance s p t >>= (λ p1. run_steps s steps p1)) h) [
            | inl q ↦
                step_of-IsJustified s payload (step ∷ steps) p step e (ground (arith, c.fee)) q
            | inr (planned, q, rest) ↦
                elim (Built-bind_bail (advance s p planned) (λ p1. run_steps s steps p1) rest) [
                  | inl r ↦ advance-IsJustified s payload steps p step planned e q r
                  | inr (p1, r, go_on) ↦
                      IsJustifiedFrom-later s payload steps p step p1 planned e q r (
                        run_steps-IsJustified steps p1 e
                          (advance-IsCharged s enough fits p p1 planned
                            (λ t z. step_of-acts s p step t (q ∙ ap built z)) c r)
                          go_on)
                ]
          ]

  -- From the fee on.
  build_from-IsJustified :
      (e : ExecutionError)
      → s.sol_balance < u64_mod
      → build_from s payload ≡ bail e
      → IsJustified s payload e
  unfolding build_from
  build_from-IsJustified e fits h = elim (if-bails (ltb s.sol_balance s.tx_fee) _ _ h) [
    | inl (lack, q) ↦ subst (IsJustified s payload) q (ground (arith, lack), omega arith)
    | inr (enough, go) ↦ elim (Built-bind_bail (run_steps s payload (initial s)) _ go) [
      | inl q ↦
          run_steps-IsJustified (ground (arith, enough)) fits payload (initial s) e
            (initial-IsCharged s) q
      | inr (p, _, q) ↦ cc
    ]
  ]

-- Every refusal is justified: where the chain's SOL balances fit u64, an error of
-- `build_instructions` is one of five. No SOL was read; more than one token is used; SOL is lacking:
-- the amount that is named is more than what is available, itself at most the balance read; tokens
-- are lacking: the balance read is named, and the run of the loop comes to a step that costs more than
-- is left of it, the needed amount being that cost and what is left; or a pool is refused whose base
-- mint is wrapped SOL or whose quote mint is not.
pub build_instructions-IsJustified :
    (env : Env) (action : SolanaAction) (price units : ℕ) (accounts : Accounts) (e : ExecutionError)
    → let s = survey env action price units accounts in
      s.sol_balance < u64_mod
      → (build_instructions env action price units accounts).1 ≡ bail e
      → IsJustified s action.action_payload e
unfolding build_instructions
build_instructions-IsJustified env action price units accounts e fits h =
    let s = survey env action price units accounts in
    let payload = action.action_payload in
    let left = (get_balance env.rpc action.sniper accounts).0 in
    let made : Accounts × Built (Balances × List Instruction) =
      (s.accounts, build_from s payload) in
    elim (if-answers (s.sol_balance == 0) left
      (if ltb 1 (length (get_tokens_used_in_tx payload))
        then (left, bail several_tokens_in_one_tx)
        else made)
      _ h) [
        | inl (none_left, q) ↦ subst (IsJustified s payload) q (ground (arith, none_left))
        | inr some_left ↦
            elim (if-answers (ltb 1 (length (get_tokens_used_in_tx payload))) left made _
              some_left) [
                | inl (many, q) ↦ subst (IsJustified s payload) q (ground (arith, many))
                | inr few ↦ build_from-IsJustified s payload e fits few
              ]
      ]
