-- ===== src/Executor/Spending.antt =====
-- What the instructions of src/executors/build_instructions.rs take out of the sniper's token account.
use foxfire_sniper.Base.{
  ℕ, ◌+◌, ◌≤◌, ◌≡◌, ◌≢◌, inl, inr, refl, ◌∙◌, false, Option, none, some, List, [], ◌∷◌, ◌++◌, ◌==◌,
  ==_refl, ap, arith,
}
use foxfire_sniper.Types.{
  Pubkey, SwapMethod, Amount, SolanaTransferActionPayload, buy_tokens_for_exact_sol,
  sell_exact_tokens_for_sol, SolanaSwapActionPayload, SolanaActionPayload, swap, transfer,
  SolanaAction, wsol_mint_pubkey,
}
use foxfire_sniper.Accounts.{Accounts}
use foxfire_sniper.Orders.{Env}
use foxfire_sniper.Executor.Instructions.{
  Instruction, Step, built, spent_from, ◌>>=◌, Built-bind_inv,
}
use foxfire_sniper.Executor.Steps.{
  Situation, Progress, sniper_token_ata, sniper_wsol_ata, created, swap_step, is_supported,
  transfer_sol, transfer_token, buy_of, buy_amount, buy_step, sell_step, step_of, user_keys,
}
use foxfire_sniper.Executor.Inversion.{Asset-cases, if-supported, build_instructions-inv}
use foxfire_sniper.Executor.Build.{
  Balances, advance, run_steps, initial, survey, build_instructions,
}

spent_from-append :
    (a : Pubkey) (xs ys : List Instruction)
    → spent_from a (xs ++ ys) ≡ spent_from a xs + spent_from a ys
spent_from-append a [] ys = omega arith
spent_from-append a (x ∷ xs) ys = omega (arith, spent_from-append a xs ys)

module _ (s : Situation) where
  supported :
      (p : Progress) (w : SolanaSwapActionPayload) (t : Step)
      → step_of s p (swap w) ≡ built (some t)
      → ((w.keys.base_mint == wsol_mint_pubkey) ≡ false)
        × (swap_step s p w w.swap_method ≡ built (some t))
  unfolding step_of
  supported p w t h =
      let (b, e) = if-supported (is_supported s w) (swap_step s p w w.swap_method) _ h in
      (ground (arith, b), e)

  spent_from-created :
      (a account owner mint : Pubkey) → spent_from a (created s account owner mint) ≡ 0
  spent_from-created a account owner mint = ground arith

  -- A step's instructions take its token cost out of the token account.
  transfer_sol-spends :
      (p : Progress) (receiver : Pubkey) (amount : Amount) (t : Step)
      → transfer_sol s p receiver amount ≡ some t
      → spent_from (sniper_token_ata s) t.step_ixs ≡ t.token_cost
  unfolding transfer_sol
  transfer_sol-spends p receiver amount t h = ground arith

  transfer_token-spends :
      (p : Progress) (mint : Pubkey) (payload : SolanaTransferActionPayload) (t : Step)
      → transfer_token s p mint payload ≡ some t
      → spent_from (sniper_token_ata s) t.step_ixs ≡ t.token_cost
  unfolding transfer_token
  transfer_token-spends p mint payload t h = ground (arith, ==_refl (sniper_token_ata s))

  module _ (distinct : sniper_token_ata s ≢ sniper_wsol_ata s) where
    buy_step-spends :
        (p : Progress) (w : SolanaSwapActionPayload) (t : Step)
        → w.swap_method ≡ buy_tokens_for_exact_sol
        → (w.keys.base_mint == wsol_mint_pubkey) ≡ false
        → buy_step s p w ≡ built (some t)
        → spent_from (sniper_token_ata s) t.step_ixs ≡ t.token_cost
    unfolding buy_step user_keys
    buy_step-spends p w t method ours h =
        let (n, _, e) = Built-bind_inv (buy_amount s p w.amount_in) (λ n. built (buy_of s w n)) h in
        ground (arith, distinct)

    sell_step-spends :
        (p : Progress) (w : SolanaSwapActionPayload) (t : Step)
        → w.swap_method ≡ sell_exact_tokens_for_sol
        → (w.keys.base_mint == wsol_mint_pubkey) ≡ false
        → sell_step s p w ≡ some t
        → spent_from (sniper_token_ata s) t.step_ixs ≡ t.token_cost
    unfolding sell_step user_keys
    sell_step-spends p w t method ours h = ground (arith, ==_refl (sniper_token_ata s))

    swap_step-spends :
        (p : Progress) (w : SolanaSwapActionPayload) (t : Step) (m : SwapMethod)
        → w.swap_method ≡ m
        → (w.keys.base_mint == wsol_mint_pubkey) ≡ false
        → swap_step s p w m ≡ built (some t)
        → spent_from (sniper_token_ata s) t.step_ixs ≡ t.token_cost
    unfolding swap_step
    swap_step-spends p w t buy_tokens_for_exact_sol e ours h = buy_step-spends p w t e ours h
    swap_step-spends p w t sell_exact_tokens_for_sol e ours h =
        sell_step-spends p w t e ours (ground (arith, h))

    step_of-spends :
        (p : Progress) (step : SolanaActionPayload) (t : Step)
        → step_of s p step ≡ built (some t)
        → spent_from (sniper_token_ata s) t.step_ixs ≡ t.token_cost
    unfolding step_of
    step_of-spends p (transfer x) t h = elim (Asset-cases x.asset) [
      | inl e ↦ ground (arith, transfer_sol-spends p x.receiver x.amount t)
      | inr (mint, e) ↦ ground (arith, transfer_token-spends p mint x t)
    ]
    step_of-spends p (swap w) t h =
        let (ours, e) = supported p w t h in swap_step-spends p w t w.swap_method refl ours e

    advance-spends :
        (p p1 : Progress) (planned : Option Step)
        → ((t : Step)
            → planned ≡ some t
            → spent_from (sniper_token_ata s) t.step_ixs ≡ t.token_cost)
        → advance s p planned ≡ built p1
        → spent_from (sniper_token_ata s) p1.action_ixs + p1.token_balance_pointer
          ≡ spent_from (sniper_token_ata s) p.action_ixs + p.token_balance_pointer
    unfolding advance
    advance-spends p p1 none k h = ground arith
    advance-spends p p1 (some t) k h =
        ground (arith, k t refl, spent_from-append (sniper_token_ata s) p.action_ixs t.step_ixs)

    -- Over the loop, what leaves the account and the pointer of its balance make up a constant.
    run_steps-spends :
        (steps : List SolanaActionPayload) (p p' : Progress)
        → run_steps s steps p ≡ built p'
        → spent_from (sniper_token_ata s) p'.action_ixs + p'.token_balance_pointer
          ≡ spent_from (sniper_token_ata s) p.action_ixs + p.token_balance_pointer
    unfolding run_steps
    run_steps-spends [] p p' h = ground arith
    run_steps-spends (step ∷ steps) p p' h =
        let (planned, e, rest) =
          Built-bind_inv (step_of s p step) (λ t. advance s p t >>= (λ p1. run_steps s steps p1))
            h in
        let (p1, e1, later) =
          Built-bind_inv (advance s p planned) (λ p1. run_steps s steps p1) rest in
        run_steps-spends steps p1 p' later
        ∙ advance-spends p p1 planned (λ t q. step_of-spends p step t (e ∙ ap built q)) e1

-- Where the associated token accounts of the sniper for the action's token and for wrapped SOL are
-- two, the instructions that are built never take more out of the token account than the balance
-- read for it: over any list of steps, with any amounts, what the transfers and swaps take out
-- together is within that balance.
pub build_instructions-spends :
    (env : Env) (action : SolanaAction) (price units : ℕ) (accounts : Accounts) (before : Balances)
    (ixs : List Instruction)
    → let s = survey env action price units accounts in
      sniper_token_ata s ≢ sniper_wsol_ata s
      → (build_instructions env action price units accounts).1 ≡ built (before, ixs)
      → spent_from (sniper_token_ata s) ixs ≤ s.token_balance
build_instructions-spends env action price units accounts before ixs distinct h =
    let s = survey env action price units accounts in
    let (p, run, e, _) = build_instructions-inv env action price units accounts before ixs h in
    ground (arith, run_steps-spends s distinct action.action_payload (initial s) p run, e)
