-- ===== src/Executor/Purchases.antt =====
-- What src/executors/build_instructions.rs spends on a purchase with everything there is.
use foxfire_sniper.Base.{
  ℕ, ◌+◌, ◌≤◌, ◌<◌, ◌≡◌, sym, subst, Option, List, [], ◌∷◌, ◌==◌, ==_refl, arith, ap, ◌∙◌,
  if◌then◌else◌,
}
use foxfire_sniper.Types.{
  Pubkey, buy_tokens_for_exact_sol, SolanaSwapActionPayload, swap, max, max_but_leave_for_transfer,
  u64_mod, SolanaAction,
}
use foxfire_sniper.Accounts.{Accounts}
use foxfire_sniper.Orders.{Env}
use foxfire_sniper.Executor.Instructions.{Instruction, sol_transfer, Step, built, Built-bind_inv}
use foxfire_sniper.Executor.Steps.{
  Situation, Progress, sniper_token_ata, sniper_wsol_ata, creation_fee, buy_of, buy_amount,
  buy_step, step_of, swap_step, is_supported,
}
use foxfire_sniper.Executor.Build.{
  Balances, advance, run_steps, initial, survey, build_instructions, tx_fee_of,
}
use foxfire_sniper.Executor.Inversion.{if-supported, build_instructions-inv}

-- The lamports that one instruction takes from an account.
abbrev lamports_from : Pubkey → Instruction → ℕ
lamports_from account (sol_transfer source _ lamports) = if source == account then lamports else 0
lamports_from account _ = 0

-- The lamports that the transfers of a list of instructions take from an account.
abbrev pub lamports_sent : Pubkey → List Instruction → ℕ
lamports_sent account [] = 0
lamports_sent account (ix ∷ ixs) = lamports_from account ix + lamports_sent account ixs

-- Every fee is at least the base fee and one lamport, and no computation of one overflows.
pub tx_fee_of-bounds :
    (price units : ℕ) → (5001 ≤ tx_fee_of price units) × (tx_fee_of price units < 20000000000000)
unfolding tx_fee_of
tx_fee_of-bounds price units = omega arith

module _ (s : Situation) where
  -- What the fees of a purchase come to.
  abbrev pub purchase_fees : ℕ
  purchase_fees =
      s.tx_fee + creation_fee s (sniper_token_ata s) + creation_fee s (sniper_wsol_ata s)

  buy_of-sends :
      (w : SolanaSwapActionPayload) (n : ℕ) (planned : Option Step)
      → buy_of s w n ≡ planned
      → (p' : Progress) → advance s (initial s) planned ≡ built p'
      → lamports_sent s.sniper_pubkey p'.action_ixs ≡ n
  unfolding advance
  buy_of-sends w n planned e p' h = ground (arith, ==_refl s.sniper_pubkey)

  -- A run over one purchase sends its amount.
  run_steps-buys :
      (w : SolanaSwapActionPayload) (p : Progress)
      → w.swap_method ≡ buy_tokens_for_exact_sol
      → run_steps s (swap w ∷ []) (initial s) ≡ built p
      → (n : ℕ) × (buy_amount s (initial s) w.amount_in ≡ built n)
        × (lamports_sent s.sniper_pubkey p.action_ixs ≡ n)
  unfolding run_steps step_of swap_step buy_step
  run_steps-buys w p m h =
      let (planned, e, rest) = Built-bind_inv (step_of s (initial s) (swap w)) _ h in
      let (p1, e1, last) = Built-bind_inv (advance s (initial s) planned) _ rest in
      let (_, q) = if-supported (is_supported s w) (swap_step s (initial s) w w.swap_method) _ e in
      let bought : buy_step s (initial s) w ≡ built planned =
        subst (λ k. swap_step s (initial s) w k ≡ built planned) m q in
      let (n, sum, made) = Built-bind_inv (buy_amount s (initial s) w.amount_in) _ bought in
      let same : p1 ≡ p = ground (arith, last) in
      (n, sum, buy_of-sends w n planned (ground (arith, made)) p (e1 ∙ ap built same))

  module _ (fits : s.sol_balance < u64_mod) (small : s.tx_fee < 20000000000000) where
    buy_amount-max :
        (n : ℕ) → buy_amount s (initial s) max ≡ built n → n + purchase_fees ≡ s.sol_balance
    unfolding buy_amount
    buy_amount-max n h = ground arith

    buy_amount-leaving :
        (n : ℕ)
        → buy_amount s (initial s) max_but_leave_for_transfer ≡ built n
        → n + purchase_fees + s.tx_fee ≡ s.sol_balance
    unfolding buy_amount
    buy_amount-leaving n h = ground arith

module _ (env : Env) (action : SolanaAction) (w : SolanaSwapActionPayload) (price units : ℕ)
    (accounts : Accounts) (before : Balances) (ixs : List Instruction) where
  -- The one purchase of an action sends its amount.
  purchase-sends :
      let s = survey env action price units accounts in
      action.action_payload ≡ swap w ∷ []
      → w.swap_method ≡ buy_tokens_for_exact_sol
      → (build_instructions env action price units accounts).1 ≡ built (before, ixs)
      → buy_amount s (initial s) w.amount_in ≡ built (lamports_sent action.sniper ixs)
  unfolding survey
  purchase-sends one buy h =
      let s = survey env action price units accounts in
      let (p, run, e, _) = build_instructions-inv env action price units accounts before ixs h in
      let (n, sum, sends) : (n : ℕ) × (buy_amount s (initial s) w.amount_in ≡ built n)
          × (lamports_sent s.sniper_pubkey p.action_ixs ≡ n) =
        run_steps-buys s w p buy
          (subst (λ steps. run_steps s steps (initial s) ≡ built p) one run) in
      let sent : lamports_sent action.sniper ixs ≡ n =
        ap (lamports_sent action.sniper) (sym e) ∙ sends in
      sum ∙ ap built (sym sent)

  -- Buying with everything leaves exactly the fees: where the action is one purchase with the amount
  -- Max, the SOL balance fits u64 and instructions are built, the lamports that the sniper sends
  -- make up, with the transaction fee and the price of the token accounts that do not exist so far,
  -- exactly the balance that was read.
  pub build_instructions-purchase :
      let s = survey env action price units accounts in
      s.sol_balance < u64_mod
      → action.action_payload ≡ swap w ∷ []
      → w.swap_method ≡ buy_tokens_for_exact_sol
      → w.amount_in ≡ max
      → (build_instructions env action price units accounts).1 ≡ built (before, ixs)
      → lamports_sent action.sniper ixs + purchase_fees s ≡ s.sol_balance
  unfolding survey tx_fee_of
  build_instructions-purchase fits one buy amount h =
      let s = survey env action price units accounts in
      buy_amount-max s fits (tx_fee_of-bounds price units).1 (lamports_sent action.sniper ixs) (
        subst (λ a. buy_amount s (initial s) a ≡ built (lamports_sent action.sniper ixs)) amount
          (purchase-sends one buy h))
