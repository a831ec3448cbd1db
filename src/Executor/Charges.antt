-- ===== src/Executor/Charges.antt =====
-- The pointers of the loop of src/executors/build_instructions.rs stay within the balances.
use foxfire_sniper.Base.{
  ◌+◌, ◌≤◌, ◌<◌, ◌≡◌, ◌⊎◌, inl, inr, refl, Option, none, some, length, length-append, arith,
}
use foxfire_sniper.Types.{
  Pubkey, Amount, SolanaTransferActionPayload, buy_tokens_for_exact_sol, sell_exact_tokens_for_sol,
  SwapMethod, SolanaSwapActionPayload, SolanaActionPayload, swap, transfer, u64_mod,
}
use foxfire_sniper.Executor.Instructions.{Step, built, Built-bind_inv}
use foxfire_sniper.Executor.Steps.{
  Situation, Progress, buy_of, transfer_sol, transfer_token, buy_amount, buy_step, sell_step,
  step_of, swap_step, is_supported,
}
use foxfire_sniper.Executor.Build.{advance, initial}
use foxfire_sniper.Executor.Inversion.{Asset-cases, if-supported}

-- Nothing is done so far and no fee was taken, or there are instructions, no fee is to come, and what
-- is left of the SOL and the fee are together within the balance; so are the tokens that are left.
pub record IsCharged (s : Situation) (p : Progress) : Type 0 where
  pub fee :
      ((p.tx_fee_pointer ≡ s.tx_fee)
        × (p.sol_balance_pointer ≡ s.sol_balance)
        × (length p.action_ixs ≡ 0))
      ⊎ ((p.tx_fee_pointer ≡ 0)
          × (p.sol_balance_pointer + s.tx_fee ≤ s.sol_balance)
          × (0 < length p.action_ixs))
  pub tokens : p.token_balance_pointer ≤ s.token_balance

pub initial-IsCharged : (s : Situation) → IsCharged s (initial s)
initial-IsCharged s = record { fee = inl (refl, refl, refl); tokens = omega arith }

module _ (s : Situation) where
  swap_step-acts :
      (p : Progress) (w : SolanaSwapActionPayload) (m : SwapMethod) (t : Step)
      → swap_step s p w m ≡ built (some t)
      → 0 < length t.step_ixs
  unfolding swap_step buy_step sell_step
  swap_step-acts p w buy_tokens_for_exact_sol t h =
      let (n, _, e) = Built-bind_inv (buy_amount s p w.amount_in) (λ n. built (buy_of s w n)) h in
      ground arith
  swap_step-acts p w sell_exact_tokens_for_sol t h = ground arith

  transfer_sol-acts :
      (p : Progress) (receiver : Pubkey) (amount : Amount) (t : Step)
      → transfer_sol s p receiver amount ≡ some t
      → 0 < length t.step_ixs
  unfolding transfer_sol
  transfer_sol-acts p receiver amount t h = ground arith

  transfer_token-acts :
      (p : Progress) (mint : Pubkey) (x : SolanaTransferActionPayload) (t : Step)
      → transfer_token s p mint x ≡ some t
      → 0 < length t.step_ixs
  unfolding transfer_token
  transfer_token-acts p mint x t h = ground arith

  -- A step that is not left out has instructions.
  pub step_of-acts :
      (p : Progress) (step : SolanaActionPayload) (t : Step)
      → step_of s p step ≡ built (some t)
      → 0 < length t.step_ixs
  unfolding step_of
  step_of-acts p (transfer x) t h = elim (Asset-cases x.asset) [
    | inl e ↦ ground (arith, transfer_sol-acts p x.receiver x.amount t)
    | inr (mint, e) ↦ ground (arith, transfer_token-acts p mint x t)
  ]
  step_of-acts p (swap w) t h =
      let (_, e) = if-supported (is_supported s w) (swap_step s p w w.swap_method) _ h in
      swap_step-acts p w w.swap_method t e

  module _ (enough : s.tx_fee ≤ s.sol_balance) (fits : s.sol_balance < u64_mod) where
    pub advance-IsCharged :
        (p p' : Progress) (planned : Option Step)
        → ((t : Step) → planned ≡ some t → 0 < length t.step_ixs)
        → IsCharged s p
        → advance s p planned ≡ built p'
        → IsCharged s p'
    unfolding advance
    advance-IsCharged p p' none k c h = record {
      fee = ground (arith, c.fee);
      tokens = ground (arith, c.tokens);
    }
    advance-IsCharged p p' (some t) k c h = record {
      fee = ground (arith, c.fee, k t refl, length-append p.action_ixs t.step_ixs);
      tokens = ground (arith, c.tokens);
    }
