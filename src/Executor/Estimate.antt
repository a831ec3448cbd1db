-- ===== src/Executor/Estimate.antt =====
-- src/executors/build_instructions.rs: the estimate of the compute units.
use foxfire_sniper.Base.{ℕ, ◌+◌, ◌%◌, List, [], ◌∷◌}
use foxfire_sniper.Types.{
  sol, token, buy_tokens_for_exact_sol, sell_exact_tokens_for_sol, SolanaActionPayload, swap,
  transfer, u32_mod,
}

abbrev pub estimate_cu_per_compute_budget_instruction : ℕ
estimate_cu_per_compute_budget_instruction = 300

abbrev pub estimate_cu_sol_transfer : ℕ
estimate_cu_sol_transfer = 150

abbrev pub estimate_cu_spl_token_transfer : ℕ
estimate_cu_spl_token_transfer = 35000

abbrev pub estimate_cu_buy_spl_raydium_v4 : ℕ
estimate_cu_buy_spl_raydium_v4 = 80000

abbrev pub step_cu : SolanaActionPayload → ℕ
step_cu (transfer t) = elim t.asset [
  | sol ↦ estimate_cu_sol_transfer
  | token _ ↦ estimate_cu_spl_token_transfer
]
step_cu (swap w) = elim w.swap_method [
  | buy_tokens_for_exact_sol ↦ estimate_cu_buy_spl_raydium_v4 + estimate_cu_spl_token_transfer
  | sell_exact_tokens_for_sol ↦ estimate_cu_buy_spl_raydium_v4
]

-- `sum::<u32>`
abbrev pub sum_u32 : List SolanaActionPayload → ℕ
sum_u32 [] = 0
sum_u32 (step ∷ steps) = (step_cu step + sum_u32 steps) % u32_mod

unfoldable pub estimate_cu_per_tx : List SolanaActionPayload → ℕ
estimate_cu_per_tx payload =
    (sum_u32 payload + estimate_cu_per_compute_budget_instruction) % u32_mod
