-- ===== src/Executor/Units.antt =====
-- The estimate of the compute units against a count of the steps of each kind.
use foxfire_sniper.Base.{
  ℕ, ◌+◌, ◌*◌, ◌<◌, ◌≤◌, ◌≡◌, Bool, true, false, List, [], ◌∷◌, suc, arith, length, if◌then◌else◌,
}
use foxfire_sniper.Types.{
  sol, token, buy_tokens_for_exact_sol, sell_exact_tokens_for_sol, SolanaActionPayload, swap,
  transfer, u32_mod,
}
use foxfire_sniper.Executor.Estimate.{estimate_cu_per_tx, sum_u32, step_cu}

-- The kinds of steps that the estimate tells apart.
pub data Kind : Type 0 where
  sol_transfer token_transfer purchase sale : Kind

abbrev pub kind_of : SolanaActionPayload → Kind
kind_of (transfer t) = elim t.asset [ sol ↦ sol_transfer | token _ ↦ token_transfer ]
kind_of (swap w) = elim w.swap_method [
  | buy_tokens_for_exact_sol ↦ purchase
  | sell_exact_tokens_for_sol ↦ sale
]

abbrev same_kind : Kind → Kind → Bool
same_kind sol_transfer sol_transfer = true
same_kind token_transfer token_transfer = true
same_kind purchase purchase = true
same_kind sale sale = true
same_kind _ _ = false

-- How many steps are of a kind.
abbrev pub count : Kind → List SolanaActionPayload → ℕ
count kind [] = 0
count kind (step ∷ steps) =
    let rest = count kind steps in if same_kind kind (kind_of step) then suc rest else rest

abbrev pub units_by_count : List SolanaActionPayload → ℕ
units_by_count payload =
    300
    + 150 * count sol_transfer payload
    + 35000 * count token_transfer payload
    + 115000 * count purchase payload
    + 80000 * count sale payload

step_cu-within : (step : SolanaActionPayload) → step_cu step ≤ 115000
step_cu-within (transfer t) = ground arith
step_cu-within (swap w) = ground arith

-- No sum of the estimate overflows.
sum_u32-within : (payload : List SolanaActionPayload) → sum_u32 payload ≤ 115000 * length payload
sum_u32-within [] = omega arith
sum_u32-within (step ∷ steps) = omega (arith, step_cu-within step, sum_u32-within steps)

step_cu-counts :
    (step : SolanaActionPayload) (steps : List SolanaActionPayload)
    → units_by_count (step ∷ steps) ≡ step_cu step + units_by_count steps
step_cu-counts (transfer t) steps = ground arith
step_cu-counts (swap w) steps = ground arith

sum_u32-counts :
    (payload : List SolanaActionPayload)
    → length payload ≤ 30000
    → sum_u32 payload + 300 ≡ units_by_count payload
sum_u32-counts [] short = omega arith
sum_u32-counts (step ∷ steps) short =
    let counts = step_cu-counts step steps in
    let rest = sum_u32-counts steps (omega arith) in
    let bound = sum_u32-within steps in
    let one = step_cu-within step in omega (arith, counts, rest, bound, one)

-- The estimate is a count: of an action of at most 30,000 steps, the estimated compute units are 300
-- and for each step a price that depends on its kind alone, 150 for a transfer of SOL, 35,000 for
-- one of tokens, 115,000 for a purchase and 80,000 for a sale, whatever the order of the steps, and
-- no sum overflows u32.
pub estimate_cu_per_tx-counts :
    (payload : List SolanaActionPayload)
    → length payload ≤ 30000
    → (estimate_cu_per_tx payload ≡ units_by_count payload) × (units_by_count payload < u32_mod)
unfolding estimate_cu_per_tx
estimate_cu_per_tx-counts payload short =
    let counts = sum_u32-counts payload short in
    let bound = sum_u32-within payload in (omega arith, omega arith)
