-- ===== src/Executor/Steps.antt =====
-- src/executors/build_instructions.rs: the instructions and costs of one step of an action.
use foxfire_sniper.Base.{
  ℕ, Bool, not, ◌&&◌, Option, none, some, List, [], ◌∷◌, ◌++◌, ltb, ◌==◌, if◌then◌else◌,
}
use foxfire_sniper.Types.{
  Pubkey, Amount, exact, exact_with_fees, max_but_leave_for_transfer, max, max_and_close,
  is_max_and_close, sol, token, SolanaTransferActionPayload, SwapMethod, buy_tokens_for_exact_sol,
  sell_exact_tokens_for_sol, SolanaSwapActionPayload, SolanaActionPayload, swap, transfer,
  not_enough_sol_balance, unsupported_pool, rent_exemption_threshold_sol, wsol_mint_pubkey,
  wrapping_add, wrapping_sub,
}
use foxfire_sniper.Accounts.{Accounts, is_account_exist}
use foxfire_sniper.Executor.Instructions.{
  UserKeys, Instruction, sol_transfer, create_token_account, token_transfer, close_account,
  sync_native, swap_fixed_in, Step, Built, built, bail, ◌>>=◌,
}

-- What is fixed before the first step: `owned_by` is `get_associated_token_address`.
pub record Situation : Type 0 where
  pub sniper_pubkey : Pubkey
  pub fee_payer : Pubkey
  pub token_mint : Pubkey
  pub owned_by : Pubkey → Pubkey → Pubkey
  pub accounts : Accounts
  pub sol_balance : ℕ
  pub token_balance : ℕ
  pub tx_fee : ℕ

-- `action_ixs` and the pointers of the loop.
pub record Progress : Type 0 where
  pub action_ixs : List Instruction
  pub sol_balance_pointer : ℕ
  pub tx_fee_pointer : ℕ
  pub token_balance_pointer : ℕ
  pub min_sol_to_keep_after_pointer : ℕ

module _ (s : Situation) where
  abbrev pub sniper_token_ata : Pubkey
  sniper_token_ata = s.owned_by s.sniper_pubkey s.token_mint

  abbrev pub sniper_wsol_ata : Pubkey
  sniper_wsol_ata = s.owned_by s.sniper_pubkey wsol_mint_pubkey

  -- One transfer of SOL, its cost, and what is kept.
  abbrev pays : Pubkey → ℕ → ℕ → ℕ → Step
  pays receiver lamports cost keep = record {
    step_ixs = sol_transfer s.sniper_pubkey receiver lamports ∷ [];
    sol_cost = cost;
    token_cost = 0;
    min_sol_to_keep_after = keep;
  }

  unfoldable pub transfer_sol : Progress → Pubkey → Amount → Option Step
  transfer_sol p receiver (exact amount) =
      if ltb 0 amount
      then some (pays receiver amount (wrapping_add amount p.tx_fee_pointer) 0)
      else none
  transfer_sol p receiver (exact_with_fees amount) =
      let amt_to_transfer = wrapping_sub amount p.tx_fee_pointer in
      if ltb 0 amount
      then some (pays receiver amt_to_transfer (wrapping_add amt_to_transfer p.tx_fee_pointer) 0)
      else none
  transfer_sol p receiver max_but_leave_for_transfer =
      let amt_to_transfer =
        wrapping_sub (wrapping_sub p.sol_balance_pointer s.tx_fee) p.tx_fee_pointer in
      if ltb (wrapping_add s.tx_fee p.tx_fee_pointer) p.sol_balance_pointer
      then some
          (pays receiver amt_to_transfer (wrapping_add amt_to_transfer p.tx_fee_pointer) s.tx_fee)
      else none
  transfer_sol p receiver _ =
      some (pays receiver s.sol_balance (wrapping_sub p.sol_balance_pointer p.tx_fee_pointer) 0)

  -- The amount of a step that is paid in tokens.
  abbrev pub token_amount : Progress → Amount → ℕ
  token_amount p (exact amount) = amount
  token_amount p (exact_with_fees amount) = amount
  token_amount p _ = p.token_balance_pointer

  -- `is_account_exist` is asked, and the instruction added if it answers no.
  abbrev pub created : Pubkey → Pubkey → Pubkey → List Instruction
  created account owner mint =
      if is_account_exist account s.accounts
      then []
      else create_token_account s.fee_payer owner mint ∷ []

  abbrev pub creation_fee : Pubkey → ℕ
  creation_fee account =
      if is_account_exist account s.accounts then 0 else rent_exemption_threshold_sol

  unfoldable pub transfer_token : Progress → Pubkey → SolanaTransferActionPayload → Option Step
  transfer_token p token_pubkey t =
      let receiver_ata = s.owned_by t.receiver s.token_mint in
      let token_amt = token_amount p t.amount in
      let closing =
        if is_max_and_close t.amount
        then close_account sniper_token_ata s.fee_payer s.sniper_pubkey ∷ []
        else [] in
      if ltb 0 token_amt
      then some (record {
        step_ixs =
            created receiver_ata t.receiver token_pubkey
            ++ token_transfer sniper_token_ata receiver_ata s.sniper_pubkey token_amt ∷ closing;
        sol_cost = creation_fee receiver_ata;
        token_cost = token_amt;
        min_sol_to_keep_after = 0;
      })
      else none

  -- The source and the destination of a swap: the branches on a reversed pool are included.
  unfoldable pub user_keys : SolanaSwapActionPayload → UserKeys
  user_keys w =
      let wsol_first : UserKeys = record {
        user_source = sniper_wsol_ata;
        user_destination = sniper_token_ata;
        user_owner = s.sniper_pubkey;
      } in
      let token_first : UserKeys = record {
        user_source = sniper_token_ata;
        user_destination = sniper_wsol_ata;
        user_owner = s.sniper_pubkey;
      } in
      elim w.swap_method [
        | buy_tokens_for_exact_sol ↦
            if w.keys.base_mint == wsol_mint_pubkey then token_first else wsol_first
        | sell_exact_tokens_for_sol ↦
            if w.keys.base_mint == wsol_mint_pubkey then wsol_first else token_first
      ]

  -- What is left of the pointer above the lamports that are needed.
  abbrev above : Progress → ℕ → Built ℕ
  above p amt_needed =
      if ltb p.sol_balance_pointer amt_needed
      then bail (not_enough_sol_balance amt_needed p.sol_balance_pointer)
      else built (wrapping_sub p.sol_balance_pointer amt_needed)

  -- `swap_sol_amount_in`
  unfoldable pub buy_amount : Progress → Amount → Built ℕ
  buy_amount p (exact amount) = built amount
  buy_amount p (exact_with_fees amount) =
      let fees =
        wrapping_add (wrapping_add p.tx_fee_pointer (creation_fee sniper_token_ata))
          (creation_fee sniper_wsol_ata) in
      if ltb p.sol_balance_pointer amount
      then bail (not_enough_sol_balance amount p.sol_balance_pointer)
      else built (wrapping_sub amount fees)
  buy_amount p max = above p (
      wrapping_add (wrapping_add p.tx_fee_pointer (creation_fee sniper_token_ata))
        (creation_fee sniper_wsol_ata))
  buy_amount p max_but_leave_for_transfer = above p (
      wrapping_add
        (wrapping_add (wrapping_add p.tx_fee_pointer s.tx_fee) (creation_fee sniper_token_ata))
        (creation_fee sniper_wsol_ata))
  buy_amount p max_and_close = built p.sol_balance_pointer

  -- The swap between its wrapping and its unwrapping of SOL.
  abbrev pub swapping : SolanaSwapActionPayload → ℕ → ℕ → List Instruction
  swapping w amount_in min_amount_out =
      sync_native sniper_wsol_ata
      ∷ swap_fixed_in w.keys (user_keys w) amount_in min_amount_out
      ∷ close_account sniper_wsol_ata s.fee_payer s.sniper_pubkey
      ∷ []

  abbrev pub buy_of : SolanaSwapActionPayload → ℕ → Option Step
  buy_of w amount_in =
      if ltb 0 amount_in
      then some (record {
        step_ixs =
            created sniper_token_ata s.sniper_pubkey s.token_mint
            ++ created sniper_wsol_ata s.sniper_pubkey wsol_mint_pubkey
            ++ sol_transfer s.sniper_pubkey sniper_wsol_ata amount_in ∷ swapping w amount_in 0;
        sol_cost = wrapping_add amount_in (creation_fee sniper_token_ata);
        token_cost = 0;
        min_sol_to_keep_after = rent_exemption_threshold_sol;
      })
      else none

  unfoldable pub buy_step : Progress → SolanaSwapActionPayload → Built (Option Step)
  unfolding buy_amount user_keys
  buy_step p w = do amount_in ← buy_amount p w.amount_in; built (buy_of w amount_in)

  unfoldable pub sell_step : Progress → SolanaSwapActionPayload → Option Step
  unfolding user_keys
  sell_step p w =
      let amount_in = token_amount p w.amount_in in
      if ltb 0 amount_in
      then some (record {
        step_ixs =
            created sniper_wsol_ata s.sniper_pubkey wsol_mint_pubkey
            ++ swapping w amount_in w.min_amount_out;
        sol_cost = 0;
        token_cost = amount_in;
        min_sol_to_keep_after = 0;
      })
      else none

  unfoldable pub swap_step : Progress → SolanaSwapActionPayload → SwapMethod → Built (Option Step)
  unfolding buy_step sell_step
  swap_step p w buy_tokens_for_exact_sol = buy_step p w
  swap_step p w sell_exact_tokens_for_sol = built (sell_step p w)

  abbrev pub is_supported : SolanaSwapActionPayload → Bool
  is_supported w =
      not (w.keys.base_mint == wsol_mint_pubkey) && (w.keys.quote_mint == wsol_mint_pubkey)

  -- The `match step` of the loop.
  unfoldable pub step_of : Progress → SolanaActionPayload → Built (Option Step)
  unfolding transfer_sol transfer_token swap_step
  step_of p (transfer t) = elim t.asset [
    | sol ↦ built (transfer_sol p t.receiver t.amount)
    | token token_pubkey ↦ built (transfer_token p token_pubkey t)
  ]
  step_of p (swap w) =
      if is_supported w
      then swap_step p w w.swap_method
      else bail (unsupported_pool w.keys.base_mint w.keys.quote_mint)
