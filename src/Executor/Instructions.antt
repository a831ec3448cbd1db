-- ===== src/Executor/Instructions.antt =====
-- The instructions that src/executors/build_instructions.rs asks the Solana libraries for, by the
-- call that makes each, and what one step of an action comes to.
use foxfire_sniper.Base.{ℕ, ◌+◌, ◌≡◌, refl, List, [], ◌∷◌, ◌==◌, if◌then◌else◌}
use foxfire_sniper.Types.{Pubkey, LiquidityPoolKeys, ExecutionError}

-- `UserKeys::new(source, destination, owner)`
pub record UserKeys : Type 0 where
  pub user_source : Pubkey
  pub user_destination : Pubkey
  pub user_owner : Pubkey

pub data Instruction : Type 0 where
  -- `system_instruction::transfer(from, to, lamports)`
  sol_transfer : Pubkey → Pubkey → ℕ → Instruction
  -- `create_associated_token_account(funding, owner, mint)`
  create_token_account : Pubkey → Pubkey → Pubkey → Instruction
  -- `spl_token::instruction::transfer(source, destination, authority, amount)`
  token_transfer : Pubkey → Pubkey → Pubkey → ℕ → Instruction
  -- `spl_token::instruction::close_account(account, destination, owner)`
  close_account : Pubkey → Pubkey → Pubkey → Instruction
  sync_native : Pubkey → Instruction
  -- `make_swap_fixed_in_instruction` of the keys, the amount in and the minimum amount out
  swap_fixed_in : LiquidityPoolKeys → UserKeys → ℕ → ℕ → Instruction
  set_compute_unit_limit : ℕ → Instruction
  set_compute_unit_price : ℕ → Instruction

-- The tuple that a step comes to.
pub record Step : Type 0 where
  pub step_ixs : List Instruction
  pub sol_cost : ℕ
  pub token_cost : ℕ
  pub min_sol_to_keep_after : ℕ

-- `Ok(_)`, and `bail!` with an `ExecutionError`.
pub data Built {ℓ} (A : Type ℓ) : Type ℓ where
  built : A → Built A
  bail : ExecutionError → Built A

infixl 5 ◌>>=◌
abbrev pub ◌>>=◌ {ℓ κ} : {A : Type ℓ} {B : Type κ} → Built A → (A → Built B) → Built B
built a >>= f = f a
bail e >>= f = bail e

pub Built-bind_inv {ℓ κ} :
    {A : Type ℓ} {B : Type κ} (m : Built A) (f : A → Built B) {b : B}
    → (m >>= f) ≡ built b
    → (a : A) × (m ≡ built a) × (f a ≡ built b)
Built-bind_inv (built a) f h = (a, refl, h)
Built-bind_inv (bail e) f h = cc

-- What one instruction takes out of a token account.
abbrev pub taken_from : Pubkey → Instruction → ℕ
taken_from account (token_transfer source _ _ amount) = if source == account then amount else 0
taken_from account (swap_fixed_in _ keys amount _) =
    if keys.user_source == account then amount else 0
taken_from account _ = 0

-- What a list of instructions takes out of a token account.
abbrev pub spent_from : Pubkey → List Instruction → ℕ
spent_from account [] = 0
spent_from account (ix ∷ ixs) = taken_from account ix + spent_from account ixs
