-- ===== src/Types/Actions.antt =====
-- src/types/actions: what the executor is asked to do. Keys and identifiers are numbers.
use Prim.Native.Nat.{ℕ}
use mathlib.Core.Bool.{Bool, true, false}
use mathlib.Core.List.{List}

abbrev pub Pubkey : Type 0
Pubkey = ℕ

abbrev pub Uuid : Type 0
Uuid = ℕ

-- The text of a transaction signature, by an identifier.
abbrev pub Signature : Type 0
Signature = ℕ

pub data Amount : Type 0 where
  exact : ℕ → Amount
  exact_with_fees : ℕ → Amount
  max_but_leave_for_transfer : Amount
  max : Amount
  max_and_close : Amount

-- The derived `==` against `Amount::MaxAndClose`.
abbrev pub is_max_and_close : Amount → Bool
is_max_and_close max_and_close = true
is_max_and_close _ = false

pub data Asset : Type 0 where
  sol : Asset
  token : Pubkey → Asset

-- The derived `==` against `Asset::Sol`.
abbrev pub is_sol : Asset → Bool
is_sol sol = true
is_sol (token _) = false

pub record SolanaTransferActionPayload : Type 0 where
  pub asset : Asset
  pub receiver : Pubkey
  pub amount : Amount

pub data SwapMethod : Type 0 where
  buy_tokens_for_exact_sol sell_exact_tokens_for_sol : SwapMethod

-- Of the pool's keys the bot's own code reads the two mints.
pub record LiquidityPoolKeys : Type 0 where
  pub base_mint : Pubkey
  pub quote_mint : Pubkey

pub record SolanaSwapActionPayload : Type 0 where
  pub keys : LiquidityPoolKeys
  pub swap_method : SwapMethod
  pub amount_in : Amount
  pub min_amount_out : ℕ

pub data SolanaActionPayload : Type 0 where
  swap : SolanaSwapActionPayload → SolanaActionPayload
  transfer : SolanaTransferActionPayload → SolanaActionPayload

-- The part of an action that is fixed when it is made; a key pair stands for its public key.
pub record SolanaAction : Type 0 where
  pub uuid : Uuid
  pub sniper : Pubkey
  pub fee_payer : Pubkey
  pub created_at : ℕ
  pub action_payload : List SolanaActionPayload

-- `uuid` and `now` are what `Uuid::new_v4` and `Utc::now` answer.
module _ (uuid now : ℕ) where
  abbrev pub new_with_feepayer : Pubkey → Pubkey → List SolanaActionPayload → SolanaAction
  new_with_feepayer sniper fee_payer action_payload = record {
    uuid = uuid;
    sniper = sniper;
    fee_payer = fee_payer;
    created_at = now;
    action_payload = action_payload;
  }

  abbrev pub new_action : Pubkey → List SolanaActionPayload → SolanaAction
  new_action sniper action_payload = new_with_feepayer sniper sniper action_payload
