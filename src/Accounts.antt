-- ===== src/Accounts.antt =====
-- src/solana/generic_api.rs over the account table of src/config/cache.rs. A key that is absent is
-- not monitored; one with `none` is monitored and has no data so far.
pub mod Reads
use foxfire_sniper.Base.{
  ℕ, Bool, true, false, Option, none, some, List, ◌∷◌, find, erase_key, put_key,
}
use foxfire_sniper.Types.{Pubkey}

-- `AccountPretty`: the balance, and the amount of the unpacked token data, if it unpacks.
pub record Account : Type 0 where
  pub lamports : ℕ
  pub token_amount : Option ℕ

abbrev pub Accounts : Type 0
Accounts = List (Pubkey × Option Account)

pub data RpcAnswer : Type 0 where
  found : Account → RpcAnswer
  not_found : RpcAnswer
  failed : RpcAnswer

pub data AccountError : Type 0 where
  account_not_found other_error : AccountError

pub data Balance : Type 0 where
  ok : ℕ → Balance
  err : AccountError → Balance

abbrev pub unwrap_or_zero : Balance → ℕ
unwrap_or_zero (ok n) = n
unwrap_or_zero (err _) = 0

unfoldable pub get_account : Pubkey → Accounts → Option (Option Account)
get_account acc accounts = find acc accounts

unfoldable pub monitor_with_geyser : Pubkey → Accounts → Accounts
monitor_with_geyser acc accounts = put_key acc none accounts

unfoldable pub update_account : Pubkey → Option Account → Accounts → Accounts
update_account acc account accounts = put_key acc account accounts

unfoldable pub drop_account_monitoring : Pubkey → Accounts → Accounts
drop_account_monitoring acc accounts = erase_key acc accounts

abbrev token_amount_or_zero : Account → ℕ
token_amount_or_zero a = elim a.token_amount [ none ↦ 0 | some n ↦ n ]

-- The two closures that ask the node: `amount` reads the answer.
query : (Account → ℕ) → Pubkey → RpcAnswer → Accounts → Accounts × Balance
unfolding update_account monitor_with_geyser
query amount pubkey (found acc) accounts =
    (update_account pubkey (some acc) accounts, ok (amount acc))
query amount pubkey not_found accounts =
    (monitor_with_geyser pubkey accounts, err account_not_found)
query amount pubkey failed accounts = (accounts, err other_error)

read : (Account → ℕ) → Option (Option Account) → Pubkey → RpcAnswer → Accounts → Accounts × Balance
unfolding query
read amount (some (some acc)) pubkey answer accounts = (accounts, ok (amount acc))
read amount (some none) pubkey answer accounts = query amount pubkey answer accounts
read amount none pubkey answer accounts = query amount pubkey answer accounts

-- `rpc` is what the node answers for an account.
module _ (rpc : Pubkey → RpcAnswer) where
  unfoldable pub get_balance : Pubkey → Accounts → Accounts × Balance
  unfolding read get_account
  get_balance pubkey accounts =
      read (λ a. a.lamports) (get_account pubkey accounts) pubkey (rpc pubkey) accounts

  -- `ata` is the associated token account of the wallet and the mint.
  unfoldable pub get_token_balance : Pubkey → Accounts → Accounts × Balance
  unfolding read get_account
  get_token_balance ata accounts =
      read token_amount_or_zero (get_account ata accounts) ata (rpc ata) accounts

exists : Option (Option Account) → Bool
exists (some (some acc)) = true
exists (some none) = false
exists none = false

unfoldable pub is_account_exist : Pubkey → Accounts → Bool
unfolding exists get_account
is_account_exist pubkey accounts = exists (get_account pubkey accounts)

unfoldable pub stop_monitoring_account : Pubkey → Accounts → Accounts
unfolding drop_account_monitoring
stop_monitoring_account pubkey accounts = drop_account_monitoring pubkey accounts
