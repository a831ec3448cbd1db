-- ===== src/Accounts/Reads.antt =====
-- What the balance queries of src/solana/generic_api.rs leave in the account table.
use foxfire_sniper.Base.{ℕ, ◌≡◌, ◌≢◌, refl, true, false, Option, find-erase_key, ==_refl, arith}
use foxfire_sniper.Types.{Pubkey}
use foxfire_sniper.Accounts.{
  Accounts, RpcAnswer, ok, get_account, get_balance, is_account_exist, stop_monitoring_account,
  read, query, Account,
}

read_cached :
    (amount : Account → ℕ) (cached : Option (Option Account)) (pk : Pubkey)
    (answer later : RpcAnswer) (a : Accounts) (n : ℕ)
    → get_account pk a ≡ cached
    → (read amount cached pk answer a).1 ≡ ok n
    → let a' = (read amount cached pk answer a).0 in
      (read amount (get_account pk a') pk later a' ≡ (a', ok n)) × (is_account_exist pk a' ≡ true)
unfolding read query is_account_exist get_account
read_cached amount cached pk answer later a n e h = ground (arith, ==_refl pk)

-- A SOL balance that a query returned is served from the table from then on: a later query, whatever
-- the node would answer then, returns the same balance and leaves the table as it is, and the
-- account counts as existing.
pub get_balance_cached :
    (rpc later : Pubkey → RpcAnswer) (pk : Pubkey) (a : Accounts) (n : ℕ)
    → (get_balance rpc pk a).1 ≡ ok n
    → let a' = (get_balance rpc pk a).0 in
      (get_balance later pk a' ≡ (a', ok n)) × (is_account_exist pk a' ≡ true)
unfolding get_balance
get_balance_cached rpc later pk a n h =
    read_cached (λ acc. acc.lamports) (get_account pk a) pk (rpc pk) (later pk) a n refl h

-- Once its monitoring stops, an account counts as not existing, and every other account is as
-- before.
pub stop_monitoring_account_lem :
    (pk other : Pubkey) (a : Accounts)
    → pk ≢ other
    → (is_account_exist pk (stop_monitoring_account pk a) ≡ false)
      × (get_account other (stop_monitoring_account pk a) ≡ get_account other a)
unfolding stop_monitoring_account is_account_exist get_account
stop_monitoring_account_lem pk other a ne =
    (ground (arith, find-erase_key pk pk a), ground (arith, find-erase_key other pk a))
