-- ===== src/Feed/Updates.antt =====
-- src/collectors/realtime_feed_events_collector.rs: an update of an account.
use foxfire_sniper.Base.{
  ℕ, ◌+◌, ◌-◌, ◌≡◌, not, ◌&&◌, Option, some, List, [], ◌∷◌, ltb, if◌then◌else◌, arith, ==_refl,
}
use foxfire_sniper.Types.{
  Pubkey, Signature, BotEvent, blockchain_event, account_update, deposit, withdrawal,
  balance_change_threshold_sol,
}
use foxfire_sniper.Accounts.{Account, Accounts, get_account, update_account}
use foxfire_sniper.Cache.Operational.{Signatures, if_agent_signature}

-- `AccountPretty`: the account and the transaction that wrote it.
pub record AccountPretty : Type 0 where
  pub pubkey : Pubkey
  pub account : Account
  pub txn_signature : Signature

-- `get_account(..).flatten().map(|a| a.lamports).unwrap_or(0)`
abbrev pub lamports_of : Option (Option Account) → ℕ
lamports_of (some (some a)) = a.lamports
lamports_of _ = 0

unfoldable pub prev_balance : Pubkey → Accounts → ℕ
unfolding get_account
prev_balance pk accounts = lamports_of (get_account pk accounts)

-- The event of a balance that went from `before` to `after`, if the change is above the threshold.
abbrev pub balance_event : {F : Type 0} → AccountPretty → ℕ → ℕ → List (BotEvent F)
balance_event acc before after =
    if ltb before after && ltb balance_change_threshold_sol (after - before)
    then blockchain_event (deposit acc.txn_signature acc.pubkey (after - before)) ∷ []
    else if ltb after before && ltb balance_change_threshold_sol (before - after)
    then blockchain_event (withdrawal acc.txn_signature acc.pubkey (before - after)) ∷ []
    else []

unfoldable pub parse_account :
    {F : Type 0} → AccountPretty → Signatures → Accounts → Accounts × List (BotEvent F)
unfolding update_account prev_balance
parse_account acc signatures accounts =
    let before = prev_balance acc.pubkey accounts in
    let events = balance_event acc before acc.account.lamports in
    (
      update_account acc.pubkey (some acc.account) accounts,
      blockchain_event (account_update acc.pubkey)
          ∷ (if if_agent_signature acc.txn_signature signatures then [] else events),
    )

-- What the events of a list report as paid in, and as paid out.
abbrev pub paid_in : {F : Type 0} → List (BotEvent F) → ℕ
paid_in [] = 0
paid_in (blockchain_event (deposit _ _ n) ∷ es) = n + paid_in es
paid_in (_ ∷ es) = paid_in es

abbrev pub paid_out : {F : Type 0} → List (BotEvent F) → ℕ
paid_out [] = 0
paid_out (blockchain_event (withdrawal _ _ n) ∷ es) = n + paid_out es
paid_out (_ ∷ es) = paid_out es

-- An update of an account is stored and accounted for: the balance that the next update is compared
-- with is the new one; of an update by a transaction of an agent no payment is reported; of any
-- other the change is reported, as paid in or as paid out, where it is above 1,000 lamports, and
-- otherwise nothing.
pub parse_account-balances :
    (F : Type 0) (acc : AccountPretty) (signatures : Signatures) (accounts : Accounts)
    → let (accounts', events) = parse_account {F = F} acc signatures accounts in
      let before = prev_balance acc.pubkey accounts in
      let after = acc.account.lamports in
      let ours = if_agent_signature acc.txn_signature signatures in
      (prev_balance acc.pubkey accounts' ≡ after)
      × (paid_in events ≡ (if not ours && ltb (before + 1000) after then after - before else 0))
      × (paid_out events ≡ (if not ours && ltb (after + 1000) before then before - after else 0))
unfolding parse_account prev_balance
parse_account-balances F acc signatures accounts = ground (arith, ==_refl acc.pubkey)
