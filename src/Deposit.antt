-- ===== src/Deposit.antt =====
-- src/strategies/deposit/strategy.rs: the bot's fee on deposits, and the deposits that
-- src/collectors/realtime_feed_events_collector.rs reports.
use foxfire_sniper.Base.{
  ℕ, ◌-◌, ◌+◌, ◌<◌, ◌≡◌, Bool, true, false, not, ◌&&◌, Option, none, some, List, [], ◌∷◌, ◌++◌,
  if◌then◌else◌, Outcome, done, panic, ◌>>=◌, unwrap, arith,
}
use foxfire_sniper.Types.{
  Pubkey, SolanaAction, BotEvent, blockchain_event, deposit, transfer, sol, exact, new_action,
}
use foxfire_sniper.Accounts.{Accounts}
use foxfire_sniper.Cache.Operational.{Signatures, if_agent_signature}
use foxfire_sniper.Orders.{Env}
use foxfire_sniper.Sniper.Floats.{Floats}
use foxfire_sniper.Feed.Updates.{AccountPretty, parse_account, prev_balance}

module _ (fl : Floats) where
  -- The settings, whose wallet may be a text that is no key, what the database says of a wallet (no
  -- user, or whether the user's key is valid), and whether there is a bot to notify with.
  pub record Engine : Type 0 where
    pub bot_wallet : Option (Option Pubkey)
    pub bot_fee : Option fl.F
    pub users : Pubkey → Option Bool
    pub has_bot : Bool

  abbrev pub answer_deposit :
      Engine → Env → Pubkey → ℕ → Option Pubkey → Option Bool → Outcome (List SolanaAction)
  answer_deposit engine env user_wallet amount bot_wallet none = done []
  answer_deposit engine env user_wallet amount bot_wallet (some key_valid) =
      let bot_fee : fl.F = elim engine.bot_fee [ none ↦ fl.lit 0 | some fee ↦ fee ] in
      if not (engine.has_bot && key_valid) then panic else do
        receiver ← unwrap bot_wallet
        done (
            new_action env.fresh env.now user_wallet (
              transfer (record {
                asset = sol;
                receiver = receiver;
                amount = exact (fl.to_u64 (fl.mul (fl.lit amount) bot_fee));
              })
              ∷ [])
            ∷ [])

  unfoldable pub process_event : Engine → Env → BotEvent fl.F → Outcome (List SolanaAction)
  process_event engine env (blockchain_event (deposit _ user_wallet amount)) =
      elim engine.bot_wallet [
        | none ↦ done []
        | some bot_wallet ↦
            if env.db_available
            then answer_deposit engine env user_wallet amount bot_wallet (engine.users user_wallet)
            else panic
      ]
  process_event engine env _ = done []

  -- The strategy takes the events of a list in turn.
  abbrev pub process_events : Engine → Env → List (BotEvent fl.F) → Outcome (List SolanaAction)
  unfolding process_event
  process_events engine env [] = done []
  process_events engine env (event ∷ events) = do
    actions ← process_event engine env event
    more ← process_events engine env events
    done (actions ++ more)

  -- The action on a deposit.
  abbrev pub fee_action : Engine → Env → Pubkey → ℕ → Pubkey → fl.F → SolanaAction
  fee_action engine env user_wallet amount receiver fee = new_action env.fresh env.now user_wallet (
      transfer (record {
        asset = sol;
        receiver = receiver;
        amount = exact (fl.to_u64 (fl.mul (fl.lit amount) fee));
      })
      ∷ [])

  -- The transactions of the bot's own agents are not charged: an update of an account by a
  -- transaction that is registered leads to no action, whatever the balances are.
  pub process_events-uncharged :
      (engine : Engine) (env : Env) (acc : AccountPretty) (signatures : Signatures)
      (accounts : Accounts)
      → if_agent_signature acc.txn_signature signatures ≡ true
      → process_events engine env (parse_account acc signatures accounts).1 ≡ done []
  unfolding process_events process_event parse_account
  process_events-uncharged engine env acc signatures accounts ours = ground (arith, ours)

  -- A deposit is charged once: where an update that no transaction of the bot made raises the balance
  -- of a user with a valid key by more than 1,000 lamports, a wallet and a fee of the bot are set and
  -- the database connects, the strategy returns exactly one action, that pays the fee's share of the
  -- rise from the user's wallet to the bot's.
  pub process_events-charged :
      (engine : Engine) (env : Env) (acc : AccountPretty) (signatures : Signatures)
      (accounts : Accounts) (receiver : Pubkey) (fee : fl.F)
      → if_agent_signature acc.txn_signature signatures ≡ false
      → prev_balance acc.pubkey accounts + 1000 < acc.account.lamports
      → engine.bot_wallet ≡ some (some receiver)
      → engine.bot_fee ≡ some fee
      → engine.users acc.pubkey ≡ some true
      → engine.has_bot ≡ true
      → env.db_available ≡ true
      → process_events engine env (parse_account acc signatures accounts).1
        ≡ done (
            fee_action engine env acc.pubkey
              (acc.account.lamports - prev_balance acc.pubkey accounts)
              receiver
              fee
            ∷ [])
  unfolding process_events process_event parse_account
  process_events-charged engine env acc signatures accounts receiver fee foreign above wallet share
        user bot connected =
      ground (arith, foreign, above, wallet, share, user, bot, connected)
