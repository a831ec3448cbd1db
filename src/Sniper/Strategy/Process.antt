-- ===== src/Sniper/Strategy/Process.antt =====
-- `process_event` of src/strategies/sniper_strategy/strategy.rs. The machine is always in `running`,
-- whose handler makes no transition; what its tasks do comes between the events.
use foxfire_sniper.Base.{Bool, true, false, List, [], if◌then◌else◌, Outcome, done, ◌>>=◌}
use foxfire_sniper.Types.{
  SolanaAction, BotEvent, heart_beat, blockchain_event, raydium_new_pool_event,
}
use foxfire_sniper.Sniper.Floats.{Floats}
use foxfire_sniper.Sniper.Strategy.{SniperStrategy, Mint, on_new_pool}

unfoldable pub forwards : {F : Type 0} → BotEvent F → Bool
forwards (heart_beat _) = true
forwards (blockchain_event _) = true
forwards _ = false

module _ (fl : Floats) where
  open fl use {F}

  -- `running`; the mint is what the node says of the token where the event is a new pool.
  unfoldable pub respond : Mint → BotEvent F → SniperStrategy F → Outcome (SniperStrategy F)
  respond m (blockchain_event (raydium_new_pool_event pool price)) st =
      on_new_pool fl m pool price st
  respond m _ st = done st

  unfoldable pub take_actions : SniperStrategy F → SniperStrategy F × List SolanaAction
  take_actions st =
      (record st { shared = record (st.shared) { generated = [] } }, st.shared.generated)

  unfoldable pub process_event :
      Mint → BotEvent F → SniperStrategy F → Outcome (SniperStrategy F × List SolanaAction)
  unfolding respond take_actions
  process_event m event st = do
    st' ← (if forwards event then respond m event st else done st)
    done (take_actions st')
