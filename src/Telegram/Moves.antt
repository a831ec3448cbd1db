-- ===== src/Telegram/Moves.antt =====
-- The settings in progress through the moves of src/tg_bot/state.rs.
use foxfire_sniper.Base.{◌≡◌, refl, none, some, arith}
use foxfire_sniper.Telegram.Config.{VolumeStrategyConfigArgs, unset, update}
use foxfire_sniper.Telegram.Dialogue.{
  State, InProgress, init, get_strategy_in_progress_in_any, update_configured_strategy,
  to_main_menu, cancel_text_input,
}

module _ {F : Type 0} where
  abbrev pub or_unset : InProgress F → VolumeStrategyConfigArgs F
  or_unset none = unset
  or_unset (some c) = c

  pub in_any-update :
      (u : VolumeStrategyConfigArgs F) (st : State F)
      → get_strategy_in_progress_in_any (update_configured_strategy u st)
        ≡ some (update (or_unset (get_strategy_in_progress_in_any st)) u)
  unfolding update_configured_strategy
  in_any-update u init = refl
  in_any-update u _ = ground arith

  pub in_any-to_main_menu :
      (st : State F)
      → get_strategy_in_progress_in_any (to_main_menu st) ≡ get_strategy_in_progress_in_any st
  unfolding to_main_menu
  in_any-to_main_menu init = refl
  in_any-to_main_menu _ = ground arith

  pub in_any-cancel_text_input :
      (st : State F)
      → get_strategy_in_progress_in_any (cancel_text_input st) ≡ get_strategy_in_progress_in_any st
  unfolding cancel_text_input
  in_any-cancel_text_input init = refl
  in_any-cancel_text_input _ = ground arith
