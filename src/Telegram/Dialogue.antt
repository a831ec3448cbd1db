-- ===== src/Telegram/Dialogue.antt =====
-- src/tg_bot/state.rs: the states of a user's dialogue and the moves between them.
use foxfire_sniper.Base.{ℕ, Bool, true, false, Option, none, some, if◌then◌else◌}
use foxfire_sniper.Telegram.Config.{VolumeStrategyConfigArgs, unset, update}

-- Of a message the dialogue reads its identifier.
pub record DialogueMessages : Type 0 where
  pub message_to_edit : ℕ
  pub message_to_delete : ℕ

abbrev pub InProgress : Type 0 → Type 0
InProgress F = Option (VolumeStrategyConfigArgs F)

pub data State (F : Type 0) : Type 0 where
  init : State F
  receive_strategy : InProgress F → State F
  receive_token_address receive_tranche_size_sol receive_tranche_frequency_hbs :
      InProgress F → DialogueMessages → State F
  receive_tranche_length_hbs receive_agents_buying_in_tranche :
      InProgress F → DialogueMessages → State F
  receive_agents_selling_in_tranche receive_button_agents_keep_tokens_lamports :
      InProgress F → DialogueMessages → State F
  strategy_selected : InProgress F → Option ℕ → State F

module _ {F : Type 0} where
  unfoldable pub get_strategy_in_progress_in_any : State F → InProgress F
  get_strategy_in_progress_in_any init = none
  get_strategy_in_progress_in_any (receive_strategy s) = s
  get_strategy_in_progress_in_any (receive_token_address s m) = s
  get_strategy_in_progress_in_any (receive_tranche_size_sol s m) = s
  get_strategy_in_progress_in_any (receive_tranche_frequency_hbs s m) = s
  get_strategy_in_progress_in_any (receive_tranche_length_hbs s m) = s
  get_strategy_in_progress_in_any (receive_agents_buying_in_tranche s m) = s
  get_strategy_in_progress_in_any (receive_agents_selling_in_tranche s m) = s
  get_strategy_in_progress_in_any (receive_button_agents_keep_tokens_lamports s m) = s
  get_strategy_in_progress_in_any (strategy_selected s id) = s

  abbrev main_menu_of : InProgress F → State F
  main_menu_of none = init
  main_menu_of (some s) = strategy_selected (some s) none

  unfoldable pub to_main_menu : State F → State F
  unfolding get_strategy_in_progress_in_any
  to_main_menu st = main_menu_of (get_strategy_in_progress_in_any st)

  unfoldable pub back : State F → State F
  unfolding to_main_menu
  back st = to_main_menu st

  unfoldable pub to_receive_token_address : DialogueMessages → State F → State F
  unfolding get_strategy_in_progress_in_any
  to_receive_token_address m st = receive_token_address (get_strategy_in_progress_in_any st) m

  unfoldable pub to_receive_tranche_size : DialogueMessages → State F → State F
  unfolding get_strategy_in_progress_in_any
  to_receive_tranche_size m st = receive_tranche_size_sol (get_strategy_in_progress_in_any st) m

  unfoldable pub to_receive_tranche_frequency_hbs : DialogueMessages → State F → State F
  unfolding get_strategy_in_progress_in_any
  to_receive_tranche_frequency_hbs m st =
      receive_tranche_frequency_hbs (get_strategy_in_progress_in_any st) m

  unfoldable pub to_receive_tranche_length_hbs : DialogueMessages → State F → State F
  unfolding get_strategy_in_progress_in_any
  to_receive_tranche_length_hbs m st =
      receive_tranche_length_hbs (get_strategy_in_progress_in_any st) m

  unfoldable pub to_receive_agents_buying_in_tranche : DialogueMessages → State F → State F
  unfolding get_strategy_in_progress_in_any
  to_receive_agents_buying_in_tranche m st =
      receive_agents_buying_in_tranche (get_strategy_in_progress_in_any st) m

  unfoldable pub to_receive_agents_selling_in_tranche : DialogueMessages → State F → State F
  unfolding get_strategy_in_progress_in_any
  to_receive_agents_selling_in_tranche m st =
      receive_agents_selling_in_tranche (get_strategy_in_progress_in_any st) m

  unfoldable pub to_receive_button_agents_keep_tokens_lamports :
      DialogueMessages → State F → State F
  unfolding get_strategy_in_progress_in_any
  to_receive_button_agents_keep_tokens_lamports m st =
      receive_button_agents_keep_tokens_lamports (get_strategy_in_progress_in_any st) m

  unfoldable pub to_receive_strategy : State F → State F
  unfolding get_strategy_in_progress_in_any
  to_receive_strategy st = receive_strategy (get_strategy_in_progress_in_any st)

  unfoldable pub get_strategy_in_progress : State F → VolumeStrategyConfigArgs F
  unfolding get_strategy_in_progress_in_any
  get_strategy_in_progress st = elim (get_strategy_in_progress_in_any st) [
    | none ↦ unset
    | some s ↦ s
  ]

  abbrev placed : VolumeStrategyConfigArgs F → State F → State F
  placed s (strategy_selected _ id) = strategy_selected (some s) id
  placed s _ = receive_strategy (some s)

  unfoldable pub update_configured_strategy : VolumeStrategyConfigArgs F → State F → State F
  unfolding get_strategy_in_progress update
  update_configured_strategy strategy_update st =
      placed (update (get_strategy_in_progress st) strategy_update) st

  unfoldable pub awaiting_text_input : State F → Bool
  awaiting_text_input init = false
  awaiting_text_input (receive_strategy s) = false
  awaiting_text_input (strategy_selected s id) = false
  awaiting_text_input _ = true

  abbrev cancelled : InProgress F → State F
  cancelled none = init
  cancelled (some s) = receive_strategy (some s)

  unfoldable pub cancel_text_input : State F → State F
  unfolding awaiting_text_input get_strategy_in_progress_in_any
  cancel_text_input st =
      if awaiting_text_input st then cancelled (get_strategy_in_progress_in_any st) else st

  unfoldable pub get_message_to_delete : State F → Option ℕ
  get_message_to_delete (receive_token_address s m) = some m.message_to_delete
  get_message_to_delete (receive_tranche_size_sol s m) = some m.message_to_delete
  get_message_to_delete (receive_tranche_frequency_hbs s m) = some m.message_to_delete
  get_message_to_delete (receive_tranche_length_hbs s m) = some m.message_to_delete
  get_message_to_delete (receive_agents_buying_in_tranche s m) = some m.message_to_delete
  get_message_to_delete (receive_agents_selling_in_tranche s m) = some m.message_to_delete
  get_message_to_delete (receive_button_agents_keep_tokens_lamports s m) = some m.message_to_delete
  get_message_to_delete _ = none
