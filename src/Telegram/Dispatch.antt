-- ===== src/Telegram/Dispatch.antt =====
-- src/tg_bot/init.rs: which handler an update comes to, and the commands of
-- src/tg_bot/user_menu/top/endpoints.rs.
use foxfire_sniper.Base.{
  ℕ, Bool, false, ◌&&◌, Option, none, some, List, [], ◌∷◌, contains, if◌then◌else◌, Outcome, done,
  ◌>>=◌,
}
use foxfire_sniper.Sniper.Floats.{Floats}
use foxfire_sniper.Manager.Identifiers.{StrategyId}
use foxfire_sniper.Manager.Registry.{Manager, Host, sweeper_strategy, start_strategy}
use foxfire_sniper.Telegram.Input.{Reader}
use foxfire_sniper.Telegram.Dialogue.{State, to_main_menu}
use foxfire_sniper.Telegram.Dialogue as Dialogue
use foxfire_sniper.Telegram.Session.{
  Session, Env, Command, no_command, save, get_user_from_user_message, get_user_from_button_press,
}
use foxfire_sniper.Telegram.Session as Session
use foxfire_sniper.Telegram.Texts.{
  receive_token_address_handler, receive_tranche_size_sol_handler,
  receive_tranche_frequency_hbs_handler, receive_tranche_length_hbs_handler,
  receive_agents_buying_in_tranche_handler, receive_agents_selling_in_tranche_handler,
  receive_button_agents_keep_tokens_lamports_handler,
}
use foxfire_sniper.Telegram.Presses.{Button, select_strategy_handler, top_menu_callback_handler}

pub data Update : Type 0 where
  message : Update
  callback_query : Option Button → Update

-- A sweeper for each row; one that cannot be made ends the loop.
unfoldable pub sweep_each : Host → (StrategyId → Bool) → List StrategyId → Manager → Outcome Manager
unfolding start_strategy
sweep_each host sweeps [] m = done m
sweep_each host sweeps (id ∷ ids) m =
    if sweeps id
    then start_strategy host (sweeper_strategy id) m >>= (λ r. sweep_each host sweeps ids r.0)
    else done m

abbrev pub admin_of : ℕ → Option (List ℕ) → Bool
admin_of chat none = false
admin_of chat (some ids) = contains chat ids

module _ (fl : Floats) (reader : Reader fl) where
  open fl use {F}

  unfoldable pub start : Env fl → Session F → Session F
  unfolding get_user_from_user_message to_main_menu
  start env s =
      if get_user_from_user_message env.sender && env.creates_user && env.loads
      then save env (to_main_menu s.dialogue) s
      else s

  unfoldable pub collect : Env fl → Session F → Outcome (Session F)
  unfolding get_user_from_user_message sweep_each
  collect env s =
      if get_user_from_user_message env.sender && env.creates_user
      then sweep_each env.host env.sweeps env.swept s.manager
        >>= (λ m. done (record s { manager = m }))
      else done s

  abbrev pub is_whitelisted : Env fl → Bool
  is_whitelisted env = elim env.whitelisted_chat_ids [
    | none ↦ env.is_private
    | some ids ↦ contains env.chat_id ids
  ]

  abbrev pub is_admin : Env fl → Bool
  is_admin env = admin_of env.chat_id env.admin_chat_ids

  -- `command_handler`, and the handler by the state where it does not take the message.
  abbrev pub commanded : Env fl → Command → Session F → Session F → Outcome (Session F)
  commanded env Session.start s other = done (if is_whitelisted env then start env s else other)
  commanded env Session.collect s other = if is_admin env then collect env s else done other
  commanded env no_command s other = done other

  -- A text, by the state; `invalid_state` changes nothing.
  unfoldable pub on_text : Env fl → State F → Session F → Session F
  unfolding receive_token_address_handler receive_tranche_size_sol_handler
      receive_tranche_frequency_hbs_handler receive_tranche_length_hbs_handler
      receive_agents_buying_in_tranche_handler receive_agents_selling_in_tranche_handler
      receive_button_agents_keep_tokens_lamports_handler
  on_text env (Dialogue.receive_token_address _ _) s = receive_token_address_handler fl reader env s
  on_text env (Dialogue.receive_tranche_size_sol _ _) s =
      receive_tranche_size_sol_handler fl reader env s
  on_text env (Dialogue.receive_tranche_frequency_hbs _ _) s =
      receive_tranche_frequency_hbs_handler fl reader env s
  on_text env (Dialogue.receive_tranche_length_hbs _ _) s =
      receive_tranche_length_hbs_handler fl reader env s
  on_text env (Dialogue.receive_agents_buying_in_tranche _ _) s =
      receive_agents_buying_in_tranche_handler fl reader env s
  on_text env (Dialogue.receive_agents_selling_in_tranche _ _) s =
      receive_agents_selling_in_tranche_handler fl reader env s
  on_text env (Dialogue.receive_button_agents_keep_tokens_lamports _ _) s =
      receive_button_agents_keep_tokens_lamports_handler fl reader env s
  on_text env _ s = s

  -- A button, by the state: the strategy menu is open only in `ReceiveStrategy`.
  unfoldable pub on_button :
      Env fl → ℕ → Session.BotUser → Button → State F → Session F → Outcome (Session F)
  unfolding select_strategy_handler top_menu_callback_handler
  on_button env pressed user button (Dialogue.receive_strategy _) s =
      select_strategy_handler fl reader env pressed button s
  on_button env pressed user button _ s = top_menu_callback_handler fl reader env user button s

  abbrev pub pressed_by :
      Env fl → Option ℕ → Option Session.BotUser → Option Button → Session F → Outcome (Session F)
  pressed_by env (some pressed) (some user) (some button) s =
      if env.loads then on_button env pressed user button s.dialogue s else done s
  pressed_by env _ _ _ s = done s

  unfoldable pub handle : Env fl → Update → Session F → Outcome (Session F)
  unfolding start collect on_text on_button get_user_from_button_press
  handle env message s = commanded env env.command s (on_text env s.dialogue s)
  handle env (callback_query button) s =
      pressed_by env env.pressed (get_user_from_button_press env) button s
