-- ===== src/Telegram/Updates.antt =====
-- Every update of src/tg_bot/init.rs evolves the session as Evolution says.
use foxfire_sniper.Base.{
  ℕ, ◌≡◌, inl, refl, subst, Option, some, ◌&&◌, if-elim, done, Ensures, Ensures-bind,
}
use foxfire_sniper.Sniper.Floats.{Floats}
use foxfire_sniper.Telegram.Input.{Reader}
use foxfire_sniper.Telegram.Dialogue as Dialogue
use foxfire_sniper.Telegram.Dialogue.{
  State, get_strategy_in_progress_in_any, to_main_menu, back, cancel_text_input,
  get_message_to_delete, to_receive_token_address, to_receive_tranche_size,
  to_receive_tranche_frequency_hbs, to_receive_tranche_length_hbs,
  to_receive_agents_buying_in_tranche, to_receive_agents_selling_in_tranche,
  to_receive_button_agents_keep_tokens_lamports,
}
use foxfire_sniper.Telegram.Session as Session
use foxfire_sniper.Telegram.Session.{
  Session, Env, BotUser, Command, no_command, get_user_from_user_message,
  get_user_from_button_press,
}
use foxfire_sniper.Telegram.Presses.{
  Button, ask, leave, stop, select_strategy_handler, top_menu_callback_handler, cancel,
  back_to_main_menu, stop_strategies, configure_strategy, start_button, tranche_size_sol,
  target_pool, tranche_frequency_hbs, tranche_duration, agents_buying, agents_selling,
  agents_keep_tokens,
}
use foxfire_sniper.Telegram.Dispatch.{
  Update, message, callback_query, sweep_each, start, collect, is_whitelisted, is_admin, commanded,
  on_text, on_button, pressed_by, handle,
}
use foxfire_sniper.Telegram.Moves.{in_any-to_main_menu, in_any-cancel_text_input}
use foxfire_sniper.Telegram.Evolution.{same, Evolves, Evolves-refl, save-Evolves}
use foxfire_sniper.Telegram.Steps.{
  on_text-Evolves, asked_by-Evolves, left_by-Evolves, start-Evolves, configure-Evolves,
}

module _ (fl : Floats) (reader : Reader fl) where
  open fl use {F}

  select-Evolves :
      (env : Env fl) (m : ℕ) (button : Button) (s : Session F)
      → Ensures (Evolves fl reader env s) (select_strategy_handler fl reader env m button s)
  unfolding select_strategy_handler ask leave back to_receive_token_address to_receive_tranche_size
      to_receive_tranche_frequency_hbs to_receive_tranche_length_hbs
      to_receive_agents_buying_in_tranche to_receive_agents_selling_in_tranche
      to_receive_button_agents_keep_tokens_lamports
  select-Evolves env m target_pool s =
      asked_by-Evolves fl reader env m to_receive_token_address s env.asked (λ d st. refl)
  select-Evolves env m tranche_size_sol s =
      asked_by-Evolves fl reader env m to_receive_tranche_size s env.asked (λ d st. refl)
  select-Evolves env m tranche_frequency_hbs s =
      asked_by-Evolves fl reader env m to_receive_tranche_frequency_hbs s env.asked (λ d st. refl)
  select-Evolves env m tranche_duration s =
      asked_by-Evolves fl reader env m to_receive_tranche_length_hbs s env.asked (λ d st. refl)
  select-Evolves env m agents_buying s =
      asked_by-Evolves fl reader env m to_receive_agents_buying_in_tranche s env.asked
        (λ d st. refl)
  select-Evolves env m agents_selling s =
      asked_by-Evolves fl reader env m to_receive_agents_selling_in_tranche s env.asked
        (λ d st. refl)
  select-Evolves env m agents_keep_tokens s =
      asked_by-Evolves fl reader env m to_receive_button_agents_keep_tokens_lamports s env.asked
        (λ d st. refl)
  select-Evolves env m start_button s = start-Evolves fl reader env s
  select-Evolves env m back_to_main_menu s =
      left_by-Evolves fl reader env back s (get_message_to_delete s.dialogue) in_any-to_main_menu
  select-Evolves env m _ s = Evolves-refl fl reader env s

  top_menu-Evolves :
      (env : Env fl) (user : BotUser) (button : Button) (s : Session F)
      → get_user_from_button_press env ≡ some user
      → Ensures (Evolves fl reader env s) (top_menu_callback_handler fl reader env user button s)
  unfolding top_menu_callback_handler leave stop
  top_menu-Evolves env user cancel s g =
      left_by-Evolves fl reader env cancel_text_input s (get_message_to_delete s.dialogue)
        in_any-cancel_text_input
  top_menu-Evolves env user back_to_main_menu s g =
      left_by-Evolves fl reader env to_main_menu s (get_message_to_delete s.dialogue)
        in_any-to_main_menu
  top_menu-Evolves env user stop_strategies s g = record {
    settings = same refl;
    launches = inl refl;
  }
  top_menu-Evolves env user configure_strategy s g = configure-Evolves fl reader env user s g
  top_menu-Evolves env user _ s g = Evolves-refl fl reader env s

  on_button-Evolves :
      (env : Env fl) (m : ℕ) (user : BotUser) (button : Button) (st : State F) (s : Session F)
      → get_user_from_button_press env ≡ some user
      → Ensures (Evolves fl reader env s) (on_button fl reader env m user button st s)
  unfolding on_button
  on_button-Evolves env m user button (Dialogue.receive_strategy _) s g =
      select-Evolves env m button s
  on_button-Evolves env m user button _ s g = top_menu-Evolves env user button s g

  pressed_by-Evolves :
      (env : Env fl) (pressed : Option ℕ) (user : Option BotUser) (button : Option Button)
      (s : Session F)
      → get_user_from_button_press env ≡ user
      → Ensures (Evolves fl reader env s) (pressed_by fl reader env pressed user button s)
  pressed_by-Evolves env (some m) (some user) (some button) s g =
      if-elim (Ensures (Evolves fl reader env s)) env.loads
        (on_button-Evolves env m user button s.dialogue s g) (Evolves-refl fl reader env s)
  pressed_by-Evolves env _ _ _ s g = Evolves-refl fl reader env s

  start_command-Evolves :
      (env : Env fl) (s : Session F) → Evolves fl reader env s (start fl reader env s)
  unfolding start
  start_command-Evolves env s =
      if-elim (Evolves fl reader env s)
        (get_user_from_user_message env.sender && env.creates_user && env.loads)
        (save-Evolves fl reader env (to_main_menu s.dialogue) s
          (same (in_any-to_main_menu s.dialogue)))
        (Evolves-refl fl reader env s)

  collect-Evolves :
      (env : Env fl) (s : Session F) → Ensures (Evolves fl reader env s) (collect fl reader env s)
  unfolding collect
  collect-Evolves env s =
      if-elim (Ensures (Evolves fl reader env s))
        (get_user_from_user_message env.sender && env.creates_user)
        (Ensures-bind (Evolves fl reader env s) (sweep_each env.host env.sweeps env.swept s.manager)
          _ (λ m e. record { settings = same refl; launches = inl refl }))
        (Evolves-refl fl reader env s)

  commanded-Evolves :
      (env : Env fl) (command : Command) (s other : Session F)
      → Evolves fl reader env s other
      → Ensures (Evolves fl reader env s) (commanded fl reader env command s other)
  commanded-Evolves env Session.start s other e =
      if-elim (Evolves fl reader env s) (is_whitelisted fl reader env) (start_command-Evolves env s)
        e
  commanded-Evolves env Session.collect s other e =
      if-elim (Ensures (Evolves fl reader env s)) (is_admin fl reader env) (collect-Evolves env s) e
  commanded-Evolves env no_command s other e = e

  handled :
      (env : Env fl) (u : Update) (s : Session F)
      → Ensures (Evolves fl reader env s) (handle fl reader env u s)
  unfolding handle
  handled env message s =
      commanded-Evolves env env.command s (on_text fl reader env s.dialogue s)
        (on_text-Evolves fl reader env s.dialogue s refl)
  handled env (callback_query button) s =
      pressed_by-Evolves env env.pressed (get_user_from_button_press env) button s refl

  -- Whatever update comes and whatever the services answer, where the handlers do not panic: the
  -- settings in progress stay as they are; or take the text of the message in the one field that the
  -- dialogue asks for, where it passes that field's check; or are, where there were none, those of the
  -- file with the identifier of the user who pressed the button; and either nothing is handed to the strategy manager, or one
  -- instance that is made of the settings in progress, for which the balance and the size suffice.
  pub handle-Evolves :
      (env : Env fl) (u : Update) (s s' : Session F)
      → handle fl reader env u s ≡ done s'
      → Evolves fl reader env s s'
  handle-Evolves env u s s' h = subst (Ensures (Evolves fl reader env s)) h (handled env u s)
