-- ===== src/Telegram/Presses.antt =====
-- The buttons: src/tg_bot/user_menu/strategies/handler.rs and src/tg_bot/user_menu/top/handler.rs.
use foxfire_sniper.Base.{
  ℕ, ◌==◌, ltb, Option, none, some, List, [], ◌∷◌, if◌then◌else◌, Outcome, done, panic, ◌>>=◌,
}
use foxfire_sniper.Base.Results.{Result, ok, err}
use foxfire_sniper.Types.{ℤ, pos, negsuc}
use foxfire_sniper.Sniper.Floats.{Floats}
use foxfire_sniper.Manager.Identifiers.{StrategyId}
use foxfire_sniper.Manager.Registry.{
  Strategies, Manager, Reply, Host, volume_strategy, start_strategy, drop_strategy,
  get_active_strategies,
}
use foxfire_sniper.Telegram.Input.{Reader}
use foxfire_sniper.Telegram.Config.{
  VolumeStrategyConfigArgs, VolumeStrategyInstance, ConfigError, try_from,
}
use foxfire_sniper.Telegram.Dialogue.{
  State, DialogueMessages, get_strategy_in_progress, get_strategy_in_progress_in_any, to_main_menu,
  back, cancel_text_input, get_message_to_delete, update_configured_strategy, to_receive_strategy,
  to_receive_token_address, to_receive_tranche_size, to_receive_tranche_frequency_hbs,
  to_receive_tranche_length_hbs, to_receive_agents_buying_in_tranche,
  to_receive_agents_selling_in_tranche, to_receive_button_agents_keep_tokens_lamports,
}
use foxfire_sniper.Telegram.Session.{Session, Env, BotUser, save}
use foxfire_sniper.Telegram.Texts.{minimum_sol_needed}

pub data Button : Type 0 where
  info target_pool tranche_size_sol tranche_frequency_hbs tranche_duration : Button
  agents_buying agents_selling agents_keep_tokens start_button back_to_main_menu : Button
  cancel stop_strategies configure_strategy other_button : Button

-- The greater of two i32.
unfoldable pub max_i32 : ℤ → ℤ → ℤ
max_i32 (pos a) (pos b) = if ltb a b then pos b else pos a
max_i32 (pos a) (negsuc b) = pos a
max_i32 (negsuc a) (pos b) = pos b
max_i32 (negsuc a) (negsuc b) = if ltb a b then negsuc a else negsuc b

abbrev pub unwrap_or {ℓ} : {A : Type ℓ} → Option A → A → A
unwrap_or none d = d
unwrap_or (some a) d = a

-- The active volume strategies of a user.
unfoldable pub user_strategies : (StrategyId → Option ℕ) → ℕ → Strategies → List StrategyId
user_strategies owner user [] = []
user_strategies owner user ((_, volume_strategy id _) ∷ m) =
    let rest = user_strategies owner user m in
    elim (owner id) [ none ↦ rest | some u ↦ if u == user then id ∷ rest else rest ]
user_strategies owner user (_ ∷ m) = user_strategies owner user m

-- The first error ends the loop.
unfoldable pub drop_each : Host → List StrategyId → Manager → Manager
unfolding drop_strategy
drop_each host [] m = m
drop_each host (id ∷ ids) m =
    let (m', reply) = drop_strategy host id m in
    elim reply [ Reply.ok _ ↦ drop_each host ids m' | Reply.err ↦ m' ]

module _ (fl : Floats) (reader : Reader fl) where
  open fl use {F}

  -- A text is asked for, and the dialogue waits for it.
  abbrev pub asked_by :
      Env fl → ℕ → (DialogueMessages → State F → State F) → Session F → Option ℕ → Session F
  asked_by env message next s none = s
  asked_by env message next s (some id) =
      save env (next (record { message_to_edit = message; message_to_delete = id }) s.dialogue) s

  unfoldable pub ask : Env fl → ℕ → (DialogueMessages → State F → State F) → Session F → Session F
  ask env message next s = asked_by env message next s env.asked

  abbrev pub launched :
      Env fl → VolumeStrategyInstance F → Session F → Manager × Reply StrategyId → Session F
  launched env instance_of s (m, Reply.ok _) =
      save env (to_main_menu s.dialogue)
        (record s { manager = m; launched = instance_of ∷ s.launched })
  launched env instance_of s (m, Reply.err) = record s { manager = m }

  unfoldable pub launch :
      Env fl → Result ConfigError (VolumeStrategyInstance F) → Session F → Outcome (Session F)
  unfolding start_strategy
  launch env (err e) s = done s
  launch env (ok instance_of) s =
      if env.constructs
      then start_strategy env.host (volume_strategy 0 none) s.manager
        >>= (λ result. done (launched env instance_of s result))
      else done s

  -- What a strategy needs of the balance and of the size of a tranche.
  unfoldable pub min_deposit : Env fl → VolumeStrategyConfigArgs F → F
  min_deposit env c = reader.max env.minimum_deposit_sol (unwrap_or c.tranche_size_sol (fl.lit 0))

  unfoldable pub sol_for_agents : VolumeStrategyConfigArgs F → F
  unfolding minimum_sol_needed max_i32
  sol_for_agents c = fl.mul (minimum_sol_needed fl reader) (
      reader.from_i32 (
        max_i32 (unwrap_or c.agents_buying_in_tranche (pos 1))
          (unwrap_or c.agents_selling_in_tranche (pos 1))))

  abbrev pub start_with :
      Env fl → VolumeStrategyConfigArgs F → Option F → Session F → Outcome (Session F)
  start_with env c none s = done s
  start_with env c (some balance) s =
      if fl.lt balance (min_deposit env c)
      then done s
      else if fl.lt (unwrap_or c.tranche_size_sol (fl.lit 0)) (sol_for_agents c)
      then done s
      else launch env (try_from fl reader c) s

  unfoldable pub start : Env fl → Session F → Outcome (Session F)
  unfolding get_strategy_in_progress min_deposit sol_for_agents try_from launch
  start env s = start_with env (get_strategy_in_progress s.dialogue) env.balance s

  -- The message that asked for a text is deleted first, where there is one.
  abbrev pub left_by : Env fl → (State F → State F) → Session F → Option ℕ → Session F
  left_by env next s none = save env (next s.dialogue) s
  left_by env next s (some id) = if env.deletes then save env (next s.dialogue) s else s

  unfoldable pub leave : Env fl → (State F → State F) → Session F → Session F
  unfolding get_message_to_delete
  leave env next s = left_by env next s (get_message_to_delete s.dialogue)

  unfoldable pub select_strategy_handler : Env fl → ℕ → Button → Session F → Outcome (Session F)
  unfolding ask start leave
  select_strategy_handler env message target_pool s =
      done (ask env message to_receive_token_address s)
  select_strategy_handler env message tranche_size_sol s =
      done (ask env message to_receive_tranche_size s)
  select_strategy_handler env message tranche_frequency_hbs s =
      done (ask env message to_receive_tranche_frequency_hbs s)
  select_strategy_handler env message tranche_duration s =
      done (ask env message to_receive_tranche_length_hbs s)
  select_strategy_handler env message agents_buying s =
      done (ask env message to_receive_agents_buying_in_tranche s)
  select_strategy_handler env message agents_selling s =
      done (ask env message to_receive_agents_selling_in_tranche s)
  select_strategy_handler env message agents_keep_tokens s =
      done (ask env message to_receive_button_agents_keep_tokens_lamports s)
  select_strategy_handler env message start_button s = start env s
  select_strategy_handler env message back_to_main_menu s = done (leave env back s)
  select_strategy_handler env message _ s = done s

  abbrev pub settled : Env fl → State F → Session F → Session F
  settled env st s = if env.renders then save env st s else s

  -- The settings of the file are taken where there are none in progress.
  abbrev pub configured :
      Env fl
      → BotUser
      → State F
      → Session F
      → Option (VolumeStrategyConfigArgs F)
      → Option (VolumeStrategyConfigArgs F)
      → Outcome (Session F)
  configured env user st s (some _) _ = done (settled env st s)
  configured env user st s none none = panic
  configured env user st s none (some c) =
      done (settled env (update_configured_strategy (record c { user_id = some user.id }) st) s)

  unfoldable pub configure : Env fl → BotUser → Session F → Outcome (Session F)
  unfolding to_receive_strategy get_strategy_in_progress_in_any
  configure env user s =
      let st = to_receive_strategy s.dialogue in
      configured env user st s (get_strategy_in_progress_in_any st) env.volume_config

  unfoldable pub stop : Env fl → BotUser → Session F → Session F
  unfolding drop_each user_strategies get_active_strategies
  stop env user s = record s {
    manager =
        drop_each env.host (user_strategies env.owner user.id (get_active_strategies s.manager))
          s.manager;
  }

  unfoldable pub top_menu_callback_handler :
      Env fl → BotUser → Button → Session F → Outcome (Session F)
  unfolding leave configure stop
  top_menu_callback_handler env user cancel s = done (leave env cancel_text_input s)
  top_menu_callback_handler env user back_to_main_menu s = done (leave env to_main_menu s)
  top_menu_callback_handler env user stop_strategies s = done (stop env user s)
  top_menu_callback_handler env user configure_strategy s = configure env user s
  top_menu_callback_handler env user _ s = done s
