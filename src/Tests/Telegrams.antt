-- ===== src/Tests/Telegrams.antt =====
-- Runs of src/tg_bot: a user starts a volume strategy.
use foxfire_sniper.Base.{
  ℕ, ◌≡◌, ◌↔◌, ◌⊎◌, refl, true, false, none, some, [], ◌∷◌, ltb, leb, if◌then◌else◌, ◌==◌, Outcome,
  done, panic,
}
use foxfire_sniper.Types.{ℤ, pos, negsuc}
use foxfire_sniper.Tests.Snipes.{whole}
use foxfire_sniper.Tests.Managers.{host, manager}
use foxfire_sniper.Telegram.Input.{Reader, unsigned}
use foxfire_sniper.Telegram.Config.{
  VolumeStrategyConfigArgs, VolumeStrategyInstance, not_a_pubkey, is_none, user_id_field,
  agents_keep_field, is_ready, missing_fields, try_from,
}
use foxfire_sniper.Telegram.Dialogue.{
  receive_strategy, get_strategy_in_progress, get_strategy_in_progress_in_any,
}
use foxfire_sniper.Telegram.Session.{Session, Env, BotUser, no_command}
use foxfire_sniper.Telegram.Presses.{start_button}
use foxfire_sniper.Telegram.Dispatch.{callback_query, handle}
use foxfire_sniper.Telegram.Making.{is_ready-missing_fields}
use foxfire_sniper.Telegram.Evolution.{Evolves}
use foxfire_sniper.Telegram.Updates.{handle-Evolves}
use foxfire_sniper.Telegram.Soundness.{IsSound}
use foxfire_sniper.Telegram.Runs.{IsSafe, run, run-IsSafe, run-is_ready}
use foxfire_sniper.Telegram.Access.{Keeps, MayManage, handle-guarded}

abbrev of_i32 : ℤ → ℕ
of_i32 (pos n) = n
of_i32 (negsuc n) = 0

-- Whole amounts, and addresses that are numbers.
abbrev reader : Reader whole
reader = record {
  parse_f64 = unsigned;
  le = leb;
  max = λ a b. if ltb a b then b else a;
  from_i32 = of_i32;
  pubkey_from_str = unsigned;
  pubkey_to_string = λ p. [];
}

abbrev config : VolumeStrategyConfigArgs ℕ
config = record {
  user_id = some 7;
  target_pool = some (b'4' ∷ b'0' ∷ []);
  tranche_size_sol = some 5;
  tranche_frequency_hbs = some (pos 60);
  tranche_length_hbs = some (pos 30);
  agents_buying_in_tranche = some (pos 2);
  agents_selling_in_tranche = some (pos 1);
  agents_keep_tokens_lamports = some (pos 0);
}

abbrev made : VolumeStrategyInstance ℕ
made = record {
  user_id = 7;
  target_pool = 40;
  tranche_size_sol = 5;
  tranche_frequency_hbs = pos 60;
  tranche_length_hbs = pos 30;
  agents_buying_in_tranche = pos 2;
  agents_selling_in_tranche = pos 1;
  agents_keep_tokens_lamports = pos 0;
}

abbrev user : BotUser
user = record { id = 7; chat_id = 70 }

abbrev env : Env whole
env = record {
  chat_id = 70;
  is_private = true;
  sender = none;
  command = no_command;
  text = none;
  pressed = some 3;
  loads = true;
  saves = true;
  asked = some 4;
  deletes = true;
  renders = true;
  row = some user;
  creates_user = true;
  whitelisted_chat_ids = some (70 ∷ []);
  admin_chat_ids = none;
  minimum_deposit_sol = 1;
  volume_config = some config;
  balance = some 9;
  valid_pool = λ p. p == 40;
  constructs = true;
  owner = λ id. some 7;
  swept = [];
  sweeps = λ id. true;
  host = host;
}

abbrev before : Session ℕ
before = record { dialogue = receive_strategy (some config); manager = manager; launched = [] }

abbrev returned : Outcome (Session ℕ) → Session ℕ
returned (done s) = s
returned panic = before

abbrev after : Session ℕ
after = returned (handle whole reader env (callback_query (some start_button)) before)

after_launched : after.launched ≡ made ∷ []
unfolding handle unsigned
after_launched = refl

handle-Evolves_example : Evolves whole reader env before after
unfolding handle unsigned
handle-Evolves_example =
    handle-Evolves whole reader env (callback_query (some start_button)) before after refl

config-IsSound : IsSound config
config-IsSound = record {
  frequency = refl;
  length = refl;
  buying = refl;
  selling = refl;
  keep = refl;
}

before-IsSafe : IsSafe whole reader before
unfolding get_strategy_in_progress_in_any
before-IsSafe = record { settings = config-IsSound; instances = tt }

run-IsSafe_example : IsSafe whole reader after
unfolding run unsigned
run-IsSafe_example =
    run-IsSafe whole reader ((env, callback_query (some start_button)) ∷ []) before after
      (config-IsSound, tt) before-IsSafe refl

run-is_ready_example : is_ready (get_strategy_in_progress after.dialogue) ≡ true
unfolding run unsigned is_ready get_strategy_in_progress
run-is_ready_example =
    run-is_ready whole reader ((env, callback_query (some start_button)) ∷ []) before after refl
      refl

handle-guarded_example :
    Keeps whole reader before after
    ⊎ MayManage whole reader env (callback_query (some start_button))
unfolding handle unsigned
handle-guarded_example =
    handle-guarded whole reader env (callback_query (some start_button)) before after refl

-- The settings without the tokens to keep.
abbrev unkept : VolumeStrategyConfigArgs ℕ
unkept = record config { agents_keep_tokens_lamports = none }

is_ready-missing_fields_example :
    ((is_ready unkept ≡ true) ↔ (missing_fields unkept ≡ []))
    × ((is_ready unkept ≡ false)
        ⊎ ((is_none agents_keep_field ≡ not_a_pubkey)
            ⊎ ((is_none agents_keep_field ≡ is_none user_id_field)
                ⊎ (is_none agents_keep_field ≡ is_none agents_keep_field))))
unfolding try_from unsigned
is_ready-missing_fields_example =
    is_ready-missing_fields whole reader unkept (is_none agents_keep_field) refl
