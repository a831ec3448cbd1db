-- ===== src/Telegram/Texts.antt =====
-- src/tg_bot/user_menu/strategies/handler.rs: the handlers of a text that the user was asked for.
use foxfire_sniper.Base.{ℕ, ◌+◌, Option, none, some, if◌then◌else◌}
use foxfire_sniper.Types.{ℤ, Pubkey, base_tx_fee_sol, transfer_priority_fee_sol}
use foxfire_sniper.Sniper.Floats.{Floats}
use foxfire_sniper.Telegram.Input.{
  Text, Reader, parse, i32_bound, i64_bound, is_positive, is_negative,
}
use foxfire_sniper.Telegram.Config.{VolumeStrategyConfigArgs, unset}
use foxfire_sniper.Telegram.Dialogue.{update_configured_strategy}
use foxfire_sniper.Telegram.Session.{Session, Env, save}

-- `parse_number`, for i32 and i64; `none` is an error.
abbrev pub positive : Option ℤ → Option ℤ
positive none = none
positive (some x) = if is_positive x then some x else none

unfoldable pub parse_i32 : Text → Option ℤ
unfolding parse
parse_i32 t = positive (parse i32_bound t)

unfoldable pub parse_i64 : Text → Option ℤ
unfolding parse
parse_i64 t = positive (parse i64_bound t)

abbrev pub natural : Option ℤ → Option ℤ
natural none = none
natural (some x) = if is_negative x then none else some x

-- The number of tokens to keep may be 0.
unfoldable pub parse_kept : Text → Option ℤ
unfolding parse
parse_kept t = natural (parse i64_bound t)

module _ (fl : Floats) where
  -- src/utils/decimals.rs
  unfoldable pub lamports_to_sol : ℕ → fl.F
  lamports_to_sol lamports = fl.div (fl.lit lamports) (fl.lit 1000000000)

module _ (fl : Floats) (reader : Reader fl) where
  open fl use {F}

  unfoldable pub minimum_sol_needed : F
  unfolding lamports_to_sol
  minimum_sol_needed = lamports_to_sol fl (base_tx_fee_sol + transfer_priority_fee_sol)

  abbrev checked_size : Option F → Option F
  unfolding minimum_sol_needed
  checked_size none = none
  checked_size (some x) =
      if reader.le x (fl.lit 0) then none else if fl.lt x minimum_sol_needed then none else some x

  unfoldable pub parse_size : Text → Option F
  unfolding checked_size
  parse_size t = checked_size (reader.parse_f64 t)

  abbrev valid_address : Env fl → Option Pubkey → Option Text
  valid_address env none = none
  valid_address env (some pool) =
      if env.valid_pool pool then some (reader.pubkey_to_string pool) else none

  unfoldable pub parse_pubkey : Env fl → Text → Option Text
  parse_pubkey env t = valid_address env (reader.pubkey_from_str t)

  -- A parsed value, put into the settings.
  abbrev pub answered :
      {A : Type 0} → Env fl → (A → VolumeStrategyConfigArgs F) → Session F → Option A → Session F
  answered env make s none = s
  answered env make s (some value) = save env (update_configured_strategy (make value) s.dialogue) s

  abbrev pub texted :
      {A : Type 0}
      → Env fl
      → (Text → Option A)
      → (A → VolumeStrategyConfigArgs F)
      → Session F
      → Option Text
      → Session F
  texted env parse_function update_function s none = s
  texted env parse_function update_function s (some t) =
      if env.loads then answered env update_function s (parse_function t) else s

  unfoldable pub generic_handler :
      {A : Type 0}
      → Env fl
      → (Text → Option A)
      → (A → VolumeStrategyConfigArgs F)
      → Session F
      → Session F
  generic_handler env parse_function update_function s =
      texted env parse_function update_function s env.text

  unfoldable pub receive_token_address_handler : Env fl → Session F → Session F
  unfolding generic_handler
  receive_token_address_handler env =
      generic_handler env (parse_pubkey env) (λ v. record unset { target_pool = some v })

  unfoldable pub receive_tranche_size_sol_handler : Env fl → Session F → Session F
  unfolding generic_handler
  receive_tranche_size_sol_handler env =
      generic_handler env parse_size (λ v. record unset { tranche_size_sol = some v })

  unfoldable pub receive_tranche_frequency_hbs_handler : Env fl → Session F → Session F
  unfolding generic_handler
  receive_tranche_frequency_hbs_handler env =
      generic_handler env parse_i64 (λ v. record unset { tranche_frequency_hbs = some v })

  unfoldable pub receive_tranche_length_hbs_handler : Env fl → Session F → Session F
  unfolding generic_handler
  receive_tranche_length_hbs_handler env =
      generic_handler env parse_i64 (λ v. record unset { tranche_length_hbs = some v })

  unfoldable pub receive_agents_buying_in_tranche_handler : Env fl → Session F → Session F
  unfolding generic_handler
  receive_agents_buying_in_tranche_handler env =
      generic_handler env parse_i32 (λ v. record unset { agents_buying_in_tranche = some v })

  unfoldable pub receive_agents_selling_in_tranche_handler : Env fl → Session F → Session F
  unfolding generic_handler
  receive_agents_selling_in_tranche_handler env =
      generic_handler env parse_i32 (λ v. record unset { agents_selling_in_tranche = some v })

  unfoldable pub receive_button_agents_keep_tokens_lamports_handler : Env fl → Session F → Session F
  unfolding generic_handler
  receive_button_agents_keep_tokens_lamports_handler env =
      generic_handler env parse_kept (λ v. record unset { agents_keep_tokens_lamports = some v })
