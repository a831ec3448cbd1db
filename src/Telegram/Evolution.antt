-- ===== src/Telegram/Evolution.antt =====
-- How an update changes the settings in progress, and what it hands to the strategy manager.
use foxfire_sniper.Base.{◌≡◌, ◌⊎◌, inl, refl, false, none, some, ◌∷◌, if-elim}
use foxfire_sniper.Base.Results.{ok}
use foxfire_sniper.Types.{ℤ}
use foxfire_sniper.Sniper.Floats.{Floats}
use foxfire_sniper.Telegram.Input.{Text, Reader}
use foxfire_sniper.Telegram.Config.{
  VolumeStrategyConfigArgs, VolumeStrategyInstance, unset, update, try_from,
}
use foxfire_sniper.Telegram.Dialogue as Dialogue
use foxfire_sniper.Telegram.Dialogue.{
  State, DialogueMessages, InProgress, get_strategy_in_progress, get_strategy_in_progress_in_any,
}
use foxfire_sniper.Telegram.Moves.{or_unset}
use foxfire_sniper.Telegram.Session.{Session, Env, BotUser, get_user_from_button_press, save}
use foxfire_sniper.Telegram.Texts.{parse_pubkey, parse_size, parse_i64, parse_i32, parse_kept}
use foxfire_sniper.Telegram.Presses.{unwrap_or, min_deposit, sol_for_agents}

module _ (fl : Floats) (reader : Reader fl) where
  open fl use {F}

  -- The text of the message as new settings, where the dialogue asks for one: the field is the one it
  -- asks for, and the text passes the check of that field.
  pub data IsAccepted (env : Env fl) (u : VolumeStrategyConfigArgs F) : State F → Type 0 where
    address :
        (p : InProgress F) (m : DialogueMessages) (t : Text) (v : Text)
        → env.text ≡ some t
        → parse_pubkey fl reader env t ≡ some v
        → u ≡ record unset { target_pool = some v }
        → IsAccepted env u (Dialogue.receive_token_address p m)
    size :
        (p : InProgress F) (m : DialogueMessages) (t : Text) (v : F)
        → env.text ≡ some t
        → parse_size fl reader t ≡ some v
        → u ≡ record unset { tranche_size_sol = some v }
        → IsAccepted env u (Dialogue.receive_tranche_size_sol p m)
    frequency :
        (p : InProgress F) (m : DialogueMessages) (t : Text) (v : ℤ)
        → env.text ≡ some t
        → parse_i64 t ≡ some v
        → u ≡ record unset { tranche_frequency_hbs = some v }
        → IsAccepted env u (Dialogue.receive_tranche_frequency_hbs p m)
    length :
        (p : InProgress F) (m : DialogueMessages) (t : Text) (v : ℤ)
        → env.text ≡ some t
        → parse_i64 t ≡ some v
        → u ≡ record unset { tranche_length_hbs = some v }
        → IsAccepted env u (Dialogue.receive_tranche_length_hbs p m)
    buying :
        (p : InProgress F) (m : DialogueMessages) (t : Text) (v : ℤ)
        → env.text ≡ some t
        → parse_i32 t ≡ some v
        → u ≡ record unset { agents_buying_in_tranche = some v }
        → IsAccepted env u (Dialogue.receive_agents_buying_in_tranche p m)
    selling :
        (p : InProgress F) (m : DialogueMessages) (t : Text) (v : ℤ)
        → env.text ≡ some t
        → parse_i32 t ≡ some v
        → u ≡ record unset { agents_selling_in_tranche = some v }
        → IsAccepted env u (Dialogue.receive_agents_selling_in_tranche p m)
    keep :
        (p : InProgress F) (m : DialogueMessages) (t : Text) (v : ℤ)
        → env.text ≡ some t
        → parse_kept t ≡ some v
        → u ≡ record unset { agents_keep_tokens_lamports = some v }
        → IsAccepted env u (Dialogue.receive_button_agents_keep_tokens_lamports p m)

  -- The settings in progress stay, take the text of the message, or, where there were none, are those
  -- of the file with the user who pressed the button.
  pub data Next (env : Env fl) (st : State F) (q : InProgress F) : Type 0 where
    same : q ≡ get_strategy_in_progress_in_any st → Next env st q
    entered :
        (u : VolumeStrategyConfigArgs F)
        → IsAccepted env u st
        → q ≡ some (update (or_unset (get_strategy_in_progress_in_any st)) u)
        → Next env st q
    taken :
        (c : VolumeStrategyConfigArgs F) (user : BotUser)
        → get_strategy_in_progress_in_any st ≡ none
        → env.volume_config ≡ some c
        → get_user_from_button_press env ≡ some user
        → q ≡ some (update unset (record c { user_id = some user.id }))
        → Next env st q

  -- An instance is handed over: it is made of the settings in progress, the balance is not below the
  -- deposit, and the size of a tranche not below what its agents need.
  pub record IsPaidFor (env : Env fl) (c : VolumeStrategyConfigArgs F)
      (i : VolumeStrategyInstance F) : Type 0 where
    pub made : try_from fl reader c ≡ ok i
    pub deposit : (b : F) × (env.balance ≡ some b) × (fl.lt b (min_deposit fl reader env c) ≡ false)
    pub covered :
        fl.lt (unwrap_or c.tranche_size_sol (fl.lit 0)) (sol_for_agents fl reader c) ≡ false

  pub record Evolves (env : Env fl) (s s' : Session F) : Type 0 where
    pub settings : Next env s.dialogue (get_strategy_in_progress_in_any s'.dialogue)
    pub launches :
        (s'.launched ≡ s.launched)
        ⊎ ((i : VolumeStrategyInstance F) × (s'.launched ≡ i ∷ s.launched)
            × IsPaidFor env (get_strategy_in_progress s.dialogue) i)

  pub Evolves-refl : (env : Env fl) (s : Session F) → Evolves env s s
  Evolves-refl env s = record { settings = same refl; launches = inl refl }

  pub save-Evolves :
      (env : Env fl) (st : State F) (s : Session F)
      → Next env s.dialogue (get_strategy_in_progress_in_any st)
      → Evolves env s (save env st s)
  save-Evolves env st s n =
      if-elim (Evolves env s) env.saves (record { settings = n; launches = inl refl })
        (Evolves-refl env s)
