-- ===== src/Telegram/Steps.antt =====
-- Every update evolves the session as Evolution says: src/tg_bot/init.rs and its handlers.
use foxfire_sniper.Base.{
  ℕ, ◌≡◌, inl, inr, refl, sym, ap, ◌∙◌, subst, Option, none, some, if-elim, if-elim-with, Ensures,
  Ensures-bind,
}
use foxfire_sniper.Base.Results.{Result, ok, err}
use foxfire_sniper.Sniper.Floats.{Floats}
use foxfire_sniper.Manager.Identifiers.{StrategyId}
use foxfire_sniper.Manager.Registry.{Manager, Reply, volume_strategy, start_strategy}
use foxfire_sniper.Telegram.Input.{Text, Reader}
use foxfire_sniper.Telegram.Config.{
  VolumeStrategyConfigArgs, VolumeStrategyInstance, ConfigError, update, try_from,
}
use foxfire_sniper.Telegram.Dialogue as Dialogue
use foxfire_sniper.Telegram.Dialogue.{
  State, DialogueMessages, InProgress, get_strategy_in_progress, get_strategy_in_progress_in_any,
  update_configured_strategy, to_main_menu, back, cancel_text_input, get_message_to_delete,
  to_receive_strategy, to_receive_token_address, to_receive_tranche_size,
  to_receive_tranche_frequency_hbs, to_receive_tranche_length_hbs,
  to_receive_agents_buying_in_tranche, to_receive_agents_selling_in_tranche,
  to_receive_button_agents_keep_tokens_lamports,
}
use foxfire_sniper.Telegram.Session.{Session, Env, BotUser, get_user_from_button_press, save}
use foxfire_sniper.Telegram.Texts.{
  answered, texted, generic_handler, receive_token_address_handler,
  receive_tranche_size_sol_handler, receive_tranche_frequency_hbs_handler,
  receive_tranche_length_hbs_handler, receive_agents_buying_in_tranche_handler,
  receive_agents_selling_in_tranche_handler, receive_button_agents_keep_tokens_lamports_handler,
}
use foxfire_sniper.Telegram.Presses.{
  unwrap_or, asked_by, left_by, launched, launch, start_with, settled, configured, start,
  min_deposit, sol_for_agents, configure,
}
use foxfire_sniper.Telegram.Dispatch.{on_text}
use foxfire_sniper.Telegram.Moves.{or_unset, in_any-update, in_any-to_main_menu}
use foxfire_sniper.Telegram.Evolution.{
  IsAccepted, Next, same, entered, taken, IsPaidFor, Evolves, Evolves-refl, save-Evolves,
}
use foxfire_sniper.Telegram.Evolution as Evolution

module _ (fl : Floats) (reader : Reader fl) where
  open fl use {F}

  answered-Evolves :
      {A : Type 0} (env : Env fl) (make : A → VolumeStrategyConfigArgs F) (s : Session F)
      (parsed : Option A)
      → ((v : A) → parsed ≡ some v → IsAccepted fl reader env (make v) s.dialogue)
      → Evolves fl reader env s (answered fl reader env make s parsed)
  answered-Evolves env make s none accepts = Evolves-refl fl reader env s
  answered-Evolves env make s (some v) accepts =
      save-Evolves fl reader env _ s
        (entered (make v) (accepts v refl) (in_any-update (make v) s.dialogue))

  texted-Evolves :
      {A : Type 0} (env : Env fl) (parse : Text → Option A) (make : A → VolumeStrategyConfigArgs F)
      (s : Session F) (text : Option Text)
      → ((t : Text) (v : A)
          → text ≡ some t
          → parse t ≡ some v
          → IsAccepted fl reader env (make v) s.dialogue)
      → Evolves fl reader env s (texted fl reader env parse make s text)
  texted-Evolves env parse make s none accepts = Evolves-refl fl reader env s
  texted-Evolves env parse make s (some t) accepts =
      if-elim (Evolves fl reader env s) env.loads
        (answered-Evolves env make s (parse t) (λ v. accepts t v refl))
        (Evolves-refl fl reader env s)

  generic_handler-Evolves :
      {A : Type 0} (env : Env fl) (parse : Text → Option A) (make : A → VolumeStrategyConfigArgs F)
      (s : Session F)
      → ((t : Text) (v : A)
          → env.text ≡ some t
          → parse t ≡ some v
          → IsAccepted fl reader env (make v) s.dialogue)
      → Evolves fl reader env s (generic_handler fl reader env parse make s)
  unfolding generic_handler
  generic_handler-Evolves env parse make s accepts =
      texted-Evolves env parse make s env.text accepts

  at_state :
      (env : Env fl) (u : VolumeStrategyConfigArgs F) (s : Session F) (st : State F)
      → s.dialogue ≡ st
      → IsAccepted fl reader env u st
      → IsAccepted fl reader env u s.dialogue
  at_state env u s st e h = subst (IsAccepted fl reader env u) (sym e) h

  pub on_text-Evolves :
      (env : Env fl) (st : State F) (s : Session F)
      → s.dialogue ≡ st
      → Evolves fl reader env s (on_text fl reader env st s)
  unfolding on_text receive_token_address_handler receive_tranche_size_sol_handler
      receive_tranche_frequency_hbs_handler receive_tranche_length_hbs_handler
      receive_agents_buying_in_tranche_handler receive_agents_selling_in_tranche_handler
      receive_button_agents_keep_tokens_lamports_handler
  on_text-Evolves env (Dialogue.receive_token_address p m) s at =
      generic_handler-Evolves env _ _ s
        (λ t v q e. at_state env _ s _ at (Evolution.address p m t v q e refl))
  on_text-Evolves env (Dialogue.receive_tranche_size_sol p m) s at =
      generic_handler-Evolves env _ _ s
        (λ t v q e. at_state env _ s _ at (Evolution.size p m t v q e refl))
  on_text-Evolves env (Dialogue.receive_tranche_frequency_hbs p m) s at =
      generic_handler-Evolves env _ _ s
        (λ t v q e. at_state env _ s _ at (Evolution.frequency p m t v q e refl))
  on_text-Evolves env (Dialogue.receive_tranche_length_hbs p m) s at =
      generic_handler-Evolves env _ _ s
        (λ t v q e. at_state env _ s _ at (Evolution.length p m t v q e refl))
  on_text-Evolves env (Dialogue.receive_agents_buying_in_tranche p m) s at =
      generic_handler-Evolves env _ _ s
        (λ t v q e. at_state env _ s _ at (Evolution.buying p m t v q e refl))
  on_text-Evolves env (Dialogue.receive_agents_selling_in_tranche p m) s at =
      generic_handler-Evolves env _ _ s
        (λ t v q e. at_state env _ s _ at (Evolution.selling p m t v q e refl))
  on_text-Evolves env (Dialogue.receive_button_agents_keep_tokens_lamports p m) s at =
      generic_handler-Evolves env _ _ s
        (λ t v q e. at_state env _ s _ at (Evolution.keep p m t v q e refl))
  on_text-Evolves env _ s at = Evolves-refl fl reader env s

  -- A move that keeps the settings in progress.
  moved :
      (env : Env fl) (next : State F → State F) (s : Session F)
      → ((st : State F)
          → get_strategy_in_progress_in_any (next st) ≡ get_strategy_in_progress_in_any st)
      → Evolves fl reader env s (save env (next s.dialogue) s)
  moved env next s keeps = save-Evolves fl reader env _ s (same (keeps s.dialogue))

  pub asked_by-Evolves :
      (env : Env fl) (m : ℕ) (next : DialogueMessages → State F → State F) (s : Session F)
      (asked : Option ℕ)
      → ((d : DialogueMessages) (st : State F)
          → get_strategy_in_progress_in_any (next d st) ≡ get_strategy_in_progress_in_any st)
      → Evolves fl reader env s (asked_by fl reader env m next s asked)
  asked_by-Evolves env m next s none keeps = Evolves-refl fl reader env s
  asked_by-Evolves env m next s (some id) keeps = moved env (next _) s (keeps _)

  pub left_by-Evolves :
      (env : Env fl) (next : State F → State F) (s : Session F) (to_delete : Option ℕ)
      → ((st : State F)
          → get_strategy_in_progress_in_any (next st) ≡ get_strategy_in_progress_in_any st)
      → Evolves fl reader env s (left_by fl reader env next s to_delete)
  left_by-Evolves env next s none keeps = moved env next s keeps
  left_by-Evolves env next s (some id) keeps =
      if-elim (Evolves fl reader env s) env.deletes (moved env next s keeps)
        (Evolves-refl fl reader env s)

  launched-Evolves :
      (env : Env fl) (i : VolumeStrategyInstance F) (s : Session F) (r : Manager × Reply StrategyId)
      → IsPaidFor fl reader env (get_strategy_in_progress s.dialogue) i
      → Evolves fl reader env s (launched fl reader env i s r)
  launched-Evolves env i s (m, Reply.ok id) paid =
      if-elim (Evolves fl reader env s) env.saves
        (record {
          settings = same (in_any-to_main_menu s.dialogue);
          launches = inr (i, refl, paid);
        })
        (record { settings = same refl; launches = inr (i, refl, paid) })
  launched-Evolves env i s (m, Reply.err) paid = record {
    settings = same refl;
    launches = inl refl;
  }

  launch-Evolves :
      (env : Env fl) (s : Session F) (made : Result ConfigError (VolumeStrategyInstance F))
      → ((i : VolumeStrategyInstance F)
          → made ≡ ok i
          → IsPaidFor fl reader env (get_strategy_in_progress s.dialogue) i)
      → Ensures (Evolves fl reader env s) (launch fl reader env made s)
  unfolding launch
  launch-Evolves env s (err e) paid = Evolves-refl fl reader env s
  launch-Evolves env s (ok i) paid =
      if-elim (Ensures (Evolves fl reader env s)) env.constructs
        (Ensures-bind (Evolves fl reader env s)
          (start_strategy env.host (volume_strategy 0 none) s.manager) _
          (λ r e. launched-Evolves env i s r (paid i refl)))
        (Evolves-refl fl reader env s)

  start_with-Evolves :
      (env : Env fl) (s : Session F) (balance : Option F)
      → env.balance ≡ balance
      → Ensures
          (Evolves fl reader env s)
          (start_with fl reader env (get_strategy_in_progress s.dialogue) balance s)
  start_with-Evolves env s none e = Evolves-refl fl reader env s
  start_with-Evolves env s (some b) e =
      let c = get_strategy_in_progress s.dialogue in
      let short = fl.lt b (min_deposit fl reader env c) in
      let small = fl.lt (unwrap_or c.tranche_size_sol (fl.lit 0)) (sol_for_agents fl reader c) in
      if-elim-with (Ensures (Evolves fl reader env s)) short (λ _. Evolves-refl fl reader env s)
        (λ enough.
          if-elim-with (Ensures (Evolves fl reader env s)) small (λ _. Evolves-refl fl reader env s)
            (λ covers.
              launch-Evolves env s (try_from fl reader c)
                (λ i h. record { made = h; deposit = (b, e, enough); covered = covers })))

  pub start-Evolves :
      (env : Env fl) (s : Session F) → Ensures (Evolves fl reader env s) (start fl reader env s)
  unfolding start
  start-Evolves env s = start_with-Evolves env s env.balance refl

  in_any-to_receive_strategy :
      (st : State F)
      → get_strategy_in_progress_in_any (to_receive_strategy st)
        ≡ get_strategy_in_progress_in_any st
  unfolding to_receive_strategy
  in_any-to_receive_strategy st = refl

  settled-Evolves :
      (env : Env fl) (st : State F) (s : Session F)
      → Next fl reader env s.dialogue (get_strategy_in_progress_in_any st)
      → Evolves fl reader env s (settled fl reader env st s)
  settled-Evolves env st s n =
      if-elim (Evolves fl reader env s) env.renders (save-Evolves fl reader env st s n)
        (Evolves-refl fl reader env s)

  configured-Evolves :
      (env : Env fl) (user : BotUser) (st : State F) (s : Session F) (p q : InProgress F)
      → get_strategy_in_progress_in_any st ≡ get_strategy_in_progress_in_any s.dialogue
      → get_strategy_in_progress_in_any st ≡ p
      → env.volume_config ≡ q
      → get_user_from_button_press env ≡ some user
      → Ensures (Evolves fl reader env s) (configured fl reader env user st s p q)
  configured-Evolves env user st s (some c) q kept e f g = settled-Evolves env st s (same kept)
  configured-Evolves env user st s none none kept e f g = tt
  configured-Evolves env user st s none (some c) kept e f g = settled-Evolves env _ s (
      taken c user (sym kept ∙ e) f g (
        in_any-update (record c { user_id = some user.id }) st
        ∙ ap (λ p. some (update (or_unset p) (record c { user_id = some user.id }))) e))

  pub configure-Evolves :
      (env : Env fl) (user : BotUser) (s : Session F)
      → get_user_from_button_press env ≡ some user
      → Ensures (Evolves fl reader env s) (configure fl reader env user s)
  unfolding configure
  configure-Evolves env user s g =
      configured-Evolves env user (to_receive_strategy s.dialogue) s _ env.volume_config
        (in_any-to_receive_strategy s.dialogue) refl refl g
