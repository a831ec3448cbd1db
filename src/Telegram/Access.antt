-- ===== src/Telegram/Access.antt =====
-- Who may start and stop strategies: the filters of src/tg_bot/init.rs and
-- src/tg_bot/helpers/username.rs.
use foxfire_sniper.Base.{
  ℕ, ◌≡◌, ◌⊎◌, inl, inr, refl, subst, true, ◌&&◌, Option, none, some, List, contains, if◌then◌else◌,
  if-elim, if-elim-with, Outcome, done, panic, Ensures, arith,
}
use foxfire_sniper.Sniper.Floats.{Floats}
use foxfire_sniper.Telegram.Input.{Text, Reader}
use foxfire_sniper.Telegram.Config.{VolumeStrategyConfigArgs}
use foxfire_sniper.Telegram.Dialogue.{State}
use foxfire_sniper.Telegram.Dialogue as Dialogue
use foxfire_sniper.Telegram.Session.{
  Session, Env, Command, no_command, BotUser, save, allowed, known_user, get_user_from_user_message,
  get_user_from_button_press,
}
use foxfire_sniper.Telegram.Session as Session
use foxfire_sniper.Telegram.Texts.{
  answered, texted, generic_handler, receive_token_address_handler,
  receive_tranche_size_sol_handler, receive_tranche_frequency_hbs_handler,
  receive_tranche_length_hbs_handler, receive_agents_buying_in_tranche_handler,
  receive_agents_selling_in_tranche_handler, receive_button_agents_keep_tokens_lamports_handler,
}
use foxfire_sniper.Telegram.Presses.{Button}
use foxfire_sniper.Telegram.Dispatch.{
  Update, message, callback_query, on_text, handle, start, collect, admin_of, is_whitelisted,
  commanded, pressed_by,
}

-- Where there is a list, the chat of the user is on it.
pub data IsListed (user : BotUser) : Option (List ℕ) → Type 0 where
  no_list : IsListed user none
  listed : {ids : List ℕ} → contains user.chat_id ids ≡ true → IsListed user (some ids)

allowed-IsListed :
    (ids : Option (List ℕ)) (u user : BotUser) → allowed ids u ≡ some user → IsListed u ids
allowed-IsListed none u user h = no_list
allowed-IsListed (some ids) u user h =
    if-elim-with (λ o. o ≡ some user → IsListed u (some ids)) (contains u.chat_id ids)
      (λ e k. listed e) (λ e k. cc) h

known_user-IsListed :
    (ids : Option (List ℕ)) (row : Option BotUser) (user : BotUser)
    → known_user ids row ≡ some user
    → (u : BotUser) × (row ≡ some u) × IsListed u ids
known_user-IsListed ids none user h = cc
known_user-IsListed ids (some u) user h = (u, refl, allowed-IsListed ids u user h)

module _ (fl : Floats) (reader : Reader fl) where
  open fl use {F}

  -- A button of a known user that the list lets through, or Collect by an administrator who is a
  -- person with a name.
  pub data MayManage (env : Env fl) : Update → Type 0 where
    by_button :
        {button : Option Button} (user : BotUser)
        → env.row ≡ some user
        → IsListed user env.whitelisted_chat_ids
        → MayManage env (callback_query button)
    by_collect :
        (ids : List ℕ)
        → env.command ≡ Session.collect
        → env.admin_chat_ids ≡ some ids
        → contains env.chat_id ids ≡ true
        → get_user_from_user_message env.sender ≡ true
        → MayManage env message

  -- The strategies and what was handed over are as before.
  pub record Keeps (s s' : Session F) : Type 0 where
    pub manager : s'.manager ≡ s.manager
    pub launched : s'.launched ≡ s.launched

  Keeps-refl : (s : Session F) → Keeps s s
  Keeps-refl s = record { manager = refl; launched = refl }

  save-Keeps : (env : Env fl) (st : State F) (s : Session F) → Keeps s (save env st s)
  save-Keeps env st s =
      if-elim (Keeps s) env.saves (record { manager = refl; launched = refl }) (Keeps-refl s)

  answered-Keeps :
      {A : Type 0} (env : Env fl) (make : A → VolumeStrategyConfigArgs F) (s : Session F)
      (parsed : Option A)
      → Keeps s (answered fl reader env make s parsed)
  answered-Keeps env make s none = Keeps-refl s
  answered-Keeps env make s (some v) = save-Keeps env _ s

  texted-Keeps :
      {A : Type 0} (env : Env fl) (parse : Text → Option A) (make : A → VolumeStrategyConfigArgs F)
      (s : Session F) (text : Option Text)
      → Keeps s (texted fl reader env parse make s text)
  texted-Keeps env parse make s none = Keeps-refl s
  texted-Keeps env parse make s (some t) =
      if-elim (Keeps s) env.loads (answered-Keeps env make s (parse t)) (Keeps-refl s)

  on_text-Keeps :
      (env : Env fl) (st : State F) (s : Session F) → Keeps s (on_text fl reader env st s)
  unfolding on_text receive_token_address_handler receive_tranche_size_sol_handler
      receive_tranche_frequency_hbs_handler receive_tranche_length_hbs_handler
      receive_agents_buying_in_tranche_handler receive_agents_selling_in_tranche_handler
      receive_button_agents_keep_tokens_lamports_handler generic_handler
  on_text-Keeps env (Dialogue.receive_token_address _ _) s = texted-Keeps env _ _ s env.text
  on_text-Keeps env (Dialogue.receive_tranche_size_sol _ _) s = texted-Keeps env _ _ s env.text
  on_text-Keeps env (Dialogue.receive_tranche_frequency_hbs _ _) s = texted-Keeps env _ _ s env.text
  on_text-Keeps env (Dialogue.receive_tranche_length_hbs _ _) s = texted-Keeps env _ _ s env.text
  on_text-Keeps env (Dialogue.receive_agents_buying_in_tranche _ _) s =
      texted-Keeps env _ _ s env.text
  on_text-Keeps env (Dialogue.receive_agents_selling_in_tranche _ _) s =
      texted-Keeps env _ _ s env.text
  on_text-Keeps env (Dialogue.receive_button_agents_keep_tokens_lamports _ _) s =
      texted-Keeps env _ _ s env.text
  on_text-Keeps env _ s = Keeps-refl s

  start-Keeps : (env : Env fl) (s : Session F) → Keeps s (start fl reader env s)
  unfolding start
  start-Keeps env s =
      if-elim (Keeps s) (get_user_from_user_message env.sender && env.creates_user && env.loads)
        (save-Keeps env _ s) (Keeps-refl s)

  button_user :
      (env : Env fl) {button : Option Button} (user : BotUser)
      → get_user_from_button_press env ≡ some user
      → MayManage env (callback_query button)
  unfolding get_user_from_button_press
  button_user env user h =
      let (u, known, on_list) = known_user-IsListed env.whitelisted_chat_ids env.row user h in
      by_button u known on_list

  -- What may change them is a condition on the whole call.
  pub guarded_by :
      {P : Type 0} (s : Session F) (call : Outcome (Session F))
      → P
      → Ensures (λ s'. Keeps s s' ⊎ P) call
  guarded_by s (done s') p = inr p
  guarded_by s panic p = tt

  collect-named :
      (env : Env fl) (s : Session F)
      → (get_user_from_user_message env.sender ≡ true → MayManage env message)
      → Ensures (λ s'. Keeps s s' ⊎ MayManage env message) (collect fl reader env s)
  unfolding collect
  collect-named env s may =
      if-elim-with (Ensures (λ s'. Keeps s s' ⊎ MayManage env message))
        (get_user_from_user_message env.sender && env.creates_user)
        (λ e. guarded_by s _ (may (ground arith))) (λ _. inl (Keeps-refl s))

  collect-guarded :
      (env : Env fl) (s other : Session F) (admins : Option (List ℕ))
      → env.command ≡ Session.collect
      → env.admin_chat_ids ≡ admins
      → Keeps s other
      → Ensures
          (λ s'. Keeps s s' ⊎ MayManage env message)
          (if admin_of env.chat_id admins then collect fl reader env s else done other)
  collect-guarded env s other none h e keeps = inl keeps
  collect-guarded env s other (some ids) h e keeps =
      if-elim-with (Ensures (λ s'. Keeps s s' ⊎ MayManage env message)) (contains env.chat_id ids)
        (λ admin. collect-named env s (by_collect ids h e admin)) (λ _. inl keeps)

  pressed_by-guarded :
      (env : Env fl) (pressed : Option ℕ) (user : Option BotUser) (button : Option Button)
      (s : Session F)
      → get_user_from_button_press env ≡ user
      → Ensures
          (λ s'. Keeps s s' ⊎ MayManage env (callback_query button))
          (pressed_by fl reader env pressed user button s)
  pressed_by-guarded env (some m) (some user) (some button) s h =
      guarded_by s (pressed_by fl reader env (some m) (some user) (some button) s)
        (button_user env user h)
  pressed_by-guarded env _ _ _ s h = inl (Keeps-refl s)

  commanded-guarded :
      (env : Env fl) (command : Command) (s other : Session F)
      → env.command ≡ command
      → Keeps s other
      → Ensures (λ s'. Keeps s s' ⊎ MayManage env message) (commanded fl reader env command s other)
  commanded-guarded env Session.start s other h keeps =
      inl (if-elim (Keeps s) (is_whitelisted fl reader env) (start-Keeps env s) keeps)
  commanded-guarded env Session.collect s other h keeps =
      collect-guarded env s other env.admin_chat_ids h refl keeps
  commanded-guarded env no_command s other h keeps = inl keeps

  -- The strategies of the manager, and what was handed to it, change only by a button of a user in
  -- the database whose chat the list of chats, where there is one, contains, or by Collect in the
  -- chat of an administrator, of a person with a name; no text and no other command changes them.
  pub handle-guarded :
      (env : Env fl) (u : Update) (s s' : Session F)
      → handle fl reader env u s ≡ done s'
      → Keeps s s' ⊎ MayManage env u
  unfolding handle
  handle-guarded env message s s' h = subst (Ensures (λ t. Keeps s t ⊎ MayManage env message)) h (
      commanded-guarded env env.command s (on_text fl reader env s.dialogue s) refl
        (on_text-Keeps env s.dialogue s))
  handle-guarded env (callback_query button) s s' h =
      subst (Ensures (λ t. Keeps s t ⊎ MayManage env (callback_query button))) h
        (pressed_by-guarded env env.pressed (get_user_from_button_press env) button s refl)
