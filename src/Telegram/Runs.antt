-- ===== src/Telegram/Runs.antt =====
-- Sessions over any updates: src/tg_bot/init.rs from the first message on.
use foxfire_sniper.Base.{
  ◌≡◌, subst, ap, sym, inl, inr, true, false, Option, List, [], ◌∷◌, Outcome, done, ◌>>=◌,
  Outcome-bind_inv, done-injective, arith,
}
use foxfire_sniper.Types.{pos}
use foxfire_sniper.Sniper.Floats.{Floats}
use foxfire_sniper.Telegram.Input.{Reader}
use foxfire_sniper.Telegram.Config.{
  VolumeStrategyConfigArgs, VolumeStrategyInstance, unset, update, is_ready,
}
use foxfire_sniper.Telegram.Dialogue.{
  State, get_strategy_in_progress, get_strategy_in_progress_in_any,
}
use foxfire_sniper.Telegram.Session.{Session, Env}
use foxfire_sniper.Telegram.Texts.{minimum_sol_needed}
use foxfire_sniper.Telegram.Presses.{unwrap_or, max_i32, sol_for_agents}
use foxfire_sniper.Telegram.Dispatch.{Update, handle}
use foxfire_sniper.Telegram.Making.{try_from-Makes}
use foxfire_sniper.Telegram.Moves.{or_unset}
use foxfire_sniper.Telegram.Evolution.{Next, same, entered, taken, IsPaidFor, Evolves}
use foxfire_sniper.Telegram.Updates.{handle-Evolves}
use foxfire_sniper.Telegram.Soundness.{
  Holds, IsPositive, IsNatural, IsSound, or_unset-IsSound, Next-IsSound,
}

-- P holds of each.
abbrev pub Each {ℓ κ} : {A : Type ℓ} → (A → Type κ) → List A → Type κ
Each P [] = Unit
Each P (a ∷ l) = P a × Each P l

update-is_ready :
    {F : Type 0} (c u : VolumeStrategyConfigArgs F)
    → is_ready c ≡ true
    → is_ready (update c u) ≡ true
unfolding is_ready update
update-is_ready c u h = ground arith

unset-is_ready : (F : Type 0) → ¬ (is_ready {F = F} unset ≡ true)
unfolding is_ready
unset-is_ready F h = cc

module _ (fl : Floats) (reader : Reader fl) where
  open fl use {F}

  -- The frequency, the duration and the numbers of agents are positive, the tokens to keep not
  -- negative, and the size of the tranche is not below what its agents need.
  pub record IsSoundInstance (i : VolumeStrategyInstance F) : Type 0 where
    pub frequency : IsPositive i.tranche_frequency_hbs
    pub length : IsPositive i.tranche_length_hbs
    pub buying : IsPositive i.agents_buying_in_tranche
    pub selling : IsPositive i.agents_selling_in_tranche
    pub keep : IsNatural i.agents_keep_tokens_lamports
    pub covered :
        fl.lt i.tranche_size_sol (
          fl.mul
            (minimum_sol_needed fl reader)
            (reader.from_i32 (max_i32 i.agents_buying_in_tranche i.agents_selling_in_tranche)))
        ≡ false

  pub record IsSafe (s : Session F) : Type 0 where
    pub settings : Holds IsSound (get_strategy_in_progress_in_any s.dialogue)
    pub instances : Each IsSoundInstance s.launched

  get_strategy_in_progress-or_unset :
      (st : State F) → get_strategy_in_progress st ≡ or_unset (get_strategy_in_progress_in_any st)
  unfolding get_strategy_in_progress
  get_strategy_in_progress-or_unset st = ground arith

  IsPaidFor-IsSoundInstance :
      (c : VolumeStrategyConfigArgs F) (i : VolumeStrategyInstance F) (env : Env fl)
      → IsSound c
      → IsPaidFor fl reader env c i
      → IsSoundInstance i
  unfolding sol_for_agents
  IsPaidFor-IsSoundInstance c i env h paid =
      let m = try_from-Makes fl reader c i paid.made in
      record {
        frequency = subst (Holds IsPositive) m.frequency h.frequency;
        length = subst (Holds IsPositive) m.length h.length;
        buying = subst (Holds IsPositive) m.buying h.buying;
        selling = subst (Holds IsPositive) m.selling h.selling;
        keep = subst (Holds IsNatural) m.keep h.keep;
        covered =
            rw
              (
                sym (ap (λ o. unwrap_or o (fl.lit 0)) m.size),
                sym (ap (λ o. unwrap_or o (pos 1)) m.buying),
                sym (ap (λ o. unwrap_or o (pos 1)) m.selling),
              )
              paid.covered;
      }

  -- Updates one after the other, each with what the services answer to it.
  unfoldable pub run : List (Env fl × Update) → Session F → Outcome (Session F)
  unfolding handle
  run [] s = done s
  run ((env, u) ∷ us) s = handle fl reader env u s >>= run us

  -- The settings of the file that an update may take are sound.
  abbrev pub HasSoundFile : Env fl × Update → Type 0
  HasSoundFile (env, u) = Holds IsSound env.volume_config

  launches-Each :
      (env : Env fl) (s s' : Session F)
      → IsSafe s
      → Evolves fl reader env s s'
      → Each IsSoundInstance s'.launched
  launches-Each env s s' safe e = elim e.launches [
    | inl kept ↦ subst (Each IsSoundInstance) (sym kept) safe.instances
    | inr (i, more, paid) ↦ subst (Each IsSoundInstance) (sym more) (
      IsPaidFor-IsSoundInstance (get_strategy_in_progress s.dialogue) i env
          (subst IsSound (sym (get_strategy_in_progress-or_unset s.dialogue))
            (or_unset-IsSound fl reader (get_strategy_in_progress_in_any s.dialogue) safe.settings))
          paid,
      safe.instances,
    )
  ]

  handle-IsSafe :
      (env : Env fl) (u : Update) (s s' : Session F)
      → Holds IsSound env.volume_config
      → IsSafe s
      → handle fl reader env u s ≡ done s'
      → IsSafe s'
  handle-IsSafe env u s s' file safe h =
      let e = handle-Evolves fl reader env u s s' h in
      record {
        settings = Next-IsSound fl reader env _ _ file safe.settings e.settings;
        instances = launches-Each env s s' safe e;
      }

  -- Over any updates that take sound settings of the file only, where the handlers do not panic:
  -- whatever of the frequency, the duration and the two numbers of agents is set in the settings in
  -- progress stays positive, and the tokens to keep not negative; and every instance that was handed to
  -- the strategy manager has these four positive, the tokens to keep not negative, and a size of the
  -- tranche not below what its agents need.
  pub run-IsSafe :
      (us : List (Env fl × Update)) (s s' : Session F)
      → Each HasSoundFile us
      → IsSafe s
      → run us s ≡ done s'
      → IsSafe s'
  unfolding run
  run-IsSafe [] s s' files safe h = subst IsSafe (done-injective h) safe
  run-IsSafe ((env, u) ∷ us) s s' files safe h =
      let (t, first, rest) = Outcome-bind_inv (handle fl reader env u s) (run us) h in
      run-IsSafe us t s' files.1 (handle-IsSafe env u s t files.0 safe first) rest

  Next-is_ready :
      (env : Env fl) (st : State F) (q : Option (VolumeStrategyConfigArgs F))
      → Next fl reader env st q
      → is_ready (or_unset (get_strategy_in_progress_in_any st)) ≡ true
      → is_ready (or_unset q) ≡ true
  Next-is_ready env st q (same e) h = subst (λ o. is_ready (or_unset o) ≡ true) (sym e) h
  Next-is_ready env st q (entered u accepted e) h =
      subst (λ o. is_ready (or_unset o) ≡ true) (sym e)
        (update-is_ready (or_unset (get_strategy_in_progress_in_any st)) u h)
  Next-is_ready env st q (taken c user before known pressed e) h =
      absurd (unset-is_ready F (subst (λ o. is_ready (or_unset o) ≡ true) before h))

  handle-is_ready :
      (env : Env fl) (u : Update) (s s' : Session F)
      → handle fl reader env u s ≡ done s'
      → is_ready (get_strategy_in_progress s.dialogue) ≡ true
      → is_ready (get_strategy_in_progress s'.dialogue) ≡ true
  handle-is_ready env u s s' h ready =
      subst (λ c. is_ready c ≡ true) (sym (get_strategy_in_progress-or_unset s'.dialogue))
        (Next-is_ready env _ _ (handle-Evolves fl reader env u s s' h).settings
          (subst (λ c. is_ready c ≡ true) (get_strategy_in_progress-or_unset s.dialogue) ready))

  -- Settings that are ready stay ready over any updates, where the handlers do not panic: no move of
  -- the dialogue and no start of a strategy loses a field that is_ready asks for.
  pub run-is_ready :
      (us : List (Env fl × Update)) (s s' : Session F)
      → is_ready (get_strategy_in_progress s.dialogue) ≡ true
      → run us s ≡ done s'
      → is_ready (get_strategy_in_progress s'.dialogue) ≡ true
  unfolding run
  run-is_ready [] s s' ready h =
      subst (λ t. is_ready (get_strategy_in_progress t.dialogue) ≡ true) (done-injective h) ready
  run-is_ready ((env, u) ∷ us) s s' ready h =
      let (t, first, rest) = Outcome-bind_inv (handle fl reader env u s) (run us) h in
      run-is_ready us t s' (handle-is_ready env u s t first ready) rest
