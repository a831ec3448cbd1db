-- ===== src/Telegram/Making.antt =====
-- From settings to an instance: what src/tg_bot/volume_strategy_config_args.rs asks for.
use foxfire_sniper.Base.{◌≡◌, ◌↔◌, ◌⊎◌, subst, refl, true, false, Option, none, some, [], arith}
use foxfire_sniper.Base.Results.{ok-injective, Result, ok, err, ok_or, ◌>>=◌}
use foxfire_sniper.Sniper.Floats.{Floats}
use foxfire_sniper.Telegram.Input.{Text, Reader}
use foxfire_sniper.Telegram.Config.{
  VolumeStrategyConfigArgs, VolumeStrategyInstance, ConfigError, is_none, not_a_pubkey,
  user_id_field, agents_keep_field, is_ready, missing_fields, try_from,
}

ok_or-bind_inv :
    {E A B : Type 0} (o : Option A) (e : E) (f : A → Result E B) {b : B}
    → (ok_or o e >>= f) ≡ ok b
    → (a : A) × (o ≡ some a) × (f a ≡ ok b)
ok_or-bind_inv none e f h = cc
ok_or-bind_inv (some a) e f h = (a, refl, h)

module _ (fl : Floats) (reader : Reader fl) where
  open fl use {F}

  -- Every field is set, to the value of the instance, and the address is the pool's.
  pub record Makes (c : VolumeStrategyConfigArgs F) (i : VolumeStrategyInstance F) : Type 0 where
    pub user : c.user_id ≡ some i.user_id
    pub pool :
        (address : Text) × (c.target_pool ≡ some address)
        × (reader.pubkey_from_str address ≡ some i.target_pool)
    pub size : c.tranche_size_sol ≡ some i.tranche_size_sol
    pub frequency : c.tranche_frequency_hbs ≡ some i.tranche_frequency_hbs
    pub length : c.tranche_length_hbs ≡ some i.tranche_length_hbs
    pub buying : c.agents_buying_in_tranche ≡ some i.agents_buying_in_tranche
    pub selling : c.agents_selling_in_tranche ≡ some i.agents_selling_in_tranche
    pub keep : c.agents_keep_tokens_lamports ≡ some i.agents_keep_tokens_lamports

  pub try_from-Makes :
      (c : VolumeStrategyConfigArgs F) (i : VolumeStrategyInstance F)
      → try_from fl reader c ≡ ok i
      → Makes c i
  unfolding try_from
  try_from-Makes c i h =
      let (u, hu, h₁) = ok_or-bind_inv c.user_id _ _ h in
      let (address, ha, h₂) = ok_or-bind_inv c.target_pool _ _ h₁ in
      let (p, hp, h₃) = ok_or-bind_inv (reader.pubkey_from_str address) _ _ h₂ in
      let (size, hs, h₄) = ok_or-bind_inv c.tranche_size_sol _ _ h₃ in
      let (frequency, hf, h₅) = ok_or-bind_inv c.tranche_frequency_hbs _ _ h₄ in
      let (length, hl, h₆) = ok_or-bind_inv c.tranche_length_hbs _ _ h₅ in
      let (buying, hb, h₇) = ok_or-bind_inv c.agents_buying_in_tranche _ _ h₆ in
      let (selling, he, h₈) = ok_or-bind_inv c.agents_selling_in_tranche _ _ h₇ in
      let (keep, hk, h₉) = ok_or-bind_inv c.agents_keep_tokens_lamports _ _ h₈ in
      subst (Makes c) (ok-injective ConfigError h₉) (record {
        user = hu;
        pool = (address, ha, hp);
        size = hs;
        frequency = hf;
        length = hl;
        buying = hb;
        selling = he;
        keep = hk;
      })

  Makes-try_from :
      (c : VolumeStrategyConfigArgs F) (i : VolumeStrategyInstance F)
      → Makes c i
      → try_from fl reader c ≡ ok i
  unfolding try_from
  Makes-try_from c i m =
      let (address, known, valid) = m.pool in
      rw (m.user, known, ◌>>=◌)
        (rw (valid, m.size, m.frequency, m.length, m.buying, m.selling, m.keep) refl)

  -- An instance is made exactly from settings in which all eight fields are set and the address is
  -- one of a pool; it then has their values.
  pub try_from_iff :
      (c : VolumeStrategyConfigArgs F) (i : VolumeStrategyInstance F)
      → (try_from fl reader c ≡ ok i) ↔ Makes c i
  try_from_iff c i = (try_from-Makes c i, Makes-try_from c i)

  -- Where no instance is made of settings: they are ready exactly where no field is named as missing,
  -- and if they are ready, the address is not one, or the user or the tokens to keep are not set, of
  -- which the user is told nothing.
  pub is_ready-missing_fields :
      (c : VolumeStrategyConfigArgs F) (e : ConfigError)
      → try_from fl reader c ≡ err e
      → ((is_ready c ≡ true) ↔ (missing_fields c ≡ []))
        × ((is_ready c ≡ false)
            ⊎ ((e ≡ not_a_pubkey)
                ⊎ ((e ≡ is_none user_id_field) ⊎ (e ≡ is_none agents_keep_field))))
  unfolding is_ready missing_fields try_from
  is_ready-missing_fields c e h = ((ground arith, ground arith), ground arith)
