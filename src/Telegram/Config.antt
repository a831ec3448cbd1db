-- ===== src/Telegram/Config.antt =====
-- src/tg_bot/volume_strategy_config_args.rs: the settings of a volume strategy while they are made.
use foxfire_sniper.Base.{ℕ, Bool, true, false, ◌&&◌, Option, none, some, List, [], ◌∷◌, ◌++◌}
use foxfire_sniper.Base.Results.{Result, ok, ok_or, ◌>>=◌}
use foxfire_sniper.Types.{ℤ, Pubkey}
use foxfire_sniper.Sniper.Floats.{Floats}
use foxfire_sniper.Telegram.Input.{Text, Reader}

pub record VolumeStrategyConfigArgs (F : Type 0) : Type 0 where
  pub user_id : Option ℕ
  pub target_pool : Option Text
  pub tranche_size_sol : Option F
  pub tranche_frequency_hbs : Option ℤ
  pub tranche_length_hbs : Option ℤ
  pub agents_buying_in_tranche : Option ℤ
  pub agents_selling_in_tranche : Option ℤ
  pub agents_keep_tokens_lamports : Option ℤ

-- The fields of src/types/volume_strategy.rs that are made from the settings; the identifier is 0
-- and the strategy is not completed.
pub record VolumeStrategyInstance (F : Type 0) : Type 0 where
  pub user_id : ℕ
  pub target_pool : Pubkey
  pub tranche_size_sol : F
  pub tranche_frequency_hbs : ℤ
  pub tranche_length_hbs : ℤ
  pub agents_buying_in_tranche : ℤ
  pub agents_selling_in_tranche : ℤ
  pub agents_keep_tokens_lamports : ℤ

-- The names of the fields, for the texts of the messages.
pub data Field : Type 0 where
  user_id_field target_pool_field tranche_size_field tranche_frequency_field : Field
  tranche_length_field agents_buying_field agents_selling_field agents_keep_field : Field

-- `<field> is None`, and `target_pool is not a valid Pubkey`.
pub data ConfigError : Type 0 where
  is_none : Field → ConfigError
  not_a_pubkey : ConfigError

abbrev pub is_some {ℓ} : {A : Type ℓ} → Option A → Bool
is_some none = false
is_some (some a) = true

abbrev pub lacking {ℓ} : {A : Type ℓ} → Field → Option A → List Field
lacking field none = field ∷ []
lacking field (some a) = []

-- A field of the new settings, where it is set.
abbrev pub over {ℓ} : {A : Type ℓ} → Option A → Option A → Option A
over none old = old
over (some a) old = some a

module _ {F : Type 0} where
  -- `Default::default()`
  abbrev pub unset : VolumeStrategyConfigArgs F
  unset = record {
    user_id = none;
    target_pool = none;
    tranche_size_sol = none;
    tranche_frequency_hbs = none;
    tranche_length_hbs = none;
    agents_buying_in_tranche = none;
    agents_selling_in_tranche = none;
    agents_keep_tokens_lamports = none;
  }

  unfoldable pub is_ready : VolumeStrategyConfigArgs F → Bool
  is_ready c =
      is_some c.tranche_size_sol
      && is_some c.tranche_frequency_hbs
      && is_some c.tranche_length_hbs
      && is_some c.target_pool
      && is_some c.agents_buying_in_tranche
      && is_some c.agents_selling_in_tranche

  unfoldable pub missing_fields : VolumeStrategyConfigArgs F → List Field
  missing_fields c =
      lacking tranche_size_field c.tranche_size_sol
      ++ lacking tranche_frequency_field c.tranche_frequency_hbs
      ++ lacking tranche_length_field c.tranche_length_hbs
      ++ lacking target_pool_field c.target_pool
      ++ lacking agents_buying_field c.agents_buying_in_tranche
      ++ lacking agents_selling_field c.agents_selling_in_tranche

  -- `self.update(new_config)`
  unfoldable pub update :
      VolumeStrategyConfigArgs F → VolumeStrategyConfigArgs F → VolumeStrategyConfigArgs F
  update self new_config = record {
    user_id = over new_config.user_id self.user_id;
    target_pool = over new_config.target_pool self.target_pool;
    tranche_size_sol = over new_config.tranche_size_sol self.tranche_size_sol;
    tranche_frequency_hbs = over new_config.tranche_frequency_hbs self.tranche_frequency_hbs;
    tranche_length_hbs = over new_config.tranche_length_hbs self.tranche_length_hbs;
    agents_buying_in_tranche =
        over new_config.agents_buying_in_tranche self.agents_buying_in_tranche;
    agents_selling_in_tranche =
        over new_config.agents_selling_in_tranche self.agents_selling_in_tranche;
    agents_keep_tokens_lamports =
        over new_config.agents_keep_tokens_lamports self.agents_keep_tokens_lamports;
  }

module _ (fl : Floats) (reader : Reader fl) where
  open fl use {F}

  -- `VolumeStrategyInstance::try_from`
  unfoldable pub try_from :
      VolumeStrategyConfigArgs F → Result ConfigError (VolumeStrategyInstance F)
  try_from c = do
    user_id ← ok_or c.user_id (is_none user_id_field)
    address ← ok_or c.target_pool (is_none target_pool_field)
    target_pool ← ok_or (reader.pubkey_from_str address) not_a_pubkey
    size ← ok_or c.tranche_size_sol (is_none tranche_size_field)
    frequency ← ok_or c.tranche_frequency_hbs (is_none tranche_frequency_field)
    length ← ok_or c.tranche_length_hbs (is_none tranche_length_field)
    buying ← ok_or c.agents_buying_in_tranche (is_none agents_buying_field)
    selling ← ok_or c.agents_selling_in_tranche (is_none agents_selling_field)
    keep ← ok_or c.agents_keep_tokens_lamports (is_none agents_keep_field)
    ok (record {
      user_id = user_id;
      target_pool = target_pool;
      tranche_size_sol = size;
      tranche_frequency_hbs = frequency;
      tranche_length_hbs = length;
      agents_buying_in_tranche = buying;
      agents_selling_in_tranche = selling;
      agents_keep_tokens_lamports = keep;
    })
