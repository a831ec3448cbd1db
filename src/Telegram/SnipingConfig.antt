-- ===== src/Telegram/SnipingConfig.antt =====
-- src/tg_bot/sniping_strategy_config_args.rs: the settings of a sniping strategy.
use foxfire_sniper.Base.{ℕ, Bool, false, ◌&&◌, Option, none, some, List, [], ◌∷◌, ◌++◌}
use foxfire_sniper.Base.Results.{Result, ok, ok_or, ◌>>=◌}
use foxfire_sniper.Types.{ℤ, pos}
use foxfire_sniper.Sniper.Floats.{Floats}
use foxfire_sniper.Telegram.Input.{Text}
use foxfire_sniper.Telegram.Config.{is_some, over}

pub record SnipingStrategyConfigArgs (F : Type 0) : Type 0 where
  pub user_id : Option ℕ
  pub sniper_privkey : Option Text
  pub size_sol : Option F
  pub stop_loss_percent_move_down : Option F
  pub take_profit_percent_move_up : Option F
  pub force_exit_horizon_s : Option ℤ
  pub max_simultaneous_snipes : Option ℤ
  pub min_pool_liquidity_sol : Option F
  pub skip_pump_fun : Option Bool
  pub skip_mintable : Option Bool
  pub buy_delay_ms : Option ℤ
  pub skip_if_price_drops_percent : Option F

-- src/types/sniping_strategy.rs, without the two instants.
pub record NewSnipingStrategyInstance (F : Type 0) : Type 0 where
  pub user_id : ℕ
  pub sniper_private_key : Text
  pub size_sol : F
  pub stop_loss_percent_move_down : F
  pub take_profit_percent_move_up : F
  pub force_exit_horizon_s : ℤ
  pub max_simultaneous_snipes : ℤ
  pub min_pool_liquidity_sol : F
  pub skip_pump_fun : Bool
  pub skip_mintable : Bool
  pub buy_delay_ms : ℤ
  pub skip_if_price_drops_percent : F

-- The fields that messages and errors name.
pub data Field : Type 0 where
  user_id_field sniper_privkey_field size_sol_field stop_loss_field : Field
  take_profit_field force_exit_horizon_field min_pool_liquidity_field : Field

abbrev unwrap_or {ℓ} : {A : Type ℓ} → Option A → A → A
unwrap_or none d = d
unwrap_or (some a) d = a

abbrev absent {ℓ} : {A : Type ℓ} → Field → Option A → List Field
absent field none = field ∷ []
absent field (some a) = []

module _ {F : Type 0} where
  unfoldable pub is_ready : SnipingStrategyConfigArgs F → Bool
  is_ready c =
      is_some c.sniper_privkey
      && is_some c.size_sol
      && is_some c.stop_loss_percent_move_down
      && is_some c.take_profit_percent_move_up
      && is_some c.force_exit_horizon_s
      && is_some c.max_simultaneous_snipes
      && is_some c.min_pool_liquidity_sol

  unfoldable pub missing_fields : SnipingStrategyConfigArgs F → List Field
  missing_fields c =
      absent size_sol_field c.size_sol
      ++ absent stop_loss_field c.stop_loss_percent_move_down
      ++ absent take_profit_field c.take_profit_percent_move_up
      ++ absent force_exit_horizon_field c.force_exit_horizon_s

  -- `self.update(new_config)`: six fields of the new settings are never read.
  unfoldable pub update :
      SnipingStrategyConfigArgs F → SnipingStrategyConfigArgs F → SnipingStrategyConfigArgs F
  update self new_config = record self {
    user_id = over new_config.user_id self.user_id;
    sniper_privkey = over new_config.sniper_privkey self.sniper_privkey;
    size_sol = over new_config.size_sol self.size_sol;
    stop_loss_percent_move_down =
        over new_config.stop_loss_percent_move_down self.stop_loss_percent_move_down;
    take_profit_percent_move_up =
        over new_config.take_profit_percent_move_up self.take_profit_percent_move_up;
    force_exit_horizon_s = over new_config.force_exit_horizon_s self.force_exit_horizon_s;
  }

module _ (fl : Floats) where
  open fl use {F}

  -- `NewSnipingStrategyInstance::try_from`; the error is that the field is None.
  unfoldable pub try_from :
      SnipingStrategyConfigArgs F → Result Field (NewSnipingStrategyInstance F)
  try_from c = do
    user_id ← ok_or c.user_id user_id_field
    key ← ok_or c.sniper_privkey sniper_privkey_field
    size ← ok_or c.size_sol size_sol_field
    stop_loss ← ok_or c.stop_loss_percent_move_down stop_loss_field
    take_profit ← ok_or c.take_profit_percent_move_up take_profit_field
    horizon ← ok_or c.force_exit_horizon_s force_exit_horizon_field
    liquidity ← ok_or c.min_pool_liquidity_sol min_pool_liquidity_field
    ok (record {
      user_id = user_id;
      sniper_private_key = key;
      size_sol = size;
      stop_loss_percent_move_down = stop_loss;
      take_profit_percent_move_up = take_profit;
      force_exit_horizon_s = horizon;
      max_simultaneous_snipes = unwrap_or c.max_simultaneous_snipes (pos 1);
      min_pool_liquidity_sol = liquidity;
      skip_pump_fun = unwrap_or c.skip_pump_fun false;
      skip_mintable = unwrap_or c.skip_mintable false;
      buy_delay_ms = unwrap_or c.buy_delay_ms (pos 0);
      skip_if_price_drops_percent = unwrap_or c.skip_if_price_drops_percent (fl.lit 0);
    })
