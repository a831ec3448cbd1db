-- ===== src/Telegram/Session.antt =====
-- What a handler of src/tg_bot works on and what it reads from outside, and the user of a message
-- (src/tg_bot/helpers/username.rs).
use foxfire_sniper.Base.{
  ℕ, Bool, false, not, ◌&&◌, Option, none, some, List, contains, if◌then◌else◌,
}
use foxfire_sniper.Types.{Pubkey}
use foxfire_sniper.Sniper.Floats.{Floats}
use foxfire_sniper.Manager.Identifiers.{StrategyId}
use foxfire_sniper.Manager.Registry.{Manager, Host}
use foxfire_sniper.Telegram.Input.{Text}
use foxfire_sniper.Telegram.Config.{VolumeStrategyConfigArgs, VolumeStrategyInstance}
use foxfire_sniper.Telegram.Dialogue.{State}

-- The stored dialogue of a chat, the strategy manager, and the instances that were handed to it,
-- the last one first.
pub record Session (F : Type 0) : Type 0 where
  pub dialogue : State F
  pub manager : Manager
  pub launched : List (VolumeStrategyInstance F)

pub data Command : Type 0 where
  start collect no_command : Command

pub record Sender : Type 0 where
  pub is_bot : Bool
  pub has_username : Bool

pub record BotUser : Type 0 where
  pub id : ℕ
  pub chat_id : ℕ

-- The message or the press that is handled (chats are compared only, so they are numbers), and what the calls of the handler come to: Telegram
-- (`asked` is the identifier of a message that was sent), Redis (`loads`, `saves`), the database,
-- the RPC nodes and the settings.
pub record Env (fl : Floats) : Type 0 where
  pub chat_id : ℕ
  pub is_private : Bool
  pub sender : Option Sender
  pub command : Command
  pub text : Option Text
  pub pressed : Option ℕ
  pub loads : Bool
  pub saves : Bool
  pub asked : Option ℕ
  pub deletes : Bool
  pub renders : Bool
  pub row : Option BotUser
  pub creates_user : Bool
  pub whitelisted_chat_ids : Option (List ℕ)
  pub admin_chat_ids : Option (List ℕ)
  pub minimum_deposit_sol : fl.F
  pub volume_config : Option (VolumeStrategyConfigArgs fl.F)
  pub balance : Option fl.F
  pub valid_pool : Pubkey → Bool
  pub constructs : Bool
  pub owner : StrategyId → Option ℕ
  pub swept : List StrategyId
  pub sweeps : StrategyId → Bool
  pub host : Host

-- `get_user_from_user_message(…).is_some()`
unfoldable pub get_user_from_user_message : Option Sender → Bool
get_user_from_user_message none = false
get_user_from_user_message (some s) = not s.is_bot && s.has_username

abbrev pub allowed : Option (List ℕ) → BotUser → Option BotUser
allowed none user = some user
allowed (some ids) user = if contains user.chat_id ids then some user else none

abbrev pub known_user : Option (List ℕ) → Option BotUser → Option BotUser
known_user ids none = none
known_user ids (some user) = allowed ids user

module _ {fl : Floats} where
  open fl use {F}

  -- `none` is an error.
  unfoldable pub get_user_from_button_press : Env fl → Option BotUser
  get_user_from_button_press env = known_user env.whitelisted_chat_ids env.row

  -- `dialogue.update(…).await?`
  abbrev pub save : Env fl → State F → Session F → Session F
  save env st s = if env.saves then record s { dialogue = st } else s
