-- ===== src/Aggregators/Library.antt =====
-- What src/aggregators uses of the crate yata, over the type `F` of f64.
use foxfire_sniper.Base.{ℕ, Option}

-- `add` is what a candle is after `candle.add(…)` with a tick of that price and volume; `candle_of`
-- is `Candle::from` of such a tick. The constructors of the indicators may refuse.
pub record Yata (F : Type 0) : Type 1 where
  pub Candle : Type 0
  pub default_candle : Candle
  pub add : Candle → F → F → Candle
  pub candle_of : F → F → Candle
  pub Tema : Type 0
  pub Ema : Type 0
  pub Rsi : Type 0
  pub Bollinger : Type 0
  pub IndicatorResult : Type 0
  pub new_tema : ℕ → F → Option Tema
  pub new_ema : ℕ → F → Option Ema
  pub init_rsi : ℕ → Candle → Option Rsi
  pub init_bollinger : ℕ → Candle → Option Bollinger
  pub next_tema : Tema → F → Tema × F
  pub next_ema : Ema → F → Ema × F
  pub next_rsi : Rsi → Candle → Rsi × IndicatorResult
  pub next_bollinger : Bollinger → Candle → Bollinger × IndicatorResult
