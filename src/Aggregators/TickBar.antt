-- ===== src/Aggregators/TickBar.antt =====
-- src/aggregators/tick_bar.rs: a bar that forms over a number of ticks.
use foxfire_sniper.Base.{ℕ, ◌+◌, ◌%◌, Bool, leb, if◌then◌else◌, Option, none, some}
use foxfire_sniper.Types.{u32_mod}
use foxfire_sniper.Aggregators.Library.{Yata}

module _ {F : Type 0} (yata : Yata F) where
  pub record TickBar : Type 0 where
    pub candle : yata.Candle
    pub tick_count : ℕ
    pub forming_period : ℕ

  -- The price and volume that the source takes are not read.
  abbrev pub new : ℕ → TickBar
  new period = record { candle = yata.default_candle; tick_count = 0; forming_period = period }

  unfoldable pub update_with_tick : F → F → TickBar → TickBar
  update_with_tick price volume bar = record bar {
    candle = yata.add bar.candle price volume;
    tick_count = (bar.tick_count + 1) % u32_mod;
  }

  unfoldable pub is_complete : TickBar → Bool
  is_complete bar = leb bar.forming_period bar.tick_count

  unfoldable pub next : F → F → TickBar → TickBar × Option yata.Candle
  unfolding update_with_tick is_complete
  next price volume bar =
      let bar' = update_with_tick price volume bar in
      if is_complete bar' then (new bar'.forming_period, some bar'.candle) else (bar', none)
