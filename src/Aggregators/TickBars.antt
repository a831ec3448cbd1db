-- ===== src/Aggregators/TickBars.antt =====
-- src/aggregators/period_indicators.rs: the bars of a pool, one for each size.
use foxfire_sniper.Base.{ℕ, Option, none, some, List, [], ◌∷◌, ◌++◌, find, put_key}
use foxfire_sniper.Aggregators.Library.{Yata}
use foxfire_sniper.Aggregators.TickBar as Bar
use foxfire_sniper.Aggregators.TickBar.{TickBar}

module _ {F : Type 0} (yata : Yata F) where
  pub record TickBarValue : Type 0 where
    pub period : ℕ
    pub t_bar : yata.Candle

  pub record TickBarWithPeriod : Type 0 where
    pub period : ℕ
    pub t_bar : TickBar yata

  pub record TickBarsCache : Type 0 where
    pub bar_sizes : List ℕ
    pub tick_bars : List (ℕ × TickBarWithPeriod)

  abbrev pub new : List ℕ → TickBarsCache
  new bar_sizes = record { bar_sizes = bar_sizes; tick_bars = [] }

  -- The candle is read from the bar after `TickBar::next`, not from what it returned.
  abbrev pub report : ℕ → TickBar yata → Option yata.Candle → List TickBarValue
  report period after none = []
  report period after (some candle) = record { period = period; t_bar = after.candle } ∷ []

  -- One turn of the loop: the bar of one size.
  unfoldable pub tick :
      F
      → F
      → ℕ
      → Option TickBarWithPeriod
      → List (ℕ × TickBarWithPeriod)
      → List (ℕ × TickBarWithPeriod) × List TickBarValue
  unfolding Bar.next
  tick price volume period none bars =
      (put_key period (record { period = period; t_bar = Bar.new yata period }) bars, [])
  tick price volume period (some indicators) bars =
      let (after, candle) = Bar.next yata price volume indicators.t_bar in
      (put_key period (record indicators { t_bar = after }) bars, report period after candle)

  unfoldable pub each_size :
      F
      → F
      → List ℕ
      → List (ℕ × TickBarWithPeriod)
      → List (ℕ × TickBarWithPeriod) × List TickBarValue
  unfolding tick
  each_size price volume [] bars = (bars, [])
  each_size price volume (period ∷ sizes) bars =
      let (bars', events) = tick price volume period (find period bars) bars in
      let (bars'', more) = each_size price volume sizes bars' in (bars'', events ++ more)

  unfoldable pub next : F → F → TickBarsCache → TickBarsCache × List TickBarValue
  unfolding each_size
  next price volume cache =
      let (bars, events) = each_size price volume cache.bar_sizes cache.tick_bars in
      (record cache { tick_bars = bars }, events)
