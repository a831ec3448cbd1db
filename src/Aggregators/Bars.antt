-- ===== src/Aggregators/Bars.antt =====
-- The bars of src/aggregators/tick_bar.rs over a run of ticks, and what is reported of them.
use foxfire_sniper.Base.{
  ℕ, ◌+◌, ◌*◌, ◌<◌, ◌≡◌, refl, sym, ap, ◌∙◌, subst, Option, none, some, List, [], ◌∷◌, ◌++◌, map,
  find, arith,
}
use mathlib.Core.List.{map-append}
use foxfire_sniper.Types.{u32_mod}
use foxfire_sniper.Aggregators.Library.{Yata}
use foxfire_sniper.Aggregators.TickBar as Bar
use foxfire_sniper.Aggregators.TickBar.{TickBar, update_with_tick, is_complete}
use foxfire_sniper.Aggregators.TickBars
use foxfire_sniper.Aggregators.TickBars.{
  TickBarValue, TickBarWithPeriod, TickBarsCache, tick, each_size,
}

-- The numbers of the ticks and of the completed bars.
abbrev pub count {ℓ} : {A : Type ℓ} → List A → ℕ
count [] = 0
count (x ∷ xs) = count xs + 1

abbrev completed {ℓ} : {A : Type ℓ} → Option A → ℕ
completed none = 0
completed (some _) = 1

module _ {F : Type 0} (yata : Yata F) where
  -- A run of `TickBar::next`: the bar at the end, and how often a candle was returned.
  unfoldable pub run : List (F × F) → TickBar yata → TickBar yata × ℕ
  unfolding Bar.next
  run [] bar = (bar, 0)
  run ((price, volume) ∷ ticks) bar =
      let (bar', candle) = Bar.next yata price volume bar in
      let (end, bars) = run ticks bar' in (end, completed candle + bars)

  next-count :
      (price volume : F) (bar : TickBar yata)
      → bar.tick_count < bar.forming_period
      → bar.forming_period < u32_mod
      → let (after, candle) = Bar.next yata price volume bar in
        (after.forming_period ≡ bar.forming_period)
        × (after.tick_count < bar.forming_period)
        × (completed candle * bar.forming_period + after.tick_count ≡ bar.tick_count + 1)
  unfolding Bar.next update_with_tick is_complete
  next-count price volume bar forming fits = ground arith

  -- A bar of a period that fits u32 returns a candle once in every period: over any run of ticks the
  -- candles that were returned, each counted with the period, and the ticks of the bar that is forming
  -- are all ticks, those at the start included; the forming bar always has fewer ticks than the period,
  -- which stays the same.
  pub next-counts :
      (ticks : List (F × F)) (bar : TickBar yata)
      → bar.tick_count < bar.forming_period
      → bar.forming_period < u32_mod
      → let (end, bars) = run ticks bar in
        (end.forming_period ≡ bar.forming_period)
        × (end.tick_count < bar.forming_period)
        × (bars * bar.forming_period + end.tick_count ≡ bar.tick_count + count ticks)
  unfolding run
  next-counts [] bar forming fits = (refl, forming, ground arith)
  next-counts ((price, volume) ∷ ticks) bar forming fits =
      let (bar', candle) = Bar.next yata price volume bar in
      let (same, less, sums) = next-count price volume bar forming fits in
      let (same', less', sums') =
        next-counts ticks bar' (subst (λ p. bar'.tick_count < p) (sym same) less)
          (subst (λ p. p < u32_mod) (sym same) fits) in
      let rest = (run ticks bar').1 in
      let at : (run ticks bar').1 * bar.forming_period + (run ticks bar').0.tick_count
          ≡ bar'.tick_count + count ticks =
        subst (λ p. rest * p + (run ticks bar').0.tick_count ≡ bar'.tick_count + count ticks) same
          sums' in
      (
        same' ∙ same,
        subst (λ p. (run ticks bar').0.tick_count < p) same less',
        grind (arith, at, sums),
      )

  next-reset :
      (price volume : F) (bar : TickBar yata) (candle : yata.Candle)
      → (Bar.next yata price volume bar).1 ≡ some candle
      → (Bar.next yata price volume bar).0.candle ≡ yata.default_candle
  unfolding Bar.next update_with_tick is_complete
  next-reset price volume bar candle h = ground arith

  blank : List (TickBarValue yata) → List yata.Candle
  blank = map (λ v. yata.default_candle)

  report-blank :
      (period : ℕ) (after : TickBar yata) (candle : Option yata.Candle)
      → ((c : yata.Candle) → candle ≡ some c → after.candle ≡ yata.default_candle)
      → map (λ v. v.t_bar) (TickBars.report yata period after candle)
        ≡ blank (TickBars.report yata period after candle)
  unfolding blank
  report-blank period after none reset = refl
  report-blank period after (some candle) reset = ap (λ c. c ∷ []) (reset candle refl)

  tick-blank :
      (price volume : F) (period : ℕ) (indicators : Option (TickBarWithPeriod yata))
      (bars : List (ℕ × TickBarWithPeriod yata))
      → let events = (tick yata price volume period indicators bars).1 in
        map (λ v. v.t_bar) events ≡ blank events
  unfolding tick blank
  tick-blank price volume period none bars = refl
  tick-blank price volume period (some indicators) bars =
      let (after, candle) = Bar.next yata price volume indicators.t_bar in
      report-blank period after candle (next-reset price volume indicators.t_bar)

  each_size-blank :
      (price volume : F) (sizes : List ℕ) (bars : List (ℕ × TickBarWithPeriod yata))
      → let events = (each_size yata price volume sizes bars).1 in
        map (λ v. v.t_bar) events ≡ blank events
  unfolding each_size blank
  each_size-blank price volume [] bars = refl
  each_size-blank price volume (period ∷ sizes) bars =
      let (bars', events) = tick yata price volume period (find period bars) bars in
      let more = (each_size yata price volume sizes bars').1 in
      map-append (λ v. v.t_bar) events more
      ∙ ap (λ cs. cs ++ map (λ v. v.t_bar) more)
          (tick-blank price volume period (find period bars) bars)
      ∙ ap (λ cs. blank events ++ cs) (each_size-blank price volume sizes bars')
      ∙ sym (map-append (λ v. yata.default_candle) events more)

  -- Every bar that is reported is blank: the candle is read after the bar was reset, so whatever the
  -- prices and the volumes of its ticks were, it is the default one.
  pub next-blank :
      (price volume : F) (cache : TickBarsCache yata)
      → let events = (TickBars.next yata price volume cache).1 in
        map (λ v. v.t_bar) events ≡ map (λ v. yata.default_candle) events
  unfolding TickBars.next blank
  next-blank price volume cache = each_size-blank price volume cache.bar_sizes cache.tick_bars
