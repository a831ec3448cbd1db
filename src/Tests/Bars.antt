-- ===== src/Tests/Bars.antt =====
-- Runs of src/aggregators, with numbers for prices and the sum of the prices for a candle.
use foxfire_sniper.Base.{ℕ, ◌+◌, ◌*◌, ◌<◌, ◌≡◌, refl, List, [], ◌∷◌, map, done, some, arith}
use foxfire_sniper.Aggregators.Library.{Yata}
use foxfire_sniper.Aggregators.TickBar as Bar
use foxfire_sniper.Aggregators.TickBar.{TickBar}
use foxfire_sniper.Aggregators.TickBars
use foxfire_sniper.Aggregators.TickBars.{TickBarsCache}
use foxfire_sniper.Aggregators.Indicators.{
  swap_event, TickIndicatorsAggregator, aggregate_event, tick_bar_event, DerivedEvent,
}
use foxfire_sniper.Aggregators.EveryTick
use foxfire_sniper.Aggregators.Bars.{run, count, next-counts, next-blank}

-- An indicator is the last price that it was given.
abbrev yata : Yata ℕ
yata = record {
  Candle = ℕ;
  default_candle = 0;
  add = λ c p v. c + p;
  candle_of = λ p v. p;
  Tema = ℕ;
  Ema = ℕ;
  Rsi = ℕ;
  Bollinger = ℕ;
  IndicatorResult = ℕ;
  new_tema = λ n p. some p;
  new_ema = λ n p. some p;
  init_rsi = λ n c. some c;
  init_bollinger = λ n c. some c;
  next_tema = λ t p. (p, t);
  next_ema = λ t p. (p, t);
  next_rsi = λ t c. (c, t);
  next_bollinger = λ t c. (c, t);
}

-- A bar of three ticks that has one, and five more.
abbrev bar : TickBar yata
bar = record { candle = 7; tick_count = 1; forming_period = 3 }

abbrev ticks : List (ℕ × ℕ)
ticks = (5, 1) ∷ (6, 1) ∷ (7, 1) ∷ (8, 1) ∷ (9, 1) ∷ []

next-counts_example :
    let (end, bars) = run yata ticks bar in
    (end.forming_period ≡ 3) × (end.tick_count < 3) × (bars * 3 + end.tick_count ≡ 1 + count ticks)
next-counts_example = next-counts yata ticks bar (omega arith) (omega arith)

-- A bar of two ticks that the next tick completes.
abbrev bars : TickBarsCache yata
bars = record {
  bar_sizes = 2 ∷ [];
  tick_bars =
      (2, record { period = 2; t_bar = record { candle = 7; tick_count = 1; forming_period = 2 } })
      ∷ [];
}

next-blank_example :
    map (λ v. v.t_bar) (TickBars.next yata 5 1 bars).1
    ≡ map (λ v. 0) (TickBars.next yata 5 1 bars).1
next-blank_example = next-blank yata 5 1 bars

completed_bar : map (λ v. v.t_bar) (TickBars.next yata 5 1 bars).1 ≡ 0 ∷ []
unfolding TickBars.next
completed_bar = refl

abbrev pools : TickIndicatorsAggregator yata
pools = record {
  config = record { indicator_periods_in_ticks = 4 ∷ []; tick_bar_sizes = 2 ∷ [] };
  indicators =
      (30, record { every_tick_indicators = EveryTick.new yata []; tick_bars = bars })
      ∷ (31, record { every_tick_indicators = EveryTick.new yata []; tick_bars = bars })
      ∷ [];
}

abbrev blank_event : DerivedEvent yata
blank_event = tick_bar_event 30 (record { period = 2; t_bar = 0 })

abbrev pools_after : TickIndicatorsAggregator yata
pools_after = record pools {
  indicators =
      (
        30,
        record {
          every_tick_indicators = EveryTick.new yata [];
          tick_bars = record bars {
            tick_bars = (2, record { period = 2; t_bar = Bar.new yata 2 }) ∷ [];
          };
        },
      )
      ∷ (31, record { every_tick_indicators = EveryTick.new yata []; tick_bars = bars })
      ∷ [];
}

swapped : aggregate_event yata (swap_event 30 5 1) pools ≡ done (pools_after, blank_event ∷ [])
unfolding aggregate_event
swapped = refl
