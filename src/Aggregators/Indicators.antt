-- ===== src/Aggregators/Indicators.antt =====
-- src/aggregators/indicators_data.rs and tick_indicators_aggregator.rs.
use foxfire_sniper.Base.{
  ℕ, Option, none, some, List, [], ◌++◌, map, find, put_key, Outcome, done, ◌>>=◌,
}
use foxfire_sniper.Types.{Pubkey}
use foxfire_sniper.Aggregators.Library.{Yata}
use foxfire_sniper.Aggregators.TickBars
use foxfire_sniper.Aggregators.TickBars.{TickBarsCache, TickBarValue}
use foxfire_sniper.Aggregators.EveryTick
use foxfire_sniper.Aggregators.EveryTick.{EveryTickIndicatorsCache, EveryTickIndicatorsValue}

pub record AggregatorConfig : Type 0 where
  pub indicator_periods_in_ticks : List ℕ
  pub tick_bar_sizes : List ℕ

-- What the aggregator reads of an event: of a swap its pool, price and volume.
pub data Received (F : Type 0) : Type 0 where
  swap_event : Pubkey → F → F → Received F
  other_event : Received F

module _ {F : Type 0} (yata : Yata F) where
  pub data DerivedEvent : Type 0 where
    tick_indicator_event : Pubkey → EveryTickIndicatorsValue yata → DerivedEvent
    tick_bar_event : Pubkey → TickBarValue yata → DerivedEvent

  pub record IndicatorsData : Type 0 where
    pub every_tick_indicators : EveryTickIndicatorsCache yata
    pub tick_bars : TickBarsCache yata

  pub record TickIndicatorsAggregator : Type 0 where
    pub config : AggregatorConfig
    pub indicators : List (Pubkey × IndicatorsData)

  -- `IndicatorsData::new(bar_sizes, lengths)`
  unfoldable pub new : List ℕ → List ℕ → IndicatorsData
  new bar_sizes lengths = record {
    every_tick_indicators = EveryTick.new yata lengths;
    tick_bars = TickBars.new yata bar_sizes;
  }

  -- A tick of a pool that has indicators.
  unfoldable pub next :
      Pubkey → F → F → IndicatorsData → Outcome (IndicatorsData × List DerivedEvent)
  unfolding EveryTick.next TickBars.next
  next pool price volume data_of = do
    (every_tick, values) ← EveryTick.next yata price volume data_of.every_tick_indicators
    let (bars, completed) = TickBars.next yata price volume data_of.tick_bars in
        done (
          record { every_tick_indicators = every_tick; tick_bars = bars },
          map (tick_indicator_event pool) values ++ map (tick_bar_event pool) completed,
        )

  unfoldable pub on_swap :
      Pubkey
      → F
      → F
      → Option IndicatorsData
      → TickIndicatorsAggregator
      → Outcome (TickIndicatorsAggregator × List DerivedEvent)
  unfolding new next
  on_swap pool price volume none g =
      let data_of = new g.config.indicator_periods_in_ticks g.config.tick_bar_sizes in
      done (record g { indicators = put_key pool data_of g.indicators }, [])
  on_swap pool price volume (some before) g = do
    (after, events) ← next pool price volume before
    done (record g { indicators = put_key pool after g.indicators }, events)

  unfoldable pub aggregate_event :
      Received F → TickIndicatorsAggregator → Outcome (TickIndicatorsAggregator × List DerivedEvent)
  unfolding on_swap
  aggregate_event other_event g = done (g, [])
  aggregate_event (swap_event pool price volume) g =
      on_swap pool price volume (find pool g.indicators) g
