-- ===== src/Aggregators/EveryTick.antt =====
-- src/aggregators/every_tick_indicators.rs: the indicators of a pool, four for each length.
use foxfire_sniper.Base.{
  ℕ, Option, none, some, List, [], ◌∷◌, ◌++◌, find, put_key, Outcome, done, ◌>>=◌, unwrap,
}
use foxfire_sniper.Aggregators.Library.{Yata}

module _ {F : Type 0} (yata : Yata F) where
  pub record EveryTickIndicatorsValue : Type 0 where
    pub t_tema : F
    pub t_ema : F
    pub t_rsi : yata.IndicatorResult
    pub t_bollinger : yata.IndicatorResult

  pub record EveryTickIndicators : Type 0 where
    pub t_tema : yata.Tema
    pub t_ema : yata.Ema
    pub t_rsi : yata.Rsi
    pub t_bollinger : yata.Bollinger

  pub record EveryTickIndicatorsCache : Type 0 where
    pub lengths : List ℕ
    pub every_tick_indicators : List (ℕ × EveryTickIndicators)

  unfoldable pub new_indicators : ℕ → F → F → Outcome EveryTickIndicators
  new_indicators length price volume =
      let first_candle = yata.candle_of price volume in
      do
        tema ← unwrap (yata.new_tema length price)
        ema ← unwrap (yata.new_ema length price)
        rsi ← unwrap (yata.init_rsi length first_candle)
        bollinger ← unwrap (yata.init_bollinger length first_candle)
        done (record { t_tema = tema; t_ema = ema; t_rsi = rsi; t_bollinger = bollinger })

  unfoldable pub next_indicators :
      F → F → EveryTickIndicators → EveryTickIndicators × EveryTickIndicatorsValue
  next_indicators price volume i =
      let next_tick_candle = yata.candle_of price volume in
      let (tema, tema_value) = yata.next_tema i.t_tema price in
      let (ema, ema_value) = yata.next_ema i.t_ema price in
      let (rsi, rsi_value) = yata.next_rsi i.t_rsi next_tick_candle in
      let (bollinger, bollinger_value) = yata.next_bollinger i.t_bollinger next_tick_candle in
      (
        record { t_tema = tema; t_ema = ema; t_rsi = rsi; t_bollinger = bollinger },
        record {
          t_tema = tema_value;
          t_ema = ema_value;
          t_rsi = rsi_value;
          t_bollinger = bollinger_value;
        },
      )

  abbrev pub new : List ℕ → EveryTickIndicatorsCache
  new lengths = record { lengths = lengths; every_tick_indicators = [] }

  -- One turn of the loop: the indicators of one length.
  unfoldable pub tick :
      F
      → F
      → ℕ
      → Option EveryTickIndicators
      → List (ℕ × EveryTickIndicators)
      → Outcome (List (ℕ × EveryTickIndicators) × List EveryTickIndicatorsValue)
  unfolding new_indicators next_indicators
  tick price volume length none all = do
    first ← new_indicators length price volume
    done (put_key length first all, [])
  tick price volume length (some indicators) all =
      let (after, value) = next_indicators price volume indicators in
      done (put_key length after all, value ∷ [])

  unfoldable pub each_length :
      F
      → F
      → List ℕ
      → List (ℕ × EveryTickIndicators)
      → Outcome (List (ℕ × EveryTickIndicators) × List EveryTickIndicatorsValue)
  unfolding tick
  each_length price volume [] all = done (all, [])
  each_length price volume (length ∷ lengths) all = do
    (all', events) ← tick price volume length (find length all) all
    (all'', more) ← each_length price volume lengths all'
    done (all'', events ++ more)

  unfoldable pub next :
      F
      → F
      → EveryTickIndicatorsCache
      → Outcome (EveryTickIndicatorsCache × List EveryTickIndicatorsValue)
  unfolding each_length
  next price volume cache = do
    (all, events) ← each_length price volume cache.lengths cache.every_tick_indicators
    done (record cache { every_tick_indicators = all }, events)
