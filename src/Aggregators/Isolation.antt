-- ===== src/Aggregators/Isolation.antt =====
-- What an event means for the pools of src/aggregators/tick_indicators_aggregator.rs.
use foxfire_sniper.Base.{
  ◌≡◌, refl, sym, ap, ◌∙◌, subst, false, ◌==◌, if◌then◌else◌, Option, none, some, List, [], ◌∷◌,
  ◌++◌, map, find, find-put_key, done, Outcome-bind_inv,
}
use mathlib.Core.List.{map-append}
use foxfire_sniper.Types.{Pubkey}
use foxfire_sniper.Statechart.Runs.{done-injective}
use foxfire_sniper.Aggregators.Library.{Yata}
use foxfire_sniper.Aggregators.TickBars
use foxfire_sniper.Aggregators.TickBars.{TickBarValue}
use foxfire_sniper.Aggregators.EveryTick
use foxfire_sniper.Aggregators.EveryTick.{EveryTickIndicatorsValue}
use foxfire_sniper.Aggregators.Indicators.{
  swap_event, DerivedEvent, tick_indicator_event, tick_bar_event, IndicatorsData,
  TickIndicatorsAggregator, new, next, on_swap, aggregate_event,
}

module _ {F : Type 0} (yata : Yata F) where
  abbrev pub pool_of : DerivedEvent yata → Pubkey
  pool_of (tick_indicator_event pool _) = pool
  pool_of (tick_bar_event pool _) = pool

  named :
      {A : Type 0} (pool : Pubkey) (event : A → DerivedEvent yata) (xs : List A)
      → ((x : A) → pool_of (event x) ≡ pool)
      → map pool_of (map event xs) ≡ map (λ e. pool) (map event xs)
  named pool event [] same = refl
  named pool event (x ∷ xs) same =
      ap (λ p. p ∷ map pool_of (map event xs)) (same x)
      ∙ ap (λ ps. pool ∷ ps) (named pool event xs same)

  next-pool :
      (pool : Pubkey) (price volume : F) (before after : IndicatorsData yata)
      (events : List (DerivedEvent yata))
      → next yata pool price volume before ≡ done (after, events)
      → map pool_of events ≡ map (λ e. pool) events
  unfolding next
  next-pool pool price volume before after events h =
      let ((every_tick, values), _, r) =
        Outcome-bind_inv (EveryTick.next yata price volume before.every_tick_indicators) _ h in
      let bars = (TickBars.next yata price volume before.tick_bars).1 in
      let es = map (tick_indicator_event pool) values in
      let fs = map (tick_bar_event pool) bars in
      let e : es ++ fs ≡ events = ap (λ x. x.1) (done-injective r) in
      subst (λ out. map pool_of out ≡ map (λ e. pool) out) e
        (map-append pool_of es fs
          ∙ ap (λ ps. ps ++ map pool_of fs)
              (named pool (tick_indicator_event pool) values (λ v. refl))
          ∙ ap (λ ps. map (λ e. pool) es ++ ps) (named pool (tick_bar_event pool) bars (λ v. refl))
          ∙ sym (map-append (λ e. pool) es fs))

  on_swap-isolated :
      (pool other : Pubkey) (price volume : F) (before : Option (IndicatorsData yata))
      (g g' : TickIndicatorsAggregator yata) (events : List (DerivedEvent yata))
      → (pool == other) ≡ false
      → on_swap yata pool price volume before g ≡ done (g', events)
      → (find other g'.indicators ≡ find other g.indicators)
        × (map pool_of events ≡ map (λ e. pool) events)
  unfolding on_swap
  on_swap-isolated pool other price volume none g g' events apart h =
      let e = done-injective h in
      let fresh = new yata g.config.indicator_periods_in_ticks g.config.tick_bar_sizes in
      (
        sym (ap (λ x. find other x.0.indicators) e)
            ∙ find-put_key other pool fresh g.indicators
            ∙ ap (λ b. if b then some fresh else find other g.indicators) apart,
        subst (λ out. map pool_of out ≡ map (λ e. pool) out) (ap (λ x. x.1) e) refl,
      )
  on_swap-isolated pool other price volume (some before) g g' events apart h =
      let ((after, made), n, r) = Outcome-bind_inv (next yata pool price volume before) _ h in
      let e = done-injective r in
      (
        sym (ap (λ x. find other x.0.indicators) e)
            ∙ find-put_key other pool after g.indicators
            ∙ ap (λ b. if b then some after else find other g.indicators) apart,
        subst (λ out. map pool_of out ≡ map (λ e. pool) out) (ap (λ x. x.1) e)
            (next-pool pool price volume before after made n),
      )

  -- A swap of a pool that the aggregator takes without a panic leaves the indicators and the bars of
  -- every other pool as they were, and every event that is derived names the pool of the swap.
  pub aggregate_event-isolated :
      (pool other : Pubkey) (price volume : F) (g g' : TickIndicatorsAggregator yata)
      (events : List (DerivedEvent yata))
      → (pool == other) ≡ false
      → aggregate_event yata (swap_event pool price volume) g ≡ done (g', events)
      → (find other g'.indicators ≡ find other g.indicators)
        × (map pool_of events ≡ map (λ e. pool) events)
  unfolding aggregate_event
  aggregate_event-isolated pool other price volume g g' events apart h =
      on_swap-isolated pool other price volume (find pool g.indicators) g g' events apart h
