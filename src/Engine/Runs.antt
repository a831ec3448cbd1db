-- ===== src/Engine/Runs.antt =====
-- The engine over any steps: src/engine.rs.
use mathlib.Core.List.{Perm}
use mathlib.Core.List.Perm
use foxfire_sniper.Base.{
  ℕ, ◌≡◌, inl, inr, refl, sym, ap, ◌∙◌, subst, Option, none, some, List, [], ◌∷◌, ◌++◌, get_elem?,
}
use foxfire_sniper.Engine.{
  recv, got, Engine, Step, collected, aggregated, aggregator_lags, decided, received, executor_lags,
  executed, aggregate, spawn, reported, finish, step, run, started,
}
use foxfire_sniper.Engine.Order.{IsInOrder, sent-IsInOrder, recv-cases, lag-IsInOrder, seen-lag}
use foxfire_sniper.Engine.Tasks.{
  put_at-holds, spawned-perm, finished-perm, after, after-snoc, Aggregates, Aggregates-more,
  Executes, none_sent,
}

module _ {E A S : Type 0} (aggregate_event : ℕ → E → S → S × List E) where
  pub record IsOrdered (first : ℕ → S) (s : Engine E A S) : Type 0 where
    pub aggregators : (i : ℕ) → Aggregates aggregate_event (first i) i s.events (s.aggregators i)
    pub executors : (i : ℕ) → Executes s.actions (s.executors i)

  aggregate-IsOrdered :
      (first : ℕ → S) (i : ℕ) (e : E) (s : Engine E A S)
      → IsInOrder s.events (got (s.aggregators i).receiver (some e)).1
      → IsOrdered first s
      → IsOrdered first (
          aggregate aggregate_event i (s.aggregators i) (got (s.aggregators i).receiver (some e)) s)
  aggregate-IsOrdered first i e s next h =
      let g = s.aggregators i in
      let out = aggregate_event i e g.state in
      record {
        aggregators =
            put_at-holds (λ j. Aggregates aggregate_event (first j) j (s.events ++ out.1)) i _
              s.aggregators
              (record {
                in_order = sent-IsInOrder s.events out.1 _ next;
                state =
                    ap (λ t. (aggregate_event i e t).0) (h.aggregators i).state
                    ∙ sym (after-snoc aggregate_event i (first i) g.receiver.seen e);
              })
              (λ j.
                Aggregates-more aggregate_event (first j) j s.events out.1 (s.aggregators j)
                  (h.aggregators j));
        executors = h.executors;
      }

  spawn-IsOrdered :
      (first : ℕ → S) (i : ℕ) (a : A) (s : Engine E A S)
      → IsInOrder s.actions (got (s.executors i).receiver (some a)).1
      → IsOrdered first s
      → IsOrdered first
          (spawn aggregate_event i (s.executors i) (got (s.executors i).receiver (some a)) s)
  spawn-IsOrdered first i a s next h =
      let x = s.executors i in
      record {
        aggregators = h.aggregators;
        executors =
            put_at-holds (λ j. Executes s.actions) i _ s.executors
              (record {
                in_order = next;
                each = spawned-perm x.running x.finished x.receiver.seen a (h.executors i).each;
              })
              h.executors;
      }

  finish-IsOrdered :
      (first : ℕ → S) (i k : ℕ) (result : Option E) (s : Engine E A S) (o : Option A)
      → get_elem? (s.executors i).running k ≡ o
      → IsOrdered first s
      → IsOrdered first (finish aggregate_event i k result (s.executors i) o s)
  finish-IsOrdered first i k result s none e h = h
  finish-IsOrdered first i k result s (some a) e h =
      let x = s.executors i in
      record {
        aggregators = λ j.
            Aggregates-more aggregate_event (first j) j s.events (reported result) (s.aggregators j)
              (h.aggregators j);
        executors =
            put_at-holds (λ j. Executes s.actions) i _ s.executors
              (record {
                in_order = (h.executors i).in_order;
                each = finished-perm x.running x.finished x.receiver.seen k e (h.executors i).each;
              })
              h.executors;
      }

  collected-IsOrdered :
      (first : ℕ → S) (e : E) (s : Engine E A S)
      → IsOrdered first s
      → IsOrdered first (record s { events = s.events ++ e ∷ [] })
  collected-IsOrdered first e s h = record {
    aggregators = λ j.
        Aggregates-more aggregate_event (first j) j s.events (e ∷ []) (s.aggregators j)
          (h.aggregators j);
    executors = h.executors;
  }

  decided-IsOrdered :
      (first : ℕ → S) (a : A) (s : Engine E A S)
      → IsOrdered first s
      → IsOrdered first (record s { actions = s.actions ++ a ∷ [] })
  decided-IsOrdered first a s h = record {
    aggregators = h.aggregators;
    executors = λ j. record {
      in_order =
          sent-IsInOrder s.actions (a ∷ []) (s.executors j).receiver (h.executors j).in_order;
      each = (h.executors j).each;
    };
  }

  step-IsOrdered :
      (first : ℕ → S) (t : Step E A) (s : Engine E A S)
      → IsOrdered first s
      → IsOrdered first (step aggregate_event t s)
  unfolding step recv
  step-IsOrdered first (collected e) s h = collected-IsOrdered first e s h
  step-IsOrdered first (aggregated i) s h =
      let g = s.aggregators i in
      let P : Option E → Type 0 =
        λ o. IsOrdered first (aggregate aggregate_event i g (got g.receiver o) s) in
      elim (recv-cases s.events g.receiver (h.aggregators i).in_order) [
        | inl e ↦ subst P (sym e) h
        | inr (m, e, next) ↦ subst P (sym e) (aggregate-IsOrdered first i m s next h)
      ]
  step-IsOrdered first (aggregator_lags i n) s h =
      let g = s.aggregators i in
      record {
        aggregators =
            put_at-holds (λ j. Aggregates aggregate_event (first j) j s.events) i _ s.aggregators
              (record {
                in_order = lag-IsInOrder s.events n g.receiver (h.aggregators i).in_order;
                state =
                    (h.aggregators i).state
                    ∙ ap (after aggregate_event i (first i)) (sym (seen-lag s.events n g.receiver));
              })
              h.aggregators;
        executors = h.executors;
      }
  step-IsOrdered first (decided a) s h = decided-IsOrdered first a s h
  step-IsOrdered first (received i) s h =
      let x = s.executors i in
      let P : Option A → Type 0 =
        λ o. IsOrdered first (spawn aggregate_event i x (got x.receiver o) s) in
      elim (recv-cases s.actions x.receiver (h.executors i).in_order) [
        | inl e ↦ subst P (sym e) h
        | inr (m, e, next) ↦ subst P (sym e) (spawn-IsOrdered first i m s next h)
      ]
  step-IsOrdered first (executor_lags i n) s h =
      let x = s.executors i in
      record {
        aggregators = h.aggregators;
        executors =
            put_at-holds (λ j. Executes s.actions) i _ s.executors
              (record {
                in_order = lag-IsInOrder s.actions n x.receiver (h.executors i).in_order;
                each =
                    subst (Perm (x.running ++ x.finished)) (sym (seen-lag s.actions n x.receiver))
                      (h.executors i).each;
              })
              h.executors;
      }
  step-IsOrdered first (executed i k result) s h =
      finish-IsOrdered first i k result s (get_elem? (s.executors i).running k) refl h

  run_from-IsOrdered :
      (first : ℕ → S) (ts : List (Step E A)) (s : Engine E A S)
      → IsOrdered first s
      → IsOrdered first (run aggregate_event ts s)
  unfolding run
  run_from-IsOrdered first [] s h = h
  run_from-IsOrdered first (t ∷ ts) s h =
      run_from-IsOrdered first ts (step aggregate_event t s) (step-IsOrdered first t s h)

  -- However the steps of the tasks are interleaved from the start of the engine on, every aggregator
  -- and every executor gets the messages of its channel in the order in which they were sent, each
  -- once, but for those that it loses by being slow; an aggregator's state is what its events make of
  -- the first one; and the actions of an executor's running and ended tasks are together just the
  -- actions that it got, each as often.
  pub run-IsOrdered :
      (first : ℕ → S) (ts : List (Step E A))
      → IsOrdered first (run aggregate_event ts (started aggregate_event first))
  unfolding started
  run-IsOrdered first ts = run_from-IsOrdered first ts (started aggregate_event first) (record {
    aggregators = λ i. record { in_order = none_sent; state = refl };
    executors = λ i. record { in_order = none_sent; each = Perm.refl [] };
  })
