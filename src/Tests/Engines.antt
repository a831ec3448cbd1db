-- ===== src/Tests/Engines.antt =====
-- A run of src/engine.rs: numbers as events and actions.
use foxfire_sniper.Base.{ℕ, ◌+◌, ◌≡◌, refl, some, List, [], ◌∷◌}
use foxfire_sniper.Engine.{
  Step, collected, aggregated, decided, received, executor_lags, executed, run, started,
}
use foxfire_sniper.Engine.Runs.{IsOrdered, run-IsOrdered}

-- An aggregator that adds up and derives nothing.
abbrev adds : ℕ → ℕ → ℕ → ℕ × List ℕ
adds i e s = (s + e, [])

-- Two events and three actions, of which the executor loses the first; the report of the second is the
-- third event.
abbrev steps : List (Step ℕ ℕ)
steps =
    collected 3
    ∷ decided 7
    ∷ decided 8
    ∷ aggregated 0
    ∷ executor_lags 1 1
    ∷ received 1
    ∷ collected 4
    ∷ executed 1 0 (some 5)
    ∷ aggregated 0
    ∷ decided 9
    ∷ aggregated 0
    ∷ []

run-IsOrdered_example : IsOrdered adds (λ i. 0) (run adds steps (started adds (λ i. 0)))
run-IsOrdered_example = run-IsOrdered adds (λ i. 0) steps

added : ((run adds steps (started adds (λ i. 0))).aggregators 0).state ≡ 12
unfolding run started
added = refl
