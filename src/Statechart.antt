-- ===== src/Statechart.antt =====
-- The contract of the state machine library behind the agents and the strategies (the crate statig
-- of Cargo.toml): a handler answers with a response, and the library runs the actions that the
-- attributes `entry_action` and `exit_action` name.
pub mod Runs
use foxfire_sniper.Base.{Outcome, done, ◌>>=◌, ◌≡◌}

-- What a state's handler answers. A state with no superstate ignores the event by `super`.
pub data Response (S : Type 0) : Type 0 where
  handled : Response S
  super : Response S
  transition : S → Response S

-- `C` is the shared storage, `S` the states, `E` the events with what the environment answers.
pub record Chart (C S E : Type 0) : Type 0 where
  pub respond : E → S → C → Outcome (C × Response S)
  pub enter : E → S → C → Outcome C
  pub leave : E → S → C → Outcome C

module _ {C S E : Type 0} (m : Chart C S E) where
  -- A transition leaves the source, enters the target and stays there.
  unfoldable pub follow : E → S → C × Response S → Outcome (C × S)
  follow e s (c, handled) = done (c, s)
  follow e s (c, super) = done (c, s)
  follow e s (c, transition t) = do c' ← m.leave e s c; c'' ← m.enter e t c'; done (c'', t)

  unfoldable pub step : E → C × S → Outcome (C × S)
  unfolding follow
  step e (c, s) = m.respond e s c >>= follow e s

  -- The library, as the program relies on it: `handle` is a documented step of the chart.
  pub record Library : Type 0 where
    pub handle : E → C × S → Outcome (C × S)
    pub handle_law : (e : E) (c : C) (s : S) → handle e (c, s) ≡ step e (c, s)
