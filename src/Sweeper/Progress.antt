-- ===== src/Sweeper/Progress.antt =====
-- When the sweeper of src/strategies/sweeper_strategy/strategy_state_machine.rs goes on.
use foxfire_sniper.Base.{
  ℕ, ◌+◌, ◌<◌, ◌≡◌, ◌≢◌, ◌⊎◌, inl, inr, refl, sym, ◌∙◌, ap, List, [], ◌∷◌, done, arith,
}
use foxfire_sniper.Types.{SolanaStrategyEvent}
use foxfire_sniper.Statechart.{Library, step, super, follow}
use foxfire_sniper.Statechart.Runs.{target, step-parts, follow-target, done-injective}
use foxfire_sniper.Agent.State as Phase
use foxfire_sniper.Agent.State.{State as AgentPhase, Failure}
use foxfire_sniper.Agent.Handlers.{chart as agent_chart}
use foxfire_sniper.Volume.State.{Machine, World}
use foxfire_sniper.Volume.Status.{ExecutionStatus, done_status, idle_status, pending, error_status}
use foxfire_sniper.Sweeper.Machine.{
  SweeperStrategy, sweeping, selling_token_main_w, Tally, succeeded, working, tally, count_each,
  get_execution_status, respond, chart, on_status,
}

-- Some agent of the list counts as `t`.
abbrev pub SomeTally : Tally → List Machine → Type 0
SomeTally t [] = ⊥
SomeTally t ((a, s) ∷ ms) = (tally s ≡ t) ⊎ SomeTally t ms

-- No agent of the list counts as `t`.
abbrev pub NoTally : Tally → List Machine → Type 0
NoTally t [] = Unit
NoTally t ((a, s) ∷ ms) = (tally s ≢ t) × NoTally t ms

count_each-done :
    (n : ℕ) (ms : List Machine)
    → count_each n ms ≡ done_status
    → ((0 < n) ⊎ SomeTally succeeded ms) × NoTally working ms
unfolding count_each
count_each-done n [] h = ground arith
count_each-done n ((a, s) ∷ ms) h = ground (arith, count_each-done (n + 1) ms, count_each-done n ms)

count_each-NoTally : (ms : List Machine) → NoTally succeeded ms → count_each 0 ms ≢ done_status
unfolding count_each
count_each-NoTally [] h e = ground arith
count_each-NoTally ((a, s) ∷ ms) (other, rest) e = ground (arith, count_each-NoTally ms rest)

on_status_goes :
    (t : ExecutionStatus) → target sweeping (on_status t) ≡ selling_token_main_w → t ≡ done_status
unfolding on_status
on_status_goes done_status h = refl
on_status_goes error_status h = cc
on_status_goes idle_status h = cc
on_status_goes pending h = cc

on_status_stays : (t : ExecutionStatus) → t ≢ done_status → on_status t ≡ super
unfolding on_status
on_status_stays done_status h = absurd (h refl)
on_status_stays error_status h = refl
on_status_stays idle_status h = refl
on_status_stays pending h = refl

status_done :
    (ms : List Machine)
    → get_execution_status ms ≡ done_status
    → SomeTally succeeded ms × NoTally working ms
unfolding get_execution_status
status_done [] h = absurd ground arith
status_done (m ∷ ms) h =
    let (some_done, none_working) = count_each-done 0 (m ∷ ms) h in
    (elim some_done [ inl l ↦ absurd omega (arith, l) | inr t ↦ t ], none_working)

status_not_done : (ms : List Machine) → NoTally succeeded ms → get_execution_status ms ≢ done_status
unfolding get_execution_status
status_not_done [] h e = ground arith
status_not_done (m ∷ ms) h e = count_each-NoTally (m ∷ ms) h e

-- The agent has come to an end: it succeeded, failed, or is deactivated.
pub data HasEnded : AgentPhase → Type 0 where
  by_success : HasEnded Phase.success
  by_error : {e : Failure} → HasEnded (Phase.error e)
  by_deactivation : HasEnded Phase.deactivated

-- Some agent of the list is in the state `Success`.
abbrev pub SomeSuccess : List Machine → Type 0
SomeSuccess [] = ⊥
SomeSuccess ((a, s) ∷ ms) = (s ≡ Phase.success) ⊎ SomeSuccess ms

abbrev pub AllEnded : List Machine → Type 0
AllEnded [] = Unit
AllEnded ((a, s) ∷ ms) = HasEnded s × AllEnded ms

succeeded-success : (s : AgentPhase) → tally s ≡ succeeded → s ≡ Phase.success
unfolding tally
succeeded-success Phase.success h = refl
succeeded-success Phase.idle h = cc
succeeded-success s h = ground arith

HasEnded-tally : (s : AgentPhase) → tally s ≢ working → HasEnded s
unfolding tally
HasEnded-tally Phase.success h = by_success
HasEnded-tally (Phase.error e) h = by_error
HasEnded-tally Phase.deactivated h = by_deactivation
HasEnded-tally Phase.idle h = absurd (h refl)
HasEnded-tally (Phase.transferring b n) h = absurd (h refl)
HasEnded-tally (Phase.collecting n) h = absurd (h refl)
HasEnded-tally (Phase.buying m n) h = absurd (h refl)
HasEnded-tally (Phase.selling m n) h = absurd (h refl)
HasEnded-tally (Phase.deactivating n) h = absurd (h refl)

SomeTally-SomeSuccess : (ms : List Machine) → SomeTally succeeded ms → SomeSuccess ms
SomeTally-SomeSuccess [] h = h
SomeTally-SomeSuccess ((a, s) ∷ ms) (inl t) = inl (succeeded-success s t)
SomeTally-SomeSuccess ((a, s) ∷ ms) (inr h) = inr (SomeTally-SomeSuccess ms h)

NoTally-AllEnded : (ms : List Machine) → NoTally working ms → AllEnded ms
NoTally-AllEnded [] h = tt
NoTally-AllEnded ((a, s) ∷ ms) (t, h) = (HasEnded-tally s t, NoTally-AllEnded ms h)

module _ (F : Type 0) (lib : Library (agent_chart {F = F})) where
  -- The sweeper goes on to sell the tokens in the main wallet only when some agent is in the state
  -- `Success` and every agent in `Success`, `Error` or `Deactivated`.
  pub step-swept :
      (e : World × SolanaStrategyEvent F) (st st' : SweeperStrategy)
      → step (chart F lib) e (st, sweeping) ≡ done (st', selling_token_main_w)
      → SomeSuccess st.agents × AllEnded st.agents
  unfolding chart respond
  step-swept e st st' h =
      let (x, answered, followed) = step-parts (chart F lib) e st sweeping h in
      let led = follow-target (chart F lib) e sweeping x.0 x.1 followed in
      let (some_succeeded, none_working) = status_done st.agents (
        on_status_goes (get_execution_status st.agents)
          (ap (λ z. target sweeping z.1) (done-injective answered) ∙ sym led)) in
      (SomeTally-SomeSuccess st.agents some_succeeded, NoTally-AllEnded st.agents none_working)

  -- As long as no agent has succeeded, and also where there is no agent, the sweeper stays in
  -- `sweeping`, whatever event comes.
  pub step-stuck :
      (e : World × SolanaStrategyEvent F) (st : SweeperStrategy)
      → NoTally succeeded st.agents
      → step (chart F lib) e (st, sweeping) ≡ done (st, sweeping)
  unfolding chart respond step follow
  step-stuck e st h =
      rw (on_status_stays (get_execution_status st.agents) (status_not_done st.agents h)) refl
