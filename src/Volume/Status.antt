-- ===== src/Volume/Status.antt =====
-- `get_execution_status` of src/strategies/volume_strategy/strategy_state_machine.rs.
use foxfire_sniper.Base.{
  ℕ, ◌+◌, ◌≤◌, ◌<◌, ◌≡◌, ◌⊎◌, ◌↔◌, refl, ap, ◌==◌, List, [], ◌∷◌, length, arith, if◌then◌else◌, inl,
  inr,
}
use foxfire_sniper.Agent.State.{
  State, idle, transferring, collecting, buying, selling, success, error, deactivating, deactivated,
}
use foxfire_sniper.Types.{Amount, SolanaTransferActionPayload}
use foxfire_sniper.Volume.State.{Machine}

-- `idle` is never the answer here.
pub data ExecutionStatus : Type 0 where
  idle_status error_status done_status pending : ExecutionStatus

-- How one agent counts.
pub data Tally : Type 0 where
  succeeded failed working : Tally

unfoldable pub tally : State → Tally
tally success = succeeded
tally (error _) = failed
tally (deactivating _) = failed
tally deactivated = failed
tally _ = working

-- The loop, with what is left of the agents and the successes among the `total`.
count_each : ℕ → ℕ → List Machine → ExecutionStatus
unfolding tally
count_each total agents_with_success [] =
    if agents_with_success == total then done_status else error_status
count_each total agents_with_success ((a, s) ∷ rest) =
    let more = count_each total (agents_with_success + 1) rest in
    let same = count_each total agents_with_success rest in
    elim (tally s) [ succeeded ↦ more | failed ↦ same | working ↦ pending ]

unfoldable pub get_execution_status : List Machine → ExecutionStatus
unfolding count_each
get_execution_status [] = error_status
get_execution_status (m ∷ ms) = count_each (length (m ∷ ms)) 0 (m ∷ ms)

-- Every agent of the list counts as `t`.
abbrev AllTally : Tally → List Machine → Type 0
AllTally t [] = Unit
AllTally t ((a, s) ∷ ms) = (tally s ≡ t) × AllTally t ms

-- Some agent of the list counts as `t`.
abbrev SomeTally : Tally → List Machine → Type 0
SomeTally t [] = ⊥
SomeTally t ((a, s) ∷ ms) = (tally s ≡ t) ⊎ SomeTally t ms

count_each-done :
    (total n : ℕ) (ms : List Machine)
    → n + length ms ≤ total
    → count_each total n ms ≡ done_status
    → AllTally succeeded ms × (n + length ms ≡ total)
unfolding count_each
count_each-done total n [] b h = ground arith
count_each-done total n ((a, s) ∷ ms) b h =
    ground (arith, count_each-done total (n + 1) ms, count_each-done total n ms)

count_each-AllTally :
    (total n : ℕ) (ms : List Machine)
    → n + length ms ≡ total
    → AllTally succeeded ms
    → count_each total n ms ≡ done_status
unfolding count_each
count_each-AllTally total n [] e h = ground arith
count_each-AllTally total n ((a, s) ∷ ms) e (t, h) =
    rw (count_each, t) (count_each-AllTally total (n + 1) ms (omega arith) h)

count_each-SomeTally :
    (total n : ℕ) (ms : List Machine) → SomeTally working ms → count_each total n ms ≡ pending
unfolding count_each
count_each-SomeTally total n [] h = absurd h
count_each-SomeTally total n ((a, s) ∷ ms) (inl t) = ground arith
count_each-SomeTally total n ((a, s) ∷ ms) (inr h) =
    ground (arith, count_each-SomeTally total (n + 1) ms h, count_each-SomeTally total n ms h)

count_each-pending :
    (total n : ℕ) (ms : List Machine) → count_each total n ms ≡ pending → SomeTally working ms
unfolding count_each
count_each-pending total n [] h = ground arith
count_each-pending total n ((a, s) ∷ ms) h =
    ground (arith, count_each-pending total (n + 1) ms, count_each-pending total n ms)

-- The states of an agent that is at work or has nothing to do yet, one by one.
pub data IsWorking : State → Type 0 where
  is_idle : IsWorking idle
  is_transferring :
      {batch : List SolanaTransferActionPayload} {n : ℕ} → IsWorking (transferring batch n)
  is_collecting : {n : ℕ} → IsWorking (collecting n)
  is_buying : {amt : Amount} {n : ℕ} → IsWorking (buying amt n)
  is_selling : {amt : Amount} {n : ℕ} → IsWorking (selling amt n)

-- Every agent of the list is in the state `Success`.
abbrev pub AllSuccess : List Machine → Type 0
AllSuccess [] = Unit
AllSuccess ((a, s) ∷ ms) = (s ≡ success) × AllSuccess ms

-- Some agent of the list is in one of those states.
abbrev pub SomeWorking : List Machine → Type 0
SomeWorking [] = ⊥
SomeWorking ((a, s) ∷ ms) = IsWorking s ⊎ SomeWorking ms

succeeded-success : (s : State) → tally s ≡ succeeded → s ≡ success
unfolding tally
succeeded-success success h = refl
succeeded-success idle h = cc
succeeded-success s h = ground arith

working-IsWorking : (s : State) → tally s ≡ working → IsWorking s
unfolding tally
working-IsWorking idle h = is_idle
working-IsWorking (transferring batch n) h = is_transferring
working-IsWorking (collecting n) h = is_collecting
working-IsWorking (buying amt n) h = is_buying
working-IsWorking (selling amt n) h = is_selling
working-IsWorking success h = absurd ground arith
working-IsWorking (error f) h = absurd ground arith
working-IsWorking (deactivating n) h = absurd ground arith
working-IsWorking deactivated h = absurd ground arith

IsWorking-working : {s : State} → IsWorking s → tally s ≡ working
unfolding tally
IsWorking-working is_idle = refl
IsWorking-working is_transferring = refl
IsWorking-working is_collecting = refl
IsWorking-working is_buying = refl
IsWorking-working is_selling = refl

AllTally-AllSuccess : (ms : List Machine) → AllTally succeeded ms → AllSuccess ms
AllTally-AllSuccess [] h = tt
AllTally-AllSuccess ((a, s) ∷ ms) (t, h) = (succeeded-success s t, AllTally-AllSuccess ms h)

AllSuccess-AllTally : (ms : List Machine) → AllSuccess ms → AllTally succeeded ms
unfolding tally
AllSuccess-AllTally [] h = tt
AllSuccess-AllTally ((a, s) ∷ ms) (e, h) = (ap tally e, AllSuccess-AllTally ms h)

SomeTally-SomeWorking : (ms : List Machine) → SomeTally working ms → SomeWorking ms
SomeTally-SomeWorking [] h = h
SomeTally-SomeWorking ((a, s) ∷ ms) (inl t) = inl (working-IsWorking s t)
SomeTally-SomeWorking ((a, s) ∷ ms) (inr h) = inr (SomeTally-SomeWorking ms h)

SomeWorking-SomeTally : (ms : List Machine) → SomeWorking ms → SomeTally working ms
SomeWorking-SomeTally [] h = h
SomeWorking-SomeTally ((a, s) ∷ ms) (inl w) = inl (IsWorking-working w)
SomeWorking-SomeTally ((a, s) ∷ ms) (inr h) = inr (SomeWorking-SomeTally ms h)

done-AllSuccess :
    (ms : List Machine) → get_execution_status ms ≡ done_status → (0 < length ms) × AllSuccess ms
unfolding get_execution_status
done-AllSuccess [] h = absurd ground arith
done-AllSuccess (m ∷ ms) h = (
  omega arith,
  AllTally-AllSuccess (m ∷ ms) (count_each-done (length (m ∷ ms)) 0 (m ∷ ms) (omega arith) h).0,
)

AllSuccess-done :
    (ms : List Machine) → (0 < length ms) × AllSuccess ms → get_execution_status ms ≡ done_status
unfolding get_execution_status
AllSuccess-done [] (l, h) = absurd omega (arith, l)
AllSuccess-done (m ∷ ms) (l, h) =
    count_each-AllTally (length (m ∷ ms)) 0 (m ∷ ms) (omega arith) (AllSuccess-AllTally (m ∷ ms) h)

pending-SomeWorking : (ms : List Machine) → get_execution_status ms ≡ pending → SomeWorking ms
unfolding get_execution_status
pending-SomeWorking [] h = absurd ground arith
pending-SomeWorking (m ∷ ms) h =
    SomeTally-SomeWorking (m ∷ ms) (count_each-pending (length (m ∷ ms)) 0 (m ∷ ms) h)

SomeWorking-pending : (ms : List Machine) → SomeWorking ms → get_execution_status ms ≡ pending
unfolding get_execution_status
SomeWorking-pending [] h = absurd h
SomeWorking-pending (m ∷ ms) h =
    count_each-SomeTally (length (m ∷ ms)) 0 (m ∷ ms) (SomeWorking-SomeTally (m ∷ ms) h)

-- The tranche is done exactly where there is an agent and every agent is in the state `Success`.
pub get_execution_status-done :
    (ms : List Machine)
    → (get_execution_status ms ≡ done_status) ↔ ((0 < length ms) × AllSuccess ms)
get_execution_status-done ms = (done-AllSuccess ms, AllSuccess-done ms)

-- The tranche is pending exactly while some agent is idle, transferring, collecting, buying or
-- selling, however many have failed.
pub get_execution_status-pending :
    (ms : List Machine) → (get_execution_status ms ≡ pending) ↔ SomeWorking ms
get_execution_status-pending ms = (pending-SomeWorking ms, SomeWorking-pending ms)
