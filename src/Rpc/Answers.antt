-- ===== src/Rpc/Answers.antt =====
-- What the calls over all providers come to.
use foxfire_sniper.Base.{
  ℕ, zero, suc, ◌≤◌, ◌<◌, ◌≡◌, ◌≢◌, ◌↔◌, ◌⊎◌, inl, inr, refl, Bool, true, false, Option, some, List,
  [], ◌∷◌, if◌then◌else◌, if-elim, if-elim-with, subst, sym, ◌∙◌, Bool-cases, ◌||◌, arith,
}
use foxfire_sniper.Base.Results.{ok-injective, Result, ok, err}
use foxfire_sniper.Rpc.Calls.{
  ClientErrors, RpcError, account_not_found, account_exists, send_loop, Task, runs, panics,
  task_result, max_retries, send_tx_to_all_providers,
}

module _ (errors : ClientErrors) where
  open errors use {ClientError}

  -- The first provider that knows decides: it has the account, or says that there is none. The ones
  -- before it fail otherwise.
  pub data Decides {ℓ} {T : Type ℓ} : List (Result ClientError T) → Bool → Type ℓ where
    has : {a : T} {answers : List (Result ClientError T)} → Decides (ok a ∷ answers) true
    has_none :
        {e : ClientError} {answers : List (Result ClientError T)}
        → (errors.is_account_not_found e ≡ true) ⊎ (errors.names_account_not_found e ≡ true)
        → Decides (err e ∷ answers) false
    asks_next :
        {e : ClientError} {b : Bool} {answers : List (Result ClientError T)}
        → errors.is_account_not_found e ≡ false
        → errors.names_account_not_found e ≡ false
        → Decides answers b
        → Decides (err e ∷ answers) b

  account_exists-err :
      {T : Type 0} (e : ClientError) (answers : List (Result ClientError T))
      → account_exists errors (err e ∷ answers) ≡ (
          if errors.is_account_not_found e
          then ok false
          else if errors.names_account_not_found e
          then ok false
          else account_exists errors answers)
  unfolding account_exists
  account_exists-err e answers = ground arith

  Decides-account_exists :
      {T : Type 0} {answers : List (Result ClientError T)} {b : Bool}
      → Decides answers b
      → account_exists errors answers ≡ ok b
  unfolding account_exists
  Decides-account_exists has = refl
  Decides-account_exists (has_none {e} {answers} (inl h)) =
      rw (account_exists-err e answers, h) refl
  Decides-account_exists (has_none {e} {answers} (inr h)) =
      rw (account_exists-err e answers) (ground arith)
  Decides-account_exists (asks_next {e} {b} {answers} h k d) =
      rw (account_exists-err e answers, h, k) (Decides-account_exists d)

  missing_later :
      (e : ClientError) (rest : Result RpcError Bool)
      → (rest ≢ err account_not_found)
      → (if errors.is_account_not_found e
          then ok false
          else if errors.names_account_not_found e
          then ok false
          else rest)
        ≢ err account_not_found
  missing_later e rest later =
      if-elim (λ o. o ≢ err account_not_found) (errors.is_account_not_found e) (λ h. cc)
        (if-elim (λ o. o ≢ err account_not_found) (errors.names_account_not_found e) (λ h. cc)
          later)

  decided :
      {T : Type 0} (e : ClientError) (answers : List (Result ClientError T)) (b : Bool)
      → (account_exists errors answers ≡ ok b → Decides answers b)
      → (if errors.is_account_not_found e
          then ok false
          else if errors.names_account_not_found e
          then ok false
          else account_exists errors answers)
        ≡ ok b
      → Decides (err e ∷ answers) b
  decided e answers b next =
      if-elim-with (λ o. o ≡ ok b → Decides (err e ∷ answers) b) (errors.is_account_not_found e)
        (λ h k. subst (Decides (err e ∷ answers)) (ok-injective RpcError k) (has_none (inl h)))
        (λ h.
          if-elim-with (λ o. o ≡ ok b → Decides (err e ∷ answers) b)
            (errors.names_account_not_found e)
            (λ g k. subst (Decides (err e ∷ answers)) (ok-injective RpcError k) (has_none (inr g)))
            (λ g k. asks_next h g (next k)))

  account_exists-Decides :
      {T : Type 0} (answers : List (Result ClientError T)) (b : Bool)
      → account_exists errors answers ≡ ok b
      → Decides answers b
  unfolding account_exists
  account_exists-Decides [] b h = cc
  account_exists-Decides (ok a ∷ answers) b h =
      subst (Decides (ok a ∷ answers)) (ok-injective RpcError h) has
  account_exists-Decides (err e ∷ answers) b h =
      decided e answers b (account_exists-Decides answers b)
        (sym (account_exists-err e answers) ∙ h)

  never_missing :
      {T : Type 0} (answers : List (Result ClientError T))
      → account_exists errors answers ≢ err account_not_found
  unfolding account_exists
  never_missing [] h = cc
  never_missing (ok a ∷ answers) h = cc
  never_missing (err e ∷ answers) h =
      missing_later e (account_exists errors answers) (never_missing answers)
        (sym (account_exists-err e answers) ∙ h)

  -- The call says whether there is the account exactly as the first provider that knows says, where
  -- the ones before it fail otherwise; and it never fails with the error that there is no account.
  pub account_exists_iff :
      {T : Type 0} (answers : List (Result ClientError T))
      → ((b : Bool) → (account_exists errors answers ≡ ok b) ↔ Decides answers b)
        × (account_exists errors answers ≢ err account_not_found)
  account_exists_iff answers =
      (λ b. (account_exists-Decides answers b, Decides-account_exists), never_missing answers)

-- A provider takes the transaction in one of the three attempts.
pub data Takes : Task → Type 0 where
  takes : {answers : ℕ → Bool} (i : ℕ) → i < max_retries → answers i ≡ true → Takes (runs answers)

pub data SomeTakes : List Task → Type 0 where
  first : {t : Task} {ts : List Task} → Takes t → SomeTakes (t ∷ ts)
  later : {t : Task} {ts : List Task} → SomeTakes ts → SomeTakes (t ∷ ts)

-- The first three attempts.
task_result_lem :
    (answers : ℕ → Bool) → task_result (runs answers) ≡ (answers 0 || answers 1 || answers 2)
unfolding task_result send_loop
task_result_lem answers = ground arith

any_of_three :
    (answers : ℕ → Bool)
    → (answers 0 || answers 1 || answers 2) ≡ true
    → (i : ℕ) × (i < max_retries) × (answers i ≡ true)
any_of_three answers h = elim (Bool-cases (answers 0)) [
  | inl e ↦ (0, omega arith, e)
  | inr e ↦ elim (Bool-cases (answers 1)) [
    | inl f ↦ (1, omega arith, f)
    | inr f ↦ (2, omega arith, ground arith)
  ]
]

three_of_any :
    (answers : ℕ → Bool) (i : ℕ)
    → i < max_retries
    → answers i ≡ true
    → (answers 0 || answers 1 || answers 2) ≡ true
three_of_any answers zero below h = ground arith
three_of_any answers (suc zero) below h = ground arith
three_of_any answers (suc (suc zero)) below h = ground arith
three_of_any answers (suc (suc (suc i))) below h = absurd (omega arith)

Takes-task_result : {t : Task} → Takes t → task_result t ≡ true
Takes-task_result (takes {answers} i below h) =
    task_result_lem answers ∙ three_of_any answers i below h

task_result-Takes : (t : Task) → task_result t ≡ true → Takes t
unfolding task_result
task_result-Takes panics h = cc
task_result-Takes (runs answers) h =
    let (i, below, e) = any_of_three answers (sym (task_result_lem answers) ∙ h) in takes i below e

abbrev after_attempts : Bool → Bool → Bool → Option (Bool × ℕ)
after_attempts a b c =
    if a
    then some (true, 0)
    else if b
    then some (true, 1)
    else if c
    then some (true, 2)
    else some (false, 3)

attempts_of :
    (a b c : Bool)
    → (sent : Bool) × (failed : ℕ) × (after_attempts a b c ≡ some (sent, failed))
      × (failed ≤ max_retries)
attempts_of true b c = (true, 0, refl, omega arith)
attempts_of false true c = (true, 1, refl, omega arith)
attempts_of false false true = (true, 2, refl, omega arith)
attempts_of false false false = (false, 3, refl, omega arith)

bounded_attempts :
    (answers : ℕ → Bool)
    → (sent : Bool) × (failed : ℕ) × (send_loop max_retries answers 0 ≡ some (sent, failed))
      × (failed ≤ max_retries)
unfolding send_loop
bounded_attempts answers = attempts_of (answers 0) (answers 1) (answers 2)

send-SomeTakes : (ts : List Task) → send_tx_to_all_providers ts ≡ true → SomeTakes ts
unfolding send_tx_to_all_providers
send-SomeTakes [] h = cc
send-SomeTakes (t ∷ ts) h = elim (Bool-cases (task_result t)) [
  | inl e ↦ first (task_result-Takes t e)
  | inr e ↦ later (send-SomeTakes ts (ground arith))
]

SomeTakes-send : {ts : List Task} → SomeTakes ts → send_tx_to_all_providers ts ≡ true
unfolding send_tx_to_all_providers
SomeTakes-send (first {t} t_takes) = rw (Takes-task_result t_takes) refl
SomeTakes-send (later {t} {ts} some_takes) = rw (SomeTakes-send some_takes) (ground arith)

-- A transaction is sent exactly where some provider takes it in one of its first three attempts; no
-- loop over the attempts goes on for more than three, whatever is answered.
pub send_tx_to_all_providers_iff :
    (ts : List Task)
    → ((send_tx_to_all_providers ts ≡ true) ↔ SomeTakes ts)
      × ((answers : ℕ → Bool)
          → (sent : Bool) × (failed : ℕ) × (send_loop max_retries answers 0 ≡ some (sent, failed))
            × (failed ≤ max_retries))
send_tx_to_all_providers_iff ts = ((send-SomeTakes ts, SomeTakes-send), bounded_attempts)
