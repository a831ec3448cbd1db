-- ===== src/Executor/Reports.antt =====
-- What src/executors/solana_executor.rs reports of an action, and what it leaves in the cache.
use foxfire_sniper.Base.{
  if-cases, ℕ, ◌<◌, ◌≡◌, ◌≢◌, ◌⊎◌, inl, inr, refl, Bool, true, false, ◌&&◌, ◌||◌, Option, none,
  some, List, [], ◌∷◌, arith, sym, subst, ap, ◌∙◌, Option-cases,
}
use foxfire_sniper.Types.{
  Pubkey, Uuid, Signature, SolanaAction, ExecutionError, ExecutionResult, action_too_old,
  no_instructions_generated, several_tokens_in_one_tx, zero_sol_balance, not_enough_sol_balance,
  not_enough_token_balance, unsupported_pool, simulation_failed, sent, execution_error, u64_mod,
  other,
}
use foxfire_sniper.Accounts.{Accounts}
use foxfire_sniper.Cache.Operational.{add_agent_tx, get_signature_by_uuid, get_uuid_by_signature}
use foxfire_sniper.Cache.LookupByValue.Removal.{insert-lookups}
use foxfire_sniper.Orders.{Env}
use foxfire_sniper.Executor.Instructions.{Instruction, Built, built, bail}
use foxfire_sniper.Executor.Steps.{Situation}
use Prim.Native.String.{String}
use foxfire_sniper.Executor.Build.{Balances, survey, build_instructions}
use foxfire_sniper.Executor.Estimate.{estimate_cu_per_tx}
use foxfire_sniper.Executor.Execute.{
  Wire, Store, Execution, event, failed, blocked, price_per_cu_priority, first_success, execute_tx,
  send, simulated, simulated_then, blockhash_then, send_all, refused, conclude, execute, is_expired,
  paper_execute,
}
use foxfire_sniper.Executor.Refusals.{IsJustified, build_instructions-IsJustified}

abbrev pub is_some {ℓ} : {A : Type ℓ} → Option A → Bool
is_some none = false
is_some (some _) = true

-- A transaction counts as sent exactly if one of the ways to send it accepts it, the providers or,
-- where it is used, bloxroute, in whichever order they answer.
pub execute_tx-ways :
    (wire : Wire) (blockhash : ℕ) (sender fee_payer : Pubkey) (ixs : List Instruction)
    → is_some (execute_tx wire blockhash sender fee_payer ixs)
      ≡ (wire.providers_accept || (wire.use_bloxroute && wire.bloxroute_accepts))
unfolding execute_tx first_success
execute_tx-ways wire blockhash sender fee_payer ixs = ground arith

send_all-reports :
    (wire : Wire) (action : SolanaAction) (units : ℕ) (ixs : List Instruction) (store : Store)
    (u : Uuid) (r : ExecutionResult)
    → (send_all wire action units ixs store).1 ≢ event u r
unfolding send_all send
send_all-reports wire action units ixs store u r h = ground arith

-- Without an error that is its own text, no refusal is reported.
refused-silent :
    (uuid : Uuid) (e : ExecutionError)
    → ((text : String) → e ≢ other text)
    → refused uuid e ≡ failed
refused-silent uuid (other text) ne = absurd (ne text refl)
refused-silent uuid action_too_old ne = refl
refused-silent uuid no_instructions_generated ne = refl
refused-silent uuid several_tokens_in_one_tx ne = refl
refused-silent uuid zero_sol_balance ne = refl
refused-silent uuid (not_enough_sol_balance n m) ne = refl
refused-silent uuid (not_enough_token_balance n m) ne = refl
refused-silent uuid (unsupported_pool a b) ne = refl
refused-silent uuid (simulation_failed text) ne = refl

module _ (env : Env) (wire : Wire) (action : SolanaAction) (store : Store) where
  abbrev answer : Built (Balances × List Instruction)
  answer =
      (build_instructions env action price_per_cu_priority
        (estimate_cu_per_tx action.action_payload) store.accounts).1

  abbrev situation : Situation
  situation =
      survey env action price_per_cu_priority (estimate_cu_per_tx action.action_payload)
        store.accounts

  conclude-reports :
      (units : ℕ) (left : Store) (built_or_not : Built (Balances × List Instruction)) (u : Uuid)
      (r : ExecutionResult)
      → ((e : ExecutionError) → built_or_not ≡ bail e → refused action.uuid e ≡ failed)
      → (conclude wire action units left built_or_not).1 ≡ event u r
      → (u ≡ action.uuid) × (r ≡ execution_error no_instructions_generated)
  unfolding conclude
  conclude-reports units left (built (before, [])) u r silent h = ground arith
  conclude-reports units left (built (before, ix ∷ ixs)) u r silent h =
      absurd (send_all-reports wire action units (ix ∷ ixs) left u r h)
  conclude-reports units left (bail e) u r silent h = ground (arith, silent e refl)

  -- What is executed once the action is found not to be too old.
  abbrev concluded : Store × Execution
  concluded =
      conclude wire action (estimate_cu_per_tx action.action_payload)
        (record store {
          accounts =
              (build_instructions env action price_per_cu_priority
                (estimate_cu_per_tx action.action_payload) store.accounts).0;
        })
        answer

  execute-cases :
      (execute env wire action store ≡ (store, event action.uuid (execution_error action_too_old)))
      ⊎ (execute env wire action store ≡ concluded)
  unfolding execute
  execute-cases =
      elim (if-cases (is_expired env action)
        (store, event action.uuid (execution_error action_too_old)) concluded) [
          | inl (_, e) ↦ inl e
          | inr (_, e) ↦ inr e
        ]

  -- The executor reports only that an action is too old or that it comes to no instructions: where
  -- the SOL balance fits u64, whatever the chain and the providers answer, an event that `execute`
  -- returns is one of these two, for the action. A refusal of `build_instructions`, a simulation that
  -- fails and a transaction that is sent are not reported.
  pub execute-reports :
      (u : Uuid) (r : ExecutionResult)
      → situation.sol_balance < u64_mod
      → (execute env wire action store).1 ≡ event u r
      → (u ≡ action.uuid)
        × ((r ≡ execution_error action_too_old) ⊎ (r ≡ execution_error no_instructions_generated))
  execute-reports u r fits h = elim execute-cases [
    | inl e ↦
        let q : event action.uuid (execution_error action_too_old) ≡ event u r =
          sym (ap (λ x. x.1) e) ∙ h in
        ground arith
    | inr e ↦
        let (a, b) = conclude-reports _ _ answer u r silent (sym (ap (λ x. x.1) e) ∙ h) in
        (a, inr b)
  ]
    where
      silent : (e : ExecutionError) → answer ≡ bail e → refused action.uuid e ≡ failed
      silent e q = refused-silent action.uuid e (λ text z.
          subst (IsJustified situation action.action_payload) z
            (build_instructions-IsJustified env action _ _ store.accounts e fits q))

  -- The signatures are as before, or one was added and the call waits forever.
  abbrev pub IsRecorded : Store × Execution → Type 0
  IsRecorded recorded =
      (recorded.0.signatures ≡ store.signatures)
      ⊎ ((signature : Signature) × (blockhash : ℕ) × (ixs : List Instruction) × (execute_tx wire
              blockhash action.sniper action.fee_payer ixs
            ≡ some signature)
          × (recorded.0.signatures ≡ add_agent_tx action.uuid signature store.signatures)
          × (recorded.1 ≡ blocked))

  send-IsRecorded :
      (blockhash : ℕ) (ixs : List Instruction) (accounts : Accounts)
      → IsRecorded (send wire action blockhash ixs (record store { accounts = accounts }))
  unfolding send
  send-IsRecorded blockhash ixs accounts =
      elim (Option-cases (execute_tx wire blockhash action.sniper action.fee_payer ixs)) [
        | inl e ↦ inl (ground (arith, e))
        | inr (signature, e) ↦
            inr (signature, blockhash, ixs, e, ground (arith, e), ground (arith, e))
      ]

  simulated_then-IsRecorded :
      (blockhash : ℕ) (ixs : List Instruction) (accounts : Accounts) (error : Option String)
      → IsRecorded
          (simulated_then wire action blockhash ixs (record store { accounts = accounts }) error)
  unfolding simulated_then
  simulated_then-IsRecorded blockhash ixs accounts none = send-IsRecorded blockhash ixs accounts
  simulated_then-IsRecorded blockhash ixs accounts (some error) = inl refl

  blockhash_then-IsRecorded :
      (ixs : List Instruction) (accounts : Accounts) (blockhash : Option ℕ)
      → IsRecorded (blockhash_then wire action ixs (record store { accounts = accounts }) blockhash)
  unfolding blockhash_then
  blockhash_then-IsRecorded ixs accounts none = inl refl
  blockhash_then-IsRecorded ixs accounts (some blockhash) =
      simulated_then-IsRecorded blockhash ixs accounts (simulated wire ixs)

  conclude-IsRecorded :
      (units : ℕ) (accounts : Accounts) (built_or_not : Built (Balances × List Instruction))
      → IsRecorded (conclude wire action units (record store { accounts = accounts }) built_or_not)
  unfolding conclude send_all
  conclude-IsRecorded units accounts (built (before, [])) = inl refl
  conclude-IsRecorded units accounts (built (before, ix ∷ ixs)) =
      blockhash_then-IsRecorded _ accounts wire.latest_blockhash
  conclude-IsRecorded units accounts (bail e) = inl refl

  -- The cache after an execution: either the signatures are as before, or exactly one was added, that
  -- of a transaction that a way to send accepted, for the action's identifier; in the second case the
  -- call waits forever for the lock of the action.
  pub execute-IsRecorded : IsRecorded (execute env wire action store)
  execute-IsRecorded = elim execute-cases [
    | inl e ↦ subst IsRecorded (sym e) (inl refl)
    | inr e ↦ subst IsRecorded (sym e) (conclude-IsRecorded _ _ answer)
  ]

-- Executed on paper, an action is reported as sent, and the cache finds the made-up signature by the
-- action's identifier and the identifier by the signature.
pub paper_execute_lem :
    (paper : Uuid → Signature) (action : SolanaAction) (store : Store)
    → let (left, end) = paper_execute paper action store in
      (end ≡ event action.uuid sent)
      × (get_signature_by_uuid action.uuid left.signatures ≡ some (paper action.uuid))
      × (get_uuid_by_signature (paper action.uuid) left.signatures ≡ some action.uuid)
unfolding paper_execute add_agent_tx get_signature_by_uuid get_uuid_by_signature
paper_execute_lem paper action store =
    let found =
      insert-lookups store.signatures.agent_tx_signatures action.uuid (paper action.uuid) in
    (refl, found.0, found.1)
