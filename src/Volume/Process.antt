-- ===== src/Volume/Process.antt =====
-- `process_event` of src/strategies/volume_strategy/strategy.rs.
use foxfire_sniper.Base.{
  if-cases, ◌≡◌, refl, ap, sym, subst, ◌∙◌, Bool, true, false, List, [], if◌then◌else◌, Outcome,
  done, ◌>>=◌, Outcome-bind_inv, ◌⊎◌, inl, inr,
}
use foxfire_sniper.Types.{
  SolanaAction, BotEvent, heart_beat, blockchain_event, execution_result, system_event, original,
}
use foxfire_sniper.Statechart.{Library}
use foxfire_sniper.Statechart.Runs.{done-injective}
use foxfire_sniper.Agent.Handlers.{chart as agent_chart}
use foxfire_sniper.Volume.State.{World, VolumeStrategy, State}
use foxfire_sniper.Volume.Machine.{chart}

-- The kinds of events that the strategy hands to its state machine.
abbrev pub is_forwarded : {F : Type 0} → BotEvent F → Bool
is_forwarded (execution_result _ _) = true
is_forwarded (heart_beat _) = true
is_forwarded (blockchain_event _) = true
is_forwarded _ = false

-- `mem::replace` of the actions by none.
unfoldable pub take_actions : VolumeStrategy → VolumeStrategy × List SolanaAction
take_actions st =
    (record st { shared = record (st.shared) { generated = [] } }, st.shared.generated)

module _ (F : Type 0) (agents : Library (agent_chart {F = F}))
    (lib : Library (chart F agents)) where
  abbrev taken : VolumeStrategy × State → (VolumeStrategy × State) × List SolanaAction
  unfolding take_actions
  taken (st, s) = let (st', actions) = take_actions st in ((st', s), actions)

  unfoldable pub process_event :
      World
      → BotEvent F
      → VolumeStrategy × State
      → Outcome ((VolumeStrategy × State) × List SolanaAction)
  unfolding taken
  process_event w event m =
      if is_forwarded event
      then lib.handle (w, original event) m >>= (λ m'. done (taken m'))
      else done (taken m)

  drained :
      (m m' : VolumeStrategy × State) (actions : List SolanaAction)
      → taken m ≡ (m', actions)
      → m'.0.shared.generated ≡ []
  unfolding take_actions
  drained m m' actions q = sym (ap (λ x. x.0.0.shared.generated) q)

  again :
      (w : World) (m m' : VolumeStrategy × State) (actions : List SolanaAction)
      → taken m ≡ (m', actions)
      → process_event w system_event m' ≡ done (m', [])
  unfolding process_event take_actions
  again w m m' actions q =
      subst (λ x. process_event w system_event x ≡ done (x, [])) (ap (λ x. x.0) q) refl

  -- Every action is handed over once: after an event no generated action is left, what was generated
  -- before or while the event is handled is what the call returns, and a second event that is not
  -- forwarded returns nothing.
  pub process_event-drains :
      (w w' : World) (event : BotEvent F) (m m' : VolumeStrategy × State)
      (actions : List SolanaAction)
      → process_event w event m ≡ done (m', actions)
      → (m'.0.shared.generated ≡ [])
        × (process_event w' system_event m' ≡ done (m', []))
        × ((actions ≡ m.0.shared.generated)
            ⊎ ((handled : VolumeStrategy × State) × (lib.handle (w, original event) m
                  ≡ done handled)
                × (actions ≡ handled.0.shared.generated)))
  unfolding process_event take_actions
  process_event-drains w w' event m m' actions h =
      elim (if-cases (is_forwarded event)
        (lib.handle (w, original event) m >>= (λ m₁. done (taken m₁))) (done (taken m))) [
          | inl (_, e) ↦
              let (handled, made, r) =
                Outcome-bind_inv (lib.handle (w, original event) m) (λ m₁. done (taken m₁))
                  (sym e ∙ h) in
              let q : taken handled ≡ (m', actions) = done-injective r in
              (
                drained handled m' actions q,
                again w' handled m' actions q,
                inr (handled, made, sym (ap (λ x. x.1) q)),
              )
          | inr (_, e) ↦
              let q : taken m ≡ (m', actions) = done-injective (sym e ∙ h) in
              (drained m m' actions q, again w' m m' actions q, inl (sym (ap (λ x. x.1) q)))
        ]
