-- ===== src/Volume/Dropped.antt =====
-- What becomes of the batches of transfers that src/strategies/volume_strategy/
-- strategy_state_machine.rs sends to the main wallet one after the other.
use foxfire_sniper.Base.{ℕ, ◌+◌, ◌≡◌, ◌≢◌, refl, none, List, [], ◌∷◌, done}
use foxfire_sniper.Types.{
  SolanaTransferActionPayload, SolanaStrategyEvent, for_agent, transfer_batch, deactivate,
}
use foxfire_sniper.Statechart.{Library, step, super, transition}
use foxfire_sniper.Statechart as Chart
use foxfire_sniper.Orders.{Env}
use foxfire_sniper.Agent.State.{AgentState, State as AgentPhase, is_main_wallet}
use foxfire_sniper.Agent.State as Phase
use foxfire_sniper.Agent.Entry.{transfer_action}
use foxfire_sniper.Agent.Entry
use foxfire_sniper.Agent.Handlers.{chart as agent_chart, ready}
use foxfire_sniper.Agent.Handlers as Agent
use foxfire_sniper.Agent.Receipts.{IsAttempt, step_busy}
use foxfire_sniper.Agent.Steps.{step_move}
use foxfire_sniper.Volume.State.{World, VolumeStrategy, with_shared, fund}
use foxfire_sniper.Volume.Actions.{on_main_wallet}
use foxfire_sniper.Volume.Funding.{send_batches}
use foxfire_sniper.Volume.Machine.{chart}

-- The strategy when the main wallet has become `(a, s)`.
abbrev pub with_wallet : AgentState → AgentPhase → VolumeStrategy → VolumeStrategy
with_wallet a s st = record st { main_wallet = (a, s); shared = a.orders.shared }

-- The two states in which an agent takes orders.
abbrev pub IsReady : AgentPhase → Type 0
IsReady Phase.idle = Unit
IsReady Phase.success = Unit
IsReady _ = ⊥

transfer_not_deactivate : (b : List SolanaTransferActionPayload) → transfer_batch b ≢ deactivate
transfer_not_deactivate b h = cc

entered :
    (env : Env) (b : List SolanaTransferActionPayload) (a : AgentState)
    → Entry.enter env (Phase.transferring b 0) a ≡ done (transfer_action env b a)
unfolding Entry.enter
entered env b a = refl

module _ (F : Type 0) (lib : Library (agent_chart {F = F})) where
  busy_kept :
      (env : Env) (b : List SolanaTransferActionPayload) (a : AgentState) (s : AgentPhase)
      (st : VolumeStrategy)
      → IsAttempt s
      → on_main_wallet F lib env (transfer_batch b) (with_wallet a s st) ≡ done (with_wallet a s st)
  unfolding on_main_wallet
  busy_kept env b a s st h =
      rw (lib.handle_law, step_busy F env (transfer_batch b) s a h (transfer_not_deactivate b)) refl

  busy_drops :
      (w : World) (i : ℕ) (bs : List (List SolanaTransferActionPayload)) (a : AgentState)
      (s : AgentPhase) (st : VolumeStrategy)
      → IsAttempt s
      → send_batches F lib w i bs (with_wallet a s st) ≡ done (with_wallet a s st)
  unfolding send_batches
  busy_drops w i [] a s st h = refl
  busy_drops w i (b ∷ bs) a s st h =
      rw (busy_kept (w.at i) b a s st h) (busy_drops w (i + 1) bs a s st h)

  ready_answer :
      (env : Env) (b : List SolanaTransferActionPayload) (s : AgentPhase) (a : AgentState)
      → IsReady s
      → Agent.respond {F = F} (env, for_agent (transfer_batch b)) s a
        ≡ done (a, transition (Phase.transferring b 0))
  unfolding Agent.respond
  ready_answer env b Phase.idle a h = refl
  ready_answer env b Phase.success a h = refl
  ready_answer env b _ a h = absurd h

  ready_takes :
      (env : Env) (b : List SolanaTransferActionPayload) (a : AgentState) (s : AgentPhase)
      (st : VolumeStrategy)
      → st.main_wallet ≡ (a, s)
      → IsReady s
      → on_main_wallet F lib env (transfer_batch b) st
        ≡ done (
            with_wallet
              (transfer_action env b (with_shared st.shared a))
              (Phase.transferring b 0)
              st)
  unfolding on_main_wallet
  ready_takes env b a s st e h =
      rw
        (
          e,
          lib.handle_law,
          step_move env (for_agent (transfer_batch b)) s (Phase.transferring b 0)
              (with_shared st.shared a) (ready_answer env b s (with_shared st.shared a) h)
              (entered env b (with_shared st.shared a)),
        )
        refl

  -- Of the batches that are sent to a main wallet that is idle or in success, it takes the first:
  -- it sends that order, and the others change nothing. Their transfers are never asked for.
  pub send_batches-first_only :
      (w : World) (b : List SolanaTransferActionPayload)
      (bs : List (List SolanaTransferActionPayload)) (a : AgentState) (s : AgentPhase)
      (st : VolumeStrategy)
      → st.main_wallet ≡ (a, s)
      → IsReady s
      → send_batches F lib w 0 (b ∷ bs) st
        ≡ done (
            with_wallet
              (transfer_action (w.at 0) b (with_shared st.shared a))
              (Phase.transferring b 0)
              st)
  unfolding send_batches
  send_batches-first_only w b bs a s st e h =
      let a' = transfer_action (w.at 0) b (with_shared st.shared a) in
      rw (ready_takes (w.at 0) b a s st e h) (busy_drops w 1 bs a' (Phase.transferring b 0) st tt)

  failed_answer :
      (env : Env) (b : List SolanaTransferActionPayload) (f : Phase.Failure) (a : AgentState)
      → a.strategy_id_opt ≡ none
      → Agent.respond {F = F} (env, for_agent (transfer_batch b)) (Phase.error f) a
        ≡ done (a, transition Phase.idle)
  unfolding Agent.respond
  failed_answer env b f a e = rw e refl

  idle_entered : (env : Env) (a : AgentState) → Entry.enter env Phase.idle a ≡ done a
  unfolding Entry.enter
  idle_entered env a = refl

  -- A batch that is sent to a main wallet whose last order failed is not sent on: the wallet comes
  -- to `Idle` and asks for nothing. In that state of the wallet the strategy does not leave the
  -- state `fund`, whatever event comes.
  pub failed_wallet-stranded :
      (w : World) (b : List SolanaTransferActionPayload) (f : Phase.Failure) (a : AgentState)
      (st : VolumeStrategy) (later : World) (event : SolanaStrategyEvent F)
      → st.main_wallet ≡ (a, Phase.error f)
      → a.strategy_id_opt ≡ none
      → let st' = with_wallet (with_shared st.shared a) Phase.idle st in
        (send_batches F lib w 0 (b ∷ []) st ≡ done st')
        × (step (chart F lib) (later, event) (st', fund) ≡ done (st', fund))
  unfolding send_batches on_main_wallet step Chart.follow chart
  failed_wallet-stranded w b f a st later event e main =
      let a' = with_shared st.shared a in
      (
        rw
            (
              e,
              lib.handle_law,
              step_move (w.at 0) (for_agent (transfer_batch b)) (Phase.error f) Phase.idle a'
                  (failed_answer (w.at 0) b f a' main) (idle_entered (w.at 0) a'),
            )
            refl,
        refl,
      )
