-- ===== src/Sniper/Trades.antt =====
-- The life of a snipe, over any events: attempts are bounded, a sale follows a confirmed
-- purchase, and the end is the end.
use foxfire_sniper.Base.{
  ℕ, ◌+◌, ◌-◌, ◌/◌, ◌≤◌, ◌<◌, ◌⊎◌, Option, if-elim-with, ◌≡◌, ◌≢◌, refl, sym, ◌∙◌, subst, Bool,
  true, false, none, some, List, [], ◌∷◌, ltb, if◌then◌else◌, done, contains, arith, ap,
}
use foxfire_sniper.Types.{
  exact, max, max_and_close, SolanaStrategyEvent, original, blockchain_event,
  RaydiumPoolPriceUpdate, raydium_swap_event, raydium_heartbeat_price_update, execution_receipt,
  pos, as_u64,
}
use foxfire_sniper.Statechart.{Response, handled, super, transition, Library, step, follow}
use foxfire_sniper.Statechart.Runs.{target, step-parts, follow-target, run, run_invariant}
use foxfire_sniper.Sniper.Floats.{Floats}
use foxfire_sniper.Sniper.State.{
  SniperAgentState, SniperEnv, State, waiting_to_buy, buying, waiting_to_sell, selling,
  done_sniping, error,
}
use foxfire_sniper.Sniper.Handlers.{respond, chart, held_s, leaves_range, price_of, ready_to_buy}

-- The counter that is compared with the limit of retries: a sale counts from 1.
abbrev pub counter : State → ℕ
counter (buying amt retry) = retry
counter (selling amt retry) = retry + 1
counter _ = 0

abbrev is_final : State → Bool
is_final done_sniping = true
is_final (error _) = true
is_final _ = false

abbrev is_selling : State → Bool
is_selling (selling _ _) = true
is_selling _ = false

-- The receipt, without an error, of an action in progress.
abbrev pub Confirms : {F : Type 0} → SolanaStrategyEvent F → SniperAgentState F → Type 0
Confirms (original (blockchain_event (execution_receipt r))) a =
    (r.err ≡ none) × (contains r.action_uuid a.orders.actions_in_progress ≡ true)
Confirms _ a = ⊥

transition_of :
    (s : State) (r : Response State)
    → target s r ≡ waiting_to_sell
    → s ≢ waiting_to_sell
    → r ≡ transition waiting_to_sell
transition_of s handled e n = absurd (n e)
transition_of s super e n = absurd (n e)
transition_of s (transition t) e n = ap transition e

-- The event brings a price: that of a swap or of a heartbeat of a pool.
pub data Brings {F : Type 0} : SolanaStrategyEvent F → RaydiumPoolPriceUpdate F → Type 0 where
  by_heartbeat :
      {u : RaydiumPoolPriceUpdate F}
      → Brings (original (blockchain_event (raydium_heartbeat_price_update u))) u
  by_swap :
      {u : RaydiumPoolPriceUpdate F} → Brings (original (blockchain_event (raydium_swap_event u))) u

Brings-price_of :
    {F : Type 0} {ev : SolanaStrategyEvent F} {u : RaydiumPoolPriceUpdate F}
    → Brings ev u
    → price_of ev ≡ some u
Brings-price_of by_heartbeat = refl
Brings-price_of by_swap = refl

some-injective : {A : Type 0} {a b : A} → some a ≡ some b → a ≡ b
some-injective h = cc

none-some : {A : Type 0} {a : A} → ¬ (none ≡ some a)
none-some h = cc

false-true : ¬ (false ≡ true)
false-true h = cc

price_of-Brings :
    {F : Type 0} (ev : SolanaStrategyEvent F) (u : RaydiumPoolPriceUpdate F)
    → price_of ev ≡ some u
    → Brings ev u
price_of-Brings (original (blockchain_event (raydium_heartbeat_price_update v))) u h =
    subst (Brings (original (blockchain_event (raydium_heartbeat_price_update v))))
      (some-injective h) by_heartbeat
price_of-Brings (original (blockchain_event (raydium_swap_event v))) u h =
    subst (Brings (original (blockchain_event (raydium_swap_event v)))) (some-injective h) by_swap
price_of-Brings _ u h = absurd (none-some h)

module _ (fl : Floats) where
  open fl use {F, mul, lit, to_u64}

  step-target :
      (env : SniperEnv F) (ev : SolanaStrategyEvent F) (s : State) (a : SniperAgentState F)
      {y : SniperAgentState F × State}
      → step (chart fl) (env, ev) (a, s) ≡ done y
      → (x : SniperAgentState F × Response State) × (respond fl (env, ev) s a ≡ done x)
        × (y.1 ≡ target s x.1)
  unfolding chart
  step-target env ev s a h =
      let (x, answered, followed) = step-parts (chart fl) (env, ev) a s h in
      (x, answered, follow-target (chart fl) (env, ev) s x.0 x.1 followed)

  respond-counter :
      (env : SniperEnv F) (ev : SolanaStrategyEvent F) (s : State) (a : SniperAgentState F)
      {x : SniperAgentState F × Response State}
      → counter s ≤ 3
      → respond fl (env, ev) s a ≡ done x
      → counter (target s x.1) ≤ 3
  unfolding respond
  respond-counter env ev waiting_to_buy a h e = ground arith
  respond-counter env ev s a h e = ground arith

  step-counter :
      (e : SniperEnv F × SolanaStrategyEvent F) (x y : SniperAgentState F × State)
      → counter x.1 ≤ 3
      → step (chart fl) e x ≡ done y
      → counter y.1 ≤ 3
  step-counter e x y h st =
      let (r, answered, arrived) = step-target e.0 e.1 x.1 x.0 st in
      subst (λ t. counter t ≤ 3) (sym arrived) (respond-counter e.0 e.1 x.1 x.0 h answered)

  -- Whatever events a snipe handles, the retry counter stays within 3 for a purchase and within 2
  -- for a sale once it is there: a purchase is sent at most four times and a sale at most three.
  pub run-counter :
      (lib : Library (chart fl)) (es : List (SniperEnv F × SolanaStrategyEvent F))
      (x : SniperAgentState F × State) {y : SniperAgentState F × State}
      → counter x.1 ≤ 3
      → run (chart fl) lib es x ≡ done y
      → counter y.1 ≤ 3
  run-counter lib es x = run_invariant (chart fl) lib (λ y. counter y.1 ≤ 3) step-counter es x

  respond_confirmed :
      (env : SniperEnv F) (ev : SolanaStrategyEvent F) (s : State) (a : SniperAgentState F)
      {x : SniperAgentState F × Response State}
      → respond fl (env, ev) s a ≡ done x
      → x.1 ≡ transition waiting_to_sell
      → Confirms ev a
  unfolding respond
  respond_confirmed env ev waiting_to_buy a e t = ground arith
  respond_confirmed env ev s a e t = ground arith

  -- A snipe waits to sell only once its purchase is confirmed: the step to that state from
  -- another handles a receipt without an error for an action in progress.
  pub step_confirmed :
      (env : SniperEnv F) (ev : SolanaStrategyEvent F) (s : State) (a : SniperAgentState F)
      {y : SniperAgentState F × State}
      → step (chart fl) (env, ev) (a, s) ≡ done y
      → y.1 ≡ waiting_to_sell
      → s ≢ waiting_to_sell
      → Confirms ev a
  step_confirmed env ev s a st w n =
      let (x, answered, arrived) = step-target env ev s a st in
      respond_confirmed env ev s a answered (transition_of s x.1 (sym arrived ∙ w) n)

  respond-selling :
      (env : SniperEnv F) (ev : SolanaStrategyEvent F) (s : State) (a : SniperAgentState F)
      {x : SniperAgentState F × Response State}
      → respond fl (env, ev) s a ≡ done x
      → is_selling (target s x.1) ≡ true
      → is_selling s ≡ false
      → s ≡ waiting_to_sell
  unfolding respond
  respond-selling env ev waiting_to_buy a e t f = ground arith
  respond-selling env ev s a e t f = ground arith

  waiting_to_sell_lem :
      (env : SniperEnv F) (ev : SolanaStrategyEvent F) (a : SniperAgentState F)
      {y : SniperAgentState F × State}
      → step (chart fl) (env, ev) (a, waiting_to_sell) ≡ done y
      → y.1 ≡ (
          if ltb (as_u64 a.instance_of.force_exit_horizon_s) (held_s fl env a)
          then selling max_and_close 0
          else elim (price_of ev) [
            | none ↦ waiting_to_sell
            | some u ↦ if leaves_range fl u a then selling max 0 else waiting_to_sell
          ])
  unfolding respond
  waiting_to_sell_lem env ev a st =
      let (x, answered, arrived) = step-target env ev waiting_to_sell a st in ground arith

  -- The price is that of the snipe's pool and below the stop loss or above the target.
  pub record IsOutside (u : RaydiumPoolPriceUpdate F) (a : SniperAgentState F) : Type 0 where
    pub same_pool : u.pool ≡ a.pool.id
    pub outside :
        (fl.lt u.price (mul a.buy_price.price a.instance_of.stop_loss_percent_move_down) ≡ true)
        ⊎ (fl.lt (mul a.buy_price.price a.instance_of.take_profit_percent_move_up) u.price ≡ true)

  -- What a snipe that waits to sell does: the seconds since the purchase against the horizon, and the
  -- price of the event against the range.
  pub data Decides (env : SniperEnv F) (ev : SolanaStrategyEvent F) (a : SniperAgentState F)
      : State → Type 0 where
    forced :
        as_u64 a.instance_of.force_exit_horizon_s < (env.base.now - a.when_bought_timer) / 1000
        → Decides env ev a (selling max_and_close 0)
    sold :
        {u : RaydiumPoolPriceUpdate F}
        → (env.base.now - a.when_bought_timer) / 1000 ≤ as_u64 a.instance_of.force_exit_horizon_s
        → Brings ev u
        → IsOutside u a
        → Decides env ev a (selling max 0)
    waits :
        (env.base.now - a.when_bought_timer) / 1000 ≤ as_u64 a.instance_of.force_exit_horizon_s
        → ((u : RaydiumPoolPriceUpdate F) → Brings ev u → ¬ IsOutside u a)
        → Decides env ev a waiting_to_sell

  leaves_range-IsOutside :
      (u : RaydiumPoolPriceUpdate F) (a : SniperAgentState F)
      → leaves_range fl u a ≡ true
      → IsOutside u a
  unfolding leaves_range
  leaves_range-IsOutside u a h = record { same_pool = ground arith; outside = ground arith }

  IsOutside-leaves_range :
      (u : RaydiumPoolPriceUpdate F) (a : SniperAgentState F)
      → IsOutside u a
      → leaves_range fl u a ≡ true
  unfolding leaves_range
  IsOutside-leaves_range u a h = ground (arith, h.same_pool, h.outside)

  by_price :
      (env : SniperEnv F) (ev : SolanaStrategyEvent F) (a : SniperAgentState F)
      (o : Option (RaydiumPoolPriceUpdate F))
      → price_of ev ≡ o
      → (env.base.now - a.when_bought_timer) / 1000 ≤ as_u64 a.instance_of.force_exit_horizon_s
      → Decides env ev a (elim o [
        | none ↦ waiting_to_sell
        | some u ↦ if leaves_range fl u a then selling max 0 else waiting_to_sell
      ])
  by_price env ev a none e within =
      waits within (λ u b. absurd (none-some (sym e ∙ Brings-price_of b)))
  by_price env ev a (some u) e within =
      if-elim-with (Decides env ev a) (leaves_range fl u a)
        (λ out. sold within (price_of-Brings ev u e) (leaves_range-IsOutside u a out))
        (λ inside. waits within (λ v b h. false-true (
          sym inside
          ∙ ap (λ t. leaves_range fl t a) (some-injective (sym e ∙ Brings-price_of b))
          ∙ IsOutside-leaves_range v a h)))

  -- While a snipe waits to sell, it sells everything and closes the account once the seconds since
  -- the purchase are more than the horizon; up to then it sells where the event brings a price of
  -- its pool below the stop loss or above the target, and it waits on in every other case.
  pub step-waiting_to_sell :
      (env : SniperEnv F) (ev : SolanaStrategyEvent F) (a : SniperAgentState F)
      {y : SniperAgentState F × State}
      → step (chart fl) (env, ev) (a, waiting_to_sell) ≡ done y
      → Decides env ev a y.1
  unfolding held_s
  step-waiting_to_sell env ev a st =
      subst (Decides env ev a) (sym (waiting_to_sell_lem env ev a st)) (
        if-elim-with (Decides env ev a)
          (ltb (as_u64 a.instance_of.force_exit_horizon_s) (held_s fl env a))
          (λ over. forced (ground (arith, over)))
          (λ within. by_price env ev a (price_of ev) refl (ground (arith, within))))

  final_stays :
      (env : SniperEnv F) (ev : SolanaStrategyEvent F) (s : State) (a : SniperAgentState F)
      → is_final s ≡ true
      → step (chart fl) (env, ev) (a, s) ≡ done (a, s)
  unfolding step follow chart respond
  final_stays env ev waiting_to_buy a h = cc
  final_stays env ev s a h = ground arith

  -- A snipe that is done, or that failed, changes nothing any more, whatever events come.
  pub run_final :
      (lib : Library (chart fl)) (es : List (SniperEnv F × SolanaStrategyEvent F)) (s : State)
      (a : SniperAgentState F)
      → is_final s ≡ true
      → run (chart fl) lib es (a, s) ≡ done (a, s)
  unfolding run
  run_final lib [] s a h = refl
  run_final lib ((env, ev) ∷ es) s a h =
      rw (lib.handle_law, final_stays env ev s a h) (run_final lib es s a h)

  -- Without a delay, the first event of any kind makes the snipe buy for the configured size: a
  -- price that dropped is not looked at.
  pub step_undelayed :
      (env : SniperEnv F) (ev : SolanaStrategyEvent F) (a : SniperAgentState F)
      {y : SniperAgentState F × State}
      → a.instance_of.buy_delay_ms ≡ pos 0
      → step (chart fl) (env, ev) (a, waiting_to_buy) ≡ done y
      → y.1 ≡ buying (exact (to_u64 (mul a.instance_of.size_sol (lit 1000000000)))) 0
  unfolding respond ready_to_buy
  step_undelayed env ev a d st =
      let (x, answered, arrived) = step-target env ev waiting_to_buy a st in ground arith
