-- ===== src/Feed/Receipts.antt =====
-- What a transaction of the chain means for the action that sent it, and for the cached prices.
use foxfire_sniper.Base.{
  ℕ, ◌≡◌, refl, sym, ◌∙◌, ap, subst, Bool, true, false, ◌⊎◌, inl, inr, Option, none, some, List, [],
  ◌∷◌, ◌++◌, if◌then◌else◌, done, ◌>>=◌, Outcome-bind_inv, arith, Bool-cases,
}
use foxfire_sniper.Types.{
  blockchain_event, raydium_new_pool_event, Uuid, Signature, RaydiumPool, RaydiumPoolPriceUpdate,
}
use foxfire_sniper.Cache.Operational.{
  Signatures, get_uuid_by_signature, mark_signature_as_processed, is_signature_processed,
}
use foxfire_sniper.Cache.LookupByValue.Removal.{insert-contains_value}
use foxfire_sniper.Statechart.Runs.{done-injective}
use foxfire_sniper.Sniper.Floats.{Floats}
use foxfire_sniper.Utils.FeeMetrics
use foxfire_sniper.Feed.Swaps.{Chain, parse_tx_for_swaps}
use foxfire_sniper.Feed.State.{
  live, Status, TransactionPretty, Libraries, FeedCache, Event, err_of, receipt, learn,
  parse_cached_executions, with_signatures, update_fee, fee_per_unit,
}
use foxfire_sniper.Feed.Reserves.{apply_parsed}
use foxfire_sniper.Feed.Stream.{
  some_events, apply_new_pool, finish, after_confirmation, parse_transaction,
}
use foxfire_sniper.Feed.Extension.{IsExtended, apply_parsed-IsExtended}

not_vote {ℓ} : {A : Type ℓ} (b : Bool) (x y : A) → b ≡ false → (if b then x else y) ≡ y
not_vote true x y e = cc
not_vote false x y e = refl

processed :
    (uuid : Uuid) (signature : Signature) (s : Signatures)
    → is_signature_processed signature (mark_signature_as_processed uuid signature s) ≡ true
unfolding is_signature_processed mark_signature_as_processed
processed uuid signature s = insert-contains_value s.processed_signatures uuid signature

module _ (fl : Floats) (libs : Libraries) where
  learn-signatures :
      (fee : Option ℕ) (c c' : FeedCache fl libs)
      → learn fl libs fee c ≡ done c'
      → c'.signatures ≡ c.signatures
  unfolding learn
  learn-signatures none c c' h = ground arith
  learn-signatures (some fee) c c' h =
      let (metrics, _, r) =
        Outcome-bind_inv (FeeMetrics.add_fee fee c.optimal_fee)
          (λ m. done (record c { optimal_fee = m })) h in
      sym (ap (λ x. x.signatures) (done-injective r))

  update_fee-signatures :
      (status : Option Status) (c c' : FeedCache fl libs)
      → update_fee fl libs status c ≡ done c'
      → c'.signatures ≡ c.signatures
  unfolding update_fee
  update_fee-signatures none c c' h = ground arith
  update_fee-signatures (some status) c c' h =
      let fee = fee_per_unit fl libs status status.compute_units_consumed in
      ground (arith, learn-signatures fee c c')

  apply_new_pool-begins :
      (found : Option (RaydiumPool × RaydiumPoolPriceUpdate fl.F)) (c : FeedCache fl libs)
      (first : Event fl libs) (more : List (Event fl libs))
      → let (c', all) = apply_new_pool fl libs found c (first ∷ more) in
        (c'.signatures ≡ c.signatures) × ((rest : List (Event fl libs)) × (all ≡ first ∷ rest))
  unfolding apply_new_pool
  apply_new_pool-begins none c first more = (refl, (more, refl))
  apply_new_pool-begins (some (pool, price)) c first more =
      elim (Bool-cases (libs.has_mint pool.base_mint c.target_tokens)) [
        | inl e ↦ (ground (arith, e), (more, ground (arith, e)))
        | inr e ↦ (
          ground (arith, e),
          (more ++ blockchain_event (raydium_new_pool_event pool price) ∷ [], ground (arith, e)),
        )
      ]

  -- The events begin with the confirmation, or are all dropped.
  finish-begins :
      (found : Option (RaydiumPool × RaydiumPoolPriceUpdate fl.F)) (c : FeedCache fl libs)
      (first : Event fl libs) (result : FeedCache fl libs × Option (List (Event fl libs)))
      → IsExtended fl libs c (first ∷ []) result
      → let (c', out) = finish fl libs found result in
        (c'.signatures ≡ c.signatures)
        × ((out ≡ none) ⊎ ((more : List (Event fl libs)) × (out ≡ some (first ∷ more))))
  unfolding finish
  finish-begins found c first (c₁, none) (same, out) = (same, inl refl)
  finish-begins found c first (c₁, some events) (same, inl out) = cc
  finish-begins found c first (c₁, some events) (same, inr (more, out)) =
      let e : events ≡ first ∷ more = cc in
      let (kept, (rest, all)) = apply_new_pool-begins found c₁ first more in
      (
        ap (λ es. (apply_new_pool fl libs found c₁ es).0.signatures) e ∙ kept ∙ same,
        inr (
          rest,
          ap (λ es. some_events fl libs (apply_new_pool fl libs found c₁ es).1) e
              ∙ ap (some_events fl libs) all,
        ),
      )

  confirmed :
      (tx : TransactionPretty) (c : FeedCache fl libs) (uuid : Uuid)
      → get_uuid_by_signature tx.signature c.signatures ≡ some uuid
      → parse_cached_executions fl libs live tx c
        ≡ done (
          with_signatures fl libs c (mark_signature_as_processed uuid tx.signature c.signatures),
          some (receipt fl libs uuid tx.signature (err_of fl libs tx.status)),
        )
  unfolding parse_cached_executions
  confirmed tx c uuid known = ground (arith, known)

  after_confirmation-begins :
      (chain : Chain) (found : Option (RaydiumPool × RaydiumPoolPriceUpdate fl.F))
      (tx : TransactionPretty) (c : FeedCache fl libs) (first : Event fl libs)
      (end : FeedCache fl libs × Option (List (Event fl libs)))
      → after_confirmation fl libs chain found tx (c, some first) ≡ done end
      → (end.0.signatures ≡ c.signatures)
        × ((end.1 ≡ none) ⊎ ((more : List (Event fl libs)) × (end.1 ≡ some (first ∷ more))))
  unfolding after_confirmation
  after_confirmation-begins chain found tx c first end h =
      let parsed = parse_tx_for_swaps chain tx.tx in
      let (c₁, e₁, r₁) =
        Outcome-bind_inv (update_fee fl libs tx.status c)
          (λ c₁.
            apply_parsed fl libs parsed c₁ (first ∷ []) >>= (λ r. done (finish fl libs found r)))
          h in
      let (r, e₂, r₂) =
        Outcome-bind_inv (apply_parsed fl libs parsed c₁ (first ∷ []))
          (λ r. done (finish fl libs found r)) r₁ in
      let same = update_fee-signatures tx.status c c₁ e₁ in
      let begun =
        finish-begins found c₁ first r
          (apply_parsed-IsExtended fl libs parsed c₁ (first ∷ []) r e₂) in
      subst
        (λ end.
          (end.0.signatures ≡ c.signatures)
          × ((end.1 ≡ none) ⊎ ((more : List (Event fl libs)) × (end.1 ≡ some (first ∷ more)))))
        (done-injective r₂) (begun.0 ∙ same, begun.1)

  -- A live transaction of the bot is confirmed or dropped, and processed in both cases: where the
  -- signature is the one registered for an action and the call does not panic, the signature counts
  -- as processed afterwards, and either the first event is the receipt of that action, with the
  -- error of the transaction, or the call returns nothing, the receipt with it.
  pub parse_transaction-confirms :
      (chain : Chain) (found : Option (RaydiumPool × RaydiumPoolPriceUpdate fl.F))
      (tx : TransactionPretty) (c c' : FeedCache fl libs) (uuid : Uuid)
      (out : Option (List (Event fl libs)))
      → tx.is_vote ≡ false
      → get_uuid_by_signature tx.signature c.signatures ≡ some uuid
      → parse_transaction fl libs chain live found tx c ≡ done (c', out)
      → (is_signature_processed tx.signature c'.signatures ≡ true)
        × ((out ≡ none)
            ⊎ ((more : List (Event fl libs)) × (out
                  ≡ some (receipt fl libs uuid tx.signature (err_of fl libs tx.status) ∷ more))))
  unfolding parse_transaction
  parse_transaction-confirms chain found tx c c' uuid out vote known h =
      let marked =
        with_signatures fl libs c (mark_signature_as_processed uuid tx.signature c.signatures) in
      let first = receipt fl libs uuid tx.signature (err_of fl libs tx.status) in
      let run : after_confirmation fl libs chain found tx (marked, some first) ≡ done (c', out) =
        sym (ap (λ m. m >>= after_confirmation fl libs chain found tx) (confirmed tx c uuid known))
        ∙ sym (not_vote tx.is_vote _ _ vote)
        ∙ h in
      let (kept, shape) = after_confirmation-begins chain found tx marked first (c', out) run in
      (
        ap (is_signature_processed tx.signature) kept ∙ processed uuid tx.signature c.signatures,
        shape,
      )
