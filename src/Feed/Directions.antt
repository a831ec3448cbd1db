-- ===== src/Feed/Directions.antt =====
-- What src/solana/tx_parser.rs makes of the two transfers of a swap.
use foxfire_sniper.Base.{
  ℕ, ◌≡◌, ◌≢◌, ◌⊎◌, inl, inr, refl, ap, ◌∙◌, suc, Bool, true, false, not, ◌&&◌, Option, some, List,
  [], ◌∷◌, ◌==◌, ==_refl, ==_iff, if◌then◌else◌, length, arith,
}
use foxfire_sniper.Types.{Pubkey, Signature, wsol_mint_pubkey}
use foxfire_sniper.Feed.Transactions.{
  UiInstruction, compiled, parsed, partially_decoded, UiPartiallyDecodedInstruction, parsed_message,
  parse_ui_instruction, Parse, read, ◌>>=◌, Parse-bind_inv, index,
}
use foxfire_sniper.Feed.Swaps.{
  TradeDirection, buy, sell, Swap, Meta, transfer, Chain, Amounts, directions, recorded,
  record_transfer, read_token_transfer, read_transfer, read_transfers, read_pair, read_inner,
  read_meta, unread, last_account, read_swap, read_swaps, read_message, parse_tx_for_swaps,
}

unless {ℓ} :
    {A : Type ℓ} (b : Bool) (x y : Parse A) {a : A}
    → (if not b then x else y) ≡ read a
    → ((b ≡ false) × (x ≡ read a)) ⊎ ((b ≡ true) × (y ≡ read a))
unless true x y h = inr (refl, h)
unless false x y h = inl (refl, h)

module _ (chain : Chain) where
  -- An instruction of the token program that moves an amount between two accounts, compiled against
  -- the account keys of its message or partially decoded.
  pub record IsTransfer (keys : List Pubkey) (ix : UiInstruction)
      (source destination authority : Pubkey) (amount : ℕ) : Type 0 where
    pub pd : UiPartiallyDecodedInstruction
    pub resolved : parse_ui_instruction ix keys ≡ read pd
    pub bytes : List ℕ
    pub decodes : chain.base58_bytes pd.encoded_data ≡ some (3 ∷ bytes)
    pub unpacks : chain.unpack (3 ∷ bytes) ≡ some (transfer amount)
    pub programmed : pd.program_id ≡ chain.token_program_id
    pub accounted : pd.accounts ≡ source ∷ destination ∷ authority ∷ []

  read_transfer_lem :
      (keys : List Pubkey) (ix : UiInstruction) (source destination authority : Pubkey) (amount : ℕ)
      (a : Amounts) (t : IsTransfer keys ix source destination authority amount)
      → read_transfer chain t.pd a
        ≡ read (recorded chain (authority == chain.raydium_v4_authority) amount a)
  unfolding read_transfer read_token_transfer record_transfer
  read_transfer_lem keys ix source destination authority amount a t =
      ground
        (arith, t.decodes, t.unpacks, t.programmed, t.accounted, ==_refl chain.token_program_id)

  -- The direction that the destination of a transfer stands for.
  abbrev direction_to : Pubkey → Pubkey → TradeDirection
  direction_to sol_ata destination = if destination == sol_ata then sell else buy

  abbrev amounts : ℕ → ℕ → TradeDirection → Amounts
  amounts quote base direction = record {
    quote_amount = quote;
    base_amount = base;
    trade_direction = direction;
  }

  module _ (keys : List Pubkey) (i j : UiInstruction) (source₁ to₁ by₁ source₂ to₂ by₂ : Pubkey)
      (n₁ n₂ : ℕ) (first : IsTransfer keys i source₁ to₁ by₁ n₁)
      (second : IsTransfer keys j source₂ to₂ by₂ n₂) where
    directions_lem :
        (sol_ata : Pubkey) (d : TradeDirection)
        → directions chain sol_ata keys (i ∷ j ∷ []) d
          ≡ read (first.pd ∷ second.pd ∷ [], direction_to sol_ata to₂)
    unfolding directions
    directions_lem sol_ata d =
        ground (arith, first.resolved, second.resolved, first.accounted, second.accounted)

    read_pair_lem :
        (sol_ata : Pubkey) (a : Amounts)
        → read_pair chain sol_ata keys (i ∷ j ∷ []) a
          ≡ read (
              recorded chain (by₂ == chain.raydium_v4_authority) n₂ (
                recorded chain
                  (by₁ == chain.raydium_v4_authority)
                  n₁
                  (record a { trade_direction = direction_to sol_ata to₂ })))
    unfolding read_pair read_transfers
    read_pair_lem sol_ata a =
        let a₀ = record a { trade_direction = direction_to sol_ata to₂ } in
        let a₁ = recorded chain (by₁ == chain.raydium_v4_authority) n₁ a₀ in
        ap (λ m. m >>= (λ x. read_transfers chain x.0 (record a { trade_direction = x.1 })))
          (directions_lem sol_ata a.trade_direction)
        ∙ ap (λ m. m >>= (λ x. read_transfer chain second.pd x >>= (λ y. read y)))
            (read_transfer_lem keys i source₁ to₁ by₁ n₁ a₀ first)
        ∙ ap (λ m. m >>= (λ y. read y)) (read_transfer_lem keys j source₂ to₂ by₂ n₂ a₁ second)

    -- A pair in which the user pays first and the pool second: the direction is that of the account
    -- which the pool pays to, and both amounts are on their side.
    pub read_pair-user_first :
        (sol_ata : Pubkey)
        → by₁ ≢ chain.raydium_v4_authority
        → by₂ ≡ chain.raydium_v4_authority
        → read_pair chain sol_ata keys (i ∷ j ∷ []) (unread chain)
          ≡ read (if to₂ == sol_ata then amounts n₂ n₁ sell else amounts n₁ n₂ buy)
    read_pair-user_first sol_ata user pool =
        read_pair_lem sol_ata (unread chain) ∙ ground (arith, ==_iff by₂ chain.raydium_v4_authority)

    -- A sale whose pool pays first, to the account of wrapped SOL, and whose user pays second is read
    -- as a purchase, with the lamports as the base amount and the tokens as the quote amount.
    pub read_pair-pool_first :
        (sol_ata : Pubkey)
        → by₁ ≡ chain.raydium_v4_authority
        → by₂ ≢ chain.raydium_v4_authority
        → to₁ ≡ sol_ata
        → to₂ ≢ sol_ata
        → read_pair chain sol_ata keys (i ∷ j ∷ []) (unread chain) ≡ read (amounts n₂ n₁ buy)
    read_pair-pool_first sol_ata pool user sold elsewhere =
        read_pair_lem sol_ata (unread chain) ∙ ground arith

  -- A Raydium swap is read right where the user pays first: a transaction that succeeded, whose one
  -- instruction is of the Raydium program and has as inner instructions two token transfers, compiled
  -- against the keys of the message or partially decoded, the first by the user and the second by the
  -- pool, gives one swap with the transaction's signature and the pool's account. If the pool pays to
  -- the user's account of wrapped SOL it is a sale of what the user paid for what the pool paid, and
  -- otherwise a purchase.
  pub parse_tx_for_swaps-user_first :
      (pd : UiPartiallyDecodedInstruction) (i j : UiInstruction)
      (source₁ to₁ by₁ source₂ to₂ by₂ : Pubkey) (n₁ n₂ : ℕ) (user pool : Pubkey)
      (signature : Signature) (others : List Signature) (keys : List Pubkey)
      → pd.program_id ≡ chain.raydium_v4_program_id
      → last_account chain pd.accounts ≡ read user
      → index pd.accounts 1 ≡ read pool
      → IsTransfer keys i source₁ to₁ by₁ n₁
      → IsTransfer keys j source₂ to₂ by₂ n₂
      → by₁ ≢ chain.raydium_v4_authority
      → by₂ ≡ chain.raydium_v4_authority
      → let sold = to₂ == chain.associated_token_address user wsol_mint_pubkey in
        parse_tx_for_swaps chain (record {
          decoded = some (record {
            signatures = signature ∷ others;
            message = some (parsed_message keys (partially_decoded pd ∷ []));
          });
          meta = some (record { failed = false; inner_instructions = some ((i ∷ j ∷ []) ∷ []) });
        })
        ≡ read (
            record {
              signature = signature;
              pool_id = pool;
              quote_amount = if sold then n₂ else n₁;
              base_amount = if sold then n₁ else n₂;
              trade_direction = if sold then sell else buy;
            }
            ∷ [])
  unfolding parse_tx_for_swaps read_message read_swaps read_swap read_meta read_inner
  parse_tx_for_swaps-user_first pd i j source₁ to₁ by₁ source₂ to₂ by₂ n₁ n₂ user pool signature
        others keys ours last second_account first second by_user by_pool =
      let pair =
        read_pair-user_first keys i j source₁ to₁ by₁ source₂ to₂ by₂ n₁ n₂ first second
          (chain.associated_token_address user wsol_mint_pubkey) by_user by_pool in
      ground (arith, pair, ours, last, second_account, ==_refl chain.raydium_v4_program_id)

  abbrev is_partially_decoded : UiInstruction → Bool
  is_partially_decoded (partially_decoded _) = true
  is_partially_decoded _ = false

  -- Every instruction is partially decoded.
  abbrev pub all_partially_decoded : List UiInstruction → Bool
  all_partially_decoded [] = true
  all_partially_decoded (ix ∷ ixs) = is_partially_decoded ix && all_partially_decoded ixs

  -- How many instructions are of the Raydium program.
  abbrev pub raydium_count : List UiInstruction → ℕ
  raydium_count [] = 0
  raydium_count (partially_decoded pd ∷ ixs) =
      let rest = raydium_count ixs in
      if pd.program_id == chain.raydium_v4_program_id then suc rest else rest
  raydium_count (_ ∷ ixs) = raydium_count ixs

  -- Swaps are read only of a message all of whose instructions are partially decoded, one for each
  -- instruction of the Raydium program: a message with an instruction of a program that the
  -- libraries parse, such as the system program, gives none, whatever its other instructions are.
  pub read_swaps-counts :
      (meta : Option Meta) (signature : Signature) (keys : List Pubkey) (ixs : List UiInstruction)
      (swaps : List Swap)
      → read_swaps chain meta signature keys ixs ≡ read swaps
      → (all_partially_decoded ixs ≡ true) × (length swaps ≡ raydium_count ixs)
  unfolding read_swaps
  read_swaps-counts meta signature keys [] swaps h = ground arith
  read_swaps-counts meta signature keys (compiled c ∷ ixs) swaps h = cc
  read_swaps-counts meta signature keys (parsed c ∷ ixs) swaps h = cc
  read_swaps-counts meta signature keys (partially_decoded pd ∷ ixs) swaps h =
      let rest = read_swaps chain meta signature keys ixs in
      elim (unless (pd.program_id == chain.raydium_v4_program_id) rest _ h) [
        | inl (other, q) ↦ ground (arith, read_swaps-counts meta signature keys ixs swaps q, other)
        | inr (ours, q) ↦
            let (swap, _, q₁) = Parse-bind_inv (read_swap chain meta signature keys pd) _ q in
            let (later, q₂, q₃) = Parse-bind_inv rest (λ ss. read (swap ∷ ss)) q₁ in
            ground (arith, read_swaps-counts meta signature keys ixs later q₂, ours, q₃)
      ]
