-- ===== src/Feed/Swaps.antt =====
-- src/solana/tx_parser.rs: the swaps of a transaction.
use foxfire_sniper.Base.{
  ℕ, Bool, false, not, ◌&&◌, Option, none, some, List, [], ◌∷◌, ◌==◌, if◌then◌else◌, length,
}
use foxfire_sniper.Types.{Pubkey, Signature, wsol_mint_pubkey}
use foxfire_sniper.Feed.Transactions.{
  Data, UiInstruction, partially_decoded, UiPartiallyDecodedInstruction, UiMessage, parsed_message,
  Parse, read, nothing, panics, ◌>>=◌, or_nothing, or_panics, index, parse_ui_instruction,
}

pub data TradeDirection : Type 0 where
  buy sell : TradeDirection

pub record Swap : Type 0 where
  pub signature : Signature
  pub pool_id : Pubkey
  pub quote_amount : ℕ
  pub base_amount : ℕ
  pub trade_direction : TradeDirection

-- What the libraries decode of a transaction: the signatures, and the message, encoded as parsed
-- JSON, if it is not of version 0.
pub record VersionedTransaction : Type 0 where
  pub signatures : List Signature
  pub message : Option UiMessage

-- The inner instructions are `none` where the node left them out.
pub record Meta : Type 0 where
  pub failed : Bool
  pub inner_instructions : Option (List (List UiInstruction))

pub record Transaction : Type 0 where
  pub decoded : Option VersionedTransaction
  pub meta : Option Meta

-- `TokenInstruction::unpack`: a transfer of an amount, or something else.
pub data TokenInstruction : Type 0 where
  transfer : ℕ → TokenInstruction
  other_token_instruction : TokenInstruction

-- What the reader uses of the Solana libraries, and the constants of src/solana/constants.rs that
-- are texts.
pub record Chain : Type 0 where
  pub associated_token_address : Pubkey → Pubkey → Pubkey
  pub base58_bytes : Data → Option (List ℕ)
  pub unpack : List ℕ → Option TokenInstruction
  pub token_program_id : Pubkey
  pub raydium_v4_program_id : Pubkey
  pub raydium_v4_authority : Pubkey

-- The amounts and the direction of one swap, as the loops change them.
pub record Amounts : Type 0 where
  pub quote_amount : ℕ
  pub base_amount : ℕ
  pub trade_direction : TradeDirection

module _ (chain : Chain) where
  -- The first loop over a pair: the instructions, and the direction, that each of them sets anew.
  unfoldable pub directions :
      Pubkey
      → List Pubkey
      → List UiInstruction
      → TradeDirection
      → Parse (List UiPartiallyDecodedInstruction × TradeDirection)
  directions sol_ata tx_accounts [] direction = read ([], direction)
  directions sol_ata tx_accounts (ix ∷ ixs) direction = do
    pd ← parse_ui_instruction ix tx_accounts
    destination_account ← index pd.accounts 1
    (pds, last) ←
        directions sol_ata tx_accounts ixs (if destination_account == sol_ata then sell else buy)
    read (pd ∷ pds, last)

  abbrev pub recorded : Bool → ℕ → Amounts → Amounts
  recorded by_raydium amount a = elim a.trade_direction [
    | buy ↦
        if by_raydium then record a { base_amount = amount } else record a { quote_amount = amount }
    | sell ↦
        if by_raydium then record a { quote_amount = amount } else record a { base_amount = amount }
  ]

  abbrev pub is_transfer : List ℕ → Bool
  is_transfer [] = false
  is_transfer (first ∷ _) = first == 3

  abbrev pub amount_of : TokenInstruction → Parse ℕ
  amount_of (transfer amount) = read amount
  amount_of other_token_instruction = nothing

  -- A transfer of a pair is recorded by the account that has the authority.
  unfoldable pub record_transfer : List ℕ → UiPartiallyDecodedInstruction → Amounts → Parse Amounts
  record_transfer bytes pd a = do
    token_instruction ← or_nothing (chain.unpack bytes)
    amount ← amount_of token_instruction
    _ ← index pd.accounts 0
    _ ← index pd.accounts 1
    authority_account ← index pd.accounts 2
    read (recorded (authority_account == chain.raydium_v4_authority) amount a)

  unfoldable pub read_token_transfer :
      List ℕ → UiPartiallyDecodedInstruction → Amounts → Parse Amounts
  unfolding record_transfer
  read_token_transfer bytes pd a =
      if (pd.program_id == chain.token_program_id) && is_transfer bytes
      then record_transfer bytes pd a
      else read a

  unfoldable pub read_transfer : UiPartiallyDecodedInstruction → Amounts → Parse Amounts
  unfolding read_token_transfer
  read_transfer pd a = do
    bytes ← or_nothing (chain.base58_bytes pd.encoded_data)
    read_token_transfer bytes pd a

  unfoldable pub read_transfers : List UiPartiallyDecodedInstruction → Amounts → Parse Amounts
  unfolding read_transfer
  read_transfers [] a = read a
  read_transfers (pd ∷ pds) a = do a' ← read_transfer pd a; read_transfers pds a'

  -- One set of inner instructions: only pairs count.
  unfoldable pub read_pair : Pubkey → List Pubkey → List UiInstruction → Amounts → Parse Amounts
  unfolding directions read_transfers
  read_pair sol_ata tx_accounts ixs a = if not (length ixs == 2) then read a else do
    (pds, direction) ← directions sol_ata tx_accounts ixs a.trade_direction
    read_transfers pds (record a { trade_direction = direction })

  unfoldable pub read_inner :
      Pubkey → List Pubkey → List (List UiInstruction) → Amounts → Parse Amounts
  unfolding read_pair
  read_inner sol_ata tx_accounts [] a = read a
  read_inner sol_ata tx_accounts (ixs ∷ rest) a = do
    a' ← read_pair sol_ata tx_accounts ixs a
    read_inner sol_ata tx_accounts rest a'

  -- `if let Some(meta)`: without it the amounts stay zero.
  unfoldable pub read_meta : Pubkey → List Pubkey → Option Meta → Amounts → Parse Amounts
  unfolding read_inner
  read_meta sol_ata tx_accounts none a = read a
  read_meta sol_ata tx_accounts (some meta) a = if meta.failed then nothing else do
    all_inner_ixs ← or_nothing meta.inner_instructions
    read_inner sol_ata tx_accounts all_inner_ixs a

  abbrev pub unread : Amounts
  unread = record { quote_amount = 0; base_amount = 0; trade_direction = buy }

  -- `accounts[accounts.len() - 1]`
  abbrev pub last_account : List Pubkey → Parse Pubkey
  last_account [] = panics
  last_account (x ∷ xs) = index (x ∷ xs) (length xs)

  -- An instruction of the Raydium program.
  unfoldable pub read_swap :
      Option Meta → Signature → List Pubkey → UiPartiallyDecodedInstruction → Parse Swap
  unfolding read_meta
  read_swap meta signature tx_accounts pd = do
    authority ← last_account pd.accounts
    a ←
        read_meta (chain.associated_token_address authority wsol_mint_pubkey) tx_accounts meta
          unread
    pool_id ← index pd.accounts 1
    read (record {
      signature = signature;
      pool_id = pool_id;
      quote_amount = a.quote_amount;
      base_amount = a.base_amount;
      trade_direction = a.trade_direction;
    })

  -- The loop over the instructions; one that is not partially decoded ends it with `None`.
  unfoldable pub read_swaps :
      Option Meta → Signature → List Pubkey → List UiInstruction → Parse (List Swap)
  unfolding read_swap
  read_swaps meta signature tx_accounts [] = read []
  read_swaps meta signature tx_accounts (partially_decoded pd ∷ ixs) =
      let rest = read_swaps meta signature tx_accounts ixs in
      if not (pd.program_id == chain.raydium_v4_program_id)
      then rest
      else do swap ← read_swap meta signature tx_accounts pd; swaps ← rest; read (swap ∷ swaps)
  read_swaps meta signature tx_accounts (_ ∷ ixs) = nothing

  unfoldable pub read_message : Option Meta → Signature → Option UiMessage → Parse (List Swap)
  unfolding read_swaps
  read_message meta signature (some (parsed_message tx_accounts instructions)) =
      read_swaps meta signature tx_accounts instructions
  read_message meta signature _ = nothing

  unfoldable pub parse_tx_for_swaps : Transaction → Parse (List Swap)
  unfolding read_message
  parse_tx_for_swaps tx = do
    versioned_tx ← or_panics tx.decoded
    signature ← index versioned_tx.signatures 0
    read_message tx.meta signature versioned_tx.message
