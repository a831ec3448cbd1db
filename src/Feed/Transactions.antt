-- ===== src/Feed/Transactions.antt =====
-- The transactions of the Solana libraries as src/solana/tx_parser.rs reads them, and its readers of
-- instructions. Texts of keys and of base 58 data are identifiers.
use foxfire_sniper.Base.{
  ℕ, Bool, true, false, Option, none, some, List, [], ◌∷◌, ◌≡◌, refl, get_elem?,
}
use foxfire_sniper.Types.{Pubkey}

abbrev pub Data : Type 0
Data = ℕ

pub record UiCompiledInstruction : Type 0 where
  pub program_id_index : ℕ
  pub account_indices : List ℕ
  pub compiled_data : Data

pub record UiPartiallyDecodedInstruction : Type 0 where
  pub program_id : Pubkey
  pub accounts : List Pubkey
  pub encoded_data : Data

-- Of an instruction that the libraries parse, the mint that its info names, if it is a text.
pub record ParsedInstruction : Type 0 where
  pub is_associated_token_account : Bool
  pub info_mint : Option Pubkey

pub data UiInstruction : Type 0 where
  compiled : UiCompiledInstruction → UiInstruction
  parsed : ParsedInstruction → UiInstruction
  partially_decoded : UiPartiallyDecodedInstruction → UiInstruction

pub data UiMessage : Type 0 where
  parsed_message : List Pubkey → List UiInstruction → UiMessage
  raw_message : List UiCompiledInstruction → UiMessage

pub data EncodedTransaction : Type 0 where
  json : UiMessage → EncodedTransaction
  other_encoding : EncodedTransaction

-- A reader answers, gives `None` or `Err`, or panics.
pub data Parse {ℓ} (A : Type ℓ) : Type ℓ where
  read : A → Parse A
  nothing : Parse A
  panics : Parse A

infixl 5 ◌>>=◌
abbrev pub ◌>>=◌ {ℓ κ} : {A : Type ℓ} {B : Type κ} → Parse A → (A → Parse B) → Parse B
read a >>= f = f a
nothing >>= f = nothing
panics >>= f = panics

pub Parse-bind_inv {ℓ κ} :
    {A : Type ℓ} {B : Type κ} (m : Parse A) (f : A → Parse B) {b : B}
    → (m >>= f) ≡ read b
    → (a : A) × (m ≡ read a) × (f a ≡ read b)
Parse-bind_inv (read a) f h = (a, refl, h)
Parse-bind_inv nothing f h = cc
Parse-bind_inv panics f h = cc

-- `?` on an `Option`.
abbrev pub or_nothing {ℓ} : {A : Type ℓ} → Option A → Parse A
or_nothing none = nothing
or_nothing (some a) = read a

-- `xs[i]`, and `unwrap`.
abbrev pub or_panics {ℓ} : {A : Type ℓ} → Option A → Parse A
or_panics none = panics
or_panics (some a) = read a

abbrev pub index {ℓ} : {A : Type ℓ} → List A → ℕ → Parse A
index xs i = or_panics (get_elem? xs i)

unfoldable pub index_all : List Pubkey → List ℕ → Parse (List Pubkey)
index_all keys [] = read []
index_all keys (i ∷ is) = do key ← index keys i; rest ← index_all keys is; read (key ∷ rest)

unfoldable pub parse_ui_compiled_instruction :
    UiCompiledInstruction → List Pubkey → Parse UiPartiallyDecodedInstruction
unfolding index_all
parse_ui_compiled_instruction c account_keys = do
  program_id ← index account_keys c.program_id_index
  accounts ← index_all account_keys c.account_indices
  read (record { program_id = program_id; accounts = accounts; encoded_data = c.compiled_data })

-- What is not partially decoded makes it panic.
unfoldable pub parse_ui_instruction :
    UiInstruction → List Pubkey → Parse UiPartiallyDecodedInstruction
unfolding parse_ui_compiled_instruction
parse_ui_instruction (compiled c) account_keys = parse_ui_compiled_instruction c account_keys
parse_ui_instruction (partially_decoded pd) account_keys = read pd
parse_ui_instruction (parsed _) account_keys = panics

-- `encode` is `bs58::encode` of the bytes of a text, here one that is encoded already.
module _ (encode : Data → Data) where
  abbrev recompiled : List UiCompiledInstruction → List UiInstruction
  recompiled [] = []
  recompiled (ix ∷ ixs) =
      compiled (record ix { compiled_data = encode ix.compiled_data }) ∷ recompiled ixs

  unfoldable pub parse_instructions : EncodedTransaction → Parse (List UiInstruction)
  parse_instructions (json (parsed_message _ instructions)) = read instructions
  parse_instructions (json (raw_message instructions)) = read (recompiled instructions)
  parse_instructions other_encoding = nothing

  -- The loop over the instructions.
  unfoldable pub first_mint : List UiInstruction → Parse Pubkey
  first_mint [] = nothing
  first_mint (parsed ix ∷ rest) =
      let later = first_mint rest in
      elim ix.is_associated_token_account [ true ↦ or_panics ix.info_mint | false ↦ later ]
  first_mint (_ ∷ rest) = first_mint rest

  unfoldable pub parse_mint : EncodedTransaction → Parse Pubkey
  unfolding parse_instructions first_mint
  parse_mint tx = parse_instructions tx >>= first_mint
