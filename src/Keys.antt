-- ===== src/Keys.antt =====
-- src/utils/keys.rs and src/types/keys.rs: the texts of private keys.
use foxfire_sniper.Base.{
  ℕ, ◌+◌, ◌-◌, ◌*◌, ◌/◌, ◌%◌, ltb, leb, ◌==◌, Bool, true, false, ◌&&◌, ◌||◌, not, Option, none,
  some, List, [], ◌∷◌, ◌++◌, length, if◌then◌else◌, Outcome, done, panic, ◌>>=◌, unwrap,
}
use foxfire_sniper.Base.Results.{Result, ok, err, ok_or}
use foxfire_sniper.Telegram.Input.{Text}
pub mod RoundTrip

abbrev pub Bytes : Type 0
Bytes = List ℕ

-- The key pairs of the Solana SDK and the code of base 58. `expand` is the secret key of 32 bytes with
-- its public key, by ed25519_dalek.
pub record Keypairs : Type 1 where
  pub Keypair : Type 0
  pub to_bytes : Keypair → Bytes
  pub from_bytes : Bytes → Option Keypair
  pub expand : Bytes → Option Bytes
  pub encode : Bytes → Text
  pub decode : Text → Option Bytes

pub data KeyError : Type 0 where
  cannot_decode invalid_length invalid_key : KeyError

-- A hexadecimal digit, as `{:02x}` writes it and as `from_str_radix` reads it.
unfoldable pub hex_digit : ℕ → ℕ
hex_digit d = if ltb d 10 then b'0' + d else b'a' + (d - 10)

unfoldable pub hex_value : ℕ → Option ℕ
hex_value c =
    if leb b'0' c && leb c b'9'
    then some (c - b'0')
    else if leb b'a' c && leb c b'f'
    then some (c - b'a' + 10)
    else if leb b'A' c && leb c b'F'
    then some (c - b'A' + 10)
    else none

unfoldable pub base16 : Bytes → Text
unfolding hex_digit
base16 [] = []
base16 (b ∷ bs) = hex_digit (b / 16) ∷ hex_digit (b % 16) ∷ base16 bs

abbrev pub two_digits : Option ℕ → Option ℕ → Option ℕ
two_digits (some high) (some low) = some (high * 16 + low)
two_digits _ _ = none

-- `u8::from_str_radix(…, 16)` of two characters; a sign before a digit is read, too.
unfoldable pub radix_16 : ℕ → ℕ → Option ℕ
unfolding hex_value
radix_16 c d = if c == b'+' then hex_value d else two_digits (hex_value c) (hex_value d)

-- Two characters at a time; one that is left over is out of range.
unfoldable pub read_base16 : Text → Outcome Bytes
unfolding radix_16
read_base16 [] = done []
read_base16 (c ∷ []) = panic
read_base16 (c ∷ d ∷ cs) = unwrap (radix_16 c d) >>= λ b. read_base16 cs >>= λ bs. done (b ∷ bs)

module _ (keys : Keypairs) where
  open keys use {Keypair}

  unfoldable pub clone_keypair : Keypair → Outcome Keypair
  clone_keypair keypair = unwrap (keys.from_bytes (keys.to_bytes keypair))

  unfoldable pub private_key_string_base16 : Keypair → Text
  unfolding base16
  private_key_string_base16 keypair = base16 (keys.to_bytes keypair)

  unfoldable pub private_key_string_base58 : Keypair → Text
  private_key_string_base58 keypair = keys.encode (keys.to_bytes keypair)

  unfoldable pub from_base16_str_private_key : Text → Outcome Keypair
  unfolding read_base16
  from_base16_str_private_key private_key =
      read_base16 private_key >>= λ bytes. unwrap (keys.from_bytes bytes)

  abbrev pub from_expanded : Option Bytes → Result KeyError Keypair
  from_expanded none = err invalid_key
  from_expanded (some bytes) = ok_or (keys.from_bytes bytes) invalid_key

  abbrev pub from_decoded : Option Bytes → Result KeyError Keypair
  from_decoded none = err cannot_decode
  from_decoded (some bytes) =
      if not (length bytes == 64) && not (length bytes == 32)
      then err invalid_length
      else if length bytes == 64
      then ok_or (keys.from_bytes bytes) invalid_key
      else from_expanded (keys.expand bytes)

  unfoldable pub keypair_from_base58_string : Text → Result KeyError Keypair
  keypair_from_base58_string privkey = from_decoded (keys.decode privkey)
