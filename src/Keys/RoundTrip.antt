-- ===== src/Keys/RoundTrip.antt =====
-- The texts of a key are read back: src/utils/keys.rs and src/types/keys.rs.
use foxfire_sniper.Base.{
  ℕ, ◌/◌, ◌%◌, ◌<◌, ◌≡◌, refl, ap, ◌==◌, false, some, [], ◌∷◌, length, done, ◌>>=◌, arith,
}
use foxfire_sniper.Base.Results.{ok}
use foxfire_sniper.Keys.{
  Bytes, Keypairs, hex_digit, hex_value, base16, radix_16, read_base16, clone_keypair,
  private_key_string_base16, private_key_string_base58, from_base16_str_private_key,
  keypair_from_base58_string,
}

hex_value-hex_digit : (d : ℕ) → d < 16 → hex_value (hex_digit d) ≡ some d
unfolding hex_value hex_digit
hex_value-hex_digit d h = ground arith

hex_digit-sign : (d : ℕ) → (hex_digit d == b'+') ≡ false
unfolding hex_digit
hex_digit-sign d = ground arith

radix_16_lem : (b : ℕ) → b < 256 → radix_16 (hex_digit (b / 16)) (hex_digit (b % 16)) ≡ some b
unfolding radix_16
radix_16_lem b h =
    rw
      (
        hex_digit-sign (b / 16),
        hex_value-hex_digit (b / 16) (omega arith),
        hex_value-hex_digit (b % 16) (omega arith),
      )
      (ap some (omega arith))

abbrev pub AreBytes : Bytes → Type 0
AreBytes [] = Unit
AreBytes (b ∷ bs) = (b < 256) × AreBytes bs

read_base16-base16 : (bs : Bytes) → AreBytes bs → read_base16 (base16 bs) ≡ done bs
unfolding base16 read_base16
read_base16-base16 [] h = refl
read_base16-base16 (b ∷ bs) (below, h) =
    rw (radix_16_lem b below, ◌>>=◌) (rw (read_base16-base16 bs h) refl)

-- What the Solana SDK and base 58 promise: a key is 64 bytes, which make the key again, and a text
-- that is encoded is decoded.
pub record IsKeyCode (keys : Keypairs) : Type 0 where
  pub are_bytes : (k : keys.Keypair) → AreBytes (keys.to_bytes k)
  pub length_64 : (k : keys.Keypair) → length (keys.to_bytes k) ≡ 64
  pub from_bytes-to_bytes : (k : keys.Keypair) → keys.from_bytes (keys.to_bytes k) ≡ some k
  pub decode-encode : (bs : Bytes) → AreBytes bs → keys.decode (keys.encode bs) ≡ some bs

module _ (keys : Keypairs) (code : IsKeyCode keys) where
  -- A key is read back from its text in base 16, without a panic, and from its text in base 58, and a
  -- clone of it is the key.
  pub from_base16-private_key_string :
      (k : keys.Keypair)
      → (from_base16_str_private_key keys (private_key_string_base16 keys k) ≡ done k)
        × (keypair_from_base58_string keys (private_key_string_base58 keys k) ≡ ok k)
        × (clone_keypair keys k ≡ done k)
  unfolding from_base16_str_private_key private_key_string_base16 keypair_from_base58_string
      private_key_string_base58 clone_keypair
  from_base16-private_key_string k = (
    rw (read_base16-base16 (keys.to_bytes k) (code.are_bytes k), code.from_bytes-to_bytes k) refl,
    rw (code.decode-encode (keys.to_bytes k) (code.are_bytes k))
        (rw (code.length_64 k, code.from_bytes-to_bytes k) refl),
    rw (code.from_bytes-to_bytes k) refl,
  )
