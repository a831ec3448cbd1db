-- ===== src/Tests/PrivateKeys.antt =====
-- Two keys and their texts: src/utils/keys.rs and src/types/keys.rs.
use foxfire_sniper.Base.{
  ◌<◌, ℕ, zero, suc, ◌==◌, ◌≡◌, refl, Bool, true, false, Option, none, some, [], ◌∷◌, replicate,
  length, done, arith,
}
use foxfire_sniper.Base.Results.{ok}
use foxfire_sniper.Keys.{
  Bytes, Keypairs, clone_keypair, private_key_string_base16, private_key_string_base58,
  from_base16_str_private_key, keypair_from_base58_string,
}
use foxfire_sniper.Keys.RoundTrip.{AreBytes, IsKeyCode, from_base16-private_key_string}

abbrev first_is_one : Bytes → Option Bool
first_is_one [] = none
first_is_one (b ∷ bs) = some (b == 1)

abbrev bytes_of : Bool → Bytes
bytes_of true = replicate 64 1
bytes_of false = replicate 64 171

-- The keys of 64 times 1 and of 64 times 171.
abbrev keys : Keypairs
keys = record {
  Keypair = Bool;
  to_bytes = bytes_of;
  from_bytes = first_is_one;
  expand = λ bs. none;
  encode = λ bs. bs;
  decode = λ t. some t;
}

replicate-AreBytes : (n b : ℕ) → b < 256 → AreBytes (replicate n b)
replicate-AreBytes zero b h = tt
replicate-AreBytes (suc n) b h = (h, replicate-AreBytes n b h)

bytes_of-AreBytes : (k : Bool) → AreBytes (bytes_of k)
bytes_of-AreBytes true = replicate-AreBytes 64 1 (omega arith)
bytes_of-AreBytes false = replicate-AreBytes 64 171 (omega arith)

length-bytes_of : (k : Bool) → length (bytes_of k) ≡ 64
length-bytes_of true = refl
length-bytes_of false = refl

first_is_one-bytes_of : (k : Bool) → first_is_one (bytes_of k) ≡ some k
first_is_one-bytes_of true = refl
first_is_one-bytes_of false = refl

keys-IsKeyCode : IsKeyCode keys
keys-IsKeyCode = record {
  are_bytes = bytes_of-AreBytes;
  length_64 = length-bytes_of;
  from_bytes-to_bytes = first_is_one-bytes_of;
  decode-encode = λ bs h. refl;
}

from_base16-private_key_string_example :
    (from_base16_str_private_key keys (private_key_string_base16 keys false) ≡ done false)
    × (keypair_from_base58_string keys (private_key_string_base58 keys false) ≡ ok false)
    × (clone_keypair keys false ≡ done false)
from_base16-private_key_string_example = from_base16-private_key_string keys keys-IsKeyCode false
