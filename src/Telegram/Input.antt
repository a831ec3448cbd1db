-- ===== src/Telegram/Input.antt =====
-- What src/tg_bot reads of a text: numbers by `str::parse`, and addresses. A text is its bytes.
use foxfire_sniper.Base.{
  ℕ, zero, suc, ◌+◌, ◌-◌, ◌*◌, ◌^◌, leb, ltb, ◌==◌, Bool, true, false, ◌&&◌, Option, none, some,
  List, [], ◌∷◌, if◌then◌else◌,
}
use foxfire_sniper.Types.{ℤ, pos, negsuc, Pubkey}
use foxfire_sniper.Sniper.Floats.{Floats}

abbrev pub Text : Type 0
Text = List ℕ

abbrev pub is_digit : ℕ → Bool
is_digit c = leb b'0' c && leb c b'9'

-- The digits after those that make `acc`.
unfoldable pub digits : ℕ → Text → Option ℕ
digits acc [] = some acc
digits acc (c ∷ cs) =
    let rest = digits (acc * 10 + (c - b'0')) cs in if is_digit c then rest else none

unfoldable pub unsigned : Text → Option ℕ
unfolding digits
unsigned [] = none
unsigned (c ∷ cs) = digits 0 (c ∷ cs)

abbrev pub minus : ℕ → ℤ
minus zero = pos 0
minus (suc n) = negsuc n

abbrev pub within : Bool → ℤ → Option ℤ
within true x = some x
within false x = none

abbrev pub signed : (ℕ → Bool) → (ℕ → ℤ) → Option ℕ → Option ℤ
signed fits sign none = none
signed fits sign (some n) = within (fits n) (sign n)

-- `parse::<i32>()` and `parse::<i64>()`, for the bound 2^31 and 2^63.
unfoldable pub parse : ℕ → Text → Option ℤ
unfolding unsigned
parse bound [] = none
parse bound (c ∷ cs) =
    if c == b'-'
    then signed (λ n. leb n bound) minus (unsigned cs)
    else if c == b'+'
    then signed (λ n. ltb n bound) pos (unsigned cs)
    else signed (λ n. ltb n bound) pos (unsigned (c ∷ cs))

abbrev pub i32_bound : ℕ
i32_bound = 2 ^ 31

abbrev pub i64_bound : ℕ
i64_bound = 2 ^ 63

abbrev pub is_positive : ℤ → Bool
is_positive (pos n) = ltb 0 n
is_positive (negsuc n) = false

abbrev pub is_negative : ℤ → Bool
is_negative (pos n) = false
is_negative (negsuc n) = true

-- What is used of f64 beyond `Floats`, and of addresses: `str::parse`, `<=`, `max`, `as f64`, and
-- `Pubkey::from_str` with the address's text.
pub record Reader (fl : Floats) : Type 0 where
  pub parse_f64 : Text → Option fl.F
  pub le : fl.F → fl.F → Bool
  pub max : fl.F → fl.F → fl.F
  pub from_i32 : ℤ → fl.F
  pub pubkey_from_str : Text → Option Pubkey
  pub pubkey_to_string : Pubkey → Text
