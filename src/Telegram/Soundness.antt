-- ===== src/Telegram/Soundness.antt =====
-- The numbers that come into the settings: the checks of src/tg_bot/user_menu/strategies/handler.rs.
use foxfire_sniper.Base.{ℕ, ◌≡◌, subst, sym, true, false, Option, none, some, arith}
use foxfire_sniper.Types.{ℤ}
use foxfire_sniper.Sniper.Floats.{Floats}
use foxfire_sniper.Telegram.Input.{Reader, parse, i32_bound, i64_bound, is_positive, is_negative}
use foxfire_sniper.Telegram.Config.{VolumeStrategyConfigArgs, unset, over, update}
use foxfire_sniper.Telegram.Dialogue.{State, get_strategy_in_progress_in_any}
use foxfire_sniper.Telegram.Session.{Env}
use foxfire_sniper.Telegram.Texts.{positive, natural, parse_i32, parse_i64, parse_kept}
use foxfire_sniper.Telegram.Moves.{or_unset}
use foxfire_sniper.Telegram.Evolution.{
  IsAccepted, address, size, frequency, length, buying, selling, keep, Next, same, entered, taken,
}

-- What holds of a value, where there is one.
abbrev pub Holds {ℓ κ} : {A : Type ℓ} → (A → Type κ) → Option A → Type κ
Holds P none = Unit
Holds P (some a) = P a

abbrev pub IsPositive : ℤ → Type 0
IsPositive x = is_positive x ≡ true

abbrev pub IsNatural : ℤ → Type 0
IsNatural x = is_negative x ≡ false

-- What is set of the frequency, the duration and the numbers of agents is positive, and the tokens to
-- keep are not negative.
pub record IsSound {F : Type 0} (c : VolumeStrategyConfigArgs F) : Type 0 where
  pub frequency : Holds IsPositive c.tranche_frequency_hbs
  pub length : Holds IsPositive c.tranche_length_hbs
  pub buying : Holds IsPositive c.agents_buying_in_tranche
  pub selling : Holds IsPositive c.agents_selling_in_tranche
  pub keep : Holds IsNatural c.agents_keep_tokens_lamports

Holds-over {ℓ κ} :
    {A : Type ℓ} (P : A → Type κ) (new old : Option A)
    → Holds P new
    → Holds P old
    → Holds P (over new old)
Holds-over P none old hn ho = ho
Holds-over P (some a) old hn ho = hn

positive-IsPositive : (o : Option ℤ) (v : ℤ) → positive o ≡ some v → IsPositive v
positive-IsPositive none v h = cc
positive-IsPositive (some x) v h = ground arith

natural-IsNatural : (o : Option ℤ) (v : ℤ) → natural o ≡ some v → IsNatural v
natural-IsNatural none v h = cc
natural-IsNatural (some x) v h = ground arith

with_user :
    {F : Type 0} (c : VolumeStrategyConfigArgs F) (user : ℕ)
    → IsSound c
    → IsSound (record c { user_id = some user })
with_user c user h = record {
  frequency = h.frequency;
  length = h.length;
  buying = h.buying;
  selling = h.selling;
  keep = h.keep;
}

module _ (fl : Floats) (reader : Reader fl) where
  open fl use {F}

  IsAccepted-IsSound :
      (env : Env fl) (u : VolumeStrategyConfigArgs F) (st : State F)
      → IsAccepted fl reader env u st
      → IsSound u
  unfolding parse_i32 parse_i64 parse_kept
  IsAccepted-IsSound env u _ (address p m t v q h e) =
      subst IsSound (sym e)
        (record { frequency = tt; length = tt; buying = tt; selling = tt; keep = tt })
  IsAccepted-IsSound env u _ (size p m t v q h e) =
      subst IsSound (sym e)
        (record { frequency = tt; length = tt; buying = tt; selling = tt; keep = tt })
  IsAccepted-IsSound env u _ (frequency p m t v q h e) = subst IsSound (sym e) (record {
    frequency = positive-IsPositive (parse i64_bound t) v h;
    length = tt;
    buying = tt;
    selling = tt;
    keep = tt;
  })
  IsAccepted-IsSound env u _ (length p m t v q h e) = subst IsSound (sym e) (record {
    frequency = tt;
    length = positive-IsPositive (parse i64_bound t) v h;
    buying = tt;
    selling = tt;
    keep = tt;
  })
  IsAccepted-IsSound env u _ (buying p m t v q h e) = subst IsSound (sym e) (record {
    frequency = tt;
    length = tt;
    buying = positive-IsPositive (parse i32_bound t) v h;
    selling = tt;
    keep = tt;
  })
  IsAccepted-IsSound env u _ (selling p m t v q h e) = subst IsSound (sym e) (record {
    frequency = tt;
    length = tt;
    buying = tt;
    selling = positive-IsPositive (parse i32_bound t) v h;
    keep = tt;
  })
  IsAccepted-IsSound env u _ (keep p m t v q h e) = subst IsSound (sym e) (record {
    frequency = tt;
    length = tt;
    buying = tt;
    selling = tt;
    keep = natural-IsNatural (parse i64_bound t) v h;
  })

  update-IsSound : (c u : VolumeStrategyConfigArgs F) → IsSound c → IsSound u → IsSound (update c u)
  unfolding update
  update-IsSound c u hc hu = record {
    frequency = Holds-over IsPositive u.tranche_frequency_hbs _ hu.frequency hc.frequency;
    length = Holds-over IsPositive u.tranche_length_hbs _ hu.length hc.length;
    buying = Holds-over IsPositive u.agents_buying_in_tranche _ hu.buying hc.buying;
    selling = Holds-over IsPositive u.agents_selling_in_tranche _ hu.selling hc.selling;
    keep = Holds-over IsNatural u.agents_keep_tokens_lamports _ hu.keep hc.keep;
  }

  unset-IsSound : IsSound {F = F} unset
  unset-IsSound = record { frequency = tt; length = tt; buying = tt; selling = tt; keep = tt }

  pub or_unset-IsSound :
      (p : Option (VolumeStrategyConfigArgs F)) → Holds IsSound p → IsSound (or_unset p)
  or_unset-IsSound none h = unset-IsSound
  or_unset-IsSound (some c) h = h

  pub Next-IsSound :
      (env : Env fl) (st : State F) (q : Option (VolumeStrategyConfigArgs F))
      → Holds IsSound env.volume_config
      → Holds IsSound (get_strategy_in_progress_in_any st)
      → Next fl reader env st q
      → Holds IsSound q
  Next-IsSound env st q file h (same e) = subst (Holds IsSound) (sym e) h
  Next-IsSound env st q file h (entered u accepted e) = subst (Holds IsSound) (sym e) (
      update-IsSound (or_unset (get_strategy_in_progress_in_any st)) u
        (or_unset-IsSound (get_strategy_in_progress_in_any st) h)
        (IsAccepted-IsSound env u st accepted))
  Next-IsSound env st q file h (taken c user none_before known pressed e) =
      subst (Holds IsSound) (sym e) (
        update-IsSound unset _ unset-IsSound
          (with_user c user.id (subst (Holds IsSound) known file)))
