-- ===== src/Stopwatch/Laws.antt =====
-- Laws of src/utils/stopwatch.rs.
use native.Mathlib.Nat.{mod-eq_of_lt, le-div_iff_mul-le}
use foxfire_sniper.Base.{
  ℕ, Bool, ltb, leb, ◌&&◌, ◌%◌, ◌/◌, ◌*◌, ◌-◌, ◌≤◌, ◌<◌, ◌≡◌, ◌↔◌, true, false, done, arith,
}
use foxfire_sniper.Types.{u64_mod}
use foxfire_sniper.Stopwatch.{Stopwatch, start, turn_off, is_time_elapsed}

-- With a lap and a tick that are not 0, a timer started at `since` for `lap` ticks fires exactly
-- from `lap * tick` milliseconds on, as long as the clock moves less than 2^64 milliseconds.
pub is_time_elapsed-start :
    (sw : Stopwatch) (since lap tick now : ℕ)
    → 0 < lap
    → 0 < tick
    → now - since < u64_mod
    → (is_time_elapsed now (start since lap sw) tick ≡ done true) ↔ (lap * tick ≤ now - since)
unfolding is_time_elapsed start
is_time_elapsed-start sw since lap tick now l t w = (
  λ h. (le-div_iff_mul-le t).0 (ground (arith, mod-eq_of_lt w)),
  λ h. ground (arith, mod-eq_of_lt w, (le-div_iff_mul-le t).1 h),
)

-- A timer that is turned off never fires, whatever the tick.
pub is_time_elapsed-turn_off :
    (sw : Stopwatch) (now tick : ℕ) → is_time_elapsed now (turn_off sw) tick ≡ done false
unfolding is_time_elapsed turn_off
is_time_elapsed-turn_off sw now tick = ground arith

-- With a tick that is not 0 ms the timer can always be read.
pub is_time_elapsed_total :
    (now : ℕ) (sw : Stopwatch) (tick : ℕ)
    → 0 < tick
    → (b : Bool) × (is_time_elapsed now sw tick ≡ done b)
unfolding is_time_elapsed
is_time_elapsed_total now sw tick h =
    (ltb 0 sw.lap_ticks && leb sw.lap_ticks ((now - sw.start_ms) % u64_mod / tick), ground arith)
