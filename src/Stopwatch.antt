-- ===== src/Stopwatch.antt =====
-- src/utils/stopwatch.rs: a timer in ticks. `now` is the clock, in milliseconds.
use foxfire_sniper.Base.{
  ℕ, ◌-◌, ◌/◌, ◌%◌, Bool, true, false, ◌&&◌, ltb, leb, ◌==◌, Outcome, done, panic, if◌then◌else◌,
}
use foxfire_sniper.Types.{u64_mod}
pub mod Laws

pub record Stopwatch : Type 0 where
  pub lap_ticks : ℕ
  pub start_ms : ℕ

unfoldable pub new : ℕ → ℕ → Stopwatch
new now lap_ticks = record { lap_ticks = lap_ticks; start_ms = now }

unfoldable pub start : ℕ → ℕ → Stopwatch → Stopwatch
start now lap_ticks sw = record sw { lap_ticks = lap_ticks; start_ms = now }

unfoldable pub turn_off : Stopwatch → Stopwatch
turn_off sw = record sw { lap_ticks = 0 }

-- `Instant::elapsed` stops at 0, and `as u64` keeps the low 64 bits. A tick of 0 ms divides by 0.
unfoldable pub ticks_elapsed : ℕ → Stopwatch → ℕ → Outcome ℕ
ticks_elapsed now sw tick_size_ms =
    if tick_size_ms == 0 then panic else done ((now - sw.start_ms) % u64_mod / tick_size_ms)

reached : ℕ → Outcome ℕ → Outcome Bool
reached lap_ticks panic = panic
reached lap_ticks (done elapsed) = done (leb lap_ticks elapsed)

-- `&&` does not look at the clock where the timer is off.
unfoldable pub is_time_elapsed : ℕ → Stopwatch → ℕ → Outcome Bool
unfolding ticks_elapsed reached
is_time_elapsed now sw tick_size_ms =
    if ltb 0 sw.lap_ticks
    then reached sw.lap_ticks (ticks_elapsed now sw tick_size_ms)
    else done false
