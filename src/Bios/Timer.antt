-- ===== src/Bios/Timer.antt =====
-- bios.c: what bios_set_timer writes into the timer, and reads back.
use disasteros.Common.{ℕ, ◌<◌, ◌≡◌, false, arith}
use disasteros.Bios.{Vm, alarm, bios_set_timer}

-- A timer that is set to some number of microseconds, with no time passed until it is set again,
-- gives that number back. Its nanoseconds are less than a second, and no alarm is pending any more.
pub set_timer_lem :
    (c usec later : ℕ) (m : Vm)
    → let m₁ = (bios_set_timer c usec m).1 in
      ((bios_set_timer c later m₁).0 ≡ usec)
      × ((m₁.core c).timer.tv_nsec < 1_000_000_000)
      × ((m₁.core c).intpending alarm ≡ false)
unfolding bios_set_timer
set_timer_lem c usec later m = (ground arith, ground arith, ground arith)
