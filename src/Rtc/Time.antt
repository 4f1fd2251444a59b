-- ===== src/Rtc/Time.antt =====
-- The digits of the clock, the days of a month, and how long `sleep` sleeps.
use turb_os.Base.{ℕ, zero, suc, ◌+◌, ◌*◌, ◌^◌, ◌≤◌, ◌<◌, ◌≡◌, refl, ◌==◌, none, false, arith}
use turb_os.Base.Bits.{bit_and_mask}
use turb_os.Base.Words.{add64}
use turb_os.Rtc.Defs.{Clock, bcptobin, time, wait, sleep, date_to_julian}

-- Two decimal digits in one byte are read as the number that they write.
pub bcptobin_digits : (tens ones : ℕ) → ones < 16 → bcptobin (16 * tens + ones) ≡ 10 * tens + ones
unfolding bcptobin
bcptobin_digits tens ones lt = omega (arith, bit_and_mask 4 (16 * tens + ones))

-- `k` days later in a month, the day's number is `k` higher, in words of 64 bits.
pub date_to_julian_later :
    (days k months years : ℕ)
    → date_to_julian (days + k) months years ≡ add64 (date_to_julian days months years) k
unfolding date_to_julian
date_to_julian_later days k months years = omega arith

-- A clock whose registers hold hours below 24, and minutes and seconds below 60.
pub record IsDaily (clock : Clock) : Type 0 where
  pub hours : (t : ℕ) → bcptobin (clock t 0x04) < 24
  pub minutes : (t : ℕ) → bcptobin (clock t 0x02) < 60
  pub seconds : (t : ℕ) → bcptobin (clock t 0x00) < 60

pub time-lt : (clock : Clock) → IsDaily clock → (t : ℕ) → (time clock t).0 < 86400
unfolding time
time-lt clock daily t =
    omega (arith, daily.hours t, daily.minutes (t + 1), daily.seconds (t + 1 + 1))

wait_never :
    (fuel : ℕ) (clock : Clock)
    → IsDaily clock
    → (wanted t : ℕ) → 86400 ≤ wanted
    → wait fuel clock wanted t ≡ none
unfolding wait
wait_never zero clock daily wanted t late = refl
wait_never (suc fuel) clock daily wanted t late =
    let other : ((time clock t).0 == wanted) ≡ false = ground (arith, time-lt clock daily t) in
    rw (wait, other) (wait_never fuel clock daily wanted (time clock t).1 late)

-- On a clock of 24 hours, a sleep that would end on the next day never ends.
pub sleep_never :
    (fuel : ℕ) (clock : Clock)
    → IsDaily clock
    → (seconds t : ℕ) → 86400 ≤ (time clock t).0 + seconds
    → seconds < 2 ^ 32
    → sleep fuel clock seconds t ≡ none
unfolding sleep
sleep_never fuel clock daily seconds t late short =
    wait_never fuel clock daily (add64 (time clock t).0 seconds) (time clock t).1
      (omega (arith, time-lt clock daily t, late, short))
