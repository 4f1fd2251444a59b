-- ===== src/Rtc/Tests.antt =====
-- A clock that stands at 23:59:59, and dates.
use turb_os.Base.{◌≡◌, refl, ◌==◌, if◌then◌else◌, none, arith}
use turb_os.Base.Words.{sub64}
use turb_os.Rtc.Defs.{Clock, bcptobin, sleep, time, date_to_julian}
use turb_os.Rtc.Time.{IsDaily, sleep_never}

abbrev standing : Clock
standing t r = if r == 0x04 then 0x23 else 0x59

standing-IsDaily : IsDaily standing
unfolding bcptobin
standing-IsDaily = record {
  hours = λ t. omega arith;
  minutes = λ t. omega arith;
  seconds = λ t. omega arith;
}

standing-time : (time standing 0).0 ≡ 86399
unfolding time bcptobin
standing-time = refl

sleep_never_example : sleep 1000 standing 1 0 ≡ none
sleep_never_example =
    sleep_never 1000 standing standing-IsDaily 1 0 (omega (arith, standing-time)) (omega arith)

-- 1 March 1970 counts 61 days behind 1 January, not 59: `(months - 14) / 12` is not -1 on unsigned words.
march_1970 : sub64 (date_to_julian 1 3 1970) (date_to_julian 1 1 1970) ≡ 61
unfolding date_to_julian
march_1970 = refl
