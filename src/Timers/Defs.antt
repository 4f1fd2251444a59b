-- ===== src/Timers/Defs.antt =====
-- The sleeps. A counter goes on while it is read, so it is a function of the number of reads; a wait gives the
-- number of reads after it, and `none` has not ended within the fuel.
use turb_os.Base.{ℕ, zero, suc, ◌+◌, ◌/◌, ltb, if◌then◌else◌, Bool, Option, none, some}
use turb_os.Base.Words.{add64, mul64}
use turb_os.Rtc.Defs.{Clock}
use turb_os.Rtc.Defs as Rtc

abbrev pub Counter : Type 0
Counter = ℕ → ℕ

-- `while (counter() < target);`
unfoldable pub wait_counter : ℕ → Counter → ℕ → ℕ → Option ℕ
wait_counter zero counter target t = none
wait_counter (suc fuel) counter target t =
    let rest = wait_counter fuel counter target (t + 1) in
    if ltb (counter t) target then rest else some (t + 1)

-- `sleep` and `mSleep` of turbo::pit
unfoldable pub pit_sleep : ℕ → Counter → ℕ → ℕ → ℕ → Option ℕ
pit_sleep fuel tick frequence seconds t =
    wait_counter fuel tick (add64 (tick t) (mul64 seconds frequence)) (t + 1)

unfoldable pub pit_m_sleep : ℕ → Counter → ℕ → ℕ → ℕ → Option ℕ
pit_m_sleep fuel tick frequence ms t =
    wait_counter fuel tick (add64 (tick t) (mul64 ms (frequence / 100))) (t + 1)

-- `uSleep`, `mSleep` and `sleep` of turbo::hpet; a division by a clock of 0 is not modelled.
unfoldable pub hpet_u_sleep : ℕ → Counter → ℕ → ℕ → ℕ → Option ℕ
hpet_u_sleep fuel counter clock us t =
    wait_counter fuel counter (add64 (counter t) (mul64 us 1000000000 / clock)) (t + 1)

unfoldable pub hpet_m_sleep : ℕ → Counter → ℕ → ℕ → ℕ → Option ℕ
hpet_m_sleep fuel counter clock ms t = hpet_u_sleep fuel counter clock (mul64 ms 10000) t

unfoldable pub hpet_sleep : ℕ → Counter → ℕ → ℕ → ℕ → Option ℕ
hpet_sleep fuel counter clock seconds t = hpet_u_sleep fuel counter clock (mul64 seconds 1000000) t

-- The timers as turbo::omtime finds them.
pub record Timers : Type 0 where
  pub hpet_is_init : Bool
  pub pit_is_init : Bool
  pub counter : Counter
  pub clock : ℕ
  pub tick : Counter
  pub frequence : ℕ
  pub rtc : Clock

-- `sleep`, `mSleep` and `uSleep` of turbo::omtime
unfoldable pub om_sleep : ℕ → Timers → ℕ → ℕ → Option ℕ
om_sleep fuel s seconds t =
    if s.hpet_is_init
    then hpet_sleep fuel s.counter s.clock seconds t
    else if s.pit_is_init
    then pit_sleep fuel s.tick s.frequence seconds t
    else Rtc.sleep fuel s.rtc seconds t

unfoldable pub om_m_sleep : ℕ → Timers → ℕ → ℕ → Option ℕ
om_m_sleep fuel s ms t =
    if s.hpet_is_init
    then hpet_m_sleep fuel s.counter s.clock ms t
    else if s.pit_is_init
    then pit_m_sleep fuel s.tick s.frequence ms t
    else Rtc.sleep fuel s.rtc (ms / 100) t

unfoldable pub om_u_sleep : ℕ → Timers → ℕ → ℕ → Option ℕ
om_u_sleep fuel s us t =
    if s.hpet_is_init
    then hpet_u_sleep fuel s.counter s.clock us t
    else if s.pit_is_init
    then pit_m_sleep fuel s.tick s.frequence (us / 10000) t
    else Rtc.sleep fuel s.rtc (us / 1000000) t
