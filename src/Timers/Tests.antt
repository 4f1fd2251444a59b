-- ===== src/Timers/Tests.antt =====
-- The timers at concrete states.
use turb_os.Base.{ℕ, ◌+◌, ◌*◌, ◌≤◌, ◌≡◌, refl, true, false, some, [], arith}
use turb_os.Timers.Defs.{Counter, pit_sleep, Timers, om_sleep, om_m_sleep}
use turb_os.Timers.Pit.{Pit}
use turb_os.Timers.Laws.{pit_sleep_lasts, om_m_sleep-om_sleep}

-- One tick at each read.
abbrev steady : Counter
steady n = n

pit_sleep_lasts_example :
    (u : ℕ) × (pit_sleep 100 steady 100 1 0 ≡ some (u + 1))
    × (u ≤ 0 + 1 + 99)
    × (steady 0 + 1 * 100 ≤ steady u)
pit_sleep_lasts_example =
    pit_sleep_lasts 99 100 steady 100 1 0 (omega arith) (omega arith) (omega arith)

abbrev timers : Timers
timers = record {
  hpet_is_init = false;
  pit_is_init = true;
  counter = steady;
  clock = 69841279;
  tick = steady;
  frequence = 200;
  rtc = λ t register. 0;
}

om_m_sleep-om_sleep_example : om_m_sleep 1000 timers (100 * 3) 5 ≡ om_sleep 1000 timers 3 5
om_m_sleep-om_sleep_example = om_m_sleep-om_sleep 1000 timers 3 5 refl

abbrev stopped : Pit
stopped = record { is_init = false; tick = 0; frequence = 100; locked = false; ports = [] }
