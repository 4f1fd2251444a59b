-- ===== src/Timers/Laws.antt =====
-- How long the sleeps last, and what frequency the timer gets.
use mathlib.Core.Path.{subst}
use native.Mathlib.Nat.{mul_comm, mul_assoc}
use turb_os.Base.{
  if-both, ℕ, zero, suc, ◌+◌, ◌*◌, ◌/◌, ◌%◌, ◌^◌, ◌≤◌, ◌<◌, ◌≡◌, refl, sym, ap, ◌∙◌, ltb, if_true,
  if_false, Bool-cases, false, inl, inr, some, ◌∷◌, arith,
}
use turb_os.Base.Words.{add64, mul64}
use turb_os.Timers.Defs.{
  Counter, wait_counter, pit_sleep, pit_m_sleep, hpet_m_sleep, hpet_sleep, Timers, om_sleep,
  om_m_sleep,
}
use turb_os.Timers.Pit.{Pit, set_frequence}

-- If the counter is at the target after `n` more reads, the wait ends by then, at a read that has it.
wait_counter-ends :
    (n fuel : ℕ) (counter : Counter) (target t : ℕ)
    → n < fuel
    → target ≤ counter (t + n)
    → (u : ℕ) × (wait_counter fuel counter target t ≡ some (u + 1))
      × (t ≤ u)
      × (u ≤ t + n)
      × (target ≤ counter u)
unfolding wait_counter
wait_counter-ends n zero counter target t lt there = absurd (omega arith)
wait_counter-ends zero (suc fuel) counter target t lt there =
    let now : ltb (counter t) target ≡ false = ground (arith, there, ap counter (same t)) in
    (t, if_false _ _ _ now, omega arith, omega arith, omega (arith, there, ap counter (same t)))
  where
    same : (t : ℕ) → t + 0 ≡ t
    same t = omega arith
wait_counter-ends (suc n) (suc fuel) counter target t lt there =
    elim (Bool-cases (ltb (counter t) target)) [
      | inl e ↦
          let next : t + 1 + n ≡ t + suc n = omega arith in
          let (u, ends, lo, hi, late) =
            wait_counter-ends n fuel counter target (t + 1) (omega arith)
              (subst (λ q. target ≤ counter q) (sym next) there) in
          (u, if_true _ _ _ e ∙ ends, omega arith, omega arith, late)
      | inr e ↦ (t, if_false _ _ _ e, omega arith, omega arith, ground arith)
    ]

-- A sleep by the timer of `seconds` seconds, which are `seconds * frequence` ticks, ends if that many ticks
-- come within `n` reads of the counter and the count does not pass the end of its word, and it ends at a read
-- that has counted them.
pub pit_sleep_lasts :
    (n fuel : ℕ) (tick : Counter) (frequence seconds t : ℕ)
    → n < fuel
    → tick t + seconds * frequence < 2 ^ 64
    → tick t + seconds * frequence ≤ tick (t + 1 + n)
    → (u : ℕ) × (pit_sleep fuel tick frequence seconds t ≡ some (u + 1))
      × (u ≤ t + 1 + n)
      × (tick t + seconds * frequence ≤ tick u)
unfolding pit_sleep
pit_sleep_lasts n fuel tick frequence seconds t lt small there =
    let target : add64 (tick t) (mul64 seconds frequence) ≡ tick t + seconds * frequence =
      omega arith in
    let (u, ends, lo, hi, late) =
      wait_counter-ends n fuel tick (tick t + seconds * frequence) (t + 1) lt there in
    (u, ap (λ g. wait_counter fuel tick g (t + 1)) target ∙ ends, hi, late)

-- On every device a hundred of what `mSleep` counts are a second: its argument is in hundredths, whether the
-- HPET, the timer at a frequency that 100 divides, or the clock is used.
pub om_m_sleep-om_sleep :
    (fuel : ℕ) (s : Timers) (seconds t : ℕ)
    → s.frequence % 100 ≡ 0
    → om_m_sleep fuel s (100 * seconds) t ≡ om_sleep fuel s seconds t
unfolding om_m_sleep om_sleep hpet_m_sleep hpet_sleep pit_sleep pit_m_sleep
om_m_sleep-om_sleep fuel s seconds t whole =
    let all_of : 100 * (s.frequence / 100) ≡ s.frequence = omega arith in
    let hpet : mul64 (100 * seconds) 10000 ≡ mul64 seconds 1000000 = omega arith in
    let pit : mul64 (100 * seconds) (s.frequence / 100) ≡ mul64 seconds s.frequence =
      ap (λ n. n % 2 ^ 64) (hundreds seconds (s.frequence / 100) ∙ ap (λ f. seconds * f) all_of) in
    let rtc : 100 * seconds / 100 ≡ seconds = omega arith in rw (hpet, pit, rtc) refl
  where
    hundreds : (n q : ℕ) → 100 * n * q ≡ n * (100 * q)
    hundreds n q = rw (mul_comm 100 n) (mul_assoc n 100 q)

-- `setFrequence` with the lock free stores the frequency as it is, the smallest that it means to allow
-- notwithstanding, and writes to the timer the low 16 bits of the divisor, low byte first. From 19 on these
-- are the divisor.
pub set_frequence_lem :
    (s : Pit) (f : ℕ)
    → s.locked ≡ false
    → (u : Pit) × (low : ℕ) × (high : ℕ) × (set_frequence s f ≡ some u)
      × (u.frequence ≡ f)
      × (u.ports ≡ (0x40, high) ∷ (0x40, low) ∷ (0x43, 0x36) ∷ s.ports)
      × (low + high * 256 ≡ 1193180 / f % 65536)
      × (u.locked ≡ false)
unfolding set_frequence
set_frequence_lem s f free = (
  _,
  _,
  _,
  if_false s.locked _ _ free,
  refl,
  refl,
  omega arith,
  if-both (λ (u : Pit). u.locked ≡ false) (ltb f 19) (record s { frequence = 19 }) s free free,
)
