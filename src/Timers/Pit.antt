-- ===== src/Timers/Pit.antt =====
-- turbo::pit: the frequency of the timer and the handler of its interrupt. `none` waits for the lock.
use turb_os.Base.{
  ℕ, ◌*◌, ◌/◌, ◌%◌, ◌^◌, ltb, if◌then◌else◌, bit_or, Bool, true, false, Option, none, some, List,
  ◌∷◌,
}
use turb_os.Base.Words.{add64}
use turb_os.Scheduler.Defs.{Scheduler, Registers, ◌>>=◌}
use turb_os.Scheduler.Create.{Grants}
use turb_os.Scheduler.Switch.{switch_task}

-- The variables of turbo::pit; `ports` is what was written, the last one first.
pub record Pit : Type 0 where
  pub is_init : Bool
  pub tick : ℕ
  pub frequence : ℕ
  pub locked : Bool
  pub ports : List (ℕ × ℕ)

-- `setFrequence`; a division by 0 is not modelled.
unfoldable pub set_frequence : Pit → ℕ → Option Pit
set_frequence s f =
    if s.locked
    then none
    else (let low = if ltb f 19 then record s { frequence = 19 } else s in
        let set = record low { frequence = f } in
        let div = 1193180 / set.frequence in
        some (record set {
          ports = (0x40, div / 2 ^ 8 % 2 ^ 8) ∷ (0x40, div % 2 ^ 8) ∷ (0x43, 0x36) ∷ s.ports;
        }))

-- `getFrequence`, with the two bytes that the port gives
unfoldable pub get_frequence : Pit → ℕ → ℕ → Option (Pit × ℕ)
get_frequence s low high =
    if s.locked
    then none
    else some (record s { ports = (0x43, 0) ∷ s.ports }, 1193180 / bit_or low (high * 2 ^ 8))

-- `pitHandler`; `isScheduling` is a variable that the scheduler sets.
unfoldable pub pit_handler :
    ℕ → Grants → ℕ → Registers → Pit × Scheduler → Option ((Pit × Scheduler) × Registers)
pit_handler fuel g idle regs (s, sched) =
    let ticked = record s { tick = add64 s.tick 1 } in
    if sched.pit_is_scheduling
    then (switch_task fuel g idle regs sched >>= λ r. some ((ticked, r.0), r.1))
    else some ((ticked, sched), regs)

-- `init`, with the frequency; the handler is registered for IRQ0 if the answer is `true`.
unfoldable pub init_pit : Pit → ℕ → Option (Pit × Bool)
init_pit s f =
    if s.is_init
    then some (s, false)
    else (set_frequence s f >>= λ s. some (record s { is_init = true }, true))
