-- ===== src/Scheduler/Tests.antt =====
-- The scheduler at concrete states.
use turb_os.Base.{
  ◌<◌, ℕ, ◌≡◌, refl, ◌==◌, if◌then◌else◌, true, false, Option, some, none, [], ◌∷◌, arith,
}
use turb_os.Vector.Defs.{push_back, push_to, init, at}
use turb_os.Scheduler.Defs.{Scheduler, Registers, ready, running, lock_threads, ◌>>=◌}
use turb_os.Scheduler.Create.{
  Grants, create_thread, create_proc, alloc_proc, alloc_thread, fresh_process,
}
use turb_os.Scheduler.Switch.{switch_task, choose, from_none, ready_thread, resume}
use turb_os.Scheduler.Kept.{Returns}
use turb_os.Scheduler.Switching.{Switched, switch_task-Switched}
use turb_os.Scheduler.Cpus.{Smp, after_cpu, IsOn, Elsewhere, on_cpu-IsValid}
use turb_os.Scheduler.Reach.{
  boot, boot_state, blank_registers, blank_vector, creates_proc, switches, Reach, start, later,
  Reach-IsSmpValid, running-IsOn,
}
use turb_os.Scheduler.Saving.{IsValid}
use turb_os.Scheduler.Waiting.{IsAlone, tick-waits}
use turb_os.Scheduler.Hogging.{ticks, hogs_forever}

abbrev grants : Grants
grants = record { thread = 0x1000; stack = 0x2000; process = 0x3000; pagemap = 0x4000; room = true }

-- Other addresses, for the idle process.
abbrev more : Grants
more = record { thread = 0x5000; stack = 0x6000; process = 0x7000; pagemap = 0x8000; room = true }

or_boot : Option Scheduler → Scheduler
or_boot none = boot_state false
or_boot (some s) = s

-- One process, made after boot.
abbrev init_made : Scheduler
unfolding or_boot create_proc
init_made = or_boot (create_proc grants (b'i' ∷ []) 0x9000 0 (boot_state false))

abbrev init_smp : Smp
init_smp = after_cpu 0 (boot false) init_made

-- It is made on the first of two processors, or on the only one.
init_smp-Reach : (n : ℕ) → 0 < n → Reach false n init_smp
unfolding init_made alloc_proc create_thread alloc_thread
init_smp-Reach n lt =
    later 0 lt start (creates_proc grants (b'i' ∷ []) 0x9000 0 (omega arith, omega arith) refl)

switch_task_example :
    Returns
      (Switched (Elsewhere 1 0 init_smp) init_made)
      (switch_task 2 more 0xA000 blank_registers init_made)
unfolding init_made alloc_proc create_thread alloc_thread
switch_task_example =
    switch_task-Switched (Elsewhere 1 0 init_smp) 0 more 0xA000 blank_registers init_made
      (omega arith) (omega arith) (omega arith) refl
      (on_cpu-IsValid 1 0 init_smp (Reach-IsSmpValid (init_smp-Reach 1 (omega arith))))

result_of : Scheduler → Option (Scheduler × Registers) → Scheduler
result_of s none = s
result_of s (some r) = r.0

-- The process of `init_made` runs after the first tick.
abbrev init_runs : Scheduler
unfolding result_of init_made
init_runs = result_of init_made (switch_task 2 more 0xA000 blank_registers init_made)

-- The tick is on the processor `c`.
runs_on : ℕ → Smp
runs_on c = after_cpu c init_smp init_runs

runs_on_second-Reach : Reach false 2 (runs_on 1)
unfolding runs_on init_runs switch_task alloc_proc create_thread alloc_thread choose from_none
    push_back push_to init at ready_thread fresh_process resume
runs_on_second-Reach =
    later 1 (omega arith) (init_smp-Reach 2 (omega arith))
      (switches 0 more 0xA000 blank_registers (omega arith, omega arith) (omega arith) refl)

runs_on_first-Reach : Reach false 1 (runs_on 0)
unfolding runs_on init_runs switch_task alloc_proc create_thread alloc_thread choose from_none
    push_back push_to init at ready_thread fresh_process resume
runs_on_first-Reach =
    later 0 (omega arith) (init_smp-Reach 1 (omega arith))
      (switches 0 more 0xA000 blank_registers (omega arith, omega arith) (omega arith) refl)

abbrev main_thread : ℕ
main_thread = 0x1000

running-IsOn_example : (c : ℕ) × (c < 2) × IsOn (runs_on 1) c main_thread
unfolding runs_on init_runs switch_task alloc_proc create_thread alloc_thread choose from_none
    push_back push_to init at ready_thread fresh_process resume
running-IsOn_example = running-IsOn runs_on_second-Reach main_thread refl

init_runs-IsValid : IsValid (Elsewhere 1 0 (runs_on 0)) init_runs
unfolding runs_on init_runs switch_task alloc_proc create_thread alloc_thread choose from_none
    push_back push_to init at ready_thread fresh_process resume lock_threads
init_runs-IsValid = on_cpu-IsValid 1 0 (runs_on 0) (Reach-IsSmpValid runs_on_first-Reach)

init_runs-IsAlone : IsAlone init_runs
unfolding runs_on init_runs switch_task alloc_proc create_thread alloc_thread choose from_none
    push_back push_to init at ready_thread fresh_process resume lock_threads
init_runs-IsAlone = record {
  is_init = refl;
  process = omega arith;
  thread = omega arith;
  one = refl;
  table = refl;
  idle = refl;
}

tick-waits_example :
    ((lock_threads init_runs >>= switch_task 2 more 0xA000 blank_registers) ≡ none)
    × Returns
        (λ r. IsValid (Elsewhere 1 0 (runs_on 0)) r.0)
        (switch_task 2 more 0xA000 blank_registers init_runs)
tick-waits_example =
    tick-waits 0 more 0xA000 blank_registers (Elsewhere 1 0 (runs_on 0)) init_runs (omega arith)
      (omega arith) (omega arith) init_runs-IsValid init_runs-IsAlone

-- A process with two threads that both could run; the second does.
abbrev two_threads : Scheduler
two_threads = record (boot_state false) {
  is_init = true;
  current_process = 0x3000;
  current_thread = 0x1100;
  threads =
      λ t. record ((boot_state false).threads t) { state = if t == 0x1100 then running else ready };
  processes = λ p. record ((boot_state false).processes p) {
    state = ready;
    threads_vec = record blank_vector {
      items = λ i. if i == 0 then 0x1000 else 0x1100;
      length = 2;
      capacity = 2;
      is_init = true;
    };
  };
}

hogs_forever_example :
    Returns
      (λ u. (u.current_thread ≡ 0x1100) × ((u.threads u.current_thread).state ≡ running))
      (ticks 2 more 0xA000 (blank_registers ∷ blank_registers ∷ []) two_threads)
unfolding at
hogs_forever_example =
    hogs_forever 2 more 0xA000 (blank_registers ∷ blank_registers ∷ []) two_threads (record {
      is_init = refl;
      sched_lock = refl;
      process = omega arith;
      thread = omega arith;
      process_ready = refl;
      length = omega arith;
      second = refl;
      runs = refl;
    })
