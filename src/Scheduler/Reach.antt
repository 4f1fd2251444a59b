-- ===== src/Scheduler/Reach.antt =====
-- The states that the scheduler can come to: the operations and the interrupts of the timer in any order, on any
-- of the processors. Each runs as a whole: an interrupt inside an operation, or one that meets a held lock of
-- another processor, is not a step here.
use mathlib.Core.Path.{subst}
use turb_os.Base.{
  Bool-cases, ℕ, suc, ◌≡◌, ◌≢◌, refl, inl, inr, Bool, false, Option, some, List, [], ◌<◌, arith,
}
use turb_os.Vector.Defs.{TurboVector}
use turb_os.Scheduler.Defs.{Scheduler, Registers, initial_state, running}
use turb_os.Scheduler.Create.{Grants, create_thread, create_proc}
use turb_os.Scheduler.Control.{
  block_self, block_thread, block_own_proc, block_proc, thread_unblock, proc_unblock, exit_thread,
  exit_proc,
}
use turb_os.Scheduler.Switch.{switch_task}
use turb_os.Scheduler.Kept.{Kept, IsHeadedProc, Returns}
use turb_os.Scheduler.Making.{create_thread-Returns}
use turb_os.Scheduler.Processes.{create_proc-Returns}
use turb_os.Scheduler.Blocking.{
  block_self-Kept, block_thread-Kept, block_own_proc-Kept, block_proc-Kept, thread_unblock-Kept,
  proc_unblock-Kept, exit_thread-Kept, exit_proc-Kept,
}
use turb_os.Scheduler.Saving.{IsValid, Kept-IsValid}
use turb_os.Scheduler.Cpus.{
  Smp, on_cpu, after_cpu, IsOn, Elsewhere, IsSmpValid, on_cpu-IsValid, after_cpu-IsSmpValid,
}
use turb_os.Scheduler.Switching.{switch_task-Switched, switch_task-off}

-- The heap gives no null pointer for what is made.
abbrev pub IsGranted : Grants → Type 0
IsGranted g = (g.thread ≢ 0) × (g.process ≢ 0)

-- One call of an operation, by whatever thread is current, or one interrupt of the timer. The idle
-- function is not at address 0, and the fuel is enough for two nested calls of `clean_proc`.
pub data Step (s : Scheduler) : Scheduler → Type 0 where
  creates_thread :
      {u : Scheduler} (g : Grants) (addr args parent : ℕ)
      → IsGranted g
      → create_thread g addr args parent s ≡ some u
      → Step s u
  creates_proc :
      {u : Scheduler} (g : Grants) (name : List ℕ) (addr args : ℕ)
      → IsGranted g
      → create_proc g name addr args s ≡ some u
      → Step s u
  blocks_self : Step s (block_self s)
  blocks_thread : (t : ℕ) → Step s (block_thread t s)
  blocks_own_proc : Step s (block_own_proc s)
  blocks_proc : (p : ℕ) → Step s (block_proc p s)
  unblocks_thread : (t : ℕ) → Step s (thread_unblock t s)
  unblocks_proc : (p : ℕ) → Step s (proc_unblock p s)
  exits_thread : Step s (exit_thread s)
  exits_proc : Step s (exit_proc s)
  switches :
      {r : Scheduler × Registers} (fuel : ℕ) (g : Grants) (idle : ℕ) (regs : Registers)
      → IsGranted g
      → idle ≢ 0
      → switch_task (suc (suc fuel)) g idle regs s ≡ some r
      → Step s r.0

abbrev pub blank_registers : Registers
blank_registers = record {
  r15 = 0;
  r14 = 0;
  r13 = 0;
  r12 = 0;
  r11 = 0;
  r10 = 0;
  r9 = 0;
  r8 = 0;
  rbp = 0;
  rdi = 0;
  rsi = 0;
  rdx = 0;
  rcx = 0;
  rbx = 0;
  rax = 0;
  int_no = 0;
  error_code = 0;
  rip = 0;
  cs = 0;
  rflags = 0;
  rsp = 0;
  ss = 0;
}

abbrev pub blank_vector : TurboVector ℕ
blank_vector = record { items = λ _. 0; capacity = 0; length = 0; is_init = false }

-- The variables as they are loaded, with no object at any address; `apic` is whether the APIC is set up.
abbrev pub boot_state : Bool → Scheduler
boot_state apic = record {
  threads = λ _. record {
    tid = 0;
    state = initial_state;
    thread_stack = 0;
    thread_regs = blank_registers;
    parent_proc = 0;
    slice_of_time = 0;
  };
  processes = λ _. record {
    name = [];
    pid = 0;
    next_tid = 0;
    state = initial_state;
    pagemap = 0;
    threads_vec = blank_vector;
    children = blank_vector;
    parent = 0;
  };
  is_init = false;
  next_pid = 1;
  sched_vector = 0;
  proc_table = blank_vector;
  init_proc = 0;
  proc_count = 0;
  thread_count = 0;
  thread_lock = false;
  sched_lock = false;
  proc_lock = false;
  current_thread = 0;
  current_process = 0;
  idle_p = 0;
  apic_is_init = apic;
  pit_is_scheduling = false;
  interrupts = false;
  loaded = 0;
  timer = [];
  freed = [];
}

-- `cpus` comes from `calloc`.
abbrev pub boot : Bool → Smp
boot apic = record {
  shared = boot_state apic;
  cpus = λ _. record { current_thread = 0; current_process = 0; idle_p = 0 };
}

-- The states with `n` processors.
pub data Reach (apic : Bool) (n : ℕ) : Smp → Type 0 where
  start : Reach apic n (boot apic)
  later :
      {m : Smp} {u : Scheduler} (c : ℕ)
      → c < n
      → Reach apic n m
      → Step (on_cpu c m) u
      → Reach apic n (after_cpu c m u)

boot-IsSmpValid : (apic : Bool) (n : ℕ) → IsSmpValid n (boot apic)
boot-IsSmpValid apic n = record {
  table = λ i lt. absurd (omega arith);
  processes =
      λ p. record { threads = λ i lt. absurd (omega arith); children = refl; parent = refl };
  idle = λ c nz. absurd (nz refl);
  thread_lock = refl;
  sched_lock = refl;
  proc_lock = refl;
  runs = λ t r. cc;
}

-- A result that is known is the one that has the property.
of_result : {A : Type 0} {P : A → Type 0} {o : Option A} {a : A} → o ≡ some a → Returns P o → P a
of_result {A} {P = P} {a = a} e (b, same, p) = let found : b ≡ a = cc in subst P found p

-- What an operation leads to: a valid state, in which the processes that had a first thread have one.
abbrev pub IsStepped : (ℕ → Type 0) → Scheduler → Scheduler → Type 0
IsStepped Others s u =
    IsValid Others u × ((p : ℕ) → IsHeadedProc (s.processes p) → IsHeadedProc (u.processes p))

module _ (Others : ℕ → Type 0) where
  switch_task-IsStepped :
      (fuel : ℕ) (g : Grants) (idle : ℕ) (regs : Registers) (s : Scheduler)
      → IsGranted g
      → idle ≢ 0
      → IsValid Others s
      → Returns (λ r. IsStepped Others s r.0) (switch_task (suc (suc fuel)) g idle regs s)
  switch_task-IsStepped fuel g idle regs s ok ni v = elim (Bool-cases s.is_init) [
    | inl e ↦
        let (r, same, w) = switch_task-Switched Others fuel g idle regs s ok.0 ok.1 ni e v in
        (r, same, (w.valid, w.heads))
    | inr e ↦ ((s, regs), switch_task-off _ g idle regs s e, (v, λ p x. x))
  ]

  Kept-IsStepped : {s u : Scheduler} → Kept s u → IsValid Others s → IsStepped Others s u
  Kept-IsStepped k v = (Kept-IsValid k v, k.heads v.sound)

  -- Every operation and every switch leads from a valid state to a valid state.
  Step-IsStepped : {s u : Scheduler} → Step s u → IsValid Others s → IsStepped Others s u
  Step-IsStepped {s} (creates_thread g addr args parent ok e) v =
      Kept-IsStepped (of_result e (create_thread-Returns g addr args parent s ok.0 v.thread_lock)).0
        v
  Step-IsStepped {s} (creates_proc g name addr args ok e) v =
      Kept-IsStepped
        (of_result e (create_proc-Returns g name addr args s ok.0 ok.1 v.thread_lock v.proc_lock)) v
  Step-IsStepped {s} blocks_self v = Kept-IsStepped (block_self-Kept s) v
  Step-IsStepped {s} (blocks_thread t) v = Kept-IsStepped (block_thread-Kept t s) v
  Step-IsStepped {s} blocks_own_proc v = Kept-IsStepped (block_own_proc-Kept s) v
  Step-IsStepped {s} (blocks_proc p) v = Kept-IsStepped (block_proc-Kept p s) v
  Step-IsStepped {s} (unblocks_thread t) v = Kept-IsStepped (thread_unblock-Kept t s) v
  Step-IsStepped {s} (unblocks_proc p) v = Kept-IsStepped (proc_unblock-Kept p s) v
  Step-IsStepped {s} exits_thread v = Kept-IsStepped (exit_thread-Kept s) v
  Step-IsStepped {s} exits_proc v = Kept-IsStepped (exit_proc-Kept s) v
  Step-IsStepped {s} (switches fuel g idle regs ok ni e) v =
      of_result e (switch_task-IsStepped fuel g idle regs s ok ni v)

pub Reach-IsSmpValid : {apic : Bool} {n : ℕ} {m : Smp} → Reach apic n m → IsSmpValid n m
Reach-IsSmpValid {apic} {n} start = boot-IsSmpValid apic n
Reach-IsSmpValid {n = n} (later {m} {u} c lt r st) =
    let v = Reach-IsSmpValid r in
    let (w, heads) = Step-IsStepped (Elsewhere n c m) st (on_cpu-IsValid n c m v) in
    after_cpu-IsSmpValid n c m u lt v w heads

-- In every state that operations and ticks of the timer on `n` processors can come to, each running to its end
-- before the next one on any of them starts, a thread that is `RUNNING` is the current one of one of the
-- processors, of a current process.
pub running-IsOn :
    {apic : Bool} {n : ℕ} {m : Smp}
    → Reach apic n m
    → (t : ℕ) → (m.shared.threads t).state ≡ running
    → (c : ℕ) × (c < n) × IsOn m c t
running-IsOn r t e = (Reach-IsSmpValid r).runs t e
