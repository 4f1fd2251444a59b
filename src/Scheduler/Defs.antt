-- ===== src/Scheduler/Defs.antt =====
-- Threads and processes stand in stores, by their addresses; address 0 is `nullptr`. What stands at an
-- address that is not in use is whatever was there. A lock is a flag, and `none` waits for it.
use turb_os.Base.{ℕ, ◌==◌, if◌then◌else◌, Bool, true, Option, none, some, List, ◌∷◌, ◌/◌}
use turb_os.Vector.Defs.{TurboVector}

pub record Registers : Type 0 where
  pub r15 : ℕ
  pub r14 : ℕ
  pub r13 : ℕ
  pub r12 : ℕ
  pub r11 : ℕ
  pub r10 : ℕ
  pub r9 : ℕ
  pub r8 : ℕ
  pub rbp : ℕ
  pub rdi : ℕ
  pub rsi : ℕ
  pub rdx : ℕ
  pub rcx : ℕ
  pub rbx : ℕ
  pub rax : ℕ
  pub int_no : ℕ
  pub error_code : ℕ
  pub rip : ℕ
  pub cs : ℕ
  pub rflags : ℕ
  pub rsp : ℕ
  pub ss : ℕ

pub data TaskState : Type 0 where
  initial_state : TaskState
  ready : TaskState
  running : TaskState
  blocked : TaskState
  sleeping : TaskState
  killed : TaskState

-- the number of an enumerator
unfoldable pub code : TaskState → ℕ
code initial_state = 0
code ready = 1
code running = 2
code blocked = 3
code sleeping = 4
code killed = 5

unfoldable pub is : TaskState → TaskState → Bool
unfolding code
is a b = code a == code b

pub record Thread : Type 0 where
  pub tid : ℕ
  pub state : TaskState
  pub thread_stack : ℕ
  pub thread_regs : Registers
  pub parent_proc : ℕ
  pub slice_of_time : ℕ

pub record Process : Type 0 where
  pub name : List ℕ
  pub pid : ℕ
  pub next_tid : ℕ
  pub state : TaskState
  pub pagemap : ℕ
  pub threads_vec : TurboVector ℕ
  pub children : TurboVector ℕ
  pub parent : ℕ

-- How the timer is set for the next interrupt.
pub data Timer : Type 0 where
  one_shot : ℕ → ℕ → Timer
  periodic : ℕ → ℕ → Timer
  frequence : ℕ → Timer

-- The variables of turbo::scheduler, and the fields of `thisCPU`, the processor that runs the operation:
-- `current_thread`, `current_process` and `idle_p`. Cpus has the records of all processors. `timer` and `freed` are what was set and what was given back to the heap, the last one first; `loaded` is the
-- pagemap in use, and `interrupts` the flag of `cli` and `sti`.
pub record Scheduler : Type 0 where
  pub threads : ℕ → Thread
  pub processes : ℕ → Process
  pub is_init : Bool
  pub next_pid : ℕ
  pub sched_vector : ℕ
  pub proc_table : TurboVector ℕ
  pub init_proc : ℕ
  pub proc_count : ℕ
  pub thread_count : ℕ
  pub thread_lock : Bool
  pub sched_lock : Bool
  pub proc_lock : Bool
  pub current_thread : ℕ
  pub current_process : ℕ
  pub idle_p : ℕ
  pub apic_is_init : Bool
  pub pit_is_scheduling : Bool
  pub interrupts : Bool
  pub loaded : ℕ
  pub timer : List Timer
  pub freed : List ℕ

-- `*p = x` in a store
abbrev pub put {ℓ} : {A : Type ℓ} → (ℕ → A) → ℕ → A → ℕ → A
put items p x q = if q == p then x else items q

-- `thread->state = st;` and `proc->state = st;`
unfoldable pub set_thread : ℕ → TaskState → Scheduler → Scheduler
set_thread t st s = record s { threads = put s.threads t (record (s.threads t) { state = st }) }

unfoldable pub set_proc : ℕ → TaskState → Scheduler → Scheduler
set_proc p st s = record s { processes = put s.processes p (record (s.processes p) { state = st }) }

-- `lock.lock();` on each of the locks
infixl 5 ◌>>=◌
abbrev pub ◌>>=◌ : {A B : Type 0} → Option A → (A → Option B) → Option B
none >>= f = none
some a >>= f = f a

unfoldable pub lock_threads : Scheduler → Option Scheduler
lock_threads s = if s.thread_lock then none else some (record s { thread_lock = true })

unfoldable pub lock_procs : Scheduler → Option Scheduler
lock_procs s = if s.proc_lock then none else some (record s { proc_lock = true })

unfoldable pub lock_sched : Scheduler → Option Scheduler
lock_sched s = if s.sched_lock then none else some (record s { sched_lock = true })

-- The processor's thread, read with `cli` before and `sti` after.
unfoldable pub this_thread : Scheduler → Scheduler × ℕ
this_thread s = (record s { interrupts = true }, s.current_thread)

unfoldable pub this_proc : Scheduler → Scheduler × ℕ
this_proc s = (record s { interrupts = true }, s.current_process)

-- `_yield(ms)`; `MS_TO_PIT(ms)` is `100 / ms`, and a division by 0 is not modelled.
unfoldable pub yield_for : ℕ → Scheduler → Scheduler
yield_for ms s = record s {
  timer = (if s.apic_is_init then one_shot s.sched_vector ms else frequence (100 / ms)) ∷ s.timer;
}
