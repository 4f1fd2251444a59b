-- ===== src/Scheduler/Create.antt =====
-- How threads and processes are made.
use turb_os.Base.{ℕ, ◌+◌, ◌%◌, ◌^◌, ◌==◌, ltb, if◌then◌else◌, Bool, true, false, Option, some, List}
use turb_os.Base.Lists.{length, take}
use turb_os.Base.Words.{add64}
use turb_os.Vector.Defs.{TurboVector, push_back}
use turb_os.Scheduler.Defs.{
  Scheduler, Thread, Process, initial_state, ready, put, set_thread, set_proc, lock_threads,
  lock_procs, ◌>>=◌,
}

-- The addresses that the heap gives for a new thread, its stack, a process and its pagemap, and whether a
-- vector gets memory to grow.
pub record Grants : Type 0 where
  pub thread : ℕ
  pub stack : ℕ
  pub process : ℕ
  pub pagemap : ℕ
  pub room : Bool

abbrev pub stack_size : ℕ
stack_size = 0x2000

-- A vector as its class sets it up, over items that are whatever was there.
abbrev pub new_vector : TurboVector ℕ → TurboVector ℕ
new_vector v = record v { capacity = 0; length = 0; is_init = false }

-- The thread that `allocThread` fills in, over what stood at its address.
unfoldable pub fresh_thread : Grants → ℕ → ℕ → Thread → Thread
fresh_thread g addr args old = record old {
  tid = 1;
  state = initial_state;
  thread_stack = g.stack;
  thread_regs = record old.thread_regs {
    rflags = 0x202;
    cs = 0x28;
    ss = 0x30;
    rip = addr;
    rdi = args;
    rsp = add64 g.stack stack_size;
  };
  parent_proc = 0;
  slice_of_time = 5;
}

unfoldable pub alloc_thread : Grants → ℕ → ℕ → Scheduler → Option Scheduler
unfolding lock_threads
alloc_thread g addr args s = lock_threads s >>= λ s. some (record s {
  threads = put s.threads g.thread (fresh_thread g addr args (s.threads g.thread));
  thread_lock = false;
})

-- `if(parent){ … }` of `createThread`
unfoldable pub adopt : Grants → ℕ → Scheduler → Scheduler
adopt g parent s =
    if parent == 0
    then s
    else (let p = s.processes parent in
        record s {
          threads =
              put s.threads g.thread
                (record (s.threads g.thread) { tid = p.next_tid; parent_proc = parent });
          processes = put s.processes parent (record p {
            next_tid = p.next_tid + 1;
            threads_vec = push_back g.room p.threads_vec g.thread;
          });
        })

-- `createThread`; the thread that it returns is at `g.thread`.
unfoldable pub create_thread : Grants → ℕ → ℕ → ℕ → Scheduler → Option Scheduler
unfolding adopt set_thread lock_threads
create_thread g addr args parent s = alloc_thread g addr args s >>= λ s.
    let counted = record (adopt g parent s) { thread_count = add64 s.thread_count 1 } in
    lock_threads counted >>= λ s.
    some (record (set_thread g.thread ready s) { thread_lock = false })

-- The process that `allocProc` fills in. `strncpy` copies 128 bytes of the name at most.
unfoldable pub fresh_process : Grants → List ℕ → ℕ → Process → Process
fresh_process g name pid old = record old {
  name = take (if ltb (length name) 128 then length name else 128) name;
  pid = pid % 2 ^ 32;
  next_tid = 1;
  state = initial_state;
  pagemap = g.pagemap;
  threads_vec = new_vector old.threads_vec;
  children = new_vector old.children;
  parent = 0;
}

-- `if(!isInit){ … }` of `allocProc`
unfoldable pub first_process : Grants → Scheduler → Scheduler
first_process g s = if s.is_init then s else record s { init_proc = g.process; is_init = true }

-- `allocProc`; the process that it returns is at `g.process`.
unfoldable pub alloc_proc : Grants → List ℕ → ℕ → ℕ → Scheduler → Option Scheduler
unfolding lock_procs first_process
alloc_proc g name addr args s = lock_procs s >>= λ s.
    let made = record s {
      processes =
          put s.processes g.process (fresh_process g name s.next_pid (s.processes g.process));
      next_pid = add64 s.next_pid 1;
    } in
    (if addr == 0 then some made else create_thread g addr args g.process made) >>= λ s.
    some (record (first_process g s) { proc_lock = false })

unfoldable pub create_proc : Grants → List ℕ → ℕ → ℕ → Scheduler → Option Scheduler
unfolding lock_procs set_proc
create_proc g name addr args s = alloc_proc g name addr args s >>= λ s.
    let listed = record s {
      proc_table = push_back g.room s.proc_table g.process;
      proc_count = add64 s.proc_count 1;
    } in
    lock_procs listed >>= λ s. some (record (set_proc g.process ready s) { proc_lock = false })
