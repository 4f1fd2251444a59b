-- ===== src/Scheduler/Search.antt =====
-- What the loops of `switchTask` find is ready, and is no null pointer.
use turb_os.Base.{
  ℕ, zero, suc, ◌+◌, ◌-◌, ◌≤◌, ◌≡◌, ◌≢◌, refl, true, false, if-split, OnSome, on_some, some, none,
  arith,
}
use turb_os.Vector.Defs.{at}
use turb_os.Scheduler.Defs.{
  Scheduler, TaskState, initial_state, ready, running, blocked, sleeping, killed, is, code,
}
use turb_os.Scheduler.Switch.{ready_thread, own_thread, other_proc}
use turb_os.Scheduler.Kept.{IsIn, IsFull, IsSound}

pub is-ready : (st : TaskState) → is st ready ≡ true → st ≡ ready
unfolding is code
is-ready initial_state h = cc
is-ready ready h = refl
is-ready running h = cc
is-ready blocked h = cc
is-ready sleeping h = cc
is-ready killed h = cc

pub is-running_true : (st : TaskState) → is st running ≡ true → st ≡ running
unfolding is code
is-running_true initial_state h = cc
is-running_true ready h = cc
is-running_true running h = refl
is-running_true blocked h = cc
is-running_true sleeping h = cc
is-running_true killed h = cc

pub is-running : (st : TaskState) → is st running ≡ false → st ≢ running
unfolding is code
is-running initial_state h = λ e. cc
is-running ready h = λ e. cc
is-running running h = cc
is-running blocked h = λ e. cc
is-running sleeping h = λ e. cc
is-running killed h = λ e. cc

abbrev pub IsReadyThread : Scheduler → ℕ → Type 0
IsReadyThread s t = (t ≢ 0) × ((s.threads t).state ≡ ready)

-- The thread is ready and is one of the process.
abbrev pub IsReadyOf : Scheduler → ℕ → ℕ → Type 0
IsReadyOf s proc t = IsReadyThread s t × IsIn (s.processes proc).threads_vec t

abbrev pub IsReadyProc : Scheduler → ℕ → Type 0
IsReadyProc s p = (p ≢ 0) × ((s.processes p).state ≡ ready)

pub ready_thread-ready :
    (s : Scheduler) (proc left t : ℕ)
    → IsFull (s.processes proc).threads_vec
    → left ≤ (s.processes proc).threads_vec.length - t
    → OnSome (IsReadyOf s proc) (ready_thread s proc left t)
unfolding ready_thread at
ready_thread-ready s proc zero t full le = tt
ready_thread-ready s proc (suc left) t full le =
    let thread = at (s.processes proc).threads_vec t in
    if-split (OnSome (IsReadyOf s proc)) (is (s.threads thread).state ready) (some thread) _
      (λ e. ((full t (omega arith), is-ready _ e), (t, omega arith, refl)))
      (λ e. ready_thread-ready s proc left (t + 1) full (omega arith))

pub own_thread-ready :
    (s : Scheduler) (proc left t : ℕ)
    → IsFull (s.processes proc).threads_vec
    → left ≤ (s.processes proc).threads_vec.length - t
    → OnSome
        (λ thread. IsReadyOf s proc thread × ((s.processes proc).state ≡ ready))
        (own_thread s proc left t)
unfolding own_thread at
own_thread-ready s proc zero t full le = tt
own_thread-ready s proc (suc left) t full le =
    let thread = at (s.processes proc).threads_vec t in
    let P = OnSome (λ thread. IsReadyOf s proc thread × ((s.processes proc).state ≡ ready)) in
    if-split P (is (s.processes proc).state ready) _ none
      (λ r.
        if-split P (is (s.threads thread).state ready) (some thread) _
          (λ e. (((full t (omega arith), is-ready _ e), (t, omega arith, refl)), is-ready _ r))
          (λ e. own_thread-ready s proc left (t + 1) full (omega arith)))
      (λ _. tt)

pub other_proc-ready :
    (s : Scheduler) (left p : ℕ)
    → IsSound s
    → left ≤ s.proc_table.length - p
    → OnSome (λ (proc, thread). IsReadyProc s proc × IsReadyOf s proc thread) (other_proc s left p)
unfolding other_proc at
other_proc-ready s zero p h le = tt
other_proc-ready s (suc left) p h le =
    let proc = at s.proc_table p in
    let P = OnSome (λ (proc, thread). IsReadyProc s proc × IsReadyOf s proc thread) in
    let rest = other_proc-ready s left (p + 1) h (omega arith) in
    if-split P (is (s.processes proc).state ready) _ _
      (λ r.
        on_some (IsReadyOf s proc) P (ready_thread s proc (s.processes proc).threads_vec.length 0)
          (λ thread. some (proc, thread)) (other_proc s left (p + 1))
          (ready_thread-ready s proc (s.processes proc).threads_vec.length 0
            (h.processes proc).threads (omega arith))
          (λ thread t. ((h.table p (omega arith), is-ready _ r), t)) rest)
      (λ _. rest)
