-- ===== src/Scheduler/Waiting.antt =====
-- A tick of the timer while the interrupted thread holds the lock of the threads.
use turb_os.Base.{
  List, [], ◌∷◌, ◌-◌, if-split, ℕ, suc, ◌≡◌, ◌≢◌, refl, ap, ◌∙◌, true, false, ◌==◌, ◌||◌, if-both,
  if_true, if_false, Option, some, none, arith,
}
use turb_os.Base.Words.{add64}
use turb_os.Vector.Defs.{TurboVector, find, find_loop}
use turb_os.Scheduler.Defs.{
  Scheduler, Registers, Process, running, is, set_thread, lock_threads, lock_procs, lock_sched,
  ◌>>=◌,
}
use turb_os.Scheduler.Create.{Grants, alloc_thread, create_thread, alloc_proc}
use turb_os.Scheduler.Switch.{
  own_thread, other_proc, from_current, save, choose, make_idle, go_idle, switch_task,
}
use turb_os.Scheduler.Kept.{IsSound, Returns}
use turb_os.Scheduler.Cleaning.{clean_proc-Returns}
use turb_os.Scheduler.Switching.{switch_task-Switched}
use turb_os.Scheduler.Saving.{IsValid, save-Kept, save-current, save-processes}

none->>= : {A B : Type 0} (o : Option A) (f : A → Option B) → o ≡ none → (o >>= f) ≡ none
none->>= o f e = rw e refl

some->>= :
    {A B : Type 0} (o : Option A) (f : A → Option B) (a : A)
    → o ≡ some a
    → f a ≡ none
    → (o >>= f) ≡ none
some->>= o f a e h = rw e h

-- The places to search end behind the first of a vector with one item.
one_item : (v : TurboVector ℕ) (x : ℕ) → v.length ≡ 1 → v.length - add64 (find v x) 1 ≡ 0
unfolding find find_loop
one_item v x e = ap (λ n. n - add64 (find_loop n 0) 1) e

-- Where the only thread of the only process was interrupted, nothing else is found.
from_current-alone :
    (fuel : ℕ) (s : Scheduler)
    → (s.processes s.current_process).threads_vec.length ≡ 1
    → s.proc_table.length ≡ 1
    → from_current fuel s ≡ some (s, none)
unfolding from_current own_thread other_proc
from_current-alone fuel s one alone =
    let own = (s.processes s.current_process).threads_vec in
    let t = add64 (find own s.current_thread) 1 in
    let p = add64 (find s.proc_table s.current_process) 1 in
    let no_thread : own_thread s s.current_process (own.length - t) t ≡ none =
      ap (λ n. own_thread s s.current_process n t) (one_item own s.current_thread one) in
    let no_proc : other_proc s (s.proc_table.length - p) p ≡ none =
      ap (λ n. other_proc s n p) (one_item s.proc_table s.current_process alone) in
    rw (from_current, no_thread, no_proc) refl

create_thread-waits :
    (g : Grants) (addr args parent : ℕ) (s : Scheduler)
    → s.thread_lock ≡ true
    → create_thread g addr args parent s ≡ none
unfolding create_thread alloc_thread lock_threads
create_thread-waits g addr args parent s locked =
    none->>= _ _ (none->>= _ _ (if_true s.thread_lock none _ locked))

lock_procs-none :
    (s : Scheduler) (f : Scheduler → Option Scheduler)
    → f (record s { proc_lock = true }) ≡ none
    → (lock_procs s >>= f) ≡ none
unfolding lock_procs
lock_procs-none s f h =
    if-split (λ (o : Option Scheduler). (o >>= f) ≡ none) s.proc_lock none
      (some (record s { proc_lock = true })) (λ _. refl) (λ _. h)

alloc_proc-waits :
    (g : Grants) (name : List ℕ) (addr args : ℕ) (s : Scheduler)
    → addr ≢ 0
    → s.thread_lock ≡ true
    → alloc_proc g name addr args s ≡ none
unfolding alloc_proc
alloc_proc-waits g name addr args s na locked = lock_procs-none s _ (
    none->>= _ _ (
      if_false (addr == 0) _ _ (ground arith) ∙ create_thread-waits g addr args g.process _ locked))

-- To make a process with code, the lock of the threads is needed.
make_idle-waits :
    (g : Grants) (idle : ℕ) (s : Scheduler)
    → idle ≢ 0
    → s.idle_p ≡ 0
    → s.thread_lock ≡ true
    → make_idle g idle s ≡ none
unfolding make_idle
make_idle-waits g idle s ni e locked =
    if_true (s.idle_p == 0) _ _ (ground arith)
    ∙ none->>= _ _ (alloc_proc-waits g (b'I' ∷ b'd' ∷ b'l' ∷ b'e' ∷ []) idle 0 s ni locked)

go_idle-waits :
    (fuel : ℕ) (g : Grants) (idle : ℕ) (s : Scheduler)
    → idle ≢ 0
    → IsSound s
    → s.idle_p ≡ 0
    → s.thread_lock ≡ true
    → go_idle (suc (suc fuel)) g idle s ≡ none
unfolding go_idle
go_idle-waits fuel g idle s ni h e locked =
    let (u, cleaned, c) = clean_proc-Returns fuel s.current_process s h in
    some->>= _ _ u cleaned
      (none->>= _ _ (make_idle-waits g idle u ni (c.idle_p ∙ e) (c.kept.thread_lock ∙ locked)))

save-table : (regs : Registers) (s : Scheduler) → (save regs s).proc_table ≡ s.proc_table
unfolding save set_thread
save-table regs s =
    if-both (λ (u : Scheduler). u.proc_table ≡ s.proc_table) (is _ running) _ _ refl refl

save-idle : (regs : Registers) (s : Scheduler) → (save regs s).idle_p ≡ s.idle_p
unfolding save set_thread
save-idle regs s = if-both (λ (u : Scheduler). u.idle_p ≡ s.idle_p) (is _ running) _ _ refl refl

-- The only thread of the only process, which is current, and no idle process yet.
pub record IsAlone (s : Scheduler) : Type 0 where
  pub is_init : s.is_init ≡ true
  pub process : s.current_process ≢ 0
  pub thread : s.current_thread ≢ 0
  pub one : (s.processes s.current_process).threads_vec.length ≡ 1
  pub table : s.proc_table.length ≡ 1
  pub idle : s.idle_p ≡ 0

choose-alone :
    (fuel : ℕ) (regs : Registers) (s : Scheduler)
    → IsAlone s
    → choose fuel regs s ≡ some (save regs (record s { interrupts = true }), none)
unfolding choose
choose-alone fuel regs s a =
    let s1 = record s { interrupts = true } in
    let b = save regs s1 in
    let length = λ (p : Process). p.threads_vec.length in
    let some_current : ((s.current_process == 0) || (s.current_thread == 0)) ≡ false =
      ground (arith, a.process, a.thread) in
    let one : length (b.processes b.current_process) ≡ 1 =
      ap (λ (f : ℕ → Process). length (f b.current_process)) (save-processes regs s1)
      ∙ ap (λ c. length (s.processes c)) (save-current regs s1)
      ∙ a.one in
    if_false _ _ _ some_current
    ∙ from_current-alone fuel b one
        (ap (λ (v : TurboVector ℕ). v.length) (save-table regs s1) ∙ a.table)

switch_task-waits :
    (fuel : ℕ) (g : Grants) (idle : ℕ) (regs : Registers) (s : Scheduler)
    → idle ≢ 0
    → IsSound s
    → IsAlone s
    → s.sched_lock ≡ false
    → s.thread_lock ≡ true
    → switch_task (suc (suc fuel)) g idle regs s ≡ none
unfolding switch_task lock_sched
switch_task-waits fuel g idle regs s ni h a free locked =
    let s1 = record s { sched_lock = true } in
    let s2 = record s1 { interrupts = true } in
    let alone : IsAlone s1 = record {
      is_init = a.is_init;
      process = a.process;
      thread = a.thread;
      one = a.one;
      table = a.table;
      idle = a.idle;
    } in
    let saved = save-Kept regs s2 in
    let sound = saved.sound (record { table = h.table; processes = h.processes; idle = h.idle }) in
    let waits =
      go_idle-waits fuel g idle (save regs s2) ni sound (save-idle regs s2 ∙ a.idle)
        (saved.thread_lock ∙ locked) in
    if_true s.is_init _ _ a.is_init
    ∙ some->>= (lock_sched s) _ s1 (if_false s.sched_lock _ _ free) (
        some->>= (choose (suc (suc fuel)) regs s1) _ (save regs s2, none)
          (choose-alone (suc (suc fuel)) regs s1 alone) (none->>= _ _ waits))

-- From a valid state with one process of one thread, which is current, and no idle process yet: a tick just after
-- the thread has taken the lock of the threads, as `createThread` does with interrupts on, never returns, since the
-- switch makes the idle process and waits for that lock. Without the lock the switch returns, and the state is
-- valid with every lock free. The heap gives no null pointer, the idle function is not at address 0, and two
-- nested calls of `clean_proc` are enough.
pub tick-waits :
    (fuel : ℕ) (g : Grants) (idle : ℕ) (regs : Registers) (Others : ℕ → Type 0) (s : Scheduler)
    → g.thread ≢ 0
    → g.process ≢ 0
    → idle ≢ 0
    → IsValid Others s
    → IsAlone s
    → ((lock_threads s >>= switch_task (suc (suc fuel)) g idle regs) ≡ none)
      × Returns (λ r. IsValid Others r.0) (switch_task (suc (suc fuel)) g idle regs s)
unfolding lock_threads
tick-waits fuel g idle regs Others s nt np ni v a =
    let h = v.sound in
    let held = record s { thread_lock = true } in
    let alone : IsAlone held = record {
      is_init = a.is_init;
      process = a.process;
      thread = a.thread;
      one = a.one;
      table = a.table;
      idle = a.idle;
    } in
    let sound : IsSound held = record { table = h.table; processes = h.processes; idle = h.idle } in
    let (r, e, w) = switch_task-Switched Others fuel g idle regs s nt np ni a.is_init v in
    (
      some->>= (lock_threads s) _ held (if_false s.thread_lock _ _ v.thread_lock)
          (switch_task-waits fuel g idle regs held ni sound alone v.sched_lock refl),
      (r, e, w.valid),
    )
