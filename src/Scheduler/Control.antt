-- ===== src/Scheduler/Control.antt =====
-- How threads and processes are blocked, let go on and ended. After the first `this_thread()` or
-- `this_proc()` of a function the others change nothing.
use turb_os.Base.{ℕ, ◌==◌, if◌then◌else◌, Bool, true, ◌||◌, ◌&&◌}
use turb_os.Scheduler.Defs.{
  Scheduler, TaskState, ready, running, blocked, killed, is, set_thread, set_proc, this_thread,
  this_proc, yield_for,
}

abbrev pub is_active : TaskState → Bool
is_active st = is st ready || is st running

abbrev pub sti : Scheduler → Scheduler
sti s = record s { interrupts = true }

-- `blockThread()`
unfoldable pub block_self : Scheduler → Scheduler
unfolding this_thread set_thread yield_for is
block_self s =
    let (s, t) = this_thread s in
    yield_for 1 (sti (if is_active (s.threads t).state then set_thread t blocked s else s))

-- `blockThread(thread)`: the state that is asked for is that of the current thread.
unfoldable pub block_thread : ℕ → Scheduler → Scheduler
unfolding this_thread set_thread is
block_thread thread s =
    let (s, t) = this_thread s in
    sti (if is_active (s.threads t).state then set_thread thread blocked s else s)

-- `blockProc()`
unfoldable pub block_own_proc : Scheduler → Scheduler
unfolding this_proc set_proc yield_for is
block_own_proc s =
    let (s, p) = this_proc s in
    if p == s.init_proc
    then sti s
    else yield_for 1 (sti (if is_active (s.processes p).state then set_proc p blocked s else s))

-- `blockProc(proc)`
unfoldable pub block_proc : ℕ → Scheduler → Scheduler
unfolding this_proc set_proc is
block_proc proc s =
    let (s, p) = this_proc s in
    sti (if is_active (s.processes p).state then set_proc proc blocked s else s)

unfoldable pub thread_unblock : ℕ → Scheduler → Scheduler
unfolding set_thread is
thread_unblock t s = sti (if is (s.threads t).state blocked then set_thread t ready s else s)

unfoldable pub proc_unblock : ℕ → Scheduler → Scheduler
unfolding set_proc is
proc_unblock p s = sti (if is (s.processes p).state blocked then set_proc p ready s else s)

-- `exitThread`, up to its endless `hlt` or its return
unfoldable pub exit_thread : Scheduler → Scheduler
unfolding this_proc set_thread yield_for
exit_thread s =
    let (s, p) = this_proc s in
    let own = s.processes p in
    if (p == s.init_proc) && (own.threads_vec.length == 1) && (own.children.length == 0)
    then s
    else yield_for 1 (sti (set_thread s.current_thread killed s))

-- `exitProc`, up to its endless `hlt` or its return
unfoldable pub exit_proc : Scheduler → Scheduler
unfolding this_proc set_proc yield_for
exit_proc s =
    let (s, p) = this_proc s in
    if p == s.init_proc then s else yield_for 1 (sti (set_proc p killed s))
