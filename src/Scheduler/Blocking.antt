-- ===== src/Scheduler/Blocking.antt =====
-- The operations that block threads and processes, let them go on and end them keep what runs and the tables.
use turb_os.Base.{ℕ, ◌≢◌, Bool, true, ◌==◌, ◌&&◌, if◌then◌else◌, if-both}
use turb_os.Scheduler.Defs.{Scheduler, running, ready, blocked, killed, is, set_thread, set_proc}
use turb_os.Scheduler.Control.{
  is_active, sti, block_self, block_thread, block_own_proc, block_proc, thread_unblock,
  proc_unblock, exit_thread, exit_proc,
}
use turb_os.Scheduler.Kept.{Kept, Kept-refl, Kept-trans}
use turb_os.Scheduler.Changes.{set_proc-Kept, set_thread-Kept, rest-Kept}
use turb_os.Scheduler.Making.{ready-ne-running}

blocked-ne-running : blocked ≢ running
blocked-ne-running = λ e. cc

killed-ne-running : killed ≢ running
killed-ne-running = λ e. cc

-- A step that is taken under a test, with interrupts on or off.
maybe-Kept :
    (s : Scheduler) (b i : Bool) (v : Scheduler)
    → Kept (record s { interrupts = i }) v
    → Kept s (if b then v else record s { interrupts = i })
maybe-Kept s b i v k =
    let on = rest-Kept (Kept-refl s) in
    if-both (Kept s) b v (record s { interrupts = i }) (Kept-trans on k) on

pub block_self-Kept : (s : Scheduler) → Kept s (block_self s)
unfolding block_self
block_self-Kept s =
    let t = s.current_thread in
    rest-Kept (
      maybe-Kept s (is_active (s.threads t).state) true (set_thread t blocked (sti s))
        (set_thread-Kept t blocked (sti s) blocked-ne-running))

pub block_thread-Kept : (t : ℕ) (s : Scheduler) → Kept s (block_thread t s)
unfolding block_thread
block_thread-Kept t s = rest-Kept (
    maybe-Kept s (is_active (s.threads s.current_thread).state) true (set_thread t blocked (sti s))
      (set_thread-Kept t blocked (sti s) blocked-ne-running))

pub block_own_proc-Kept : (s : Scheduler) → Kept s (block_own_proc s)
unfolding block_own_proc
block_own_proc-Kept s =
    let p = s.current_process in
    if-both (Kept s) (p == s.init_proc) _ _ (rest-Kept (Kept-refl s)) (
      rest-Kept (
        maybe-Kept s (is_active (s.processes p).state) true (set_proc p blocked (sti s))
          (set_proc-Kept p blocked (sti s))))

pub block_proc-Kept : (p : ℕ) (s : Scheduler) → Kept s (block_proc p s)
unfolding block_proc
block_proc-Kept p s = rest-Kept (
    maybe-Kept s (is_active (s.processes s.current_process).state) true (set_proc p blocked (sti s))
      (set_proc-Kept p blocked (sti s)))

pub thread_unblock-Kept : (t : ℕ) (s : Scheduler) → Kept s (thread_unblock t s)
unfolding thread_unblock
thread_unblock-Kept t s = rest-Kept (
    if-both (Kept s) (is (s.threads t).state blocked) (set_thread t ready s) s
      (set_thread-Kept t ready s ready-ne-running) (Kept-refl s))

pub proc_unblock-Kept : (p : ℕ) (s : Scheduler) → Kept s (proc_unblock p s)
unfolding proc_unblock
proc_unblock-Kept p s = rest-Kept (
    if-both (Kept s) (is (s.processes p).state blocked) (set_proc p ready s) s
      (set_proc-Kept p ready s) (Kept-refl s))

pub exit_thread-Kept : (s : Scheduler) → Kept s (exit_thread s)
unfolding exit_thread
exit_thread-Kept s =
    let p = s.processes s.current_process in
    let on = rest-Kept (Kept-refl s) in
    if-both (Kept s)
      ((s.current_process == s.init_proc)
        && (p.threads_vec.length == 1)
        && (p.children.length == 0))
      _ _ on
      (rest-Kept
        (Kept-trans on (set_thread-Kept s.current_thread killed (sti s) killed-ne-running)))

pub exit_proc-Kept : (s : Scheduler) → Kept s (exit_proc s)
unfolding exit_proc
exit_proc-Kept s =
    let on = rest-Kept (Kept-refl s) in
    if-both (Kept s) (s.current_process == s.init_proc) _ _ on
      (rest-Kept (Kept-trans on (set_proc-Kept s.current_process killed (sti s))))
