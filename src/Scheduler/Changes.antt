-- ===== src/Scheduler/Changes.antt =====
-- A change of a thread, of a process, or of what is only counted, and what it keeps.
use turb_os.Base.{ℕ, ◌≡◌, ◌≢◌, refl, Bool, List}
use turb_os.Scheduler.Defs.{
  Timer, Scheduler, Thread, Process, TaskState, running, put, set_thread, set_proc,
}
use turb_os.Scheduler.Kept.{IsOrphan, Kept, put-IsSound, put-heads, put-state}

-- A change of a process that keeps the tables sound.
pub put_proc-Kept :
    (s : Scheduler) (p : ℕ) (x : Process)
    → (IsOrphan (s.processes p) → IsOrphan x)
    → (IsOrphan (s.processes p)
        → (s.processes p).threads_vec.items 0 ≢ 0
        → x.threads_vec.items 0 ≢ 0)
    → Kept s (record s { processes = put s.processes p x })
put_proc-Kept s p x o head = record {
  runs = λ t h. h;
  sound = λ h. put-IsSound s p x (o (h.processes p)) (head (h.processes p)) h;
  heads = λ h. put-heads s p x (head (h.processes p));
  current_thread = refl;
  current_process = refl;
  thread_lock = refl;
  sched_lock = refl;
  proc_lock = refl;
}

-- What is freed or counted is not looked at.
pub count-Kept :
    (s : Scheduler) {u : Scheduler}
    → Kept s u
    → {p t : ℕ} {f : List ℕ} → Kept s (record u { proc_count = p; thread_count = t; freed = f })
count-Kept s k = record {
  runs = k.runs;
  sound =
      λ h. let v = k.sound h in record { table = v.table; processes = v.processes; idle = v.idle };
  heads = k.heads;
  current_thread = k.current_thread;
  current_process = k.current_process;
  thread_lock = k.thread_lock;
  sched_lock = k.sched_lock;
  proc_lock = k.proc_lock;
}

pub set_proc-Kept : (p : ℕ) (st : TaskState) (s : Scheduler) → Kept s (set_proc p st s)
unfolding set_proc
set_proc-Kept p st s =
    put_proc-Kept s p (record (s.processes p) { state = st })
      (λ o. record { threads = o.threads; children = o.children; parent = o.parent }) (λ o h. h)

pub set_thread-Kept :
    (t : ℕ) (st : TaskState) (s : Scheduler) → st ≢ running → Kept s (set_thread t st s)
unfolding set_thread
set_thread-Kept t st s nr = record {
  runs =
      put-state (λ (x : Thread). x.state) running s.threads t (record (s.threads t) { state = st })
        (λ r. absurd (nr r));
  sound = λ h. record { table = h.table; processes = h.processes; idle = h.idle };
  heads = λ h p x. x;
  current_thread = refl;
  current_process = refl;
  thread_lock = refl;
  sched_lock = refl;
  proc_lock = refl;
}

-- A change of a thread that does not set it running.
pub put_thread-Kept :
    (s : Scheduler) (t : ℕ) (x : Thread)
    → (x.state ≡ running → (s.threads t).state ≡ running)
    → Kept s (record s { threads = put s.threads t x })
put_thread-Kept s t x h = record {
  runs = put-state (λ (x : Thread). x.state) running s.threads t x h;
  sound = λ h. record { table = h.table; processes = h.processes; idle = h.idle };
  heads = λ h p x. x;
  current_thread = refl;
  current_process = refl;
  thread_lock = refl;
  sched_lock = refl;
  proc_lock = refl;
}

-- The rest of the state, which is not looked at.
pub rest-Kept :
    {s u : Scheduler} {count pid first : ℕ} {b c : Bool} {timer : List Timer}
    → Kept s u
    → Kept s (record u {
      thread_count = count;
      next_pid = pid;
      init_proc = first;
      is_init = b;
      interrupts = c;
      timer = timer;
    })
rest-Kept k = record {
  runs = k.runs;
  sound =
      λ h. let v = k.sound h in record { table = v.table; processes = v.processes; idle = v.idle };
  heads = k.heads;
  current_thread = k.current_thread;
  current_process = k.current_process;
  thread_lock = k.thread_lock;
  sched_lock = k.sched_lock;
  proc_lock = k.proc_lock;
}
