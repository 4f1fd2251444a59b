-- ===== src/Scheduler/Choice.antt =====
-- What `switchTask` has chosen when it reaches one of its labels.
use turb_os.Base.{
  ℕ, zero, suc, ◌+◌, ◌-◌, ◌≤◌, ◌≡◌, ◌≢◌, refl, sym, ap, ◌∙◌, if-split, on_some, Option, some, none,
  arith,
}
use turb_os.Base.Words.{add64}
use turb_os.Vector.Defs.{TurboVector, at, find}
use turb_os.Scheduler.Defs.{Scheduler, Thread, ready, running, is, ◌>>=◌}
use turb_os.Scheduler.Clean.{clean_proc}
use turb_os.Scheduler.Switch.{
  ready_thread, own_thread, other_proc, take_thread, from_none, from_current,
}
use turb_os.Scheduler.Kept.{
  IsIn, IsHeadedProc, IsSound, Kept, Kept-refl, Kept-trans, Returns, Returns->>=,
}
use turb_os.Scheduler.Cleaned.{Cleaned}
use turb_os.Scheduler.Cleaning.{clean_proc-Returns}
use turb_os.Scheduler.Search.{
  IsReadyThread, IsReadyOf, IsReadyProc, is-ready, ready_thread-ready, own_thread-ready,
  other_proc-ready,
}

-- No thread runs but those that run elsewhere, on other processors.
abbrev pub IsQuiet : (ℕ → Type 0) → Scheduler → Type 0
IsQuiet Elsewhere s = (t : ℕ) → (s.threads t).state ≡ running → Elsewhere t

-- The thread that is current in `u` was ready in `s`, and so was the current process, which it is one of.
pub record Chosen (Elsewhere : ℕ → Type 0) (s u : Scheduler) : Type 0 where
  pub quiet : IsQuiet Elsewhere u
  pub sound : IsSound u
  pub heads : (p : ℕ) → IsHeadedProc (s.processes p) → IsHeadedProc (u.processes p)
  pub thread_lock : u.thread_lock ≡ s.thread_lock
  pub proc_lock : u.proc_lock ≡ s.proc_lock
  pub process : IsReadyProc s u.current_process
  pub thread : IsReadyThread s u.current_thread
  pub member : IsIn (s.processes u.current_process).threads_vec u.current_thread

-- With a timeslice a thread is chosen; with none, all is kept.
abbrev pub Outcome : (ℕ → Type 0) → Scheduler → Scheduler × Option ℕ → Type 0
Outcome Elsewhere s (u, some ms) = Chosen Elsewhere s u
Outcome Elsewhere s (u, none) = Kept s u

take_thread-Chosen :
    (Elsewhere : ℕ → Type 0) (s u : Scheduler) (proc thread : ℕ)
    → IsQuiet Elsewhere s
    → IsSound s
    → Kept s u
    → IsReadyProc s proc
    → IsReadyOf s proc thread
    → Outcome Elsewhere s (take_thread proc thread u)
unfolding take_thread
take_thread-Chosen Elsewhere s u proc thread quiet h k p t =
    let v = k.sound h in
    record {
      quiet = λ x r. quiet x (k.runs x r);
      sound = record { table = v.table; processes = v.processes; idle = v.idle };
      heads = k.heads h;
      thread_lock = k.thread_lock;
      proc_lock = k.proc_lock;
      process = p;
      thread = t.0;
      member = t.1;
    }

-- What is chosen after a cleaning was ready before it.
Cleaned-Outcome :
    (Elsewhere : ℕ → Type 0) {s u : Scheduler} (r : Scheduler × Option ℕ)
    → IsSound s
    → Cleaned s u
    → Outcome Elsewhere u r
    → Outcome Elsewhere s r
Cleaned-Outcome Elsewhere (v, none) sound c k = Kept-trans c.kept k
Cleaned-Outcome Elsewhere {s = s} (v, some ms) sound c h = record {
  quiet = h.quiet;
  sound = h.sound;
  heads = λ p x. h.heads p (c.kept.heads sound p x);
  thread_lock = h.thread_lock ∙ c.kept.thread_lock;
  proc_lock = h.proc_lock ∙ c.kept.proc_lock;
  process = (h.process.0, c.readies v.current_process h.process.1);
  thread = (
    h.thread.0,
    ap (λ (f : ℕ → Thread). (f v.current_thread).state) (sym c.threads) ∙ h.thread.1,
  );
  member = c.members v.current_process v.current_thread h.member;
}

pub from_none-Returns :
    (Elsewhere : ℕ → Type 0) (fuel left i : ℕ) (s : Scheduler)
    → IsSound s
    → IsQuiet Elsewhere s
    → left ≤ s.proc_table.length - i
    → Returns (Outcome Elsewhere s) (from_none (suc (suc fuel)) left i s)
unfolding from_none at
from_none-Returns Elsewhere fuel zero i s h quiet le = ((s, none), refl, Kept-refl s)
from_none-Returns Elsewhere fuel (suc left) i s h quiet le =
    let proc = at s.proc_table i in
    let length = (s.processes proc).threads_vec.length in
    let R = Returns (Outcome Elsewhere s) in
    if-split R (is (s.processes proc).state ready) _ _
      (λ e.
        on_some (IsReadyOf s proc) R (ready_thread s proc length 0)
          (λ thread. some (take_thread proc thread s)) (from_none (suc (suc fuel)) left (i + 1) s)
          (ready_thread-ready s proc length 0 (h.processes proc).threads (omega arith))
          (λ thread t. (
            _,
            refl,
            take_thread-Chosen Elsewhere s s proc thread quiet h (Kept-refl s)
                (h.table i (omega arith), is-ready _ e) t,
          ))
          (from_none-Returns Elsewhere fuel left (i + 1) s h quiet (omega arith)))
      (λ e.
        Returns->>= (Cleaned s) (Outcome Elsewhere s) _ _ (clean_proc-Returns fuel proc s h) (λ u c.
          let same : u.proc_table.length ≡ s.proc_table.length =
            ap (λ (v : TurboVector ℕ). v.length) c.table in
          let found =
            from_none-Returns Elsewhere fuel left (i + 1) u (c.kept.sound h)
              (λ t r. quiet t (c.kept.runs t r)) (omega arith) in
          (found.0, found.1, Cleaned-Outcome Elsewhere found.0 h c found.2)))

pub from_current-Returns :
    (Elsewhere : ℕ → Type 0) (fuel : ℕ) (s : Scheduler)
    → IsSound s
    → IsQuiet Elsewhere s
    → s.current_process ≢ 0
    → Returns (Outcome Elsewhere s) (from_current (suc (suc fuel)) s)
unfolding from_current
from_current-Returns Elsewhere fuel s h quiet nz =
    let own = (s.processes s.current_process).threads_vec in
    let t = add64 (find own s.current_thread) 1 in
    let p = add64 (find s.proc_table s.current_process) 1 in
    let R = Returns (Outcome Elsewhere s) in
    on_some _ R (own_thread s s.current_process (own.length - t) t)
      (λ thread. some (take_thread s.current_process thread s)) _
      (own_thread-ready s s.current_process (own.length - t) t
        (h.processes s.current_process).threads (omega arith))
      (λ thread found. (
        _,
        refl,
        take_thread-Chosen Elsewhere s s _ thread quiet h (Kept-refl s) (nz, found.1) found.0,
      ))
      (on_some _ R (other_proc s (s.proc_table.length - p) p)
        (λ (proc, thread).
          clean_proc (suc (suc fuel)) s.current_process s >>= λ u. some (take_thread proc thread u))
        (some (s, none)) (other_proc-ready s (s.proc_table.length - p) p h (omega arith))
        (λ (proc, thread) found.
          Returns->>= (Cleaned s) (Outcome Elsewhere s) _ _
            (clean_proc-Returns fuel s.current_process s h)
            (λ u c. (
              _,
              refl,
              take_thread-Chosen Elsewhere s u proc thread quiet h c.kept found.0 found.1,
            )))
        ((s, none), refl, Kept-refl s))
