-- ===== src/Scheduler/Making.antt =====
-- The making of threads ends where the locks are free, and keeps what runs, the tables and
-- the locks.
use turb_os.Base.{ℕ, ◌≡◌, ◌≢◌, refl, true, false, ◌==◌, if-both, ap, some, sym, ◌∙◌, arith}
use turb_os.Vector.Defs.{push_back}
use turb_os.Scheduler.Defs.{
  Scheduler, Process, initial_state, running, ready, put, set_thread, lock_threads, ◌>>=◌,
}
use turb_os.Scheduler.Create.{Grants, fresh_thread, alloc_thread, adopt, create_thread}
use turb_os.Scheduler.Kept.{Kept, Kept-refl, Kept-trans, Returns, Returns->>=, put_same}
use turb_os.Scheduler.Vectors.{push_back-IsFull, push_back-head}
use turb_os.Scheduler.Changes.{put_proc-Kept, set_thread-Kept, put_thread-Kept, rest-Kept}

-- Between taking a free lock and giving it back.
unlock_threads-Kept :
    (s : Scheduler) {u : Scheduler}
    → s.thread_lock ≡ false
    → Kept (record s { thread_lock = true }) u
    → Kept s (record u { thread_lock = false })
unlock_threads-Kept s e k = record {
  runs = k.runs;
  sound = λ h.
      let v = k.sound (record { table = h.table; processes = h.processes; idle = h.idle }) in
      record { table = v.table; processes = v.processes; idle = v.idle };
  heads = λ h. k.heads (record { table = h.table; processes = h.processes; idle = h.idle });
  current_thread = k.current_thread;
  current_process = k.current_process;
  thread_lock = sym e;
  sched_lock = k.sched_lock;
  proc_lock = k.proc_lock;
}

-- With the lock free, the rest runs between the lock and its release.
under_threads :
    (s : Scheduler) (f : Scheduler → Scheduler)
    → s.thread_lock ≡ false
    → Kept (record s { thread_lock = true }) (f (record s { thread_lock = true }))
    → Returns
        (λ u. Kept s u × (u.processes ≡ (f (record s { thread_lock = true })).processes))
        (lock_threads s >>= λ s. some (record (f s) { thread_lock = false }))
unfolding lock_threads
under_threads s f e k = (
  record (f (record s { thread_lock = true })) { thread_lock = false },
  rw e refl,
  (unlock_threads-Kept s e k, refl),
)

initial-ne-running : initial_state ≢ running
initial-ne-running = λ e. cc

pub ready-ne-running : ready ≢ running
ready-ne-running = λ e. cc

alloc_thread-Returns :
    (g : Grants) (addr args : ℕ) (s : Scheduler)
    → s.thread_lock ≡ false
    → Returns (λ u. Kept s u × (u.processes ≡ s.processes)) (alloc_thread g addr args s)
unfolding alloc_thread fresh_thread
alloc_thread-Returns g addr args s e =
    under_threads s
      (λ u. record u {
        threads = put u.threads g.thread (fresh_thread g addr args (u.threads g.thread));
      })
      e
      (put_thread-Kept (record s { thread_lock = true }) g.thread _
        (λ r. absurd (initial-ne-running r)))

adopt-Kept : (g : Grants) (parent : ℕ) (s : Scheduler) → g.thread ≢ 0 → Kept s (adopt g parent s)
unfolding adopt
adopt-Kept g parent s nz =
    let p = s.processes parent in
    if-both (Kept s) (parent == 0) s _ (Kept-refl s) (
      Kept-trans (put_thread-Kept s g.thread _ (λ r. r)) (
        put_proc-Kept _ parent _
          (λ o. record {
            threads = push_back-IsFull g.room p.threads_vec g.thread nz o.threads;
            children = o.children;
            parent = o.parent;
          })
          (λ o h. push_back-head g.room p.threads_vec g.thread nz h)))

-- The vector of the parent has the thread.
adopt-threads :
    (g : Grants) (parent : ℕ) (s : Scheduler)
    → parent ≢ 0
    → ((adopt g parent s).processes parent).threads_vec
      ≡ push_back g.room (s.processes parent).threads_vec g.thread
unfolding adopt
adopt-threads g parent s nz =
    let e : (parent == 0) ≡ false = ground arith in
    rw e (ap (λ (p : Process). p.threads_vec) (put_same s.processes parent _))

-- `createThread` keeps all but that the vector of the parent has the thread.
abbrev pub IsCreated : Grants → ℕ → Scheduler → Scheduler → Type 0
IsCreated g parent s u =
    Kept s u
    × (parent ≢ 0
        → (u.processes parent).threads_vec
          ≡ push_back g.room (s.processes parent).threads_vec g.thread)

pub create_thread-Returns :
    (g : Grants) (addr args parent : ℕ) (s : Scheduler)
    → g.thread ≢ 0
    → s.thread_lock ≡ false
    → Returns (IsCreated g parent s) (create_thread g addr args parent s)
unfolding create_thread set_thread
create_thread-Returns g addr args parent s nz e =
    Returns->>= (λ u. Kept s u × (u.processes ≡ s.processes)) (IsCreated g parent s) _ _
      (alloc_thread-Returns g addr args s e)
      (λ u (k, same_procs).
        let counted = rest-Kept (Kept-trans k (adopt-Kept g parent u nz)) in
        let (v, same, (k', procs)) =
          under_threads _ (set_thread g.thread ready) (counted.thread_lock ∙ e)
            (set_thread-Kept g.thread ready _ ready-ne-running) in
        let vec = λ (f : ℕ → Process). (f parent).threads_vec in
        (
          v,
          same,
          (
            Kept-trans counted k',
            λ np.
                ap vec procs
                ∙ adopt-threads g parent u np
                ∙ ap (λ f. push_back g.room (vec f) g.thread) same_procs,
          ),
        ))
