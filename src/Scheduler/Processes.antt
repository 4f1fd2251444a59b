-- ===== src/Scheduler/Processes.antt =====
-- The making of processes ends where the locks are free, and keeps what runs, the tables and the locks.
use turb_os.Base.{
  ℕ, ◌≡◌, ◌≢◌, refl, Bool, true, false, ◌==◌, if-both, if-split, ap, Option, some, List, sym, ◌∙◌,
  arith,
}
use turb_os.Base.Words.{add64}
use turb_os.Vector.Defs.{TurboVector, push_back}
use turb_os.Scheduler.Defs.{Scheduler, Process, ready, put, lock_procs, ◌>>=◌}
use turb_os.Scheduler.Create.{
  Grants, create_thread, fresh_process, first_process, alloc_proc, create_proc,
}
use turb_os.Scheduler.Kept.{Kept, Kept-trans, Returns, Returns->>=, put_same}
use turb_os.Scheduler.Vectors.{push_back-IsFull, push_first}
use turb_os.Scheduler.Changes.{put_proc-Kept, set_proc-Kept, rest-Kept}
use turb_os.Scheduler.Making.{create_thread-Returns}

unlock_procs-Kept :
    (s : Scheduler) {u : Scheduler}
    → s.proc_lock ≡ false
    → Kept (record s { proc_lock = true }) u
    → Kept s (record u { proc_lock = false })
unlock_procs-Kept s e k = record {
  runs = k.runs;
  sound = λ h.
      let v = k.sound (record { table = h.table; processes = h.processes; idle = h.idle }) in
      record { table = v.table; processes = v.processes; idle = v.idle };
  heads = λ h. k.heads (record { table = h.table; processes = h.processes; idle = h.idle });
  current_thread = k.current_thread;
  current_process = k.current_process;
  thread_lock = k.thread_lock;
  sched_lock = k.sched_lock;
  proc_lock = sym e;
}

-- A free lock is taken at once.
under_procs :
    (Q : Scheduler → Type 0) (s : Scheduler) (f : Scheduler → Option Scheduler)
    → s.proc_lock ≡ false
    → Returns Q (f (record s { proc_lock = true }))
    → Returns Q (lock_procs s >>= f)
unfolding lock_procs
under_procs Q s f e (u, same, q) = (u, rw e same, q)

-- `allocProc` keeps all but that a process with code has its thread at the first place.
abbrev pub IsAllocated : Grants → ℕ → Scheduler → Scheduler → Type 0
IsAllocated g addr s u =
    Kept s u × (addr ≢ 0 → (u.processes g.process).threads_vec.items 0 ≡ g.thread)

pub alloc_proc-Returns :
    (g : Grants) (name : List ℕ) (addr args : ℕ) (s : Scheduler)
    → g.thread ≢ 0
    → g.process ≢ 0
    → s.thread_lock ≡ false
    → s.proc_lock ≡ false
    → Returns (IsAllocated g addr s) (alloc_proc g name addr args s)
unfolding alloc_proc fresh_process first_process
alloc_proc-Returns g name addr args s nz np e f =
    let s1 = record s { proc_lock = true } in
    let fresh = fresh_process g name s.next_pid (s.processes g.process) in
    let made =
      put_proc-Kept s1 g.process fresh
        (λ o. record { threads = λ i lt. absurd (omega arith); children = refl; parent = refl })
        (λ o h. h) in
    let created = rest-Kept made in
    let s2 = record s1 {
      processes = put s.processes g.process fresh;
      next_pid = add64 s.next_pid 1;
    } in
    let P = IsAllocated g addr s1 in
    under_procs (IsAllocated g addr s) s _ f (
      Returns->>= P (IsAllocated g addr s) _ _
        (if-split (Returns P) (addr == 0) (some s2) (create_thread g addr args g.process s2)
          (λ z. (s2, refl, (created, λ nz. absurd (ground arith))))
          (λ z.
            let (u, same, (k, vec)) = create_thread-Returns g addr args g.process s2 nz e in
            (
              u,
              same,
              (
                Kept-trans created k,
                λ _.
                    ap (λ (v : TurboVector ℕ). v.items 0) (vec np)
                    ∙ push_first g.room _ g.thread (
                        ap (λ (p : Process). p.threads_vec.is_init)
                          (put_same s.processes g.process fresh)),
              ),
            )))
        (λ u (k, vec). (
          _,
          refl,
          (
            unlock_procs-Kept s f (if-both (Kept s1) u.is_init u _ k (rest-Kept k)),
            λ n.
                if-both (λ (w : Scheduler). (w.processes g.process).threads_vec.items 0 ≡ g.thread)
                  u.is_init u _ (vec n) (vec n),
          ),
        )))

-- A process is listed.
list_proc-Kept :
    (s : Scheduler) (granted : Bool) (p : ℕ) (count : ℕ)
    → p ≢ 0
    → Kept s (record s { proc_table = push_back granted s.proc_table p; proc_count = count })
list_proc-Kept s granted p count nz = record {
  runs = λ t r. r;
  sound = λ h. record {
    table = push_back-IsFull granted s.proc_table p nz h.table;
    processes = h.processes;
    idle = h.idle;
  };
  heads = λ h p x. x;
  current_thread = refl;
  current_process = refl;
  thread_lock = refl;
  sched_lock = refl;
  proc_lock = refl;
}

pub create_proc-Returns :
    (g : Grants) (name : List ℕ) (addr args : ℕ) (s : Scheduler)
    → g.thread ≢ 0
    → g.process ≢ 0
    → s.thread_lock ≡ false
    → s.proc_lock ≡ false
    → Returns (Kept s) (create_proc g name addr args s)
unfolding create_proc
create_proc-Returns g name addr args s nt np e f =
    Returns->>= (IsAllocated g addr s) (Kept s) _ _
      (alloc_proc-Returns g name addr args s nt np e f)
      (λ u (k, _).
        let listed = list_proc-Kept u g.room g.process _ np in
        let free = listed.proc_lock ∙ k.proc_lock ∙ f in
        under_procs (Kept s) _ _ free (
          _,
          refl,
          Kept-trans k
              (Kept-trans listed (unlock_procs-Kept _ free (set_proc-Kept g.process ready _))),
        ))
