-- ===== src/Scheduler/Switching.antt =====
-- A switch ends, and hands out the thread that it has chosen.
use mathlib.Core.Bool.{true≢false}
use turb_os.Base.{
  ℕ, suc, ◌≡◌, ◌≢◌, ◌⊎◌, inl, inr, refl, sym, ap, ◌∙◌, true, false, ◌==◌, if-split, if_false,
  Option, some, none, arith,
}
use turb_os.Vector.Defs.{at}
use turb_os.Scheduler.Defs.{
  Scheduler, Registers, Thread, ready, running, set_thread, lock_sched, yield_for, ◌>>=◌,
}
use turb_os.Scheduler.Create.{Grants}
use turb_os.Scheduler.Switch.{resume, make_idle, go_idle, switch_task}
use turb_os.Scheduler.Kept.{
  IsIn, IsHeadedProc, IsSound, Kept, Kept-refl, Kept-trans, Returns, Returns->>=, put-cases,
  put_same,
}
use turb_os.Scheduler.Cleaned.{Cleaned}
use turb_os.Scheduler.Cleaning.{clean_proc-Returns}
use turb_os.Scheduler.Processes.{alloc_proc-Returns, IsAllocated}
use turb_os.Scheduler.Choice.{IsQuiet}
use turb_os.Scheduler.Saving.{IsValid}
use turb_os.Scheduler.Selection.{Prepared, Selected, choose-Returns}

-- The idle process is made if there is none.
make_idle-Returns :
    (g : Grants) (idle : ℕ) (s : Scheduler)
    → g.thread ≢ 0
    → g.process ≢ 0
    → idle ≢ 0
    → s.thread_lock ≡ false
    → s.proc_lock ≡ false
    → Returns (λ u. Kept s u × (u.idle_p ≢ 0)) (make_idle g idle s)
unfolding make_idle
make_idle-Returns g idle s nt np ni e f =
    let Q = λ (u : Scheduler). Kept s u × (u.idle_p ≢ 0) in
    if-split (Returns Q) (s.idle_p == 0) _ (some s)
      (λ z.
        Returns->>= (IsAllocated g idle s) Q _ _ (alloc_proc-Returns g _ idle 0 s nt np e f)
          (λ u (k, vec).
            (_, refl, (set_idle-Kept s u g.process k (λ z. nt (sym (vec ni) ∙ z)), np))))
      (λ z. (s, refl, (Kept-refl s, λ y. nonzero s.idle_p z y)))
  where
    nonzero : (p : ℕ) → (p == 0) ≡ false → p ≢ 0
    nonzero p e z = ground arith

    set_idle-Kept :
        (s u : Scheduler) (p : ℕ) {count : ℕ}
        → Kept s u
        → (u.processes p).threads_vec.items 0 ≢ 0
        → Kept s (record u { idle_p = p; thread_count = count })
    set_idle-Kept s u p k head = record {
      runs = k.runs;
      sound = λ h.
          let v = k.sound h in
          record { table = v.table; processes = v.processes; idle = λ _. head };
      heads = k.heads;
      current_thread = k.current_thread;
      current_process = k.current_process;
      thread_lock = k.thread_lock;
      sched_lock = k.sched_lock;
      proc_lock = k.proc_lock;
    }

-- The label `nofree` prepares the idle process.
go_idle-Returns :
    (Elsewhere : ℕ → Type 0) (fuel : ℕ) (g : Grants) (idle : ℕ) (s u : Scheduler)
    → g.thread ≢ 0
    → g.process ≢ 0
    → idle ≢ 0
    → s.thread_lock ≡ false
    → s.proc_lock ≡ false
    → IsSound s
    → Kept s u
    → IsQuiet Elsewhere u
    → Returns (Prepared Elsewhere s) (go_idle (suc (suc fuel)) g idle u)
unfolding go_idle at
go_idle-Returns Elsewhere fuel g idle s u nt np ni e f h k quiet =
    Returns->>= (Cleaned u) (Prepared Elsewhere s) _ _
      (clean_proc-Returns fuel u.current_process u (k.sound h))
      (λ v c.
        let kv = Kept-trans k c.kept in
        Returns->>= (λ w. Kept v w × (w.idle_p ≢ 0)) (Prepared Elsewhere s) _ _
          (make_idle-Returns g idle v nt np ni (kv.thread_lock ∙ e) (kv.proc_lock ∙ f))
          (λ w (kw, nz).
            let all = Kept-trans kv kw in
            let sound = all.sound h in
            (
              _,
              refl,
              record {
                quiet = λ t r. quiet t (c.kept.runs t (kw.runs t r));
                sound = record {
                  table = sound.table;
                  processes = sound.processes;
                  idle = sound.idle;
                };
                heads = all.heads h;
                thread_lock = all.thread_lock;
                proc_lock = all.proc_lock;
                process = nz;
                thread = sound.idle nz;
                source = inl (refl, refl);
              },
            )))

-- What a switch leads to: a valid state, whose current thread runs, with its registers and the
-- pagemap of the current process. It is the first thread of the idle process, which is current, or it was ready or
-- ran as one of the threads of the current process, which was ready.
pub record Switched (Elsewhere : ℕ → Type 0) (s : Scheduler) (r : Scheduler × Registers)
    : Type 0 where
  pub valid : IsValid Elsewhere r.0
  pub heads : (p : ℕ) → IsHeadedProc (s.processes p) → IsHeadedProc (r.0.processes p)
  pub runs : (r.0.threads r.0.current_thread).state ≡ running
  pub registers : r.1 ≡ (r.0.threads r.0.current_thread).thread_regs
  pub pagemap : r.0.loaded ≡ (r.0.processes r.0.current_process).pagemap
  pub source :
      ((r.0.current_process ≡ r.0.idle_p)
        × (r.0.current_thread ≡ (r.0.processes r.0.idle_p).threads_vec.items 0))
      ⊎ (((s.processes r.0.current_process).state ≡ ready)
          × IsIn (s.processes r.0.current_process).threads_vec r.0.current_thread
          × (((s.threads r.0.current_thread).state ≡ ready)
              ⊎ ((s.threads r.0.current_thread).state ≡ running)))

resume-Switched :
    (Elsewhere : ℕ → Type 0) (ms : ℕ) (s v : Scheduler)
    → s.thread_lock ≡ false
    → s.proc_lock ≡ false
    → Prepared Elsewhere (record s { sched_lock = true }) v
    → Switched Elsewhere s (resume ms v)
unfolding resume set_thread yield_for
resume-Switched Elsewhere ms s v e f p =
    let c = v.current_thread in
    let state = λ (y : Thread). y.state in
    let x = record (v.threads c) { state = running } in
    record {
      valid = record {
        sound =
            let h = p.sound in record { table = h.table; processes = h.processes; idle = h.idle };
        thread_lock = p.thread_lock ∙ e;
        sched_lock = refl;
        proc_lock = p.proc_lock ∙ f;
        runs = λ t r. elim (put-cases v.threads c x t) [
          | inl (same, _) ↦ inl (same, p.process, p.thread)
          | inr other ↦ inr (p.quiet t (sym (ap state other) ∙ r))
        ];
      };
      heads = p.heads;
      runs = ap state (put_same v.threads c x);
      registers = refl;
      pagemap = refl;
      source = p.source;
    }

pub under_sched :
    {A : Type 0} (Q : A → Type 0) (s : Scheduler) (f : Scheduler → Option A)
    → s.sched_lock ≡ false
    → Returns Q (f (record s { sched_lock = true }))
    → Returns Q (lock_sched s >>= f)
unfolding lock_sched
under_sched Q s f e (u, same, q) = (u, rw e same, q)

-- From a valid state after the first process is made, `switchTask` ends, with two calls of `clean_proc` nested at
-- most, if the heap gives no null pointer and the idle function is not at address 0, and `Switched` holds.
pub switch_task-Switched :
    (Elsewhere : ℕ → Type 0) (fuel : ℕ) (g : Grants) (idle : ℕ) (regs : Registers) (s : Scheduler)
    → g.thread ≢ 0
    → g.process ≢ 0
    → idle ≢ 0
    → s.is_init ≡ true
    → IsValid Elsewhere s
    → Returns (Switched Elsewhere s) (switch_task (suc (suc fuel)) g idle regs s)
unfolding switch_task
switch_task-Switched Elsewhere fuel g idle regs s nt np ni init v =
    let h = v.sound in
    let sound1 : IsSound s1 = record { table = h.table; processes = h.processes; idle = h.idle } in
    if-split (Returns (Switched Elsewhere s)) s.is_init _ (some (s, regs))
      (λ _. under_sched (Switched Elsewhere s) s _ v.sched_lock (
        Returns->>= (Selected Elsewhere s1) (Switched Elsewhere s) _ _
          (choose-Returns Elsewhere fuel regs s1 sound1 v.runs) (finish sound1)))
      (λ e. absurd (true≢false (sym init ∙ e)))
  where
    s1 : Scheduler
    s1 = record s { sched_lock = true }

    finish :
        IsSound s1
        → (r : Scheduler × Option ℕ) → Selected Elsewhere s1 r
        → Returns (Switched Elsewhere s) (elim r.1 [
          | some ms ↦ some (resume ms r.0)
          | none ↦ go_idle (suc (suc fuel)) g idle r.0 >>= λ s. some (resume 1 s)
        ])
    finish h (u, some ms) p =
        (_, refl, resume-Switched Elsewhere ms s u v.thread_lock v.proc_lock p)
    finish h (u, none) (k, quiet) =
        Returns->>= (Prepared Elsewhere s1) (Switched Elsewhere s) _ _
          (go_idle-Returns Elsewhere fuel g idle s1 u nt np ni v.thread_lock v.proc_lock h k quiet)
          (λ w p. (_, refl, resume-Switched Elsewhere 1 s w v.thread_lock v.proc_lock p))

-- Before the first process is made a switch does nothing.
pub switch_task-off :
    (fuel : ℕ) (g : Grants) (idle : ℕ) (regs : Registers) (s : Scheduler)
    → s.is_init ≡ false
    → switch_task fuel g idle regs s ≡ some (s, regs)
unfolding switch_task
switch_task-off fuel g idle regs s e = if_false s.is_init _ _ e
