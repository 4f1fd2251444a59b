-- ===== src/Scheduler/Cleaned.antt =====
-- What a cleaning leaves alone.
use mathlib.Core.Path.{subst}
use turb_os.Base.{ℕ, ◌≡◌, inl, inr, refl, sym, List, ◌∙◌}
use turb_os.Scheduler.Defs.{Scheduler, Process, ready, killed, put, set_proc}
use turb_os.Scheduler.Kept.{IsIn, Kept, Kept-refl, Kept-trans, put-cases, put-state}
use turb_os.Scheduler.Changes.{count-Kept, set_proc-Kept}

-- What the cleaning of a process leaves alone: beyond what is kept, every thread and
-- the table of processes; it makes no process ready, and gives no process a thread.
pub record Cleaned (s u : Scheduler) : Type 0 where
  pub kept : Kept s u
  pub threads : u.threads ≡ s.threads
  pub readies : (q : ℕ) → (u.processes q).state ≡ ready → (s.processes q).state ≡ ready
  pub members : (q t : ℕ) → IsIn (u.processes q).threads_vec t → IsIn (s.processes q).threads_vec t
  pub table : u.proc_table ≡ s.proc_table
  pub idle_p : u.idle_p ≡ s.idle_p

pub Cleaned-refl : (s : Scheduler) → Cleaned s s
Cleaned-refl s = record {
  kept = Kept-refl s;
  threads = refl;
  readies = λ q r. r;
  members = λ q t i. i;
  table = refl;
  idle_p = refl;
}

pub Cleaned-trans : {s u v : Scheduler} → Cleaned s u → Cleaned u v → Cleaned s v
Cleaned-trans a b = record {
  kept = Kept-trans a.kept b.kept;
  threads = b.threads ∙ a.threads;
  readies = λ q r. a.readies q (b.readies q r);
  members = λ q t i. a.members q t (b.members q t i);
  table = b.table ∙ a.table;
  idle_p = b.idle_p ∙ a.idle_p;
}

-- The process itself may change as long as what is kept is kept.
pub put_proc-Cleaned :
    (s : Scheduler) (p : ℕ) (x : Process)
    → (x.state ≡ ready → (s.processes p).state ≡ ready)
    → ((t : ℕ) → IsIn x.threads_vec t → IsIn (s.processes p).threads_vec t)
    → Kept s (record s { processes = put s.processes p x })
    → Cleaned s (record s { processes = put s.processes p x })
put_proc-Cleaned s p x r m k = record {
  kept = k;
  threads = refl;
  readies = put-state (λ (x : Process). x.state) ready s.processes p x r;
  members = λ q t i. elim (put-cases s.processes p x q) [
    | inl (same, e) ↦
        subst (λ r. IsIn (s.processes r).threads_vec t) (sym same)
          (m t (subst (λ (y : Process). IsIn y.threads_vec t) e i))
    | inr e ↦ subst (λ (y : Process). IsIn y.threads_vec t) e i
  ];
  table = refl;
  idle_p = refl;
}

pub count-Cleaned :
    (s : Scheduler) {u : Scheduler}
    → Cleaned s u
    → {p t : ℕ} {f : List ℕ} → Cleaned s (record u { proc_count = p; thread_count = t; freed = f })
count-Cleaned s c = record {
  kept = count-Kept s c.kept;
  threads = c.threads;
  readies = c.readies;
  members = c.members;
  table = c.table;
  idle_p = c.idle_p;
}

pub kill-Cleaned : (p : ℕ) (s : Scheduler) → Cleaned s (set_proc p killed s)
unfolding set_proc
kill-Cleaned p s = put_proc-Cleaned s p _ (λ e. cc) (λ t i. i) (set_proc-Kept p killed s)
