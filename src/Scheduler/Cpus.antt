-- ===== src/Scheduler/Cpus.antt =====
-- The processors of smp.hpp, which share threads, processes, tables and locks. An operation runs on one of them, and
-- `thisCPU->` in it is the record of that one.
use mathlib.Core.Path.{subst}
use turb_os.Base.{ℕ, ◌≡◌, ◌≢◌, ◌<◌, inl, inr, sym, false, ◌==◌, Bool-cases, arith}
use turb_os.Scheduler.Defs.{Scheduler, running, put}
use turb_os.Scheduler.Kept.{IsFull, IsOrphan, IsHeadedProc, put-cases, put_same}
use turb_os.Scheduler.Saving.{IsValid}

-- the fields of `cpu_t` that the scheduler uses
pub record Cpu : Type 0 where
  pub current_thread : ℕ
  pub current_process : ℕ
  pub idle_p : ℕ

-- What the processors share, and `smp::cpus`. The fields of one processor in `shared` are not looked at.
pub record Smp : Type 0 where
  pub shared : Scheduler
  pub cpus : ℕ → Cpu

-- The state as the processor `c` sees it.
abbrev pub on_cpu : ℕ → Smp → Scheduler
on_cpu c m = record m.shared {
  current_thread = (m.cpus c).current_thread;
  current_process = (m.cpus c).current_process;
  idle_p = (m.cpus c).idle_p;
}

-- The state after an operation on the processor `c`.
abbrev pub after_cpu : ℕ → Smp → Scheduler → Smp
after_cpu c m u = record {
  shared = u;
  cpus = put m.cpus c (record {
    current_thread = u.current_thread;
    current_process = u.current_process;
    idle_p = u.idle_p;
  });
}

-- The thread is the current one of the processor `c`, of a current process.
abbrev pub IsOn : Smp → ℕ → ℕ → Type 0
IsOn m c t =
    (t ≡ (m.cpus c).current_thread)
    × ((m.cpus c).current_process ≢ 0)
    × ((m.cpus c).current_thread ≢ 0)

-- It is the current one of another of the `n` processors than `c`.
abbrev pub Elsewhere : ℕ → ℕ → Smp → ℕ → Type 0
Elsewhere n c m t = (d : ℕ) × (d < n) × (d ≢ c) × IsOn m d t

-- The locks are free, the tables are sound, also for the idle process of each processor, and every thread that
-- runs is the current one of one of the `n` processors.
pub record IsSmpValid (n : ℕ) (m : Smp) : Type 0 where
  pub table : IsFull m.shared.proc_table
  pub processes : (p : ℕ) → IsOrphan (m.shared.processes p)
  pub idle : (c : ℕ) → (m.cpus c).idle_p ≢ 0 → IsHeadedProc (m.shared.processes (m.cpus c).idle_p)
  pub thread_lock : m.shared.thread_lock ≡ false
  pub sched_lock : m.shared.sched_lock ≡ false
  pub proc_lock : m.shared.proc_lock ≡ false
  pub runs : (t : ℕ) → (m.shared.threads t).state ≡ running → (c : ℕ) × (c < n) × IsOn m c t

pub on_cpu-IsValid : (n c : ℕ) (m : Smp) → IsSmpValid n m → IsValid (Elsewhere n c m) (on_cpu c m)
on_cpu-IsValid n c m v = record {
  sound = record { table = v.table; processes = v.processes; idle = v.idle c };
  thread_lock = v.thread_lock;
  sched_lock = v.sched_lock;
  proc_lock = v.proc_lock;
  runs = λ t r.
      let (d, lt, on) = v.runs t r in
      elim (Bool-cases (d == c)) [
        | inl e ↦ let same : d ≡ c = ground arith in inl (subst (λ x. IsOn m x t) same on)
        | inr e ↦ inr (d, lt, (λ x. ground arith), on)
      ];
}

pub after_cpu-IsSmpValid :
    (n c : ℕ) (m : Smp) (u : Scheduler)
    → c < n
    → IsSmpValid n m
    → IsValid (Elsewhere n c m) u
    → ((p : ℕ) → IsHeadedProc (m.shared.processes p) → IsHeadedProc (u.processes p))
    → IsSmpValid n (after_cpu c m u)
after_cpu-IsSmpValid n c m u lt v w heads =
    let cpu : Cpu = record {
      current_thread = u.current_thread;
      current_process = u.current_process;
      idle_p = u.idle_p;
    } in
    let HasIdle = λ (x : Cpu). x.idle_p ≢ 0 → IsHeadedProc (u.processes x.idle_p) in
    let Holds = λ (t : ℕ) (x : Cpu).
      (t ≡ x.current_thread) × (x.current_process ≢ 0) × (x.current_thread ≢ 0) in
    record {
      table = w.sound.table;
      processes = w.sound.processes;
      idle = λ d. elim (put-cases m.cpus c cpu d) [
        | inl (_, e) ↦ subst HasIdle (sym e) w.sound.idle
        | inr e ↦ subst HasIdle (sym e) (λ nz. heads (m.cpus d).idle_p (v.idle d nz))
      ];
      thread_lock = w.thread_lock;
      sched_lock = w.sched_lock;
      proc_lock = w.proc_lock;
      runs = λ t r. elim (w.runs t r) [
        | inl here ↦ (c, lt, subst (Holds t) (sym (put_same m.cpus c cpu)) here)
        | inr (d, ld, ne, on) ↦ elim (put-cases m.cpus c cpu d) [
          | inl (same, _) ↦ absurd (ne same)
          | inr e ↦ (d, ld, subst (Holds t) (sym e) on)
        ]
      ];
    }
