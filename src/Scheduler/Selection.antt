-- ===== src/Scheduler/Selection.antt =====
-- What the search of `switchTask` leads to, from the state in which it is called.
use mathlib.Core.Path.{subst}
use turb_os.Base.{
  ℕ, suc, ◌≡◌, ◌≢◌, ◌⊎◌, inl, inr, refl, sym, ap, ◌∙◌, true, false, ◌==◌, ◌||◌, if-split, Option,
  some, none, arith,
}
use turb_os.Scheduler.Defs.{Scheduler, Registers, Process, ready, running}
use turb_os.Scheduler.Switch.{save, choose}
use turb_os.Scheduler.Kept.{IsIn, IsHeadedProc, IsSound, Kept, Kept-refl, Kept-trans, Returns}
use turb_os.Scheduler.Changes.{rest-Kept}
use turb_os.Scheduler.Choice.{IsQuiet, Outcome, from_none-Returns, from_current-Returns}
use turb_os.Scheduler.Saving.{
  IsCurrent, save-Kept, save-IsQuiet, save-ready, save-current, save-processes,
}

-- What `switchTask` has made current when it sets the thread running: the first thread of the idle process,
-- or one of the threads of a process that was ready, which was ready or ran.
pub record Prepared (Elsewhere : ℕ → Type 0) (s v : Scheduler) : Type 0 where
  pub quiet : IsQuiet Elsewhere v
  pub sound : IsSound v
  pub heads : (p : ℕ) → IsHeadedProc (s.processes p) → IsHeadedProc (v.processes p)
  pub thread_lock : v.thread_lock ≡ s.thread_lock
  pub proc_lock : v.proc_lock ≡ s.proc_lock
  pub process : v.current_process ≢ 0
  pub thread : v.current_thread ≢ 0
  pub source :
      ((v.current_process ≡ v.idle_p)
        × (v.current_thread ≡ (v.processes v.idle_p).threads_vec.items 0))
      ⊎ (((s.processes v.current_process).state ≡ ready)
          × IsIn (s.processes v.current_process).threads_vec v.current_thread
          × (((s.threads v.current_thread).state ≡ ready)
              ⊎ ((s.threads v.current_thread).state ≡ running)))

-- With a timeslice all is prepared; with none, no thread runs here and all is kept.
abbrev pub Selected : (ℕ → Type 0) → Scheduler → Scheduler × Option ℕ → Type 0
Selected Elsewhere s (u, some ms) = Prepared Elsewhere s u
Selected Elsewhere s (u, none) = Kept s u × IsQuiet Elsewhere u

-- The search starts from `b`, where the processes are the same, and only such threads as were ready or ran.
Outcome-Selected :
    {Elsewhere : ℕ → Type 0} (s b : Scheduler) (r : Scheduler × Option ℕ)
    → IsSound s
    → Kept s b
    → IsQuiet Elsewhere b
    → b.processes ≡ s.processes
    → ((t : ℕ)
        → (b.threads t).state ≡ ready
        → ((s.threads t).state ≡ ready) ⊎ ((s.threads t).state ≡ running))
    → Outcome Elsewhere b r
    → Selected Elsewhere s r
Outcome-Selected s b (u, none) h k quiet same threads o =
    (Kept-trans k o, λ t r. quiet t (o.runs t r))
Outcome-Selected s b (u, some ms) h k quiet same threads o = record {
  quiet = o.quiet;
  sound = o.sound;
  heads = λ p x. o.heads p (k.heads h p x);
  thread_lock = o.thread_lock ∙ k.thread_lock;
  proc_lock = o.proc_lock ∙ k.proc_lock;
  process = o.process.0;
  thread = o.thread.0;
  source = inr (
    ap (λ (f : ℕ → Process). (f u.current_process).state) (sym same) ∙ o.process.1,
    subst (λ (f : ℕ → Process). IsIn (f u.current_process).threads_vec u.current_thread) same
        o.member,
    threads _ o.thread.1,
  );
}

none_current : (p t : ℕ) → ((p == 0) || (t == 0)) ≡ true → p ≢ 0 → t ≢ 0 → ⊥
none_current p t e a b = ground arith

some_current : (p t : ℕ) → ((p == 0) || (t == 0)) ≡ false → p ≢ 0
some_current p t e z = ground arith

pub choose-Returns :
    (Elsewhere : ℕ → Type 0) (fuel : ℕ) (regs : Registers) (s : Scheduler)
    → IsSound s
    → ((t : ℕ) → (s.threads t).state ≡ running → IsCurrent s t ⊎ Elsewhere t)
    → Returns (Selected Elsewhere s) (choose (suc (suc fuel)) regs s)
unfolding choose
choose-Returns Elsewhere fuel regs s h runs =
    let s1 = record s { interrupts = true } in
    let on : Kept s s1 = rest-Kept (Kept-refl s) in
    let b = save regs s1 in
    let saved = Kept-trans on (save-Kept regs s1) in
    if-split (Returns (Selected Elsewhere s)) ((s.current_process == 0) || (s.current_thread == 0))
      _ _
      (λ e.
        let quiet : IsQuiet Elsewhere s1 = λ t r. elim (runs t r) [
          | inl (_, np, nt) ↦ absurd (none_current s.current_process s.current_thread e np nt)
          | inr other ↦ other
        ] in
        let (r, same, o) =
          from_none-Returns Elsewhere fuel s.proc_table.length 0 s1 (on.sound h) quiet
            (omega arith) in
        (r, same, Outcome-Selected s s1 r h on quiet refl (λ t x. inl x) o))
      (λ e.
        let quiet =
          save-IsQuiet Elsewhere regs s1
            (λ t r. elim (runs t r) [ inl here ↦ inl here.0 | inr other ↦ inr other ]) in
        let (r, same, o) = from_current-Returns Elsewhere fuel b (saved.sound h) quiet (λ z.
          some_current s.current_process s.current_thread e (sym (save-current regs s1) ∙ z)) in
        (
          r,
          same,
          Outcome-Selected s b r h saved quiet (save-processes regs s1) (save-ready regs s1) o,
        ))
