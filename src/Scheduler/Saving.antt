-- ===== src/Scheduler/Saving.antt =====
-- The states that the operations keep, and what `switchTask` saves of the interrupted thread.
use mathlib.Core.Path.{subst}
use turb_os.Base.{ℕ, ◌≡◌, ◌≢◌, ◌⊎◌, inl, inr, refl, sym, ap, ◌∙◌, false, if-both, if-split}
use turb_os.Scheduler.Defs.{Scheduler, Registers, Thread, ready, running, is, put, set_thread}
use turb_os.Scheduler.Switch.{save}
use turb_os.Scheduler.Kept.{IsSound, Kept, Kept-trans, put-cases, put-state, put_same}
use turb_os.Scheduler.Changes.{put_thread-Kept, set_thread-Kept}
use turb_os.Scheduler.Making.{ready-ne-running}
use turb_os.Scheduler.Search.{is-running, is-running_true}
use turb_os.Scheduler.Choice.{IsQuiet}

-- The thread is the current one, of a current process.
abbrev pub IsCurrent : Scheduler → ℕ → Type 0
IsCurrent s t = (t ≡ s.current_thread) × (s.current_process ≢ 0) × (s.current_thread ≢ 0)

-- The locks are free, the tables are sound, and only the current thread of a current process runs, beside those
-- that run elsewhere.
pub record IsValid (Elsewhere : ℕ → Type 0) (s : Scheduler) : Type 0 where
  pub sound : IsSound s
  pub thread_lock : s.thread_lock ≡ false
  pub sched_lock : s.sched_lock ≡ false
  pub proc_lock : s.proc_lock ≡ false
  pub runs : (t : ℕ) → (s.threads t).state ≡ running → IsCurrent s t ⊎ Elsewhere t

pub Kept-IsValid :
    {Elsewhere : ℕ → Type 0} {s u : Scheduler}
    → Kept s u
    → IsValid Elsewhere s
    → IsValid Elsewhere u
Kept-IsValid k v = record {
  sound = k.sound v.sound;
  thread_lock = k.thread_lock ∙ v.thread_lock;
  sched_lock = k.sched_lock ∙ v.sched_lock;
  proc_lock = k.proc_lock ∙ v.proc_lock;
  runs = λ t r. elim (v.runs t (k.runs t r)) [
    | inl (a, b, c) ↦ inl (
      a ∙ sym k.current_thread,
      λ z. b (sym k.current_process ∙ z),
      λ z. c (sym k.current_thread ∙ z),
    )
    | inr e ↦ inr e
  ];
}

save_regs-Kept :
    (regs : Registers) (s : Scheduler)
    → Kept s (record s {
      threads =
          put s.threads s.current_thread
            (record (s.threads s.current_thread) { thread_regs = regs });
    })
save_regs-Kept regs s = put_thread-Kept s s.current_thread _ (λ r. r)

pub save-Kept : (regs : Registers) (s : Scheduler) → Kept s (save regs s)
unfolding save
save-Kept regs s =
    let k = save_regs-Kept regs s in
    if-both (Kept s) (is _ running) _ _
      (Kept-trans k (set_thread-Kept s.current_thread ready _ ready-ne-running)) k

module _ (Elsewhere : ℕ → Type 0) where
  -- Setting the only thread that runs here to ready leaves none.
  set_ready-IsQuiet :
      (s : Scheduler) (c : ℕ)
      → ((t : ℕ) → (s.threads t).state ≡ running → (t ≡ c) ⊎ Elsewhere t)
      → IsQuiet Elsewhere (set_thread c ready s)
  unfolding set_thread
  set_ready-IsQuiet s c only t r =
      let x = record (s.threads c) { state = ready } in
      let state = λ (y : Thread). y.state in
      let was = put-state state running s.threads c x (λ e. absurd (ready-ne-running e)) t r in
      elim (only t was) [
        | inl same ↦
            let here : (put s.threads c x c).state ≡ running =
              subst (λ q. (put s.threads c x q).state ≡ running) same r in
            absurd (ready-ne-running (sym (ap state (put_same s.threads c x)) ∙ here))
        | inr e ↦ e
      ]

  -- After `save` no thread runs here.
  pub save-IsQuiet :
      (regs : Registers) (s : Scheduler)
      → ((t : ℕ) → (s.threads t).state ≡ running → (t ≡ s.current_thread) ⊎ Elsewhere t)
      → IsQuiet Elsewhere (save regs s)
  unfolding save
  save-IsQuiet regs s only =
      let c = s.current_thread in
      let x = record (s.threads c) { thread_regs = regs } in
      let kept = record s { threads = put s.threads c x } in
      let k = save_regs-Kept regs s in
      if-split (IsQuiet Elsewhere) (is (kept.threads c).state running) (set_thread c ready kept)
        kept (λ _. set_ready-IsQuiet kept c (λ t r. only t (k.runs t r)))
        (λ e t r. elim (only t (k.runs t r)) [
          | inl same ↦
              absurd (is-running _ e (subst (λ q. (kept.threads q).state ≡ running) same r))
          | inr other ↦ other
        ])

-- A thread that is ready then was ready or ran before.
pub save-ready :
    (regs : Registers) (s : Scheduler) (t : ℕ)
    → ((save regs s).threads t).state ≡ ready
    → ((s.threads t).state ≡ ready) ⊎ ((s.threads t).state ≡ running)
unfolding save set_thread
save-ready regs s t =
    let c = s.current_thread in
    let x = record (s.threads c) { thread_regs = regs } in
    let kept = record s { threads = put s.threads c x } in
    let state = λ (y : Thread). y.state in
    let before = put-state state ready s.threads c x (λ r. r) t in
    if-split
      (λ u.
        (u.threads t).state ≡ ready
        → ((s.threads t).state ≡ ready) ⊎ ((s.threads t).state ≡ running))
      (is (kept.threads c).state running) (set_thread c ready kept) kept
      (λ e r. elim (put-cases kept.threads c (record (kept.threads c) { state = ready }) t) [
        | inl (same, _) ↦ inr (
            put-state state running s.threads c x (λ h. h) t
              (subst (λ q. (kept.threads q).state ≡ running) (sym same) (is-running_true _ e)))
        | inr other ↦ inl (before (sym (ap state other) ∙ r))
      ])
      (λ e r. inl (before r))

pub save-current :
    (regs : Registers) (s : Scheduler) → (save regs s).current_process ≡ s.current_process
unfolding save set_thread
save-current regs s =
    if-both (λ (u : Scheduler). u.current_process ≡ s.current_process) (is _ running) _ _ refl refl

pub save-processes : (regs : Registers) (s : Scheduler) → (save regs s).processes ≡ s.processes
unfolding save set_thread
save-processes regs s =
    if-both (λ (u : Scheduler). u.processes ≡ s.processes) (is _ running) _ _ refl refl
