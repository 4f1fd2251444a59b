-- ===== src/Scheduler/Kept.antt =====
-- What every operation but the switch keeps.
use mathlib.Core.Path.{subst}
use turb_os.Base.{
  ap, ◌⊎◌, ℕ, ◌<◌, ◌≡◌, ◌≢◌, refl, true, ◌==◌, Option, some, Bool-cases, inl, inr, arith, ◌∙◌, sym,
}
use turb_os.Vector.Defs.{TurboVector}
use turb_os.Scheduler.Defs.{Scheduler, Process, TaskState, running, put, ◌>>=◌}

-- No item of the vector is null.
abbrev pub IsFull : TurboVector ℕ → Type 0
IsFull v = (i : ℕ) → i < v.length → v.items i ≢ 0

-- The item stands in the vector.
abbrev pub IsIn : TurboVector ℕ → ℕ → Type 0
IsIn v t = (i : ℕ) × (i < v.length) × (v.items i ≡ t)

-- A process has no null thread, no child and no parent.
pub record IsOrphan (p : Process) : Type 0 where
  pub threads : IsFull p.threads_vec
  pub children : p.children.length ≡ 0
  pub parent : p.parent ≡ 0

-- The tables hold no null pointer, and the idle process has a thread at its first place.
pub record IsSound (s : Scheduler) : Type 0 where
  pub table : IsFull s.proc_table
  pub processes : (p : ℕ) → IsOrphan (s.processes p)
  pub idle : s.idle_p ≢ 0 → (s.processes s.idle_p).threads_vec.items 0 ≢ 0

-- The first place of the process's vector of threads is not null.
abbrev pub IsHeadedProc : Process → Type 0
IsHeadedProc p = p.threads_vec.items 0 ≢ 0

-- No lock has been taken or given back, the same thread is current, no other thread runs than did, and a process
-- that had a first thread has one.
pub record Kept (s s' : Scheduler) : Type 0 where
  pub runs : (t : ℕ) → (s'.threads t).state ≡ running → (s.threads t).state ≡ running
  pub sound : IsSound s → IsSound s'
  pub heads : IsSound s → (p : ℕ) → IsHeadedProc (s.processes p) → IsHeadedProc (s'.processes p)
  pub current_thread : s'.current_thread ≡ s.current_thread
  pub current_process : s'.current_process ≡ s.current_process
  pub thread_lock : s'.thread_lock ≡ s.thread_lock
  pub sched_lock : s'.sched_lock ≡ s.sched_lock
  pub proc_lock : s'.proc_lock ≡ s.proc_lock

pub Kept-refl : (s : Scheduler) → Kept s s
Kept-refl s = record {
  runs = λ t h. h;
  sound = λ h. h;
  heads = λ h p x. x;
  current_thread = refl;
  current_process = refl;
  thread_lock = refl;
  sched_lock = refl;
  proc_lock = refl;
}

pub Kept-trans : {s t u : Scheduler} → Kept s t → Kept t u → Kept s u
Kept-trans a b = record {
  runs = λ x h. a.runs x (b.runs x h);
  sound = λ h. b.sound (a.sound h);
  heads = λ h p x. b.heads (a.sound h) p (a.heads h p x);
  current_thread = b.current_thread ∙ a.current_thread;
  current_process = b.current_process ∙ a.current_process;
  thread_lock = b.thread_lock ∙ a.thread_lock;
  sched_lock = b.sched_lock ∙ a.sched_lock;
  proc_lock = b.proc_lock ∙ a.proc_lock;
}

-- The computation returns a value with the property.
abbrev pub Returns : {A : Type 0} → (A → Type 0) → Option A → Type 0
Returns {A} P o = (a : A) × (o ≡ some a) × P a

pub Returns->>= :
    {A B : Type 0} (P : A → Type 0) (Q : B → Type 0) (m : Option A) (f : A → Option B)
    → Returns P m
    → ((a : A) → P a → Returns Q (f a))
    → Returns Q (m >>= f)
Returns->>= P Q m f (a, e, p) next = rw e (next a p)

-- What stands at an address after a store.
pub put-cases :
    {A : Type 0} (items : ℕ → A) (p : ℕ) (x : A) (q : ℕ)
    → ((q ≡ p) × (put items p x q ≡ x)) ⊎ (put items p x q ≡ items q)
put-cases items p x q = elim (Bool-cases (q == p)) [
  | inl e ↦ inl (ground arith, rw e refl)
  | inr e ↦ inr (rw e refl)
]

pub put_same : {A : Type 0} (items : ℕ → A) (p : ℕ) (x : A) → put items p x p ≡ x
put_same items p x = let e : (p == p) ≡ true = ground arith in rw e refl

-- A store keeps a property at all its addresses if the new value has it.
pub put-all :
    {A : Type 0} (P : A → Type 0) (items : ℕ → A) (p : ℕ) (x : A) (q : ℕ)
    → P x
    → P (items q)
    → P (put items p x q)
put-all P items p x q px pq = elim (put-cases items p x q) [
  | inl (_, e) ↦ subst P (sym e) px
  | inr e ↦ subst P (sym e) pq
]

-- No more of the stored things are in a state than were, if the new value is not.
pub put-state :
    {A : Type 0} (state : A → TaskState) (st : TaskState) (items : ℕ → A) (p : ℕ) (x : A)
    → (state x ≡ st → state (items p) ≡ st)
    → (q : ℕ) → state (put items p x q) ≡ st
    → state (items q) ≡ st
put-state state st items p x h q r = elim (put-cases items p x q) [
  | inl (same, e) ↦ ap (λ q. state (items q)) same ∙ h (ap state (sym e) ∙ r)
  | inr e ↦ ap state (sym e) ∙ r
]

-- A process is replaced by one that has a first thread if it had.
pub put-heads :
    (s : Scheduler) (p : ℕ) (x : Process)
    → (IsHeadedProc (s.processes p) → IsHeadedProc x)
    → (q : ℕ) → IsHeadedProc (s.processes q)
    → IsHeadedProc (put s.processes p x q)
put-heads s p x head q h = elim (put-cases s.processes p x q) [
  | inl (same, e) ↦
      subst IsHeadedProc (sym e) (head (subst (λ r. IsHeadedProc (s.processes r)) same h))
  | inr e ↦ subst IsHeadedProc (sym e) h
]

-- A process is replaced by one that keeps the tables sound.
pub put-IsSound :
    (s : Scheduler) (p : ℕ) (x : Process)
    → IsOrphan x
    → (IsHeadedProc (s.processes p) → IsHeadedProc x)
    → IsSound s
    → IsSound (record s { processes = put s.processes p x })
put-IsSound s p x o head h = record {
  table = h.table;
  processes = λ q. put-all IsOrphan s.processes p x q o (h.processes q);
  idle = λ nz. put-heads s p x head s.idle_p (h.idle nz);
}
