-- ===== src/Scheduler/Cleaning.antt =====
-- `clean_proc` ends and keeps what the other operations rely on, as long as no process has children.
use mathlib.Core.Path.{subst}
use turb_os.Base.{
  ℕ, zero, suc, ◌+◌, ◌<◌, ◌≡◌, refl, ltb, ◌==◌, ◌&&◌, if◌then◌else◌, if-both, Bool-cases, inl, inr,
  Option, some, ap, arith,
}
use turb_os.Vector.Defs.{at}
use turb_os.Scheduler.Defs.{Scheduler, Process, TaskState, killed, is, set_proc}
use turb_os.Scheduler.Clean.{
  drop_thread, drop_all, drop_killed, kill_children, leave_parent, free_proc, clean_killed,
  clean_other, clean_proc,
}
use turb_os.Scheduler.Kept.{IsIn, IsSound, IsOrphan, Returns, put_same}
use turb_os.Scheduler.Vectors.{remove-all, remove-IsHeaded}
use turb_os.Scheduler.Changes.{put_proc-Kept}
use turb_os.Scheduler.Cleaned.{
  Cleaned, Cleaned-refl, Cleaned-trans, put_proc-Cleaned, count-Cleaned, kill-Cleaned,
}

drop_thread-Cleaned :
    (proc t : ℕ) (s : Scheduler)
    → 0 < (s.processes proc).threads_vec.length
    → Cleaned s (drop_thread proc t s)
unfolding drop_thread
drop_thread-Cleaned proc t s pos =
    let p = s.processes proc in
    let left = λ (o : IsOrphan p). remove-IsHeaded p.threads_vec t pos o.threads in
    count-Cleaned s (
      put_proc-Cleaned s proc _ (λ r. r)
        (λ x (i, lt, e).
          subst (IsIn p.threads_vec) e
            ((remove-all (IsIn p.threads_vec) p.threads_vec t pos (λ j lj. (j, lj, refl))).0 i lt))
        (put_proc-Kept s proc _
          (λ o. record { threads = (left o).0; children = o.children; parent = o.parent })
          (λ o h. (left o).1)))

-- A round of a loop over a vector, which ends behind the last item.
round-Cleaned :
    (s u : Scheduler) (i n : ℕ) → (0 < n → Cleaned s u) → Cleaned s (if ltb i n then u else s)
round-Cleaned s u i n k = elim (Bool-cases (ltb i n)) [
  | inl e ↦ rw e (k (ground arith))
  | inr e ↦ rw e (Cleaned-refl s)
]

drop_all-Cleaned : (left proc i : ℕ) (s : Scheduler) → Cleaned s (drop_all left proc i s)
unfolding drop_all
drop_all-Cleaned zero proc i s = Cleaned-refl s
drop_all-Cleaned (suc left) proc i s =
    let vec = (s.processes proc).threads_vec in
    let t = at vec i in
    round-Cleaned s _ i vec.length (λ pos.
      Cleaned-trans (drop_thread-Cleaned proc t s pos)
        (drop_all-Cleaned left proc (i + 1) (drop_thread proc t s)))

drop_killed-Cleaned : (left proc i : ℕ) (s : Scheduler) → Cleaned s (drop_killed left proc i s)
unfolding drop_killed
drop_killed-Cleaned zero proc i s = Cleaned-refl s
drop_killed-Cleaned (suc left) proc i s =
    let vec = (s.processes proc).threads_vec in
    let t = at vec i in
    round-Cleaned s _ i vec.length (λ pos.
      Cleaned-trans
        (if-both (Cleaned s) (is (s.threads t).state killed) (drop_thread proc t s) s
          (drop_thread-Cleaned proc t s pos) (Cleaned-refl s))
        (drop_killed-Cleaned left proc (i + 1) _))

free_proc-Cleaned :
    (s : Scheduler) (proc : ℕ) {u : Scheduler} → Cleaned s u → Cleaned s (free_proc proc u)
unfolding free_proc
free_proc-Cleaned s proc k = count-Cleaned s k

-- A process without children and parent is cleaned, killed or not.
no_children :
    (clean : ℕ → Scheduler → Option Scheduler) (proc : ℕ) (s : Scheduler)
    → (s.processes proc).children.length ≡ 0
    → kill_children clean (s.processes proc).children.length proc 0 s ≡ some s
unfolding kill_children
no_children clean proc s e = rw (e, kill_children, e) refl

no_parent :
    (clean : ℕ → Scheduler → Option Scheduler) (proc : ℕ) (s : Scheduler)
    → (s.processes proc).parent ≡ 0
    → leave_parent clean proc s ≡ some s
unfolding leave_parent
no_parent clean proc s e = rw (leave_parent, e) refl

clean_killed-Returns :
    (clean : ℕ → Scheduler → Option Scheduler) (proc : ℕ) (s : Scheduler)
    → IsSound s
    → Returns (Cleaned s) (clean_killed clean proc s)
unfolding clean_killed
clean_killed-Returns clean proc s h =
    let s' = drop_all (s.processes proc).threads_vec.length proc 0 s in
    let k = drop_all-Cleaned (s.processes proc).threads_vec.length proc 0 s in
    (
      free_proc proc s',
      rw
          (
            no_children clean proc s (h.processes proc).children,
            no_parent clean proc s' ((k.kept.sound h).processes proc).parent,
          )
          refl,
      free_proc-Cleaned s proc k,
    )

-- A process that is killed is cleaned by one call.
killed-Returns :
    (fuel proc : ℕ) (s : Scheduler)
    → IsSound s
    → (s.processes proc).state ≡ killed
    → Returns (Cleaned s) (clean_proc (suc fuel) proc s)
unfolding clean_proc
killed-Returns fuel proc s h e = rw e (
    if-both (Returns (Cleaned s)) (proc == 0) (some s) _ (s, refl, Cleaned-refl s)
      (clean_killed-Returns (clean_proc fuel) proc s h))

set_proc-state :
    (p : ℕ) (st : TaskState) (s : Scheduler) → ((set_proc p st s).processes p).state ≡ st
unfolding set_proc
set_proc-state p st s =
    ap (λ (x : Process). x.state) (put_same s.processes p (record (s.processes p) { state = st }))

clean_other-Returns :
    (fuel proc : ℕ) (s : Scheduler)
    → IsSound s
    → Returns (Cleaned s) (clean_other (clean_proc (suc fuel)) proc s)
unfolding clean_other
clean_other-Returns fuel proc s h =
    let u = drop_killed (s.processes proc).threads_vec.length proc 0 s in
    let k = drop_killed-Cleaned (s.processes proc).threads_vec.length proc 0 s in
    let p = u.processes proc in
    let k' = Cleaned-trans k (kill-Cleaned proc u) in
    let gone =
      killed-Returns fuel proc (set_proc proc killed u) (k'.kept.sound h)
        (set_proc-state proc killed u) in
    if-both (Returns (Cleaned s)) ((p.children.length == 0) && (p.threads_vec.length == 0)) _
      (some u) (gone.0, gone.1, Cleaned-trans k' gone.2) (u, refl, k)

-- Two calls are enough: one that finds the process without threads, and one that frees it.
pub clean_proc-Returns :
    (fuel proc : ℕ) (s : Scheduler)
    → IsSound s
    → Returns (Cleaned s) (clean_proc (suc (suc fuel)) proc s)
unfolding clean_proc
clean_proc-Returns fuel proc s h =
    let R = Returns (Cleaned s) in
    if-both R (proc == 0) (some s) _ (s, refl, Cleaned-refl s)
      (if-both R (is (s.processes proc).state killed) _ _
        (clean_killed-Returns (clean_proc (suc fuel)) proc s h) (clean_other-Returns fuel proc s h))
