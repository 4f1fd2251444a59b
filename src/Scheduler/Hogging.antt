-- ===== src/Scheduler/Hogging.antt =====
-- `find` answers 0 for every item, so the search of `switchTask` goes on behind the first thread of the
-- process, whichever thread was interrupted.
use mathlib.Core.Bool.{true≢false}
use turb_os.Base.{
  ℕ, zero, suc, ◌-◌, ◌<◌, ◌≡◌, ◌≢◌, refl, sym, ap, ◌∙◌, true, false, ◌==◌, ◌||◌, if_true, if_false,
  if-split, Option, some, List, [], ◌∷◌, arith,
}
use turb_os.Vector.Defs.{TurboVector, at, find, find_loop}
use turb_os.Scheduler.Defs.{
  Scheduler, Registers, Thread, ready, running, is, code, put, set_thread, yield_for, ◌>>=◌,
}
use turb_os.Scheduler.Create.{Grants}
use turb_os.Scheduler.Switch.{
  own_thread, take_thread, from_current, save, choose, resume, switch_task,
}
use turb_os.Scheduler.Kept.{Returns, put_same}
use turb_os.Scheduler.Switching.{under_sched}

-- The second thread of a ready process runs.
pub record IsHogged (s : Scheduler) : Type 0 where
  pub is_init : s.is_init ≡ true
  pub sched_lock : s.sched_lock ≡ false
  pub process : s.current_process ≢ 0
  pub thread : s.current_thread ≢ 0
  pub process_ready : (s.processes s.current_process).state ≡ ready
  pub length : 1 < (s.processes s.current_process).threads_vec.length
  pub second : at (s.processes s.current_process).threads_vec 1 ≡ s.current_thread
  pub runs : (s.threads s.current_thread).state ≡ running

own_thread-first :
    (s : Scheduler) (proc t : ℕ) (left : ℕ)
    → (s.processes proc).state ≡ ready
    → (s.threads (at (s.processes proc).threads_vec t)).state ≡ ready
    → 0 < left
    → own_thread s proc left t ≡ some (at (s.processes proc).threads_vec t)
unfolding own_thread is code
own_thread-first s proc t zero p r pos = absurd (omega arith)
own_thread-first s proc t (suc left) p r pos = rw (p, r) refl

find-zero : {A : Type 0} (v : TurboVector A) (x : A) → 0 < v.length → find v x ≡ 0
unfolding find find_loop
find-zero v x pos = go v.length pos
  where
    go : (n : ℕ) → 0 < n → find_loop n 0 ≡ 0
    go zero pos = absurd (omega arith)
    go (suc n) pos = refl

from_current-second :
    (fuel : ℕ) (s : Scheduler)
    → (let own = (s.processes s.current_process).threads_vec in
        1 < own.length
        → (s.processes s.current_process).state ≡ ready
        → (s.threads (at own 1)).state ≡ ready
        → from_current fuel s ≡ some (take_thread s.current_process (at own 1) s))
unfolding from_current
from_current-second fuel s long p r =
    let own = (s.processes s.current_process).threads_vec in
    let z = find-zero own s.current_thread (omega arith) in
    rw (from_current, z, own_thread-first s s.current_process 1 (own.length - 1) p r (omega arith))
      refl

both_set : (p t : ℕ) → p ≢ 0 → t ≢ 0 → ((p == 0) || (t == 0)) ≡ false
both_set p t a b = ground arith

-- What `save` makes of a thread that runs.
saved : Registers → Thread → Thread
saved regs x = record x { thread_regs = regs; state = ready }

save-running :
    (regs : Registers) (s : Scheduler)
    → (s.threads s.current_thread).state ≡ running
    → (threads : ℕ → Thread) × (save regs s ≡ record s { threads = threads })
      × (threads s.current_thread ≡ saved regs (s.threads s.current_thread))
unfolding save saved set_thread is code
save-running regs s r =
    let c = s.current_thread in
    let x = record (s.threads c) { thread_regs = regs } in
    let kept = put s.threads c x in
    let same : kept c ≡ x = put_same s.threads c x in
    let e : is (kept c).state running ≡ true = rw same (rw r refl) in
    (_, if_true _ _ _ e, put_same kept c _ ∙ ap (λ (y : Thread). record y { state = ready }) same)

bind-known :
    {A B : Type 0} (Q : B → Type 0) (m : Option A) (f : A → Option B) (a : A)
    → m ≡ some a
    → Returns Q (f a)
    → Returns Q (m >>= f)
bind-known Q m f a e q = rw e q

-- `resume` of a hogging thread leaves it in its place.
resume-IsHogged :
    (ms : ℕ) (u : Scheduler) (regs : Registers)
    → u.is_init ≡ true
    → u.current_process ≢ 0
    → u.current_thread ≢ 0
    → (u.processes u.current_process).state ≡ ready
    → 1 < (u.processes u.current_process).threads_vec.length
    → at (u.processes u.current_process).threads_vec 1 ≡ u.current_thread
    → (u.threads u.current_thread).thread_regs ≡ regs
    → IsHogged (resume ms u).0
      × ((resume ms u).0.current_thread ≡ u.current_thread)
      × ((resume ms u).1 ≡ regs)
unfolding resume set_thread yield_for
resume-IsHogged ms u regs i p t r l e same =
    let c = u.current_thread in
    let x = record (u.threads c) { state = running } in
    let put_x = put_same u.threads c x in
    (
      record {
        is_init = i;
        sched_lock = refl;
        process = p;
        thread = t;
        process_ready = r;
        length = l;
        second = e;
        runs = ap (λ (y : Thread). y.state) put_x;
      },
      refl,
      ap (λ (y : Thread). y.thread_regs) put_x ∙ same,
    )

-- A tick of the timer while the second thread of a ready process runs gives the processor to that thread
-- again, with the registers that it was interrupted with: no other thread gets a turn, ready or not.
pub switch_task-IsHogged :
    (fuel : ℕ) (g : Grants) (idle : ℕ) (regs : Registers) (s : Scheduler)
    → IsHogged s
    → Returns
        (λ r. IsHogged r.0 × (r.0.current_thread ≡ s.current_thread) × (r.1 ≡ regs))
        (switch_task fuel g idle regs s)
unfolding switch_task choose take_thread saved
switch_task-IsHogged fuel g idle regs s h =
    let Q = λ (r : Scheduler × Registers).
      IsHogged r.0 × (r.0.current_thread ≡ s.current_thread) × (r.1 ≡ regs) in
    let s1 = record s { sched_lock = true; interrupts = true } in
    let (threads, same, at_c) = save-running regs s1 h.runs in
    let b = record s1 { threads = threads } in
    let now : (threads (at (s.processes s.current_process).threads_vec 1)).state ≡ ready =
      ap (λ q. (threads q).state) h.second ∙ ap (λ (y : Thread). y.state) at_c in
    let found = from_current-second fuel b h.length h.process_ready now in
    let chosen =
      if_false _ _ _ (both_set s.current_process s.current_thread h.process h.thread)
      ∙ ap (from_current fuel) same
      ∙ found in
    let second = at (s.processes s.current_process).threads_vec 1 in
    let res =
      resume-IsHogged (threads second).slice_of_time (record b { current_thread = second }) regs
        h.is_init h.process (λ z. h.thread (sym h.second ∙ z)) h.process_ready h.length refl
        (ap (λ q. (threads q).thread_regs) h.second ∙ ap (λ (y : Thread). y.thread_regs) at_c) in
    if-split (Returns Q) s.is_init _ (some (s, regs))
      (λ _. under_sched Q s _ h.sched_lock (
        bind-known Q (choose fuel regs (record s { sched_lock = true })) _ _ chosen
          (_, refl, (res.0, res.1 ∙ h.second, res.2))))
      (λ e. absurd (true≢false (sym h.is_init ∙ e)))

-- Ticks of the timer one after the other, each with the registers that it interrupts.
abbrev pub ticks : ℕ → Grants → ℕ → List Registers → Scheduler → Option Scheduler
ticks fuel g idle [] s = some s
ticks fuel g idle (regs ∷ later) s =
    switch_task fuel g idle regs s >>= λ r. ticks fuel g idle later r.0

-- Once the second thread of a ready process runs, it has the processor after any number of ticks, whatever
-- other threads are ready, until it stops by itself.
pub hogs_forever :
    (fuel : ℕ) (g : Grants) (idle : ℕ) (frames : List Registers) (s : Scheduler)
    → IsHogged s
    → Returns
        (λ u.
          (u.current_thread ≡ s.current_thread) × ((u.threads u.current_thread).state ≡ running))
        (ticks fuel g idle frames s)
hogs_forever fuel g idle [] s h = (s, refl, (refl, h.runs))
hogs_forever fuel g idle (regs ∷ later) s h =
    let (r, e, (hogged, same, _)) = switch_task-IsHogged fuel g idle regs s h in
    let (u, e', (same', runs)) = hogs_forever fuel g idle later r.0 hogged in
    (u, rw e e', (same' ∙ same, runs))
