-- ===== src/Scheduler/Clean.antt =====
-- `clean_proc`. The loops over a vector have as many rounds as it has items at first; they end by then
-- since it never grows, and one that has not ended is `none`, as is a recursion deeper than the fuel.
use turb_os.Base.{ℕ, zero, suc, ◌+◌, ltb, ◌==◌, if◌then◌else◌, ◌&&◌, Option, none, some, ◌∷◌}
use turb_os.Base.Words.{sub64}
use turb_os.Vector.Defs.{remove, at, find}
use turb_os.Scheduler.Defs.{Scheduler, killed, is, put, set_proc, ◌>>=◌}

-- The rounds of both loops over `threadsVec`: the thread leaves the vector and its memory is freed.
unfoldable pub drop_thread : ℕ → ℕ → Scheduler → Scheduler
drop_thread proc t s =
    let p = s.processes proc in
    record s {
      processes =
          put s.processes proc
            (record p { threads_vec = remove p.threads_vec (find p.threads_vec t) });
      freed = t ∷ (s.threads t).thread_stack ∷ s.freed;
      thread_count = sub64 s.thread_count 1;
    }

-- the loop for a process that is killed
unfoldable pub drop_all : ℕ → ℕ → ℕ → Scheduler → Scheduler
drop_all zero proc i s = s
drop_all (suc left) proc i s =
    let vec = (s.processes proc).threads_vec in
    let rest = drop_all left proc (i + 1) (drop_thread proc (at vec i) s) in
    if ltb i vec.length then rest else s

-- the loop for any other process, for its killed threads alone
unfoldable pub drop_killed : ℕ → ℕ → ℕ → Scheduler → Scheduler
unfolding is
drop_killed zero proc i s = s
drop_killed (suc left) proc i s =
    let vec = (s.processes proc).threads_vec in
    let t = at vec i in
    let next = if is (s.threads t).state killed then drop_thread proc t s else s in
    let rest = drop_killed left proc (i + 1) next in if ltb i vec.length then rest else s

-- the loop over the children, with the call of `clean_proc`
unfoldable pub kill_children :
    (ℕ → Scheduler → Option Scheduler) → ℕ → ℕ → ℕ → Scheduler → Option Scheduler
unfolding set_proc
kill_children clean zero proc i s =
    if ltb i (s.processes proc).children.length then none else some s
kill_children clean (suc left) proc i s =
    let vec = (s.processes proc).children in
    let child = at vec i in
    let rest = clean child (set_proc child killed s) >>= kill_children clean left proc (i + 1) in
    if ltb i vec.length then rest else some s

-- `if(parentproc != nullptr){ … }`
unfoldable pub leave_parent : (ℕ → Scheduler → Option Scheduler) → ℕ → Scheduler → Option Scheduler
unfolding set_proc
leave_parent clean proc s =
    let parent = (s.processes proc).parent in
    if parent == 0
    then some s
    else (let p = s.processes parent in
        let left = record s {
          processes =
              put s.processes parent
                (record p { children = remove p.children (find p.children proc) });
        } in
        if ((left.processes parent).children.length == 0)
          && ((left.processes proc).threads_vec.length == 0)
        then clean parent (set_proc parent killed left)
        else some left)

-- `free(proc->pagemap); free(proc); proc_count--;`
unfoldable pub free_proc : ℕ → Scheduler → Scheduler
free_proc proc s = record s {
  freed = proc ∷ (s.processes proc).pagemap ∷ s.freed;
  proc_count = sub64 s.proc_count 1;
}

unfoldable pub clean_killed : (ℕ → Scheduler → Option Scheduler) → ℕ → Scheduler → Option Scheduler
clean_killed clean proc s = kill_children clean (s.processes proc).children.length proc 0 s >>= λ s.
    leave_parent clean proc (drop_all (s.processes proc).threads_vec.length proc 0 s) >>= λ s.
    some (free_proc proc s)

unfoldable pub clean_other : (ℕ → Scheduler → Option Scheduler) → ℕ → Scheduler → Option Scheduler
unfolding set_proc
clean_other clean proc s =
    let s = drop_killed (s.processes proc).threads_vec.length proc 0 s in
    let p = s.processes proc in
    if (p.children.length == 0) && (p.threads_vec.length == 0)
    then clean proc (set_proc proc killed s)
    else some s

unfoldable pub clean_proc : ℕ → ℕ → Scheduler → Option Scheduler
unfolding is
clean_proc zero proc s = none
clean_proc (suc fuel) proc s =
    let dead = clean_killed (clean_proc fuel) proc s in
    let alive = clean_other (clean_proc fuel) proc s in
    if proc == 0 then some s else if is (s.processes proc).state killed then dead else alive
