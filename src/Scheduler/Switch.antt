-- ===== src/Scheduler/Switch.antt =====
-- `switchTask`, the handler of the timer's interrupt. It gets the registers of the interrupted code and
-- gives back those to go on with. A timeslice stands for the jump to `success`, none for that to `nofree`.
use turb_os.Base.{
  ℕ, zero, suc, ◌+◌, ◌-◌, ◌==◌, if◌then◌else◌, true, false, ◌||◌, Option, none, some, [], ◌∷◌,
}
use turb_os.Base.Words.{add64, sub64}
use turb_os.Vector.Defs.{at, find}
use turb_os.Idt.Defs.{Idt, alloc_vector, register_interrupt_handler, idt_set_descriptor}
use turb_os.Scheduler.Defs.{
  Scheduler, Registers, ready, running, is, put, set_thread, this_proc, yield_for, lock_sched,
  periodic, ◌>>=◌,
}
use turb_os.Scheduler.Create.{Grants, alloc_proc}
use turb_os.Scheduler.Clean.{clean_proc}

-- The first thread that is ready from the index `t` on, with `left` rounds left.
unfoldable pub ready_thread : Scheduler → ℕ → ℕ → ℕ → Option ℕ
unfolding is
ready_thread s proc zero t = none
ready_thread s proc (suc left) t =
    let thread = at (s.processes proc).threads_vec t in
    let rest = ready_thread s proc left (t + 1) in
    if is (s.threads thread).state ready then some thread else rest

-- `thisCPU->currentProcess = proc; thisCPU->currentThread = thread;` and the thread's time
unfoldable pub take_thread : ℕ → ℕ → Scheduler → Scheduler × Option ℕ
take_thread proc thread s = (
  record s { current_process = proc; current_thread = thread },
  some (s.threads thread).slice_of_time,
)

-- the loop over the processes when none is current; what is not ready is cleaned
unfoldable pub from_none : ℕ → ℕ → ℕ → Scheduler → Option (Scheduler × Option ℕ)
unfolding is take_thread
from_none fuel zero i s = some (s, none)
from_none fuel (suc left) i s =
    let proc = at s.proc_table i in
    let rest = from_none fuel left (i + 1) in
    if is (s.processes proc).state ready
    then (elim (ready_thread s proc (s.processes proc).threads_vec.length 0) [
      | some thread ↦ some (take_thread proc thread s)
      | none ↦ rest s
    ])
    else (clean_proc fuel proc s >>= rest)

-- the loop over the other threads of the process, which ends if the process is not ready
unfoldable pub own_thread : Scheduler → ℕ → ℕ → ℕ → Option ℕ
unfolding is
own_thread s proc zero t = none
own_thread s proc (suc left) t =
    let thread = at (s.processes proc).threads_vec t in
    let rest = own_thread s proc left (t + 1) in
    if is (s.processes proc).state ready
    then (if is (s.threads thread).state ready then some thread else rest)
    else none

-- the loop over the processes behind the current one
unfoldable pub other_proc : Scheduler → ℕ → ℕ → Option (ℕ × ℕ)
unfolding is
other_proc s zero p = none
other_proc s (suc left) p =
    let proc = at s.proc_table p in
    let rest = other_proc s left (p + 1) in
    if is (s.processes proc).state ready
    then (elim (ready_thread s proc (s.processes proc).threads_vec.length 0) [
      | some thread ↦ some (proc, thread)
      | none ↦ rest
    ])
    else rest

-- `this_thread()->thread_regs = *regs;`, and a running thread is ready then
unfoldable pub save : Registers → Scheduler → Scheduler
unfolding set_thread is
save regs s =
    let t = s.current_thread in
    let kept = record s {
      threads = put s.threads t (record (s.threads t) { thread_regs = regs });
    } in
    if is (kept.threads t).state running then set_thread t ready kept else kept

-- the branch with a current thread, from the loops on
unfoldable pub from_current : ℕ → Scheduler → Option (Scheduler × Option ℕ)
unfolding take_thread
from_current fuel s =
    let own = (s.processes s.current_process).threads_vec in
    let t = add64 (find own s.current_thread) 1 in
    let p = add64 (find s.proc_table s.current_process) 1 in
    elim (own_thread s s.current_process (own.length - t) t) [
      | some thread ↦ some (take_thread s.current_process thread s)
      | none ↦ elim (other_proc s (s.proc_table.length - p) p) [
        | some (proc, thread) ↦
            clean_proc fuel s.current_process s >>= λ s. some (take_thread proc thread s)
        | none ↦ some (s, none)
      ]
    ]

-- up to the labels
unfoldable pub choose : ℕ → Registers → Scheduler → Option (Scheduler × Option ℕ)
unfolding this_proc
choose fuel regs s =
    let (s, p) = this_proc s in
    if (p == 0) || (s.current_thread == 0)
    then from_none fuel s.proc_table.length 0 s
    else from_current fuel (save regs s)

-- what both labels end with, before the timer is set
unfoldable pub resume : ℕ → Scheduler → Scheduler × Registers
unfolding set_thread yield_for
resume timeslice s =
    let s = set_thread s.current_thread running s in
    (
      yield_for timeslice
          (record s { loaded = (s.processes s.current_process).pagemap; sched_lock = false }),
      (s.threads s.current_thread).thread_regs,
    )

-- `if (thisCPU->idleP == nullptr){ … }`; `idle` is the address of the function.
unfoldable pub make_idle : Grants → ℕ → Scheduler → Option Scheduler
make_idle g idle s =
    if s.idle_p == 0
    then (alloc_proc g (b'I' ∷ b'd' ∷ b'l' ∷ b'e' ∷ []) idle 0 s >>= λ s.
        some (record s { idle_p = g.process; thread_count = sub64 s.thread_count 1 }))
    else some s

-- the label `nofree`, up to the assignments to `thisCPU`
unfoldable pub go_idle : ℕ → Grants → ℕ → Scheduler → Option Scheduler
go_idle fuel g idle s = clean_proc fuel s.current_process s >>= λ s. make_idle g idle s >>= λ s.
    some (record s {
      current_process = s.idle_p;
      current_thread = at (s.processes s.idle_p).threads_vec 0;
    })

unfoldable pub switch_task : ℕ → Grants → ℕ → Registers → Scheduler → Option (Scheduler × Registers)
unfolding lock_sched
switch_task fuel g idle regs s =
    if s.is_init
    then (lock_sched s >>= λ s. choose fuel regs s >>= λ (s, timeslice). elim timeslice [
      | some ms ↦ some (resume ms s)
      | none ↦ go_idle fuel g idle s >>= λ s. some (resume 1 s)
    ])
    else some (s, regs)

-- `if (sched_vector == 0){ … }` of `init`
unfoldable pub take_vector : (ℕ → ℕ) → ℕ → Idt → Scheduler → Idt × Scheduler
take_vector int_table switch_address idt s =
    if s.sched_vector == 0
    then (let taken = alloc_vector idt in
        let v = taken.1 in
        let known = register_interrupt_handler true taken.0 v switch_address true in
        (idt_set_descriptor known v (int_table v) 0x8E 1, record s { sched_vector = v }))
    else (idt, s)

-- `init`, with the addresses of the interrupt routines and of `switchTask`
unfoldable pub init_sched : (ℕ → ℕ) → ℕ → Idt → Scheduler → Idt × Scheduler
unfolding take_vector
init_sched int_table switch_address idt s =
    if s.apic_is_init
    then (let taken = take_vector int_table switch_address idt s in
        let s' = taken.1 in (taken.0, record s' { timer = periodic s'.sched_vector 1 ∷ s'.timer }))
    else (
      idt_set_descriptor idt s.sched_vector (int_table 32) 0x8E 1,
      record s { pit_is_scheduling = true },
    )
