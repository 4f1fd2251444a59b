-- ===== src/Idt/Gates.antt =====
-- The gates after `init`, the vectors of `allocVector`, and the handlers that are called.
use mathlib.Core.Path.{subst}
use turb_os.Base.{
  ℕ, zero, suc, ◌+◌, ◌-◌, ◌*◌, ◌/◌, ◌%◌, ◌^◌, ◌≤◌, ◌<◌, ◌≡◌, ◌≢◌, refl, Bool, true, false, ◌==◌,
  ==_iff, if◌then◌else◌, if_false, some, [], ◌∷◌, inl, inr, Bool-cases, ◌∙◌, arith,
}
use turb_os.Idt.Defs.{
  Idt, IdtEntry, handle, reload, pic_init, apic_end, pic_end, syscall, idt_set_descriptor, set_all,
  init, alloc_vector, register_interrupt_handler, irq_handler, int_handler,
}

-- The gate leads to `isr` in the kernel's code segment, with the type `kind`.
pub record IsGate (isr typed : ℕ) (e : IdtEntry) : Type 0 where
  pub offset : e.offset1 + e.offset2 * 2 ^ 16 + e.offset3 * 2 ^ 32 ≡ isr
  pub segment : e.selector ≡ 0x28
  pub kind : e.type_attr ≡ typed

descriptor-IsGate :
    (s : Idt) (vector isr typeattr ist : ℕ)
    → isr < 2 ^ 64
    → IsGate isr typeattr ((idt_set_descriptor s vector isr typeattr ist).idt vector)
unfolding idt_set_descriptor
descriptor-IsGate s vector isr typeattr ist fits =
    let own : (idt_set_descriptor s vector isr typeattr ist).idt vector ≡ record {
      offset1 = isr % 2 ^ 16;
      selector = 0x28;
      ist = ist;
      type_attr = typeattr;
      offset2 = isr / 2 ^ 16 % 2 ^ 16;
      offset3 = isr / 2 ^ 32 % 2 ^ 32;
      reserved = 0;
    } =
      ground arith in
    rw own (record { offset = omega (arith, fits); segment = refl; kind = refl })

descriptor_keeps :
    (s : Idt) (vector isr typeattr ist v : ℕ)
    → v ≢ vector
    → (idt_set_descriptor s vector isr typeattr ist).idt v ≡ s.idt v
unfolding idt_set_descriptor
descriptor_keeps s vector isr typeattr ist v ne = ground arith

set_all-IsGate :
    (left : ℕ) (int_table : ℕ → ℕ) (i : ℕ) (s : Idt) (v : ℕ)
    → int_table v < 2 ^ 64
    → v < i + left
    → ((v < i) → IsGate (int_table v) 0x8E (s.idt v))
    → IsGate (int_table v) 0x8E ((set_all left int_table i s).idt v)
unfolding set_all
set_all-IsGate zero int_table i s v fits lt done = done (omega arith)
set_all-IsGate (suc left) int_table i s v fits lt done =
    set_all-IsGate left int_table (i + 1) (idt_set_descriptor s i (int_table i) 0x8E 0) v fits
      (omega arith)
      (λ below. elim (Bool-cases (v == i)) [
        | inl at ↦
            subst
              (λ j. IsGate (int_table v) 0x8E ((idt_set_descriptor s j (int_table j) 0x8E 0).idt v))
              ((==_iff v i).0 at) (descriptor-IsGate s v (int_table v) 0x8E 0 fits)
        | inr other ↦
            rw (descriptor_keeps s i (int_table i) 0x8E 0 v (ground arith)) (done (ground arith))
      ])

-- `init` of a table that is not set up, with the lock free, returns: every one of the 256 gates leads to the
-- routine of its vector in the kernel's code segment, as an interrupt gate, which user code can enter at the
-- vector of system calls and at no other.
pub init-IsGate :
    (int_table : ℕ → ℕ) (address : ℕ) (s : Idt) (v : ℕ)
    → s.is_init ≡ false
    → s.locked ≡ false
    → v < 256
    → int_table v < 2 ^ 64
    → (s' : Idt) × (init int_table address s ≡ some s')
      × (s'.is_init ≡ true)
      × IsGate (int_table v) (if v == syscall then 0xEE else 0x8E) (s'.idt v)
unfolding init
init-IsGate int_table address s v fresh open_ lt fits =
    let gates = set_all 256 int_table 0 (record s { limit = 16 * 256 - 1; base = address }) in
    let last = idt_set_descriptor gates syscall (int_table syscall) 0xEE 0 in
    let each =
      set_all-IsGate 256 int_table 0 (record s { limit = 16 * 256 - 1; base = address }) v fits
        (omega arith) (λ below. absurd (omega arith)) in
    (
      record last { is_init = true; events = reload ∷ pic_init ∷ last.events },
      if_false s.is_init _ _ fresh ∙ if_false s.locked _ _ open_,
      refl,
      elim (Bool-cases (v == syscall)) [
        | inl at ↦ rw at (
            subst
              (λ j.
                IsGate (int_table v) 0xEE ((idt_set_descriptor gates j (int_table j) 0xEE 0).idt v))
              ((==_iff v syscall).0 at) (descriptor-IsGate gates v (int_table v) 0xEE 0 fits))
        | inr other ↦
            rw (other, descriptor_keeps gates syscall (int_table syscall) 0xEE 0 v (ground arith))
              each
      ],
    )

-- Below 254, a call of `allocVector` gives a vector above the one before, at most two above it, and never
-- the one of system calls; and the next call counts from it.
pub alloc_vector_lem :
    (s : Idt)
    → s.next_free < 254
    → let (s', v) = alloc_vector s in
      (s.next_free < v) × (v ≤ s.next_free + 2) × (v ≢ syscall) × (s'.next_free ≡ v)
unfolding alloc_vector
alloc_vector_lem s lt = ground arith

-- After a handler has been registered for a vector from 32 to 255, an interrupt there calls that handler
-- once and then ends the interrupt once; an interrupt at another vector is as before.
pub int_handler-register :
    (apic ioapic : Bool) (s : Idt) (vector handler v : ℕ)
    → handler ≢ 0
    → 32 ≤ vector
    → vector < 256
    → int_handler apic (register_interrupt_handler apic s vector handler ioapic) v ≡ (
        if v == vector
        then handle handler v ∷ (if apic then apic_end else pic_end v) ∷ []
        else int_handler apic s v)
unfolding int_handler irq_handler register_interrupt_handler
int_handler-register apic ioapic s vector handler v nz lo hi = ground arith
