-- ===== src/Idt/Tests.antt =====
-- A table before its set-up, with the routines 16 bytes apart.
use turb_os.Base.{ℕ, ◌+◌, ◌*◌, ◌≡◌, refl, true, false, some, [], ◌∷◌, arith}
use turb_os.Idt.Defs.{
  Idt, handle, apic_end, init, alloc_vector, register_interrupt_handler, int_handler,
}
use turb_os.Idt.Gates.{IsGate, init-IsGate, int_handler-register}

abbrev routines : ℕ → ℕ
routines v = 0xFFFFFFFF80000000 + 16 * v

abbrev blank : ℕ → Idt
blank last = record {
  idt = λ v. record {
    offset1 = 0;
    selector = 0;
    ist = 0;
    type_attr = 0;
    offset2 = 0;
    offset3 = 0;
    reserved = 0;
  };
  interrupt_handlers = λ v. 0;
  is_init = false;
  locked = false;
  next_free = last;
  limit = 0;
  base = 0;
  events = [];
}

init_example :
    (s' : Idt) × (init routines 0x5000 (blank 48) ≡ some s')
    × (s'.is_init ≡ true)
    × IsGate (routines 0x69) 0xEE (s'.idt 0x69)
init_example = init-IsGate routines 0x5000 (blank 48) 0x69 refl refl (omega arith) (omega arith)

int_handler_example :
    int_handler true (register_interrupt_handler true (blank 48) 33 0x7000 true) 33
    ≡ handle 0x7000 33 ∷ apic_end ∷ []
int_handler_example =
    int_handler-register true true (blank 48) 33 0x7000 33 (omega arith) (omega arith) (omega arith)

-- The byte wraps: behind 255, the vectors of the processor's exceptions are given out.
vector_wraps : (alloc_vector (blank 255)).1 ≡ 0
unfolding alloc_vector
vector_wraps = refl
