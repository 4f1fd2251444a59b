-- ===== src/Idt/Defs.antt =====
-- The gates, the handlers and the vectors that are given out. Addresses of code are numbers; 0 is no handler.
use turb_os.Base.{
  ℕ, zero, suc, ◌+◌, ◌-◌, ◌/◌, ◌%◌, ◌^◌, Bool, true, ◌&&◌, ltb, ◌*◌, ◌==◌, if◌then◌else◌, Option,
  none, some, List, [], ◌∷◌, ◌++◌,
}

pub record IdtEntry : Type 0 where
  pub offset1 : ℕ
  pub selector : ℕ
  pub ist : ℕ
  pub type_attr : ℕ
  pub offset2 : ℕ
  pub offset3 : ℕ
  pub reserved : ℕ

abbrev pub syscall : ℕ
syscall = 0x69

-- what the functions ask of the other parts and of the processor
pub data Event : Type 0 where
  pic_init : Event
  reload : Event
  redirect_irq : ℕ → ℕ → Event
  exception : ℕ → Event
  handle : ℕ → ℕ → Event
  apic_end : Event
  pic_end : ℕ → Event
  panic : Event

-- The variables of the namespace. `limit` and `base` are the fields of `idtr`.
pub record Idt : Type 0 where
  pub idt : ℕ → IdtEntry
  pub interrupt_handlers : ℕ → ℕ
  pub is_init : Bool
  pub locked : Bool
  pub next_free : ℕ
  pub limit : ℕ
  pub base : ℕ
  pub events : List Event

-- the fields have 16, 16 and 32 bits
unfoldable pub idt_set_descriptor : Idt → ℕ → ℕ → ℕ → ℕ → Idt
idt_set_descriptor s vector isr typeattr ist =
    let entry : IdtEntry = record {
      offset1 = isr % 2 ^ 16;
      selector = 0x28;
      ist = ist;
      type_attr = typeattr;
      offset2 = isr / 2 ^ 16 % 2 ^ 16;
      offset3 = isr / 2 ^ 32 % 2 ^ 32;
      reserved = 0;
    } in
    record s { idt = λ v. if v == vector then entry else s.idt v }

-- `for (i = 0; i < 256; i++) idtSetDescriptor(i, int_table[i]);` with `left` rounds left
unfoldable pub set_all : ℕ → (ℕ → ℕ) → ℕ → Idt → Idt
set_all zero int_table i s = s
set_all (suc left) int_table i s =
    set_all left int_table (i + 1) (idt_set_descriptor s i (int_table i) 0x8E 0)

-- `init`, with the table of the assembly code and the address of `idt`; `none` waits for the lock
unfoldable pub init : (ℕ → ℕ) → ℕ → Idt → Option Idt
init int_table address s =
    if s.is_init
    then some s
    else (if s.locked
        then none
        else (let pointed = record s { limit = 16 * 256 - 1; base = address } in
            let gates = set_all 256 int_table 0 pointed in
            let last = idt_set_descriptor gates syscall (int_table syscall) 0xEE 0 in
            some (record last { is_init = true; events = reload ∷ pic_init ∷ last.events })))

-- `(++next_free == SYSCALL ? ++next_free : next_free)`, on a byte
unfoldable pub alloc_vector : Idt → Idt × ℕ
alloc_vector s =
    let v = (s.next_free + 1) % 256 in
    let w = if v == syscall then (v + 1) % 256 else v in (record s { next_free = w }, w)

unfoldable pub register_interrupt_handler : Bool → Idt → ℕ → ℕ → Bool → Idt
register_interrupt_handler apic_is_init s vector handler ioapic =
    let h = λ (v : ℕ). if v == vector then handler else s.interrupt_handlers v in
    if ioapic && apic_is_init && ltb 31 vector && ltb vector 48
    then record s { interrupt_handlers = h; events = redirect_irq (vector - 32) vector ∷ s.events }
    else record s { interrupt_handlers = h }

-- the events of one interrupt, in order
unfoldable pub irq_handler : Bool → Idt → ℕ → List Event
irq_handler apic_is_init s int_no =
    (if s.interrupt_handlers int_no == 0
      then []
      else handle (s.interrupt_handlers int_no) int_no ∷ [])
    ++ ((if apic_is_init then apic_end else pic_end int_no) ∷ [])

unfoldable pub int_handler : Bool → Idt → ℕ → List Event
int_handler apic_is_init s int_no =
    if ltb int_no 32
    then exception int_no ∷ []
    else if ltb int_no 256
    then irq_handler apic_is_init s int_no
    else panic ∷ []
