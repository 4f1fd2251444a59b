-- ===== src/PageTable/Mapped.antt =====
-- What the methods of `Pagemap` do where all tables on the way to the entry are there already, by how the
-- processor reads them.
use mathlib.Core.Path.{subst}
use turb_os.Base.{
  ℕ, ◌*◌, ◌/◌, ◌%◌, ◌^◌, ◌<◌, ◌≡◌, ◌≢◌, ◌⊎◌, refl, sym, ap, ◌∙◌, ◌==◌, Bool, true, false,
  if◌then◌else◌, if_true, if_false, some, List, [], ◌∷◌, arith,
}
use turb_os.Base.Bits.{bit_at}
use turb_os.PageTable.Entry.{present, set_flags, get_flags, get_address, set_address}
use turb_os.PageTable.Flags.{bit_at-set_flags, get_flags_lem}
use turb_os.PageTable.Address.{
  field_lem, get_address-set_address, get_address-set_flags, set_address-lt,
}
use turb_os.PageTable.Laws.{level_entry_lem}
use turb_os.PageTable.Walk.{
  Machine, Pagemap, Place, M, ◌>>=◌, get_next_lvl, level_entry, virt2pte, write, set_lock,
  under_lock, change, update, map_mem, flush, unmap_mem, put_flags, rem_flags,
}

-- The processor's walk for an address, through tables that are present, to the entry of its page: nine bits of
-- the address from each shift on are the index, and bits 12 to 51 of the entry are the next table's page.
abbrev pub Walks : (ℕ → ℕ → ℕ) → ℕ → List ℕ → ℕ → Place → Type 0
Walks entry vaddr [] table at = (at.0 ≡ table) × (at.1 ≡ vaddr / 2 ^ 12 % 512)
Walks entry vaddr (shift ∷ shifts) table at =
    let e = entry table (vaddr / 2 ^ shift % 512) in
    (e % 2 ≡ 1) × Walks entry vaddr shifts (e / 2 ^ 12 % 2 ^ 40 * 2 ^ 12) at

abbrev pub levels : Bool → List ℕ
levels lvl5 = if lvl5 then 48 ∷ 39 ∷ 30 ∷ 21 ∷ [] else 39 ∷ 30 ∷ 21 ∷ []

get_next_lvl-present :
    (s : Machine) (table vaddr shift : ℕ)
    → s.entry table (vaddr / 2 ^ shift % 512) % 2 ≡ 1
    → get_next_lvl s table (level_entry vaddr shift)
      ≡ some (s, s.entry table (vaddr / 2 ^ shift % 512) / 2 ^ 12 % 2 ^ 40 * 2 ^ 12)
unfolding get_next_lvl get_address
get_next_lvl-present s table vaddr shift there =
    let e = s.entry table (vaddr / 2 ^ shift % 512) in
    let set : get_flags e present ≡ true = ground (arith, get_flags_lem e present) in
    let field : e / 2 ^ 12 % 2 ^ 40 * 2 ^ 12 / 2 ^ 12 ≡ e / 2 ^ 12 % 2 ^ 40 = omega arith in
    rw (level_entry_lem vaddr shift, set, field_lem e, field) refl

-- the walk from the table of the fourth level on
abbrev lower : Machine → ℕ → ℕ → M Place
lower s table vaddr = get_next_lvl s table (level_entry vaddr 39) >>= λ r.
    get_next_lvl r.0 r.1 (level_entry vaddr 30) >>= λ r.
    get_next_lvl r.0 r.1 (level_entry vaddr 21) >>= λ r. some (r.0, (r.1, level_entry vaddr 12))

lower-Walks :
    (s : Machine) (table vaddr : ℕ) (at : Place)
    → Walks s.entry vaddr (39 ∷ 30 ∷ 21 ∷ []) table at
    → lower s table vaddr ≡ some (s, at)
lower-Walks s table vaddr at (w3, (w2, (w1, (e, i)))) =
    rw
      (
        get_next_lvl-present s _ vaddr 39 w3,
        get_next_lvl-present s _ vaddr 30 w2,
        get_next_lvl-present s _ vaddr 21 w1,
        level_entry_lem vaddr 12,
        sym e,
        sym i,
      )
      refl

-- The walk in the code finds the entry that the processor's finds.
virt2pte-Walks :
    (s : Machine) (pm : Pagemap) (vaddr : ℕ) (at : Place)
    → Walks s.entry vaddr (levels s.lvl5) pm.toplvl at
    → virt2pte s pm vaddr ≡ some (s, at)
unfolding virt2pte
virt2pte-Walks s pm vaddr at walk = go s.lvl5 refl walk
  where
    rest : M ℕ → M Place
    rest o = o >>= λ r. lower r.0 r.1 vaddr

    go :
        (b : Bool)
        → s.lvl5 ≡ b
        → Walks s.entry vaddr (levels b) pm.toplvl at
        → virt2pte s pm vaddr ≡ some (s, at)
    go true e (w4, w) =
        ap rest (if_true s.lvl5 _ _ e ∙ get_next_lvl-present s pm.toplvl vaddr 48 w4)
        ∙ lower-Walks s _ vaddr at w
    go false e w = ap rest (if_false s.lvl5 _ _ e) ∙ lower-Walks s pm.toplvl vaddr at w

-- The call returns the entry's place: its value has the property, the other entries and the allocator are as
-- before, and the lock is free again.
abbrev pub Updates : Machine → Pagemap → Place → (ℕ → Type 0) → List ℕ → M Place → Type 0
Updates s pm at P flushed r =
    (u : Machine) × (r ≡ some (u, at))
    × P (u.entry at.0 at.1)
    × ((t i : ℕ) → (t ≢ at.0) ⊎ (i ≢ at.1) → u.entry t i ≡ s.entry t i)
    × (u.flushed ≡ flushed)
    × (u.memory ≡ s.memory)
    × (u.held pm.lock ≡ false)

update-Updates :
    (s : Machine) (pm : Pagemap) (vaddr : ℕ) (at : Place) (f : ℕ → ℕ)
    → s.held pm.lock ≡ false
    → Walks s.entry vaddr (levels s.lvl5) pm.toplvl at
    → Updates s pm at (λ value. value ≡ f (s.entry at.0 at.1)) s.flushed (update s pm vaddr f)
unfolding update under_lock change
update-Updates s pm vaddr at f open_ walk =
    let s1 = set_lock s pm true in
    let found = virt2pte-Walks s1 pm vaddr at walk in
    let u = set_lock (write s1 at.0 at.1 (f (s.entry at.0 at.1))) pm false in
    (u, rw (open_, found) refl, ground arith, λ t i out. ground arith, refl, refl, ground arith)

unmap_mem-Updates :
    (s : Machine) (pm : Pagemap) (vaddr : ℕ) (at : Place)
    → s.held pm.lock ≡ false
    → Walks s.entry vaddr (levels s.lvl5) pm.toplvl at
    → Updates s pm at (λ value. value ≡ 0) (vaddr ∷ s.flushed) (unmap_mem s pm vaddr)
unfolding unmap_mem under_lock change flush
unmap_mem-Updates s pm vaddr at open_ walk =
    let s1 = set_lock s pm true in
    let found = virt2pte-Walks s1 pm vaddr at walk in
    let u = flush (set_lock (write s1 at.0 at.1 0) pm false) vaddr in
    (u, rw (open_, found) refl, ground arith, λ t i out. ground arith, refl, refl, ground arith)

abbrev pub IsMapped : ℕ → ℕ → ℕ → Type 0
IsMapped paddr flags value =
    (get_address value ≡ paddr / 2 ^ 12 % 2 ^ 40)
    × ((k : ℕ) → k < 64 → bit_at flags k ≡ 1 → bit_at value k ≡ 1)

-- The bits of the flags are `bit`, the others as in `old`.
abbrev pub IsFlagged : ℕ → ℕ → ℕ → ℕ → Type 0
IsFlagged old flags bit value =
    (k : ℕ) → k < 64 → bit_at value k ≡ (if bit_at flags k == 1 then bit else bit_at old k)

set_flags-IsFlagged :
    (old flags : ℕ) (enabled : Bool)
    → flags < 2 ^ 12
    → IsFlagged old flags (if enabled then 1 else 0) (set_flags old flags enabled)
set_flags-IsFlagged old flags enabled low k lt =
    bit_at-set_flags old flags enabled k (omega arith) lt

set_flags-IsMapped :
    (old paddr flags : ℕ)
    → old < 2 ^ 64
    → flags < 2 ^ 12
    → IsMapped paddr flags (set_flags (set_address old (paddr / 2 ^ 12)) flags true)
set_flags-IsMapped old paddr flags fits low =
    let page = paddr / 2 ^ 12 in
    let addressed = set_address old page in
    (
      get_address-set_flags addressed flags true (set_address-lt old page fits) low
          ∙ (get_address-set_address old page fits).0,
      λ k lt on. ground (arith, bit_at-set_flags addressed flags true k (omega arith) lt),
    )

Updates-weaker :
    (s : Machine) (pm : Pagemap) (at : Place) (value : ℕ) (P : ℕ → Type 0) (flushed : List ℕ)
    (r : M Place)
    → P value
    → Updates s pm at (λ v. v ≡ value) flushed r
    → Updates s pm at P flushed r
Updates-weaker s pm at value P flushed r p (u, e, same, others, flushes, memory, free) =
    (u, e, subst P (sym same) p, others, flushes, memory, free)

-- With the lock of the pagemap free, flags below bit 12, and all tables on the processor's way to the entry of an
-- address present, `mapMem`, `unmapMem`, `setFlags` and `remFlags` return, change that entry alone, and give the
-- lock back. The entry holds the physical page cut to 40 bits and every flag asked for is on; or it is 0 and the
-- page is flushed; or the flags are on, or off, and every other bit is as it was.
pub methods-Updates :
    (s : Machine) (pm : Pagemap) (vaddr paddr flags : ℕ) (at : Place)
    → s.held pm.lock ≡ false
    → Walks s.entry vaddr (levels s.lvl5) pm.toplvl at
    → s.entry at.0 at.1 < 2 ^ 64
    → flags < 2 ^ 12
    → let old = s.entry at.0 at.1 in
      Updates s pm at (IsMapped paddr flags) s.flushed (map_mem s pm vaddr paddr flags)
      × Updates s pm at (λ value. value ≡ 0) (vaddr ∷ s.flushed) (unmap_mem s pm vaddr)
      × Updates s pm at (IsFlagged old flags 1) s.flushed (put_flags s pm vaddr flags)
      × Updates s pm at (IsFlagged old flags 0) s.flushed (rem_flags s pm vaddr flags)
unfolding map_mem put_flags rem_flags
methods-Updates s pm vaddr paddr flags at open_ walk fits low =
    let old = s.entry at.0 at.1 in
    let updates = λ (f : ℕ → ℕ) (P : ℕ → Type 0) (p : P (f old)).
      Updates-weaker s pm at (f old) P s.flushed (update s pm vaddr f) p
        (update-Updates s pm vaddr at f open_ walk) in
    (
      updates _ (IsMapped paddr flags) (set_flags-IsMapped old paddr flags fits low),
      unmap_mem-Updates s pm vaddr at open_ walk,
      updates _ (IsFlagged old flags 1) (set_flags-IsFlagged old flags true low),
      updates _ (IsFlagged old flags 0) (set_flags-IsFlagged old flags false low),
    )
