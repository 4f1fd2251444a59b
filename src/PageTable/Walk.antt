-- ===== src/PageTable/Walk.antt =====
-- `get_next_lvl`, `virt2pte` and the methods of `Pagemap`.
use turb_os.Base.{
  ℕ, ◌*◌, ◌/◌, ◌^◌, bit_and, bit_or, Bool, true, false, ◌==◌, if◌then◌else◌, Option, none, some,
  List, ◌∷◌,
}
use turb_os.Base.Words.{add64}
use turb_os.PMemory.Defs
use turb_os.PageTable.Entry.{
  present, read_n_write, user_super, set_flags, get_flags, get_address, set_address,
}

-- The entries of each table, by its address; the physical allocator; the locks of the pagemaps that are held,
-- by their addresses; the pages given to `invlpg`, latest first; and the variable `lvl5`.
pub record Machine : Type 0 where
  pub entry : ℕ → ℕ → ℕ
  pub memory : Defs.State
  pub held : ℕ → Bool
  pub flushed : List ℕ
  pub lvl5 : Bool

-- `struct Pagemap`: the address of its lock, and `TOPLVL`.
pub record Pagemap : Type 0 where
  pub lock : ℕ
  pub toplvl : ℕ

-- where an entry stands: its table and its index
abbrev pub Place : Type 0
Place = ℕ × ℕ

-- `none`: a lock is held, and the call never returns.
abbrev pub M : Type 0 → Type 0
M A = Option (Machine × A)

infixl 5 ◌>>=◌
abbrev pub ◌>>=◌ : {A B : Type 0} → M A → (Machine × A → M B) → M B
none >>= f = none
some r >>= f = f r

abbrev pub write : Machine → ℕ → ℕ → ℕ → Machine
write s table i value = record s {
  entry = λ t j. if t == table then (if j == i then value else s.entry t j) else s.entry t j;
}

-- A page from `pMemory::alloc` is cleared, so all entries of a table in it are 0.
abbrev pub clear_table : Machine → ℕ → Machine
clear_table s table = record s { entry = λ t j. if t == table then 0 else s.entry t j }

abbrev pub new_flags : ℕ
new_flags = bit_or (bit_or present read_n_write) user_super

-- the branch of `get_next_lvl` that allocates, after `alloc`
unfoldable pub link : Machine → ℕ → ℕ → Defs.State × ℕ → M ℕ
link s curr_lvl entry (memory, ret) =
    let s1 = clear_table (record s { memory = memory }) ret in
    let s2 = write s1 curr_lvl entry (set_address (s1.entry curr_lvl entry) (ret / 2 ^ 12)) in
    let s3 = write s2 curr_lvl entry (set_flags (s2.entry curr_lvl entry) new_flags true) in
    some (s3, ret)

unfoldable pub get_next_lvl : Machine → ℕ → ℕ → M ℕ
get_next_lvl s curr_lvl entry =
    if get_flags (s.entry curr_lvl entry) present
    then some (s, get_address (s.entry curr_lvl entry) * 2 ^ 12)
    else elim (Defs.alloc s.memory 1) [ none ↦ none | some r ↦ link s curr_lvl entry r ]

-- `(vaddr & ((uint64_t)0x1FF << shift)) >> shift`
unfoldable pub level_entry : ℕ → ℕ → ℕ
level_entry vaddr shift = bit_and vaddr (0x1FF * 2 ^ shift) / 2 ^ shift

-- `Pagemap::virt2pte`
unfoldable pub virt2pte : Machine → Pagemap → ℕ → M Place
virt2pte s pm vaddr = do
  (s4, pml4) ←
      if s.lvl5 then get_next_lvl s pm.toplvl (level_entry vaddr 48) else some (s, pm.toplvl)
  (s3, pml3) ← get_next_lvl s4 pml4 (level_entry vaddr 39)
  (s2, pml2) ← get_next_lvl s3 pml3 (level_entry vaddr 30)
  (s1, pml1) ← get_next_lvl s2 pml2 (level_entry vaddr 21)
  some (s1, (pml1, level_entry vaddr 12))

abbrev pub set_lock : Machine → Pagemap → Bool → Machine
set_lock s pm b = record s { held = λ q. if q == pm.lock then b else s.held q }

-- `this->lock.lock(); … this->lock.unlock();`
unfoldable pub under_lock : {A : Type 0} → Machine → Pagemap → (Machine → M A) → M A
under_lock s pm body =
    if s.held pm.lock
    then none
    else (do (s', a) ← body (set_lock s pm true); some (set_lock s' pm false, a))

-- The entry that the walk finds is updated.
unfoldable pub change : Machine → Pagemap → ℕ → (ℕ → ℕ) → M Place
change s pm vaddr f = do
  (s', at) ← virt2pte s pm vaddr
  some (write s' at.0 at.1 (f (s'.entry at.0 at.1)), at)

unfoldable pub update : Machine → Pagemap → ℕ → (ℕ → ℕ) → M Place
unfolding under_lock change
update s pm vaddr f = under_lock s pm (λ s. change s pm vaddr f)

unfoldable pub map_mem : Machine → Pagemap → ℕ → ℕ → ℕ → M Place
map_mem s pm vaddr paddr flags =
    update s pm vaddr (λ value. set_flags (set_address value (paddr / 2 ^ 12)) flags true)

unfoldable pub flush : Machine → ℕ → Machine
flush s vaddr = record s { flushed = vaddr ∷ s.flushed }

-- the address is read before the entry is cleared, and the lock is taken again for `mapMem`
unfoldable pub remap_mem : Machine → Pagemap → ℕ → ℕ → ℕ → M Place
unfolding under_lock
remap_mem s pm vaddr_old vaddr_new flags = do
  (s2, paddr) ← under_lock s pm (λ s. do
    (s', at) ← virt2pte s pm vaddr_old
    let paddr = get_address (s'.entry at.0 at.1) * 2 ^ 12
    some (flush (write s' at.0 at.1 0) vaddr_old, paddr))
  map_mem s2 pm vaddr_new paddr flags

unfoldable pub map_user_mem : Machine → Pagemap → ℕ → ℕ → ℕ → M Place
map_user_mem s pm vaddr paddr flags = map_mem s pm vaddr paddr (bit_or flags user_super)

-- `hhdm` is `hhdm_tag->addr`, which the boot loader gives
unfoldable pub map_hh_mem : ℕ → Machine → Pagemap → ℕ → ℕ → M Place
map_hh_mem hhdm s pm paddr flags = map_mem s pm (add64 paddr hhdm) paddr flags

unfoldable pub unmap_mem : Machine → Pagemap → ℕ → M Place
unfolding under_lock change
unmap_mem s pm vaddr =
    under_lock s pm (λ s. do (s', place) ← change s pm vaddr (λ _. 0); some (flush s' vaddr, place))

unfoldable pub put_flags : Machine → Pagemap → ℕ → ℕ → M Place
put_flags s pm vaddr flags = update s pm vaddr (λ value. set_flags value flags true)

unfoldable pub rem_flags : Machine → Pagemap → ℕ → ℕ → M Place
rem_flags s pm vaddr flags = update s pm vaddr (λ value. set_flags value flags false)
