-- ===== src/PageTable/Laws.antt =====
-- What the walk reads of an address, and what the methods of `Pagemap` leave in the tables.
use mathlib.Core.Path.{ap₂}
use native.Mathlib.Nat.{mul-div_cancel, mul-mod_left, one-le-pow, add-zero}
use turb_os.Base.{
  ℕ, ◌+◌, ◌*◌, ◌/◌, ◌%◌, ◌^◌, ◌<◌, ◌≡◌, ◌≢◌, refl, bit_and, true, false, some, ap, ◌⊎◌, ◌∙◌, arith,
}
use turb_os.Base.Bits.{bit_at, bit_and_mask}
use turb_os.Base.Steps.{bit_and-zero, bit_and_split}
use turb_os.PageTable.Entry.{set_flags, get_address, set_address}
use turb_os.PageTable.Flags.{bit_at-set_flags}
use turb_os.PageTable.Address.{get_address-set_address, get_address-set_flags, set_address-lt}
use turb_os.PageTable.Walk.{
  Machine, Pagemap, Place, virt2pte, set_lock, under_lock, change, update, map_mem, write,
  level_entry,
}

-- Each level of the walk is indexed by nine bits of the address.
pub level_entry_lem : (vaddr shift : ℕ) → level_entry vaddr shift ≡ vaddr / 2 ^ shift % 512
unfolding level_entry
level_entry_lem vaddr shift =
    let pos = one-le-pow shift 2 (omega arith) in
    let split = bit_and_split shift vaddr (0x1FF * 2 ^ shift) in
    let upper =
      ap (bit_and (vaddr / 2 ^ shift)) (mul-div_cancel 0x1FF pos)
      ∙ bit_and_mask 9 (vaddr / 2 ^ shift) in
    let lower =
      ap (bit_and (vaddr % 2 ^ shift)) (mul-mod_left 0x1FF (2 ^ shift))
      ∙ bit_and-zero (vaddr % 2 ^ shift) in
    let whole : bit_and vaddr (0x1FF * 2 ^ shift) ≡ vaddr / 2 ^ shift % 512 * 2 ^ shift =
      split ∙ (ap₂ (λ (x y : ℕ). x * 2 ^ shift + y) upper lower ∙ add-zero _) in
    rw (whole, mul-div_cancel (vaddr / 2 ^ shift % 512) pos)

-- The four indices and the offset in the page make up an address of 48 bits, and each index is one of a
-- table with 512 entries.
pub level_entry_sum :
    (vaddr : ℕ)
    → vaddr < 2 ^ 48
    → (level_entry vaddr 39 * 2 ^ 39
          + level_entry vaddr 30 * 2 ^ 30
          + level_entry vaddr 21 * 2 ^ 21
          + level_entry vaddr 12 * 2 ^ 12
          + vaddr % 2 ^ 12
        ≡ vaddr)
      × (level_entry vaddr 39 < 512)
      × (level_entry vaddr 30 < 512)
      × (level_entry vaddr 21 < 512)
      × (level_entry vaddr 12 < 512)
level_entry_sum vaddr h = omega (
  arith,
  level_entry_lem vaddr 39,
  level_entry_lem vaddr 30,
  level_entry_lem vaddr 21,
  level_entry_lem vaddr 12,
)

-- With the lock free and a walk that finds an entry, `mapMem` with flags below bit 12 returns: the entry
-- holds the physical page cut to 40 bits, every flag asked for is on, and no other entry differs from
-- what the walk left.
pub map_mem_lem :
    (s u : Machine) (pm : Pagemap) (vaddr paddr flags : ℕ) (at : Place)
    → s.held pm.lock ≡ false
    → virt2pte (set_lock s pm true) pm vaddr ≡ some (u, at)
    → u.entry at.0 at.1 < 2 ^ 64
    → flags < 2 ^ 12
    → (s' : Machine) × (map_mem s pm vaddr paddr flags ≡ some (s', at))
      × (get_address (s'.entry at.0 at.1) ≡ paddr / 2 ^ 12 % 2 ^ 40)
      × ((k : ℕ) → k < 64 → bit_at flags k ≡ 1 → bit_at (s'.entry at.0 at.1) k ≡ 1)
      × ((t i : ℕ) → (t ≢ at.0) ⊎ (i ≢ at.1) → s'.entry t i ≡ u.entry t i)
unfolding map_mem update under_lock change
map_mem_lem s u pm vaddr paddr flags at open_ walk fits low =
    let v = u.entry at.0 at.1 in
    let addressed = set_address v (paddr / 2 ^ 12) in
    let value = set_flags addressed flags true in
    let s' = set_lock (write u at.0 at.1 value) pm false in
    let same : s'.entry at.0 at.1 ≡ value = ground arith in
    let reads : get_address value ≡ paddr / 2 ^ 12 % 2 ^ 40 =
      get_address-set_flags addressed flags true (set_address-lt v (paddr / 2 ^ 12) fits) low
      ∙ (get_address-set_address v (paddr / 2 ^ 12) fits).0 in
    (
      s',
      rw (open_, walk) refl,
      ap get_address same ∙ reads,
      λ k lt on. rw same (ground (arith, bit_at-set_flags addressed flags true k (omega arith) lt)),
      λ t i out. ground arith,
    )
