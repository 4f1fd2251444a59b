-- ===== src/Heap/Entry/Expand.antt =====
-- `expand` gives the heap new pages as one free block.
use turb_os.Base.{
  ℕ, zero, suc, ◌+◌, ◌^◌, ◌/◌, ◌≤◌, ◌<◌, ◌≡◌, ◌≢◌, refl, true, false, ◌==◌, some, [], ◌∷◌, if_false,
  ap, ◌∙◌, arith,
}
use turb_os.Base.Words.{u64_mod, add64, mul64}
use turb_os.Math.Rounding.{align_up_2}
use turb_os.Math.PowerOfTwo.{power_of_2}
use turb_os.PMemory.Defs
use turb_os.Heap.Defs.{put, next}
use turb_os.Heap.Chain.{IsBlockSize, used_at, IsBlockSize-le}
use turb_os.Math.Rounding.{align_up_2_lem}
use turb_os.Math.PowerOfTwo.{power_of_2_iff}
use native.Mathlib.Nat.{pow-suc}
use turb_os.Heap.Split.{free_block}
use turb_os.Heap.Entry.{Heap, renew, expand}
use turb_os.Heap.Entry.Laws.{IsValid}

-- the size that `expand` asks for, in bytes
abbrev pub wanted : Heap → ℕ → ℕ
wanted h pagecount = align_up_2 0x1000 (mul64 (add64 pagecount h.pages) 0x1000)

renew-IsValid :
    (h : Heap) (size count : ℕ) (memory : Defs.State) (base : ℕ)
    → IsBlockSize size
    → base ≢ 0
    → base + size < u64_mod
    → IsValid (renew h size count (memory, base)) (free_block size ∷ [])
      × ((renew h size count (memory, base)).locked ≡ false)
unfolding renew
renew-IsValid h size count memory base s_size nz fits =
    let set : (base == 0) ≡ false = ground arith in
    let own : put h.headers base (free_block size) base ≡ free_block size = ground arith in
    let end : next (put h.headers base (free_block size)) base ≡ base + size =
      rw own (omega arith) in
    let there : 0 < base = omega arith in
    rw (renew, set, end)
      (
        record {
          above_zero = there;
          tiles = (own, s_size, refl);
          not_empty = omega (arith, IsBlockSize-le size s_size);
          in_memory = fits;
        },
        refl,
      )

IsBlockSize-pow : (k : ℕ) → 3 ≤ k → IsBlockSize (2 ^ suc k)
IsBlockSize-pow zero h = absurd (omega arith)
IsBlockSize-pow (suc zero) h = absurd (omega arith)
IsBlockSize-pow (suc (suc zero)) h = absurd (omega arith)
IsBlockSize-pow (suc (suc (suc j))) h = (
  j,
  omega (
    arith,
    pow-suc 2 j,
    pow-suc 2 (suc j),
    pow-suc 2 (suc (suc j)),
    pow-suc 2 (suc (suc (suc j))),
  ),
)

-- `expand` of a heap that is not locked by one or more pages, when the pages and those of before come to more
-- than 2 ^ k bytes and at most 2 ^ (k + 1), and `pMemory::realloc` gives room for 2 ^ (k + 1): the heap is
-- one free block of that size, and no block of before is in use in it.
pub expand-IsValid :
    (h : Heap) (pagecount k : ℕ) (memory : Defs.State) (base : ℕ)
    → h.locked ≡ false
    → 0 < pagecount
    → 11 ≤ k
    → k < 63
    → 2 ^ k < mul64 (add64 pagecount h.pages) 0x1000
    → mul64 (add64 pagecount h.pages) 0x1000 ≤ 2 ^ suc k
    → Defs.realloc h.memory h.data_ptr h.pages (2 ^ suc k / 0x1000) ≡ some (memory, base)
    → base ≢ 0
    → base + 2 ^ suc k < u64_mod
    → (h' : Heap) × (expand h pagecount ≡ some h')
      × IsValid h' (free_block (2 ^ suc k) ∷ [])
      × (h'.locked ≡ false)
      × (used_at h'.head (free_block (2 ^ suc k) ∷ []) ≡ [])
unfolding expand
expand-IsValid h pagecount k memory base open_ pos lo hi above below given nz fits =
    let size = align_up_2_lem k (mul64 (add64 pagecount h.pages) 0x1000) lo hi above below in
    let power : power_of_2 (2 ^ suc k) ≡ true =
      (power_of_2_iff (suc k) (2 ^ suc k) (omega arith)
          (omega (arith, pow-suc 2 (suc k), pow-suc 2 k, above))).1
        refl in
    let some_pages : (pagecount == 0) ≡ false = ground arith in
    let r =
      renew-IsValid h (2 ^ suc k) (2 ^ suc k / 0x1000) memory base (IsBlockSize-pow k (omega arith))
        nz fits in
    (
      renew h (2 ^ suc k) (2 ^ suc k / 0x1000) (memory, base),
      if_false h.locked _ _ open_
          ∙ rw (some_pages, size, power, given)
              (ap (λ n. some (renew h n (n / 0x1000) (memory, base))) size),
      r.0,
      r.1,
      refl,
    )
