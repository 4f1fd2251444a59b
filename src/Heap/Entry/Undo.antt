-- ===== src/Heap/Entry/Undo.antt =====
-- `free` undoes `malloc`, and `malloc` with nothing to give.
use mathlib.Core.Path.{subst}
use turb_os.Base.{
  ℕ, suc, ◌+◌, ◌-◌, ◌^◌, ◌≤◌, ◌<◌, ◌≡◌, ◌≢◌, false, some, List, [], ◌∷◌, inl, inr, right_of, ap,
  sym, ◌∙◌, arith,
}
use turb_os.Base.Words.{add64}
use turb_os.Heap.Defs.{HeapBlock, Headers, required_size, coalescence}
use turb_os.Heap.Chain.{Tiles, Tiles-le, used_at}
use turb_os.Heap.Split.{free_block}
use turb_os.Heap.Coalesce.Loop.{coalescence-Joined}
use turb_os.Heap.Required.{required_size_lem}
use turb_os.Heap.Entry.{Heap, malloc, free, free_block_at}
use turb_os.Heap.Entry.Mark.{Stands, Fits-Stands, set_free-twice}
use turb_os.Heap.Entry.Laws.{
  IsValid, sought, taken, search_twice-Found, malloc_search, conclude_found,
  required_size-IsBlockSize, free_reaches,
}

Stands-end :
    (m : Headers) (t a : ℕ) (l : List HeapBlock) (p : ℕ) (x : HeapBlock)
    → Tiles m a l t
    → Stands a l p x
    → (a ≤ p) × (p + x.size ≤ t)
Stands-end m t a [] p x h f = absurd f
Stands-end m t a (b ∷ l) p x h (inl (e, same)) =
    let sizes : b.size ≡ x.size = ap (λ (y : HeapBlock). y.size) same in
    omega (arith, Tiles-le m t (a + b.size) l h.2)
Stands-end m t a (b ∷ l) p x h (inr f) = omega (arith, Stands-end m t (a + b.size) l p x h.2 f)

-- Freeing the block just taken leaves the chain that the search has left, joined.
freed_headers :
    (h : Heap) (m : Headers) (found size : ℕ)
    → m found ≡ free_block size
    → (free_block_at (taken h m found) found).headers ≡ coalescence h.head h.tail m
unfolding free_block_at
freed_headers h m found size exact =
    ap (λ (n : Headers). coalescence h.head h.tail n) (set_free-twice m found size exact)

-- A pointer that `malloc` has just returned can be freed: both calls return, and the heap is valid with
-- exactly the blocks in use of before. The heap has to be valid and not locked, the request positive and at
-- most 2 ^ 63 - 16 bytes, and one of the searches has to find a block.
pub free-malloc :
    (calls : ℕ) (h : Heap) (l : List HeapBlock) (size : ℕ)
    → IsValid h l
    → h.data_ptr ≢ 0
    → h.locked ≡ false
    → 0 < size
    → size ≤ 2 ^ 63 - 16
    → (sought h size).1 ≢ 0
    → (h' : Heap) × (p : ℕ) × (h'' : Heap) × (blocks : List HeapBlock) × (malloc (suc calls) h size
        ≡ some (h', p))
      × (free h' p ≡ some h'')
      × IsValid h'' blocks
      × (used_at h.head blocks ≡ used_at h.head l)
unfolding free_block_at
free-malloc calls h l size v set open_ pos le found =
    let s_size = required_size-IsBlockSize size le pos in
    let r =
      search_twice-Found h.headers h.head h.tail (required_size size) l v.above_zero v.not_empty
        v.tiles v.in_memory s_size in
    let m = (sought h size).0 in
    let block = (sought h size).1 in
    let h' = taken h m block in
    let j = coalescence-Joined m h.head h.tail r.0 v.above_zero r.1 v.in_memory in
    let (fits, exact) = right_of found r.3 in
    let stands = Fits-Stands m h.tail (required_size size) h.head r.0 block r.1 fits in
    let bounds = Stands-end m h.tail h.head r.0 block (m block) r.1 stands in
    let sizes : (m block).size ≡ required_size size = ap (λ (b : HeapBlock). b.size) exact in
    let room = required_size_lem size le pos in
    let place : add64 block 16 ≡ block + 16 = omega (arith, bounds, v.in_memory, room.2, sizes) in
    let reached =
      free_reaches h' block set open_ (omega (arith, bounds)) (omega (arith, bounds, room.2, sizes))
        v.in_memory in
    (
      h',
      add64 block 16,
      free_block_at h' block,
      j.blocks,
      malloc_search calls h size pos set open_ ∙ conclude_found h size (sought h size) _ found,
      ap (free h') place ∙ reached,
      record {
        above_zero = v.above_zero;
        tiles =
            subst (λ (n : Headers). Tiles n h.head j.blocks h.tail)
              (sym (freed_headers h m block (required_size size) exact)) j.tiles;
        not_empty = v.not_empty;
        in_memory = v.in_memory;
      },
      j.same_used ∙ r.2,
    )
