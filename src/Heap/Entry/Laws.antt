-- ===== src/Heap/Entry/Laws.antt =====
-- What `malloc` and `free` do to the blocks in use.
use mathlib.Core.Path.{subst}
use mathlib.Core.Bool.{true≢false}
use turb_os.Base.{
  ℕ, suc, ◌+◌, ◌-◌, ◌^◌, ◌≤◌, ◌<◌, ◌≡◌, ◌≢◌, refl, Bool, true, false, ltb, leb, ◌==◌, if◌then◌else◌,
  Option, none, some, List, [], ◌∷◌, ◌++◌, ◌⊎◌, inl, inr, Bool-cases, sym, ◌∙◌, arith,
}
use turb_os.Base.Words.{u64_mod, add64, sub64}
use turb_os.Heap.Defs.{HeapBlock, Headers, set_free, find_best, required_size, coalescence}
use turb_os.Heap.Chain.{IsBlockSize, Tiles, Tiles-lt, used_at, Fits}
use turb_os.Heap.Split.{free_block}
use turb_os.Heap.Search.Best.{Found, find_best-Found}
use turb_os.Heap.Coalesce.Loop.{coalescence-Joined}
use turb_os.Heap.Entry.{Heap, search_twice, conclude, malloc, free, free_block_at}
use turb_os.Heap.Required.{required_size_lem}
use turb_os.Heap.Entry.Mark.{Stands, set_free-Marked, Fits-Stands}

-- The heap is a chain of blocks from `head` to `tail`, above null and not empty.
pub record IsValid (h : Heap) (l : List HeapBlock) : Type 0 where
  pub above_zero : 0 < h.head
  pub tiles : Tiles h.headers h.head l h.tail
  pub not_empty : h.head < h.tail
  pub in_memory : h.tail < u64_mod

-- a chain that is not empty
search-Found :
    (m : Headers) (head tail size : ℕ) (l : List HeapBlock)
    → 0 < head
    → head < tail
    → Tiles m head l tail
    → tail < u64_mod
    → IsBlockSize size
    → Found m head tail size l (find_best head tail m size)
search-Found m head tail size [] pos ne h small s_size = absurd (omega arith)
search-Found m head tail size (x ∷ l) pos ne h small s_size =
    find_best-Found m head tail size x l pos h small s_size

-- The two searches of `malloc`.
pub search_twice-Found :
    (m : Headers) (head tail size : ℕ) (l : List HeapBlock)
    → 0 < head
    → head < tail
    → Tiles m head l tail
    → tail < u64_mod
    → IsBlockSize size
    → (blocks : List HeapBlock) × (Tiles (search_twice head tail m size).0 head blocks tail)
      × (used_at head blocks ≡ used_at head l)
      × (((search_twice head tail m size).1 ≡ 0)
          ⊎ (Fits size head blocks (search_twice head tail m size).1
              × ((search_twice head tail m size).0 (search_twice head tail m size).1
                  ≡ free_block size)))
unfolding search_twice
search_twice-Found m head tail size l pos ne h small s_size =
    let first = search-Found m head tail size l pos ne h small s_size in
    let r = find_best head tail m size in
    let joined = coalescence-Joined r.0 head tail first.kept.blocks pos first.kept.tiles small in
    let second =
      search-Found (coalescence head tail r.0) head tail size joined.blocks pos ne joined.tiles
        small s_size in
    elim (Bool-cases (r.1 == 0)) [
      | inl e ↦ rw e (
        second.kept.blocks,
        second.kept.tiles,
        second.kept.same_used ∙ joined.same_used ∙ first.kept.same_used,
        second.result,
      )
      | inr e ↦ rw e (first.kept.blocks, first.kept.tiles, first.kept.same_used, first.result)
    ]

-- `p` was handed out: the list of blocks in use has one entry more, for the block 16 bytes before `p`, of
-- the size that the request needs; the others stand in it as before.
pub record Allocated (h h' : Heap) (l : List HeapBlock) (size p : ℕ) : Type 0 where
  pub blocks : List HeapBlock
  pub valid : IsValid h' blocks
  pub block : ℕ
  pub place : p ≡ block + 16
  pub before : List (ℕ × ℕ)
  pub behind : List (ℕ × ℕ)
  pub was : used_at h.head l ≡ before ++ behind
  pub now : used_at h.head blocks ≡ before ++ ((block, required_size size) ∷ behind)
  pub same_head : h'.head ≡ h.head
  pub same_tail : h'.tail ≡ h.tail
  pub unlocked : h'.locked ≡ h.locked

Stands-lt :
    (m : Headers) (t a : ℕ) (l : List HeapBlock) (p : ℕ) (x : HeapBlock)
    → Tiles m a l t
    → Stands a l p x
    → (a ≤ p) × (p + 16 ≤ t)
Stands-lt m t a [] p x h f = absurd f
Stands-lt m t a (b ∷ l) p x h (inl (e, _)) = omega (arith, Tiles-lt m t a b l h)
Stands-lt m t a (b ∷ l) p x h (inr f) = omega (arith, Stands-lt m t (a + b.size) l p x h.2 f)

-- the heap with the block found
abbrev pub taken : Heap → Headers → ℕ → Heap
taken h m found = record h { headers = set_free m found false; expanded = false }

conclude-Allocated :
    (h : Heap) (l blocks : List HeapBlock) (m : Headers) (found size : ℕ)
    → IsValid h l
    → Tiles m h.head blocks h.tail
    → used_at h.head blocks ≡ used_at h.head l
    → Fits (required_size size) h.head blocks found
    → m found ≡ free_block (required_size size)
    → Allocated h (taken h m found) l size (add64 found 16)
conclude-Allocated h l blocks m found size v tiles same fits exact =
    let stands =
      subst (λ x. Stands h.head blocks found x) exact
        (Fits-Stands m h.tail (required_size size) h.head blocks found tiles fits) in
    let k =
      set_free-Marked m h.head h.tail blocks found (free_block (required_size size)) false tiles
        stands in
    let bounds =
      Stands-lt m h.tail h.head blocks found (free_block (required_size size)) tiles stands in
    record {
      blocks = k.blocks;
      valid = record {
        above_zero = v.above_zero;
        tiles = k.tiles;
        not_empty = v.not_empty;
        in_memory = v.in_memory;
      };
      block = found;
      place = omega (arith, bounds, v.in_memory);
      before = k.before;
      behind = k.behind;
      was = sym same ∙ k.was;
      now = k.now;
      same_head = refl;
      same_tail = refl;
      unlocked = refl;
    }

-- the search of `malloc`
abbrev pub sought : Heap → ℕ → Headers × ℕ
sought h size = search_twice h.head h.tail h.headers (required_size size)

pub malloc_search :
    (calls : ℕ) (h : Heap) (size : ℕ)
    → 0 < size
    → h.data_ptr ≢ 0
    → h.locked ≡ false
    → malloc (suc calls) h size ≡ conclude h size (sought h size) (λ h'. malloc calls h' size)
unfolding malloc
malloc_search calls h size pos set open_ =
    let e1 : (size == 0) ≡ false = ground arith in
    let e2 : (h.data_ptr == 0) ≡ false = ground arith in rw (malloc, e1, e2) (go h.locked open_)
  where
    go :
        (b : Bool)
        → b ≡ false
        → (if b then none else conclude h size (sought h size) (λ h'. malloc calls h' size))
          ≡ conclude h size (sought h size) (λ h'. malloc calls h' size)
    go true e = absurd (true≢false e)
    go false e = refl

pub conclude_found :
    (h : Heap) (size : ℕ) (r : Headers × ℕ) (again : Heap → Option (Heap × ℕ))
    → r.1 ≢ 0
    → conclude h size r again ≡ some (taken h r.0 r.1, add64 r.1 16)
unfolding conclude
conclude_found h size r again nz =
    let e : (r.1 == 0) ≡ false = ground arith in rw (conclude, e) refl

pub required_size-IsBlockSize :
    (size : ℕ) → size ≤ 2 ^ 63 - 16 → 0 < size → IsBlockSize (required_size size)
required_size-IsBlockSize size le pos = let r = required_size_lem size le pos in (r.0, r.1)

-- `malloc` of a valid heap that is not locked, for up to 2 ^ 63 - 16 bytes, when one of its searches finds a
-- block: it returns a pointer for which `Allocated` holds.
pub malloc-Allocated :
    (calls : ℕ) (h : Heap) (l : List HeapBlock) (size : ℕ)
    → IsValid h l
    → h.data_ptr ≢ 0
    → h.locked ≡ false
    → 0 < size
    → size ≤ 2 ^ 63 - 16
    → (sought h size).1 ≢ 0
    → (h' : Heap) × (p : ℕ) × (malloc (suc calls) h size ≡ some (h', p)) × Allocated h h' l size p
malloc-Allocated calls h l size v set open_ pos le found =
    let s_size = required_size-IsBlockSize size le pos in
    let r =
      search_twice-Found h.headers h.head h.tail (required_size size) l v.above_zero v.not_empty
        v.tiles v.in_memory s_size in
    (
      taken h (sought h size).0 (sought h size).1,
      add64 (sought h size).1 16,
      malloc_search calls h size pos set open_ ∙ conclude_found h size (sought h size) _ found,
      elim r.3 [
        | inl null ↦ absurd (found null)
        | inr fits ↦
            conclude-Allocated h l r.0 (sought h size).0 (sought h size).1 size v r.1 r.2 fits.0
              fits.1
      ],
    )

-- The pointer was given back: the blocks in use are those of before without the block 16 bytes before it.
pub record Released (h h' : Heap) (l : List HeapBlock) (p size : ℕ) : Type 0 where
  pub blocks : List HeapBlock
  pub valid : IsValid h' blocks
  pub before : List (ℕ × ℕ)
  pub behind : List (ℕ × ℕ)
  pub was : used_at h.head l ≡ before ++ ((p, size) ∷ behind)
  pub now : used_at h.head blocks ≡ before ++ behind

pub free_reaches :
    (h : Heap) (block : ℕ)
    → h.data_ptr ≢ 0
    → h.locked ≡ false
    → h.head ≤ block
    → block + 16 < h.tail
    → h.tail < u64_mod
    → free h (block + 16) ≡ some (free_block_at h block)
unfolding free
free_reaches h block set open_ lo hi small =
    let e1 : (h.data_ptr == 0) ≡ false = ground arith in
    let e2 : (block + 16 == 0) ≡ false = ground arith in
    let e3 : ltb (block + 16) h.head ≡ false = ground arith in
    let e4 : leb h.tail (block + 16) ≡ false = ground arith in
    let e5 : sub64 (block + 16) 16 ≡ block = omega arith in
    rw (free, e1, e2, e3, e4, e5) (go h.locked open_)
  where
    go :
        (b : Bool)
        → b ≡ false
        → (if b then none else some (free_block_at h block)) ≡ some (free_block_at h block)
    go true e = absurd (true≢false e)
    go false e = refl

-- `free` of a block in use with room behind its header, in a valid heap that is not locked: it returns,
-- and `Released` holds.
pub free-Released :
    (h : Heap) (l : List HeapBlock) (block size : ℕ)
    → IsValid h l
    → h.data_ptr ≢ 0
    → h.locked ≡ false
    → Stands h.head l block (record { size = size; free = false })
    → block + 16 < h.tail
    → (h' : Heap) × (free h (block + 16) ≡ some h') × Released h h' l block size
unfolding free_block_at
free-Released h l block size v set open_ stands room =
    let x : HeapBlock = record { size = size; free = false } in
    let bounds = Stands-lt h.headers h.tail h.head l block x v.tiles stands in
    let k = set_free-Marked h.headers h.head h.tail l block x true v.tiles stands in
    let j =
      coalescence-Joined (set_free h.headers block true) h.head h.tail k.blocks v.above_zero k.tiles
        v.in_memory in
    (
      free_block_at h block,
      free_reaches h block set open_ (omega (arith, bounds)) room v.in_memory,
      record {
        blocks = j.blocks;
        valid = record {
          above_zero = v.above_zero;
          tiles = j.tiles;
          not_empty = v.not_empty;
          in_memory = v.in_memory;
        };
        before = k.before;
        behind = k.behind;
        was = k.was;
        now = j.same_used ∙ k.now;
      },
    )
