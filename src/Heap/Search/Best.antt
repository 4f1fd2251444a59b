-- ===== src/Heap/Search/Best.antt =====
-- `find_best` as a whole: the loop, and the split of the block that it has found.
use mathlib.Core.Path.{subst}
use turb_os.Base.{
  ℕ, suc, ◌+◌, ◌≤◌, ◌<◌, ◌≡◌, ◌≢◌, refl, true, false, ltb, leb, ◌==◌, ◌&&◌, if◌then◌else◌, List, [],
  ◌∷◌, ◌++◌, ◌⊎◌, inl, inr, Bool-cases, ap, sym, ◌∙◌, arith,
}
use turb_os.Base.Words.{u64_mod}
use turb_os.Heap.Defs.{HeapBlock, Headers, Search, next, split_loop, split, take_best, find_best}
use turb_os.Heap.Chain.{
  IsBlockSize, Tiles, Tiles-frame, Tiles-append, Tiles-le, Tiles-length, used_at, used_at-append,
  Fits, Fits-append_left, Outside, Framed, IsBlockSize-le,
}
use turb_os.Heap.Split.{free_block, split-Parted}
use turb_os.Heap.Search.{BestFrom, inner, Searched}
use turb_os.Heap.Search.Loop.{search_loop-Searched, Start-below}

-- The chain from `a` to `t` after an operation that keeps the blocks in use.
pub record Kept (m : Headers) (a t : ℕ) (l : List HeapBlock) (m' : Headers) : Type 0 where
  pub blocks : List HeapBlock
  pub tiles : Tiles m' a blocks t
  pub same_used : used_at a blocks ≡ used_at a l
  pub framed : Framed a t m m'

-- A free block of exactly `size` bytes is one of the chain's.
pub record Divided (m : Headers) (a t size : ℕ) (l : List HeapBlock) (r : Headers × ℕ)
    : Type 0 where
  pub kept : Kept m a t l r.0
  pub fits : Fits size a kept.blocks r.1
  pub exact : r.0 r.1 ≡ free_block size

Divided-here :
    (m : Headers) (a t size : ℕ) (b : HeapBlock) (l : List HeapBlock)
    → 0 < a
    → Tiles m a (b ∷ l) t
    → t < u64_mod
    → IsBlockSize size
    → b.free ≡ true
    → size ≤ b.size
    → Divided m a t size (b ∷ l) (split m a size)
Divided-here m a t size b l pos h small s_size free le =
    let end = Tiles-le m t (a + b.size) l h.2 in
    let head : m a ≡ free_block b.size = h.0 ∙ ap (λ f. record { size = b.size; free = f }) free in
    let parted = split-Parted m a b.size size (omega arith) head h.1 s_size le (omega arith) in
    let m' = (split m a size).0 in
    let rest = Tiles-frame m m' t (a + b.size) l h.2 (λ p lo hi. parted.framed p (inr lo)) in
    record {
      kept = record {
        blocks = parted.blocks ++ l;
        tiles = Tiles-append m' (a + b.size) t a parted.blocks l parted.tiles rest;
        same_used =
            used_at-append m' (a + b.size) a parted.blocks l parted.tiles
            ∙ rw (parted.none_used, free) refl;
        framed = λ p out. parted.framed p (shrink p out);
      };
      fits = Fits-append_left size a parted.blocks l _ parted.fits;
      exact = parted.exact;
    }
  where
    shrink : (p : ℕ) → Outside a t p → Outside a (a + b.size) p
    shrink p (inl lo) = inl lo
    shrink p (inr hi) = inr (omega (arith, Tiles-le m t (a + b.size) l h.2))

Divided-later :
    (m : Headers) (a t size : ℕ) (b : HeapBlock) (l : List HeapBlock) (r : Headers × ℕ)
    → Tiles m a (b ∷ l) t
    → Divided m (a + b.size) t size l r
    → Divided m a t size (b ∷ l) r
Divided-later m a t size b l r h d =
    let le = Tiles-le m t (a + b.size) l h.2 in
    let pos = IsBlockSize-le b.size h.1 in
    record {
      kept = record {
        blocks = b ∷ d.kept.blocks;
        tiles = (d.kept.framed a (inl (omega arith)) ∙ h.0, h.1, d.kept.tiles);
        same_used =
            ap (λ (u : List (ℕ × ℕ)). if b.free then u else (a, b.size) ∷ u) d.kept.same_used;
        framed = λ p out. d.kept.framed p (inner a b.size t p (omega arith) le out);
      };
      fits = inr d.fits;
      exact = d.exact;
    }

-- `split` of a free block in a chain, for a block size that it can hold.
pub split-Divided :
    (m : Headers) (a t size : ℕ) (l : List HeapBlock) (p : ℕ)
    → 0 < a
    → Tiles m a l t
    → t < u64_mod
    → IsBlockSize size
    → Fits size a l p
    → Divided m a t size l (split m p size)
split-Divided m a t size [] p pos h small s_size f = absurd f
split-Divided m a t size (b ∷ l) p pos h small s_size (inl (e, free, le)) =
    subst (λ q. Divided m a t size (b ∷ l) (split m q size)) (sym e)
      (Divided-here m a t size b l pos h small s_size free le)
split-Divided m a t size (b ∷ l) p pos h small s_size (inr f) =
    Divided-later m a t size b l _ h
      (split-Divided m (a + b.size) t size l p (omega arith) h.2 small s_size f)

-- What `find_best` returns: null, or a free block of exactly `size` bytes.
pub record Found (m : Headers) (a t size : ℕ) (l : List HeapBlock) (r : Headers × ℕ) : Type 0 where
  pub kept : Kept m a t l r.0
  pub result : (r.1 ≡ 0) ⊎ (Fits size a kept.blocks r.1 × (r.0 r.1 ≡ free_block size))

Found-null :
    (m : Headers) (a t size : ℕ) (l : List HeapBlock) → Tiles m a l t → Found m a t size l (m, 0)
Found-null m a t size l h = record {
  kept = record { blocks = l; tiles = h; same_used = refl; framed = λ p out. refl };
  result = inl refl;
}

Divided-Found :
    (m : Headers) (a t size : ℕ) (l : List HeapBlock) (r : Headers × ℕ)
    → Divided m a t size l r
    → Found m a t size l r
Divided-Found m a t size l r d = record { kept = d.kept; result = inr (d.fits, d.exact) }

-- The split happens in the chain that the loop has left.
Found-after :
    (m m' : Headers) (a t size : ℕ) (l l' : List HeapBlock) (r : Headers × ℕ)
    → Framed a t m m'
    → used_at a l' ≡ used_at a l
    → Found m' a t size l' r
    → Found m a t size l r
Found-after m m' a t size l l' r framed used f = record {
  kept = record {
    blocks = f.kept.blocks;
    tiles = f.kept.tiles;
    same_used = f.kept.same_used ∙ used;
    framed = λ p out. f.kept.framed p out ∙ framed p out;
  };
  result = f.result;
}

Fits-le :
    (m : Headers) (t size a : ℕ) (l : List HeapBlock) (p : ℕ)
    → Tiles m a l t
    → Fits size a l p
    → a ≤ p
Fits-le m t size a [] p h f = absurd f
Fits-le m t size a (b ∷ l) p h (inl (e, _, _)) = omega arith
Fits-le m t size a (b ∷ l) p h (inr f) = omega (arith, Fits-le m t size (a + b.size) l p h.2 f)

split_loop_stops :
    (fuel : ℕ) (m : Headers) (b size : ℕ)
    → ltb size (m b).size ≡ false
    → split_loop (suc fuel) m b size ≡ (m, b)
unfolding split_loop
split_loop_stops fuel m b size e = rw (e, split_loop) refl

split_too_large : (m : Headers) (b size : ℕ) → b ≢ 0 → (m b).size < size → split m b size ≡ (m, 0)
unfolding split
split_too_large m b size nz lt =
    let block_set : (b == 0) ≡ false = ground arith in
    let size_set : (size == 0) ≡ false = ground arith in
    let stop : ltb size (m b).size ≡ false = ground arith in
    let short : leb size (m b).size ≡ false = ground arith in
    rw (split, block_set, size_set, split_loop_stops 63 m b size stop, short) refl

take_best-Found :
    (m : Headers) (a t size : ℕ) (l : List HeapBlock) (s : Search)
    → 0 < a
    → t < u64_mod
    → IsBlockSize size
    → Searched m a t size l 0 s
    → Found m a t size l (take_best size s)
unfolding take_best
take_best-Found m a t size l s pos small s_size r =
    Found-after m s.headers a t size l r.blocks _ r.framed r.same_used (go r.best)
  where
    go : BestFrom size a r.blocks 0 s.best → Found s.headers a t size r.blocks (take_best size s)
    go (inl (e, _)) =
        let null : (s.best == 0) ≡ true = ground arith in
        rw (take_best, null) (Found-null s.headers a t size r.blocks r.tiles)
    go (inr f) =
        let set : (s.best == 0) ≡ false =
          ground (arith, Fits-le s.headers t size a r.blocks s.best r.tiles f) in
        rw (take_best, set)
          (Divided-Found s.headers a t size r.blocks _
            (split-Divided s.headers a t size r.blocks s.best pos r.tiles small s_size f))

-- the branch for a heap that is one free block
alone-Found :
    (m : Headers) (a t size : ℕ) (x : HeapBlock) (l : List HeapBlock)
    → 0 < a
    → Tiles m a (x ∷ l) t
    → t < u64_mod
    → IsBlockSize size
    → x.free ≡ true
    → Found m a t size (x ∷ l) (split m a size)
alone-Found m a t size x l pos h small s_size free = elim (Bool-cases (leb size x.size)) [
  | inl le ↦
      Divided-Found m a t size (x ∷ l) _
        (split-Divided m a t size (x ∷ l) a pos h small s_size (inl (refl, free, ground arith)))
  | inr gt ↦
      let lt : (m a).size < size = rw (h.0) (ground arith) in
      rw (split_too_large m a size (omega arith) lt) (Found-null m a t size (x ∷ l) h)
]

-- `find_best` of a heap that starts above null and is a chain of blocks, for a block size: the heap is a
-- chain over the same bytes with the same blocks in use at the same addresses, no header outside is written,
-- and the result is null or the address of a free block in it of exactly the size asked for.
pub find_best-Found :
    (m : Headers) (head tail size : ℕ) (x : HeapBlock) (l : List HeapBlock)
    → 0 < head
    → Tiles m head (x ∷ l) tail
    → tail < u64_mod
    → IsBlockSize size
    → Found m head tail size (x ∷ l) (find_best head tail m size)
unfolding find_best
find_best-Found m head tail size x l pos h small s_size =
    let set : (size == 0) ≡ false = ground (arith, IsBlockSize-le size s_size) in
    let tmp = next m head in
    let searched =
      search_loop-Searched tail m head tail size (x ∷ l) tmp 0
        (omega (arith, Tiles-length m tail head (x ∷ l) h)) h small (λ _. refl)
        (Start-below size head (x ∷ l) 0 pos) in
    elim (Bool-cases (tmp == tail && (m head).free)) [
      | inl alone ↦
          let free : x.free ≡ true = subst (λ (b : HeapBlock). b.free ≡ true) h.0 (ground arith) in
          rw (find_best, set, alone) (alone-Found m head tail size x l pos h small s_size free)
      | inr more ↦
          rw (find_best, set, more)
            (take_best-Found m head tail size (x ∷ l) _ pos small s_size searched)
    ]
