-- ===== src/Heap/Search.antt =====
-- The loop of `find_best`, which joins free neighbours of one size on its way.
pub mod Loop
pub mod Best
use mathlib.Core.Path.{subst}
use turb_os.Base.{
  ℕ, zero, suc, ◌+◌, ◌*◌, ◌≤◌, ◌<◌, ◌≡◌, ◌≢◌, refl, Bool, true, false, ltb, leb, ◌==◌, ◌&&◌, ◌||◌,
  if◌then◌else◌, List, [], ◌∷◌, ◌⊎◌, inl, inr, Bool-cases, if-both, ap, sym, ◌∙◌, arith,
}
use turb_os.Base.Words.{u64_mod}
use turb_os.Heap.Defs.{HeapBlock, Headers, Search, best_block, best_tmp}
use turb_os.Heap.Chain.{
  Tiles, Tiles-le, Fits, used_at, Outside, Framed, IsBlockSize-le, IsBlockSize-double,
}

-- `best` is the candidate `b0` from below `a`, or a free block among the blocks from `a` on, large enough.
abbrev pub BestFrom : ℕ → ℕ → List HeapBlock → ℕ → ℕ → Type 0
BestFrom size a l b0 best = ((best ≡ b0) × (b0 < a)) ⊎ Fits size a l best

-- The candidate `c` after the block `x` at `a` has been seen.
abbrev pub Origin : ℕ → ℕ → HeapBlock → ℕ → ℕ → Type 0
Origin size a x b0 c = ((c ≡ b0) × (b0 < a)) ⊎ ((c ≡ a) × (x.free ≡ true) × (size ≤ x.size))

-- What the loop leaves of the blocks `l` from `a` to `t`, when `b0` was the best block before.
pub record Searched (m : Headers) (a t size : ℕ) (l : List HeapBlock) (b0 : ℕ) (s : Search)
    : Type 0 where
  pub blocks : List HeapBlock
  pub tiles : Tiles s.headers a blocks t
  pub same_used : used_at a blocks ≡ used_at a l
  pub framed : Framed a t m s.headers
  pub best : BestFrom size a blocks b0 s.best

pub Searched-stop :
    (m : Headers) (a t size : ℕ) (l : List HeapBlock) (b0 : ℕ) (s : Search)
    → s.headers ≡ m
    → Tiles m a l t
    → BestFrom size a l b0 s.best
    → Searched m a t size l b0 s
Searched-stop m a t size l b0 s same h best = record {
  blocks = l;
  tiles = subst (λ n. Tiles n a l t) (sym same) h;
  same_used = refl;
  framed = λ p out. ap (λ (n : Headers). n p) same;
  best = best;
}

BestFrom-cons :
    (size a : ℕ) (x : HeapBlock) (l : List HeapBlock) (b0 c best : ℕ)
    → Origin size a x b0 c
    → BestFrom size (a + x.size) l c best
    → BestFrom size a (x ∷ l) b0 best
BestFrom-cons size a x l b0 c best (inl (e, lt)) (inl (f, _)) = inl (f ∙ e, lt)
BestFrom-cons size a x l b0 c best (inr (e, free, fits)) (inl (f, _)) =
    inr (inl (f ∙ e, free, fits))
BestFrom-cons size a x l b0 c best o (inr later) = inr (inr later)

pub inner : (a n t p : ℕ) → 0 < n → a + n ≤ t → Outside a t p → Outside (a + n) t p
inner a n t p pos le (inl lo) = inl (omega arith)
inner a n t p pos le (inr hi) = inr hi

-- A block that the loop leaves as it is.
pub Searched-cons :
    (m : Headers) (a t size : ℕ) (x : HeapBlock) (l : List HeapBlock) (b0 c : ℕ) (s : Search)
    → Tiles m a (x ∷ l) t
    → Origin size a x b0 c
    → Searched m (a + x.size) t size l c s
    → Searched m a t size (x ∷ l) b0 s
Searched-cons m a t size x l b0 c s h origin rest =
    let pos = IsBlockSize-le x.size h.1 in
    let le = Tiles-le m t (a + x.size) l h.2 in
    record {
      blocks = x ∷ rest.blocks;
      tiles = (rest.framed a (inl (omega arith)) ∙ h.0, h.1, rest.tiles);
      same_used = ap (λ (u : List (ℕ × ℕ)). if x.free then u else (a, x.size) ∷ u) rest.same_used;
      framed = λ p out. rest.framed p (inner a x.size t p (omega arith) le out);
      best = BestFrom-cons size a x rest.blocks b0 c s.best origin rest.best;
    }

-- Two free blocks of one size that the loop joins.
pub Searched-merge :
    (m m' : Headers) (a t size : ℕ) (x y : HeapBlock) (l : List HeapBlock) (b0 c : ℕ) (s : Search)
    → Tiles m a (x ∷ y ∷ l) t
    → x.free ≡ true
    → y.free ≡ true
    → y.size ≡ x.size
    → m' a ≡ record { size = 2 * x.size; free = true }
    → ((p : ℕ) → p ≢ a → m' p ≡ m p)
    → Origin size a (record { size = 2 * x.size; free = true }) b0 c
    → Searched m' (a + 2 * x.size) t size l c s
    → Searched m a t size (x ∷ y ∷ l) b0 s
Searched-merge m m' a t size x y l b0 c s h fx fy same at else_ origin rest =
    let pos = IsBlockSize-le x.size h.1 in
    let mid : a + x.size + y.size ≡ a + 2 * x.size = omega arith in
    let le = Tiles-le m t (a + x.size + y.size) l h.2.2 in
    let joined : HeapBlock = record { size = 2 * x.size; free = true } in
    record {
      blocks = joined ∷ rest.blocks;
      tiles = (rest.framed a (inl (omega arith)) ∙ at, IsBlockSize-double x.size h.1, rest.tiles);
      same_used = rw (fx, fy, mid) rest.same_used;
      framed = λ p out.
          rest.framed p (inner a (2 * x.size) t p (omega arith) (omega arith) out)
          ∙ else_ p (ground arith);
      best = BestFrom-cons size a joined rest.blocks b0 c s.best origin rest.best;
    }

-- `b0` lies below `a`, or is the block at `a`, which is free and large enough.
abbrev pub Start : ℕ → ℕ → List HeapBlock → ℕ → Type 0
Start size a [] b0 = b0 < a
Start size a (x ∷ l) b0 = Origin size a x b0 b0

Origin-if :
    (size a : ℕ) (x : HeapBlock) (b0 : ℕ) (b : Bool)
    → (b ≡ true → (x.free ≡ true) × (size ≤ x.size))
    → Origin size a x b0 b0
    → Origin size a x b0 (if b then a else b0)
Origin-if size a x b0 true h o = let (free, fits) = h refl in inr (refl, free, fits)
Origin-if size a x b0 false h o = o

large_enough :
    (b : HeapBlock) (size : ℕ) (better : Bool)
    → (b.free && leb size b.size && better) ≡ true
    → (b.free ≡ true) × (size ≤ b.size)
large_enough b size better e = ground arith

-- The updates of the candidate.
pub best_block-Origin :
    (m : Headers) (size a : ℕ) (x : HeapBlock) (l : List HeapBlock) (b0 : ℕ)
    → m a ≡ x
    → Start size a (x ∷ l) b0
    → Origin size a x b0 (best_block m size a b0)
best_block-Origin m size a x l b0 e start =
    Origin-if size a x b0 _
      (λ on.
        subst (λ (b : HeapBlock). (b.free ≡ true) × (size ≤ b.size)) e
          (large_enough (m a) size _ on))
      start

pub best_tmp-Origin :
    (m : Headers) (size a : ℕ) (x : HeapBlock) (c : ℕ)
    → m a ≡ x
    → c < a
    → Origin size a x c (best_tmp m size a c)
best_tmp-Origin m size a x c e lt =
    Origin-if size a x c _
      (λ on.
        subst (λ (b : HeapBlock). (b.free ≡ true) × (size ≤ b.size)) e
          (large_enough (m a) size _ on))
      (inl (refl, lt))

pub double-Origin :
    (m : Headers) (size a : ℕ) (x : HeapBlock) (l : List HeapBlock) (b0 : ℕ)
    → m a ≡ record { size = 2 * x.size; free = true }
    → Start size a (x ∷ l) b0
    → Origin size a
        (record { size = 2 * x.size; free = true })
        b0
        (if leb size (m a).size && (b0 == 0 || leb (m a).size (m b0).size) then a else b0)
double-Origin m size a x l b0 e start =
    let joined : HeapBlock = record { size = 2 * x.size; free = true } in
    Origin-if size a joined b0 _
      (λ on.
        (refl, let is : (m a).size ≡ 2 * x.size = ap (λ (b : HeapBlock). b.size) e in ground arith))
      (grown start)
  where
    grown : Origin size a x b0 b0 → Origin size a (record { size = 2 * x.size; free = true }) b0 b0
    grown (inl below) = inl below
    grown (inr (at, free, fits)) = inr (at, refl, omega (arith, fits))
