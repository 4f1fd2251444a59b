-- ===== src/Heap/Entry/Mark.antt =====
-- A block of a chain is marked as used, or as free.
use mathlib.Core.Path.{subst}
use turb_os.Base.{
  ℕ, ◌+◌, ◌≤◌, ◌≡◌, refl, Bool, true, false, ◌==◌, if◌then◌else◌, List, [], ◌∷◌, ◌++◌, ◌⊎◌, inl,
  inr, ap, sym, ◌∙◌, fun_ext, Bool-cases, ==_iff, arith,
}
use turb_os.Heap.Defs.{HeapBlock, Headers, set_free}
use turb_os.Heap.Chain.{Tiles, Tiles-frame, used_at, Fits, IsBlockSize-le}

-- The block `x` of the chain stands at `p`.
abbrev pub Stands : ℕ → List HeapBlock → ℕ → HeapBlock → Type 0
Stands a [] p x = ⊥
Stands a (b ∷ l) p x = ((p ≡ a) × (b ≡ x)) ⊎ Stands (a + b.size) l p x

abbrev pub marked : HeapBlock → Bool → HeapBlock
marked x free = record { size = x.size; free = free }

-- The chain after `x` at `p` is marked: the other blocks are as before.
pub record Marked (m : Headers) (a t : ℕ) (l : List HeapBlock) (p : ℕ) (x : HeapBlock) (free : Bool)
    : Type 0 where
  pub blocks : List HeapBlock
  pub before : List (ℕ × ℕ)
  pub behind : List (ℕ × ℕ)
  pub tiles : Tiles (set_free m p free) a blocks t
  pub was : used_at a l ≡ before ++ (used_at p (x ∷ []) ++ behind)
  pub now : used_at a blocks ≡ before ++ (used_at p (marked x free ∷ []) ++ behind)
  pub stands : Stands a blocks p (marked x free)

Stands-le :
    (m : Headers) (t a : ℕ) (l : List HeapBlock) (p : ℕ) (x : HeapBlock)
    → Tiles m a l t
    → Stands a l p x
    → a ≤ p
Stands-le m t a [] p x h f = absurd f
Stands-le m t a (b ∷ l) p x h (inl (e, _)) = omega arith
Stands-le m t a (b ∷ l) p x h (inr f) = omega (arith, Stands-le m t (a + b.size) l p x h.2 f)

used_first :
    (b : Bool) (e : ℕ × ℕ) (u : List (ℕ × ℕ))
    → (if b then u else e ∷ u) ≡ (if b then [] else e ∷ []) ++ u
used_first true e u = refl
used_first false e u = refl

used_more :
    (b : Bool) (e : ℕ × ℕ) (u v w : List (ℕ × ℕ))
    → u ≡ v ++ w
    → (if b then u else e ∷ u) ≡ (if b then v else e ∷ v) ++ w
used_more true e u v w h = h
used_more false e u v w h = ap (λ l. e ∷ l) h

Marked-here :
    (m : Headers) (a t : ℕ) (x : HeapBlock) (l : List HeapBlock) (free : Bool)
    → Tiles m a (x ∷ l) t
    → Marked m a t (x ∷ l) a x free
Marked-here m a t x l free h =
    let pos = IsBlockSize-le x.size h.1 in
    record {
      blocks = marked x free ∷ l;
      before = [];
      behind = used_at (a + x.size) l;
      tiles = (
        (let own : set_free m a free a ≡ record { size = (m a).size; free = free } = ground arith in
            own ∙ ap (λ (b : HeapBlock). record { size = b.size; free = free }) h.0),
        h.1,
        Tiles-frame m (set_free m a free) t (a + x.size) l h.2 (λ p lo hi. ground arith),
      );
      was = used_first x.free (a, x.size) (used_at (a + x.size) l);
      now = used_first free (a, x.size) (used_at (a + x.size) l);
      stands = inl (refl, refl);
    }

Marked-later :
    (m : Headers) (a t : ℕ) (b : HeapBlock) (l : List HeapBlock) (p : ℕ) (x : HeapBlock)
    (free : Bool)
    → Tiles m a (b ∷ l) t
    → Stands (a + b.size) l p x
    → Marked m (a + b.size) t l p x free
    → Marked m a t (b ∷ l) p x free
Marked-later m a t b l p x free h at r =
    let pos = IsBlockSize-le b.size h.1 in
    let beyond = Stands-le m t (a + b.size) l p x h.2 at in
    record {
      blocks = b ∷ r.blocks;
      before = if b.free then r.before else (a, b.size) ∷ r.before;
      behind = r.behind;
      tiles = ((let other : set_free m p free a ≡ m a = ground arith in other ∙ h.0), h.1, r.tiles);
      was = used_more b.free (a, b.size) _ r.before (used_at p (x ∷ []) ++ r.behind) r.was;
      now =
          used_more b.free (a, b.size) _ r.before (used_at p (marked x free ∷ []) ++ r.behind)
            r.now;
      stands = inr r.stands;
    }

-- Marking a block of a chain changes the list of blocks in use at its place alone.
pub set_free-Marked :
    (m : Headers) (a t : ℕ) (l : List HeapBlock) (p : ℕ) (x : HeapBlock) (free : Bool)
    → Tiles m a l t
    → Stands a l p x
    → Marked m a t l p x free
set_free-Marked m a t [] p x free h at = absurd at
set_free-Marked m a t (b ∷ l) p x free h (inl (e, same)) =
    subst (λ q. Marked m a t (b ∷ l) q x free) (sym e)
      (subst (λ (y : HeapBlock). Marked m a t (b ∷ l) a y free) same (Marked-here m a t b l free h))
set_free-Marked m a t (b ∷ l) p x free h (inr at) =
    Marked-later m a t b l p x free h at (set_free-Marked m (a + b.size) t l p x free h.2 at)

-- A block that fits stands in the chain, with the header in memory.
pub Fits-Stands :
    (m : Headers) (t size a : ℕ) (l : List HeapBlock) (p : ℕ)
    → Tiles m a l t
    → Fits size a l p
    → Stands a l p (m p)
Fits-Stands m t size a [] p h f = absurd f
Fits-Stands m t size a (b ∷ l) p h (inl (e, _, _)) = inl (e, sym h.0 ∙ ap m (sym e))
Fits-Stands m t size a (b ∷ l) p h (inr f) = inr (Fits-Stands m t size (a + b.size) l p h.2 f)

-- A free block that has been marked as used and then as free is as it was.
pub set_free-twice :
    (m : Headers) (p size : ℕ)
    → m p ≡ record { size = size; free = true }
    → set_free (set_free m p false) p true ≡ m
set_free-twice m p size e =
    let held : record { size = (m p).size; free = true } ≡ m p =
      ap (λ (b : HeapBlock). record { size = b.size; free = true }) e ∙ sym e in
    let twice : set_free (set_free m p false) p true p ≡ record { size = (m p).size; free = true } =
      ground arith in
    let own = twice ∙ held in
    fun_ext (λ q. elim (Bool-cases (p == q)) [
      | inl same ↦
          subst (λ r. set_free (set_free m p false) p true r ≡ m r) ((==_iff p q).0 same) own
      | inr other ↦ ground arith
    ])
