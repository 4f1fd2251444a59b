-- ===== src/Heap/Pair.antt =====
-- A block and the one behind it, as the loops over the heap see them.
use turb_os.Base.{ℕ, ◌+◌, ◌*◌, ◌<◌, ◌≡◌, refl, true, ltb, ◌==◌, ◌&&◌, List, ◌∷◌, ap, ◌∙◌, arith}
use turb_os.Base.Words.{u64_mod, add64, mul64}
use turb_os.Heap.Defs.{HeapBlock, Headers, next, next_pair, double, mergeable}
use turb_os.Heap.Chain.{Tiles, Tiles-frame, Tiles-le, Tiles-lt, IsBlockSize-le}

pub next-Tiles :
    (m : Headers) (a t : ℕ) (x : HeapBlock) (l : List HeapBlock)
    → Tiles m a (x ∷ l) t
    → t < u64_mod
    → next m a ≡ a + x.size
next-Tiles m a t x l h fits =
    let le = Tiles-le m t (a + x.size) l h.2 in rw (h.0) (omega (arith, le))

-- `tmp` is the block behind `a`.
abbrev pub Paired : Headers → ℕ → ℕ → ℕ → Type 0
Paired m a t tmp = a < t → tmp ≡ next m a

pub next_pair-Paired : (m : Headers) (a t tmp : ℕ) → Paired m a t (next_pair m t a tmp)
next_pair-Paired m a t tmp lt = ground arith

module _ (m : Headers) (a t : ℕ) (x y : HeapBlock) (l : List HeapBlock)
    (h : Tiles m a (x ∷ y ∷ l) t) (fits : t < u64_mod) where
  pub below : (ltb a t && ltb (a + x.size) t) ≡ true
  below = ground (arith, Tiles-lt m t a x (y ∷ l) h, Tiles-lt m t (a + x.size) y l h.2)

  pub mergeable_lem : mergeable m a (a + x.size) ≡ (x.free && y.free && x.size == y.size)
  mergeable_lem = rw (h.0, h.2.0) refl

  pub sizes_lem : ltb (m a).size (m (a + x.size)).size ≡ ltb x.size y.size
  sizes_lem = rw (h.0, h.2.0) refl

  -- The headers behind the two blocks do not see the doubling of the first.
  pub double_rest : Tiles (double m a) (a + x.size + y.size) l t
  double_rest =
      Tiles-frame m (double m a) t (a + x.size + y.size) l h.2.2
        (λ p lo hi. ground (arith, IsBlockSize-le x.size h.1))

  pub double_first :
      x.free ≡ true → x.size ≡ y.size → double m a a ≡ record { size = 2 * x.size; free = true }
  double_first fx same =
      let le = Tiles-le m t (a + x.size + y.size) l h.2.2 in
      let twice : mul64 x.size 2 ≡ 2 * x.size = omega (arith, same) in rw (h.0) (ground arith)

  pub double_next : x.free ≡ true → x.size ≡ y.size → next (double m a) a ≡ a + 2 * x.size
  double_next fx same =
      let le = Tiles-le m t (a + x.size + y.size) l h.2.2 in
      ap (λ (b : HeapBlock). add64 a b.size) (double_first fx same) ∙ omega (arith, same)

pub mergeable_parts :
    (x y : HeapBlock)
    → (x.free && y.free && x.size == y.size) ≡ true
    → (x.free ≡ true) × (y.free ≡ true) × (x.size ≡ y.size)
mergeable_parts x y e = ground arith
