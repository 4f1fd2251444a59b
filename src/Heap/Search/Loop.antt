-- ===== src/Heap/Search/Loop.antt =====
-- `find_best` itself: its loop, and the split of the block that it has found.
use mathlib.Core.Path.{subst}
use turb_os.Base.{
  ℕ, zero, suc, ◌+◌, ◌*◌, ◌≤◌, ◌<◌, ◌≡◌, refl, true, false, ltb, leb, ◌==◌, ◌&&◌, ◌||◌,
  if◌then◌else◌, List, [], ◌∷◌, inl, inr, Bool-cases, sym, ◌∙◌, arith,
}
use turb_os.Base.Lists.{length}
use turb_os.Base.Words.{u64_mod}
use turb_os.Heap.Defs.{
  HeapBlock, Headers, Search, next, next_pair, double, mergeable, best_block, best_tmp,
  search_merge, search_advance, search_step, search_loop,
}
use turb_os.Heap.Chain.{Tiles, Tiles-le, Tiles-lt, IsBlockSize-le}
use turb_os.Heap.Pair.{
  Paired, next_pair-Paired, next-Tiles, below, mergeable_lem, double_rest, double_first,
  mergeable_parts,
}
use turb_os.Heap.Search.{
  Origin, BestFrom, Searched, Searched-stop, Searched-cons, Searched-merge, Start,
  best_block-Origin, best_tmp-Origin, double-Origin,
}

abbrev pub state : Headers → ℕ → ℕ → ℕ → Search
state m a tmp b0 = record { headers = m; block = a; tmp = tmp; best = b0 }

Start-BestFrom :
    (size a : ℕ) (l : List HeapBlock) (b0 : ℕ) → Start size a l b0 → BestFrom size a l b0 b0
Start-BestFrom size a [] b0 lt = inl (refl, lt)
Start-BestFrom size a (x ∷ l) b0 (inl (e, lt)) = inl (refl, lt)
Start-BestFrom size a (x ∷ l) b0 (inr fits) = inr (inl fits)

pub Start-below : (size a : ℕ) (l : List HeapBlock) (b0 : ℕ) → b0 < a → Start size a l b0
Start-below size a [] b0 lt = lt
Start-below size a (x ∷ l) b0 lt = inl (refl, lt)

search_done :
    (fuel t size : ℕ) (s : Search)
    → (ltb s.block t && ltb s.tmp t) ≡ false
    → search_loop fuel t size s ≡ s
unfolding search_loop
search_done fuel t size s e = elim fuel as (λ n. search_loop n t size s ≡ s) [
  | zero ↦ refl
  | suc n ↦ rw (e, search_loop) refl
]

search_more :
    (fuel t size : ℕ) (s : Search)
    → (ltb s.block t && ltb s.tmp t) ≡ true
    → search_loop (suc fuel) t size s ≡ search_loop fuel t size (search_step t size s)
unfolding search_loop
search_more fuel t size s e = rw (e, search_loop) refl

step_merge :
    (t size : ℕ) (s : Search)
    → mergeable s.headers s.block s.tmp ≡ true
    → search_step t size s ≡ search_merge t size s
unfolding search_step
step_merge t size s e = rw (e, search_step) refl

step_advance :
    (t size : ℕ) (s : Search)
    → mergeable s.headers s.block s.tmp ≡ false
    → search_step t size s ≡ search_advance t size s
unfolding search_step
step_advance t size s e = rw (e, search_step) refl

-- the candidate after a merge at `a`
abbrev best_joined : Headers → ℕ → ℕ → ℕ → ℕ
best_joined m size a b0 =
    if leb size (m a).size && (b0 == 0 || leb (m a).size (m b0).size) then a else b0

module _ (m : Headers) (a t size : ℕ) (x y : HeapBlock) (l : List HeapBlock) (b0 fuel : ℕ)
    (h : Tiles m a (x ∷ y ∷ l) t) (fits : t < u64_mod) where
  -- The loop with a merge at `a`, and without one, when the first block is not larger, and when it is.
  merged :
      mergeable m a (a + x.size) ≡ true
      → search_loop (suc fuel) t size (state m a (a + x.size) b0)
        ≡ search_loop fuel t size (
            state
              (double m a)
              (a + x.size + y.size)
              (next_pair (double m a) t (a + x.size + y.size) (a + x.size))
              (best_joined (double m a) size a b0))
  unfolding search_merge
  merged e =
      let s = state m a (a + x.size) b0 in
      let go = search_more fuel t size s (below m a t x y l h fits) in
      let kept : double m a (a + x.size) ≡ y = ground (arith, IsBlockSize-le x.size h.1, h.2.0) in
      let le = Tiles-le m t (a + x.size + y.size) l h.2.2 in
      let to : next (double m a) (a + x.size) ≡ a + x.size + y.size = rw kept (omega (arith, le)) in
      go ∙ rw (step_merge t size s e, search_merge, to) refl

  two_on :
      mergeable m a (a + x.size) ≡ false
      → leb x.size y.size ≡ true
      → search_loop (suc fuel) t size (state m a (a + x.size) b0)
        ≡ search_loop fuel t size (
            state m
              (a + x.size + y.size)
              (next_pair m t (a + x.size + y.size) (a + x.size))
              (best_tmp m size (a + x.size) (best_block m size a b0)))
  unfolding search_advance
  two_on e le =
      let s = state m a (a + x.size) b0 in
      let go = search_more fuel t size s (below m a t x y l h fits) in
      let order : leb (m a).size (m (a + x.size)).size ≡ true = rw (h.0, h.2.0) le in
      go
      ∙ rw
          (step_advance t size s e, search_advance, order, next-Tiles m (a + x.size) t y l h.2 fits)
          refl

  one_on :
      mergeable m a (a + x.size) ≡ false
      → leb x.size y.size ≡ false
      → search_loop (suc fuel) t size (state m a (a + x.size) b0)
        ≡ search_loop fuel t size (
            state m
              (a + x.size)
              (next m (a + x.size))
              (best_tmp m size (a + x.size) (best_block m size a b0)))
  unfolding search_advance
  one_on e gt =
      let s = state m a (a + x.size) b0 in
      let go = search_more fuel t size s (below m a t x y l h fits) in
      let order : leb (m a).size (m (a + x.size)).size ≡ false = rw (h.0, h.2.0) gt in
      go ∙ rw (step_advance t size s e, search_advance, order) refl

Origin-lt :
    (size a : ℕ) (x : HeapBlock) (b0 c : ℕ) → 0 < x.size → Origin size a x b0 c → c < a + x.size
Origin-lt size a x b0 c pos (inl (e, lt)) = omega arith
Origin-lt size a x b0 c pos (inr (e, free, fits)) = omega arith

-- The candidate `d` is where the search stands, or the earlier `c`.
Origin-Start :
    (size a : ℕ) (y : HeapBlock) (l : List HeapBlock) (c d : ℕ)
    → Origin size a y c d
    → Start size a (y ∷ l) d
Origin-Start size a y l c d (inl (e, lt)) = inl (refl, omega arith)
Origin-Start size a y l c d (inr o) = inr o

BestFrom-rebase :
    (size a : ℕ) (y : HeapBlock) (l : List HeapBlock) (c d best : ℕ)
    → Origin size a y c d
    → BestFrom size a l d best
    → BestFrom size a l c best
BestFrom-rebase size a y l c d best (inl (e, lt)) (inl (f, _)) = inl (f ∙ e, lt)
BestFrom-rebase size a y l c d best (inr (e, _, _)) (inl (f, lt)) = absurd (omega arith)
BestFrom-rebase size a y l c d best o (inr later) = inr later

Searched-rebase :
    (m : Headers) (a t size : ℕ) (y : HeapBlock) (l : List HeapBlock) (c d : ℕ) (s : Search)
    → Origin size a y c d
    → Searched m a t size l d s
    → Searched m a t size l c s
Searched-rebase m a t size y l c d s o r = record {
  blocks = r.blocks;
  tiles = r.tiles;
  same_used = r.same_used;
  framed = r.framed;
  best = BestFrom-rebase size a y r.blocks c d s.best o r.best;
}

pub search_loop-Searched :
    (fuel : ℕ) (m : Headers) (a t size : ℕ) (l : List HeapBlock) (tmp b0 : ℕ)
    → length l ≤ fuel
    → Tiles m a l t
    → t < u64_mod
    → Paired m a t tmp
    → Start size a l b0
    → Searched m a t size l b0 (search_loop fuel t size (state m a tmp b0))
search_loop-Searched fuel m a t size [] tmp b0 enough h fits pair start =
    let e : (ltb a t && ltb tmp t) ≡ false = ground arith in
    rw (search_done fuel t size (state m a tmp b0) e)
      (Searched-stop m a t size [] b0 _ refl h (inl (refl, start)))
search_loop-Searched fuel m a t size (x ∷ []) tmp b0 enough h fits pair start =
    let b : tmp ≡ a + x.size =
      pair (omega (arith, Tiles-lt m t a x [] h)) ∙ next-Tiles m a t x [] h fits in
    let e : (ltb a t && ltb tmp t) ≡ false = ground (arith, h.2) in
    rw (search_done fuel t size (state m a tmp b0) e)
      (Searched-stop m a t size (x ∷ []) b0 _ refl h (Start-BestFrom size a (x ∷ []) b0 start))
search_loop-Searched zero m a t size (x ∷ y ∷ l) tmp b0 enough h fits pair start =
    absurd (omega arith)
search_loop-Searched (suc fuel) m a t size (x ∷ y ∷ l) tmp b0 enough h fits pair start =
    let b : tmp ≡ a + x.size =
      pair (omega (arith, Tiles-lt m t a x (y ∷ l) h)) ∙ next-Tiles m a t x (y ∷ l) h fits in
    let posx = IsBlockSize-le x.size h.1 in
    let posy = IsBlockSize-le y.size h.2.1 in
    let joins = mergeable_lem m a t x y l h fits in
    rw b (elim (Bool-cases (x.free && y.free && x.size == y.size)) [
      | inl yes' ↦
          let (fx, fy, same) = mergeable_parts x y yes' in
          let m' = double m a in
          let first = double_first m a t x y l h fits fx same in
          let c = best_joined m' size a b0 in
          let origin = double-Origin m' size a x (y ∷ l) b0 first start in
          let mid : a + x.size + y.size ≡ a + 2 * x.size = omega (arith, same) in
          rw (merged m a t size x y l b0 fuel h fits (joins ∙ yes'), mid)
            (Searched-merge m m' a t size x y l b0 c _ h fx fy (sym same) first
              (λ p ne. ground arith) origin
              (search_loop-Searched fuel m' (a + 2 * x.size) t size l _ c (omega arith)
                (subst (λ p. Tiles m' p l t) mid (double_rest m a t x y l h fits)) fits
                (next_pair-Paired m' (a + 2 * x.size) t (a + x.size))
                (Start-below size (a + 2 * x.size) l c (
                  Origin-lt size a (record { size = 2 * x.size; free = true }) b0 c
                    (omega (arith, posx)) origin))))
      | inr no' ↦
          let c = best_block m size a b0 in
          let d = best_tmp m size (a + x.size) c in
          let first = best_block-Origin m size a x (y ∷ l) b0 h.0 start in
          let lt = Origin-lt size a x b0 c (omega (arith, posx)) first in
          let second = best_tmp-Origin m size (a + x.size) y c h.2.0 lt in
          elim (Bool-cases (leb x.size y.size)) [
            | inl le ↦ rw (two_on m a t size x y l b0 fuel h fits (joins ∙ no') le) (
                Searched-cons m a t size x (y ∷ l) b0 c _ h first (
                  Searched-cons m (a + x.size) t size y l c d _ h.2 second (
                    search_loop-Searched fuel m (a + x.size + y.size) t size l _ d (omega arith)
                      h.2.2 fits (next_pair-Paired m (a + x.size + y.size) t (a + x.size))
                      (Start-below size (a + x.size + y.size) l d
                        (Origin-lt size (a + x.size) y c d (omega (arith, posy)) second)))))
            | inr gt ↦ rw (one_on m a t size x y l b0 fuel h fits (joins ∙ no') gt) (
                Searched-cons m a t size x (y ∷ l) b0 c _ h first (
                  Searched-rebase m (a + x.size) t size y (y ∷ l) c d _ second (
                    search_loop-Searched fuel m (a + x.size) t size (y ∷ l) _ d (omega arith) h.2
                      fits (λ _. refl) (Origin-Start size (a + x.size) y l c d second))))
          ]
    ])
