-- ===== src/Heap/Coalesce/Loop.antt =====
-- The loops of `coalescence`: one pass, and the passes until nothing is joined.
use mathlib.Core.Path.{subst}
use turb_os.Base.{
  ℕ, zero, suc, ◌+◌, ◌*◌, ◌≤◌, ◌<◌, ◌≡◌, refl, Bool, true, false, ltb, ◌==◌, ◌&&◌, if◌then◌else◌,
  List, [], ◌∷◌, ◌⊎◌, inl, inr, Bool-cases, sym, ◌∙◌, arith,
}
use turb_os.Base.Lists.{length}
use turb_os.Base.Words.{u64_mod}
use turb_os.Heap.Defs.{
  HeapBlock, Headers, next, double, Pass, pass_loop, pass, coalescence_loop, coalescence,
}
use turb_os.Heap.Pair.{
  Paired, next_pair-Paired, next-Tiles, below, mergeable_lem, sizes_lem, double_rest, double_first,
  double_next, mergeable_parts,
}
use turb_os.Heap.Chain.{Tiles, Tiles-lt, Tiles-length, used_at}
use turb_os.Heap.Coalesce.{
  Passed, Passed-stop, Passed-cons, Passed-merge, pass_done, pass_merge, pass_one, pass_two,
}

clear_or_keep : (b f : Bool) → ((if b then false else f) ≡ false) ⊎ ((if b then false else f) ≡ f)
clear_or_keep true f = inl refl
clear_or_keep false f = inr refl

pass_loop-Passed :
    (fuel : ℕ) (m : Headers) (a t : ℕ) (l : List HeapBlock) (tmp : ℕ) (flag : Bool)
    → length l ≤ fuel
    → Tiles m a l t
    → t < u64_mod
    → Paired m a t tmp
    → Passed m a t l flag (pass_loop fuel t m a tmp flag)
pass_loop-Passed fuel m a t [] tmp flag enough h fits pair =
    let e : (ltb a t && ltb tmp t) ≡ false = ground arith in
    rw (pass_done fuel t m a tmp flag e) (Passed-stop m a t [] flag h)
pass_loop-Passed fuel m a t (x ∷ []) tmp flag enough h fits pair =
    let b : tmp ≡ a + x.size =
      pair (omega (arith, Tiles-lt m t a x [] h)) ∙ next-Tiles m a t x [] h fits in
    let e : (ltb a t && ltb tmp t) ≡ false = ground (arith, h.2) in
    rw (pass_done fuel t m a tmp flag e) (Passed-stop m a t (x ∷ []) flag h)
pass_loop-Passed zero m a t (x ∷ y ∷ l) tmp flag enough h fits pair = absurd (omega arith)
pass_loop-Passed (suc fuel) m a t (x ∷ y ∷ l) tmp flag enough h fits pair =
    let b : tmp ≡ a + x.size =
      pair (omega (arith, Tiles-lt m t a x (y ∷ l) h)) ∙ next-Tiles m a t x (y ∷ l) h fits in
    let go = below m a t x y l h fits in
    let joins = mergeable_lem m a t x y l h fits in
    let order = sizes_lem m a t x y l h fits in
    rw b (elim (Bool-cases (x.free && y.free && x.size == y.size)) [
      | inl yes' ↦
          let (fx, fy, same) = mergeable_parts x y yes' in
          let m' = double m a in
          let first = double_first m a t x y l h fits fx same in
          let rest = double_rest m a t x y l h fits in
          let mid : next m' a ≡ a + 2 * x.size = double_next m a t x y l h fits fx same in
          rw (pass_merge fuel t m a (a + x.size) flag go (joins ∙ yes'), mid)
            (Passed-merge m m' a t x y l flag _ _ h fx fy (sym same) first (λ p ne. ground arith)
              (clear_or_keep (ltb (a + 2 * x.size) t) flag)
              (pass_loop-Passed fuel m' (a + 2 * x.size) t l _ _ (omega arith)
                (subst (λ p. Tiles m' p l t) (omega (arith, same)) rest) fits
                (next_pair-Paired m' (a + 2 * x.size) t (a + x.size))))
      | inr no' ↦ elim (Bool-cases (ltb x.size y.size)) [
        | inl lt ↦ rw (pass_one fuel t m a (a + x.size) flag go (joins ∙ no') (order ∙ lt)) (
            Passed-cons m a t x (y ∷ l) flag _ h (
              pass_loop-Passed fuel m (a + x.size) t (y ∷ l) _ flag (omega arith) h.2 fits
                (λ _. refl)))
        | inr ge ↦
            rw
              (
                pass_two fuel t m a (a + x.size) flag go (joins ∙ no') (order ∙ ge),
                next-Tiles m (a + x.size) t y l h.2 fits,
              )
              (Passed-cons m a t x (y ∷ l) flag _ h (
                Passed-cons m (a + x.size) t y l flag _ h.2 (
                  pass_loop-Passed fuel m (a + x.size + y.size) t l _ flag (omega arith) h.2.2 fits
                    (next_pair-Paired m (a + x.size + y.size) t (a + x.size)))))
      ]
    ])

-- What is left after `coalescence`: a chain in which the blocks in use are those of before, and the last
-- pass was one that joined nothing more.
pub record Joined (m : Headers) (a t : ℕ) (l : List HeapBlock) (m' : Headers) : Type 0 where
  pub blocks : List HeapBlock
  pub tiles : Tiles m' a blocks t
  pub same_used : used_at a blocks ≡ used_at a l
  pub not_more : length blocks ≤ length l
  pub settled :
      (last : Headers) × (m' ≡ (pass a t last).merged) × ((pass a t last).no_coalescence ≡ true)

fewer :
    (m : Headers) (a t : ℕ) (l : List HeapBlock) (r : Pass) (p : Passed m a t l true r)
    → r.no_coalescence ≡ false
    → length p.blocks < length l
fewer m a t l r p e = go p.shrinks
  where
    go :
        ((r.no_coalescence ≡ true) × (length p.blocks ≤ length l))
          ⊎ ((r.no_coalescence ≡ false) × (length p.blocks < length l))
        → length p.blocks < length l
    go (inl (keep, _)) = cc
    go (inr (_, lt)) = lt

pass-Passed :
    (m : Headers) (a t : ℕ) (l : List HeapBlock)
    → Tiles m a l t
    → t < u64_mod
    → Passed m a t l true (pass a t m)
unfolding pass
pass-Passed m a t l h fits =
    pass_loop-Passed t m a t l (next m a) true (omega (arith, Tiles-length m t a l h)) h fits
      (λ _. refl)

coalescence_loop-Joined :
    (fuel : ℕ) (m : Headers) (a t : ℕ) (l : List HeapBlock)
    → length l < fuel
    → Tiles m a l t
    → t < u64_mod
    → Joined m a t l (coalescence_loop fuel a t m)
unfolding coalescence_loop
coalescence_loop-Joined zero m a t l enough h fits = absurd (omega arith)
coalescence_loop-Joined (suc fuel) m a t l enough h fits =
    let p = pass-Passed m a t l h fits in
    elim (Bool-cases (pass a t m).no_coalescence) [
      | inl e ↦
          rw (e, coalescence_loop)
            (record {
              blocks = p.blocks;
              tiles = p.tiles;
              same_used = p.same_used;
              not_more = omega (arith, p.shrinks);
              settled = (m, refl, e);
            })
      | inr e ↦
          let lt = fewer m a t l (pass a t m) p e in
          let j =
            coalescence_loop-Joined fuel (pass a t m).merged a t p.blocks (omega (arith, lt))
              p.tiles fits in
          rw (e, coalescence_loop)
            (record {
              blocks = j.blocks;
              tiles = j.tiles;
              same_used = j.same_used ∙ p.same_used;
              not_more = omega (arith, lt, j.not_more);
              settled = j.settled;
            })
    ]

-- `coalescence` of a chain that does not start at null ends by its own test, with a chain over the same
-- bytes: no block in use was moved, resized or lost, and there are not more blocks than before.
pub coalescence-Joined :
    (m : Headers) (head tail : ℕ) (l : List HeapBlock)
    → 0 < head
    → Tiles m head l tail
    → tail < u64_mod
    → Joined m head tail l (coalescence head tail m)
unfolding coalescence
coalescence-Joined m head tail l pos h fits =
    coalescence_loop-Joined tail m head tail l (omega (arith, Tiles-length m tail head l h)) h fits
