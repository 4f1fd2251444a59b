-- ===== src/Heap/Coalesce.antt =====
-- `coalescence` joins free neighbours of one size, pass after pass.
pub mod Loop
use mathlib.Core.Path.{subst}
use turb_os.Base.{
  ℕ, zero, suc, ◌+◌, ◌-◌, ◌*◌, ◌/◌, ◌^◌, ◌≤◌, ◌<◌, ◌≡◌, ◌≢◌, refl, Bool, true, false, ltb, leb,
  ◌==◌, ◌&&◌, if◌then◌else◌, List, [], ◌∷◌, ◌⊎◌, inl, inr, Bool-cases, ltb→lt, ap, sym, ◌∙◌, ==_iff,
  arith,
}
use turb_os.Base.Lists.{length}
use turb_os.Base.Words.{u64_mod, add64, mul64}
use turb_os.Heap.Defs.{
  HeapBlock, Headers, next, next_pair, double, mergeable, Pass, pass_loop, pass, coalescence_loop,
  coalescence,
}
use turb_os.Heap.Chain.{
  IsBlockSize, Tiles, Tiles-frame, Tiles-le, Tiles-lt, Tiles-length, used_at, Outside, Framed,
  IsBlockSize-le, IsBlockSize-double,
}

-- What a pass over the blocks `l` from `a` to `t` leaves: a chain again, in which the blocks in use are
-- those of before; with the flag as it was, or cleared and fewer blocks.
pub record Passed (m : Headers) (a t : ℕ) (l : List HeapBlock) (flag : Bool) (r : Pass)
    : Type 0 where
  pub blocks : List HeapBlock
  pub tiles : Tiles r.merged a blocks t
  pub same_used : used_at a blocks ≡ used_at a l
  pub framed : Framed a t m r.merged
  pub shrinks :
      ((r.no_coalescence ≡ flag) × (length blocks ≤ length l))
      ⊎ ((r.no_coalescence ≡ false) × (length blocks < length l))

pub Passed-stop :
    (m : Headers) (a t : ℕ) (l : List HeapBlock) (flag : Bool)
    → Tiles m a l t
    → Passed m a t l flag (record { merged = m; no_coalescence = flag })
Passed-stop m a t l flag h = record {
  blocks = l;
  tiles = h;
  same_used = refl;
  framed = λ p out. refl;
  shrinks = inl (refl, omega arith);
}

inner : (a n t p : ℕ) → 0 < n → a + n ≤ t → Outside a t p → Outside (a + n) t p
inner a n t p pos le (inl lo) = inl (omega arith)
inner a n t p pos le (inr hi) = inr hi

-- A block that the pass leaves as it is.
pub Passed-cons :
    (m : Headers) (a t : ℕ) (x : HeapBlock) (l : List HeapBlock) (flag : Bool) (r : Pass)
    → Tiles m a (x ∷ l) t
    → Passed m (a + x.size) t l flag r
    → Passed m a t (x ∷ l) flag r
Passed-cons m a t x l flag r h rest =
    let pos = IsBlockSize-le x.size h.1 in
    let le = Tiles-le m t (a + x.size) l h.2 in
    record {
      blocks = x ∷ rest.blocks;
      tiles = (rest.framed a (inl (omega arith)) ∙ h.0, h.1, rest.tiles);
      same_used = ap (λ (u : List (ℕ × ℕ)). if x.free then u else (a, x.size) ∷ u) rest.same_used;
      framed = λ p out. rest.framed p (inner a x.size t p (omega arith) le out);
      shrinks = ground arith;
    }

-- Two free blocks of one size that the pass joins.
pub Passed-merge :
    (m m' : Headers) (a t : ℕ) (x y : HeapBlock) (l : List HeapBlock) (flag flag' : Bool) (r : Pass)
    → Tiles m a (x ∷ y ∷ l) t
    → x.free ≡ true
    → y.free ≡ true
    → y.size ≡ x.size
    → m' a ≡ record { size = 2 * x.size; free = true }
    → ((p : ℕ) → p ≢ a → m' p ≡ m p)
    → (flag' ≡ false) ⊎ (flag' ≡ flag)
    → Passed m' (a + 2 * x.size) t l flag' r
    → Passed m a t (x ∷ y ∷ l) flag r
Passed-merge m m' a t x y l flag flag' r h fx fy same at else_ flags rest =
    let pos = IsBlockSize-le x.size h.1 in
    let mid : a + x.size + y.size ≡ a + 2 * x.size = omega arith in
    let le = Tiles-le m t (a + x.size + y.size) l h.2.2 in
    record {
      blocks = record { size = 2 * x.size; free = true } ∷ rest.blocks;
      tiles = (rest.framed a (inl (omega arith)) ∙ at, IsBlockSize-double x.size h.1, rest.tiles);
      same_used = rw (fx, fy, mid) rest.same_used;
      framed = λ p out.
          rest.framed p (inner a (2 * x.size) t p (omega arith) (omega arith) out)
          ∙ else_ p (ground arith);
      shrinks = ground arith;
    }

-- The loop is at the last block, or behind it.
module _ (fuel t : ℕ) (m : Headers) (a tmp : ℕ) (flag : Bool) where
  pub pass_done :
      (ltb a t && ltb tmp t) ≡ false
      → pass_loop fuel t m a tmp flag ≡ record { merged = m; no_coalescence = flag }
  unfolding pass_loop
  pass_done e =
      elim fuel
        as (λ n. pass_loop n t m a tmp flag ≡ record { merged = m; no_coalescence = flag }) [
          | zero ↦ refl
          | suc n ↦ rw (e, pass_loop) refl
        ]

  pub pass_merge :
      (ltb a t && ltb tmp t) ≡ true
      → mergeable m a tmp ≡ true
      → pass_loop (suc fuel) t m a tmp flag
        ≡ pass_loop fuel t
            (double m a)
            (next (double m a) a)
            (next_pair (double m a) t (next (double m a) a) tmp)
            (if ltb (next (double m a) a) t then false else flag)
  unfolding pass_loop
  pass_merge e f = rw (e, f, pass_loop) refl

  pub pass_one :
      (ltb a t && ltb tmp t) ≡ true
      → mergeable m a tmp ≡ false
      → ltb (m a).size (m tmp).size ≡ true
      → pass_loop (suc fuel) t m a tmp flag ≡ pass_loop fuel t m tmp (next m tmp) flag
  unfolding pass_loop
  pass_one e f g = rw (e, f, g, pass_loop) refl

  pub pass_two :
      (ltb a t && ltb tmp t) ≡ true
      → mergeable m a tmp ≡ false
      → ltb (m a).size (m tmp).size ≡ false
      → pass_loop (suc fuel) t m a tmp flag
        ≡ pass_loop fuel t m (next m tmp) (next_pair m t (next m tmp) tmp) flag
  unfolding pass_loop
  pass_two e f g = rw (e, f, g, pass_loop) refl
