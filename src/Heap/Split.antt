-- ===== src/Heap/Split.antt =====
-- `split` cuts a free block in halves until the last one has the size asked for.
use native.Mathlib.Decide.{dec_lt, ℕ_discrete}
use mathlib.Core.Path.{subst}
use native.Mathlib.Nat.{pow-suc, pow-le-pow_right}
use turb_os.Base.{
  ℕ, zero, suc, ◌+◌, ◌*◌, ◌/◌, ◌^◌, ◌≤◌, ◌<◌, ◌≡◌, ◌≢◌, refl, true, false, ltb, leb, ◌==◌, List, [],
  ◌∷◌, inl, inr, ap, ◌∙◌, arith,
}
use turb_os.Base.Words.{u64_mod}
use turb_os.Heap.Defs.{HeapBlock, Headers, halve, split_loop, split}
use turb_os.Heap.Chain.{
  IsBlockSize, Tiles, used_at, Fits, Outside, Framed, IsBlockSize-le, IsBlockSize-half,
}

abbrev pub free_block : ℕ → HeapBlock
free_block n = record { size = n; free = true }

-- A smaller block size is at most half of a larger one.
half_or_less : (a b : ℕ) → IsBlockSize a → IsBlockSize b → a < b → a ≤ b / 2
half_or_less a b (i, ea) (zero, eb) h =
    absurd (omega (arith, pow-le-pow_right {n = 2} (omega arith) {i = 0} {j = i} (omega arith)))
half_or_less a b (i, ea) (suc k, eb) h = elim (dec_lt k i) [
  | yes gt ↦
      absurd
        (omega (arith, pow-le-pow_right {n = 2} (omega arith) {i = suc k} {j = i} (omega arith)))
  | no le ↦
      omega
        (arith, pow-suc 2 k, pow-le-pow_right {n = 2} (omega arith) {i = i} {j = k} (omega arith))
]

-- What `halve` leaves of a free block of `n` bytes at `b`.
record Halved (m : Headers) (b h : ℕ) (r : Headers × ℕ) : Type 0 where
  second : r.1 ≡ b + h
  at_first : r.0 b ≡ free_block h
  at_second : r.0 (b + h) ≡ free_block h
  elsewhere : (p : ℕ) → p ≢ b → p ≢ b + h → r.0 p ≡ m p

halve-Halved :
    (m : Headers) (b n : ℕ)
    → m b ≡ free_block n
    → 0 < n / 2
    → b + n < u64_mod
    → Halved m b (n / 2) (halve m b)
unfolding halve
halve-Halved m b n e pos fits = record {
  second = ground arith;
  at_first = ground arith;
  at_second = ground arith;
  elsewhere = λ p ne ne'. ground arith;
}

-- What the loop of `split` leaves of the `n` bytes at `b`: blocks that are all free, the one returned
-- among them and of exactly the size asked for, and no header changed elsewhere.
pub record Parted (m : Headers) (b n size : ℕ) (r : Headers × ℕ) : Type 0 where
  pub blocks : List HeapBlock
  pub tiles : Tiles r.0 b blocks (b + n)
  pub none_used : used_at b blocks ≡ []
  pub framed : Framed b (b + n) m r.0
  pub fits : Fits size b blocks r.1
  pub exact : r.0 r.1 ≡ free_block size

Parted-whole : (m : Headers) (b n : ℕ) → m b ≡ free_block n → IsBlockSize n → Parted m b n n (m, b)
Parted-whole m b n e size = record {
  blocks = free_block n ∷ [];
  tiles = (e, size, refl);
  none_used = refl;
  framed = λ p out. refl;
  fits = inl (refl, refl, omega arith);
  exact = e;
}

Parted-half :
    (m : Headers) (b n h size : ℕ) (mid : Headers × ℕ) (r : Headers × ℕ)
    → IsBlockSize h
    → h + h ≡ n
    → Halved m b h mid
    → Parted mid.0 (b + h) h size r
    → Parted m b n size r
Parted-half m b n h size mid r half sum hv rest =
    let pos = IsBlockSize-le h half in
    let stop : b + h + h ≡ b + n = omega arith in
    record {
      blocks = free_block h ∷ rest.blocks;
      tiles = (
        rest.framed b (inl (omega arith)) ∙ hv.at_first,
        half,
        subst (λ t. Tiles r.0 (b + h) rest.blocks t) stop rest.tiles,
      );
      none_used = rest.none_used;
      framed = λ p out. rest.framed p (outer p out) ∙ hv.elsewhere p (ground arith) (ground arith);
      fits = inr rest.fits;
      exact = rest.exact;
    }
  where
    outer : (p : ℕ) → Outside b (b + n) p → Outside (b + h) (b + h + h) p
    outer p (inl lo) = inl (omega arith)
    outer p (inr hi) = inr (omega arith)

module _ (fuel : ℕ) (m : Headers) (b size : ℕ) where
  split_loop_stop : ltb size (m b).size ≡ false → split_loop (suc fuel) m b size ≡ (m, b)
  unfolding split_loop
  split_loop_stop e = rw (e, split_loop) refl

  split_loop_more :
      ltb size (m b).size ≡ true
      → split_loop (suc fuel) m b size ≡ split_loop fuel (halve m b).0 (halve m b).1 size
  unfolding split_loop
  split_loop_more e = rw (e, split_loop) refl

split_loop-Parted :
    (fuel : ℕ) (m : Headers) (b n size : ℕ)
    → n ≤ 2 ^ fuel * 16
    → m b ≡ free_block n
    → IsBlockSize n
    → IsBlockSize size
    → size ≤ n
    → b + n < u64_mod
    → Parted m b n size (split_loop fuel m b size)
unfolding split_loop
split_loop-Parted zero m b n size enough e n_size s_size le fits =
    let n16 : n ≡ 16 = omega (arith, IsBlockSize-le n n_size) in
    let same : size ≡ n = omega (arith, IsBlockSize-le size s_size) in
    rw same (Parted-whole m b n e n_size)
split_loop-Parted (suc fuel) m b n size enough e n_size s_size le fits =
    let held : (m b).size ≡ n = ap (λ (x : HeapBlock). x.size) e in
    elim (ℕ_discrete size n) [
      | yes same ↦
          let stop : ltb size (m b).size ≡ false = rw (held, same) (ground arith) in
          rw (split_loop_stop fuel m b size stop, same) (Parted-whole m b n e n_size)
      | no ne ↦
          let more : ltb size (m b).size ≡ true = rw held (ground arith) in
          let (half, sum) = IsBlockSize-half n n_size (omega (arith, IsBlockSize-le size s_size)) in
          let hv = halve-Halved m b n e (omega (arith, IsBlockSize-le (n / 2) half)) fits in
          let rest =
            split_loop-Parted fuel (halve m b).0 (b + n / 2) (n / 2) size
              (omega (arith, pow-suc 2 fuel)) hv.at_second half s_size
              (half_or_less size n s_size n_size (omega arith)) (omega arith) in
          rw (split_loop_more fuel m b size more, hv.second)
            (Parted-half m b n (n / 2) size (halve m b) _ half sum hv rest)
    ]

-- `split` of a free block, whose address is not null, for a block size that it can hold: the bytes of
-- the block are tiled anew by free blocks, the block returned is one of them and has exactly the size
-- asked for, and no header outside the block is written.
pub split-Parted :
    (m : Headers) (b n size : ℕ)
    → b ≢ 0
    → m b ≡ free_block n
    → IsBlockSize n
    → IsBlockSize size
    → size ≤ n
    → b + n < u64_mod
    → Parted m b n size (split m b size)
unfolding split
split-Parted m b n size nz e n_size s_size le fits =
    let parted = split_loop-Parted 64 m b n size (omega arith) e n_size s_size le fits in
    let block_set : (b == 0) ≡ false = ground arith in
    let size_set : (size == 0) ≡ false = ground (arith, IsBlockSize-le size s_size) in
    let r = split_loop 64 m b size in
    let held : (r.0 r.1).size ≡ size = ap (λ (x : HeapBlock). x.size) parted.exact in
    let enough : leb size (r.0 r.1).size ≡ true = rw held (ground arith) in
    rw (block_set, size_set, enough) parted
