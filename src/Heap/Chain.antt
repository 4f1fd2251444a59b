-- ===== src/Heap/Chain.antt =====
-- Headers that tile a stretch of memory, as a list of blocks.
use mathlib.Core.Path.{subst}
use native.Mathlib.Nat.{pow-suc, one-le-pow}
use turb_os.Base.{
  ℕ, zero, suc, ◌+◌, ◌*◌, ◌/◌, ◌^◌, ◌≤◌, ◌<◌, ◌≡◌, refl, true, if◌then◌else◌, List, [], ◌∷◌, ◌++◌,
  ◌⊎◌, inl, inr, sym, ◌∙◌, arith,
}
use turb_os.Base.Lists.{length}
use turb_os.Heap.Defs.{HeapBlock, Headers}

-- 16 bytes, or a doubling of that
abbrev pub IsBlockSize : ℕ → Type 0
IsBlockSize n = (k : ℕ) × (n ≡ 2 ^ k * 16)

-- The blocks of `l` stand one behind the other from `a` to `t`.
abbrev pub Tiles : Headers → ℕ → List HeapBlock → ℕ → Type 0
Tiles m a [] t = a ≡ t
Tiles m a (b ∷ l) t = (m a ≡ b) × IsBlockSize b.size × Tiles m (a + b.size) l t

-- The blocks in use, with their addresses.
abbrev pub used_at : ℕ → List HeapBlock → List (ℕ × ℕ)
used_at a [] = []
used_at a (b ∷ l) = if b.free then used_at (a + b.size) l else (a, b.size) ∷ used_at (a + b.size) l

-- The block at `p` is free and holds `size` bytes.
abbrev pub Fits : ℕ → ℕ → List HeapBlock → ℕ → Type 0
Fits size a [] p = ⊥
Fits size a (b ∷ l) p = ((p ≡ a) × (b.free ≡ true) × (size ≤ b.size)) ⊎ Fits size (a + b.size) l p

abbrev pub Outside : ℕ → ℕ → ℕ → Type 0
Outside a t p = (p < a) ⊎ (t ≤ p)

-- Nothing but the headers from `a` to `t` has changed.
abbrev pub Framed : ℕ → ℕ → Headers → Headers → Type 0
Framed a t m m' = (p : ℕ) → Outside a t p → m' p ≡ m p

one-le-two_pow : (k : ℕ) → 1 ≤ 2 ^ k
one-le-two_pow k = one-le-pow k 2 (omega arith)

pub IsBlockSize-le : (n : ℕ) → IsBlockSize n → 16 ≤ n
IsBlockSize-le n (k, e) = omega (arith, one-le-two_pow k)

pub IsBlockSize-double : (n : ℕ) → IsBlockSize n → IsBlockSize (2 * n)
IsBlockSize-double n (k, e) = (suc k, omega (arith, pow-suc 2 k))

-- A size above 16 is twice a size.
pub IsBlockSize-half : (n : ℕ) → IsBlockSize n → 16 < n → IsBlockSize (n / 2) × (n / 2 + n / 2 ≡ n)
IsBlockSize-half n (zero, e) h = absurd (omega arith)
IsBlockSize-half n (suc k, e) h = ((k, omega (arith, pow-suc 2 k)), omega (arith, pow-suc 2 k))

pub Tiles-le : (m : Headers) (t : ℕ) (a : ℕ) (l : List HeapBlock) → Tiles m a l t → a ≤ t
Tiles-le m t a [] h = omega arith
Tiles-le m t a (b ∷ l) h = omega (arith, Tiles-le m t (a + b.size) l h.2)

-- A nonempty chain ends 16 bytes behind its start or later.
pub Tiles-lt :
    (m : Headers) (t : ℕ) (a : ℕ) (b : HeapBlock) (l : List HeapBlock)
    → Tiles m a (b ∷ l) t
    → a + 16 ≤ t
Tiles-lt m t a b l h = omega (arith, Tiles-le m t (a + b.size) l h.2, IsBlockSize-le b.size h.1)

pub Tiles-length :
    (m : Headers) (t : ℕ) (a : ℕ) (l : List HeapBlock) → Tiles m a l t → length l + a ≤ t
Tiles-length m t a [] h = omega arith
Tiles-length m t a (b ∷ l) h =
    omega (arith, Tiles-length m t (a + b.size) l h.2, IsBlockSize-le b.size h.1)

-- A chain is a chain in any headers that agree inside it.
pub Tiles-frame :
    (m m' : Headers) (t : ℕ) (a : ℕ) (l : List HeapBlock)
    → Tiles m a l t
    → ((p : ℕ) → a ≤ p → p < t → m' p ≡ m p)
    → Tiles m' a l t
Tiles-frame m m' t a [] h same = h
Tiles-frame m m' t a (b ∷ l) h same =
    let lt = Tiles-lt m t a b l h in
    (
      same a (omega arith) (omega arith) ∙ h.0,
      h.1,
      Tiles-frame m m' t (a + b.size) l h.2 (λ p lo hi. same p (omega arith) hi),
    )

pub Tiles-append :
    (m : Headers) (b t : ℕ) (a : ℕ) (k l : List HeapBlock)
    → Tiles m a k b
    → Tiles m b l t
    → Tiles m a (k ++ l) t
Tiles-append m b t a [] l h g = subst (λ x. Tiles m x l t) (sym h) g
Tiles-append m b t a (c ∷ k) l h g = (h.0, h.1, Tiles-append m b t (a + c.size) k l h.2 g)

pub used_at-append :
    (m : Headers) (b : ℕ) (a : ℕ) (k l : List HeapBlock)
    → Tiles m a k b
    → used_at a (k ++ l) ≡ used_at a k ++ used_at b l
used_at-append m b a [] l h = rw h refl
used_at-append m b a (c ∷ k) l h = ground (arith, used_at-append m b (a + c.size) k l h.2)

pub Fits-append_left :
    (size a : ℕ) (k l : List HeapBlock) (p : ℕ) → Fits size a k p → Fits size a (k ++ l) p
Fits-append_left size a [] l p f = absurd f
Fits-append_left size a (c ∷ k) l p (inl f) = inl f
Fits-append_left size a (c ∷ k) l p (inr f) = inr (Fits-append_left size (a + c.size) k l p f)
