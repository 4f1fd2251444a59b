-- ===== src/CString/Compare.antt =====
-- `strcmp` and `strncmp` of texts.
use mathlib.Core.Path.{subst}
use native.Mathlib.Nat.{zero-add}
use turb_os.Base.{
  ℕ, zero, suc, ◌+◌, ◌<◌, ◌≡◌, ◌≢◌, refl, sym, ap, false, ◌==◌, ==_iff, some, List, [], ◌∷◌, ◌⊎◌,
  inl, inr, Bool-cases, ltb, ltb→lt, ◌-◌, arith,
}
use turb_os.Base.Int.{ℤ, pos, negsuc, sub_ℕ}
use turb_os.Base.Lists.{length}
use turb_os.CString.Defs.{Memory, strcmp, ncmp_loop, strncmp}
use turb_os.CString.Text.{Text}

-- The place in the dictionary: a text stands before another if its first different byte is smaller, or
-- if it is the other's beginning.
pub data IsBefore : List ℕ → List ℕ → Type 0 where
  shorter : (c : ℕ) (t : List ℕ) → IsBefore [] (c ∷ t)
  smaller : (c d : ℕ) (s t : List ℕ) → c < d → IsBefore (c ∷ s) (d ∷ t)
  later : (c : ℕ) (s t : List ℕ) → IsBefore s t → IsBefore (c ∷ s) (c ∷ t)

-- The sign of `z` tells how the texts stand to each other.
pub data Compared : ℤ → List ℕ → List ℕ → Type 0 where
  same : (s : List ℕ) → Compared (pos 0) s s
  before : (n : ℕ) (s t : List ℕ) → IsBefore s t → Compared (negsuc n) s t
  behind : (n : ℕ) (s t : List ℕ) → IsBefore t s → Compared (pos (suc n)) s t

Compared-cons : (z : ℤ) (c : ℕ) (s t : List ℕ) → Compared z s t → Compared z (c ∷ s) (c ∷ t)
Compared-cons _ c _ _ (same s) = same (c ∷ s)
Compared-cons _ c _ _ (before n s t b) = before n (c ∷ s) (c ∷ t) (later c s t b)
Compared-cons _ c _ _ (behind n s t b) = behind n (c ∷ s) (c ∷ t) (later c t s b)

sub_ℕ-smaller : (c d : ℕ) → c < d → (n : ℕ) × (sub_ℕ c d ≡ negsuc n)
sub_ℕ-smaller c d lt = (d - c - 1, ground arith)

sub_ℕ-greater : (c d : ℕ) → d < c → (n : ℕ) × (sub_ℕ c d ≡ pos (suc n))
sub_ℕ-greater c d lt = (c - d - 1, ground arith)

-- Different first bytes decide.
Compared-sub_ℕ : (c d : ℕ) (s t : List ℕ) → (c == d) ≡ false → Compared (sub_ℕ c d) (c ∷ s) (d ∷ t)
Compared-sub_ℕ c d s t e = elim (Bool-cases (ltb c d)) [
  | inl h ↦
      let lt = ltb→lt c d h in
      let n = sub_ℕ-smaller c d lt in
      subst (λ z. Compared z (c ∷ s) (d ∷ t)) (sym n.1)
        (before n.0 (c ∷ s) (d ∷ t) (smaller c d s t lt))
  | inr h ↦
      let gt : d < c = ground arith in
      let n = sub_ℕ-greater c d gt in
      subst (λ z. Compared z (c ∷ s) (d ∷ t)) (sym n.1)
        (behind n.0 (c ∷ s) (d ∷ t) (smaller d c t s gt))
]

-- With fuel above the length of the first text, `strcmp` ends: the result is 0 if the texts are equal,
-- negative if the first stands before the second in the order of a dictionary, and positive if behind it.
pub strcmp_lem :
    (fuel : ℕ) (m : Memory) (a b : ℕ) (s t : List ℕ)
    → Text m a s
    → Text m b t
    → length s < fuel
    → (z : ℤ) × (strcmp fuel m a b ≡ some z) × Compared z s t
unfolding strcmp
strcmp_lem zero m a b s t hs ht lt = let absurd : ⊥ = omega (arith, lt) in elim absurd [ ]
strcmp_lem (suc fuel) m a b [] [] hs ht lt = (pos 0, rw (strcmp, hs, ht) refl, same [])
strcmp_lem (suc fuel) m a b [] (zero ∷ t) hs ht lt = elim (ht.1 refl) [ ]
strcmp_lem (suc fuel) m a b [] (suc d ∷ t) hs ht lt =
    (negsuc d, rw (strcmp, hs, ht.0) (ground arith), before d [] (suc d ∷ t) (shorter (suc d) t))
strcmp_lem (suc fuel) m a b (zero ∷ s) t hs ht lt = elim (hs.1 refl) [ ]
strcmp_lem (suc fuel) m a b (suc c ∷ s) [] hs ht lt =
    (pos (suc c), rw (strcmp, hs.0, ht) (ground arith), behind c (suc c ∷ s) [] (shorter (suc c) s))
strcmp_lem (suc fuel) m a b (suc c ∷ s) (d ∷ t) hs ht lt = elim (Bool-cases (suc c == d)) [
  | inl e ↦
      let ih = strcmp_lem fuel m (a + 1) (b + 1) s t hs.2 ht.2 (omega (arith, lt)) in
      let eq = (==_iff (suc c) d).0 e in
      (
        ih.0,
        rw (strcmp, hs.0, ht.0, e) ih.1,
        subst (λ x. Compared ih.0 (suc c ∷ s) (x ∷ t)) eq (Compared-cons ih.0 (suc c) s t ih.2),
      )
  | inr e ↦ (
    sub_ℕ (suc c) d,
    rw (strcmp, hs.0, ht.0, e) (ap (λ x. some (sub_ℕ (suc c) x)) ht.0),
    Compared-sub_ℕ (suc c) d s t e,
  )
]

-- All of `n` bytes from `a` and from `b` on are the same.
abbrev pub AreSame : ℕ → Memory → ℕ → ℕ → Type 0
AreSame n m a b = (i : ℕ) → i < n → m (a + i) ≡ m (b + i)

ncmp_loop_lem :
    (left : ℕ) (m : Memory) (a b i : ℕ)
    → ((j : ℕ) → j < i → m (a + j) ≡ m (b + j))
    → ((ncmp_loop left m a b i ≡ 0) × AreSame (i + left) m a b)
      ⊎ ((ncmp_loop left m a b i ≡ 1) × (j : ℕ) × (j < i + left) × (m (a + j) ≢ m (b + j)))
unfolding ncmp_loop
ncmp_loop_lem zero m a b i seen = inl (refl, λ j lt. seen j (omega (arith, lt)))
ncmp_loop_lem (suc left) m a b i seen = elim (Bool-cases (m (a + i) == m (b + i))) [
  | inl e ↦
      let eq = (==_iff _ _).0 e in
      let now : AreSame (i + 1) m a b = λ j lt. elim (Bool-cases (j == i)) [
        | inl at ↦ subst (λ k. m (a + k) ≡ m (b + k)) (sym ((==_iff j i).0 at)) eq
        | inr out ↦ seen j (ground arith)
      ] in
      elim (ncmp_loop_lem left m a b (i + 1) now) [
        | inl r ↦ inl (rw (ncmp_loop, e) r.0, λ j lt. r.1 j (omega (arith, lt)))
        | inr r ↦ inr (rw (ncmp_loop, e) r.0, r.1, omega arith, r.3)
      ]
  | inr e ↦ inr (rw (ncmp_loop, e) refl, i, omega arith, ground arith)
]

-- `strncmp` compares all `n` bytes, whatever stands among them: the result is 0 if they are the same, and 1
-- if there is a place among them where they differ.
pub strncmp_lem :
    (m : Memory) (a b n : ℕ)
    → ((strncmp m a b n ≡ 0) × AreSame n m a b)
      ⊎ ((strncmp m a b n ≡ 1) × (j : ℕ) × (j < n) × (m (a + j) ≢ m (b + j)))
unfolding strncmp
strncmp_lem m a b n =
    let r =
      ncmp_loop_lem n m a b 0 (λ j lt. let absurd : ⊥ = omega (arith, lt) in elim absurd [ ]) in
    simp zero-add at r
