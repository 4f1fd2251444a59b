-- ===== src/CString/Read.antt =====
-- Reading a text: `strlen` and `strchr`.
use mathlib.Core.Path.{subst}
use native.Mathlib.Nat.{add-zero}
use turb_os.Base.{
  ℕ, zero, suc, ◌+◌, ◌≤◌, ◌<◌, ◌≡◌, ◌≢◌, refl, ap, ◌∙◌, ◌==◌, ==_iff, some, List, [], ◌∷◌, ◌⊎◌, inl,
  inr, Bool-cases, arith,
}
use turb_os.Base.Lists.{length}
use turb_os.CString.Defs.{Memory, strlen_from, strlen, chr_loop, strchr}
use turb_os.CString.Text.{Text}

strlen_from_lem :
    (fuel : ℕ) (m : Memory) (str n : ℕ) (s : List ℕ)
    → Text m (str + n) s
    → length s < fuel
    → strlen_from fuel m str n ≡ some (n + length s)
unfolding strlen_from
strlen_from_lem zero m str n s h lt = let absurd : ⊥ = omega (arith, lt) in elim absurd [ ]
strlen_from_lem (suc fuel) m str n [] h lt = rw (strlen_from, h, add-zero) refl
strlen_from_lem (suc fuel) m str n (zero ∷ s) h lt = elim (h.1 refl) [ ]
strlen_from_lem (suc fuel) m str n (suc c ∷ s) h lt =
    let e : (str + n) + 1 ≡ str + (n + 1) = omega arith in
    let rest : Text m (str + (n + 1)) s = subst (λ q. Text m q s) e h.2 in
    rw (strlen_from, h.0, strlen_from_lem fuel m str (n + 1) s rest (omega (arith, lt)))
      (ap some (omega arith))

-- `strlen` of a text in memory returns its length, with any fuel above that.
pub strlen_lem :
    (fuel : ℕ) (m : Memory) (p : ℕ) (s : List ℕ)
    → Text m p s
    → length s < fuel
    → strlen fuel m p ≡ some (length s)
unfolding strlen
strlen_lem fuel m p s h lt = strlen_from_lem fuel m p 0 s (rw add-zero h) lt ∙ ap some (omega arith)

-- `q` is the first place of the byte `ch` in the text of `n` bytes at `p`, its zero byte included.
abbrev pub IsFirst : Memory → ℕ → ℕ → ℕ → ℕ → Type 0
IsFirst m p n ch q = (p ≤ q) × (q ≤ p + n) × (m q ≡ ch) × ((r : ℕ) → p ≤ r → r < q → m r ≢ ch)

-- The loop stops at the first place of `ch`, or at the end if there is none.
chr_loop_lem :
    (fuel : ℕ) (m : Memory) (p ch : ℕ) (s : List ℕ)
    → Text m p s
    → length s < fuel
    → (q : ℕ) × (chr_loop fuel m p ch ≡ some q)
      × (p ≤ q)
      × (q ≤ p + length s)
      × ((r : ℕ) → p ≤ r → r < q → m r ≢ ch)
      × ((m q ≡ ch) ⊎ ((m q ≢ ch) × (q ≡ p + length s)))
unfolding chr_loop
chr_loop_lem zero m p ch s h lt = let absurd : ⊥ = omega (arith, lt) in elim absurd [ ]
chr_loop_lem (suc fuel) m p ch [] h lt = (
  p,
  rw (chr_loop, h) refl,
  omega arith,
  omega arith,
  λ r lo hi. omega (arith, lo, hi),
  elim (Bool-cases (m p == ch)) [
    | inl e ↦ inl ((==_iff _ _).0 e)
    | inr e ↦ inr (ground arith, omega arith)
  ],
)
chr_loop_lem (suc fuel) m p ch (zero ∷ s) h lt = elim (h.1 refl) [ ]
chr_loop_lem (suc fuel) m p ch (suc c ∷ s) h lt = elim (Bool-cases (suc c == ch)) [
  | inl e ↦ (
    p,
    rw (chr_loop, h.0, e) refl,
    omega arith,
    omega arith,
    λ r lo hi. omega (arith, lo, hi),
    inl (h.0 ∙ (==_iff _ _).0 e),
  )
  | inr e ↦
      let ih = chr_loop_lem fuel m (p + 1) ch s h.2 (omega (arith, lt)) in
      (
        ih.0,
        rw (chr_loop, h.0, e) ih.1,
        omega arith,
        omega arith,
        λ r lo hi. elim (Bool-cases (r == p)) [
          | inl at ↦ ground arith
          | inr out ↦ ih.4 r (ground arith) hi
        ],
        elim ih.5 [ inl y ↦ inl y | inr y ↦ inr (y.0, omega arith) ],
      )
]

-- `strchr` of a text in memory returns the first place of the byte, the zero byte at the end included,
-- or NULL if the byte is not in the text.
pub strchr_lem :
    (fuel : ℕ) (m : Memory) (p ch : ℕ) (s : List ℕ)
    → Text m p s
    → length s < fuel
    → (q : ℕ) × (strchr fuel m p ch ≡ some q)
      × (IsFirst m p (length s) ch q ⊎ ((q ≡ 0) × ((r : ℕ) → p ≤ r → r ≤ p + length s → m r ≢ ch)))
unfolding strchr
strchr_lem fuel m p ch s h lt =
    let found = chr_loop_lem fuel m p ch s h lt in
    elim found.5 [
      | inl y ↦ (found.0, rw (strchr, found.1) (ground arith), inl (found.2, found.3, y, found.4))
      | inr y ↦ (
        0,
        rw (strchr, found.1) (ground arith),
        inr (
          refl,
          λ r lo hi. elim (Bool-cases (r == found.0)) [
            | inl at ↦ ground arith
            | inr out ↦ found.4 r lo (ground arith)
          ],
        ),
      )
    ]
