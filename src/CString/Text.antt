-- ===== src/CString/Text.antt =====
-- The text that stands at a pointer.
use mathlib.Core.Path.{subst}
use native.Mathlib.Nat.{add-zero}
use turb_os.Base.{ap, ℕ, suc, ◌+◌, ◌≤◌, ◌<◌, ◌≡◌, ◌≢◌, List, [], ◌∷◌, ◌++◌, ◌∙◌, arith}
use turb_os.Base.Lists.{length}
use turb_os.CString.Defs.{Memory}

-- The bytes of `s`, none of them 0, stand from `p` on.
abbrev pub Bytes : Memory → ℕ → List ℕ → Type 0
Bytes m p [] = Unit {0}
Bytes m p (c ∷ s) = (m p ≡ c) × (c ≢ 0) × Bytes m (p + 1) s

-- The string `s` with its zero byte stands at `p`.
abbrev pub Text : Memory → ℕ → List ℕ → Type 0
Text m p [] = m p ≡ 0
Text m p (c ∷ s) = (m p ≡ c) × (c ≢ 0) × Text m (p + 1) s

pub Text-Bytes : (m : Memory) (p : ℕ) (s : List ℕ) → Text m p s → Bytes m p s
Text-Bytes m p [] h = tt
Text-Bytes m p (c ∷ s) h = (h.0, h.1, Text-Bytes m (p + 1) s h.2)

-- Bytes with a zero behind them are a string.
pub Bytes-Text : (m : Memory) (p : ℕ) (s : List ℕ) → Bytes m p s → m (p + length s) ≡ 0 → Text m p s
Bytes-Text m p [] h e = rw add-zero at e
Bytes-Text m p (c ∷ s) h e = (h.0, h.1, Bytes-Text m (p + 1) s h.2 (ap m (omega arith) ∙ e))

-- A text is one in any memory that agrees with its own there.
pub Text-frame :
    (m m' : Memory) (p : ℕ) (s : List ℕ)
    → Text m p s
    → ((q : ℕ) → p ≤ q → q ≤ p + length s → m' q ≡ m q)
    → Text m' p s
Text-frame m m' p [] h same = same p (omega arith) (omega arith) ∙ h
Text-frame m m' p (c ∷ s) h same = (
  same p (omega arith) (omega arith) ∙ h.0,
  h.1,
  Text-frame m m' (p + 1) s h.2 (λ q lo hi. same q (omega arith) (omega arith)),
)

pub Bytes-frame :
    (m m' : Memory) (p : ℕ) (s : List ℕ)
    → Bytes m p s
    → ((q : ℕ) → p ≤ q → q < p + length s → m' q ≡ m q)
    → Bytes m' p s
Bytes-frame m m' p [] h same = tt
Bytes-frame m m' p (c ∷ s) h same = (
  same p (omega arith) (omega arith) ∙ h.0,
  h.1,
  Bytes-frame m m' (p + 1) s h.2 (λ q lo hi. same q (omega arith) (omega arith)),
)

-- Two runs of bytes, one behind the other, are one.
pub Bytes-append :
    (m : Memory) (p : ℕ) (s t : List ℕ)
    → Bytes m p s
    → Bytes m (p + length s) t
    → Bytes m p (s ++ t)
Bytes-append m p [] t hs ht = rw add-zero at ht
Bytes-append m p (c ∷ s) t hs ht =
    let e : p + suc (length s) ≡ p + 1 + length s = omega arith in
    (hs.0, hs.1, Bytes-append m (p + 1) s t hs.2 (subst (λ q. Bytes m q t) e ht))
