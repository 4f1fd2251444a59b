-- ===== src/Keyboard/Typing.antt =====
-- What typing does to the buffer of the keyboard.
use turb_os.Base.{
  ℕ, ◌+◌, ◌-◌, ◌≤◌, ◌<◌, ◌≡◌, ◌≢◌, ◌⊎◌, inl, inr, refl, sym, ap, ◌∙◌, ◌==◌, ltb, ltb→lt, Bool-cases,
  true, false, some, List, [], ◌∷◌, ◌++◌, arith,
}
use turb_os.Base.Lists.{length}
use turb_os.CString.Defs.{Memory, poke}
use turb_os.CString.Text.{Bytes, Text}
use turb_os.CString.Read.{strlen_lem}
use turb_os.CString.Copy.{strcat_lem, IsApart}
use turb_os.Keyboard.Defs.{Keyboard, erase, type_char, shows_at, shows}

-- `buff` holds the text `t` and `c` the one character `ch`, apart from each other.
pub record IsTyped (fuel : ℕ) (k : Keyboard) (t : List ℕ) (ch : ℕ) : Type 0 where
  pub buff : k.buff ≢ 0
  pub text : Text k.memory k.buff t
  pub char : Text k.memory k.c (ch ∷ [])
  pub enough : length t + 2 < fuel
  pub apart : (k.buff + length t + 1 < k.c) ⊎ (k.c + 1 < k.buff)

-- A character that is no newline and no backspace.
abbrev pub IsOrdinary : ℕ → Type 0
IsOrdinary ch = (ch ≢ 10) × (ch ≢ 8)

pub Text-end : (m : Memory) (p : ℕ) (s : List ℕ) → Text m p s → m (p + length s) ≡ 0
Text-end m p [] h = ap m (omega arith) ∙ h
Text-end m p (c ∷ s) h = ap m (omega arith) ∙ Text-end m (p + 1) s h.2

pub test_false : (x ch n : ℕ) → x ≡ ch → ch ≢ n → (x == n) ≡ false
test_false x ch n e ne = ground arith

-- A character that has been typed, with the memory that `strcat` leaves.
abbrev pub typed_with : Keyboard → Memory → Keyboard
typed_with k m = record k { pressed = true; memory = m; output = shows_at k.memory k.c ∷ k.output }

pub type_char-ordinary :
    (fuel : ℕ) (k : Keyboard) (t : List ℕ) (ch : ℕ)
    → IsOrdinary ch
    → IsTyped fuel k t ch
    → (m : Memory) × (type_char fuel k ≡ some (typed_with k m))
      × Bytes m k.buff (t ++ ch ∷ [])
      × ((q : ℕ) → q ≢ k.buff + length t → m q ≡ k.memory q)
unfolding type_char
type_char-ordinary fuel k t ch ok h =
    let apart : IsApart (k.buff + length t) k.c 1 = elim h.apart [
      | inl lo ↦ inl (omega arith)
      | inr hi ↦ inr (omega arith)
    ] in
    let more : length t < fuel = omega (arith, h.enough) in
    let one : 1 < fuel = omega (arith, h.enough) in
    let (m, cat, bytes, outside) =
      strcat_lem fuel k.memory k.buff k.c t (ch ∷ []) h.buff h.text h.char more one apart in
    let no_newline = test_false (k.memory k.c) ch 10 h.char.0 ok.0 in
    let no_back = test_false (k.memory k.c) ch 8 h.char.0 ok.1 in
    (
      m,
      rw (no_newline, no_back, cat) refl,
      bytes,
      λ (q : ℕ) (ne : q ≢ k.buff + length t). outside q (beside q (k.buff + length t) ne),
    )
  where
    beside : (q p : ℕ) → q ≢ p → (q < p) ⊎ (p + 1 ≤ q)
    beside q p ne = elim (Bool-cases (ltb q p)) [
      | inl e ↦ inl (ltb→lt q p e)
      | inr e ↦ inr (ground arith)
    ]

first_byte : (m : Memory) (p : ℕ) (s : List ℕ) → 0 < length s → Text m p s → m p ≢ 0
first_byte m p [] pos h = absurd (omega arith)
first_byte m p (c ∷ s) pos h = λ z. h.1 (sym h.0 ∙ z)

pub erase_lem :
    (fuel : ℕ) (u : Keyboard) (s : List ℕ)
    → Text u.memory u.buff s
    → 0 < length s
    → length s < fuel
    → u.reading ≡ false
    → (v : Keyboard) × (erase fuel u ≡ some v)
      × (v.memory ≡ poke u.memory (u.buff + (length s - 1)) 0)
unfolding erase
erase_lem fuel u s h pos lt idle =
    let some_text =
      test_false (u.memory u.buff) (u.memory u.buff) 0 refl (first_byte u.memory u.buff s pos h) in
    (
      record u {
        memory = poke u.memory (u.buff + (length s - 1)) 0;
        output = shows (8 ∷ 32 ∷ 8 ∷ []) ∷ u.output;
      },
      rw (erase, some_text, strlen_lem fuel u.memory u.buff s h lt, idle) refl,
      refl,
    )
