-- ===== src/Keyboard/Enter.antt =====
-- What Enter does to the buffer of the keyboard.
use turb_os.Base.{
  ℕ, zero, suc, ◌+◌, ◌<◌, ◌≡◌, ◌≢◌, refl, ap, ◌∙◌, ◌==◌, ltb, if_false, Bool, true, false, some,
  List, [], ◌∷◌, arith,
}
use turb_os.Base.Lists.{length}
use turb_os.CString.Defs.{Memory, poke, strlen}
use turb_os.CString.Text.{Text, Text-frame}
use turb_os.CString.Read.{strlen_lem}
use turb_os.Keyboard.Defs.{Keyboard, clear_loop, clear_buffer, type_char, shows}
use turb_os.Keyboard.Defs.{press_key, get_ascii_char, clear_bytes}
use turb_os.Base.Int.{ℤ}
use turb_os.Base.{◌||◌}
use turb_os.Keyboard.Typing.{IsTyped, IsOrdinary, typed_with, type_char-ordinary}

-- The loop over a buffer that holds text clears its first byte alone: the length is read again after it.
clear_loop_lem :
    (rounds fuel : ℕ) (m : Memory) (buff x : ℕ) (t : List ℕ)
    → Text m buff (x ∷ t)
    → length t + 1 < fuel
    → clear_loop (suc (suc rounds)) fuel 0 m buff ≡ some (poke m buff 0)
unfolding clear_loop
clear_loop_lem rounds fuel m buff x t h lt =
    let here : buff + 0 ≡ buff = omega arith in
    let positive : ltb 0 (suc (length t)) ≡ true = ground arith in
    let empty = strlen_lem fuel (poke m buff 0) buff [] (poke_there m buff 0) (omega arith) in
    rw (strlen_lem fuel m buff (x ∷ t) h (omega arith), positive, here, empty) refl
  where
    poke_there : (m : Memory) (p c : ℕ) → poke m p c p ≡ c
    poke_there m p c = ground arith

clear_buffer_lem :
    (fuel : ℕ) (k : Keyboard) (x : ℕ) (t : List ℕ)
    → Text k.memory k.buff (x ∷ t)
    → length t + 1 < fuel
    → clear_buffer fuel k ≡ some (record k { memory = poke k.memory k.buff 0 })
unfolding clear_buffer
clear_buffer_lem zero k x t h lt = absurd (omega arith)
clear_buffer_lem (suc zero) k x t h lt = absurd (omega arith)
clear_buffer_lem (suc (suc f)) k x t h lt =
    rw (clear_buffer, clear_loop_lem f (suc (suc f)) k.memory k.buff x t h lt) refl

-- Enter is typed: the line ends, and the first byte of the buffer is cleared.
type_char-newline :
    (fuel : ℕ) (k : Keyboard) (x : ℕ) (t : List ℕ)
    → Text k.memory k.buff (x ∷ t)
    → length t + 1 < fuel
    → k.memory k.c ≡ 10
    → type_char fuel k
      ≡ some (record k {
        enter = true;
        memory = poke k.memory k.buff 0;
        output = shows (10 ∷ []) ∷ k.output;
      })
unfolding type_char
type_char-newline fuel k x t h lt e =
    let shown = record k { output = shows (10 ∷ []) ∷ k.output } in
    let newline : (k.memory k.c == 10) ≡ true = ground arith in
    rw (newline, clear_buffer_lem fuel shown x t h lt) refl

neither : (a b : Bool) → a ≡ false → b ≡ false → (a || b) ≡ false
neither a b e f = rw (e, f) refl

-- Without ctrl and alt a key types its character.
pub press_key-types :
    (outside : ℤ → ℕ) (fuel : ℕ) (k : Keyboard) (key n : ℕ)
    → strlen fuel k.memory k.c ≡ some n
    → k.ctrl ≡ false
    → k.alt ≡ false
    → press_key outside fuel k key
      ≡ type_char fuel (record k {
        memory = poke (clear_bytes k.memory k.c n) k.c (get_ascii_char k.shift k.capslock key);
      })
unfolding press_key
press_key-types outside fuel k key n len c0 a0 =
    rw (press_key, len) (if_false _ _ _ (neither k.alt k.ctrl a0 c0))

-- The character is stored over the one before it, and nothing else changes.
pub stored-other : (m : Memory) (c ch q : ℕ) → q ≢ c → poke (clear_bytes m c 1) c ch q ≡ m q
stored-other m c ch q ne = ground arith

pub poke-other : (m : Memory) (p x q : ℕ) → q ≢ p → poke m p x q ≡ m q
poke-other m p x q ne = ground arith

pub poke-same : (m : Memory) (p x : ℕ) → poke m p x p ≡ x
poke-same m p x = ground arith

-- Enter ends a line, but it leaves in the buffer what stands behind its first byte: the next character that is
-- typed has the rest of the old line behind it.
pub press_key-newline :
    (outside : ℤ → ℕ) (fuel : ℕ) (k : Keyboard) (x ch key : ℕ) (t : List ℕ)
    → IsTyped fuel k (x ∷ t) 10
    → IsOrdinary ch
    → ch ≢ 0
    → k.ctrl ≡ false
    → k.alt ≡ false
    → get_ascii_char k.shift k.capslock key ≡ ch
    → (u : Keyboard) × (v : Keyboard) × (type_char fuel k ≡ some u)
      × (press_key outside fuel u key ≡ some v)
      × (u.enter ≡ true)
      × Text v.memory v.buff (ch ∷ t)
press_key-newline outside fuel k x ch key t h ok nz c0 a0 e =
    let m1 = poke k.memory k.buff 0 in
    let u = record k { enter = true; memory = m1; output = shows (10 ∷ []) ∷ k.output } in
    let m2 = poke (clear_bytes m1 k.c 1) k.c ch in
    let char1 =
      Text-frame k.memory m1 k.c (10 ∷ []) h.char
        (λ q lo hi. poke-other k.memory k.buff 0 q (omega (arith, h.apart))) in
    let behind_c = stored-other m1 k.c ch (k.c + 1) (omega arith) ∙ char1.2 in
    let start =
      stored-other m1 k.c ch k.buff (omega (arith, h.apart)) ∙ poke-same k.memory k.buff 0 in
    let typed : IsTyped fuel (record u { memory = m2 }) [] ch = record {
      buff = h.buff;
      text = start;
      char = (poke-same (clear_bytes m1 k.c 1) k.c ch, nz, behind_c);
      enough = omega (arith, h.enough);
      apart = omega (arith, h.apart);
    } in
    let (m3, e2, bytes, kept) = type_char-ordinary fuel (record u { memory = m2 }) [] ch ok typed in
    let v = typed_with (record u { memory = m2 }) m3 in
    let rest = Text-frame k.memory m3 (k.buff + 1) t h.text.2 (λ q lo hi.
      kept q (omega arith)
      ∙ stored-other m1 k.c ch q (omega (arith, h.apart))
      ∙ poke-other k.memory k.buff 0 q (omega arith)) in
    let len = strlen_lem fuel m1 k.c (10 ∷ []) char1 (omega (arith, h.enough)) in
    (
      u,
      v,
      type_char-newline fuel k x t h.text (omega (arith, h.enough)) h.char.0,
      press_key-types outside fuel u key 1 len c0 a0
          ∙ ap (λ c. type_char fuel (record u { memory = poke (clear_bytes m1 k.c 1) k.c c })) e
          ∙ e2,
      refl,
      (bytes.0, nz, rest),
    )
