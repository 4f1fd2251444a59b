-- ===== src/Keyboard/Modifiers.antt =====
-- Typing a key leaves the modifiers alone.
use turb_os.Base.{
  ℕ, ◌≡◌, refl, ◌==◌, if-both, Bool, true, false, not, ◌&&◌, ◌||◌, Option, none, some, OnSome,
}
use turb_os.Base.Int.{ℤ}
use turb_os.CString.Defs.{strlen, strcat}
use turb_os.Keyboard.Keys
use turb_os.Keyboard.Tables.{kbdus, kbdus_shft, kbdus_capsshft, kbdus_caps}
use turb_os.Keyboard.Defs.{
  Keyboard, ◌>>=◌, get_ascii_char, clear_buffer, clear_loop, handle_comb, combine, erase, type_char,
  press_key,
}

-- Caps lock turns the meaning of shift round, for every key.
pub get_ascii_char_caps :
    (shift : Bool) (key : ℕ) → get_ascii_char shift true key ≡ get_ascii_char (not shift) false key
unfolding get_ascii_char kbdus kbdus_shft kbdus_capsshft kbdus_caps
get_ascii_char_caps true key = refl
get_ascii_char_caps false key = refl

-- The modifiers that count as held.
pub record Holds (a b c : Bool) (k : Keyboard) : Type 0 where
  pub shift : k.shift ≡ a
  pub ctrl : k.ctrl ≡ b
  pub alt : k.alt ≡ c

-- The same modifiers are held as in `k`.
abbrev pub Same : Keyboard → Keyboard → Type 0
Same k = Holds k.shift k.ctrl k.alt

-- A chain of fallible steps has a property if its parts have it.
pub OnSome->>= :
    {A B : Type 0} (P : A → Type 0) (Q : B → Type 0) (m : Option A) (f : A → Option B)
    → OnSome P m
    → ((a : A) → P a → OnSome Q (f a))
    → OnSome Q (m >>= f)
OnSome->>= P Q none f h next = tt
OnSome->>= P Q (some a) f h next = next a h

pub OnSome-map :
    {A : Type 0} (P Q : A → Type 0) (o : Option A) → OnSome P o → ((a : A) → P a → Q a) → OnSome Q o
OnSome-map P Q none h f = tt
OnSome-map P Q (some a) h f = f a h

anything : {A : Type 0} (o : Option A) → OnSome (λ _. Unit {0}) o
anything none = tt
anything (some a) = tt

pub Same-refl : (k : Keyboard) → Same k k
Same-refl k = record { shift = refl; ctrl = refl; alt = refl }

clear_buffer-Same : (fuel : ℕ) (k : Keyboard) → OnSome (Same k) (clear_buffer fuel k)
unfolding clear_buffer
clear_buffer-Same fuel k =
    OnSome->>= (λ _. Unit) (Same k) (clear_loop fuel fuel 0 k.memory k.buff) _ (anything _)
      (λ m _. record { shift = refl; ctrl = refl; alt = refl })

handle_comb-Same : (fuel : ℕ) (k : Keyboard) (x : ℕ) → OnSome (Same k) (handle_comb fuel k x)
unfolding handle_comb
handle_comb-Same fuel k x =
    let ch = get_ascii_char k.shift k.capslock x in
    let P = OnSome (Same k) in
    if-both P (k.ctrl && k.alt && (x == Keys.delete)) _ _
      (record { shift = refl; ctrl = refl; alt = refl })
      (if-both P (k.ctrl && ((ch == b'l') || (ch == b'L'))) _ (some k)
        (OnSome->>= (Same k) (Same k) (clear_buffer fuel k) _ (clear_buffer-Same fuel k) (λ u s.
          if-both (Same k) u.reading _ _ (record { shift = s.shift; ctrl = s.ctrl; alt = s.alt })
            (record { shift = s.shift; ctrl = s.ctrl; alt = s.alt })))
        (Same-refl k))

combine-Same :
    (outside : ℤ → ℕ) (fuel : ℕ) (k : Keyboard) (x : ℕ) → OnSome (Same k) (combine outside fuel k x)
unfolding combine
combine-Same outside fuel k x = handle_comb-Same fuel _ x

erase-Same : (fuel : ℕ) (k : Keyboard) → OnSome (Same k) (erase fuel k)
unfolding erase
erase-Same fuel k = if-both (OnSome (Same k)) (k.memory k.buff == 0) (some k) _ (Same-refl k) (
    OnSome->>= (λ _. Unit) (Same k) (strlen fuel k.memory k.buff) _ (anything _)
      (λ n _.
        if-both (Same k) k.reading _ _ (record { shift = refl; ctrl = refl; alt = refl })
          (record { shift = refl; ctrl = refl; alt = refl })))

type_char-Same : (fuel : ℕ) (k : Keyboard) → OnSome (Same k) (type_char fuel k)
unfolding type_char
type_char-Same fuel k =
    let P = OnSome (Same k) in
    if-both P (k.memory k.c == 10) _ _
      (OnSome->>= (Same k) (Same k) (clear_buffer fuel _) _ (clear_buffer-Same fuel _)
        (λ u s. record { shift = s.shift; ctrl = s.ctrl; alt = s.alt }))
      (if-both P (k.memory k.c == 8) _ _ (erase-Same fuel k) (
        OnSome->>= (λ _. Unit) (Same k) (strcat fuel k.memory k.buff k.c) _ (anything _)
          (λ r _. record { shift = refl; ctrl = refl; alt = refl })))

pub press_key-Same :
    (outside : ℤ → ℕ) (fuel : ℕ) (k : Keyboard) (x : ℕ)
    → OnSome (Same k) (press_key outside fuel k x)
unfolding press_key
press_key-Same outside fuel k x =
    OnSome->>= (λ _. Unit) (Same k) (strlen fuel k.memory k.c) _ (anything _)
      (λ n _.
        if-both (OnSome (Same k)) (k.alt || k.ctrl) _ _ (combine-Same outside fuel _ x)
          (type_char-Same fuel _))
