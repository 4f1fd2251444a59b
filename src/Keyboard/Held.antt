-- ===== src/Keyboard/Held.antt =====
-- Which modifiers count as held after any scancodes.
use mathlib.Core.Path.{subst}
use turb_os.Base.{
  ℕ, zero, suc, ◌<◌, ◌≡◌, refl, sym, ap, ◌∙◌, ltb, ltb→lt, ◌*◌, ◌/◌, ◌%◌, ◌==◌, if◌then◌else◌,
  if-both, if-split, if_false, bit_and, Bool, true, false, ◌||◌, some, OnSome, List, [], ◌∷◌, arith,
}
use turb_os.Base.Steps.{bit_and_split, bit_and-zero}
use turb_os.Base.Int.{ℤ}
use turb_os.Keyboard.Keys
use turb_os.Keyboard.Defs.{Keyboard, key_up, key_down, keyboard_handler}
use turb_os.Keyboard.Line.{interrupts}
use turb_os.Keyboard.Modifiers.{Holds, Same, Same-refl, OnSome->>=, OnSome-map, press_key-Same}

-- What a scancode does to the modifiers: a key that is not one of them changes nothing.
abbrev held_after : ℕ → ℕ → ℕ → ℕ → ℕ → Bool → Bool
held_after down1 down2 up1 up2 x held =
    if (x == down1) || (x == down2) then true else if (x == up1) || (x == up2) then false else held

held_after-same :
    (d1 d2 u1 u2 x : ℕ) (held : Bool)
    → ((x == d1) || (x == d2)) ≡ false
    → ((x == u1) || (x == u2)) ≡ false
    → held_after d1 d2 u1 u2 x held ≡ held
held_after-same d1 d2 u1 u2 x held e f = rw (e, f) refl

abbrev pub shift_after : ℕ → Bool → Bool
shift_after = held_after Keys.l_shift_down Keys.r_shift_down Keys.l_shift_up Keys.r_shift_up

abbrev pub ctrl_after : ℕ → Bool → Bool
ctrl_after = held_after Keys.ctrl_down Keys.ctrl_down Keys.ctrl_up Keys.ctrl_up

abbrev pub alt_after : ℕ → Bool → Bool
alt_after = held_after Keys.alt_down Keys.alt_down Keys.alt_up Keys.alt_up

abbrev After : ℕ → Keyboard → Keyboard → Type 0
After x k = Holds (shift_after x k.shift) (ctrl_after x k.ctrl) (alt_after x k.alt)

key_up-After : (k : Keyboard) (x : ℕ) → 127 < x → After x k (key_up k x)
unfolding key_up
key_up-After k x h = record { shift = ground arith; ctrl = ground arith; alt = ground arith }

key_down-After :
    (outside : ℤ → ℕ) (fuel : ℕ) (k : Keyboard) (x : ℕ)
    → x < 128
    → OnSome (After x k) (key_down outside fuel k x)
unfolding key_down
key_down-After outside fuel k x h =
    let P = OnSome (After x k) in
    if-split P ((x == Keys.l_shift_down) || (x == Keys.r_shift_down)) _ _
      (λ e. record { shift = ground arith; ctrl = ground arith; alt = ground arith })
      (λ e1.
        if-split P (x == Keys.ctrl_down) _ _
          (λ e. record { shift = ground arith; ctrl = ground arith; alt = ground arith })
          (λ e2.
            if-split P (x == Keys.alt_down) _ _
              (λ e. record { shift = ground arith; ctrl = ground arith; alt = ground arith })
              (λ e3.
                let keep = keeps e1 e2 e3 in
                if-both P (x == Keys.capslock) _ _
                  (keep _ (record { shift = refl; ctrl = refl; alt = refl }))
                  (if-both P (x == Keys.numlock) _ _
                    (keep _ (record { shift = refl; ctrl = refl; alt = refl }))
                    (if-both P (x == Keys.scrolllock) _ _
                      (keep _ (record { shift = refl; ctrl = refl; alt = refl }))
                      (if-both P (x == Keys.up) _ _
                        (keep _ (record { shift = refl; ctrl = refl; alt = refl }))
                        (if-both P (x == Keys.down) _ _
                          (keep _ (record { shift = refl; ctrl = refl; alt = refl }))
                          (if-both P (x == Keys.right) _ _
                            (keep _ (record { shift = refl; ctrl = refl; alt = refl }))
                            (if-both P (x == Keys.left) _ _
                              (keep _ (record { shift = refl; ctrl = refl; alt = refl }))
                              (OnSome-map (Same k) (After x k) _ (press_key-Same outside fuel k x)
                                keep))))))))))
  where
    keeps :
        ((x == Keys.l_shift_down) || (x == Keys.r_shift_down)) ≡ false
        → (x == Keys.ctrl_down) ≡ false
        → (x == Keys.alt_down) ≡ false
        → (u : Keyboard) → Same k u
        → After x k u
    keeps e1 e2 e3 u s = record {
      shift = s.shift ∙ sym (held_after-same _ _ _ _ x k.shift e1 (ground arith));
      ctrl = s.ctrl ∙ sym (held_after-same _ _ _ _ x k.ctrl (ground arith) (ground arith));
      alt = s.alt ∙ sym (held_after-same _ _ _ _ x k.alt (ground arith) (ground arith));
    }

-- Bit 7 tells the scancodes of keys that go up.
high_bit : (x : ℕ) → x < 256 → (bit_and x 0x80 == 0) ≡ ltb x 128
high_bit x h =
    let same : bit_and x 0x80 ≡ bit_and (x / 128) 1 * 128 =
      omega (arith, bit_and_split 7 x 0x80, bit_and-zero (x % 128)) in
    let top : bit_and (x / 128) 1 ≡ x / 128 = one_bit (x / 128) (omega arith) in
    let value : bit_and x 0x80 ≡ x / 128 * 128 = omega (arith, same, top) in ground (arith, value)
  where
    one_bit : (y : ℕ) → y < 2 → bit_and y 1 ≡ y
    one_bit zero h = refl
    one_bit (suc zero) h = refl
    one_bit (suc (suc y)) h = absurd (omega arith)

keyboard_handler-After :
    (outside : ℤ → ℕ) (fuel : ℕ) (k : Keyboard) (x : ℕ)
    → x < 256
    → OnSome (After x k) (keyboard_handler outside fuel k x)
unfolding keyboard_handler
keyboard_handler-After outside fuel k x h =
    if-split (OnSome (After x k)) (bit_and x 0x80 == 0) _ _
      (λ e. key_down-After outside fuel k x (ltb→lt x 128 (sym (high_bit x h) ∙ e)))
      (λ e. key_up-After k x (not_low x (sym (high_bit x h) ∙ e)))
  where
    not_low : (x : ℕ) → ltb x 128 ≡ false → 127 < x
    not_low x e = ground arith

-- What the scancodes `xs` leave a modifier at: what the last of its scancodes says.
abbrev pub held_by : (ℕ → Bool → Bool) → List ℕ → Bool → Bool
held_by after [] held = held
held_by after (x ∷ xs) held = held_by after xs (after x held)

abbrev pub AllBytes : List ℕ → Type 0
AllBytes [] = Unit {0}
AllBytes (x ∷ xs) = (x < 256) × AllBytes xs

abbrev HeldBy : List ℕ → Keyboard → Keyboard → Type 0
HeldBy xs k =
    Holds (held_by shift_after xs k.shift) (held_by ctrl_after xs k.ctrl)
      (held_by alt_after xs k.alt)

interrupts-HeldBy :
    (outside : ℤ → ℕ) (fuel : ℕ) (xs : List ℕ) (k : Keyboard)
    → AllBytes xs
    → OnSome (HeldBy xs k) (interrupts outside fuel xs k)
unfolding interrupts
interrupts-HeldBy outside fuel [] k h = Same-refl k
interrupts-HeldBy outside fuel (x ∷ xs) k h =
    OnSome->>= (After x k) (HeldBy (x ∷ xs) k) (keyboard_handler outside fuel k x) _
      (keyboard_handler-After outside fuel k x h.0)
      (λ u a.
        OnSome-map (HeldBy xs u) (HeldBy (x ∷ xs) k) _ (interrupts-HeldBy outside fuel xs u h.1)
          (λ v w. record {
            shift = w.shift ∙ ap (held_by shift_after xs) a.shift;
            ctrl = w.ctrl ∙ ap (held_by ctrl_after xs) a.ctrl;
            alt = w.alt ∙ ap (held_by alt_after xs) a.alt;
          }))

-- A key that goes up, or one that goes down and types nothing.
pub data IsSilent : ℕ → Type 0 where
  released : {x : ℕ} → 127 < x → x < 256 → IsSilent x
  l_shift : IsSilent Keys.l_shift_down
  r_shift : IsSilent Keys.r_shift_down
  ctrl : IsSilent Keys.ctrl_down
  alt : IsSilent Keys.alt_down
  capslock : IsSilent Keys.capslock
  up : IsSilent Keys.up
  down : IsSilent Keys.down
  left : IsSilent Keys.left
  right : IsSilent Keys.right
  numlock : IsSilent Keys.numlock
  scrolllock : IsSilent Keys.scrolllock

abbrev pub AllSilent : List ℕ → Type 0
AllSilent [] = Unit {0}
AllSilent (x ∷ xs) = IsSilent x × AllSilent xs

keyboard_handler-some :
    (outside : ℤ → ℕ) (fuel : ℕ) (k : Keyboard) (x : ℕ)
    → IsSilent x
    → (u : Keyboard) × (keyboard_handler outside fuel k x ≡ some u)
unfolding keyboard_handler key_down
keyboard_handler-some outside fuel k x (released hi lo) =
    let up : (bit_and x 0x80 == 0) ≡ false = high_bit x lo ∙ ground arith in
    (key_up k x, if_false _ _ _ up)
keyboard_handler-some outside fuel k _ l_shift = (_, refl)
keyboard_handler-some outside fuel k _ r_shift = (_, refl)
keyboard_handler-some outside fuel k _ ctrl = (_, refl)
keyboard_handler-some outside fuel k _ alt = (_, refl)
keyboard_handler-some outside fuel k _ capslock = (_, refl)
keyboard_handler-some outside fuel k _ up = (_, refl)
keyboard_handler-some outside fuel k _ down = (_, refl)
keyboard_handler-some outside fuel k _ left = (_, refl)
keyboard_handler-some outside fuel k _ right = (_, refl)
keyboard_handler-some outside fuel k _ numlock = (_, refl)
keyboard_handler-some outside fuel k _ scrolllock = (_, refl)

interrupts-some :
    (outside : ℤ → ℕ) (fuel : ℕ) (xs : List ℕ) (k : Keyboard)
    → AllSilent xs
    → (u : Keyboard) × (interrupts outside fuel xs k ≡ some u)
unfolding interrupts
interrupts-some outside fuel [] k h = (k, refl)
interrupts-some outside fuel (x ∷ xs) k h =
    let (u, e) = keyboard_handler-some outside fuel k x h.0 in
    let (v, e') = interrupts-some outside fuel xs u h.1 in (v, rw e e')

silent-lt : (x : ℕ) → IsSilent x → x < 256
silent-lt x (released hi lo) = lo
silent-lt _ l_shift = omega arith
silent-lt _ r_shift = omega arith
silent-lt _ ctrl = omega arith
silent-lt _ alt = omega arith
silent-lt _ capslock = omega arith
silent-lt _ up = omega arith
silent-lt _ down = omega arith
silent-lt _ left = omega arith
silent-lt _ right = omega arith
silent-lt _ numlock = omega arith
silent-lt _ scrolllock = omega arith

AllSilent-AllBytes : (xs : List ℕ) → AllSilent xs → AllBytes xs
AllSilent-AllBytes [] h = tt
AllSilent-AllBytes (x ∷ xs) h = (silent-lt x h.0, AllSilent-AllBytes xs h.1)

-- Any sequence of keys that go up, and of modifiers, locks and arrows that go down, is handled, and shift, ctrl
-- and alt count as held then as the last scancode of one of their keys says: of two shift keys that are held,
-- the first that goes up ends both.
pub interrupts_modifiers :
    (outside : ℤ → ℕ) (fuel : ℕ) (xs : List ℕ) (k : Keyboard)
    → AllSilent xs
    → (u : Keyboard) × (interrupts outside fuel xs k ≡ some u)
      × (u.shift ≡ held_by shift_after xs k.shift)
      × (u.ctrl ≡ held_by ctrl_after xs k.ctrl)
      × (u.alt ≡ held_by alt_after xs k.alt)
interrupts_modifiers outside fuel xs k h =
    let (u, e) = interrupts-some outside fuel xs k h in
    let all =
      subst (OnSome (HeldBy xs k)) e
        (interrupts-HeldBy outside fuel xs k (AllSilent-AllBytes xs h)) in
    (u, e, all.shift, all.ctrl, all.alt)
