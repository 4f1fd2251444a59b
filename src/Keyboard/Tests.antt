-- ===== src/Keyboard/Tests.antt =====
-- The keyboard at concrete states.
use turb_os.Base.{ℕ, ◌≡◌, refl, ◌==◌, if◌then◌else◌, inl, true, false, some, List, [], ◌∷◌, arith}
use turb_os.Base.Int.{ℤ, pos}
use turb_os.CString.Defs.{Memory}
use turb_os.CString.Text.{Text}
use turb_os.Keyboard.Tables.{kbdus}
use turb_os.Keyboard.Defs.{Keyboard, get_ascii_char, table_at, type_char, press_key}
use turb_os.Keyboard.Line.{interrupts}
use turb_os.Keyboard.Held.{
  interrupts_modifiers, released, l_shift, r_shift, held_by, shift_after, ctrl_after, alt_after,
}
use turb_os.Keyboard.Enter.{press_key-newline}

-- `hi` in the buffer, and `x` as the last character.
abbrev hi : Memory
hi q = if q == 0x1000 then b'h' else if q == 0x1001 then b'i' else if q == 0x2000 then b'x' else 0

abbrev console : Keyboard
console = record {
  shift = false;
  ctrl = false;
  alt = false;
  numlock = false;
  capslock = false;
  scrolllock = false;
  reading = false;
  pressed = false;
  enter = false;
  line_lock = false;
  gi = pos 0;
  memory = hi;
  buff = 0x1000;
  c = 0x2000;
  retstr = 0x3000;
  output = [];
}

abbrev nowhere : ℤ → ℕ
nowhere i = 0

-- The same with a newline as the character.
abbrev entered : Keyboard
entered = record console { memory = λ q. if q == 0x2000 then 10 else hi q }

press_key-newline_example :
    (u : Keyboard) × (v : Keyboard) × (type_char 10 entered ≡ some u)
    × (press_key nowhere 10 u 0x2C ≡ some v)
    × (u.enter ≡ true)
    × Text v.memory v.buff (b'w' ∷ b'i' ∷ [])
unfolding get_ascii_char kbdus table_at
press_key-newline_example =
    press_key-newline nowhere 10 entered b'h' b'w' 0x2C (b'i' ∷ [])
      (record {
        buff = omega arith;
        text = (refl, omega arith, (refl, omega arith, refl));
        char = (refl, omega arith, refl);
        enough = omega arith;
        apart = inl (omega arith);
      })
      (omega arith, omega arith) (omega arith) refl refl refl

-- Both shift keys go down, and one goes up.
abbrev both_shifts : List ℕ
both_shifts = 0x2A ∷ 0x36 ∷ 0xAA ∷ []

interrupts_modifiers_example :
    (u : Keyboard) × (interrupts nowhere 10 both_shifts console ≡ some u)
    × (u.shift ≡ held_by shift_after both_shifts false)
    × (u.ctrl ≡ held_by ctrl_after both_shifts false)
    × (u.alt ≡ held_by alt_after both_shifts false)
interrupts_modifiers_example =
    interrupts_modifiers nowhere 10 both_shifts console
      (l_shift, (r_shift, (released (omega arith) (omega arith), tt)))
