-- ===== src/Keyboard/Line.antt =====
-- `getchar` and `getLine`, which wait for what the handler stores.
use turb_os.Base.{ℕ, if◌then◌else◌, true, false, Option, none, some, List, [], ◌∷◌}
use turb_os.Base.Int.{ℤ, pos, add_ℕ, lt_ℤ}
use turb_os.Keyboard.Defs.{Keyboard, ◌>>=◌, clear_bytes, store_at, overflows, keyboard_handler}

-- `getchar` once a key is there
unfoldable pub take_char : Keyboard → Keyboard × ℕ
take_char k = (record k { pressed = false }, k.memory k.c)

-- `getLine` up to its loop; `none` waits for the lock.
unfoldable pub begin_line : Keyboard → Option Keyboard
begin_line k =
    if k.line_lock
    then none
    else some
        (record k { line_lock = true; reading = true; memory = clear_bytes k.memory k.retstr 1024 })

-- what both ends of `getLine` reset
unfoldable pub end_line : Keyboard → Keyboard
end_line k = record k { enter = false; reading = false; gi = pos 0; line_lock = false }

-- How one round of the loop ends: it goes on, or `getLine` returns the line or null.
pub data Round : Type 0 where
  goes_on : Keyboard → Round
  returns : Keyboard → ℕ → Round

unfoldable pub line_round : Keyboard → Round
unfolding take_char store_at end_line
line_round k =
    if k.enter
    then returns (end_line k) k.retstr
    else (if k.pressed
        then (if lt_ℤ k.gi (pos 1023)
            then (let (taken, ch) = take_char k in
                goes_on (record taken {
                  memory = store_at taken.memory k.retstr k.gi ch;
                  gi = add_ℕ k.gi 1;
                }))
            else returns (end_line (record k { output = overflows ∷ k.output })) 0)
        else goes_on k)

-- the handler for one scancode after the other
unfoldable pub interrupts : (ℤ → ℕ) → ℕ → List ℕ → Keyboard → Option Keyboard
interrupts outside fuel [] k = some k
interrupts outside fuel (x ∷ xs) k =
    keyboard_handler outside fuel k x >>= interrupts outside fuel xs

-- The loop of `getLine` while keys come: before each round the handler runs for the scancodes that stand
-- first. With no more rounds given it still waits, which is `none`.
unfoldable pub line_loop : (ℤ → ℕ) → ℕ → List (List ℕ) → Keyboard → Option (Keyboard × ℕ)
unfolding line_round
line_loop outside fuel [] k = none
line_loop outside fuel (keys ∷ later) k =
    let rest = line_loop outside fuel later in
    interrupts outside fuel keys k >>= λ k. elim (line_round k) [
      | goes_on k' ↦ rest k'
      | returns k' line ↦ some (k', line)
    ]
