-- ===== src/Keyboard/Defs.antt =====
-- The handler of the keyboard's interrupt. The buffers stand in a memory of bytes; `none` is a string that
-- does not end within the fuel.
use turb_os.Base.{
  ℕ, zero, suc, ◌+◌, ◌-◌, ltb, leb, ◌==◌, if◌then◌else◌, bit_and, Bool, true, false, not, ◌&&◌,
  ◌||◌, Option, none, some, List, [], ◌∷◌,
}
use turb_os.Base.Int.{ℤ, pos, negsuc, minus_ℕ}
use turb_os.CString.Defs.{Memory, poke, strlen, strcat}
use turb_os.CString.Chars.{char2up, char2num}
use turb_os.Keyboard.Tables.{kbdus, kbdus_shft, kbdus_capsshft, kbdus_caps}
use turb_os.Keyboard.Keys

pub data Output : Type 0 where
  shows : List ℕ → Output
  shows_at : Memory → ℕ → Output
  cursor_up : Output
  cursor_down : Output
  cursor_right : Output
  cursor_left : Output
  clears : Output
  reboots : Output
  overflows : Output

-- The variables of turbo::keyboard; `buff`, `c` and `retstr` are addresses in `memory`, and `output` is what
-- was shown or called for, the last one first.
pub record Keyboard : Type 0 where
  pub shift : Bool
  pub ctrl : Bool
  pub alt : Bool
  pub numlock : Bool
  pub capslock : Bool
  pub scrolllock : Bool
  pub reading : Bool
  pub pressed : Bool
  pub enter : Bool
  pub line_lock : Bool
  pub gi : ℤ
  pub memory : Memory
  pub buff : ℕ
  pub c : ℕ
  pub retstr : ℕ
  pub output : List Output

infixl 5 ◌>>=◌
abbrev pub ◌>>=◌ : {A B : Type 0} → Option A → (A → Option B) → Option B
none >>= f = none
some a >>= f = f a

-- A place in a table; the places behind its last character are 0.
unfoldable pub table_at : List ℕ → ℕ → ℕ
table_at [] i = 0
table_at (x ∷ xs) zero = x
table_at (x ∷ xs) (suc i) = table_at xs i

unfoldable pub get_ascii_char : Bool → Bool → ℕ → ℕ
get_ascii_char shift capslock key_code =
    if not shift && not capslock
    then table_at kbdus key_code
    else if shift && not capslock
    then table_at kbdus_shft key_code
    else if not shift && capslock
    then table_at kbdus_caps key_code
    else if shift && capslock
    then table_at kbdus_capsshft key_code
    else 0

-- `memset(p, 0, n)`
abbrev pub clear_bytes : Memory → ℕ → ℕ → Memory
clear_bytes m p n q = if leb p q && ltb q (p + n) then 0 else m q

-- `for (i = 0; i < strlen(buff); i++) buff[i] = '\0';`
unfoldable pub clear_loop : ℕ → ℕ → ℕ → Memory → ℕ → Option Memory
clear_loop zero fuel i m buff = none
clear_loop (suc rounds) fuel i m buff =
    let rest = clear_loop rounds fuel (i + 1) (poke m (buff + i) 0) buff in
    strlen fuel m buff >>= λ n. if ltb i n then rest else some m

unfoldable pub clear_buffer : ℕ → Keyboard → Option Keyboard
clear_buffer fuel k = clear_loop fuel fuel 0 k.memory k.buff >>= λ m. some (record k { memory = m })

-- `reading` is only set by `getLine`, whose buffer is cleared.
unfoldable pub handle_comb : ℕ → Keyboard → ℕ → Option Keyboard
handle_comb fuel k scancode =
    let ch = get_ascii_char k.shift k.capslock scancode in
    if k.ctrl && k.alt && (scancode == Keys.delete)
    then some (record k { output = reboots ∷ k.output })
    else (if k.ctrl && ((ch == b'l') || (ch == b'L'))
        then (clear_buffer fuel k >>= λ k.
            let cleared = record k { output = clears ∷ k.output } in
            some (
              if k.reading
              then record cleared { memory = clear_bytes k.memory k.retstr 1024; enter = true }
              else cleared))
        else some k)

-- `escapes[i]`; what stands outside of the array is an argument.
unfoldable pub escape_at : (ℤ → ℕ) → ℤ → ℕ
escape_at outside (negsuc i) = outside (negsuc i)
escape_at outside (pos i) =
    if ltb i 32 then i else if i == 127 then 127 else if ltb i 127 then 0 else outside (pos i)

-- a character with ctrl or alt held
unfoldable pub combine : (ℤ → ℕ) → ℕ → Keyboard → ℕ → Option Keyboard
unfolding escape_at
combine outside fuel k scancode =
    let ch = char2up (k.memory k.c) in
    let shown =
      if k.ctrl
      then (if (leb b'A' ch && leb ch b'_') || (ch == b'?') || (ch == b'0')
          then shows (escape_at outside (char2num ch) ∷ []) ∷ k.output
          else k.output)
      else shows (27 ∷ b'[' ∷ ch ∷ []) ∷ k.output in
    handle_comb fuel (record k { output = shown }) scancode

-- `retstr[i] = x;`
unfoldable pub store_at : Memory → ℕ → ℤ → ℕ → Memory
store_at m retstr (pos i) x = poke m (retstr + i) x
store_at m retstr (negsuc i) x = poke m (retstr - (i + 1)) x

-- the case of a backspace
unfoldable pub erase : ℕ → Keyboard → Option Keyboard
unfolding store_at
erase fuel k =
    if k.memory k.buff == 0
    then some k
    else (strlen fuel k.memory k.buff >>= λ n.
        let m = poke k.memory (k.buff + (n - 1)) 0 in
        let back = minus_ℕ k.gi 1 in
        let kept = record k { memory = m; output = shows (8 ∷ 32 ∷ 8 ∷ []) ∷ k.output } in
        some (
          if k.reading
          then record kept { memory = store_at m k.retstr back 0; gi = back }
          else kept))

-- `switch (c[0])`
unfoldable pub type_char : ℕ → Keyboard → Option Keyboard
unfolding clear_buffer erase
type_char fuel k =
    let ch = k.memory k.c in
    if ch == 10
    then (clear_buffer fuel (record k { output = shows (10 ∷ []) ∷ k.output }) >>= λ k.
        some (record k { enter = true }))
    else (if ch == 8
        then erase fuel k
        else (strcat fuel k.memory k.buff k.c >>= λ (m, _).
            some
              (record k { pressed = true; memory = m; output = shows_at k.memory k.c ∷ k.output })))

-- `strcpy(c, "\033[A");` for each arrow
abbrev pub arrow : Memory → ℕ → ℕ → Memory
arrow m c x = poke (poke (poke (poke m c 27) (c + 1) b'[') (c + 2) x) (c + 3) 0

-- the default of the switch over a key that goes down
unfoldable pub press_key : (ℤ → ℕ) → ℕ → Keyboard → ℕ → Option Keyboard
press_key outside fuel k scancode = strlen fuel k.memory k.c >>= λ n.
    let m = clear_bytes k.memory k.c n in
    let set = record k { memory = poke m k.c (get_ascii_char k.shift k.capslock scancode) } in
    if k.alt || k.ctrl then combine outside fuel set scancode else type_char fuel set

unfoldable pub key_up : Keyboard → ℕ → Keyboard
key_up k scancode =
    if (scancode == Keys.l_shift_up) || (scancode == Keys.r_shift_up)
    then record k { shift = false }
    else if scancode == Keys.ctrl_up
    then record k { ctrl = false }
    else if scancode == Keys.alt_up
    then record k { alt = false }
    else k

unfoldable pub key_down : (ℤ → ℕ) → ℕ → Keyboard → ℕ → Option Keyboard
key_down outside fuel k scancode =
    let typed = press_key outside fuel k scancode in
    if (scancode == Keys.l_shift_down) || (scancode == Keys.r_shift_down)
    then some (record k { shift = true })
    else if scancode == Keys.ctrl_down
    then some (record k { ctrl = true })
    else if scancode == Keys.alt_down
    then some (record k { alt = true })
    else if scancode == Keys.capslock
    then some (record k { capslock = not k.capslock })
    else if scancode == Keys.numlock
    then some (record k { numlock = not k.numlock })
    else if scancode == Keys.scrolllock
    then some (record k { scrolllock = not k.scrolllock })
    else if scancode == Keys.up
    then some (record k { memory = arrow k.memory k.c b'A'; output = cursor_up ∷ k.output })
    else if scancode == Keys.down
    then some (record k { memory = arrow k.memory k.c b'B'; output = cursor_down ∷ k.output })
    else if scancode == Keys.right
    then some (record k { memory = arrow k.memory k.c b'C'; output = cursor_right ∷ k.output })
    else if scancode == Keys.left
    then some (record k { memory = arrow k.memory k.c b'D'; output = cursor_left ∷ k.output })
    else typed

-- The handler, with the byte that the port gives.
unfoldable pub keyboard_handler : (ℤ → ℕ) → ℕ → Keyboard → ℕ → Option Keyboard
keyboard_handler outside fuel k scancode =
    if bit_and scancode 0x80 == 0
    then key_down outside fuel k scancode
    else some (key_up k scancode)
