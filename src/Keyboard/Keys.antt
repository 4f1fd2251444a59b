-- ===== src/Keyboard/Keys.antt =====
-- The scancodes of `keys` in scancodes.hpp that the handler tests for.
use turb_os.Base.{ℕ}

abbrev pub capslock : ℕ
capslock = 0x3A

abbrev pub numlock : ℕ
numlock = 0x45

abbrev pub scrolllock : ℕ
scrolllock = 0x46

abbrev pub l_shift_down : ℕ
l_shift_down = 0x2A

abbrev pub r_shift_down : ℕ
r_shift_down = 0x36

abbrev pub l_shift_up : ℕ
l_shift_up = 0xAA

abbrev pub r_shift_up : ℕ
r_shift_up = 0xB6

abbrev pub ctrl_down : ℕ
ctrl_down = 0x1D

abbrev pub ctrl_up : ℕ
ctrl_up = 0x9D

abbrev pub alt_down : ℕ
alt_down = 0x38

abbrev pub alt_up : ℕ
alt_up = 0xB8

abbrev pub delete : ℕ
delete = 0x53

abbrev pub up : ℕ
up = 0x48

abbrev pub down : ℕ
down = 0x50

abbrev pub left : ℕ
left = 0x4B

abbrev pub right : ℕ
right = 0x4D
