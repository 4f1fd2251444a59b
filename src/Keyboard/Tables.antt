-- ===== src/Keyboard/Tables.antt =====
-- The characters of the keys, in scancodes.hpp: one table each for no modifier, shift, caps lock with shift, and
-- caps lock. A table has 128 places, and those that it does not name are 0.
use turb_os.Base.{ℕ, List, [], ◌∷◌}

unfoldable pub kbdus : List ℕ
kbdus =
    0 ∷ 27 ∷ b'&' ∷ b'e' ∷ 34 ∷ 39 ∷ b'(' ∷ b'-' ∷ b'e' ∷ b'_' ∷ b'c' ∷ b'a' ∷ b')' ∷ b'=' ∷ 8 ∷ 9
    ∷ b'a' ∷ b'z' ∷ b'e' ∷ b'r' ∷ b't' ∷ b'y' ∷ b'u' ∷ b'i' ∷ b'o' ∷ b'p' ∷ b'^' ∷ b'$' ∷ 10 ∷ 0
    ∷ b'q' ∷ b's' ∷ b'd' ∷ b'f' ∷ b'g' ∷ b'h' ∷ b'j' ∷ b'k' ∷ b'l' ∷ b'm' ∷ b'u' ∷ b'*' ∷ 0 ∷ b'<'
    ∷ b'w' ∷ b'x' ∷ b'c' ∷ b'v' ∷ b'b' ∷ b'n' ∷ b',' ∷ b';' ∷ b':' ∷ b'!' ∷ 0 ∷ b'*' ∷ 0 ∷ b' ' ∷ 0
    ∷ 0 ∷ 0 ∷ 0 ∷ 0 ∷ 0 ∷ 0 ∷ 0 ∷ 0 ∷ 0 ∷ 0 ∷ 0 ∷ 0 ∷ 0 ∷ 0 ∷ 0 ∷ b'-' ∷ 0 ∷ 0 ∷ 0 ∷ b'+' ∷ []

unfoldable pub kbdus_shft : List ℕ
kbdus_shft =
    0 ∷ 27 ∷ b'1' ∷ b'2' ∷ b'3' ∷ b'4' ∷ b'5' ∷ b'6' ∷ b'7' ∷ b'8' ∷ b'9' ∷ b'0' ∷ b'*' ∷ b'+' ∷ 8
    ∷ 9 ∷ b'A' ∷ b'Z' ∷ b'E' ∷ b'R' ∷ b'T' ∷ b'Y' ∷ b'U' ∷ b'I' ∷ b'O' ∷ b'P' ∷ b'^' ∷ b'E' ∷ 10 ∷ 0
    ∷ b'Q' ∷ b'S' ∷ b'D' ∷ b'F' ∷ b'G' ∷ b'H' ∷ b'J' ∷ b'K' ∷ b'L' ∷ b'M' ∷ b'%' ∷ b'u' ∷ 0 ∷ b'<'
    ∷ b'W' ∷ b'X' ∷ b'C' ∷ b'V' ∷ b'B' ∷ b'N' ∷ b'?' ∷ b'.' ∷ b'/' ∷ b'S' ∷ 0 ∷ b'*' ∷ 0 ∷ b' ' ∷ 0
    ∷ 0 ∷ 0 ∷ 0 ∷ 0 ∷ 0 ∷ 0 ∷ 0 ∷ 0 ∷ 0 ∷ 0 ∷ 0 ∷ 0 ∷ 0 ∷ 0 ∷ 0 ∷ b'-' ∷ 0 ∷ 0 ∷ 0 ∷ b'+' ∷ []

unfoldable pub kbdus_capsshft : List ℕ
kbdus_capsshft =
    0 ∷ 27 ∷ b'&' ∷ b'e' ∷ 34 ∷ 39 ∷ b'(' ∷ b'-' ∷ b'e' ∷ b'_' ∷ b'c' ∷ b'a' ∷ b')' ∷ b'=' ∷ 8 ∷ 9
    ∷ b'a' ∷ b'z' ∷ b'e' ∷ b'r' ∷ b't' ∷ b'y' ∷ b'u' ∷ b'i' ∷ b'o' ∷ b'p' ∷ b'^' ∷ b'$' ∷ 10 ∷ 0
    ∷ b'q' ∷ b's' ∷ b'd' ∷ b'f' ∷ b'g' ∷ b'h' ∷ b'j' ∷ b'k' ∷ b'l' ∷ b'm' ∷ b'u' ∷ b'*' ∷ 0 ∷ b'<'
    ∷ b'w' ∷ b'x' ∷ b'c' ∷ b'v' ∷ b'b' ∷ b'n' ∷ b',' ∷ b';' ∷ b':' ∷ b'!' ∷ 0 ∷ b'*' ∷ 0 ∷ b' ' ∷ 0
    ∷ 0 ∷ 0 ∷ 0 ∷ 0 ∷ 0 ∷ 0 ∷ 0 ∷ 0 ∷ 0 ∷ 0 ∷ 0 ∷ 0 ∷ 0 ∷ 0 ∷ 0 ∷ b'-' ∷ 0 ∷ 0 ∷ 0 ∷ b'+' ∷ []

unfoldable pub kbdus_caps : List ℕ
kbdus_caps =
    0 ∷ 27 ∷ b'1' ∷ b'2' ∷ b'3' ∷ b'4' ∷ b'5' ∷ b'6' ∷ b'7' ∷ b'8' ∷ b'9' ∷ b'0' ∷ b'*' ∷ b'+' ∷ 8
    ∷ 9 ∷ b'A' ∷ b'Z' ∷ b'E' ∷ b'R' ∷ b'T' ∷ b'Y' ∷ b'U' ∷ b'I' ∷ b'O' ∷ b'P' ∷ b'^' ∷ b'E' ∷ 10 ∷ 0
    ∷ b'Q' ∷ b'S' ∷ b'D' ∷ b'F' ∷ b'G' ∷ b'H' ∷ b'J' ∷ b'K' ∷ b'L' ∷ b'M' ∷ b'%' ∷ b'u' ∷ 0 ∷ b'<'
    ∷ b'W' ∷ b'X' ∷ b'C' ∷ b'V' ∷ b'B' ∷ b'N' ∷ b'?' ∷ b'.' ∷ b'/' ∷ b'S' ∷ 0 ∷ b'*' ∷ 0 ∷ b' ' ∷ 0
    ∷ 0 ∷ 0 ∷ 0 ∷ 0 ∷ 0 ∷ 0 ∷ 0 ∷ 0 ∷ 0 ∷ 0 ∷ 0 ∷ 0 ∷ 0 ∷ 0 ∷ 0 ∷ b'-' ∷ 0 ∷ 0 ∷ 0 ∷ b'+' ∷ []
