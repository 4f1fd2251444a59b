-- ===== src/CString/Chars.antt =====
-- `char2low`, `char2up` and `char2num`, on a byte. A byte from 128 on is negative as a `char` of the source
-- and is no letter in either reading.
use turb_os.Base.{ℕ, ◌+◌, ◌-◌, ◌<◌, ◌≤◌, ◌≡◌, ◌&&◌, leb, ◌==◌, if◌then◌else◌, arith}
use turb_os.Base.Int.{ℤ, pos, negsuc, sub_ℕ}

unfoldable pub char2low : ℕ → ℕ
char2low c = if leb b'A' c && leb c b'Z' then c + 32 else c

unfoldable pub char2up : ℕ → ℕ
char2up c = if leb b'a' c && leb c b'z' then c - 32 else c

-- Changing the case twice is changing it once, in either order, for every byte.
pub char2up-char2low :
    (c : ℕ) → (char2up (char2low c) ≡ char2up c) × (char2low (char2up c) ≡ char2low c)
unfolding char2up char2low
char2up-char2low c = ground arith

-- `c = char2up(c); return (c) ? c - 64 : -1;`
unfoldable pub char2num : ℕ → ℤ
char2num c = let u = char2up c in if u == 0 then negsuc 0 else sub_ℕ u 64

-- A letter of either case has its place in the alphabet, from 1 to 26.
pub char2num_letter :
    (n : ℕ) → 0 < n → n ≤ 26 → (char2num (n + 64) ≡ pos n) × (char2num (n + 96) ≡ pos n)
unfolding char2num char2up
char2num_letter n lo hi = ground arith
