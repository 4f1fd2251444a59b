-- ===== src/PageTable/Entry.antt =====
-- The methods of `PDEntry`, on the 64 bits of its `value`.
use turb_os.Base.{ℕ, ◌*◌, ◌/◌, ◌^◌, bit_and, bit_or, Bool, not, ltb, ◌==◌, if◌then◌else◌}
use turb_os.Base.Words.{complement64}

-- `enum PT_Flag`
abbrev pub present : ℕ
present = 1

abbrev pub read_n_write : ℕ
read_n_write = 2

abbrev pub user_super : ℕ
user_super = 4

-- `setFlag` and `setFlags`, which have the same body
unfoldable pub set_flags : ℕ → ℕ → Bool → ℕ
set_flags value flags enabled =
    let cleared = bit_and value (complement64 flags) in
    if enabled then bit_or cleared flags else cleared

-- `getFlag` and `getFlags`: the comparison `bitSel > 0` is done before the `&`.
unfoldable pub get_flags : ℕ → ℕ → Bool
get_flags value flags = not (bit_and value (if ltb 0 flags then 1 else 0) == 0)

unfoldable pub get_address : ℕ → ℕ
get_address value = bit_and value 0x000FFFFFFFFFF000 / 2 ^ 12

unfoldable pub set_address : ℕ → ℕ → ℕ
set_address value address =
    bit_or (bit_and value 0xFFF0000000000FFF) (bit_and address 0x000000FFFFFFFFFF * 2 ^ 12)
