-- ===== src/Bitmap.antt =====
-- src/system/memory/bitmap/bitmap.cpp: bits in memory, the first bit of a byte being its highest.
pub mod Laws
use turb_os.Base.{ℕ, ◌-◌, ◌/◌, ◌%◌, ◌^◌, bit_and, bit_or, Bool, ltb, ◌==◌, if◌then◌else◌}
use turb_os.Base.Words.{complement8}

-- `uint8_t *buffer`: the bytes from the pointer on. Nothing in the class knows where they end.
abbrev pub Bitmap : Type 0
Bitmap = ℕ → ℕ

-- `0b10000000 >> biti`
unfoldable pub bit_indexer : ℕ → ℕ
bit_indexer biti = 0b10000000 / 2 ^ biti

unfoldable pub get : Bitmap → ℕ → Bool
unfolding bit_indexer
get buffer index =
    let bytei = index / 8 in
    let biti = index % 8 in ltb 0 (bit_and (buffer bytei) (bit_indexer biti))

-- a store to `buffer[i]`
abbrev pub store : Bitmap → ℕ → ℕ → Bitmap
store buffer i v j = if i == j then v else buffer j

-- `buffer[bytei] &= ~bitindexer`, and then `buffer[bytei] |= bitindexer` if the bit is to be set
unfoldable pub set : Bitmap → ℕ → Bool → Bitmap
unfolding bit_indexer
set buffer index value =
    let bytei = index / 8 in
    let biti = index % 8 in
    let cleared = bit_and (buffer bytei) (complement8 (bit_indexer biti)) in
    let low = store buffer bytei cleared in
    if value then store low bytei (bit_or (low bytei) (bit_indexer biti)) else low
