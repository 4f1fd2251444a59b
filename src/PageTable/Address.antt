-- ===== src/PageTable/Address.antt =====
-- The address field of an entry: bits 12 to 51.
use mathlib.Core.Path.{ap₂}
use turb_os.Base.{
  ℕ, ◌+◌, ◌-◌, ◌*◌, ◌/◌, ◌%◌, ◌^◌, ◌<◌, ◌≡◌, bit_and, bit_or, Bool, true, false, ap, ◌∙◌, arith,
}
use turb_os.Base.Words.{complement64}
use turb_os.Base.Bits.{bit_and_mask, bit_and_lt, bit_or_lt}
use turb_os.Base.Steps.{bit_and-zero, bit_or-zero, zero-bit_or, bit_and_split, bit_or_split}
use turb_os.PageTable.Entry.{get_address, set_address, set_flags}

-- The masks of the two methods as remainders and quotients.
pub field_lem : (v : ℕ) → bit_and v 0x000FFFFFFFFFF000 ≡ v / 2 ^ 12 % 2 ^ 40 * 2 ^ 12
field_lem v = omega (
  arith,
  bit_and_split 12 v 0x000FFFFFFFFFF000,
  bit_and_mask 40 (v / 2 ^ 12),
  bit_and-zero (v % 2 ^ 12),
)

rest_lem : (v : ℕ) → v < 2 ^ 64 → bit_and v 0xFFF0000000000FFF ≡ v / 2 ^ 52 * 2 ^ 52 + v % 2 ^ 12
rest_lem v fits = omega (
  arith,
  bit_and_split 52 v 0xFFF0000000000FFF,
  bit_and_mask 12 (v / 2 ^ 52),
  bit_and_split 12 (v % 2 ^ 52) 0xFFF,
  bit_and-zero (v % 2 ^ 52 / 2 ^ 12),
  bit_and_mask 12 (v % 2 ^ 52 % 2 ^ 12),
)

-- The two parts of the entry share no bit.
or_field : (v a : ℕ) → bit_or (v % 2 ^ 12) (a % 2 ^ 40 * 2 ^ 12) ≡ a % 2 ^ 40 * 2 ^ 12 + v % 2 ^ 12
or_field v a =
    let low : v % 2 ^ 12 / 2 ^ 12 ≡ 0 = omega arith in
    let high : a % 2 ^ 40 * 2 ^ 12 / 2 ^ 12 ≡ a % 2 ^ 40 = omega arith in
    let low' : v % 2 ^ 12 % 2 ^ 12 ≡ v % 2 ^ 12 = omega arith in
    let high' : a % 2 ^ 40 * 2 ^ 12 % 2 ^ 12 ≡ 0 = omega arith in
    bit_or_split 12 (v % 2 ^ 12) (a % 2 ^ 40 * 2 ^ 12)
    ∙ ap₂ (λ (s t : ℕ). s * 2 ^ 12 + t) (ap₂ bit_or low high ∙ zero-bit_or (a % 2 ^ 40))
        (ap₂ bit_or low' high' ∙ bit_or-zero (v % 2 ^ 12))

or_rest :
    (u v a : ℕ)
    → bit_or (u * 2 ^ 52 + v % 2 ^ 12) (a % 2 ^ 40 * 2 ^ 12)
      ≡ u * 2 ^ 52 + (a % 2 ^ 40 * 2 ^ 12 + v % 2 ^ 12)
or_rest u v a =
    let x = u * 2 ^ 52 + v % 2 ^ 12 in
    let y = a % 2 ^ 40 * 2 ^ 12 in
    let upper : x / 2 ^ 52 ≡ u = omega arith in
    let none : y / 2 ^ 52 ≡ 0 = omega arith in
    let lower : x % 2 ^ 52 ≡ v % 2 ^ 12 = omega arith in
    let all : y % 2 ^ 52 ≡ y = omega arith in
    bit_or_split 52 x y
    ∙ ap₂ (λ (s t : ℕ). s * 2 ^ 52 + t) (ap₂ bit_or upper none ∙ bit_or-zero u)
        (ap₂ bit_or lower all ∙ or_field v a)

-- After `setAddress` the entry is: the upper 12 bits of before, the low 40 bits of the address, and the low
-- 12 bits of before.
set_address_lem :
    (v a : ℕ)
    → v < 2 ^ 64
    → set_address v a ≡ v / 2 ^ 52 * 2 ^ 52 + a % 2 ^ 40 * 2 ^ 12 + v % 2 ^ 12
unfolding set_address
set_address_lem v a fits =
    rw (rest_lem v fits, bit_and_mask 40 a) (or_rest (v / 2 ^ 52) v a ∙ omega arith)

-- Writing an address changes nothing else: it reads back cut to 40 bits, and the 12 bits below the field
-- and the 12 above it are kept.
pub get_address-set_address :
    (v a : ℕ)
    → v < 2 ^ 64
    → (get_address (set_address v a) ≡ a % 2 ^ 40)
      × (set_address v a % 2 ^ 12 ≡ v % 2 ^ 12)
      × (set_address v a / 2 ^ 52 ≡ v / 2 ^ 52)
unfolding get_address
get_address-set_address v a fits =
    omega (arith, field_lem (set_address v a), set_address_lem v a fits)

mask_above : (f : ℕ) → f < 2 ^ 12 → (2 ^ 64 - 1 - f) / 2 ^ 12 ≡ 2 ^ 52 - 1
mask_above f h = omega arith

cleared_above :
    (v f : ℕ) → v < 2 ^ 64 → f < 2 ^ 12 → bit_and v (complement64 f) / 2 ^ 12 ≡ v / 2 ^ 12
cleared_above v f fits low =
    let c = complement64 f in
    let upper = ap (bit_and (v / 2 ^ 12)) (mask_above f low) ∙ bit_and_mask 52 (v / 2 ^ 12) in
    let part = bit_and_lt 12 (v % 2 ^ 12) (c % 2 ^ 12) (omega arith) in
    omega (arith, bit_and_split 12 v c, upper, part)

set_flags_above :
    (v f : ℕ) (enabled : Bool)
    → v < 2 ^ 64
    → f < 2 ^ 12
    → set_flags v f enabled / 2 ^ 12 ≡ v / 2 ^ 12
unfolding set_flags
set_flags_above v f false fits low = cleared_above v f fits low
set_flags_above v f true fits low =
    let cleared = bit_and v (complement64 f) in
    let none : f / 2 ^ 12 ≡ 0 = omega arith in
    let upper = ap₂ bit_or (cleared_above v f fits low) none ∙ bit_or-zero (v / 2 ^ 12) in
    let part = bit_or_lt 12 (cleared % 2 ^ 12) (f % 2 ^ 12) (omega arith) (omega arith) in
    omega (arith, bit_or_split 12 cleared f, upper, part)

-- Flags below the address field do not touch it, whether they are set or cleared.
pub get_address-set_flags :
    (v f : ℕ) (enabled : Bool)
    → v < 2 ^ 64
    → f < 2 ^ 12
    → get_address (set_flags v f enabled) ≡ get_address v
unfolding get_address
get_address-set_flags v f enabled fits low =
    omega
      (arith, field_lem (set_flags v f enabled), field_lem v, set_flags_above v f enabled fits low)

pub set_address-lt : (v a : ℕ) → v < 2 ^ 64 → set_address v a < 2 ^ 64
set_address-lt v a fits = omega (arith, set_address_lem v a fits)
