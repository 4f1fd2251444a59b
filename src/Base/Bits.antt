-- ===== src/Base/Bits.antt =====
-- Masks, complements and single bits as arithmetic, at every width.
use mathlib.Core.Path.{ap, ap₂, sym, ◌∙◌}
use Prim.Native.Nat.{min, max}
use native.Mathlib.Nat.{pow-suc, one-le-pow, mod-one}
use turb_os.Base.{ℕ, zero, suc, ◌-◌, ◌*◌, ◌/◌, ◌%◌, ◌^◌, ◌<◌, bit_and, bit_or, ◌≡◌, arith}
use turb_os.Base.Steps.{
  bit_and_step, bit_or_step, bit_and-zero, zero-bit_and, zero-bit_or, half_div, half_mod,
}

-- bit k of a word
abbrev pub bit_at : ℕ → ℕ → ℕ
bit_at a k = a / 2 ^ k % 2

bit_at-suc : (a k : ℕ) → bit_at a (suc k) ≡ bit_at (a / 2) k
bit_at-suc a k = ap (λ (t : ℕ). t % 2) (rw (pow-suc 2 k, half_div a (2 ^ k)))

-- A mask of `k` low bits is the remainder by `2 ^ k`.
pub bit_and_mask : (k a : ℕ) → bit_and a (2 ^ k - 1) ≡ a % 2 ^ k
bit_and_mask zero a = rw (mod-one a) (bit_and-zero a)
bit_and_mask (suc k) a =
    let pos = one-le-pow k 2 (omega arith) in
    let e : (2 ^ k * 2 - 1) / 2 ≡ 2 ^ k - 1 = omega (arith, pos) in
    rw (pow-suc 2 k) (
      omega (
        arith,
        bit_and_step a (2 ^ k * 2 - 1),
        ap (bit_and (a / 2)) e ∙ bit_and_mask k (a / 2),
        half_mod a (2 ^ k) pos,
        pos,
      ))

pub bit_at-and : (k a b : ℕ) → bit_at (bit_and a b) k ≡ min (bit_at a k) (bit_at b k)
bit_at-and zero a b = omega (arith, bit_and_step a b)
bit_at-and (suc k) a b =
    bit_at-suc (bit_and a b) k
    ∙ ap (λ (t : ℕ). bit_at t k) (omega (arith, bit_and_step a b))
    ∙ bit_at-and k (a / 2) (b / 2)
    ∙ sym (ap₂ min (bit_at-suc a k) (bit_at-suc b k))

pub bit_at-or : (k a b : ℕ) → bit_at (bit_or a b) k ≡ max (bit_at a k) (bit_at b k)
bit_at-or zero a b = omega (arith, bit_or_step a b)
bit_at-or (suc k) a b =
    bit_at-suc (bit_or a b) k
    ∙ ap (λ (t : ℕ). bit_at t k) (omega (arith, bit_or_step a b))
    ∙ bit_at-or k (a / 2) (b / 2)
    ∙ sym (ap₂ max (bit_at-suc a k) (bit_at-suc b k))

-- bit k of the complement in `w` bits
pub bit_at_complement : (w k a : ℕ) → k < w → a < 2 ^ w → bit_at (2 ^ w - 1 - a) k ≡ 1 - bit_at a k
bit_at_complement zero k a h l = absurd (omega arith)
bit_at_complement (suc w) zero a h l = omega (arith, pow-suc 2 w, one-le-pow w 2 (omega arith))
bit_at_complement (suc w) (suc k) a h l =
    bit_at-suc (2 ^ suc w - 1 - a) k
    ∙ ap (λ (t : ℕ). bit_at t k) (omega (arith, pow-suc 2 w, one-le-pow w 2 (omega arith)))
    ∙ bit_at_complement w k (a / 2) (omega arith) (omega (arith, pow-suc 2 w))
    ∙ sym (ap (λ (t : ℕ). 1 - t) (bit_at-suc a k))

-- The conjunction of a number below 2 ^ k with another is below 2 ^ k.
pub bit_and_lt : (k a b : ℕ) → a < 2 ^ k → bit_and a b < 2 ^ k
bit_and_lt zero a b h = let e : a ≡ 0 = omega arith in rw (e, zero-bit_and b) (omega arith)
bit_and_lt (suc k) a b h = omega (
  arith,
  bit_and_step a b,
  bit_and_lt k (a / 2) (b / 2) (omega (arith, pow-suc 2 k)),
  pow-suc 2 k,
)

pub bit_or_lt : (k a b : ℕ) → a < 2 ^ k → b < 2 ^ k → bit_or a b < 2 ^ k
bit_or_lt zero a b h g =
    let e : a ≡ 0 = omega arith in
    let e' : b ≡ 0 = omega arith in rw (e, zero-bit_or b, e') (omega arith)
bit_or_lt (suc k) a b h g = omega (
  arith,
  bit_or_step a b,
  bit_or_lt k (a / 2) (b / 2) (omega (arith, pow-suc 2 k)) (omega (arith, pow-suc 2 k)),
  pow-suc 2 k,
)
