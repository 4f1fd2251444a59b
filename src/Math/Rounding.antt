-- ===== src/Math/Rounding.antt =====
-- `DIV_ROUNDUP`, `ALIGN_UP`, `ALIGN_DOWN` and `ALIGN_UP_2`, on 64 bits.
use native.Mathlib.Nat.{
  div-add-mod', mod-lt, mod-eq_of_lt, mul-mod_left, pow-suc, pow-le-pow_right, one-le-pow,
}
use native.Mathlib.Decide.{ℕ_discrete}
use turb_os.Base.{
  ℕ, zero, suc, ◌+◌, ◌-◌, ◌*◌, ◌/◌, ◌%◌, ◌^◌, ◌≤◌, ◌<◌, ◌≡◌, refl, inl, inr, Bool-cases, ◌∙◌, Bool,
  true, false, not, ◌||◌, ◌==◌, if◌then◌else◌, arith,
}
use turb_os.Base.Words.{add64, mul64, u64_mod}
use turb_os.Math.PowerOfTwo.{power_of_2, to_power_of_2, power_of_2_iff, to_power_of_2_lem}

unfoldable pub div_roundup : ℕ → ℕ → ℕ
div_roundup a b = add64 a (b - 1) / b

unfoldable pub align_up : ℕ → ℕ → ℕ
unfolding div_roundup
align_up a b = mul64 (div_roundup a b) b

unfoldable pub align_down : ℕ → ℕ → ℕ
align_down a b = mul64 (a / b) b

-- `while (a % (align) || !POWER_OF_2(a)) { a++; a = TO_POWER_OF_2(a); }`
unfoldable pub align_up_2_loop : ℕ → ℕ → ℕ → ℕ
align_up_2_loop zero align a = a
align_up_2_loop (suc fuel) align a =
    let next = align_up_2_loop fuel align (to_power_of_2 (add64 a 1)) in
    if not (a % align == 0) || not (power_of_2 a) then next else a

-- Each round at least doubles the highest bit, so 64 rounds are enough.
unfoldable pub align_up_2 : ℕ → ℕ → ℕ
align_up_2 align var = align_up_2_loop 64 align var

-- `ALIGN_UP` gives the least multiple of the alignment that is not below its argument, as long as the
-- sum that it does fits 64 bits.
pub align_up_lem :
    (a b : ℕ)
    → 0 < b
    → a + b ≤ u64_mod
    → (align_up a b % b ≡ 0) × (a ≤ align_up a b) × (align_up a b < a + b)
unfolding align_up
align_up_lem a b pos fits =
    let q = (a + (b - 1)) / b in
    let sum = div-add-mod' (a + (b - 1)) b in
    let rest = mod-lt (a + (b - 1)) pos in
    let whole : align_up a b ≡ q * b =
      rw
        (
          mod-eq_of_lt {n = a + (b - 1)} {m = u64_mod} (omega arith),
          mod-eq_of_lt {n = q * b} {m = u64_mod} (omega arith),
        )
        refl in
    rw whole (mul-mod_left q b, omega arith, omega arith)

pub align_down_lem :
    (a b : ℕ)
    → 0 < b
    → a < u64_mod
    → (align_down a b % b ≡ 0) × (align_down a b ≤ a) × (a < align_down a b + b)
unfolding align_down
align_down_lem a b pos fits =
    let q = a / b in
    let sum = div-add-mod' a b in
    let rest = mod-lt a pos in
    let whole : align_down a b ≡ q * b = mod-eq_of_lt {n = q * b} {m = u64_mod} (omega arith) in
    rw whole (mul-mod_left q b, omega arith, omega arith)

two_pow_mod : (n : ℕ) → 12 ≤ n → 2 ^ n % 0x1000 ≡ 0
two_pow_mod zero h = absurd (omega arith)
two_pow_mod (suc n) h = elim (ℕ_discrete n 11) [
  | yes e ↦ rw e refl
  | no ne ↦ omega (arith, pow-suc 2 n, two_pow_mod n (omega arith))
]

aligned_stays : (fuel k : ℕ) → 12 ≤ k → align_up_2_loop fuel 0x1000 (2 ^ k) ≡ 2 ^ k
unfolding align_up_2_loop
aligned_stays zero k h = refl
aligned_stays (suc fuel) k h =
    rw
      (
        two_pow_mod k h,
        (power_of_2_iff k (2 ^ k) (omega arith) (omega (arith, pow-suc 2 k, one-le-pow k 2))).1
            refl,
      )
      refl

not_power : (k var : ℕ) → 2 ^ k < var → var < 2 ^ suc k → power_of_2 var ≡ false
not_power k var lo hi = elim (Bool-cases (power_of_2 var)) [
  | inl e ↦ absurd (omega (arith, (power_of_2_iff k var (omega arith) hi).0 e))
  | inr e ↦ e
]

or-true : (a : Bool) → (a || true) ≡ true
or-true a = ground arith

align_up_2_round :
    (fuel k var : ℕ)
    → k < 63
    → 2 ^ k < var
    → var < 2 ^ suc k
    → align_up_2_loop (suc fuel) 0x1000 var ≡ align_up_2_loop fuel 0x1000 (2 ^ suc k)
unfolding align_up_2_loop
align_up_2_round fuel k var hi lo below =
    let small = pow-le-pow_right {n = 2} (omega arith) {i = suc k} {j = 63} (omega arith) in
    let next : add64 var 1 ≡ var + 1 = omega (arith, small) in
    rw
      (
        not_power k var lo below,
        or-true (not (var % 0x1000 == 0)),
        next,
        to_power_of_2_lem k (var + 1) hi (omega arith) (omega arith),
      )
      refl

-- From a page on, `ALIGN_UP_2` with the page size gives the least power of two that is not below its
-- argument, as long as that fits 64 bits.
pub align_up_2_lem :
    (k var : ℕ)
    → 11 ≤ k
    → k < 63
    → 2 ^ k < var
    → var ≤ 2 ^ suc k
    → align_up_2 0x1000 var ≡ 2 ^ suc k
unfolding align_up_2
align_up_2_lem k var lo hi above below = elim (ℕ_discrete var (2 ^ suc k)) [
  | yes e ↦ rw e (aligned_stays 64 (suc k) (omega arith))
  | no ne ↦
      align_up_2_round 63 k var hi above (omega arith) ∙ aligned_stays 63 (suc k) (omega arith)
]
