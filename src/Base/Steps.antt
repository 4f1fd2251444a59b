-- ===== src/Base/Steps.antt =====
-- The bitwise operations by their lowest digit, and cut in two at any digit.
use Prim.Native.Nat.{
  ℕ, zero, suc, ◌+◌, ◌*◌, ◌/◌, ◌%◌, ◌^◌, ◌≤◌, ◌<◌, min, max, bit_and, bit_or, digits, bitwise,
  bit_and-bitwise, bit_or-bitwise,
}
use mathlib.Core.Path.{◌≡◌, refl, sym, ap, ap₂, ◌∙◌}
use native.Mathlib.Decide.{ℕ_discrete}
use native.Mathlib.Nat.{
  pow-suc, one-le-pow, div-div-eq-div-mul, mul_comm, div-add-mod', div-one, mod-one,
}
use native.Mathlib.Omega.{arith}

-- A property of all numbers from 0 and from the half of each.
module _ (P : ℕ → Type 0) (at_zero : P 0) (at_half : (n : ℕ) → 0 < n → P (n / 2) → P n) where
  up_to : (k n : ℕ) → n ≤ k → P n
  up_to k zero h = at_zero
  up_to zero (suc n) h = absurd (omega arith)
  up_to (suc k) (suc n) h = at_half (suc n) (omega arith) (up_to k (suc n / 2) (omega arith))

  pub by_halves : (n : ℕ) → P n
  by_halves n = up_to n n (omega arith)

-- `digits` counts down from its first number. One more than it needs changes nothing, and so any more.
module _ (left : ℕ → ℕ) (join : ℕ → ℕ → ℕ) where
  digits_one_more : (n a b : ℕ) → a ≤ n → digits left join (suc n) a b ≡ digits left join n a b
  digits_one_more n zero b h =
      elim n as (λ k. digits left join (suc k) 0 b ≡ digits left join k 0 b) [
        | zero ↦ refl
        | suc k ↦ refl
      ]
  digits_one_more zero (suc a) b h = absurd (omega arith)
  digits_one_more (suc n) (suc a) b h =
      ap (λ (t : ℕ). t * 2 + join (suc a % 2) (b % 2))
        (digits_one_more n (suc a / 2) (b / 2) (omega arith))

  digits_any_more : (a b n k : ℕ) → a ≤ n → n ≤ k → digits left join k a b ≡ digits left join n a b
  digits_any_more a b n zero h g =
      let same : 0 ≡ n = omega arith in ap (λ (t : ℕ). digits left join t a b) same
  digits_any_more a b n (suc k) h g = elim (ℕ_discrete n (suc k)) [
    | yes same ↦ ap (λ (t : ℕ). digits left join t a b) (sym same)
    | no less ↦ digits_one_more k a b (omega arith) ∙ digits_any_more a b n k h (omega arith)
  ]

  lowest_digit :
      (a b : ℕ)
      → bitwise left join (suc a) b
        ≡ bitwise left join (suc a / 2) (b / 2) * 2 + join (suc a % 2) (b % 2)
  lowest_digit a b =
      ap (λ (t : ℕ). t * 2 + join (suc a % 2) (b % 2))
        (digits_any_more (suc a / 2) (b / 2) (suc a / 2) a (omega arith) (omega arith))

pub bit_or_step : (x y : ℕ) → bit_or x y ≡ bit_or (x / 2) (y / 2) * 2 + max (x % 2) (y % 2)
bit_or_step zero y = rw (bit_or-bitwise 0 y, bit_or-bitwise 0 (y / 2)) (omega arith)
bit_or_step (suc x) y =
    rw (bit_or-bitwise (suc x) y, bit_or-bitwise (suc x / 2) (y / 2))
      (lowest_digit (λ t. t) max x y)

pub bit_and_step : (x y : ℕ) → bit_and x y ≡ bit_and (x / 2) (y / 2) * 2 + min (x % 2) (y % 2)
bit_and_step zero y = rw (bit_and-bitwise 0 y, bit_and-bitwise 0 (y / 2)) (omega arith)
bit_and_step (suc x) y =
    rw (bit_and-bitwise (suc x) y, bit_and-bitwise (suc x / 2) (y / 2))
      (lowest_digit (λ _. 0) min x y)

pub bit_or-zero : (x : ℕ) → bit_or x 0 ≡ x
bit_or-zero =
    by_halves (λ x. bit_or x 0 ≡ x) refl (λ x pos half. omega (arith, bit_or_step x 0, half))

pub zero-bit_and : (x : ℕ) → bit_and 0 x ≡ 0
zero-bit_and x = bit_and-bitwise 0 x

pub zero-bit_or : (x : ℕ) → bit_or 0 x ≡ x
zero-bit_or x = bit_or-bitwise 0 x

pub bit_and-zero : (x : ℕ) → bit_and x 0 ≡ 0
bit_and-zero =
    by_halves (λ x. bit_and x 0 ≡ 0) refl (λ x pos half. omega (arith, bit_and_step x 0, half))

-- How the quotient and the remainder by 2p come from those by p of the half.
pub half_div : (a p : ℕ) → a / 2 / p ≡ a / (p * 2)
half_div a p = rw (div-div-eq-div-mul, mul_comm 2 p)

pub half_mod : (a p : ℕ) → 0 < p → (a % (p * 2) / 2 ≡ a / 2 % p) × (a % (p * 2) % 2 ≡ a % 2)
half_mod a p h = omega (
  arith,
  half_div a p,
  div-add-mod' a (p * 2),
  div-add-mod' (a / 2) p,
  ap (λ (t : ℕ). t * p) (half_div a p),
)

-- An operation that works digit by digit may be done on two parts of its arguments.
module _ (op f : ℕ → ℕ → ℕ) (step : (a b : ℕ) → op a b ≡ op (a / 2) (b / 2) * 2 + f (a % 2) (b % 2))
    (op-zero : op 0 0 ≡ 0) where
  step_mod :
      (a b p : ℕ)
      → 0 < p
      → op (a % (p * 2)) (b % (p * 2)) ≡ op (a / 2 % p) (b / 2 % p) * 2 + f (a % 2) (b % 2)
  step_mod a b p h =
      let ea = half_mod a p h in
      let eb = half_mod b p h in
      step (a % (p * 2)) (b % (p * 2))
      ∙ ap₂ ◌+◌ (ap (λ (t : ℕ). t * 2) (ap₂ op ea.0 eb.0)) (ap₂ f ea.1 eb.1)

  op_split : (k a b : ℕ) → op a b ≡ op (a / 2 ^ k) (b / 2 ^ k) * 2 ^ k + op (a % 2 ^ k) (b % 2 ^ k)
  op_split zero a b = rw (div-one a, div-one b, mod-one a, mod-one b) (omega (arith, op-zero))
  op_split (suc k) a b =
      rw (pow-suc 2 k, ← half_div a (2 ^ k), ← half_div b (2 ^ k))
        (omega (
          arith,
          step a b,
          op_split k (a / 2) (b / 2),
          step_mod a b (2 ^ k) (one-le-pow k 2 (omega arith)),
        ))

pub bit_and_split :
    (k a b : ℕ)
    → bit_and a b ≡ bit_and (a / 2 ^ k) (b / 2 ^ k) * 2 ^ k + bit_and (a % 2 ^ k) (b % 2 ^ k)
bit_and_split = op_split bit_and min bit_and_step (bit_and-zero 0)

pub bit_or_split :
    (k a b : ℕ)
    → bit_or a b ≡ bit_or (a / 2 ^ k) (b / 2 ^ k) * 2 ^ k + bit_or (a % 2 ^ k) (b % 2 ^ k)
bit_or_split = op_split bit_or max bit_or_step (bit_or-zero 0)
