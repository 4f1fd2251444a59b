-- ===== src/Math/PowerOfTwo.antt =====
-- `POWER_OF_2` and `TO_POWER_OF_2`.
use native.Mathlib.Decide.{ℕ_discrete}
use native.Mathlib.Nat.{pow-suc, one-le-pow, pow-le-pow_right}
use turb_os.Base.{
  ℕ, zero, suc, ◌+◌, ◌-◌, ◌*◌, ◌/◌, ◌%◌, ◌^◌, ◌≤◌, ◌<◌, ◌≡◌, ◌≢◌, refl, bit_and, Bool, true, ◌↔◌,
  ◌==◌, ◌⊎◌, inl, ap, ◌∙◌, arith,
}
use turb_os.Base.Words.{mul64}
use turb_os.Base.Steps.{bit_and_step}

-- `i & i - 1`: the lowest set bit is cleared.
abbrev pub clear_low : ℕ → ℕ
clear_low i = bit_and i (i - 1)

-- `POWER_OF_2(var)`, which is true of 0 as well
unfoldable pub power_of_2 : ℕ → Bool
power_of_2 var = clear_low var == 0

-- `while (i & i - 1) i = i & i - 1;`
unfoldable pub top_bit : ℕ → ℕ → ℕ
top_bit zero i = i
top_bit (suc fuel) i = elim (clear_low i) [ zero ↦ i | suc j ↦ top_bit fuel (suc j) ]

-- `TO_POWER_OF_2(var)` for a `var` that is not 0; the loop ends within `var` rounds.
unfoldable pub to_power_of_2 : ℕ → ℕ
to_power_of_2 var = mul64 (top_bit var (var - 1)) 2

bit_and_self : (n a : ℕ) → a ≤ n → bit_and a a ≡ a
bit_and_self n zero h = refl
bit_and_self zero (suc a) h = absurd (omega arith)
bit_and_self (suc n) (suc a) h =
    omega (arith, bit_and_step (suc a) (suc a), bit_and_self n (suc a / 2) (omega arith))

clear_low_odd : (i : ℕ) → i % 2 ≡ 1 → clear_low i ≡ i - 1
clear_low_odd i odd =
    let half : (i - 1) / 2 ≡ i / 2 = omega arith in
    omega (
      arith,
      bit_and_step i (i - 1),
      ap (bit_and (i / 2)) half ∙ bit_and_self (i / 2) (i / 2) (omega arith),
    )

clear_low_even : (i : ℕ) → i % 2 ≡ 0 → 0 < i → clear_low i ≡ clear_low (i / 2) * 2
clear_low_even i even pos =
    let half : (i - 1) / 2 ≡ i / 2 - 1 = omega arith in
    omega (arith, bit_and_step i (i - 1), ap (bit_and (i / 2)) half)

-- For a number with its highest set bit at `k`, clearing the lowest bit gives 0 if there is no other,
-- and else a smaller number with the same highest bit.
pub clear_low_lem :
    (k i : ℕ)
    → 2 ^ k ≤ i
    → i < 2 ^ suc k
    → ((i ≡ 2 ^ k) × (clear_low i ≡ 0)) ⊎ ((i ≢ 2 ^ k) × (2 ^ k ≤ clear_low i) × (clear_low i < i))
clear_low_lem zero i lo hi = let e : i ≡ 1 = omega arith in rw e (inl (refl, refl))
clear_low_lem (suc k) i lo hi = elim (ℕ_discrete (i % 2) 0) [
  | yes even ↦ ground (
    arith,
    pow-suc 2 k,
    pow-suc 2 (suc k),
    one-le-pow k 2,
    clear_low_even i even,
    clear_low_lem k (i / 2),
  )
  | no odd ↦ ground (arith, pow-suc 2 k, pow-suc 2 (suc k), one-le-pow k 2, clear_low_odd i)
]

-- `POWER_OF_2` holds of a positive number exactly if it is the power of two at its highest set bit.
pub power_of_2_iff : (k i : ℕ) → 2 ^ k ≤ i → i < 2 ^ suc k → (power_of_2 i ≡ true) ↔ (i ≡ 2 ^ k)
unfolding power_of_2
power_of_2_iff k i lo hi = ground (arith, clear_low_lem k i lo hi, one-le-pow k 2)

-- The loop keeps the highest set bit alone.
top_bit_lem : (fuel k i : ℕ) → i ≤ fuel + 2 ^ k → 2 ^ k ≤ i → i < 2 ^ suc k → top_bit fuel i ≡ 2 ^ k
unfolding top_bit
top_bit_lem zero k i enough lo hi = omega arith
top_bit_lem (suc fuel) k i enough lo hi =
    elim (clear_low i)
        as (λ c. clear_low i ≡ c → elim c [ zero ↦ i | suc j ↦ top_bit fuel (suc j) ] ≡ 2 ^ k) [
          | zero ↦ λ e. ground (arith, clear_low_lem k i lo hi, one-le-pow k 2)
          | suc j ↦ λ e.
              ground (arith, clear_low_lem k i lo hi, one-le-pow k 2, top_bit_lem fuel k (suc j))
        ]
      refl

-- From 2 on, and as far as the result fits 64 bits, `TO_POWER_OF_2` gives the least power of two that
-- is not below its argument.
pub to_power_of_2_lem :
    (k var : ℕ) → k < 63 → 2 ^ k < var → var ≤ 2 ^ suc k → to_power_of_2 var ≡ 2 ^ suc k
unfolding to_power_of_2
to_power_of_2_lem k var fits lo hi =
    let top = top_bit_lem var k (var - 1) (omega arith) (omega arith) (omega arith) in
    let small : 2 ^ k ≤ 2 ^ 62 =
      pow-le-pow_right {n = 2} (omega arith) {i = k} {j = 62} (omega arith) in
    rw top (omega (arith, pow-suc 2 k, small))
