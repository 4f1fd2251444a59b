-- ===== src/Base/Words.antt =====
-- Unsigned arithmetic of 8 and 64 bits, which wraps, and finite checks over a small range.
use turb_os.Base.{
  ℕ, zero, suc, ◌+◌, ◌-◌, ◌*◌, ◌%◌, ◌^◌, ◌<◌, ◌≡◌, Bool, true, false, if◌then◌else◌, arith,
}

abbrev pub u64_mod : ℕ
u64_mod = 2 ^ 64

abbrev pub add64 : ℕ → ℕ → ℕ
add64 a b = (a + b) % u64_mod

-- `a` is below 2 ^ 64; `-` stops at 0, so the modulus is added first.
abbrev pub sub64 : ℕ → ℕ → ℕ
sub64 a b = (a + u64_mod - b % u64_mod) % u64_mod

abbrev pub mul64 : ℕ → ℕ → ℕ
mul64 a b = a * b % u64_mod

-- `~x` cut to a byte, and to 64 bits
abbrev pub complement8 : ℕ → ℕ
complement8 x = 2 ^ 8 - 1 - x

abbrev pub complement64 : ℕ → ℕ
complement64 x = 2 ^ 64 - 1 - x

-- Whether a test passes for `limit - 1`, `limit - 2` and so on to 0.
unfoldable pub passes : (ℕ → Bool) → ℕ → Bool
passes test zero = true
passes test (suc last) = let rest = passes test last in if test last then rest else false

pub passes_each :
    (test : ℕ → Bool) (limit i : ℕ) → i < limit → passes test limit ≡ true → test i ≡ true
unfolding passes
passes_each test zero i below all = absurd (omega arith)
passes_each test (suc last) i below all = ground (arith, passes_each test last i)
