-- ===== src/Math/Random.antt =====
-- `rand` and `srand` of src/lib/math.cpp: the state is the static variable `next`.
use native.Mathlib.Nat.{mod-eq_of_lt}
use turb_os.Base.{ℕ, zero, suc, ◌+◌, ◌-◌, ◌*◌, ◌/◌, ◌%◌, ◌<◌, ◌≡◌, refl, arith}
use turb_os.Base.Words.{add64, mul64, u64_mod}

-- the new state, and the number
unfoldable pub rand : ℕ → ℕ × ℕ
rand next = let next' = add64 (mul64 next 1103515245) 12345 in (next', next' / 65536 % 32768)

unfoldable pub srand : ℕ → ℕ
srand seed = seed % u64_mod

-- `n` calls of `rand`
abbrev pub rand_times : ℕ → ℕ → ℕ
rand_times zero next = next
rand_times (suc n) next = (rand (rand_times n next)).0

-- One step back: the multiplier is odd, and 17850689345304521573 times 1103515245 is 1 modulo 2 ^ 64.
abbrev pub rand_back : ℕ → ℕ
rand_back next = (next + u64_mod - 12345) * 17850689345304521573 % u64_mod

abbrev pub back_times : ℕ → ℕ → ℕ
back_times zero next = next
back_times (suc n) next = back_times n (rand_back next)

rand_back-rand : (next : ℕ) → next < u64_mod → rand_back (rand next).0 ≡ next
unfolding rand
rand_back-rand next h = omega arith

rand_times-lt : (n seed : ℕ) → seed < u64_mod → rand_times n seed < u64_mod
rand_times-lt zero seed h = h
rand_times-lt (suc n) seed h = unfold rand in omega arith

-- The generator loses nothing: from the state after `srand` and any number of calls of `rand`, as many
-- steps back give the seed, so two seeds never run into the same state after the same number of calls.
pub back_times-rand :
    (n seed : ℕ) → seed < u64_mod → back_times n (rand_times n (srand seed)) ≡ seed
unfolding srand
back_times-rand n seed h = rw (mod-eq_of_lt h) (go n)
  where
    go : (k : ℕ) → back_times k (rand_times k seed) ≡ seed
    go zero = refl
    go (suc k) = rw (rand_back-rand (rand_times k seed) (rand_times-lt k seed h)) (go k)
