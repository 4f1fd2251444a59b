-- ===== src/Heap/Required.antt =====
-- `required_size`: the block size for a request.
use native.Mathlib.Decide.{dec_lt}
use native.Mathlib.Nat.{pow-suc, pow-le-pow_right}
use turb_os.Base.{
  ℕ, zero, suc, ◌+◌, ◌-◌, ◌*◌, ◌^◌, ◌≤◌, ◌<◌, ◌≡◌, refl, true, ltb, ◌⊎◌, inl, inr, Bool-cases,
  ltb→lt, arith,
}
use turb_os.Base.Words.{u64_mod, add64, mul64}
use turb_os.Math.Rounding.{align_up, align_up_lem}
use turb_os.Heap.Defs.{double_up, required_size, sizeof_block}

-- The doubling stops at the first size that is large enough.
Doubled : ℕ → ℕ → ℕ → Type 0
Doubled j size r =
    (k : ℕ) × (j ≤ k) × (k < 60) × (r ≡ 2 ^ k * 16) × (size ≤ r) × ((k ≡ j) ⊎ (2 ^ k * 8 < size))

pow_below : (j : ℕ) → 2 ^ j < 2 ^ 59 → j < 59
pow_below j h = elim (dec_lt j 59) [
  | yes lt ↦ lt
  | no ge ↦
      absurd
        (omega (arith, h, pow-le-pow_right {n = 2} (omega arith) {i = 59} {j = j} (omega arith)))
]

least_of :
    (k j size : ℕ)
    → 2 ^ suc j ≡ 2 ^ j * 2
    → 2 ^ j * 16 < size
    → (k ≡ suc j) ⊎ (2 ^ k * 8 < size)
    → 2 ^ k * 8 < size
least_of k j size twice below (inl e) = rw e (omega arith)
least_of k j size twice below (inr h) = h

double_up-Doubled :
    (fuel j size : ℕ)
    → j + fuel ≡ 60
    → j < 60
    → size ≤ 2 ^ 59 * 16
    → Doubled j size (double_up fuel size (2 ^ j * 16))
unfolding double_up Doubled
double_up-Doubled zero j size e lt fits = absurd (omega arith)
double_up-Doubled (suc fuel) j size e lt fits = elim (Bool-cases (ltb (2 ^ j * 16) size)) [
  | inr stop ↦ rw (stop, double_up) (j, omega arith, lt, refl, ground arith, inl refl)
  | inl more ↦
      let below = ltb→lt (2 ^ j * 16) size more in
      let lt' = pow_below j (omega arith) in
      let room = pow-le-pow_right {n = 2} (omega arith) {i = suc j} {j = 59} (omega arith) in
      let next : mul64 (2 ^ j * 16) 2 ≡ 2 ^ suc j * 16 = omega (arith, pow-suc 2 j, room) in
      let (k, le, small, eq, enough, least) =
        double_up-Doubled fuel (suc j) size (omega arith) (omega arith) fits in
      rw (more, double_up, next)
        (k, omega arith, small, eq, enough, inr (least_of k j size (pow-suc 2 j) below least))
]

least_bound :
    (k whole size : ℕ)
    → whole < size + 16 + 16
    → (k ≡ 0) ⊎ (2 ^ k * 8 < whole)
    → 2 ^ k * 16 < 2 * (size + 2 * 16)
least_bound k whole size lt (inl e) = rw e (omega arith)
least_bound k whole size lt (inr h) = omega arith

-- For a request of at most 2 ^ 63 - 16 bytes: the block size is 16 doubled some times, it has room for
-- the header and the request, and half of it does not have room for the two together.
pub required_size_lem :
    (size : ℕ)
    → size ≤ 2 ^ 63 - 16
    → 0 < size
    → (k : ℕ) × (required_size size ≡ 2 ^ k * 16)
      × (size + sizeof_block ≤ required_size size)
      × (required_size size < 2 * (size + 2 * sizeof_block))
unfolding required_size Doubled
required_size_lem size fits pos =
    let sum : add64 size sizeof_block ≡ size + 16 = omega arith in
    let (whole, ge, lt) = align_up_lem (size + 16) 16 (omega arith) (omega arith) in
    let (k, _, _, eq, enough, least) =
      double_up-Doubled 60 0 (align_up (size + 16) 16) (omega arith) (omega arith) (omega arith) in
    rw sum (k, eq, omega arith, rw eq (least_bound k (align_up (size + 16) 16) size lt least))

-- What `actual_size` can be: 0 once it has wrapped.
Small : ℕ → Type 0
Small a = (a ≡ 0) ⊎ ((j : ℕ) × (j < 60) × (a ≡ 2 ^ j * 16))

Small-lt : (a : ℕ) → Small a → a ≤ 2 ^ 63
unfolding Small
Small-lt a (inl e) = rw e (omega arith)
Small-lt a (inr (j, lt, e)) =
    omega (arith, e, pow-le-pow_right {n = 2} (omega arith) {i = j} {j = 59} (omega arith))

Small-double : (a : ℕ) → Small a → Small (mul64 a 2)
unfolding Small
Small-double a (inl e) = inl (rw e refl)
Small-double a (inr (j, lt, e)) = elim (dec_lt j 59) [
  | yes below ↦ inr (
    suc j,
    omega arith,
    omega (
      arith,
      e,
      pow-suc 2 j,
      pow-le-pow_right {n = 2} (omega arith) {i = suc j} {j = 59} (omega arith),
    ),
  )
  | no at_top ↦ let top : j ≡ 59 = omega arith in inl (rw (e, top) refl)
]

double_up-lt : (fuel size a : ℕ) → 2 ^ 63 < size → Small a → double_up fuel size a < size
unfolding double_up
double_up-lt zero size a big s = omega (arith, Small-lt a s)
double_up-lt (suc fuel) size a big s =
    let below : ltb a size ≡ true = ground (arith, Small-lt a s) in
    rw (below, double_up) (double_up-lt fuel size (mul64 a 2) big (Small-double a s))

-- For a request above 2 ^ 63 - 16 bytes whose rounded size fits 64 bits, the loop of `required_size`
-- does not end: after any number of rounds `actual_size` is still below the size that it wants.
pub required_size_diverges :
    (size fuel : ℕ)
    → 2 ^ 63 < size + 16
    → size + 32 ≤ u64_mod
    → let wanted = align_up (add64 size sizeof_block) sizeof_block in
      double_up fuel wanted sizeof_block < wanted
unfolding Small
required_size_diverges size fuel big fits =
    let sum : add64 size sizeof_block ≡ size + 16 = omega arith in
    let (whole, ge, lt) = align_up_lem (size + 16) 16 (omega arith) (omega arith) in
    rw sum
      (double_up-lt fuel (align_up (size + 16) 16) 16 (omega arith) (inr (0, omega arith, refl)))
