-- ===== src/Bitmap/Laws.antt =====
-- What `Bitmap::get` reads after `Bitmap::set`.
use turb_os.Base.{
  ℕ, ◌/◌, ◌%◌, ◌^◌, ◌<◌, bit_and, bit_or, ◌≡◌, refl, Bool, true, false, ◌&&◌, ltb, ◌==◌, ==_iff,
  if◌then◌else◌, ltb→lt, Bool-cases, inl, inr, ◌∙◌, arith,
}
use turb_os.Base.Words.{complement8, passes, passes_each}
use turb_os.Bitmap.{Bitmap, bit_indexer, get, set}

abbrev pub IsBytes : Bitmap → Type 0
IsBytes b = (i : ℕ) → b i < 256

-- the byte that `set` leaves, and the test of `get` on a byte
abbrev put_bit : ℕ → ℕ → Bool → ℕ
put_bit x i v =
    let m = 0b10000000 / 2 ^ i in let c = bit_and x (complement8 m) in if v then bit_or c m else c

abbrev bool_eq : Bool → Bool → Bool
bool_eq true b = b
bool_eq false true = false
bool_eq false false = true

abbrev byte_row : Bool → ℕ → ℕ → ℕ → Bool
byte_row v x i j =
    ltb (put_bit x i v) 256
    && bool_eq (ltb 0 (bit_and (put_bit x i v) (0b10000000 / 2 ^ j)))
        (if i == j then v else ltb 0 (bit_and x (0b10000000 / 2 ^ j)))

table : (v : Bool) → passes (λ x. passes (λ i. passes (byte_row v x i) 8) 8) 256 ≡ true
unfolding passes
table true = refl
table false = refl

row : (v : Bool) (x i j : ℕ) → x < 256 → i < 8 → j < 8 → byte_row v x i j ≡ true
row v x i j hx hi hj =
    passes_each _ 8 j hj (passes_each _ 8 i hi (passes_each _ 256 x hx (table v)))

bool_eq_sound : (a b : Bool) → bool_eq a b ≡ true → a ≡ b
bool_eq_sound a b h = ground arith

and-split : (a b : Bool) → (a && b) ≡ true → (a ≡ true) × (b ≡ true)
and-split a b h = ground arith

set_lem :
    (b : Bitmap) (i : ℕ) (v : Bool) (k : ℕ)
    → set b i v k ≡ (if i / 8 == k then put_bit (b (i / 8)) (i % 8) v else b k)
unfolding set bit_indexer
set_lem b i v k = ground arith

put_bit-lt : (v : Bool) (x i : ℕ) → x < 256 → i < 8 → put_bit x i v < 256
put_bit-lt v x i hx hi = ltb→lt _ _ (and-split _ _ (row v x i 0 hx hi (omega arith))).0

read-put_bit :
    (v : Bool) (x i j : ℕ)
    → x < 256
    → i < 8
    → j < 8
    → ltb 0 (bit_and (put_bit x i v) (0b10000000 / 2 ^ j))
      ≡ (if i == j then v else ltb 0 (bit_and x (0b10000000 / 2 ^ j)))
read-put_bit v x i j hx hi hj = bool_eq_sound _ _ (and-split _ _ (row v x i j hx hi hj)).1

pub set-IsBytes : (b : Bitmap) (i : ℕ) (v : Bool) → IsBytes b → IsBytes (set b i v)
set-IsBytes b i v h j = rw (set_lem b i v j) (elim (Bool-cases (i / 8 == j)) [
  | inl e ↦ rw e (put_bit-lt v (b (i / 8)) (i % 8) (h (i / 8)) (omega arith))
  | inr e ↦ rw e (h j)
])

same_bit : (i j : ℕ) → i / 8 ≡ j / 8 → (i % 8 == j % 8) ≡ (i == j)
same_bit i j e = ground arith

other_byte : (i j : ℕ) → (i / 8 == j / 8) ≡ false → (i == j) ≡ false
other_byte i j e = ground arith

-- Reading bit `j` after writing bit `i` gives the value written if they are the same bit, and what
-- it read before if not: the bits of a byte do not disturb one another.
pub get-set :
    (b : Bitmap) (i j : ℕ) (v : Bool)
    → IsBytes b
    → get (set b i v) j ≡ (if i == j then v else get b j)
unfolding get bit_indexer
get-set b i j v h = rw (set_lem b i v (j / 8)) (elim (Bool-cases (i / 8 == j / 8)) [
  | inl e ↦
      let same = (==_iff (i / 8) (j / 8)).0 e in
      rw e (
        read-put_bit v (b (i / 8)) (i % 8) (j % 8) (h (i / 8)) (omega arith) (omega arith)
        ∙ rw (same_bit i j same, same) refl)
  | inr e ↦ rw (e, other_byte i j e) refl
])
