-- ===== src/PMemory/Range.antt =====
-- What a run of writes to the bitmap leaves.
use turb_os.Base.{ℕ, zero, suc, ◌+◌, ◌≤◌, ◌<◌, ◌≡◌, Bool, ◌&&◌, leb, ltb, if◌then◌else◌, arith}
use turb_os.Bitmap
use turb_os.Bitmap.{Bitmap}
use turb_os.Bitmap.Laws.{IsBytes, get-set, set-IsBytes}
use turb_os.PMemory.Defs.{set_range}

abbrev pub InRange : ℕ → ℕ → ℕ → Type 0
InRange i n j = (i ≤ j) × (j < i + n)

pub set_range-IsBytes :
    (n : ℕ) (b : Bitmap) (i : ℕ) (v : Bool) → IsBytes b → IsBytes (set_range b i n v)
unfolding set_range
set_range-IsBytes zero b i v h = h
set_range-IsBytes (suc n) b i v h =
    set_range-IsBytes n (Bitmap.set b i v) (i + 1) v (set-IsBytes b i v h)

pub get-set_range :
    (n : ℕ) (b : Bitmap) (i j : ℕ) (v : Bool)
    → IsBytes b
    → Bitmap.get (set_range b i n v) j ≡ (if leb i j && ltb j (i + n) then v else Bitmap.get b j)
unfolding set_range
get-set_range zero b i j v h = ground arith
get-set_range (suc n) b i j v h =
    ground (
      arith,
      get-set b i j v h,
      get-set_range n (Bitmap.set b i v) (i + 1) j v (set-IsBytes b i v h),
    )
