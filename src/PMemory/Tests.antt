-- ===== src/PMemory/Tests.antt =====
-- A small memory of 32 pages in which pages 9 to 14 are free.
use mathlib.Core.Path.{subst}
use turb_os.Base.{
  ℕ, ◌+◌, ◌-◌, ◌*◌, not, ◌≡◌, ◌≢◌, refl, true, false, some, inl, ◌==◌, if◌then◌else◌, [], Bool,
  arith,
}
use turb_os.Base.Words.{passes, passes_each}
use turb_os.Bitmap
use turb_os.Bitmap.Laws.{IsBytes}
use turb_os.PMemory.Defs.{
  State, page_size, scan, oh_my_alloc, retry, charge, alloc_locked, alloc, set_range, free_locked,
  free, realloc,
}
use turb_os.PMemory.Scan.{AllFree}
use turb_os.PMemory.Alloc.{IsValid, Outcome, alloc-Outcome, alloc_finds}
use turb_os.PMemory.Free.{IsRun, SameRam, free-alloc, alloc-free}
use turb_os.PMemory.Realloc.{Moved, realloc-Moved}

abbrev some_free : Bitmap.Bitmap
some_free i = if i == 1 then 0b10000001 else 255

abbrev sample : State
sample = record {
  bitmap = some_free;
  is_init = true;
  high_page = 0x20000;
  last = 0;
  used_ram = 0;
  free_ram = 0x6000;
  locked = false;
  effects = [];
}

some_free-IsBytes : IsBytes some_free
some_free-IsBytes i = ground arith

sample-IsValid : IsValid sample
unfolding Bitmap.get
sample-IsValid = record { bytes = some_free-IsBytes; in_memory = omega arith; page_zero = refl }

alloc_first_run : (alloc_locked sample 3).1 ≡ 9 * page_size
unfolding alloc_locked charge retry oh_my_alloc scan set_range Bitmap.get Bitmap.set
alloc_first_run = refl

alloc-Outcome_example :
    (s' : State) × (ret : ℕ) × (alloc sample 3 ≡ some (s', ret)) × Outcome sample 3 s' ret
alloc-Outcome_example = alloc-Outcome sample 3 sample-IsValid (omega arith) refl

-- Whether a range is free, by evaluation.
abbrev range_free : Bitmap.Bitmap → ℕ → ℕ → Bool
range_free b q n = passes (λ k. not (Bitmap.get b (q + k))) n

range_free-AllFree : (b : Bitmap.Bitmap) (q n : ℕ) → range_free b q n ≡ true → AllFree b q n
range_free-AllFree b q n h i lo hi =
    let k : q + (i - q) ≡ i = omega arith in
    let at = passes_each (λ k. not (Bitmap.get b (q + k))) n (i - q) (omega arith) h in
    not-true (Bitmap.get b i) (subst (λ j. not (Bitmap.get b j) ≡ true) k at)
  where
    not-true : (x : Bool) → not x ≡ true → x ≡ false
    not-true x e = ground arith

run_free : AllFree some_free 9 3
unfolding Bitmap.get passes
run_free = range_free-AllFree some_free 9 3 refl

alloc_finds_example : (alloc_locked sample 3).1 ≢ 0
unfolding alloc
alloc_finds_example =
    alloc_finds sample 3 sample-IsValid (omega arith) 9 refl run_free
      (inl (omega arith, omega arith))

two_pages-IsRun : IsRun sample (20 * page_size) 2
two_pages-IsRun = record { above_zero = omega arith; within = omega arith }

free-alloc_example :
    (s' : State) × (ret : ℕ) × (alloc sample 3 ≡ some (s', ret))
    × (ret ≢ 0
        → (t : State) × (free s' ret 3 ≡ some t)
          × ((i : ℕ) → Bitmap.get t.bitmap i ≡ Bitmap.get some_free i)
          × SameRam sample t)
free-alloc_example =
    free-alloc sample 3 sample-IsValid refl (omega arith) (omega arith) (omega arith)

alloc-free_example : (alloc_locked (free_locked sample (20 * page_size) 2) 2).1 ≢ 0
unfolding alloc free free_locked
alloc-free_example =
    alloc-free sample (20 * page_size) 2 sample-IsValid refl (omega arith) two_pages-IsRun refl refl

one_page-IsRun : IsRun sample (20 * page_size) 1
one_page-IsRun = record { above_zero = omega arith; within = omega arith }

realloc-Moved_example :
    (t : State) × (frag : ℕ) × (realloc sample (20 * page_size) 2 3 ≡ some (t, frag))
    × Moved sample t (20 * page_size) 2 3 frag
realloc-Moved_example =
    realloc-Moved sample (20 * page_size) 2 3 sample-IsValid refl one_page-IsRun (omega arith)
