-- ===== src/PMemory/Free.antt =====
-- What `free` does, and that it undoes `alloc`.
use turb_os.Base.{
  ℕ, ◌+◌, ◌*◌, ◌/◌, ◌≤◌, ◌<◌, ◌≡◌, ◌≢◌, refl, false, some, ◌⊎◌, inl, inr, ◌==◌, sym, ap, ◌∙◌, arith,
}
use Prim.Native.Nat.{min}
use native.Mathlib.Decide.{dec_lt}
use mathlib.Core.Path.{subst}
use turb_os.Base.Words.{u64_mod, add64, sub64, mul64}
use turb_os.Bitmap
use turb_os.PMemory.Defs.{State, page_size, free, free_locked, alloc}
use turb_os.PMemory.Range.{get-set_range, set_range-IsBytes}
use turb_os.PMemory.Scan.{AllFree, Taken}
use turb_os.PMemory.Alloc.{IsValid, Outcome, pages, alloc-Outcome, alloc_finds}

-- A pointer that `alloc` can have returned for `count` pages.
pub record IsRun (s : State) (ptr count : ℕ) : Type 0 where
  pub above_zero : page_size ≤ ptr
  pub within : ptr / page_size + count ≤ pages s

pub record Freed (s s' : State) (ptr count : ℕ) : Type 0 where
  pub valid : IsValid s'
  pub now_free : AllFree s'.bitmap (ptr / page_size) count
  pub elsewhere :
      (i : ℕ)
      → (i < ptr / page_size) ⊎ (ptr / page_size + count ≤ i)
      → Bitmap.get s'.bitmap i ≡ Bitmap.get s.bitmap i
  pub search_from : s'.last ≡ min s.last (ptr / page_size)
  pub used : s'.used_ram ≡ sub64 s.used_ram (mul64 count page_size)
  pub free' : s'.free_ram ≡ add64 s.free_ram (mul64 count page_size)
  pub unlocked : s'.locked ≡ s.locked
  pub memory : s'.high_page ≡ s.high_page
  pub effects : s'.effects ≡ s.effects

free_locked-Freed :
    (s : State) (ptr count : ℕ)
    → IsValid s
    → IsRun s ptr count
    → Freed s (free_locked s ptr count) ptr count
unfolding free_locked
free_locked-Freed s ptr count v run =
    let page = ptr / page_size in
    let pos : 0 < page = omega (arith, run.above_zero) in
    let read = λ (i : ℕ). get-set_range count s.bitmap page i false v.bytes in
    record {
      valid = record {
        bytes = set_range-IsBytes count s.bitmap page false v.bytes;
        in_memory = ground arith;
        page_zero = ground (arith, read 0);
      };
      now_free = λ i lo hi. ground (arith, read i);
      elsewhere = λ i out. ground (arith, read i);
      search_from = ground arith;
      used = refl;
      free' = refl;
      unlocked = refl;
      memory = refl;
      effects = refl;
    }

-- Freeing a run that `alloc` can have returned succeeds when the lock is free: the run's pages are free,
-- every other page is as before, the next search starts at the run or below it, and the counters move
-- back by `count` pages.
pub free-Freed :
    (s : State) (ptr count : ℕ)
    → IsValid s
    → s.locked ≡ false
    → IsRun s ptr count
    → (s' : State) × (free s ptr count ≡ some s') × Freed s s' ptr count
unfolding free
free-Freed s ptr count v e run =
    let nz : (ptr == 0) ≡ false = ground (arith, run.above_zero) in
    (free_locked s ptr count, rw (nz, e) refl, free_locked-Freed s ptr count v run)

-- What the two counters hold after `count` pages were charged and then given back.
sub64-add64 : (a b : ℕ) → a < u64_mod → sub64 (add64 a b) b ≡ a
sub64-add64 a b h = omega arith

add64-sub64 : (a b : ℕ) → a < u64_mod → add64 (sub64 a b) b ≡ a
add64-sub64 a b h = omega arith

abbrev pub SameRam : State → State → Type 0
SameRam s s' = (s'.used_ram ≡ s.used_ram) × (s'.free_ram ≡ s.free_ram)

-- `t` is what `free` leaves of `s'`, and agrees with `s` on the map and the counters.
Undone : State → State → ℕ → ℕ → Type 0
Undone s s' ret count =
    (t : State) × (free s' ret count ≡ some t)
    × ((i : ℕ) → Bitmap.get t.bitmap i ≡ Bitmap.get s.bitmap i)
    × SameRam s t

same_bits :
    (b mid after : Bitmap.Bitmap) (page count : ℕ)
    → Taken b mid page count
    → AllFree after page count
    → ((i : ℕ) → (i < page) ⊎ (page + count ≤ i) → Bitmap.get after i ≡ Bitmap.get mid i)
    → (i : ℕ) → Bitmap.get after i ≡ Bitmap.get b i
same_bits b mid after page count t free out i = elim (dec_lt i page) [
  | yes lo ↦ out i (inl lo) ∙ t.elsewhere i (inl lo)
  | no ge ↦ elim (dec_lt i (page + count)) [
    | yes hi ↦ free i (omega arith) hi ∙ sym (t.was_free i (omega arith) hi)
    | no hi ↦ out i (inr (omega arith)) ∙ t.elsewhere i (inr (omega arith))
  ]
]

free_run :
    (s s' : State) (count ret page : ℕ)
    → s.locked ≡ false
    → s.used_ram < u64_mod
    → s.free_ram < u64_mod
    → Outcome s count s' ret
    → ret ≡ page * page_size
    → ret ≢ 0
    → page + count ≤ pages s
    → Taken s.bitmap s'.bitmap page count
    → Undone s s' ret count
unfolding Undone
free_run s s' count ret page e used_fits free_fits o at nz le taken =
    let same : ret / page_size ≡ page = omega arith in
    let run : IsRun s' ret count = record {
      above_zero = omega arith;
      within = rw (same, o.memory) le;
    } in
    let taken' = subst (λ p. Taken s.bitmap s'.bitmap p count) (sym same) taken in
    let (t, eq, f) = free-Freed s' ret count o.valid (o.unlocked ∙ e) run in
    (
      t,
      eq,
      same_bits s.bitmap s'.bitmap t.bitmap (ret / page_size) count taken' f.now_free f.elsewhere,
      (
        f.used
            ∙ ap (λ (u : ℕ). sub64 u (mul64 count page_size)) o.used
            ∙ sub64-add64 s.used_ram (mul64 count page_size) used_fits,
        f.free'
            ∙ ap (λ (u : ℕ). add64 u (mul64 count page_size)) o.free
            ∙ add64-sub64 s.free_ram (mul64 count page_size) free_fits,
      ),
    )

-- `free` undoes an `alloc` that returned a pointer: every bit of the map and both counters are as they
-- were, and neither call blocks.
pub free-alloc :
    (s : State) (count : ℕ)
    → IsValid s
    → s.locked ≡ false
    → 0 < count
    → s.used_ram < u64_mod
    → s.free_ram < u64_mod
    → (s' : State) × (ret : ℕ) × (alloc s count ≡ some (s', ret))
      × (ret ≢ 0
          → (t : State) × (free s' ret count ≡ some t)
            × ((i : ℕ) → Bitmap.get t.bitmap i ≡ Bitmap.get s.bitmap i)
            × SameRam s t)
unfolding Undone
free-alloc s count v e pos used_fits free_fits =
    let (s', ret, eq, o) = alloc-Outcome s count v pos e in
    (s', ret, eq, λ nz. undo s' ret o nz o.result)
  where
    undo :
        (s' : State) (ret : ℕ)
        → Outcome s count s' ret
        → ret ≢ 0
        → ((ret ≡ 0) × (s'.bitmap ≡ s.bitmap))
          ⊎ ((page : ℕ) × (ret ≡ page * page_size)
              × (ret ≢ 0)
              × (page + count ≤ pages s)
              × Taken s.bitmap s'.bitmap page count)
        → Undone s s' ret count
    undo s' ret o nz (inl r) = absurd (nz r.0)
    undo s' ret o nz (inr (page, at, _, le, taken)) =
        free_run s s' count ret page e used_fits free_fits o at nz le taken

-- Pages that were given back are found again: after `free` of a run, `alloc` of as many pages returns
-- a pointer.
pub alloc-free :
    (s : State) (ptr count : ℕ) {s' s'' : State} {ret : ℕ}
    → IsValid s
    → s.locked ≡ false
    → 0 < count
    → IsRun s ptr count
    → free s ptr count ≡ some s'
    → alloc s' count ≡ some (s'', ret)
    → ret ≢ 0
alloc-free s ptr count {s'} v e pos run freed got =
    let (t, eq, f) = free-Freed s ptr count v e run in
    let same : t ≡ s' = cc in
    let f' : Freed s s' ptr count = subst (λ x. Freed s x ptr count) same f in
    alloc_finds s' count f'.valid pos (ptr / page_size) got f'.now_free
      (inl (omega (arith, f'.search_from), rw f'.memory run.within))
