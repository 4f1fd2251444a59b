-- ===== src/PMemory/Realloc.antt =====
-- What `realloc` does: it moves to new pages, and gives back only the first of the old ones.
use native.Mathlib.Decide.{dec_lt}
use turb_os.Base.{
  ℕ, ◌+◌, ◌*◌, ◌/◌, ◌≤◌, ◌<◌, ◌≡◌, ◌≢◌, refl, true, false, some, ◌⊎◌, inl, inr, ◌==◌, if◌then◌else◌,
  ltb, ◌∷◌, ap, ◌∙◌, arith,
}
use turb_os.Base.Words.{add64, sub64, mul64}
use turb_os.Bitmap
use turb_os.PMemory.Defs.{State, memset, memcpy, page_size, realloc, realloc_account, realloc_move}
use turb_os.PMemory.Scan.{Taken}
use turb_os.PMemory.Alloc.{IsValid, Outcome, pages, alloc-Outcome}
use turb_os.PMemory.Free.{IsRun, free-Freed}

abbrev pub bytes : ℕ → ℕ
bytes count = mul64 count page_size

-- `alloc` never frees a page.
alloc_keeps :
    (before after : Bitmap.Bitmap) (page count i : ℕ)
    → Taken before after page count
    → Bitmap.get before i ≡ true
    → Bitmap.get after i ≡ true
alloc_keeps before after page count i t e = elim (dec_lt i page) [
  | yes lo ↦ t.elsewhere i (inl lo) ∙ e
  | no ge ↦ elim (dec_lt i (page + count)) [
    | yes hi ↦ t.now_used i (omega arith) hi
    | no hi ↦ t.elsewhere i (inr (omega arith)) ∙ e
  ]
]

Outcome-keeps :
    (s s' : State) (count ret i : ℕ)
    → Outcome s count s' ret
    → Bitmap.get s.bitmap i ≡ true
    → Bitmap.get s'.bitmap i ≡ true
Outcome-keeps s s' count ret i o e = go o.result
  where
    go :
        ((ret ≡ 0) × (s'.bitmap ≡ s.bitmap))
          ⊎ ((page : ℕ) × (ret ≡ page * page_size)
              × (ret ≢ 0)
              × (page + count ≤ pages s)
              × Taken s.bitmap s'.bitmap page count)
        → Bitmap.get s'.bitmap i ≡ true
    go (inl (z, same)) = rw same e
    go (inr (page, _, _, _, taken)) = alloc_keeps s.bitmap s'.bitmap page count i taken e

pub record Moved (s t : State) (ptr old_size new_size frag : ℕ) : Type 0 where
  pub valid : IsValid t
  pub kept :
      (i : ℕ) → i ≢ ptr / page_size → Bitmap.get s.bitmap i ≡ true → Bitmap.get t.bitmap i ≡ true
  pub released : Bitmap.get t.bitmap (ptr / page_size) ≡ false
  pub copied :
      t.effects
      ≡ memcpy frag ptr (if ltb new_size old_size then new_size else old_size)
        ∷ memset frag 0 (bytes new_size)
        ∷ s.effects
  pub used :
      t.used_ram
      ≡ sub64
          (add64 (add64 (sub64 s.used_ram (bytes old_size)) (bytes new_size)) (bytes new_size))
          (bytes 1)

-- Moving a block to another number of pages, with a pointer and a new size that are not 0 and the lock
-- free: `realloc` returns; every page that was in use stays in use but the first of the old block, so
-- the others are never given back; the number of bytes copied is the smaller number of pages; and
-- `usedRam` has the old size taken off, the new size added twice, and one page more taken off.
pub realloc-Moved :
    (s : State) (ptr old_size new_size : ℕ)
    → IsValid s
    → s.locked ≡ false
    → IsRun s ptr 1
    → 0 < new_size
    → (t : State) × (frag : ℕ) × (realloc s ptr old_size new_size ≡ some (t, frag))
      × Moved s t ptr old_size new_size frag
unfolding realloc realloc_move realloc_account
realloc-Moved s ptr old_size new_size v e run pos =
    let s0 = realloc_account s old_size new_size in
    let v0 : IsValid s0 = record {
      bytes = v.bytes;
      in_memory = v.in_memory;
      page_zero = v.page_zero;
    } in
    let size : ℕ = if ltb new_size old_size then new_size else old_size in
    let (s1, frag, eq, o) = alloc-Outcome s0 new_size v0 pos e in
    let s2 : State = record s1 { effects = memcpy frag ptr size ∷ s1.effects } in
    let v2 : IsValid s2 = record {
      bytes = o.valid.bytes;
      in_memory = o.valid.in_memory;
      page_zero = o.valid.page_zero;
    } in
    let run2 : IsRun s2 ptr 1 = record {
      above_zero = run.above_zero;
      within = rw o.memory (run.within);
    } in
    let (t, eq', f) = free-Freed s2 ptr 1 v2 (o.unlocked ∙ e) run2 in
    let ptr_set : (ptr == 0) ≡ false = ground (arith, run.above_zero) in
    let size_set : (new_size == 0) ≡ false = ground arith in
    (
      t,
      frag,
      rw (ptr_set, size_set, eq, realloc_move, eq') refl,
      record {
        valid = f.valid;
        kept = λ i ne u. f.elsewhere i (omega arith) ∙ Outcome-keeps s0 s1 new_size frag i o u;
        released = f.now_free (ptr / page_size) (omega arith) (omega arith);
        copied = f.effects ∙ ap (λ x. memcpy frag ptr size ∷ x) o.cleared;
        used = f.used ∙ ap (λ (u : ℕ). sub64 u (bytes 1)) o.used;
      },
    )
