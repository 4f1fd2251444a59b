-- ===== src/PMemory/Alloc.antt =====
-- What `alloc` returns, and what it does to the bitmap.
use turb_os.Base.{
  ℕ, ◌+◌, ◌-◌, ◌*◌, ◌/◌, ◌≤◌, ◌<◌, ◌≡◌, ◌≢◌, refl, true, false, none, some, ◌⊎◌, inl, inr, ◌==◌,
  ◌∷◌, sym, ap, ◌∙◌, arith,
}
use mathlib.Core.Bool.{false≢true}
use turb_os.Base.{Option-cases}
use turb_os.Base.Words.{add64, sub64, mul64}
use turb_os.Bitmap
use turb_os.Bitmap.Laws.{IsBytes}
use turb_os.PMemory.Defs.{
  State, Found, memset, page_size, scan, address_of, oh_my_alloc, retry, charge, alloc_locked,
  alloc,
}
use turb_os.PMemory.Scan.{AllFree, Taken, Scanned, scan_lem}

-- The bitmap holds bytes, `last` is within memory, and page 0 is never handed out.
pub record IsValid (s : State) : Type 0 where
  pub bytes : IsBytes s.bitmap
  pub in_memory : s.last ≤ s.high_page / page_size
  pub page_zero : Bitmap.get s.bitmap 0 ≡ true

abbrev pub pages : State → ℕ
pages s = s.high_page / page_size

abbrev first_scan : State → ℕ → Found
first_scan s count = scan (pages s - s.last) count 0 s.bitmap s.last

abbrev second_scan : State → ℕ → Found
second_scan s count = scan (s.last - 0) count 0 (first_scan s count).bits 0

-- the state after a scan that stands for the whole call
abbrev after : State → Found → State
after s f = record s { bitmap = f.bits; last = f.next }

alloc_locked-first :
    (s : State) (count page : ℕ)
    → (first_scan s count).page ≡ some page
    → page ≢ 0
    → alloc_locked s count ≡ charge count (after s (first_scan s count), page * page_size)
unfolding alloc_locked oh_my_alloc retry
alloc_locked-first s count page e pos =
    let nonzero : (page * page_size == 0) ≡ false = ground arith in
    ap (charge count) (rw (e, nonzero) refl)

alloc_locked-second :
    (s : State) (count : ℕ)
    → (first_scan s count).page ≡ none
    → alloc_locked s count
      ≡ charge count (after s (second_scan s count), address_of (second_scan s count).page)
unfolding alloc_locked oh_my_alloc retry
alloc_locked-second s count e = ap (charge count) (rw e refl)

-- What a caller of `alloc` is given: the counters move by `count` pages and the memory at the pointer
-- is cleared; and either the pointer is null and the bitmap is the old one, or the pointer is the
-- address of a run of pages of memory that was free and is now in use, all other bits being kept.
pub record Outcome (s : State) (count : ℕ) (s' : State) (ret : ℕ) : Type 0 where
  pub used : s'.used_ram ≡ add64 s.used_ram (mul64 count page_size)
  pub free : s'.free_ram ≡ sub64 s.free_ram (mul64 count page_size)
  pub cleared : s'.effects ≡ memset ret 0 (mul64 count page_size) ∷ s.effects
  pub unlocked : s'.locked ≡ s.locked
  pub memory : s'.high_page ≡ s.high_page
  pub valid : IsValid s'
  pub result :
      ((ret ≡ 0) × (s'.bitmap ≡ s.bitmap))
      ⊎ ((page : ℕ) × (ret ≡ page * page_size)
          × (ret ≢ 0)
          × (page + count ≤ pages s)
          × Taken s.bitmap s'.bitmap page count)

alloc_returns :
    (s : State) (count : ℕ) {s' : State} {ret : ℕ}
    → alloc s count ≡ some (s', ret)
    → (alloc_locked s count).1 ≡ ret
unfolding alloc
alloc_returns s count e = ground arith

module _ (s : State) (count : ℕ) (v : IsValid s) (pos : 0 < count) where
  first_scan-Scanned :
      (stop : ℕ)
      → stop ≡ s.last + (pages s - s.last)
      → Scanned s.bitmap s.last stop count (first_scan s count)
  first_scan-Scanned stop e =
      scan_lem s.bitmap count s.last (pages s - s.last) stop v.bytes pos (sym e)

  -- The page of a run is not page 0, which is in use.
  page-ne-zero : {after' : Bitmap.Bitmap} (page : ℕ) → Taken s.bitmap after' page count → page ≢ 0
  page-ne-zero page t z = false≢true (sym (t.was_free 0 (omega arith) (omega arith)) ∙ v.page_zero)

  Outcome-found :
      (f : Found) (start stop page : ℕ)
      → Scanned s.bitmap start stop count f
      → stop ≤ pages s
      → f.page ≡ some page
      → let r = charge count (after s f, page * page_size) in Outcome s count r.0 r.1
  unfolding charge
  Outcome-found f start stop page sc le e =
      let got = sc.found page e in
      let taken = got.3 in
      let nonzero = page-ne-zero page taken in
      record {
        used = refl;
        free = refl;
        cleared = refl;
        unlocked = refl;
        memory = refl;
        valid = record {
          bytes = sc.bytes;
          in_memory = omega (arith, got.2);
          page_zero = taken.elsewhere 0 (inl (omega arith)) ∙ v.page_zero;
        };
        result = inr (page, refl, omega arith, omega (arith, got), taken);
      }

  Outcome-failed :
      (f : Found) (start stop : ℕ)
      → Scanned s.bitmap start stop count f
      → stop ≤ pages s
      → f.page ≡ none
      → let r = charge count (after s f, 0) in Outcome s count r.0 r.1
  unfolding charge
  Outcome-failed f start stop sc le e =
      let kept = sc.failed e in
      record {
        used = refl;
        free = refl;
        cleared = refl;
        unlocked = refl;
        memory = refl;
        valid = record {
          bytes = sc.bytes;
          in_memory = omega (arith, kept.0);
          page_zero = rw (kept.1) (v.page_zero);
        };
        result = inl (refl, kept.1);
      }

  first_stop : s.last + (pages s - s.last) ≡ pages s
  first_stop = omega (arith, v.in_memory)

  second_scan-Scanned :
      (first_scan s count).page ≡ none → Scanned s.bitmap 0 s.last count (second_scan s count)
  second_scan-Scanned e =
      let kept : (first_scan s count).bits ≡ s.bitmap =
        ((first_scan-Scanned (pages s) (sym first_stop)).failed e).1 in
      rw kept (scan_lem s.bitmap count 0 (s.last - 0) s.last v.bytes pos (omega arith))

  alloc_locked-Outcome : let r = alloc_locked s count in Outcome s count r.0 r.1
  alloc_locked-Outcome = elim (Option-cases (first_scan s count).page) [
    | inr (page, e) ↦
        let sc = first_scan-Scanned (pages s) (sym first_stop) in
        rw (alloc_locked-first s count page e (page-ne-zero page (sc.found page e).3))
          (Outcome-found (first_scan s count) s.last (pages s) page sc (omega arith) e)
    | inl e ↦ rw (alloc_locked-second s count e) (elim (Option-cases (second_scan s count).page) [
      | inr (page, e') ↦
          rw e' (
            Outcome-found (second_scan s count) 0 s.last page (second_scan-Scanned e) v.in_memory
              e')
      | inl e' ↦
          rw e'
            (Outcome-failed (second_scan s count) 0 s.last (second_scan-Scanned e) v.in_memory e')
    ])
  ]

  -- With the lock free, `alloc` returns, and its result is as `Outcome` says.
  pub alloc-Outcome :
      s.locked ≡ false
      → (s' : State) × (ret : ℕ) × (alloc s count ≡ some (s', ret)) × Outcome s count s' ret
  unfolding alloc
  alloc-Outcome e =
      ((alloc_locked s count).0, (alloc_locked s count).1, rw e refl, alloc_locked-Outcome)

  nonzero_of_page :
      (page : ℕ)
      → (first_scan s count).page ≡ some page
      → Taken s.bitmap (first_scan s count).bits page count
      → (alloc_locked s count).1 ≢ 0
  unfolding charge
  nonzero_of_page page e taken =
      let nz = page-ne-zero page taken in
      rw (alloc_locked-first s count page e nz) (omega (arith, nz))

  alloc_locked_finds :
      (q : ℕ)
      → AllFree s.bitmap q count
      → ((s.last ≤ q) × (q + count ≤ pages s)) ⊎ (q + count ≤ s.last)
      → (alloc_locked s count).1 ≢ 0
  unfolding charge
  alloc_locked_finds q all (inl (lo, hi)) =
      let sc = first_scan-Scanned (pages s) (sym first_stop) in
      let hit = sc.first q all lo hi in nonzero_of_page hit.0 hit.1 (sc.found hit.0 hit.1).3
  alloc_locked_finds q all (inr below) = elim (Option-cases (first_scan s count).page) [
    | inr (page, e) ↦
        nonzero_of_page page e ((first_scan-Scanned (pages s) (sym first_stop)).found page e).3
    | inl e ↦
        let sc = second_scan-Scanned e in
        let hit = sc.first q all (omega arith) below in
        let nz = page-ne-zero hit.0 (sc.found hit.0 hit.1).3 in
        rw (alloc_locked-second s count e, hit.1) (omega (arith, nz))
  ]

  -- If `count` free pages stand in a row behind `last`, or in a row before it, then the pointer that
  -- `alloc` returns is not null.
  pub alloc_finds :
      (q : ℕ) {s' : State} {ret : ℕ}
      → alloc s count ≡ some (s', ret)
      → AllFree s.bitmap q count
      → ((s.last ≤ q) × (q + count ≤ pages s)) ⊎ (q + count ≤ s.last)
      → ret ≢ 0
  alloc_finds q e all where_ z = alloc_locked_finds q all where_ (alloc_returns s count e ∙ z)
