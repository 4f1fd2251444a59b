-- ===== src/PMemory/Scan.antt =====
-- `ohMyAlloc` finds the first run of free pages, if there is one.
use turb_os.Base.{
  ℕ, zero, suc, ◌+◌, ◌-◌, ◌≤◌, ◌<◌, ◌≡◌, refl, true, false, ◌==◌, ==_iff, none, some, ◌⊎◌, inl, inr,
  Bool-cases, sym, ◌∙◌, arith,
}
use mathlib.Core.Bool.{false≢true}
use native.Mathlib.Decide.{dec_lt, ℕ_discrete}
use turb_os.Bitmap
use turb_os.Bitmap.{Bitmap}
use turb_os.Bitmap.Laws.{IsBytes}
use turb_os.PMemory.Defs.{set_range, scan, Found}
use turb_os.PMemory.Range.{get-set_range, set_range-IsBytes}

-- pages [q, q + n) are free
abbrev pub AllFree : Bitmap → ℕ → ℕ → Type 0
AllFree b q n = (i : ℕ) → q ≤ i → i < q + n → Bitmap.get b i ≡ false

-- What a scan that found `page` has done.
pub record Taken (before after : Bitmap) (page count : ℕ) : Type 0 where
  pub was_free : AllFree before page count
  pub now_used : (i : ℕ) → page ≤ i → i < page + count → Bitmap.get after i ≡ true
  pub elsewhere :
      (i : ℕ) → (i < page) ⊎ (page + count ≤ i) → Bitmap.get after i ≡ Bitmap.get before i

-- The outcome of a scan from `start` to `stop`: the first free run, or none and no change.
pub record Scanned (b : Bitmap) (start stop count : ℕ) (f : Found) : Type 0 where
  pub bytes : IsBytes f.bits
  pub found :
      (page : ℕ)
      → f.page ≡ some page
      → (start ≤ page) × (f.next ≡ page + count) × (f.next ≤ stop) × Taken b f.bits page count
  pub failed : f.page ≡ none → (f.next ≡ stop) × (f.bits ≡ b)
  pub first :
      (q : ℕ)
      → AllFree b q count
      → start ≤ q
      → q + count ≤ stop
      → (page : ℕ) × (f.page ≡ some page) × (page ≤ q)

Taken-set_range :
    (b : Bitmap) (page count : ℕ)
    → IsBytes b
    → AllFree b page count
    → Taken b (set_range b page count true) page count
Taken-set_range b page count h free = record {
  was_free = free;
  now_used = λ i lo hi. ground (arith, get-set_range count b page i true h);
  elsewhere = λ i out. ground (arith, get-set_range count b page i true h);
}

AllFree-suc :
    (b : Bitmap) (start p : ℕ)
    → AllFree b start p
    → Bitmap.get b (start + p) ≡ false
    → AllFree b start (p + 1)
AllFree-suc b start p free e i lo hi = elim (ℕ_discrete i (start + p)) [
  | yes same ↦ rw same e
  | no other ↦ free i lo (omega arith)
]

-- A used page ends a run: the search goes on behind it, and no run from before it is lost.
Scanned-skip :
    (b : Bitmap) (start p stop count : ℕ) (f : Found)
    → p < count
    → Bitmap.get b (start + p) ≡ true
    → Scanned b (start + p + 1) stop count f
    → Scanned b start stop count f
Scanned-skip b start p stop count f lt used rest = record {
  bytes = rest.bytes;
  found = λ page eq. let r = rest.found page eq in (omega (arith, r.0), r.1, r.2, r.3);
  failed = rest.failed;
  first = λ q all lo hi. elim (dec_lt (start + p) q) [
    | yes after ↦ rest.first q all (omega arith) hi
    | no before ↦ absurd (false≢true (sym (all (start + p) (omega arith) (omega arith)) ∙ used))
  ];
}

Scanned-take :
    (b : Bitmap) (start p stop count last page : ℕ)
    → IsBytes b
    → start + p ≡ last
    → p + 1 ≡ count
    → last < stop
    → page ≡ last + 1 - count
    → AllFree b start (p + 1)
    → Scanned b start stop count
        (record { bits = set_range b page count true; next = last + 1; page = some page })
Scanned-take b start p stop count last page h s e lt eq free =
    let same : start ≡ page = omega arith in
    let run : AllFree b page count = rw (← same, ← e) free in
    record {
      bytes = set_range-IsBytes count b page true h;
      found = λ page' eq'.
          let w : page ≡ page' = cc in
          rw (← w) (omega arith, omega arith, omega arith, Taken-set_range b page count h run);
      failed = λ none'. cc;
      first = λ q all lo hi. (page, refl, omega arith);
    }

module _ (rounds count p : ℕ) (b : Bitmap) (last : ℕ) where
  scan_used :
      Bitmap.get b last ≡ true → scan (suc rounds) count p b last ≡ scan rounds count 0 b (last + 1)
  unfolding scan
  scan_used e = rw (e, scan) refl

  scan_more :
      Bitmap.get b last ≡ false
      → (p + 1 == count) ≡ false
      → scan (suc rounds) count p b last ≡ scan rounds count (p + 1) b (last + 1)
  unfolding scan
  scan_more e f = ground arith

  scan_full :
      Bitmap.get b last ≡ false
      → (p + 1 == count) ≡ true
      → scan (suc rounds) count p b last ≡ record {
        bits = set_range b (last + 1 - count) count true;
        next = last + 1;
        page = some (last + 1 - count);
      }
  unfolding scan
  scan_full e f = ground arith

module _ (count : ℕ) (b : Bitmap) (h : IsBytes b) (pos : 0 < count) where
  scan-Scanned :
      (rounds p last stop start : ℕ)
      → last + rounds ≡ stop
      → start + p ≡ last
      → p < count
      → AllFree b start p
      → Scanned b start stop count (scan rounds count p b last)
  unfolding scan
  scan-Scanned zero p last stop start e s lt free = record {
    bytes = h;
    found = λ page eq. cc;
    failed = λ eq. (omega arith, refl);
    first = λ q all lo hi. absurd (omega arith);
  }
  scan-Scanned (suc rounds) p last stop start e s lt free = elim (Bool-cases (Bitmap.get b last)) [
    | inl used ↦ rw (scan_used rounds count p b last used) (
        Scanned-skip b start p stop count _ lt (rw s used) (
          rw s (
            scan-Scanned rounds 0 (last + 1) stop (last + 1) (omega arith) (omega arith) pos
              (λ i lo hi. absurd (omega arith)))))
    | inr unused ↦
        let free' = AllFree-suc b start p free (rw s unused) in
        elim (Bool-cases (p + 1 == count)) [
          | inl full ↦ rw (scan_full rounds count p b last unused full) (
              Scanned-take b start p stop count last (last + 1 - count) h s
                ((==_iff (p + 1) count).0 full) (omega arith) refl free')
          | inr more ↦ rw (scan_more rounds count p b last unused more) (
              scan-Scanned rounds (p + 1) (last + 1) stop start (omega arith) (omega arith)
                (ground arith) free')
        ]
  ]

-- From `last` to the limit: the first run of `count` free pages is found and taken, or there is none
-- and only `last` has changed.
pub scan_lem :
    (b : Bitmap) (count last rounds stop : ℕ)
    → IsBytes b
    → 0 < count
    → last + rounds ≡ stop
    → Scanned b last stop count (scan rounds count 0 b last)
scan_lem b count last rounds stop h pos e =
    scan-Scanned count b h pos rounds 0 last stop last e (omega arith) pos
      (λ i lo hi. absurd (omega arith))
