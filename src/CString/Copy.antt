-- ===== src/CString/Copy.antt =====
-- `strcpy`, `strncpy` and `strcat` of a text. The bytes are copied from the first on, so the two places may
-- overlap if the destination is not behind the source.
use native.Mathlib.Nat.{add-zero}
use turb_os.Base.{
  ℕ, zero, suc, ◌+◌, ◌≤◌, ◌<◌, ◌≡◌, ◌≢◌, refl, ap, ◌∙◌, false, ◌==◌, some, List, [], ◌∷◌, ◌++◌, ◌⊎◌,
  inl, arith,
}
use turb_os.Base.Lists.{length, take}
use turb_os.CString.Defs.{Memory, poke, copy_loop, strcpy, ncopy_loop, strncpy, strcat}
use turb_os.CString.Text.{
  Bytes, Text, Text-Bytes, Bytes-Text, Text-frame, Bytes-frame, Bytes-append,
}
use turb_os.CString.Read.{strlen_lem}

-- The bytes `s` stand at `d` in `m'`, which agrees with `m` outside of them.
pub record IsCopied (m m' : Memory) (d : ℕ) (s : List ℕ) : Type 0 where
  bytes : Bytes m' d s
  outside : (q : ℕ) → (q < d) ⊎ (d + length s ≤ q) → m' q ≡ m q

-- A copy to `d` of `n` bytes from `p` reads no byte that it has written.
abbrev pub IsApart : ℕ → ℕ → ℕ → Type 0
IsApart d p n = (d ≤ p) ⊎ (p + n < d)

-- One byte, then the rest behind it.
IsCopied-cons :
    (m m' : Memory) (d c : ℕ) (s : List ℕ)
    → c ≢ 0
    → IsCopied (poke m d c) m' (d + 1) s
    → IsCopied m m' d (c ∷ s)
IsCopied-cons m m' d c s nz rest = record {
  bytes = ((rest.outside d (inl (omega arith))) ∙ (ground arith), nz, rest.bytes);
  outside = λ q out. rest.outside q (omega (arith, out)) ∙ (ground arith);
}

-- What is still to be copied is a text after a byte has been stored.
Text-poke :
    (m : Memory) (d p c : ℕ) (s : List ℕ)
    → Text m (p + 1) s
    → IsApart d p (suc (length s))
    → Text (poke m d c) (p + 1) s
Text-poke m d p c s h apart =
    Text-frame m (poke m d c) (p + 1) s h (λ q lo hi. ground (arith, apart))

copy_loop_lem :
    (fuel : ℕ) (m : Memory) (d p : ℕ) (s : List ℕ)
    → Text m p s
    → length s < fuel
    → IsApart d p (length s)
    → (m' : Memory) × (copy_loop fuel m d p ≡ some (m', d + length s)) × IsCopied m m' d s
unfolding copy_loop
copy_loop_lem zero m d p s h lt apart = let absurd : ⊥ = omega (arith, lt) in elim absurd [ ]
copy_loop_lem (suc fuel) m d p [] h lt apart =
    (m, rw (copy_loop, h, add-zero) refl, record { bytes = tt; outside = λ q out. refl })
copy_loop_lem (suc fuel) m d p (zero ∷ s) h lt apart = elim (h.1 refl) [ ]
copy_loop_lem (suc fuel) m d p (suc c ∷ s) h lt apart =
    let ih =
      copy_loop_lem fuel (poke m d (suc c)) (d + 1) (p + 1) s (Text-poke m d p (suc c) s h.2 apart)
        (omega (arith, lt)) (omega (arith, apart)) in
    (
      ih.0,
      rw (copy_loop, h.0, ih.1) (ap (λ n. some (ih.0, n)) (omega arith)),
      IsCopied-cons m ih.0 d (suc c) s h.1 ih.2,
    )

-- The text `s` stands at `d` in `m'`, which agrees with `m` outside of its bytes and its zero byte.
pub record IsWritten (m m' : Memory) (d : ℕ) (s : List ℕ) : Type 0 where
  text : Text m' d s
  outside : (q : ℕ) → (q < d) ⊎ (d + length s < q) → m' q ≡ m q

-- Storing the zero byte behind the copied bytes makes them a text.
IsCopied-IsWritten :
    (m m' : Memory) (d : ℕ) (s : List ℕ)
    → IsCopied m m' d s
    → IsWritten m (poke m' (d + length s) 0) d s
IsCopied-IsWritten m m' d s copied = record {
  text =
      Bytes-Text (poke m' (d + length s) 0) d s
        (Bytes-frame m' (poke m' (d + length s) 0) d s copied.bytes (λ q lo hi. ground arith))
        (ground arith);
  outside = λ q out. (ground (arith, out)) ∙ copied.outside q (omega (arith, out));
}

-- `strcpy` to a place that is not null ends: a copy of the text stands there, and no byte outside of it has
-- changed. The fuel has to be above the length, and the destination not behind the source in its text.
pub strcpy_lem :
    (fuel : ℕ) (m : Memory) (d p : ℕ) (s : List ℕ)
    → d ≢ 0
    → Text m p s
    → length s < fuel
    → IsApart d p (length s)
    → (m' : Memory) × (strcpy fuel m d p ≡ some (m', d)) × IsWritten m m' d s
unfolding strcpy
strcpy_lem fuel m d p s nz h lt apart =
    let copied = copy_loop_lem fuel m d p s h lt apart in
    let shut : (d == 0) ≡ false = ground arith in
    (
      poke copied.0 (d + length s) 0,
      rw (strcpy, shut, copied.1) refl,
      IsCopied-IsWritten m copied.0 d s copied.2,
    )

ncopy_loop_lem :
    (n : ℕ) (m : Memory) (d p : ℕ) (s : List ℕ)
    → Text m p s
    → IsApart d p (length s)
    → ((ncopy_loop n m d p).1 ≡ d + length (take n s))
      × IsCopied m (ncopy_loop n m d p).0 d (take n s)
unfolding ncopy_loop
ncopy_loop_lem zero m d p s h apart = (omega arith, record { bytes = tt; outside = λ q out. refl })
ncopy_loop_lem (suc n) m d p [] h apart =
    rw (ncopy_loop, h) (omega arith, record { bytes = tt; outside = λ q out. refl })
ncopy_loop_lem (suc n) m d p (zero ∷ s) h apart = elim (h.1 refl) [ ]
ncopy_loop_lem (suc n) m d p (suc c ∷ s) h apart =
    let ih =
      ncopy_loop_lem n (poke m d (suc c)) (d + 1) (p + 1) s (Text-poke m d p (suc c) s h.2 apart)
        (omega (arith, apart)) in
    rw (ncopy_loop, h.0)
      (
        ih.0 ∙ omega arith,
        IsCopied-cons m (ncopy_loop n (poke m d (suc c)) (d + 1) (p + 1)).0 d (suc c) (take n s) h.1
            ih.1,
      )

-- `strncpy` to a place that is not null writes the first `n` bytes of the text, or all of them if there are
-- fewer, and a zero byte behind them, which is a byte more than `n` when the text is not shorter.
pub strncpy_lem :
    (n : ℕ) (m : Memory) (d p : ℕ) (s : List ℕ)
    → d ≢ 0
    → Text m p s
    → IsApart d p (length s)
    → ((strncpy m d p n).1 ≡ d) × IsWritten m (strncpy m d p n).0 d (take n s)
unfolding strncpy
strncpy_lem n m d p s nz h apart =
    let copied = ncopy_loop_lem n m d p s h apart in
    let shut : (d == 0) ≡ false = ground arith in
    rw (strncpy, shut, copied.0)
      (refl, IsCopied-IsWritten m (ncopy_loop n m d p).0 d (take n s) copied.1)

-- `strcat` of two texts that lie apart puts the bytes of the second behind those of the first, and changes
-- no other byte: the byte behind the result is what stood there before, be it zero or not.
pub strcat_lem :
    (fuel : ℕ) (m : Memory) (d p : ℕ) (t s : List ℕ)
    → d ≢ 0
    → Text m d t
    → Text m p s
    → length t < fuel
    → length s < fuel
    → IsApart (d + length t) p (length s)
    → (m' : Memory) × (strcat fuel m d p ≡ some (m', d))
      × Bytes m' d (t ++ s)
      × ((q : ℕ) → (q < d + length t) ⊎ (d + length t + length s ≤ q) → m' q ≡ m q)
unfolding strcat
strcat_lem fuel m d p t s nz ht hs lt ls apart =
    let copied = copy_loop_lem fuel m (d + length t) p s hs ls apart in
    let shut : (d == 0) ≡ false = ground arith in
    let kept =
      Bytes-frame m copied.0 d t (Text-Bytes m d t ht) (λ q lo hi. copied.2.outside q (inl hi)) in
    (
      copied.0,
      rw (strcat, shut, strlen_lem fuel m d t ht lt, copied.1) refl,
      Bytes-append copied.0 d t s kept copied.2.bytes,
      copied.2.outside,
    )
