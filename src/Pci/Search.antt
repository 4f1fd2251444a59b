-- ===== src/Pci/Search.antt =====
-- What `search` finds, by what `count` counts.
use mathlib.Core.Path.{subst}
use native.Mathlib.Decide.{dec_lt}
use turb_os.Base.{
  ℕ, zero, suc, ◌+◌, ◌-◌, ◌^◌, ◌≤◌, ◌<◌, ◌≡◌, ◌⊎◌, inl, inr, refl, sym, ap, ◌∙◌, ltb, if◌then◌else◌,
  Bool-cases, Bool, true, false, arith,
}
use turb_os.Base.Words.{add64}
use turb_os.Vector.Defs.{at}
use turb_os.Pci.Defs.{
  PciDevice, Pci, device_at, has_class, has_vendor, find_device, search_class, search_vendor,
  count_loop, count_class, count_vendor,
}

module _ (test : PciDevice → Bool) (s : Pci) where
  -- How many of the `left` devices from `i` on pass the test.
  abbrev pub hits : ℕ → ℕ → ℕ
  hits zero i = 0
  hits (suc left) i = (if test (device_at s i) then 1 else 0) + hits left (i + 1)

  -- The device at `i + j` passes, as `skip` of those from `i` on to it do.
  abbrev pub IsHit : ℕ → ℕ → ℕ → ℕ → ℕ → Type 0
  IsHit i left skip r j =
      (j < left)
      × (r ≡ at s.devices (i + j))
      × (test (device_at s (i + j)) ≡ true)
      × (hits j i ≡ skip)

  count_loop_lem :
      (left i num : ℕ) → num + left < 2 ^ 64 → count_loop test s left i num ≡ num + hits left i
  unfolding count_loop
  count_loop_lem zero i num fits = omega arith
  count_loop_lem (suc left) i num fits = elim (Bool-cases (test (device_at s i))) [
    | inl t ↦
        let next : add64 num 1 ≡ num + 1 = omega arith in
        let rest = count_loop_lem left (i + 1) (num + 1) (omega arith) in
        rw (t, next, rest) (omega arith)
    | inr f ↦ let rest = count_loop_lem left (i + 1) num (omega arith) in rw (f, rest) (omega arith)
  ]

  hits_passed :
      (left i : ℕ) → test (device_at s i) ≡ true → hits (suc left) i ≡ 1 + hits left (i + 1)
  hits_passed left i t = rw t refl

  hits_failed : (left i : ℕ) → test (device_at s i) ≡ false → hits (suc left) i ≡ hits left (i + 1)
  hits_failed left i f = rw f (omega arith)

  find_device-skips :
      (left i k : ℕ)
      → test (device_at s i) ≡ true
      → find_device test s (suc left) i (suc k) ≡ find_device test s left (i + 1) k
  unfolding find_device
  find_device-skips left i k t =
      let skips : ltb 0 (suc k) ≡ true = ground arith in
      let less : suc k - 1 ≡ k = omega arith in rw (t, skips, less) refl

  find_device-none : (left i skip : ℕ) → hits left i ≤ skip → find_device test s left i skip ≡ 0
  unfolding find_device
  find_device-none zero i skip few = refl
  find_device-none (suc left) i zero few = elim (Bool-cases (test (device_at s i))) [
    | inl t ↦ let more = hits_passed left i t in absurd (omega arith)
    | inr f ↦
        let same = hits_failed left i f in
        let rest = find_device-none left (i + 1) 0 (omega arith) in rw f rest
  ]
  find_device-none (suc left) i (suc k) few = elim (Bool-cases (test (device_at s i))) [
    | inl t ↦
        let more = hits_passed left i t in
        let rest = find_device-none left (i + 1) k (omega arith) in
        find_device-skips left i k t ∙ rest
    | inr f ↦
        let same = hits_failed left i f in
        let rest = find_device-none left (i + 1) (suc k) (omega arith) in rw f rest
  ]

  -- A hit from `i + 1` on is one from `i` on.
  IsHit-later :
      (i left k skip r : ℕ)
      → ((j : ℕ) → hits j (i + 1) ≡ k → hits (suc j) i ≡ skip)
      → (j : ℕ) × IsHit (i + 1) left k r j
      → (j : ℕ) × IsHit i (suc left) skip r j
  IsHit-later i left k skip r counted (j, (lt, found, passed, before)) =
      let place : (i + 1) + j ≡ i + suc j = omega arith in
      (
        suc j,
        (
          omega arith,
          found ∙ ap (at s.devices) place,
          subst (λ q. test (device_at s q) ≡ true) place passed,
          counted j before,
        ),
      )

  find_device-IsHit :
      (left i skip : ℕ)
      → skip < hits left i
      → (j : ℕ) × IsHit i left skip (find_device test s left i skip) j
  unfolding find_device
  find_device-IsHit zero i skip few = absurd (omega arith)
  find_device-IsHit (suc left) i zero few = elim (Bool-cases (test (device_at s i))) [
    | inl t ↦
        let place : i ≡ i + 0 = omega arith in
        (
          0,
          (
            omega arith,
            rw t (ap (at s.devices) place),
            subst (λ q. test (device_at s q) ≡ true) place t,
            refl,
          ),
        )
    | inr f ↦
        let same = hits_failed left i f in
        rw f (
          IsHit-later i left 0 0 (find_device test s left (i + 1) 0) (λ j e. hits_failed j i f ∙ e)
            (find_device-IsHit left (i + 1) 0 (omega arith)))
  ]
  find_device-IsHit (suc left) i (suc k) few = elim (Bool-cases (test (device_at s i))) [
    | inl t ↦
        let more = hits_passed left i t in
        let later =
          IsHit-later i left k (suc k) (find_device test s left (i + 1) k)
            (λ j e. hits_passed j i t ∙ ap (λ n. 1 + n) e ∙ omega arith)
            (find_device-IsHit left (i + 1) k (omega arith)) in
        subst (λ r. (j : ℕ) × IsHit i (suc left) (suc k) r j) (sym (find_device-skips left i k t))
          later
    | inr f ↦
        let same = hits_failed left i f in
        rw f (
          IsHit-later i left (suc k) (suc k) (find_device test s left (i + 1) (suc k))
            (λ j e. hits_failed j i f ∙ e) (find_device-IsHit left (i + 1) (suc k) (omega arith)))
  ]

  -- What `search` and `count` return together: a device that passes, with `skip` that pass before it, or none.
  abbrev pub IsSearched : ℕ → ℕ → ℕ → Type 0
  IsSearched skip found num =
      ((skip < num) × ((j : ℕ) × IsHit 0 s.devices.length skip found j))
      ⊎ ((num ≤ skip) × (found ≡ 0))

  loops-IsSearched :
      (skip : ℕ)
      → s.devices.length < 2 ^ 64
      → IsSearched skip
          (find_device test s s.devices.length 0 skip)
          (count_loop test s s.devices.length 0 0)
  loops-IsSearched skip fits =
      let n = s.devices.length in
      let counted : count_loop test s n 0 0 ≡ hits n 0 =
        count_loop_lem n 0 0 (omega arith) ∙ omega arith in
      elim (dec_lt skip (hits n 0)) [
        | yes lt ↦ inl (omega arith, find_device-IsHit n 0 skip lt)
        | no few ↦ inr (omega arith, find_device-none n 0 skip (omega arith))
      ]

-- After `init`, by class and by vendor: `search` with a skip below the count returns the device that passes the
-- test and has as many that pass before it as the skip says; with any other skip it returns `nullptr`.
pub search-count :
    (s : Pci) (class_id subclass prog_if vendor_id device_id skip : ℕ)
    → s.is_init ≡ true
    → s.devices.length < 2 ^ 64
    → IsSearched
        (has_class class_id subclass prog_if)
        s
        skip
        (search_class class_id subclass prog_if skip s)
        (count_class class_id subclass prog_if s)
      × IsSearched
          (has_vendor vendor_id device_id)
          s
          skip
          (search_vendor vendor_id device_id skip s)
          (count_vendor vendor_id device_id s)
unfolding search_class search_vendor count_class count_vendor count_loop find_device
search-count s class_id subclass prog_if vendor_id device_id skip ready fits =
    let by_class = loops-IsSearched (has_class class_id subclass prog_if) s skip fits in
    let by_vendor = loops-IsSearched (has_vendor vendor_id device_id) s skip fits in
    rw ready (by_class, by_vendor)
