-- ===== src/Vector/Refinement.antt =====
-- A vector does what a list does that grows and shrinks at its end.
use mathlib.Core.Path.{subst}
use turb_os.Base.{
  ℕ, zero, suc, ◌+◌, ◌^◌, ◌≤◌, ◌<◌, ◌≡◌, ◌⊎◌, inl, inr, refl, sym, ap, ◌∙◌, true, false, ltb,
  ltb→lt, ◌==◌, if_true, if_false, if-split, Option, none, some, List, [], ◌∷◌, ◌++◌, arith,
}
use turb_os.Base.Lists.{length}
use turb_os.Base.Words.{add64, sub64}
use turb_os.Vector.Defs.{TurboVector, init, store, push_to, push_back, pop_back}
use turb_os.Vector.Laws.{IsValid}

pub data Op {ℓ} (A : Type ℓ) : Type ℓ where
  push : A → Op A
  pop : Op A

module _ {ℓ} {A : Type ℓ} where
  -- The first `n` items, and those of a vector.
  abbrev pub items_to : (ℕ → A) → ℕ → List A
  items_to items zero = []
  items_to items (suc n) = items_to items n ++ items n ∷ []

  abbrev pub contents : TurboVector A → List A
  contents v = items_to v.items v.length

  -- All but the last item, of a list that has one.
  abbrev pub drop_last : List A → Option (List A)
  drop_last [] = none
  drop_last (x ∷ []) = some []
  drop_last (x ∷ y ∷ xs) = elim (drop_last (y ∷ xs)) [ none ↦ none | some ys ↦ some (x ∷ ys) ]

  -- The operations on a vector, with memory from the heap, and on a list; `none` takes from an empty list.
  abbrev pub run : List (Op A) → TurboVector A → TurboVector A
  run [] v = v
  run (push x ∷ ops) v = run ops (push_back true v x)
  run (pop ∷ ops) v = run ops (pop_back v)

  abbrev pub run_list : List (Op A) → List A → Option (List A)
  run_list [] xs = some xs
  run_list (push x ∷ ops) xs = run_list ops (xs ++ x ∷ [])
  run_list (pop ∷ ops) xs = elim (drop_last xs) [ none ↦ none | some ys ↦ run_list ops ys ]

  -- A vector as its class makes it, or one with room for its items.
  abbrev pub IsUsable : TurboVector A → Type ℓ
  IsUsable v = ((v.is_init ≡ false) × (v.length ≡ 0)) ⊎ IsValid v

  drop_last-append : (xs : List A) (x : A) → drop_last (xs ++ x ∷ []) ≡ some xs
  drop_last-append [] x = refl
  drop_last-append (y ∷ []) x = refl
  drop_last-append (y ∷ z ∷ xs) x = rw (drop_last-append (z ∷ xs) x) refl

  items_to-store :
      (items : ℕ → A) (i n : ℕ) (x : A) → n ≤ i → items_to (store items i x) n ≡ items_to items n
  items_to-store items i zero x le = refl
  items_to-store items i (suc n) x le =
      let other : (n == i) ≡ false = ground arith in
      rw (items_to-store items i n x (omega arith), other) refl

  -- An item is stored behind the others.
  items_to-push :
      (items : ℕ → A) (n m : ℕ) (x : A)
      → m ≡ n + 1
      → items_to (store items n x) m ≡ items_to items n ++ x ∷ []
  items_to-push items n m x e =
      let next : m ≡ suc n = omega arith in
      let here : (n == n) ≡ true = ground arith in
      rw (next, items_to-store items n n x (omega arith), here) refl

  -- The vector `w` is `v` with `x` behind its items.
  IsGrown : TurboVector A → A → TurboVector A → Type ℓ
  IsGrown v x w = (contents w ≡ contents v ++ x ∷ []) × IsValid w × (w.length ≡ v.length + 1)

  push_to-IsGrown :
      (v : TurboVector A) (x : A) → IsValid v → v.length < 2 ^ 62 → IsGrown v x (push_to true v x)
  unfolding push_to IsGrown
  push_to-IsGrown v x h small =
      let stored = items_to-push v.items v.length (add64 v.length 1) x (omega arith) in
      if-split (IsGrown v x) (ltb v.length v.capacity) _ _
        (λ e.
          let room = ltb→lt v.length v.capacity e in
          (
            stored,
            record {
              initialised = h.initialised;
              length_le = omega (arith, room, h.capacity_lt);
              capacity_pos = h.capacity_pos;
              capacity_lt = h.capacity_lt;
            },
            omega arith,
          ))
        (λ e.
          let full : v.capacity ≤ v.length = ground arith in
          (
            stored,
            record {
              initialised = h.initialised;
              length_le = omega (arith, full, h.length_le, h.capacity_pos);
              capacity_pos = omega (arith, full, h.capacity_pos);
              capacity_lt = omega (arith, full);
            },
            omega arith,
          ))

  push_back-IsGrown :
      (v : TurboVector A) (x : A)
      → IsUsable v
      → v.length < 2 ^ 62
      → IsGrown v x (push_back true v x)
  unfolding push_back init IsGrown
  push_back-IsGrown v x (inr h) small =
      subst (λ r. IsGrown v x (push_to true r x)) (sym (if_true v.is_init v (init v) h.initialised))
        (push_to-IsGrown v x h small)
  push_back-IsGrown v x (inl (off, empty)) small =
      let grown =
        push_to-IsGrown (init v) x
          (record {
            initialised = refl;
            length_le = omega arith;
            capacity_pos = omega arith;
            capacity_lt = omega arith;
          })
          (omega arith) in
      subst (λ r. IsGrown v x (push_to true r x)) (sym (if_false v.is_init v (init v) off))
        (
          grown.0 ∙ ap (λ n. items_to v.items n ++ x ∷ []) (sym empty),
          grown.1,
          omega (arith, grown.2, empty),
        )

  -- The vector `w` has the items `xs`, and is no longer than `n`.
  IsShrunk : ℕ → List A → TurboVector A → Type ℓ
  IsShrunk n xs w = (contents w ≡ xs) × IsUsable w × (w.length ≤ n)

  some_injective : (xs ys : List A) → Path (Option (List A)) (some xs) (some ys) → xs ≡ ys
  some_injective xs ys e = cc

  none-some : (xs : List A) → Path (Option (List A)) none (some xs) → ⊥
  none-some xs e = cc

  -- A vector whose list has a last item loses it.
  pop_back-IsShrunk :
      (v : TurboVector A) (xs : List A)
      → IsUsable v
      → drop_last (contents v) ≡ some xs
      → IsShrunk v.length xs (pop_back v)
  unfolding pop_back IsShrunk
  pop_back-IsShrunk v xs usable e = go v.length refl usable
    where
      of_length : ℕ → Option (List A)
      of_length n = drop_last (items_to v.items n)

      go : (n : ℕ) → v.length ≡ n → IsUsable v → IsShrunk v.length xs (pop_back v)
      go zero z usable = absurd (none-some xs (sym (ap of_length z) ∙ e))
      go (suc n) z (inl (off, empty)) = absurd (omega arith)
      go (suc n) z (inr h) =
          let less : sub64 v.length 1 ≡ n = omega (arith, h.length_le, h.capacity_lt) in
          let same =
            some_injective _ _ (
              sym (drop_last-append (items_to v.items n) (v.items n)) ∙ sym (ap of_length z) ∙ e) in
          subst (IsShrunk v.length xs)
            (sym (if_true v.is_init (record v { length = sub64 v.length 1 }) v h.initialised))
            (
              ap (items_to v.items) less ∙ same,
              inr (record {
                initialised = h.initialised;
                length_le = omega (arith, less, h.length_le);
                capacity_pos = h.capacity_pos;
                capacity_lt = h.capacity_lt;
              }),
              omega (arith, less),
            )

  some_case :
      (o : Option (List A)) (f : List A → Option (List A)) (xs : List A)
      → (elim o [ none ↦ none | some ys ↦ f ys ]) ≡ some xs
      → (ys : List A) × (o ≡ some ys) × (f ys ≡ some xs)
  some_case none f xs e = absurd (none-some xs e)
  some_case (some ys) f xs e = (ys, refl, e)

  -- Any sequence of pushes and pops of a vector that never pops what is empty, with memory from the heap and
  -- fewer than 2 ^ 62 items and operations together, leaves it with the items that the same pushes and pops
  -- leave in a list.
  pub run-run_list :
      (ops : List (Op A)) (v : TurboVector A) (xs : List A)
      → IsUsable v
      → v.length + length ops < 2 ^ 62
      → run_list ops (contents v) ≡ some xs
      → contents (run ops v) ≡ xs
  unfolding IsGrown IsShrunk
  run-run_list [] v xs usable small e = some_injective _ _ e
  run-run_list (push x ∷ ops) v xs usable small e =
      let (grown, valid, longer) = push_back-IsGrown v x usable (omega arith) in
      run-run_list ops (push_back true v x) xs (inr valid) (omega (arith, longer))
        (ap (run_list ops) grown ∙ e)
  run-run_list (pop ∷ ops) v xs usable small e =
      let (ys, last, rest) = some_case (drop_last (contents v)) (run_list ops) xs e in
      let (shrunk, usable', shorter) = pop_back-IsShrunk v ys usable last in
      run-run_list ops (pop_back v) xs usable' (omega (arith, shorter))
        (ap (run_list ops) shrunk ∙ rest)
