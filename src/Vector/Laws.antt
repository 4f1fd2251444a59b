-- ===== src/Vector/Laws.antt =====
-- What a vector holds after its operations.
use mathlib.Core.Path.{subst}
use turb_os.Base.{
  ℕ, zero, suc, ◌+◌, ◌-◌, ◌^◌, ◌≤◌, ◌<◌, ◌≡◌, ◌&&◌, refl, Bool, true, false, ltb, leb, ◌==◌,
  if◌then◌else◌, if_true, if_false, Bool-cases, inl, inr, ap, sym, ◌∙◌, arith,
}
use turb_os.Base.Words.{add64, sub64, mul64}
use turb_os.Vector.Defs.{TurboVector, init, store, push_to, push_back, shift_down, remove, at}

-- The vector has room for its items, and at least one place.
pub record IsValid {ℓ} {A : Type ℓ} (v : TurboVector A) : Type ℓ where
  pub initialised : v.is_init ≡ true
  pub length_le : v.length ≤ v.capacity
  pub capacity_pos : 0 < v.capacity
  pub capacity_lt : v.capacity < 2 ^ 63

module _ {ℓ} {A : Type ℓ} where
  -- The vector `w` is `v` with `x` behind its items.
  abbrev pub IsPushed : TurboVector A → A → ℕ → TurboVector A → Type ℓ
  IsPushed v x i w =
      (at w i ≡ (if i == v.length then x else at v i))
      × (w.length ≡ v.length + 1)
      × (w.length ≤ w.capacity)
      × (w.is_init ≡ true)

  pub push_to-IsPushed :
      (v : TurboVector A) (x : A) (i : ℕ)
      → IsValid v
      → i ≤ v.length
      → IsPushed v x i (push_to true v x)
  unfolding push_to at
  push_to-IsPushed v x i h le = go (ltb v.length v.capacity) refl
    where
      go :
          (b : Bool)
          → ltb v.length v.capacity ≡ b
          → IsPushed v x i (
              if b
              then record v { items = store v.items v.length x; length = add64 v.length 1 }
              else record v {
                capacity = mul64 v.capacity 2;
                items = store v.items v.length x;
                length = add64 v.length 1;
              })
      go true e = (
        refl,
        omega (arith, h.length_le, h.capacity_lt),
        ground (arith, h.length_le, h.capacity_lt),
        h.initialised,
      )
      go false e = (
        refl,
        omega (arith, h.length_le, h.capacity_lt),
        omega (arith, h.length_le, h.capacity_lt, h.capacity_pos),
        h.initialised,
      )

  -- With memory from the heap, `push_back` to a valid vector puts the item behind the others, which stay, and
  -- there is room for all of them.
  pub push_back-IsPushed :
      (v : TurboVector A) (x : A) (i : ℕ)
      → IsValid v
      → i ≤ v.length
      → IsPushed v x i (push_back true v x)
  unfolding push_back
  push_back-IsPushed v x i h le =
      subst (λ (r : TurboVector A). IsPushed v x i (push_to true r x))
        (sym (if_true v.is_init v (init v) h.initialised)) (push_to-IsPushed v x i h le)

  shift_down_lem :
      (left position i : ℕ) (items : ℕ → A) (j : ℕ)
      → 0 < i
      → shift_down left position i items j ≡ (
          if leb (position + i) (j + 1) && ltb (j + 1) (position + i + left)
          then items (j + 1)
          else items j)
  unfolding shift_down
  shift_down_lem zero position i items j pos =
      let inside = leb (position + i) (j + 1) && ltb (j + 1) (position + i + 0) in
      let without : inside ≡ false = ground arith in
      sym (if_false inside (items (j + 1)) (items j) without)
  shift_down_lem (suc left) position i items j pos =
      let stored = store items (position + (i - 1)) (items (position + i)) in
      let ih = shift_down_lem left position (i + 1) stored j (omega arith) in
      let inside = leb (position + i) (j + 1) && ltb (j + 1) (position + i + suc left) in
      let tail = leb (position + (i + 1)) (j + 1) && ltb (j + 1) (position + (i + 1) + left) in
      elim (Bool-cases (j + 1 == position + i)) [
        | inl e ↦
            let within : inside ≡ true = ground arith in
            let out : tail ≡ false = ground arith in
            let here : (j == position + (i - 1)) ≡ true = ground arith in
            let place : position + i ≡ j + 1 = ground arith in
            ih
            ∙ if_false tail (stored (j + 1)) (stored j) out
            ∙ if_true (j == position + (i - 1)) (items (position + i)) (items j) here
            ∙ ap items place
            ∙ sym (if_true inside (items (j + 1)) (items j) within)
        | inr e ↦ elim (Bool-cases tail) [
          | inl later ↦
              let within : inside ≡ true = ground arith in
              let not_here : (j + 1 == position + (i - 1)) ≡ false = ground arith in
              ih
              ∙ if_true tail (stored (j + 1)) (stored j) later
              ∙ if_false (j + 1 == position + (i - 1)) (items (position + i)) (items (j + 1))
                  not_here
              ∙ sym (if_true inside (items (j + 1)) (items j) within)
          | inr never ↦
              let without : inside ≡ false = ground arith in
              let not_here : (j == position + (i - 1)) ≡ false = ground arith in
              ih
              ∙ if_false tail (stored (j + 1)) (stored j) never
              ∙ if_false (j == position + (i - 1)) (items (position + i)) (items j) not_here
              ∙ sym (if_false inside (items (j + 1)) (items j) without)
        ]
      ]

  -- `remove` from a vector of two or more items moves down the items behind `position`, as many as there are
  -- items less two: at position 0 the last item stays where it is, and so is lost.
  pub remove-at :
      (v : TurboVector A) (position j : ℕ)
      → v.is_init ≡ true
      → 2 ≤ v.length
      → v.length < 2 ^ 64
      → (at (remove v position) j
          ≡ (if leb position j && ltb (j + 2) (position + v.length) then at v (j + 1) else at v j))
        × ((remove v position).length ≡ v.length - 1)
  unfolding remove at
  remove-at v position j ready_ two fits =
      let shifted = shift_down (sub64 v.length 1 - 1) position 1 v.items in
      let after = record v { items = shifted; length = sub64 v.length 1 } in
      let e : remove v position ≡ after = if_true v.is_init after v ready_ in
      let rounds : sub64 v.length 1 - 1 ≡ v.length - 2 = omega arith in
      let moved = shift_down_lem (sub64 v.length 1 - 1) position 1 v.items j (omega arith) in
      let test : (leb (position + 1) (j + 1) && ltb (j + 1) (position + 1 + (sub64 v.length 1 - 1)))
          ≡ (leb position j && ltb (j + 2) (position + v.length)) =
        ground (arith, rounds, two) in
      (
        ap (λ (w : TurboVector A). at w j) e
            ∙ moved
            ∙ ap (λ (b : Bool). if b then v.items (j + 1) else v.items j) test,
        ap (λ (w : TurboVector A). w.length) e ∙ omega arith,
      )
