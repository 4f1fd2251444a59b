-- ===== src/Scheduler/Vectors.antt =====
-- The vectors of the scheduler hold no null pointer, whatever is pushed to them or removed by them.
use turb_os.Base.{
  ℕ, zero, suc, ◌+◌, ◌-◌, ◌≤◌, ◌<◌, ◌≡◌, ◌≢◌, refl, Bool, false, ltb, ◌==◌, if-both, Bool-cases,
  inl, inr, arith,
}
use turb_os.Base.Words.{add64, sub64}
use turb_os.Vector.Defs.{
  TurboVector, init, store, push_to, push_back, shift_down, remove, find_loop, find,
}
use turb_os.Scheduler.Kept.{IsFull, put-all}

-- No item is null, nor is the first place.
abbrev pub IsHeaded : TurboVector ℕ → Type 0
IsHeaded v = IsFull v × (v.items 0 ≢ 0)

store-ne_zero : (items : ℕ → ℕ) (i x j : ℕ) → x ≢ 0 → items j ≢ 0 → store items i x j ≢ 0
store-ne_zero items i x j = put-all (λ y. y ≢ 0) items i x j

push_item-IsFull :
    (v : TurboVector ℕ) (x : ℕ)
    → x ≢ 0
    → IsFull v
    → IsFull (record v { items = store v.items v.length x; length = add64 v.length 1 })
push_item-IsFull v x nz h i lt = elim (Bool-cases (i == v.length)) [
  | inl e ↦ rw e nz
  | inr e ↦ rw e (h i (ground arith))
]

push_to-IsFull :
    (granted : Bool) (v : TurboVector ℕ) (x : ℕ) → x ≢ 0 → IsFull v → IsFull (push_to granted v x)
unfolding push_to
push_to-IsFull granted v x nz h =
    if-both IsFull (ltb v.length v.capacity) _ _ (push_item-IsFull v x nz h)
      (if-both IsFull granted _ _ (push_item-IsFull v x nz h) h)

push_to-head :
    (granted : Bool) (v : TurboVector ℕ) (x : ℕ)
    → x ≢ 0
    → v.items 0 ≢ 0
    → (push_to granted v x).items 0 ≢ 0
unfolding push_to
push_to-head granted v x nz h =
    let P = λ (w : TurboVector ℕ). w.items 0 ≢ 0 in
    let stored = store-ne_zero v.items v.length x 0 nz h in
    if-both P (ltb v.length v.capacity) _ _ stored (if-both P granted _ _ stored h)

pub push_back-IsFull :
    (granted : Bool) (v : TurboVector ℕ) (x : ℕ) → x ≢ 0 → IsFull v → IsFull (push_back granted v x)
unfolding push_back init
push_back-IsFull granted v x nz h =
    push_to-IsFull granted _ x nz
      (if-both IsFull v.is_init v (init v) h (λ i lt. absurd (omega arith)))

pub push_back-head :
    (granted : Bool) (v : TurboVector ℕ) (x : ℕ)
    → x ≢ 0
    → v.items 0 ≢ 0
    → (push_back granted v x).items 0 ≢ 0
unfolding push_back init
push_back-head granted v x nz h =
    push_to-head granted _ x nz
      (if-both (λ (w : TurboVector ℕ). w.items 0 ≢ 0) v.is_init v (init v) h h)

-- A vector that is not set up has its first item at its first place.
pub push_first :
    (granted : Bool) (v : TurboVector ℕ) (x : ℕ)
    → v.is_init ≡ false
    → (push_back granted v x).items 0 ≡ x
unfolding push_back init push_to
push_first granted v x e = rw e refl

-- What holds of all items holds of them after they have moved.
shift_down-all :
    (P : ℕ → Type 0) (left i n : ℕ) (items : ℕ → ℕ)
    → i + left ≤ n
    → ((j : ℕ) → j < n → P (items j))
    → (j : ℕ) → j < n
    → P (shift_down left 0 i items j)
unfolding shift_down
shift_down-all P zero i n items le h j lt = h j lt
shift_down-all P (suc left) i n items le h j lt =
    let here : 0 + i < n = omega arith in
    let next : i + 1 + left ≤ n = omega arith in
    shift_down-all P left (i + 1) n (store items (0 + (i - 1)) (items (0 + i))) next
      (λ k lk. put-all P items (0 + (i - 1)) (items (0 + i)) k (h (0 + i) here) (h k lk)) j lt

-- `find` of a vector that is not empty answers 0; what holds of all items holds of those that `remove` leaves,
-- and of the first place.
pub remove-all :
    (P : ℕ → Type 0) (v : TurboVector ℕ) (x : ℕ)
    → 0 < v.length
    → ((j : ℕ) → j < v.length → P (v.items j))
    → ((j : ℕ) → j < (remove v (find v x)).length → P ((remove v (find v x)).items j))
      × P ((remove v (find v x)).items 0)
unfolding remove find find_loop
remove-all P v x pos h = go v.length refl
  where
    Q : TurboVector ℕ → Type 0
    Q w = ((j : ℕ) → j < w.length → P (w.items j)) × P (w.items 0)

    moved : (j : ℕ) → j < v.length → P (shift_down (sub64 v.length 1 - 1) 0 1 v.items j)
    moved = shift_down-all P (sub64 v.length 1 - 1) 1 v.length v.items (omega arith) h

    go : (n : ℕ) → v.length ≡ n → Q (remove v (find_loop n 0))
    go zero e = absurd (omega arith)
    go (suc n) e =
        if-both Q v.is_init _ v ((λ j lt. moved j (omega arith)), moved 0 pos) (h, h 0 pos)

pub remove-IsHeaded :
    (v : TurboVector ℕ) (x : ℕ) → 0 < v.length → IsFull v → IsHeaded (remove v (find v x))
remove-IsHeaded v x pos h = remove-all (λ y. y ≢ 0) v x pos h
