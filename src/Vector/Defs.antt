-- ===== src/Vector/Defs.antt =====
-- The class over the items that stand from its pointer on. What is behind `length` is whatever was there.
-- `granted` is whether the heap gives memory; it copies what it moves.
use turb_os.Base.{ℕ, zero, suc, ◌+◌, ◌-◌, ◌^◌, Bool, true, ltb, ◌==◌, if◌then◌else◌, ◌-◌}
use turb_os.Base.Words.{add64, sub64, mul64}

pub record TurboVector {ℓ} (A : Type ℓ) : Type ℓ where
  pub items : ℕ → A
  pub capacity : ℕ
  pub length : ℕ
  pub is_init : Bool

-- The loop of `find` compares the address of the items with that of the item at `index`.
unfoldable pub find_loop : ℕ → ℕ → ℕ
find_loop zero index = 2 ^ 64 - 1
find_loop (suc left) index =
    let rest = find_loop left (index + 1) in if 0 == index then index else rest

module _ {ℓ} {A : Type ℓ} where
  abbrev pub store : (ℕ → A) → ℕ → A → ℕ → A
  store items i x j = if j == i then x else items j

  unfoldable pub init : TurboVector A → TurboVector A
  init v = record v { capacity = 1; length = 0; is_init = true }

  abbrev pub ready : TurboVector A → TurboVector A
  ready v = if v.is_init then v else init v

  -- `push_back` of a vector that is set up
  unfoldable pub push_to : Bool → TurboVector A → A → TurboVector A
  push_to granted r item =
      if ltb r.length r.capacity
      then record r { items = store r.items r.length item; length = add64 r.length 1 }
      else (let grown = record r { capacity = mul64 r.capacity 2 } in
          if granted
          then record grown { items = store r.items r.length item; length = add64 r.length 1 }
          else grown)

  unfoldable pub push_back : Bool → TurboVector A → A → TurboVector A
  push_back granted v item = push_to granted (ready v) item

  unfoldable pub pop_back : TurboVector A → TurboVector A
  pop_back v = if v.is_init then record v { length = sub64 v.length 1 } else v

  -- `*(data + position + (i-1)) = *(data + position + i)`, from `i` with `left` rounds left
  unfoldable pub shift_down : ℕ → ℕ → ℕ → (ℕ → A) → ℕ → A
  shift_down zero position i items = items
  shift_down (suc left) position i items =
      shift_down left position (i + 1) (store items (position + (i - 1)) (items (position + i)))

  -- The loop runs while `i < length - 1`, from 1 on.
  unfoldable pub remove : TurboVector A → ℕ → TurboVector A
  remove v position =
      if v.is_init
      then record v {
        items = shift_down (sub64 v.length 1 - 1) position 1 v.items;
        length = sub64 v.length 1;
      }
      else v

  unfoldable pub at : TurboVector A → ℕ → A
  at v position = v.items position

  unfoldable pub last : TurboVector A → A
  last v = v.items (sub64 v.length 1)

  unfoldable pub resize : TurboVector A → ℕ → TurboVector A
  unfolding init
  resize v size =
      let r = ready v in
      let s = record r { capacity = size } in
      if ltb size s.length then record s { length = add64 size 1 } else s

  unfoldable pub find : TurboVector A → A → ℕ
  find v thing = find_loop v.length 0
