-- ===== src/PMemory/Defs.antt =====
-- The state of the allocator, `ohMyAlloc`, `alloc`, `free` and `realloc`.
use turb_os.Base.{
  ℕ, zero, suc, ◌+◌, ◌-◌, ◌*◌, ◌/◌, Bool, true, false, ltb, ◌==◌, if◌then◌else◌, Option, none, some,
  List, ◌∷◌,
}
use turb_os.Base.Words.{add64, sub64, mul64}
use turb_os.Bitmap
use turb_os.Bitmap.{Bitmap}

-- the calls of `memset` and `memcpy`, latest first
pub data Effect : Type 0 where
  memset : ℕ → ℕ → ℕ → Effect
  memcpy : ℕ → ℕ → ℕ → Effect

-- The static variables of the namespace; `locked` is the flag of `mmLock`.
pub record State : Type 0 where
  pub bitmap : Bitmap
  pub is_init : Bool
  pub high_page : ℕ
  pub last : ℕ
  pub used_ram : ℕ
  pub free_ram : ℕ
  pub locked : Bool
  pub effects : List Effect

abbrev pub page_size : ℕ
page_size = 0x1000

-- `for (i = page; i < page + n; ++i) bitmap.set(i, value);` with `n` rounds left
unfoldable pub set_range : Bitmap → ℕ → ℕ → Bool → Bitmap
set_range b i zero value = b
set_range b i (suc n) value = set_range (Bitmap.set b i value) (i + 1) n value

-- What `ohMyAlloc` leaves: the bitmap, `last`, and the first page of the run, if one was found.
pub record Found : Type 0 where
  pub bits : Bitmap
  pub next : ℕ
  pub page : Option ℕ

-- The loop of `ohMyAlloc` with `limit - last` rounds left; `p` free pages stand before `last`.
unfoldable pub scan : ℕ → ℕ → ℕ → Bitmap → ℕ → Found
scan zero count p b last = record { bits = b; next = last; page = none }
scan (suc rounds) count p b last = elim (Bitmap.get b last) [
  | true ↦ scan rounds count 0 b (last + 1)
  | false ↦ elim (p + 1 == count) [
    | true ↦
        let page = last + 1 - count in
        record { bits = set_range b page count true; next = last + 1; page = some page }
    | false ↦ scan rounds count (p + 1) b (last + 1)
  ]
]

abbrev pub address_of : Option ℕ → ℕ
address_of none = 0
address_of (some page) = page * page_size

-- `ohMyAlloc`: the state after it, and the pointer
unfoldable pub oh_my_alloc : State → ℕ → ℕ → State × ℕ
oh_my_alloc s count limit =
    let f = scan (limit - s.last) count 0 s.bitmap s.last in
    (record s { bitmap = f.bits; last = f.next }, address_of f.page)

-- `if (!ret) { last = 0; ret = ohMyAlloc(count, tmp); }`
unfoldable pub retry : ℕ → ℕ → State × ℕ → State × ℕ
retry count tmp (s, ret) =
    if ret == 0 then oh_my_alloc (record s { last = 0 }) count tmp else (s, ret)

-- `memset(ret, 0, count * 0x1000); usedRam += count * 0x1000; freeRam -= count * 0x1000;`
unfoldable pub charge : ℕ → State × ℕ → State × ℕ
charge count (s, ret) = (
  record s {
    effects = memset ret 0 (mul64 count page_size) ∷ s.effects;
    used_ram = add64 s.used_ram (mul64 count page_size);
    free_ram = sub64 s.free_ram (mul64 count page_size);
  },
  ret,
)

-- `alloc` between the lock and the unlock
unfoldable pub alloc_locked : State → ℕ → State × ℕ
alloc_locked s count =
    charge count (retry count s.last (oh_my_alloc s count (s.high_page / page_size)))

-- `none`: the lock is held, and `lock` never returns.
unfoldable pub alloc : State → ℕ → Option (State × ℕ)
alloc s count = if s.locked then none else some (alloc_locked s count)

unfoldable pub free_locked : State → ℕ → ℕ → State
free_locked s ptr count =
    let page = ptr / page_size in
    record s {
      bitmap = set_range s.bitmap page count false;
      last = if ltb page s.last then page else s.last;
      used_ram = sub64 s.used_ram (mul64 count page_size);
      free_ram = add64 s.free_ram (mul64 count page_size);
    }

unfoldable pub free : State → ℕ → ℕ → Option State
free s ptr count =
    if ptr == 0 then some s else if s.locked then none else some (free_locked s ptr count)

-- the two sums that `realloc` does before it calls `alloc`, which does them once more
unfoldable pub realloc_account : State → ℕ → ℕ → State
realloc_account s old_size new_size = record s {
  used_ram = add64 (sub64 s.used_ram (mul64 old_size page_size)) (mul64 new_size page_size);
  free_ram = sub64 (add64 s.free_ram (mul64 old_size page_size)) (mul64 new_size page_size);
}

-- `memcpy(newFrag, ptr, oldSize); free(ptr); return newFrag;`, where `free` has its default count
unfoldable pub realloc_move : ℕ → ℕ → Option (State × ℕ) → Option (State × ℕ)
realloc_move ptr size none = none
realloc_move ptr size (some (s, frag)) =
    elim (free (record s { effects = memcpy frag ptr size ∷ s.effects }) ptr 1) [
      | none ↦ none
      | some s' ↦ some (s', frag)
    ]

unfoldable pub realloc : State → ℕ → ℕ → ℕ → Option (State × ℕ)
realloc s ptr old_size new_size =
    if ptr == 0
    then alloc s new_size
    else (if new_size == 0
        then elim (free s ptr old_size) [ none ↦ none | some s' ↦ some (s', 0) ]
        else realloc_move ptr (if ltb new_size old_size then new_size else old_size)
            (alloc (realloc_account s old_size new_size) new_size))

unfoldable pub get_free_ram : State → ℕ
get_free_ram s = s.free_ram

unfoldable pub get_used_ram : State → ℕ
get_used_ram s = s.used_ram
