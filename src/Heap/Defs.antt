-- ===== src/Heap/Defs.antt =====
-- The headers in memory, and the searches over them: `next`, `split`, `find_best`, `required_size` and
-- `coalescence`.
use turb_os.Base.{ℕ, zero, suc, ◌/◌, Bool, true, false, ◌&&◌, ◌||◌, ltb, leb, ◌==◌, if◌then◌else◌}
use turb_os.Base.Words.{add64, mul64}
use turb_os.Math.Rounding.{align_up}

pub record HeapBlock : Type 0 where
  pub size : ℕ
  pub free : Bool

-- The header at each address. Headers stand at multiples of 16, their size, so two of them do not overlap.
abbrev pub Headers : Type 0
Headers = ℕ → HeapBlock

abbrev pub sizeof_block : ℕ
sizeof_block = 16

abbrev pub put : Headers → ℕ → HeapBlock → Headers
put m p b q = if p == q then b else m q

abbrev pub set_size : Headers → ℕ → ℕ → Headers
set_size m p size = put m p (record { size = size; free = (m p).free })

abbrev pub set_free : Headers → ℕ → Bool → Headers
set_free m p free = put m p (record { size = (m p).size; free = free })

-- `Heap::next`
abbrev pub next : Headers → ℕ → ℕ
next m block = add64 block (m block).size

-- One round of the loop of `split`: the block is halved, and the search goes on in its second half.
unfoldable pub halve : Headers → ℕ → Headers × ℕ
halve m block =
    let sz = (m block).size / 2 in
    let m1 = set_size m block sz in
    let block' = next m1 block in
    let m2 = set_size m1 block' sz in (set_free m2 block' true, block')

unfoldable pub split_loop : ℕ → Headers → ℕ → ℕ → Headers × ℕ
split_loop zero m block size = (m, block)
split_loop (suc fuel) m block size = elim (ltb size (m block).size) [
  | true ↦ split_loop fuel (halve m block).0 (halve m block).1 size
  | false ↦ (m, block)
]

-- `Heap::split`. A size is below 2 ^ 64 and every round halves it, so 64 rounds are enough.
unfoldable pub split : Headers → ℕ → ℕ → Headers × ℕ
split m block size =
    if block == 0 || size == 0
    then (m, 0)
    else (let r = split_loop 64 m block size in if leb size (r.0 r.1).size then r else (r.0, 0))

-- The loop variables of `find_best`: `best` is 0 for a null `best_block`.
pub record Search : Type 0 where
  pub headers : Headers
  pub block : ℕ
  pub tmp : ℕ
  pub best : ℕ

-- `tmp = this->next(block)`, if the block is below the tail
abbrev pub next_pair : Headers → ℕ → ℕ → ℕ → ℕ
next_pair m tail block tmp = if ltb block tail then next m block else tmp

-- `block->free && size <= block->size && (best_block == nullptr || block->size <= best_block->size)`
abbrev pub best_block : Headers → ℕ → ℕ → ℕ → ℕ
best_block m size block best =
    if (m block).free && leb size (m block).size && (best == 0 || leb (m block).size (m best).size)
    then block
    else best

-- the same for `tmp`, with a strict order
abbrev pub best_tmp : Headers → ℕ → ℕ → ℕ → ℕ
best_tmp m size tmp best =
    if (m tmp).free && leb size (m tmp).size && (best == 0 || ltb (m tmp).size (m best).size)
    then tmp
    else best

abbrev pub mergeable : Headers → ℕ → ℕ → Bool
mergeable m block tmp = (m block).free && (m tmp).free && (m block).size == (m tmp).size

-- `block->size <<= 1`
abbrev pub double : Headers → ℕ → Headers
double m block = set_size m block (mul64 (m block).size 2)

-- the body of the loop of `find_best`
unfoldable pub search_merge : ℕ → ℕ → Search → Search
search_merge tail size s =
    let m = double s.headers s.block in
    let best =
      if leb size (m s.block).size && (s.best == 0 || leb (m s.block).size (m s.best).size)
      then s.block
      else s.best in
    let block = next m s.tmp in
    record { headers = m; block = block; tmp = next_pair m tail block s.tmp; best = best }

unfoldable pub search_advance : ℕ → ℕ → Search → Search
search_advance tail size s =
    let m = s.headers in
    let best = best_tmp m size s.tmp (best_block m size s.block s.best) in
    if leb (m s.block).size (m s.tmp).size
    then (let block = next m s.tmp in
        record { headers = m; block = block; tmp = next_pair m tail block s.tmp; best = best })
    else record { headers = m; block = s.tmp; tmp = next m s.tmp; best = best }

unfoldable pub search_step : ℕ → ℕ → Search → Search
search_step tail size s =
    if mergeable s.headers s.block s.tmp
    then search_merge tail size s
    else search_advance tail size s

unfoldable pub search_loop : ℕ → ℕ → ℕ → Search → Search
search_loop zero tail size s = s
search_loop (suc fuel) tail size s = elim (ltb s.block tail && ltb s.tmp tail) [
  | true ↦ search_loop fuel tail size (search_step tail size s)
  | false ↦ s
]

-- `if (best_block != nullptr) return this->split(best_block, size); return nullptr;`
unfoldable pub take_best : ℕ → Search → Headers × ℕ
take_best size s = if s.best == 0 then (s.headers, 0) else split s.headers s.best size

-- `Heap::find_best`. Every round moves `block` on by 16 bytes at least, so `tail - head` rounds are enough.
unfoldable pub find_best : ℕ → ℕ → Headers → ℕ → Headers × ℕ
find_best head tail m size =
    if size == 0
    then (m, 0)
    else (let tmp = next m head in
        if tmp == tail && (m head).free
        then split m head size
        else take_best size (
            search_loop tail tail size (record { headers = m; block = head; tmp = tmp; best = 0 })))

-- `while (size > actual_size) actual_size <<= 1;`
unfoldable pub double_up : ℕ → ℕ → ℕ → ℕ
double_up zero size actual_size = actual_size
double_up (suc fuel) size actual_size = elim (ltb actual_size size) [
  | true ↦ double_up fuel size (mul64 actual_size 2)
  | false ↦ actual_size
]

-- `Heap::required_size`. From 16 on, 59 doublings reach 2 ^ 63; beyond that `actual_size` wraps to 0.
unfoldable pub required_size : ℕ → ℕ
required_size size = double_up 60 (align_up (add64 size sizeof_block) sizeof_block) sizeof_block

-- The inner loop of `coalescence`: the headers, and whether nothing was merged (`no_coalescence`).
pub record Pass : Type 0 where
  pub merged : Headers
  pub no_coalescence : Bool

unfoldable pub pass_loop : ℕ → ℕ → Headers → ℕ → ℕ → Bool → Pass
pass_loop zero tail m block tmp none_yet = record { merged = m; no_coalescence = none_yet }
pass_loop (suc fuel) tail m block tmp none_yet = elim (ltb block tail && ltb tmp tail) [
  | true ↦ elim (mergeable m block tmp) [
    | true ↦
        let m' = double m block in
        let block' = next m' block in
        pass_loop fuel tail m' block' (next_pair m' tail block' tmp)
          (if ltb block' tail then false else none_yet)
    | false ↦ elim (ltb (m block).size (m tmp).size) [
      | true ↦ pass_loop fuel tail m tmp (next m tmp) none_yet
      | false ↦
          let block' = next m tmp in
          pass_loop fuel tail m block' (next_pair m tail block' tmp) none_yet
    ]
  ]
  | false ↦ record { merged = m; no_coalescence = none_yet }
]

unfoldable pub pass : ℕ → ℕ → Headers → Pass
pass head tail m = pass_loop tail tail m head (next m head) true

-- the outer loop of `coalescence`
unfoldable pub coalescence_loop : ℕ → ℕ → ℕ → Headers → Headers
coalescence_loop zero head tail m = m
coalescence_loop (suc fuel) head tail m =
    let p = pass head tail m in
    elim p.no_coalescence [ true ↦ p.merged | false ↦ coalescence_loop fuel head tail p.merged ]

-- `Heap::coalescence`. Each pass but the last merges two blocks, so `tail` passes are enough.
unfoldable pub coalescence : ℕ → ℕ → Headers → Headers
coalescence head tail m = coalescence_loop tail head tail m
