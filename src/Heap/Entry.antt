-- ===== src/Heap/Entry.antt =====
-- The methods of `Heap` that the kernel calls: `expand`, `malloc`, `calloc`, `realloc`, `free`, `allocsize`.
pub mod Mark
pub mod Laws
pub mod Undo
pub mod Expand
mod Tests
use turb_os.Base.{
  ℕ, zero, suc, ◌+◌, ◌/◌, Bool, true, false, not, ltb, leb, ◌==◌, if◌then◌else◌, Option, none, some,
  List, ◌∷◌,
}
use turb_os.Base.Words.{add64, sub64, mul64}
use turb_os.Math.Rounding.{align_up_2}
use turb_os.Math.PowerOfTwo.{power_of_2}
use turb_os.PMemory.Defs
use turb_os.PMemory.Defs.{Effect, memset, memcpy}
use turb_os.Heap.Defs.{
  HeapBlock, Headers, sizeof_block, put, set_free, next, find_best, required_size, coalescence,
}

-- `class Heap`, with the headers in memory and the allocator of pages that it calls. The bytes inside of
-- blocks are not tracked: no header is read there.
pub record Heap : Type 0 where
  pub headers : Headers
  pub head : ℕ
  pub tail : ℕ
  pub data_ptr : ℕ
  pub expanded : Bool
  pub locked : Bool
  pub pages : ℕ
  pub memory : Defs.State

abbrev pub init_pages : ℕ
init_pages = 512

-- `expand` with the pages in hand: one free block over all of them
unfoldable pub renew : Heap → ℕ → ℕ → Defs.State × ℕ → Heap
renew h size count (memory, data_ptr) =
    if data_ptr == 0
    then record h { memory = memory; data_ptr = data_ptr; locked = true }
    else (let m = put h.headers data_ptr (record { size = size; free = true }) in
        record h {
          headers = m;
          head = data_ptr;
          tail = next m data_ptr;
          data_ptr = data_ptr;
          pages = count;
          memory = memory;
          locked = false;
        })

-- `none`: a lock is held, and the call never returns. The early returns of `INVALID` leave the lock held.
unfoldable pub expand : Heap → ℕ → Option Heap
expand h pagecount =
    if h.locked
    then none
    else (if pagecount == 0
        then some (record h { locked = true })
        else (let size = align_up_2 0x1000 (mul64 (add64 pagecount h.pages) 0x1000) in
            if power_of_2 size
            then elim (Defs.realloc h.memory h.data_ptr h.pages (size / 0x1000)) [
              | none ↦ none
              | some r ↦ some (renew h size (size / 0x1000) r)
            ]
            else some (record h { locked = true })))

unfoldable pub setsize : Heap → ℕ → Option Heap
setsize h pagecount =
    if pagecount == 0
    then some h
    else if leb pagecount h.pages
    then some h
    else expand h (sub64 pagecount h.pages)

-- the search, once more after `coalescence` if it finds nothing
unfoldable pub search_twice : ℕ → ℕ → Headers → ℕ → Headers × ℕ
search_twice head tail m size =
    let r = find_best head tail m size in
    if r.1 == 0 then find_best head tail (coalescence head tail r.0) size else r

-- `malloc` after the two searches: a block, or null if the heap has just been expanded; otherwise it is
-- expanded, and the call is made once more
unfoldable pub conclude : Heap → ℕ → Headers × ℕ → (Heap → Option (Heap × ℕ)) → Option (Heap × ℕ)
conclude h size (m, found) again =
    if found == 0
    then (if h.expanded
        then some (record h { headers = m; expanded = false }, 0)
        else elim (expand (record h { headers = m }) (size / 0x1000 + 1)) [
          | none ↦ none
          | some h' ↦ again (record h' { expanded = true })
        ])
    else some
        (record h { headers = set_free m found false; expanded = false }, add64 found sizeof_block)

-- `Heap::malloc`; the second call does not call it again, so two are enough
unfoldable pub malloc : ℕ → Heap → ℕ → Option (Heap × ℕ)
malloc zero h size = none
malloc (suc calls) h size =
    if size == 0
    then some (h, 0)
    else elim (if h.data_ptr == 0 then expand h init_pages else some h) [
      | none ↦ none
      | some h0 ↦
          if h0.locked
          then none
          else conclude h0 size (search_twice h0.head h0.tail h0.headers (required_size size))
              (λ h'. malloc calls h' size)
    ]

abbrev pub record_effect : Heap → Effect → Heap
record_effect h e = record h { memory = record h.memory { effects = e ∷ h.memory.effects } }

unfoldable pub calloc : Heap → ℕ → ℕ → Option (Heap × ℕ)
calloc h num size = elim (malloc 2 h (mul64 num size)) [
  | none ↦ none
  | some (h', ptr) ↦
      some (if ptr == 0 then (h', 0) else (record_effect h' (memset ptr 0 (mul64 num size)), ptr))
]

unfoldable pub free_block_at : Heap → ℕ → Heap
free_block_at h block = record h {
  headers = coalescence h.head h.tail (set_free h.headers block true);
}

unfoldable pub free : Heap → ℕ → Option Heap
free h ptr =
    if h.data_ptr == 0
    then some h
    else if ptr == 0
    then some h
    else if ltb ptr h.head
    then some h
    else if leb h.tail ptr
    then some h
    else if h.locked
    then none
    else some (free_block_at h (sub64 ptr sizeof_block))

-- `memcpy(newptr, ptr, oldsize); this->free(ptr); return newptr;`
unfoldable pub move_to : ℕ → ℕ → Heap × ℕ → Option (Heap × ℕ)
move_to ptr oldsize (h, newptr) =
    if newptr == 0
    then some (h, ptr)
    else elim (free (record_effect h (memcpy newptr ptr oldsize)) ptr) [
      | none ↦ none
      | some h' ↦ some (h', newptr)
    ]

unfoldable pub realloc : Heap → ℕ → ℕ → Option (Heap × ℕ)
realloc h ptr size =
    if ptr == 0
    then malloc 2 h size
    else (if size == 0
        then elim (free h ptr) [ none ↦ none | some h' ↦ some (h', 0) ]
        else (let oldsize = (h.headers (sub64 ptr sizeof_block)).size in
            elim (malloc 2 h size) [
              | none ↦ none
              | some r ↦ move_to ptr (if ltb size oldsize then size else oldsize) r
            ]))

unfoldable pub allocsize : Heap → ℕ → ℕ
allocsize h ptr =
    if h.data_ptr == 0
    then 0
    else if ptr == 0
    then 0
    else sub64 (h.headers (sub64 ptr sizeof_block)).size sizeof_block
