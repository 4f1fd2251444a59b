-- ===== src/Heap/Entry/Tests.antt =====
-- A heap of two free blocks and a used one between them, and a heap without pages.
use turb_os.Base.{
  ℕ, ◌/◌, ◌^◌, ◌≡◌, ◌≢◌, refl, true, false, Bool, ◌==◌, if◌then◌else◌, some, List, [], ◌∷◌, inl,
  inr, arith,
}
use turb_os.Bitmap
use turb_os.Math.Rounding.{align_up}
use turb_os.PMemory.Defs
use turb_os.PMemory.Defs.{scan, oh_my_alloc, retry, charge, alloc_locked, alloc, set_range}
use turb_os.Heap.Defs.{
  HeapBlock, Headers, find_best, search_loop, search_step, search_merge, search_advance, take_best,
  split, split_loop, halve, required_size, double_up, coalescence, coalescence_loop, pass,
  pass_loop,
}
use turb_os.Heap.Chain.{Tiles, used_at}
use turb_os.Heap.Split.{free_block}
use turb_os.Heap.Search.Best.{Found, find_best-Found}
use turb_os.Heap.Entry.{Heap, search_twice, malloc, free, expand}
use turb_os.Heap.Entry.Laws.{IsValid, Allocated, Released, sought, malloc-Allocated, free-Released}
use turb_os.Heap.Entry.Undo.{free-malloc}
use turb_os.Heap.Entry.Expand.{expand-IsValid}

abbrev some_headers : Headers
some_headers p =
    if p == 0x1000
    then free_block 64
    else if p == 0x1040
    then record { size = 64; free = false }
    else free_block 128

abbrev some_blocks : List HeapBlock
some_blocks = free_block 64 ∷ record { size = 64; free = false } ∷ free_block 128 ∷ []

abbrev no_pages : Defs.State
no_pages = record {
  bitmap = λ i. if i == 0 then 128 else 0;
  is_init = true;
  high_page = 0x20000;
  last = 0;
  used_ram = 0;
  free_ram = 0x1F000;
  locked = false;
  effects = [];
}

abbrev sample : Bool → Heap
sample expanded = record {
  headers = some_headers;
  head = 0x1000;
  tail = 0x1100;
  data_ptr = 0x1000;
  expanded = expanded;
  locked = false;
  pages = 1;
  memory = no_pages;
}

sample-Tiles : Tiles some_headers 0x1000 some_blocks 0x1100
sample-Tiles = (refl, (2, refl), (refl, (2, refl), (refl, (3, refl), refl)))

sample-IsValid : (expanded : Bool) → IsValid (sample expanded) some_blocks
sample-IsValid expanded = record {
  above_zero = omega arith;
  tiles = sample-Tiles;
  not_empty = omega arith;
  in_memory = omega arith;
}

find_best_example :
    Found some_headers 0x1000 0x1100 32 some_blocks (find_best 0x1000 0x1100 some_headers 32)
find_best_example =
    find_best-Found some_headers 0x1000 0x1100 32 _ _ (omega arith) sample-Tiles (omega arith)
      (1, refl)

found_twice : (sought (sample false) 10).1 ≡ 0x1020
unfolding search_twice find_best search_loop search_step search_merge search_advance take_best split
    split_loop halve required_size double_up align_up
found_twice = refl

nothing_found : (sought (sample true) 1000).1 ≡ 0
unfolding search_twice find_best search_loop search_step search_merge search_advance take_best split
    split_loop halve required_size double_up align_up coalescence coalescence_loop pass pass_loop
nothing_found = refl

ten_found : (sought (sample false) 10).1 ≢ 0
ten_found e = omega (arith, e, found_twice)

malloc_example :
    (h' : Heap) × (p : ℕ) × (malloc 2 (sample false) 10 ≡ some (h', p))
    × Allocated (sample false) h' some_blocks 10 p
malloc_example =
    malloc-Allocated 1 (sample false) some_blocks 10 (sample-IsValid false) (omega arith) refl
      (omega arith) (omega arith) ten_found

free_example :
    (h' : Heap) × (free (sample false) 0x1050 ≡ some h')
    × Released (sample false) h' some_blocks 0x1040 64
free_example =
    free-Released (sample false) some_blocks 0x1040 64 (sample-IsValid false) (omega arith) refl
      (inr (inl (refl, refl))) (omega arith)

free-malloc_example :
    (h' : Heap) × (p : ℕ) × (h'' : Heap) × (blocks : List HeapBlock) × (malloc 2 (sample false) 10
      ≡ some (h', p))
    × (free h' p ≡ some h'')
    × IsValid h'' blocks
    × (used_at 0x1000 blocks ≡ used_at 0x1000 some_blocks)
free-malloc_example =
    free-malloc 1 (sample false) some_blocks 10 (sample-IsValid false) (omega arith) refl
      (omega arith) (omega arith) ten_found

abbrev fresh : Heap
fresh = record {
  headers = λ p. record { size = 0; free = false };
  head = 0;
  tail = 0;
  data_ptr = 0;
  expanded = false;
  locked = false;
  pages = 0;
  memory = no_pages;
}

given_page :
    Defs.realloc no_pages 0 0 (2 ^ 12 / 0x1000) ≡ some ((alloc_locked no_pages 1).0, 0x1000)
unfolding Defs.realloc alloc alloc_locked charge retry oh_my_alloc scan set_range Bitmap.get
    Bitmap.set
given_page = refl

expand_example :
    (h' : Heap) × (expand fresh 1 ≡ some h')
    × IsValid h' (free_block (2 ^ 12) ∷ [])
    × (h'.locked ≡ false)
    × (used_at h'.head (free_block (2 ^ 12) ∷ []) ≡ [])
expand_example =
    expand-IsValid fresh 1 11 (alloc_locked no_pages 1).0 0x1000 refl (omega arith) (omega arith)
      (omega arith) (omega arith) (omega arith) given_page (omega arith) (omega arith)
