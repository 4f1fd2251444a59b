-- ===== src/Heap/Tests.antt =====
-- A small heap: two free blocks of 64 bytes, and one of 128 in use.
use turb_os.Base.{
  ℕ, ◌+◌, ◌*◌, ◌^◌, ◌<◌, ◌≤◌, ◌≡◌, refl, true, false, Bool, ◌==◌, if◌then◌else◌, List, [], ◌∷◌,
  arith,
}
use turb_os.Base.Words.{add64}
use turb_os.Math.Rounding.{align_up}
use turb_os.Heap.Defs.{
  HeapBlock, Headers, sizeof_block, halve, split_loop, split, double_up, required_size, pass_loop,
  pass, coalescence_loop, coalescence,
}
use turb_os.Heap.Chain.{Tiles, IsBlockSize}
use turb_os.Heap.Required.{required_size_lem, required_size_diverges}
use turb_os.Heap.Split.{Parted, split-Parted}
use turb_os.Heap.Coalesce.Loop.{Joined, coalescence-Joined}

abbrev block : ℕ → Bool → HeapBlock
block size free = record { size = size; free = free }

abbrev small_heap : Headers
small_heap p =
    if p == 0x1000
    then block 64 true
    else (if p == 0x1040
        then block 64 true
        else (if p == 0x1080 then block 128 false else block 0 false))

abbrev small_blocks : List HeapBlock
small_blocks = block 64 true ∷ block 64 true ∷ block 128 false ∷ []

size64 : IsBlockSize 64
size64 = (2, refl)

size128 : IsBlockSize 128
size128 = (3, refl)

small_heap-Tiles : Tiles small_heap 0x1000 small_blocks 0x1100
small_heap-Tiles = (refl, size64, (refl, size64, (refl, size128, refl)))

coalescence_example :
    Joined small_heap 0x1000 0x1100 small_blocks (coalescence 0x1000 0x1100 small_heap)
coalescence_example =
    coalescence-Joined small_heap 0x1000 0x1100 small_blocks (omega arith) small_heap-Tiles
      (omega arith)

coalescence_runs : coalescence 0x1000 0x1100 small_heap 0x1000 ≡ block 128 true
unfolding coalescence coalescence_loop pass pass_loop
coalescence_runs = refl

split_example : Parted small_heap 0x1040 64 32 (split small_heap 0x1040 32)
split_example =
    split-Parted small_heap 0x1040 64 32 (omega arith) refl size64 (1, refl) (omega arith)
      (omega arith)

split_runs : (split small_heap 0x1040 16).1 ≡ 0x1070
unfolding split split_loop halve
split_runs = refl

required_size_example :
    (k : ℕ) × (required_size 100 ≡ 2 ^ k * 16)
    × (100 + sizeof_block ≤ required_size 100)
    × (required_size 100 < 2 * (100 + 2 * sizeof_block))
required_size_example = required_size_lem 100 (omega arith) (omega arith)

required_size_diverges_example :
    let wanted = align_up (add64 (2 ^ 63) sizeof_block) sizeof_block in
    double_up 1000 wanted sizeof_block < wanted
required_size_diverges_example = required_size_diverges (2 ^ 63) 1000 (omega arith) (omega arith)
