-- ===== src/PageTable/Tests.antt =====
-- Entries at concrete values.
use turb_os.Base.{
  ℕ, ◌%◌, ◌/◌, ◌^◌, ◌≡◌, ◌+◌, ◌<◌, ◌≢◌, ◌⊎◌, [], ◌∷◌, some, refl, true, false, ◌==◌, if◌then◌else◌,
  arith,
}
use turb_os.Base.Bits.{bit_at}
use turb_os.PageTable.Entry.{set_flags, get_flags, get_address, set_address}
use turb_os.PageTable.Address.{get_address-set_address, get_address-set_flags}
use turb_os.PageTable.Walk.{
  Machine, Pagemap, set_lock, virt2pte, get_next_lvl, level_entry, map_mem, unmap_mem, put_flags,
  rem_flags,
}
use turb_os.PageTable.Mapped.{Updates, IsMapped, IsFlagged, methods-Updates}
use turb_os.PageTable.Laws.{map_mem_lem}

get_address-set_address_example :
    (get_address (set_address 0x8000000000000007 0x1234) ≡ 0x1234 % 2 ^ 40)
    × (set_address 0x8000000000000007 0x1234 % 2 ^ 12 ≡ 0x8000000000000007 % 2 ^ 12)
    × (set_address 0x8000000000000007 0x1234 / 2 ^ 52 ≡ 0x8000000000000007 / 2 ^ 52)
get_address-set_address_example = get_address-set_address 0x8000000000000007 0x1234 (omega arith)

get_address-set_flags_example : get_address (set_flags 0x5000 6 true) ≡ get_address 0x5000
get_address-set_flags_example = get_address-set_flags 0x5000 6 true (omega arith) (omega arith)

-- tables at 0x1000, 0x2000, 0x3000 and 0x4000, each linked to the next by its entries
abbrev linked : Machine
linked = record {
  entry = λ table i. if table == 0x4000 then 0 else table + 0x1007;
  memory = record {
    bitmap = λ i. 255;
    is_init = true;
    high_page = 0x20000;
    last = 0;
    used_ram = 0;
    free_ram = 0;
    locked = false;
    effects = [];
  };
  held = λ q. false;
  flushed = [];
  lvl5 = false;
}

abbrev tables : Pagemap
tables = record { lock = 0x800; toplvl = 0x1000 }

abbrev locked : Machine
locked = set_lock linked tables true

linked-virt2pte : virt2pte locked tables 0x5000 ≡ some (locked, (0x4000, 5))
unfolding virt2pte get_next_lvl level_entry get_flags get_address
linked-virt2pte = refl

map_mem_example :
    (s' : Machine) × (map_mem linked tables 0x5000 0x9000 3 ≡ some (s', (0x4000, 5)))
    × (get_address (s'.entry 0x4000 5) ≡ 0x9000 / 2 ^ 12 % 2 ^ 40)
    × ((k : ℕ) → k < 64 → bit_at 3 k ≡ 1 → bit_at (s'.entry 0x4000 5) k ≡ 1)
    × ((t i : ℕ) → (t ≢ 0x4000) ⊎ (i ≢ 5) → s'.entry t i ≡ linked.entry t i)
map_mem_example =
    map_mem_lem linked locked tables 0x5000 0x9000 3 (0x4000, 5) refl linked-virt2pte (omega arith)
      (omega arith)

methods-Updates_example :
    Updates linked tables (0x4000, 5) (IsMapped 0x9000 3) [] (map_mem linked tables 0x5000 0x9000 3)
    × Updates linked tables
        (0x4000, 5)
        (λ value. value ≡ 0)
        (0x5000 ∷ [])
        (unmap_mem linked tables 0x5000)
    × Updates linked tables (0x4000, 5) (IsFlagged 0 3 1) [] (put_flags linked tables 0x5000 3)
    × Updates linked tables (0x4000, 5) (IsFlagged 0 3 0) [] (rem_flags linked tables 0x5000 3)
methods-Updates_example =
    methods-Updates linked tables 0x5000 0x9000 3 (0x4000, 5) refl
      (refl, (refl, (refl, (refl, refl)))) (omega arith) (omega arith)
