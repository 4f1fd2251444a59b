-- ===== src/Pci/Defs.antt =====
-- The devices of pci.cpp. The memory that the bus is mapped to is a function of the address, and so are the
-- records that `translate` makes; the texts of pcidesc.cpp, which only describe a device, are left out.
use turb_os.Base.{ℕ, zero, suc, ◌+◌, ◌*◌, ◌-◌, ◌%◌, ◌^◌, ltb, ◌==◌, if◌then◌else◌, Bool, ◌&&◌, ◌||◌}
use turb_os.Base.Words.{add64}
use turb_os.Vector.Defs.{TurboVector, push_back, at}

pub record PciDevice : Type 0 where
  pub vendor_id : ℕ
  pub device_id : ℕ
  pub command : ℕ
  pub status : ℕ
  pub revision_id : ℕ
  pub prog_if : ℕ
  pub subclass : ℕ
  pub class_id : ℕ
  pub cache_line_size : ℕ
  pub latency_timer : ℕ
  pub header_type : ℕ
  pub bist : ℕ

pub record TranslatedPciDevice : Type 0 where
  pub device : ℕ
  pub bus : ℕ
  pub dev : ℕ
  pub func : ℕ

-- The variables of turbo::pci with the memory; `given` counts the records that `translate` made.
pub record Pci : Type 0 where
  pub is_init : Bool
  pub devices : TurboVector ℕ
  pub current_bus : ℕ
  pub current_dev : ℕ
  pub current_func : ℕ
  pub mapped : ℕ → PciDevice
  pub translated : ℕ → TranslatedPciDevice
  pub given : ℕ

-- `PCIdevices[i]->device`
abbrev pub device_at : Pci → ℕ → PciDevice
device_at s i = s.mapped (s.translated (at s.devices i)).device

-- the tests of `search` and `count` by class and by vendor
unfoldable pub has_class : ℕ → ℕ → ℕ → PciDevice → Bool
has_class class_id subclass prog_if d =
    (d.class_id == class_id) && (d.subclass == subclass) && (d.prog_if == prog_if)

unfoldable pub has_vendor : ℕ → ℕ → PciDevice → Bool
has_vendor vendor_id device_id d = (d.vendor_id == vendor_id) && (d.device_id == device_id)

-- the loop of `search` from `i` on; a `skip` below 0 is as 0.
unfoldable pub find_device : (PciDevice → Bool) → Pci → ℕ → ℕ → ℕ → ℕ
find_device test s zero i skip = 0
find_device test s (suc left) i skip =
    let skipped = find_device test s left (i + 1) (skip - 1) in
    let rest = find_device test s left (i + 1) skip in
    if test (device_at s i) then (if ltb 0 skip then skipped else at s.devices i) else rest

unfoldable pub search_class : ℕ → ℕ → ℕ → ℕ → Pci → ℕ
search_class class_id subclass prog_if skip s =
    if s.is_init
    then find_device (has_class class_id subclass prog_if) s s.devices.length 0 skip
    else 0

unfoldable pub search_vendor : ℕ → ℕ → ℕ → Pci → ℕ
search_vendor vendor_id device_id skip s =
    if s.is_init then find_device (has_vendor vendor_id device_id) s s.devices.length 0 skip else 0

-- the loop of `count` from `i` on
unfoldable pub count_loop : (PciDevice → Bool) → Pci → ℕ → ℕ → ℕ → ℕ
count_loop test s zero i num = num
count_loop test s (suc left) i num =
    count_loop test s left (i + 1) (if test (device_at s i) then add64 num 1 else num)

unfoldable pub count_class : ℕ → ℕ → ℕ → Pci → ℕ
count_class class_id subclass prog_if s =
    if s.is_init then count_loop (has_class class_id subclass prog_if) s s.devices.length 0 0 else 0

unfoldable pub count_vendor : ℕ → ℕ → Pci → ℕ
count_vendor vendor_id device_id s =
    if s.is_init then count_loop (has_vendor vendor_id device_id) s s.devices.length 0 0 else 0

-- The test that the three enumerations make first.
unfoldable pub is_absent : PciDevice → Bool
is_absent d = (d.device_id == 0) || (d.device_id == 0xFFFF)

-- `translate`, with the address that the heap gives
unfoldable pub translate : (ℕ → ℕ) → ℕ → Pci → Pci
translate heap device s =
    let made : TranslatedPciDevice = record {
      device = device;
      bus = s.current_bus;
      dev = s.current_dev;
      func = s.current_func;
    } in
    let place = heap s.given in
    record s { translated = λ q. if q == place then made else s.translated q; given = s.given + 1 }

unfoldable pub enum_func : Bool → (ℕ → ℕ) → ℕ → ℕ → Pci → Pci
unfolding is_absent translate
enum_func granted heap dev_address func s =
    let address = add64 dev_address (func * 2 ^ 12) in
    let next = translate heap address (record s { current_func = func % 2 ^ 8 }) in
    if is_absent (s.mapped address)
    then s
    else record next { devices = push_back granted s.devices (heap s.given) }

-- the loop of `enumdevice` from `func` on
unfoldable pub func_loop : Bool → (ℕ → ℕ) → ℕ → ℕ → ℕ → Pci → Pci
func_loop granted heap dev_address zero func s = s
func_loop granted heap dev_address (suc left) func s =
    func_loop granted heap dev_address left (func + 1) (enum_func granted heap dev_address func s)

unfoldable pub enum_device : Bool → (ℕ → ℕ) → ℕ → ℕ → Pci → Pci
unfolding is_absent
enum_device granted heap bus_address dev s =
    let address = add64 bus_address (dev * 2 ^ 15) in
    if is_absent (s.mapped address)
    then s
    else func_loop granted heap address 8 0 (record s { current_dev = dev % 2 ^ 8 })

-- the loop of `enumbus` from `dev` on
unfoldable pub dev_loop : Bool → (ℕ → ℕ) → ℕ → ℕ → ℕ → Pci → Pci
dev_loop granted heap bus_address zero dev s = s
dev_loop granted heap bus_address (suc left) dev s =
    dev_loop granted heap bus_address left (dev + 1) (enum_device granted heap bus_address dev s)

unfoldable pub enum_bus : Bool → (ℕ → ℕ) → ℕ → ℕ → Pci → Pci
unfolding is_absent
enum_bus granted heap base_address bus s =
    let address = add64 base_address (bus * 2 ^ 20) in
    if is_absent (s.mapped address)
    then s
    else dev_loop granted heap address 32 0 (record s { current_bus = bus % 2 ^ 8 })

-- the loop of `init` over the buses of one entry of the table, from `bus` on
unfoldable pub bus_loop : Bool → (ℕ → ℕ) → ℕ → ℕ → ℕ → Pci → Pci
bus_loop granted heap base_address zero bus s = s
bus_loop granted heap base_address (suc left) bus s =
    bus_loop granted heap base_address left (bus + 1) (enum_bus granted heap base_address bus s)
