-- ===== src/Pci/Tests.antt =====
-- The search at two devices of one class and one of another.
use turb_os.Base.{ℕ, ◌+◌, ◌==◌, if◌then◌else◌, true, refl, arith}
use turb_os.Pci.Defs.{
  PciDevice, Pci, has_class, has_vendor, search_class, search_vendor, count_class, count_vendor,
}
use turb_os.Pci.Search.{IsSearched, search-count}

abbrev a_device : ℕ → ℕ → PciDevice
a_device device_id class_id = record {
  vendor_id = 0x8086;
  device_id = device_id;
  command = 0;
  status = 0;
  revision_id = 0;
  prog_if = 1;
  subclass = 6;
  class_id = class_id;
  cache_line_size = 0;
  latency_timer = 0;
  header_type = 0;
  bist = 0;
}

abbrev three_devices : Pci
three_devices = record {
  is_init = true;
  devices = record { items = λ i. i + 10; length = 3; capacity = 5; is_init = true };
  current_bus = 0;
  current_dev = 0;
  current_func = 0;
  mapped = λ q. a_device (q + 7) (if q == 0 then 2 else 1);
  translated = λ q. record { device = if q == 11 then 0 else q; bus = 0; dev = 0; func = 0 };
  given = 3;
}

search-count_example :
    IsSearched
      (has_class 1 6 1)
      three_devices
      1
      (search_class 1 6 1 1 three_devices)
      (count_class 1 6 1 three_devices)
    × IsSearched
        (has_vendor 0x8086 7)
        three_devices
        1
        (search_vendor 0x8086 7 1 three_devices)
        (count_vendor 0x8086 7 three_devices)
search-count_example = search-count three_devices 1 6 1 0x8086 7 1 refl (omega arith)
