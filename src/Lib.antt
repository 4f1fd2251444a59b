-- ===== src/Lib.antt =====
-- Turb-OS, a small x86-64 kernel: its memory management, strings, vectors, interrupts, scheduler, timers,
-- clock, keyboard, mouse, file tree and PCI devices as definitions, with the theorems about them.
--
-- The kernel hands out physical pages by a bitmap (src/system/memory/pMemory over src/system/memory/bitmap),
-- builds on them page tables (src/system/memory/vMemory) and a heap of blocks whose sizes are powers of two
-- (src/system/memory/heap), which `new`, the vectors and the drivers use. The macros of src/lib/math.hpp
-- serve them all, and src/lib/string.cpp the rest of the kernel.
--
-- - Base: tests, lists, integers, bits and machine words that all parts share.
-- - Bitmap: the class of bitmap.cpp, over the bytes that its pointer names.
-- - PMemory: pMemory.cpp. A record holds the static variables; `alloc`, `free` and `realloc` return the next
--   one, and `none` where they wait for a lock that nobody gives back. Calls of memset and memcpy are
--   recorded in order.
-- - Math: the macros of math.hpp (DIV_ROUNDUP, ALIGN_UP, ALIGN_UP_2, POWER_OF_2, TO_POWER_OF_2) and `rand`.
-- - Heap: heap.cpp. Headers are a function of the address. Heap.Defs has the private methods of the class,
--   Heap.Entry those that the kernel calls, with `none` for a call that waits for a lock nobody gives back.
-- - PageTable: vMemory.cpp. Entries are a function of the table's address and the index; the walk allocates
--   missing tables by PMemory. The locks of the pagemaps are part of the state.
-- - CString: string.cpp, over a memory of bytes.
-- - Rtc: rtc.cpp (src/system/CPU/scheduling/RTC), over a clock that goes on while it is read.
-- - Idt: idt.cpp (src/system/CPU/IDT), the gates, the vectors given out, and the dispatch of interrupts.
-- - Vector: TurboVector.hpp (src/lib/TurboVector), over items at addresses that the heap gives.
-- - Scheduler: scheduler.cpp (src/system/CPU/scheduling/scheduler). Threads and processes stand in stores by
--   their addresses; the addresses that the heap gives are arguments. Its vectors are those of Vector and its
--   vectors of interrupts those of Idt. Scheduler.Cpus has the processors that share them (smp.hpp), and
--   Scheduler.Reach the operations and the ticks in any order on any of them. Each runs as a whole: that one
--   is interrupted, or meets the held lock of another processor, is in Scheduler.Waiting for one case alone.
-- - Keyboard: keyboard.cpp and scancodes.hpp (src/drivers/devices): the tables, the handler over the functions
--   of CString, and `getLine` as rounds between which the handler runs.
-- - Timers: pit.cpp, hpet.cpp and omtime.cpp (src/system/CPU/scheduling): the sleeps over counters that go on
--   while they are read, the frequency, and the handler that calls the scheduler's switch.
-- - Vfs: turboVFS.cpp (src/drivers/fs/vfs). Nodes stand in a store by their addresses, and the children of a
--   node in a vector of Vector. Vfs.Walk has `openNext` and `createNext`, over the array of the path's names.
-- - Pci: pci.cpp (src/system/PCI), the enumeration of the buses over mapped memory, and the searches in the
--   vector of devices.
-- - Mouse: mouse.cpp (src/drivers/devices), the packet state machine and what it draws.
--
-- A machine word is a number below 2 ^ 64, with the wrap written out. A loop that counts to a bound of its
-- own takes the rounds that are left; `split` takes 64 rounds, since a size below 2 ^ 64 cannot be halved
-- more often, `required_size` takes 60, since 59 doublings of 16 reach 2 ^ 63, and the passes over the heap
-- take its end address, since each round moves on by 16 bytes. `malloc` takes a number of calls, two for the
-- kernel's. `clean_proc` takes the depth of its recursion, of which two are enough since no operation gives a
-- process a child. The loops on strings take fuel, and the theorems say how much is enough. `open_next`
-- and `create_next` take fuel for their calls of themselves, and `open_next` also for the rounds over the
-- children.
--
-- Not modelled: the other drivers, what `open`, `create` and `mount` of the file system do before they walk
-- (they split the path with strsplit_count), its calls of the functions of a driver, the accesses of pci.cpp by
-- ports, the segments and the configuration tables of the processor, of the memory management the set-up
-- from the boot loader's map, and interrupts inside an operation of the scheduler but for the case in
-- Scheduler.Waiting. Log messages are left out.
pub mod Base
pub mod Bitmap
pub mod Idt
pub mod Mouse
pub mod Keyboard
pub mod Scheduler
pub mod Timers
pub mod PMemory
pub mod Rtc
pub mod Vector
pub mod Vfs
pub mod Pci
pub mod Math
pub mod Heap
pub mod PageTable
pub mod CString
