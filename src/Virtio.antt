-- ===== src/Virtio.antt =====
-- The state of a VirtIO device, its reset, and its accesses to the guest's RAM: src/virtio.cpp. A
-- pointer into RAM is the index of a range with an offset into its `phys_mem`; C arrays of bytes are
-- functions from an index. `none` is a call that does not return or that leaves its buffer.

mod PowerOfTwo
pub mod Sound
pub mod Kept
pub mod Notify
pub mod Transport
pub mod Address
pub mod Bounds
pub mod Busy
pub mod Chains
pub mod Used
pub mod Dma
pub mod Turns
pub mod Devices
pub mod Queue
pub mod Config
pub mod Mmio
pub mod Pci
pub mod Block
pub mod Console
pub mod Net
pub mod Input
use dromajo.Prelude.{
  ℕ, zero, suc, ◌+◌, ◌-◌, ◌*◌, ◌/◌, ◌%◌, ◌^◌, ◌&&◌, Bool, true, false, not, Option, none, some,
  List, [], ◌∷◌, ◌==◌, ltb, leb, if◌then◌else◌, get_elem?, get_or, set, map, bit_and, ◌>>=◌,
}
use dromajo.Cpu.Mmu.{load_le}
use dromajo.Iomem.{PhysMemoryRange, get_phys_mem_range}
use dromajo.Memory.{read_ram, write_ram}

abbrev pub max_queue : ℕ
max_queue = 8

abbrev pub max_queue_num : ℕ
max_queue_num = 16

abbrev pub virtio_page_size : ℕ
virtio_page_size = 4096

pub record QueueState : Type 0 where
  pub ready : ℕ
  pub num : ℕ
  pub last_avail_idx : ℕ
  pub desc_addr : ℕ
  pub avail_addr : ℕ
  pub used_addr : ℕ
  pub manual_recv : Bool

-- `irq_level` is the level that was driven last on the device's line.
pub record VirtioDevice : Type 0 where
  pub mem_map : List PhysMemoryRange
  pub irq_level : ℕ
  pub int_status : ℕ
  pub status : ℕ
  pub device_features_sel : ℕ
  pub queue_sel : ℕ
  pub queue : List QueueState
  pub device_id : ℕ
  pub vendor_id : ℕ
  pub device_features : ℕ
  pub config_space_size : ℕ
  pub config_space : ℕ → ℕ

abbrev pub set_irq : VirtioDevice → ℕ → VirtioDevice
set_irq s level = record s { irq_level = level }

unfoldable pub reset_queue : QueueState → QueueState
reset_queue qs = record qs {
  ready = 0;
  num = max_queue_num;
  desc_addr = 0;
  avail_addr = 0;
  used_addr = 0;
  last_avail_idx = 0;
}

unfoldable pub virtio_reset : VirtioDevice → VirtioDevice
virtio_reset s = record s {
  status = 0;
  queue_sel = 0;
  device_features_sel = 0;
  int_status = 0;
  queue = map reset_queue s.queue;
}

-- A queue by its index; the source has eight, and no index beyond.
abbrev pub no_queue : QueueState
no_queue = record {
  ready = 0;
  num = max_queue_num;
  last_avail_idx = 0;
  desc_addr = 0;
  avail_addr = 0;
  used_addr = 0;
  manual_recv = false;
}

abbrev pub queue_at : VirtioDevice → ℕ → QueueState
queue_at s i = get_or s.queue i no_queue

abbrev pub set_queue : VirtioDevice → ℕ → QueueState → VirtioDevice
set_queue s i qs = record s { queue = set s.queue i qs }

-- virtio_mmio_get_ram_ptr, and pci_device_get_dma_ptr for a device on PCI.
unfoldable pub get_ram_ptr : List PhysMemoryRange → ℕ → Option (ℕ × ℕ)
get_ram_ptr mem paddr = elim (get_phys_mem_range mem paddr) [
  | none ↦ none
  | some i ↦ elim (get_elem? mem i) [
    | none ↦ none
    | some pr ↦ if pr.is_ram then some (i, paddr - pr.addr) else none
  ]
]

unfoldable pub virtio_read16 : VirtioDevice → ℕ → ℕ
virtio_read16 s addr =
    if addr % 2 == 1
    then 0
    else elim (get_ram_ptr s.mem_map addr) [ none ↦ 0 | some p ↦ read_ram s.mem_map 1 p.0 p.1 ]

unfoldable pub virtio_write16 : VirtioDevice → ℕ → ℕ → VirtioDevice
virtio_write16 s addr val = if addr % 2 == 1 then s else elim (get_ram_ptr s.mem_map addr) [
  | none ↦ s
  | some p ↦ record s { mem_map = write_ram s.mem_map 1 p.0 p.1 val }
]

unfoldable pub virtio_write32 : VirtioDevice → ℕ → ℕ → VirtioDevice
virtio_write32 s addr val = if not (addr % 4 == 0) then s else elim (get_ram_ptr s.mem_map addr) [
  | none ↦ s
  | some p ↦ record s { mem_map = write_ram s.mem_map 2 p.0 p.1 val }
]

-- `memcpy(dst + d, src + o, n)`.
unfoldable pub memcpy : (ℕ → ℕ) → ℕ → (ℕ → ℕ) → ℕ → ℕ → ℕ → ℕ
memcpy dst d src o n i = if leb d i && ltb i (d + n) then src (o + (i - d)) else dst i

-- The bytes up to the end of a page.
unfoldable pub in_page : ℕ → ℕ → ℕ
in_page addr count =
    let left = virtio_page_size - addr % virtio_page_size in if ltb count left then count else left

unfoldable pub bytes_at : List PhysMemoryRange → ℕ → ℕ → ℕ
bytes_at mem i = elim (get_elem? mem i) [ none ↦ λ _. 0 | some pr ↦ pr.phys_mem ]

-- The loop of virtio_memcpy_from_ram on fuel, with the buffer, the place in it, the address and the
-- bytes left; the flag is a return value of 0.
unfoldable pub from_ram : ℕ → List PhysMemoryRange → (ℕ → ℕ) → ℕ → ℕ → ℕ → Option ((ℕ → ℕ) × Bool)
from_ram fuel mem buf pos addr zero = some (buf, true)
from_ram zero mem buf pos addr (suc c) = none
from_ram (suc fuel) mem buf pos addr (suc c) =
    let l = in_page addr (suc c) in
    elim (get_ram_ptr mem addr) [
      | none ↦ some (buf, false)
      | some p ↦
          from_ram fuel mem (memcpy buf pos (bytes_at mem p.0) p.1 l) (pos + l)
            ((addr + l) % 2 ^ 64) (suc c - l)
    ]

unfoldable pub virtio_memcpy_from_ram : VirtioDevice → (ℕ → ℕ) → ℕ → ℕ → ℕ → Option ((ℕ → ℕ) × Bool)
virtio_memcpy_from_ram s buf pos addr count = from_ram count s.mem_map buf pos addr count

unfoldable pub copy_in : List PhysMemoryRange → ℕ → ℕ → (ℕ → ℕ) → ℕ → ℕ → List PhysMemoryRange
copy_in mem i off buf pos l = elim (get_elem? mem i) [
  | none ↦ mem
  | some pr ↦ set mem i (record pr { phys_mem = memcpy pr.phys_mem off buf pos l })
]

unfoldable pub to_ram :
    ℕ → List PhysMemoryRange → ℕ → (ℕ → ℕ) → ℕ → ℕ → Option (List PhysMemoryRange × Bool)
to_ram fuel mem addr buf pos zero = some (mem, true)
to_ram zero mem addr buf pos (suc c) = none
to_ram (suc fuel) mem addr buf pos (suc c) =
    let l = in_page addr (suc c) in
    elim (get_ram_ptr mem addr) [
      | none ↦ some (mem, false)
      | some p ↦
          to_ram fuel (copy_in mem p.0 p.1 buf pos l) ((addr + l) % 2 ^ 64) buf (pos + l)
            (suc c - l)
    ]

unfoldable pub virtio_memcpy_to_ram :
    VirtioDevice → ℕ → (ℕ → ℕ) → ℕ → ℕ → Option (VirtioDevice × Bool)
virtio_memcpy_to_ram s addr buf pos count =
    to_ram count s.mem_map addr buf pos count >>= (λ r. some (record s { mem_map = r.0 }, r.1))
