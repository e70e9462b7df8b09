-- ===== src/Examples/Virtio.antt =====
-- A VirtIO device on a concrete guest: sixty-four kilobytes of RAM, with the rings of its queues and one
-- descriptor that is its own next, or with one that ends its chain.
use dromajo.Prelude.{
  Bool, ℕ, ◌+◌, ◌-◌, ◌*◌, ◌%◌, ◌^◌, ◌≤◌, ◌<◌, ◌≡◌, refl, arith, true, false, Option, none, some, [],
  ◌∷◌, ◌==◌, ltb, if◌then◌else◌, replicate, bit_or,
}
use dromajo.Cpu.Mmu.{load_le}
use dromajo.Iomem.{PhysMemoryRange, get_phys_mem_range, contains}
use dromajo.Memory.{read_ram}
use dromajo.Virtio.{
  VirtioDevice, QueueState, queue_at, get_ram_ptr, virtio_read16, memcpy, copy_in, bytes_at,
  virtio_memcpy_from_ram, virtio_memcpy_to_ram, from_ram, in_page,
}
use dromajo.Virtio.Sound.{QueueOk, IsSound, SoundPair, SoundOut}
use dromajo.Prelude.Returns.{Holds, Holds-impl}
use dromajo.Virtio.Kept.{SameQueues-IsSound}
use dromajo.Virtio.Dma.{InOne, virtio_memcpy-memcpy}
use dromajo.Virtio.Queue.{
  VirtioDesc, DeviceRecv, queue_notify, notify_loop, get_desc_rw_size, get_desc, read_sizes,
  ring_slot, avail_idx, next_avail, virtio_consume_desc,
}
use dromajo.Virtio.Config.{virtio_config_read, virtio_config_write}
use dromajo.Virtio.Mmio.{
  virtio_mmio_write, virtio_mmio_queue_desc_low, virtio_mmio_queue_desc_high,
  virtio_mmio_queue_avail_low, virtio_mmio_queue_avail_high, virtio_mmio_queue_used_low,
  virtio_mmio_queue_used_high,
}
use dromajo.Virtio.Pci.{virtio_pci_write}
use dromajo.Virtio.Block.{BlockResult, started, VirtioBlockDevice, virtio_block_recv_request}
use dromajo.Virtio.Net.{virtio_net_recv_request}
use dromajo.Virtio.Console.{virtio_console_recv_request}
use dromajo.Virtio.Input.{virtio_input_recv_request}
use dromajo.Virtio.Devices.{SameOut, virtio_input_recv_request-SameQueues, recv_request-SameQueues}
use dromajo.Virtio.Transport.{virtio_write-IsSound, ring_slot-mod}
use dromajo.Virtio.Turns.{Run, queue_notify-Run}
use dromajo.Virtio.Busy.{Untouched, queue_notify-busy}
use dromajo.Virtio.Used.{UsedRing, virtio_consume_desc-published}
use dromajo.Virtio.Chains.{Circle, queue_notify-Circle}
use dromajo.Virtio.Bounds.{virtio_config-bounds}
use dromajo.Virtio.Address.{ReadBack, write_register-ReadBack}

abbrev guest_bytes : ℕ → ℕ
guest_bytes i = if i == 0x2002 then 1 else if i == 0x100c then 1 else 0

abbrev guest_ram : PhysMemoryRange
guest_ram = record {
  addr = 0x8000_0000;
  org_size = 0x1_0000;
  size = 0x1_0000;
  is_ram = true;
  devram_flags = 0;
  phys_mem = guest_bytes;
  has_dirty_bits = false;
  dirty_bits = [];
  dirty_bits_other = [];
  devio_flags = 0;
}

abbrev live_queue : QueueState
live_queue = record {
  ready = 1;
  num = 8;
  last_avail_idx = 0;
  desc_addr = 0x8000_1000;
  avail_addr = 0x8000_2000;
  used_addr = 0x8000_3000;
  manual_recv = false;
}

abbrev device : VirtioDevice
device = record {
  mem_map = guest_ram ∷ [];
  irq_level = 0;
  int_status = 0;
  status = 0xf;
  device_features_sel = 0;
  queue_sel = 0;
  queue = replicate 8 live_queue;
  device_id = 2;
  vendor_id = 0xffff;
  device_features = 0;
  config_space_size = 8;
  config_space = λ i. i;
}

abbrev no_desc : VirtioDesc
no_desc i = 0

live_queue-QueueOk : QueueOk live_queue
live_queue-QueueOk = record {
  ready_bit = omega arith;
  num_pos = omega arith;
  num_word = omega arith;
  num_power = refl;
  last_word = omega arith;
  desc_word = omega arith;
  avail_word = omega arith;
  used_word = omega arith;
}

device-IsSound : IsSound device
device-IsSound =
    let ok = live_queue-QueueOk in
    record {
      sel = omega arith;
      count = refl;
      each = (ok, (ok, (ok, (ok, (ok, (ok, (ok, (ok, tt))))))));
    }

in_ram-InOne :
    (addr count : ℕ)
    → 0x8000_0000 ≤ addr
    → addr + count ≤ 0x8001_0000
    → InOne device.mem_map 0 guest_ram addr count
unfolding get_phys_mem_range contains
in_ram-InOne addr count low high = record {
  stands = refl;
  ram = refl;
  low = low;
  inside = omega arith;
  found = λ a le lt. ground arith;
}

index_one : avail_idx device 0 ≡ 1
unfolding avail_idx virtio_read16 get_ram_ptr get_phys_mem_range contains read_ram load_le
index_one = refl

abbrev keep_config : VirtioDevice × ℕ → Option (VirtioDevice × ℕ)
keep_config sd = some sd

abbrev input_handler : DeviceRecv ℕ
input_handler = virtio_input_recv_request

input_handler-SoundOut :
    (sd : VirtioDevice × ℕ) (q i r w : ℕ) → IsSound sd.0 → Holds SoundOut (input_handler sd q i r w)
input_handler-SoundOut sd q i r w h =
    Holds-impl (SameOut sd.0) SoundOut (input_handler sd q i r w)
      (λ o e. SameQueues-IsSound sd.0 o.0.0 h e)
      (virtio_input_recv_request-SameQueues 8 no_desc sd q i r w)

virtio_write-IsSound_example :
    Holds SoundPair (virtio_mmio_write 8 no_desc keep_config input_handler (device, 0) 0x38 16 2)
    × Holds SoundPair (virtio_pci_write 8 no_desc keep_config input_handler (device, 0) 0x38 16 2)
virtio_write-IsSound_example =
    virtio_write-IsSound keep_config (λ sd h. h) 8 no_desc input_handler input_handler-SoundOut
      (device, 0) 0x38 16 2 device-IsSound (omega arith)

ring_slot-mod_example :
    (ring_slot (queue_at device 0) 13 ≡ 13 % (queue_at device 0).num)
    × (ring_slot (queue_at device 0) 13 < (queue_at device 0).num)
ring_slot-mod_example = ring_slot-mod device 0 13 device-IsSound

queue_notify-Run_example :
    Run 8 no_desc input_handler 0
      (device, 0)
      (avail_idx device 0)
      (queue_notify 8 no_desc input_handler (device, 0) 0)
queue_notify-Run_example =
    queue_notify-Run 8 no_desc input_handler 0
      (λ sd i r w. virtio_input_recv_request-SameQueues 8 no_desc sd 0 i r w) (device, 0)
      device-IsSound (omega arith) (omega (arith, index_one)) refl

virtio_memcpy-memcpy_example :
    (virtio_memcpy_to_ram device 0x8000_0ff0 (λ i. i) 0 32
      ≡ some (
        record device {
          mem_map = copy_in device.mem_map 0 (0x8000_0ff0 - guest_ram.addr) (λ i. i) 0 32;
        },
        true,
      ))
    × (virtio_memcpy_from_ram device (λ i. i) 0 0x8000_0ff0 32
        ≡ some (memcpy (λ i. i) 0 guest_ram.phys_mem (0x8000_0ff0 - guest_ram.addr) 32, true))
virtio_memcpy-memcpy_example =
    virtio_memcpy-memcpy device 0 guest_ram 0x8000_0ff0 (λ i. i) 0 32
      (in_ram-InOne 0x8000_0ff0 32 (omega arith) (omega arith))

abbrev disk_read : ℕ → ℕ → (ℕ → ℕ) → ℕ → ℕ × (ℕ → ℕ) × BlockResult
disk_read world sector buf n = (world, buf, started)

abbrev disk_write : ℕ → ℕ → (ℕ → ℕ) → ℕ → ℕ × BlockResult
disk_write world sector buf n = (world, started)

abbrev busy_disk : VirtioBlockDevice ℕ
busy_disk = record {
  bs = 0;
  req_in_progress = true;
  req = record { type = 0; buf = λ i. 0; write_size = 513; queue_idx = 0; desc_idx = 0 };
}

-- A guest whose only request is a chain of one descriptor.
abbrev ended_bytes : ℕ → ℕ
ended_bytes i = if i == 0x2002 then 1 else 0

abbrev ended_device : VirtioDevice
ended_device = record device { mem_map = record guest_ram { phys_mem = ended_bytes } ∷ [] }

ended_device-IsSound : IsSound ended_device
ended_device-IsSound = record {
  sel = device-IsSound.sel;
  count = device-IsSound.count;
  each = device-IsSound.each;
}

ended_index : avail_idx ended_device 0 ≡ 1
unfolding avail_idx virtio_read16 get_ram_ptr get_phys_mem_range contains read_ram load_le
ended_index = refl

abbrev notified : Option (VirtioDevice × VirtioBlockDevice ℕ)
notified =
    queue_notify 8 no_desc (virtio_block_recv_request 8 no_desc disk_read disk_write)
      (ended_device, busy_disk) 0

abbrev has_device : Option (VirtioDevice × VirtioBlockDevice ℕ) → Bool
has_device none = false
has_device (some r) = true

notified_returns : has_device notified ≡ true
unfolding queue_notify notify_loop avail_idx virtio_read16 get_ram_ptr get_phys_mem_range contains
    read_ram load_le get_desc_rw_size get_desc virtio_memcpy_from_ram from_ram next_avail ring_slot
    in_page read_sizes memcpy bytes_at virtio_block_recv_request
notified_returns = refl

queue_notify-busy_example :
    Holds (Untouched 8 no_desc disk_read disk_write (ended_device, busy_disk)) notified
queue_notify-busy_example =
    queue_notify-busy 8 no_desc disk_read disk_write (ended_device, busy_disk) 0
      ended_device-IsSound (omega arith) (omega (arith, ended_index)) refl refl

device_ring : UsedRing device 0 0 guest_ram
device_ring = record {
  sound = device-IsSound;
  aligned = refl;
  one = in_ram-InOne 0x8000_3000 68 (omega arith) (omega arith);
}

device-Circle : Circle device 0 (next_avail device 0) 0 guest_ram
unfolding next_avail ring_slot virtio_read16 get_ram_ptr get_phys_mem_range contains read_ram
    load_le
device-Circle = record {
  one = in_ram-InOne 0x8000_1000 16 (omega arith) (omega arith);
  has_next = refl;
  itself = refl;
}

queue_notify-Circle_example : queue_notify 8 no_desc input_handler (device, 0) 0 ≡ none
queue_notify-Circle_example =
    queue_notify-Circle device 0 0 guest_ram device-Circle (omega (arith, index_one)) refl 8 no_desc
      input_handler 0

abbrev after_request : VirtioDevice
after_request = virtio_consume_desc device 0 3 16

abbrev first_entry : ℕ
first_entry =
    0x8000_3000 + 4 + virtio_read16 device ((0x8000_3000 + 2) % 2 ^ 64) % 8 * 8 - 0x8000_0000

virtio_consume_desc-published_example :
    (virtio_read16 after_request ((0x8000_3000 + 2) % 2 ^ 64)
      ≡ (virtio_read16 device ((0x8000_3000 + 2) % 2 ^ 64) + 1) % 2 ^ 16)
    × (load_le (bytes_at after_request.mem_map 0) 4 first_entry ≡ 3 % 2 ^ 32)
    × (load_le (bytes_at after_request.mem_map 0) 4 (first_entry + 4) ≡ 16 % 2 ^ 32)
    × (after_request.int_status ≡ bit_or 0 1)
    × (after_request.irq_level ≡ 1)
virtio_consume_desc-published_example =
    virtio_consume_desc-published device 0 0 guest_ram device_ring 3 16

abbrev world : ℕ
world = 0

recv_request-SameQueues_example :
    Holds
      (SameOut device)
      (virtio_block_recv_request 8 no_desc disk_read disk_write (device, busy_disk) 1 0 16 513)
    × Holds
        (SameOut device)
        (virtio_net_recv_request 8 no_desc (λ buf n w. w + n) (device, world) 1 0 16 513)
    × Holds
        (SameOut device)
        (virtio_console_recv_request 8 no_desc (λ buf n w. w + n) (device, world) 1 0 16 513)
    × Holds (SameOut device) (virtio_input_recv_request (device, world) 1 0 16 513)
recv_request-SameQueues_example =
    recv_request-SameQueues 8 no_desc disk_read disk_write (λ buf n w. w + n) device busy_disk world
      1 0 16 513

virtio_config-bounds_example :
    (virtio_config_read (record device { config_space = λ i. if ltb i 8 then i else 7 }) 6 1
      ≡ virtio_config_read device 6 1)
    × Holds
        (λ (out : VirtioDevice × ℕ). (i : ℕ) → 8 ≤ i → out.0.config_space i ≡ i)
        (virtio_config_write (λ (sd : VirtioDevice × ℕ). some sd) (device, 0) 6 0xabcd 1)
virtio_config-bounds_example =
    virtio_config-bounds device (omega arith) (omega arith) (λ i. if ltb i 8 then i else 7) 6 0xabcd
      1 (λ i lt. ground arith)

write_register-ReadBack_example :
    ReadBack device device-IsSound 0x8765_4000 0x12
      (omega arith)
      (omega arith)
      (λ qs. qs.desc_addr)
      virtio_mmio_queue_desc_low
      virtio_mmio_queue_desc_high
    × ReadBack device device-IsSound 0x8765_4000 0x12
        (omega arith)
        (omega arith)
        (λ qs. qs.avail_addr)
        virtio_mmio_queue_avail_low
        virtio_mmio_queue_avail_high
    × ReadBack device device-IsSound 0x8765_4000 0x12
        (omega arith)
        (omega arith)
        (λ qs. qs.used_addr)
        virtio_mmio_queue_used_low
        virtio_mmio_queue_used_high
write_register-ReadBack_example =
    write_register-ReadBack device device-IsSound 0x8765_4000 0x12 (omega arith) (omega arith)
