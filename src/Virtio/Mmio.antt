-- ===== src/Virtio/Mmio.antt =====
-- The registers of a VirtIO device on memory-mapped I/O: virtio_mmio_read and virtio_mmio_write of
-- src/virtio.cpp. `config_write` and `device_recv` are the device's callbacks.
use dromajo.Prelude.{
  ℕ, ◌+◌, ◌-◌, ◌*◌, ◌/◌, ◌%◌, ◌^◌, ◌&&◌, not, Option, some, ◌==◌, ltb, leb, if◌then◌else◌, bit_and,
  bit_or,
}
use dromajo.Prelude.Bits.{bit_not}
use dromajo.Virtio.{
  VirtioDevice, QueueState, queue_at, set_queue, set_irq, virtio_reset, max_queue, max_queue_num,
}
use dromajo.Virtio.Queue.{DeviceRecv, VirtioDesc, queue_notify}
use dromajo.Virtio.Config.{virtio_config_read, virtio_config_write}

abbrev pub virtio_mmio_magic_value : ℕ
virtio_mmio_magic_value = 0x0

abbrev pub virtio_mmio_version : ℕ
virtio_mmio_version = 0x4

abbrev pub virtio_mmio_device_id : ℕ
virtio_mmio_device_id = 0x8

abbrev pub virtio_mmio_vendor_id : ℕ
virtio_mmio_vendor_id = 0xc

abbrev pub virtio_mmio_device_features : ℕ
virtio_mmio_device_features = 0x10

abbrev pub virtio_mmio_device_features_sel : ℕ
virtio_mmio_device_features_sel = 0x14

abbrev pub virtio_mmio_queue_sel : ℕ
virtio_mmio_queue_sel = 0x30

abbrev pub virtio_mmio_queue_num_max : ℕ
virtio_mmio_queue_num_max = 0x34

abbrev pub virtio_mmio_queue_num : ℕ
virtio_mmio_queue_num = 0x38

abbrev pub virtio_mmio_queue_ready : ℕ
virtio_mmio_queue_ready = 0x44

abbrev pub virtio_mmio_queue_notify : ℕ
virtio_mmio_queue_notify = 0x50

abbrev pub virtio_mmio_interrupt_status : ℕ
virtio_mmio_interrupt_status = 0x60

abbrev pub virtio_mmio_interrupt_ack : ℕ
virtio_mmio_interrupt_ack = 0x64

abbrev pub virtio_mmio_status : ℕ
virtio_mmio_status = 0x70

abbrev pub virtio_mmio_queue_desc_low : ℕ
virtio_mmio_queue_desc_low = 0x80

abbrev pub virtio_mmio_queue_desc_high : ℕ
virtio_mmio_queue_desc_high = 0x84

abbrev pub virtio_mmio_queue_avail_low : ℕ
virtio_mmio_queue_avail_low = 0x90

abbrev pub virtio_mmio_queue_avail_high : ℕ
virtio_mmio_queue_avail_high = 0x94

abbrev pub virtio_mmio_queue_used_low : ℕ
virtio_mmio_queue_used_low = 0xa0

abbrev pub virtio_mmio_queue_used_high : ℕ
virtio_mmio_queue_used_high = 0xa4

abbrev pub virtio_mmio_config : ℕ
virtio_mmio_config = 0x100

abbrev pub selected : VirtioDevice → QueueState
selected s = queue_at s s.queue_sel

abbrev pub set_selected : VirtioDevice → QueueState → VirtioDevice
set_selected s qs = set_queue s s.queue_sel qs

-- The feature bits of the half that is selected; the upper half has VIRTIO_F_VERSION_1.
unfoldable pub selected_features : VirtioDevice → ℕ
selected_features s =
    if s.device_features_sel == 0
    then s.device_features
    else if s.device_features_sel == 1
    then 1
    else 0

unfoldable pub read_register : VirtioDevice → ℕ → ℕ
read_register s offset =
    if offset == virtio_mmio_magic_value
    then 0x74726976
    else if offset == virtio_mmio_version
    then 2
    else if offset == virtio_mmio_device_id
    then s.device_id
    else if offset == virtio_mmio_vendor_id
    then s.vendor_id
    else if offset == virtio_mmio_device_features
    then selected_features s
    else if offset == virtio_mmio_device_features_sel
    then s.device_features_sel
    else if offset == virtio_mmio_queue_sel
    then s.queue_sel
    else if offset == virtio_mmio_queue_num_max
    then max_queue_num
    else if offset == virtio_mmio_queue_num
    then (selected s).num
    else if offset == virtio_mmio_queue_desc_low
    then (selected s).desc_addr % 2 ^ 32
    else if offset == virtio_mmio_queue_avail_low
    then (selected s).avail_addr % 2 ^ 32
    else if offset == virtio_mmio_queue_used_low
    then (selected s).used_addr % 2 ^ 32
    else if offset == virtio_mmio_queue_desc_high
    then (selected s).desc_addr / 2 ^ 32
    else if offset == virtio_mmio_queue_avail_high
    then (selected s).avail_addr / 2 ^ 32
    else if offset == virtio_mmio_queue_used_high
    then (selected s).used_addr / 2 ^ 32
    else if offset == virtio_mmio_queue_ready
    then (selected s).ready
    else if offset == virtio_mmio_interrupt_status
    then s.int_status
    else if offset == virtio_mmio_status
    then s.status
    else 0

unfoldable pub virtio_mmio_read : VirtioDevice → ℕ → ℕ → Option ℕ
virtio_mmio_read s offset size_log2 =
    if leb virtio_mmio_config offset
    then virtio_config_read s (offset - virtio_mmio_config) size_log2
    else some (if size_log2 == 2 then read_register s offset else 0)

unfoldable pub set_low32 : ℕ → ℕ → ℕ
set_low32 paddr val = bit_or (bit_and paddr (bit_not 64 0xffffffff)) val

unfoldable pub set_high32 : ℕ → ℕ → ℕ
set_high32 paddr val = bit_or (bit_and paddr 0xffffffff) (val * 2 ^ 32 % 2 ^ 64)

-- A length that is a power of two; zero and other numbers are passed over.
unfoldable pub set_num : VirtioDevice → ℕ → VirtioDevice
set_num s val =
    if bit_and val ((val + (2 ^ 32 - 1)) % 2 ^ 32) == 0 && ltb 0 val
    then set_selected s (record (selected s) { num = val })
    else s

-- A status of zero resets the device.
unfoldable pub set_status : VirtioDevice → ℕ → VirtioDevice
set_status s val =
    let t = record s { status = val } in if val == 0 then virtio_reset (set_irq t 0) else t

unfoldable pub select_queue : VirtioDevice → ℕ → VirtioDevice
select_queue s val = if ltb val max_queue then record s { queue_sel = val } else s

unfoldable pub acknowledge : VirtioDevice → ℕ → VirtioDevice
acknowledge s val =
    let t = record s { int_status = bit_and s.int_status (bit_not 32 val) } in
    if t.int_status == 0 then set_irq t 0 else t

-- The registers that do not call the device.
unfoldable pub write_register : VirtioDevice → ℕ → ℕ → VirtioDevice
write_register s offset val =
    let qs = selected s in
    if offset == virtio_mmio_device_features_sel
    then record s { device_features_sel = val }
    else if offset == virtio_mmio_queue_sel
    then select_queue s val
    else if offset == virtio_mmio_queue_num
    then set_num s val
    else if offset == virtio_mmio_queue_desc_low
    then set_selected s (record qs { desc_addr = set_low32 qs.desc_addr val })
    else if offset == virtio_mmio_queue_avail_low
    then set_selected s (record qs { avail_addr = set_low32 qs.avail_addr val })
    else if offset == virtio_mmio_queue_used_low
    then set_selected s (record qs { used_addr = set_low32 qs.used_addr val })
    else if offset == virtio_mmio_queue_desc_high
    then set_selected s (record qs { desc_addr = set_high32 qs.desc_addr val })
    else if offset == virtio_mmio_queue_avail_high
    then set_selected s (record qs { avail_addr = set_high32 qs.avail_addr val })
    else if offset == virtio_mmio_queue_used_high
    then set_selected s (record qs { used_addr = set_high32 qs.used_addr val })
    else if offset == virtio_mmio_status
    then set_status s val
    else if offset == virtio_mmio_queue_ready
    then set_selected s (record qs { ready = bit_and val 1 })
    else if offset == virtio_mmio_interrupt_ack
    then acknowledge s val
    else s

module _ {D : Type 0} (chain : ℕ) (uninit : VirtioDesc)
    (config_write : VirtioDevice × D → Option (VirtioDevice × D)) (device_recv : DeviceRecv D) where
  unfoldable pub virtio_mmio_write : VirtioDevice × D → ℕ → ℕ → ℕ → Option (VirtioDevice × D)
  virtio_mmio_write sd offset val size_log2 =
      if leb virtio_mmio_config offset
      then virtio_config_write config_write sd (offset - virtio_mmio_config) val size_log2
      else if not (size_log2 == 2)
      then some sd
      else if offset == virtio_mmio_queue_notify
      then if ltb val max_queue then queue_notify chain uninit device_recv sd val else some sd
      else some (write_register sd.0 offset val, sd.1)
