-- ===== src/Virtio/Pci.antt =====
-- The registers of a VirtIO device on the PCI bus: virtio_pci_read and virtio_pci_write of
-- src/virtio.cpp. `config_write` and `device_recv` are the device's callbacks.
use dromajo.Prelude.{ℕ, ◌/◌, ◌%◌, ◌^◌, ◌&&◌, Option, some, ◌==◌, ltb, if◌then◌else◌, bit_and, ◌>>=◌}
use dromajo.Virtio.{VirtioDevice, set_irq, max_queue, max_queue_num}
use dromajo.Virtio.Queue.{DeviceRecv, VirtioDesc, queue_notify}
use dromajo.Virtio.Mmio.{
  selected, set_selected, selected_features, set_low32, set_high32, set_num, set_status,
  select_queue,
}
use dromajo.Virtio.Config.{virtio_config_read, virtio_config_write}

abbrev pub virtio_pci_device_feature_sel : ℕ
virtio_pci_device_feature_sel = 0x0

abbrev pub virtio_pci_device_feature : ℕ
virtio_pci_device_feature = 0x4

abbrev pub virtio_pci_num_queues : ℕ
virtio_pci_num_queues = 0x12

abbrev pub virtio_pci_device_status : ℕ
virtio_pci_device_status = 0x14

abbrev pub virtio_pci_queue_sel : ℕ
virtio_pci_queue_sel = 0x16

abbrev pub virtio_pci_queue_size : ℕ
virtio_pci_queue_size = 0x18

abbrev pub virtio_pci_queue_enable : ℕ
virtio_pci_queue_enable = 0x1c

abbrev pub virtio_pci_queue_desc_low : ℕ
virtio_pci_queue_desc_low = 0x20

abbrev pub virtio_pci_queue_desc_high : ℕ
virtio_pci_queue_desc_high = 0x24

abbrev pub virtio_pci_queue_avail_low : ℕ
virtio_pci_queue_avail_low = 0x28

abbrev pub virtio_pci_queue_avail_high : ℕ
virtio_pci_queue_avail_high = 0x2c

abbrev pub virtio_pci_queue_used_low : ℕ
virtio_pci_queue_used_low = 0x30

abbrev pub virtio_pci_queue_used_high : ℕ
virtio_pci_queue_used_high = 0x34

-- The words of the common configuration, by the size of the access.
unfoldable pub read_common32 : VirtioDevice → ℕ → ℕ
read_common32 s offset =
    if offset == virtio_pci_device_feature
    then selected_features s
    else if offset == virtio_pci_device_feature_sel
    then s.device_features_sel
    else if offset == virtio_pci_queue_desc_low
    then (selected s).desc_addr % 2 ^ 32
    else if offset == virtio_pci_queue_avail_low
    then (selected s).avail_addr % 2 ^ 32
    else if offset == virtio_pci_queue_used_low
    then (selected s).used_addr % 2 ^ 32
    else if offset == virtio_pci_queue_desc_high
    then (selected s).desc_addr / 2 ^ 32
    else if offset == virtio_pci_queue_avail_high
    then (selected s).avail_addr / 2 ^ 32
    else if offset == virtio_pci_queue_used_high
    then (selected s).used_addr / 2 ^ 32
    else 0

unfoldable pub read_common16 : VirtioDevice → ℕ → ℕ
read_common16 s offset =
    if offset == virtio_pci_num_queues
    then max_queue_num
    else if offset == virtio_pci_queue_sel
    then s.queue_sel
    else if offset == virtio_pci_queue_size
    then (selected s).num
    else if offset == virtio_pci_queue_enable
    then (selected s).ready
    else 0

unfoldable pub read_common : VirtioDevice → ℕ → ℕ → ℕ
read_common s offset size_log2 =
    if size_log2 == 2
    then read_common32 s offset
    else if size_log2 == 1
    then read_common16 s offset
    else if size_log2 == 0 && offset == virtio_pci_device_status
    then s.status
    else 0

-- Bits 12 and up of an offset select the common configuration, the interrupt status, which a read
-- clears, the device's configuration, or the notification.
unfoldable pub virtio_pci_read : VirtioDevice → ℕ → ℕ → Option (VirtioDevice × ℕ)
virtio_pci_read s offset1 size_log2 =
    let offset = bit_and offset1 0xfff in
    let block = offset1 / 2 ^ 12 in
    if block == 0
    then some (s, read_common s offset size_log2)
    else if block == 1
    then if offset == 0 && size_log2 == 0
      then some (set_irq (record s { int_status = 0 }) 0, s.int_status)
      else some (s, 0)
    else if block == 2
    then virtio_config_read s offset size_log2 >>= (λ val. some (s, val))
    else some (s, 0)

unfoldable pub write_common32 : VirtioDevice → ℕ → ℕ → VirtioDevice
write_common32 s offset val =
    let qs = selected s in
    if offset == virtio_pci_device_feature_sel
    then record s { device_features_sel = val }
    else if offset == virtio_pci_queue_desc_low
    then set_selected s (record qs { desc_addr = set_low32 qs.desc_addr val })
    else if offset == virtio_pci_queue_avail_low
    then set_selected s (record qs { avail_addr = set_low32 qs.avail_addr val })
    else if offset == virtio_pci_queue_used_low
    then set_selected s (record qs { used_addr = set_low32 qs.used_addr val })
    else if offset == virtio_pci_queue_desc_high
    then set_selected s (record qs { desc_addr = set_high32 qs.desc_addr val })
    else if offset == virtio_pci_queue_avail_high
    then set_selected s (record qs { avail_addr = set_high32 qs.avail_addr val })
    else if offset == virtio_pci_queue_used_high
    then set_selected s (record qs { used_addr = set_high32 qs.used_addr val })
    else s

unfoldable pub write_common16 : VirtioDevice → ℕ → ℕ → VirtioDevice
write_common16 s offset val =
    if offset == virtio_pci_queue_sel
    then select_queue s val
    else if offset == virtio_pci_queue_size
    then set_num s val
    else if offset == virtio_pci_queue_enable
    then set_selected s (record (selected s) { ready = bit_and val 1 })
    else s

unfoldable pub write_common : VirtioDevice → ℕ → ℕ → ℕ → VirtioDevice
write_common s offset val size_log2 =
    if size_log2 == 2
    then write_common32 s offset val
    else if size_log2 == 1
    then write_common16 s offset val
    else if size_log2 == 0 && offset == virtio_pci_device_status
    then set_status s val
    else s

module _ {D : Type 0} (chain : ℕ) (uninit : VirtioDesc)
    (config_write : VirtioDevice × D → Option (VirtioDevice × D)) (device_recv : DeviceRecv D) where
  unfoldable pub virtio_pci_write : VirtioDevice × D → ℕ → ℕ → ℕ → Option (VirtioDevice × D)
  virtio_pci_write sd offset1 val size_log2 =
      let offset = bit_and offset1 0xfff in
      let block = offset1 / 2 ^ 12 in
      if block == 0
      then some (write_common sd.0 offset val size_log2, sd.1)
      else if block == 2
      then virtio_config_write config_write sd offset val size_log2
      else if block == 3
      then if ltb val max_queue then queue_notify chain uninit device_recv sd val else some sd
      else some sd
