-- ===== src/Virtio/Transport.antt =====
-- A write of a register by the guest, on memory-mapped I/O or on the PCI bus, and the well-formedness
-- of the device behind it; the slot of a ring that an index stands for.
use dromajo.Prelude.{
  ℕ, ◌+◌, ◌-◌, ◌/◌, ◌%◌, ◌^◌, ◌<◌, ◌≡◌, ap, sym, ◌∙◌, not, Option, some, arith, ◌==◌, ltb, leb,
  bit_and,
}
use dromajo.Prelude.Bits.{bit_and-low}
use dromajo.Virtio.{VirtioDevice, queue_at, max_queue}
use dromajo.Virtio.PowerOfTwo.{power_of_two}
use dromajo.Virtio.Sound.{
  IsSound, SoundPair, SoundOut, queue_at-QueueOk, write_register-IsSound, write_common-IsSound,
}
use dromajo.Prelude.Returns.{Holds, either_Holds}
use dromajo.Virtio.Queue.{VirtioDesc, DeviceRecv, queue_notify, ring_slot}
use dromajo.Virtio.Notify.{queue_notify-IsSound}
use dromajo.Virtio.Config.{config_limit, put_config, virtio_config_write}
use dromajo.Virtio.Mmio.{virtio_mmio_config, virtio_mmio_queue_notify, virtio_mmio_write}
use dromajo.Virtio.Pci.{virtio_pci_write}

put_config-IsSound :
    (s : VirtioDevice) (n offset val : ℕ) → IsSound s → IsSound (put_config s n offset val)
put_config-IsSound s n offset val h = record { sel = h.sel; count = h.count; each = h.each }

module _ {D : Type 0} (config_write : VirtioDevice × D → Option (VirtioDevice × D))
    (write-IsSound : (sd : VirtioDevice × D)
      → IsSound sd.0
      → Holds SoundPair (config_write sd)) where
  virtio_config_write-IsSound :
      (sd : VirtioDevice × D) (offset val size_log2 : ℕ)
      → IsSound sd.0
      → Holds SoundPair (virtio_config_write config_write sd offset val size_log2)
  unfolding virtio_config_write
  virtio_config_write-IsSound sd offset val size_log2 h =
      let put = λ (n : ℕ).
        write-IsSound (put_config sd.0 n offset val, sd.1)
          (put_config-IsSound sd.0 n offset val h) in
      let P = SoundPair in
      either_Holds P (size_log2 == 0) _ _
        (either_Holds P (ltb offset sd.0.config_space_size) _ (some sd) (put 1) h)
        (either_Holds P (size_log2 == 1) _ _
          (either_Holds P (ltb offset (config_limit sd.0 1)) _ (some sd) (put 2) h)
          (either_Holds P (size_log2 == 2) _ (some sd)
            (either_Holds P (ltb offset (config_limit sd.0 3)) _ (some sd) (put 4) h) h))

  module _ (chain : ℕ) (uninit : VirtioDesc) (device_recv : DeviceRecv D)
      (recv-IsSound : (sd : VirtioDevice × D) (q i r w : ℕ)
        → IsSound sd.0
        → Holds SoundOut (device_recv sd q i r w)) where
    -- A write of a 32-bit value to any register, on memory-mapped I/O or on the PCI bus, leaves a
    -- well-formed device, if it returns; so do the device's own callbacks, by hypothesis.
    pub virtio_write-IsSound :
        (sd : VirtioDevice × D) (offset val size_log2 : ℕ)
        → IsSound sd.0
        → val < 2 ^ 32
        → Holds SoundPair
            (virtio_mmio_write chain uninit config_write device_recv sd offset val size_log2)
          × Holds SoundPair
              (virtio_pci_write chain uninit config_write device_recv sd offset val size_log2)
    unfolding virtio_mmio_write virtio_pci_write
    virtio_write-IsSound sd offset val size_log2 h w =
        let P = SoundPair in
        let config = λ (o : ℕ). virtio_config_write-IsSound sd o val size_log2 h in
        let notify =
          either_Holds P (ltb val max_queue) (queue_notify chain uninit device_recv sd val)
            (some sd) (queue_notify-IsSound chain uninit device_recv recv-IsSound sd val h) h in
        (
          either_Holds P (leb virtio_mmio_config offset) _ _ (config (offset - virtio_mmio_config))
              (either_Holds P (not (size_log2 == 2)) (some sd) _ h (
                either_Holds P (offset == virtio_mmio_queue_notify) _ _ notify
                  (write_register-IsSound sd.0 h offset val w))),
          either_Holds P (offset / 2 ^ 12 == 0) _ _
              (write_common-IsSound sd.0 h (bit_and offset 0xfff) val size_log2 w)
              (either_Holds P (offset / 2 ^ 12 == 2) _ _ (config (bit_and offset 0xfff))
                (either_Holds P (offset / 2 ^ 12 == 3) _ (some sd) notify h)),
        )

-- For a well-formed device, the slot that the code masks out of an index is the remainder of the index
-- by the length of the queue, and stands inside the ring.
pub ring_slot-mod :
    (s : VirtioDevice) (q idx : ℕ)
    → IsSound s
    → (ring_slot (queue_at s q) idx ≡ idx % (queue_at s q).num)
      × (ring_slot (queue_at s q) idx < (queue_at s q).num)
unfolding ring_slot
ring_slot-mod s q idx h =
    let ok = queue_at-QueueOk s q h in
    let n = (queue_at s q).num in
    let (k, lt, e) = power_of_two 32 n ok.num_word ok.num_pos ok.num_power in
    let mask : (n + (2 ^ 32 - 1)) % 2 ^ 32 ≡ 2 ^ k - 1 =
      omega (arith, ok.num_pos, ok.num_word, e) in
    let slot : bit_and idx ((n + (2 ^ 32 - 1)) % 2 ^ 32) ≡ idx % n =
      ap (λ (m : ℕ). bit_and idx m) mask ∙ bit_and-low k idx ∙ ap (λ (m : ℕ). idx % m) (sym e) in
    (slot, omega (arith, slot, ok.num_pos))
