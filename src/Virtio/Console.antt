-- ===== src/Virtio/Console.antt =====
-- The console device of src/virtio.cpp. The character device is the world `W`.
use dromajo.Prelude.{
  ℕ, Bool, true, false, not, Option, none, some, ◌==◌, if◌then◌else◌, bit_or, ◌>>=◌,
}
use dromajo.Memory.{store_le}
use dromajo.Virtio.{VirtioDevice, queue_at, set_irq}
use dromajo.Virtio.Queue.{
  VirtioDesc, memcpy_from_queue, memcpy_to_queue, virtio_consume_desc, get_desc_rw_size, avail_idx,
  next_avail, advance,
}

unfoldable pub virtio_config_change_notify : VirtioDevice → VirtioDevice
virtio_config_change_notify s = set_irq (record s { int_status = bit_or s.int_status 2 }) 1

-- The descriptor that the guest has left in queue 0 for the device to fill, if the queue is ready.
unfoldable pub receive_desc : VirtioDevice → Option ℕ
receive_desc s =
    let qs = queue_at s 0 in
    if qs.ready == 0
    then none
    else if qs.last_avail_idx == avail_idx s 0
    then none
    else some (next_avail s 0)

-- A buffer is put in that descriptor, which is handed back.
unfoldable pub fill_desc : ℕ → VirtioDesc → VirtioDevice → ℕ → (ℕ → ℕ) → ℕ → Option VirtioDevice
fill_desc chain uninit s desc_idx buf buf_len =
    memcpy_to_queue chain uninit s 0 desc_idx 0 buf buf_len
    >>= (λ r. some (advance (virtio_consume_desc r.0 0 desc_idx buf_len) 0))

unfoldable pub virtio_console_can_write_data : VirtioDevice → Bool
virtio_console_can_write_data s =
    let qs = queue_at s 0 in
    if qs.ready == 0 then false else not (qs.last_avail_idx == avail_idx s 0)

unfoldable pub virtio_console_get_write_len : ℕ → VirtioDesc → VirtioDevice → Option ℕ
virtio_console_get_write_len chain uninit s = elim (receive_desc s) [
  | none ↦ some 0
  | some i ↦
      get_desc_rw_size chain uninit s 0 i
      >>= (λ sizes. elim sizes [ none ↦ some 0 | some rw ↦ some rw.1 ])
]

unfoldable pub virtio_console_write_data :
    ℕ → VirtioDesc → VirtioDevice → (ℕ → ℕ) → ℕ → Option (VirtioDevice × ℕ)
virtio_console_write_data chain uninit s buf buf_len = elim (receive_desc s) [
  | none ↦ some (s, 0)
  | some i ↦ fill_desc chain uninit s i buf buf_len >>= (λ t. some (t, buf_len))
]

unfoldable pub virtio_console_resize_event : VirtioDevice → ℕ → ℕ → VirtioDevice
virtio_console_resize_event s width height =
    let sized = store_le (store_le s.config_space 2 0 width) 2 2 height in
    virtio_config_change_notify (record s { config_space = sized })

module _ {W : Type 0} (chain : ℕ) (uninit : VirtioDesc) (write_data : (ℕ → ℕ) → ℕ → W → W) where
  unfoldable pub virtio_console_recv_request :
      VirtioDevice × W → ℕ → ℕ → ℕ → ℕ → Option ((VirtioDevice × W) × Bool)
  virtio_console_recv_request (s, w) queue_idx desc_idx read_size write_size =
      if queue_idx == 1
      then memcpy_from_queue chain uninit s uninit queue_idx desc_idx 0 read_size >>= (λ b.
        some ((virtio_consume_desc s queue_idx desc_idx 0, write_data b.0 read_size w), true))
      else some ((s, w), true)
