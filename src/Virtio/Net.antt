-- ===== src/Virtio/Net.antt =====
-- The network device of src/virtio.cpp. The Ethernet device is the world `W`.
use dromajo.Prelude.{
  ℕ, ◌+◌, ◌-◌, ◌%◌, ◌^◌, Bool, true, false, not, Option, none, some, ◌==◌, if◌then◌else◌, ◌>>=◌,
}
use dromajo.Virtio.{VirtioDevice, queue_at}
use dromajo.Virtio.Queue.{
  VirtioDesc, lt_int, memcpy_from_queue, memcpy_to_queue, virtio_consume_desc, get_desc_rw_size,
  avail_idx, advance,
}
use dromajo.Virtio.Console.{receive_desc}

-- `sizeof(VIRTIONetHeader)`.
abbrev pub header_size : ℕ
header_size = 12

unfoldable pub virtio_net_can_write_packet : VirtioDevice → Bool
virtio_net_can_write_packet s =
    let qs = queue_at s 0 in
    if qs.ready == 0 then false else not (qs.last_avail_idx == avail_idx s 0)

-- A packet behind a header of zeros, if the descriptor has room for both.
unfoldable pub deliver : ℕ → VirtioDesc → VirtioDevice → ℕ → ℕ → (ℕ → ℕ) → ℕ → Option VirtioDevice
deliver chain uninit s desc_idx write_size buf buf_len =
    let len = (header_size + buf_len) % 2 ^ 32 in
    if lt_int write_size len
    then some s
    else memcpy_to_queue chain uninit s 0 desc_idx 0 (λ _. 0) header_size >>= (λ r.
      memcpy_to_queue chain uninit r.0 0 desc_idx header_size buf buf_len
      >>= (λ t. some (advance (virtio_consume_desc t.0 0 desc_idx len) 0)))

unfoldable pub virtio_net_write_packet :
    ℕ → VirtioDesc → VirtioDevice → (ℕ → ℕ) → ℕ → Option VirtioDevice
virtio_net_write_packet chain uninit s buf buf_len = elim (receive_desc s) [
  | none ↦ some s
  | some i ↦ get_desc_rw_size chain uninit s 0 i >>= (λ sizes. elim sizes [
    | none ↦ some s
    | some rw ↦ deliver chain uninit s i rw.1 buf buf_len
  ])
]

module _ {W : Type 0} (chain : ℕ) (uninit : VirtioDesc) (write_packet : (ℕ → ℕ) → ℕ → W → W) where
  unfoldable pub virtio_net_recv_request :
      VirtioDevice × W → ℕ → ℕ → ℕ → ℕ → Option ((VirtioDevice × W) × Bool)
  virtio_net_recv_request (s, w) queue_idx desc_idx read_size write_size =
      let len = (read_size + (2 ^ 32 - header_size)) % 2 ^ 32 in
      if not (queue_idx == 1)
      then some ((s, w), true)
      else memcpy_from_queue chain uninit s uninit queue_idx desc_idx 0 header_size >>= (λ h.
        if not h.1
        then some ((s, w), true)
        else memcpy_from_queue chain uninit s uninit queue_idx desc_idx header_size len >>= (λ b.
          some ((virtio_consume_desc s queue_idx desc_idx 0, write_packet b.0 len w), true)))
