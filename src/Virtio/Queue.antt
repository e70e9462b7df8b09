-- ===== src/Virtio/Queue.antt =====
-- Descriptor chains and the rings of a queue: get_desc to queue_notify of src/virtio.cpp. An `int` is
-- a 32-bit word. A chain is followed on fuel: a chain of descriptors that closes a circle is never
-- left. `some none` is a return value of -1.
use dromajo.Prelude.{
  ℕ, zero, suc, ◌+◌, ◌-◌, ◌*◌, ◌%◌, ◌^◌, Bool, true, false, not, Option, none, some, ◌==◌, ltb, leb,
  if◌then◌else◌, bit_and, bit_or, ◌>>=◌,
}
use dromajo.Prelude.Bits.{sign_extend}
use dromajo.Cpu.Mstatus.{any}
use dromajo.Cpu.Mmu.{load_le}
use dromajo.Virtio.{
  VirtioDevice, QueueState, queue_at, set_queue, set_irq, virtio_read16, virtio_write16,
  virtio_write32, virtio_memcpy_from_ram, virtio_memcpy_to_ram,
}

abbrev pub vring_desc_f_next : ℕ
vring_desc_f_next = 1

abbrev pub vring_desc_f_write : ℕ
vring_desc_f_write = 2

-- VIRTIODesc: the sixteen bytes that get_desc reads.
abbrev pub VirtioDesc : Type 0
VirtioDesc = ℕ → ℕ

abbrev pub desc_addr : VirtioDesc → ℕ
desc_addr desc = load_le desc 8 0

abbrev pub desc_len : VirtioDesc → ℕ
desc_len desc = load_le desc 4 8

abbrev pub desc_flags : VirtioDesc → ℕ
desc_flags desc = load_le desc 2 12

abbrev pub desc_next : VirtioDesc → ℕ
desc_next desc = load_le desc 2 14

-- `a < b` of two `int`s.
unfoldable pub lt_int : ℕ → ℕ → Bool
lt_int a b = ltb ((a + 2 ^ 31) % 2 ^ 32) ((b + 2 ^ 31) % 2 ^ 32)

unfoldable pub min_int : ℕ → ℕ → ℕ
min_int a b = if lt_int a b then a else b

-- The result is in `desc`; no caller looks at the return value, so that a descriptor outside RAM
-- leaves what `desc` held.
unfoldable pub get_desc : VirtioDevice → VirtioDesc → ℕ → ℕ → Option VirtioDesc
get_desc s desc queue_idx desc_idx =
    let addr = ((queue_at s queue_idx).desc_addr + desc_idx * 16) % 2 ^ 64 in
    virtio_memcpy_from_ram s desc 0 addr 16 >>= (λ r. some r.0)

-- The rest of a call behind `if (!(desc.flags & VRING_DESC_F_NEXT)) return -1;`.
unfoldable pub next_desc :
    {A : Type 0}
    → VirtioDevice
    → ℕ
    → VirtioDesc
    → (VirtioDesc → Option (Option A))
    → Option (Option A)
next_desc s queue_idx desc k =
    if not (any (desc_flags desc) vring_desc_f_next)
    then some none
    else get_desc s desc queue_idx (desc_next desc) >>= k

unfoldable pub find_write : ℕ → VirtioDevice → ℕ → VirtioDesc → Option (Option VirtioDesc)
find_write zero s queue_idx desc = none
find_write (suc fuel) s queue_idx desc =
    let rest = next_desc s queue_idx desc (λ d. find_write fuel s queue_idx d) in
    if any (desc_flags desc) vring_desc_f_write then some (some desc) else rest

-- `(desc.flags & VRING_DESC_F_WRITE) == f_write_flag`.
abbrev pub same_flag : VirtioDesc → Bool → Bool
same_flag desc to_queue =
    let writes = any (desc_flags desc) vring_desc_f_write in if to_queue then writes else not writes

-- The descriptor at an offset, with what is left of the offset.
unfoldable pub find_offset :
    ℕ → VirtioDevice → ℕ → Bool → VirtioDesc → ℕ → Option (Option (VirtioDesc × ℕ))
find_offset zero s queue_idx to_queue desc offset = none
find_offset (suc fuel) s queue_idx to_queue desc offset =
    let rest = next_desc s queue_idx desc (λ d.
      find_offset fuel s queue_idx to_queue d ((offset + (2 ^ 32 - desc_len desc)) % 2 ^ 32)) in
    if not (same_flag desc to_queue)
    then some none
    else if lt_int offset (desc_len desc)
    then some (some (desc, offset))
    else rest

-- One copy between the buffer and the guest; its return value is not looked at.
unfoldable pub copy_part :
    VirtioDevice → Bool → ℕ → (ℕ → ℕ) → ℕ → ℕ → Option (VirtioDevice × (ℕ → ℕ))
copy_part s true addr buf pos l = virtio_memcpy_to_ram s addr buf pos l >>= (λ r. some (r.0, buf))
copy_part s false addr buf pos l = virtio_memcpy_from_ram s buf pos addr l >>= (λ r. some (s, r.0))

-- What stands at the end of a call: the device, the buffer, and whether it returned 0.
abbrev pub Copied : Type 0
Copied = VirtioDevice × (ℕ → ℕ) × Bool

unfoldable pub or_failed : VirtioDevice → (ℕ → ℕ) → Option (Option Copied) → Option Copied
or_failed s buf none = none
or_failed s buf (some none) = some (s, buf, false)
or_failed s buf (some (some r)) = some r

-- The copying loop; an offset is added to the address as an `int`. A length of 2 ^ 31 and more is a
-- negative `int`: nothing is copied, and a buffer's pointer that would step back leaves its buffer.
unfoldable pub copy_loop :
    ℕ → VirtioDevice → ℕ → Bool → VirtioDesc → (ℕ → ℕ) → ℕ → ℕ → ℕ → Option Copied
copy_loop zero s queue_idx to_queue desc buf pos count offset = none
copy_loop (suc fuel) s queue_idx to_queue desc buf pos count offset =
    let l = min_int count ((desc_len desc + (2 ^ 32 - offset)) % 2 ^ 32) in
    let rest =
      copy_part s to_queue ((desc_addr desc + sign_extend 32 offset) % 2 ^ 64) buf pos l >>= (λ r.
        let more = or_failed r.0 r.1 (
          next_desc r.0 queue_idx desc (λ d.
            if not (same_flag d to_queue)
            then some none
            else copy_loop fuel r.0 queue_idx to_queue d r.1 (pos + l) (count - l) 0
              >>= (λ done. some (some done)))) in
        let same =
          copy_loop fuel r.0 queue_idx to_queue desc r.1 (pos + l) (count - l)
            ((offset + l) % 2 ^ 32) in
        if count == l
        then some (r.0, r.1, true)
        else if (offset + l) % 2 ^ 32 == desc_len desc
        then more
        else same) in
    if leb (2 ^ 31) l then if count == l then some (s, buf, true) else none else rest

-- `uninit` is what the local variable `desc` holds before the first descriptor is read, and `chain`
-- the most descriptors that are followed.
module _ (chain : ℕ) (uninit : VirtioDesc) where
  -- The start: the first descriptor, or the first that may be written.
  unfoldable pub start_desc : VirtioDevice → ℕ → ℕ → Bool → Option (Option VirtioDesc)
  start_desc s queue_idx desc_idx to_queue =
      get_desc s uninit queue_idx desc_idx
      >>= (λ desc. if to_queue then find_write chain s queue_idx desc else some (some desc))

  unfoldable pub at_offset :
      VirtioDevice → ℕ → Bool → (ℕ → ℕ) → ℕ → ℕ → Option (Option VirtioDesc) → Option Copied
  at_offset s queue_idx to_queue buf offset count none = none
  at_offset s queue_idx to_queue buf offset count (some none) = some (s, buf, false)
  at_offset s queue_idx to_queue buf offset count (some (some desc)) =
      find_offset chain s queue_idx to_queue desc offset >>= (λ found. elim found [
        | none ↦ some (s, buf, false)
        | some dl ↦ copy_loop chain s queue_idx to_queue dl.0 buf 0 count dl.1
      ])

  unfoldable pub memcpy_to_from_queue :
      VirtioDevice → (ℕ → ℕ) → ℕ → ℕ → ℕ → ℕ → Bool → Option Copied
  memcpy_to_from_queue s buf queue_idx desc_idx offset count to_queue =
      if count == 0
      then some (s, buf, true)
      else at_offset s queue_idx to_queue buf offset count
          (start_desc s queue_idx desc_idx to_queue)

  -- The buffer and whether the copy succeeded.
  unfoldable pub memcpy_from_queue :
      VirtioDevice → (ℕ → ℕ) → ℕ → ℕ → ℕ → ℕ → Option ((ℕ → ℕ) × Bool)
  memcpy_from_queue s buf queue_idx desc_idx offset count =
      memcpy_to_from_queue s buf queue_idx desc_idx offset count false >>= (λ r. some (r.1, r.2))

  unfoldable pub memcpy_to_queue :
      VirtioDevice → ℕ → ℕ → ℕ → (ℕ → ℕ) → ℕ → Option (VirtioDevice × Bool)
  memcpy_to_queue s queue_idx desc_idx offset buf count =
      memcpy_to_from_queue s buf queue_idx desc_idx offset count true >>= (λ r. some (r.0, r.2))

  -- The two loops of get_desc_rw_size.
  unfoldable pub write_sizes : ℕ → VirtioDevice → ℕ → VirtioDesc → ℕ → ℕ → Option (Option (ℕ × ℕ))
  write_sizes zero s queue_idx desc r w = none
  write_sizes (suc fuel) s queue_idx desc r w =
      let total = (w + desc_len desc) % 2 ^ 32 in
      let rest =
        get_desc s desc queue_idx (desc_next desc)
        >>= (λ d. write_sizes fuel s queue_idx d r total) in
      if not (any (desc_flags desc) vring_desc_f_write)
      then some none
      else if not (any (desc_flags desc) vring_desc_f_next)
      then some (some (r, total))
      else rest

  unfoldable pub read_sizes : ℕ → VirtioDevice → ℕ → VirtioDesc → ℕ → Option (Option (ℕ × ℕ))
  read_sizes zero s queue_idx desc r = none
  read_sizes (suc fuel) s queue_idx desc r =
      let total = (r + desc_len desc) % 2 ^ 32 in
      let rest =
        get_desc s desc queue_idx (desc_next desc) >>= (λ d. read_sizes fuel s queue_idx d total) in
      if any (desc_flags desc) vring_desc_f_write
      then write_sizes chain s queue_idx desc r 0
      else if not (any (desc_flags desc) vring_desc_f_next)
      then some (some (total, 0))
      else rest

  unfoldable pub get_desc_rw_size : VirtioDevice → ℕ → ℕ → Option (Option (ℕ × ℕ))
  get_desc_rw_size s queue_idx desc_idx =
      get_desc s uninit queue_idx desc_idx >>= (λ desc. read_sizes chain s queue_idx desc 0)

-- `idx & (qs->num - 1)`.
unfoldable pub ring_slot : QueueState → ℕ → ℕ
ring_slot qs idx = bit_and idx ((qs.num + (2 ^ 32 - 1)) % 2 ^ 32)

-- The entry of the available ring that is next.
unfoldable pub next_avail : VirtioDevice → ℕ → ℕ
next_avail s queue_idx =
    let qs = queue_at s queue_idx in
    virtio_read16 s ((qs.avail_addr + 4 + ring_slot qs qs.last_avail_idx * 2) % 2 ^ 64)

-- The index of the available ring, as the guest left it.
unfoldable pub avail_idx : VirtioDevice → ℕ → ℕ
avail_idx s queue_idx = virtio_read16 s (((queue_at s queue_idx).avail_addr + 2) % 2 ^ 64)

unfoldable pub advance : VirtioDevice → ℕ → VirtioDevice
advance s queue_idx =
    let qs = queue_at s queue_idx in
    set_queue s queue_idx (record qs { last_avail_idx = (qs.last_avail_idx + 1) % 2 ^ 16 })

-- Signal that a descriptor has been consumed.
unfoldable pub virtio_consume_desc : VirtioDevice → ℕ → ℕ → ℕ → VirtioDevice
virtio_consume_desc s queue_idx desc_idx len =
    let qs = queue_at s queue_idx in
    let index = virtio_read16 s ((qs.used_addr + 2) % 2 ^ 64) in
    let s1 = virtio_write16 s ((qs.used_addr + 2) % 2 ^ 64) ((index + 1) % 2 ^ 16) in
    let addr = (qs.used_addr + 4 + ring_slot qs index * 8) % 2 ^ 64 in
    let s2 = virtio_write32 s1 addr (desc_idx % 2 ^ 32) in
    let s3 = virtio_write32 s2 ((addr + 4) % 2 ^ 64) (len % 2 ^ 32) in
    set_irq (record s3 { int_status = bit_or s3.int_status 1 }) 1

-- `device_recv` of a device with a state of its own: its new state and whether it returned 0.
abbrev pub DeviceRecv : Type 0 → Type 0
DeviceRecv D = VirtioDevice × D → ℕ → ℕ → ℕ → ℕ → Option ((VirtioDevice × D) × Bool)

module _ {D : Type 0} (chain : ℕ) (uninit : VirtioDesc) (device_recv : DeviceRecv D) where
  -- The loop of queue_notify up to `limit`, the index that the guest left.
  unfoldable pub notify_loop : ℕ → VirtioDevice × D → ℕ → ℕ → Option (VirtioDevice × D)
  notify_loop zero sd queue_idx limit =
      if (queue_at sd.0 queue_idx).last_avail_idx == limit then some sd else none
  notify_loop (suc fuel) sd queue_idx limit =
      let desc_idx = next_avail sd.0 queue_idx in
      let rest = get_desc_rw_size chain uninit sd.0 queue_idx desc_idx >>= (λ sizes. elim sizes [
        | none ↦ notify_loop fuel (advance sd.0 queue_idx, sd.1) queue_idx limit
        | some (r, w) ↦ device_recv sd queue_idx desc_idx r w >>= (λ out.
            let more = notify_loop fuel (advance out.0.0 queue_idx, out.0.1) queue_idx limit in
            if out.1 then more else some out.0)
      ]) in
      if (queue_at sd.0 queue_idx).last_avail_idx == limit then some sd else rest

  unfoldable pub queue_notify : VirtioDevice × D → ℕ → Option (VirtioDevice × D)
  queue_notify sd queue_idx =
      if (queue_at sd.0 queue_idx).manual_recv
      then some sd
      else notify_loop (2 ^ 16) sd queue_idx (avail_idx sd.0 queue_idx)
