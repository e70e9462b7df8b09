-- ===== src/Virtio/Chains.antt =====
-- A chain of descriptors that names itself as its next.
use dromajo.Prelude.{
  ℕ, zero, suc, ◌+◌, ◌-◌, ◌*◌, ◌%◌, ◌^◌, ◌≤◌, ◌≡◌, ◌≢◌, refl, ap, ◌∙◌, true, false, none, some,
  arith, ◌==◌, Bool-cases, inl, inr,
}
use dromajo.Cpu.Mstatus.{any}
use dromajo.Cpu.Mmu.{load_le}
use dromajo.Iomem.{PhysMemoryRange}
use dromajo.Virtio.{VirtioDevice, queue_at, memcpy}
use dromajo.Virtio.Dma.{InOne, virtio_memcpy-memcpy}
use dromajo.Virtio.Queue.{
  VirtioDesc, DeviceRecv, desc_flags, desc_next, desc_len, get_desc, read_sizes, write_sizes,
  get_desc_rw_size, next_avail, avail_idx, notify_loop, queue_notify, vring_desc_f_next,
  vring_desc_f_write,
}

abbrev pub desc_place : VirtioDevice → ℕ → ℕ → ℕ
desc_place s q i = ((queue_at s q).desc_addr + i * 16) % 2 ^ 64

load_le-memcpy :
    (d src : ℕ → ℕ) (o n at : ℕ)
    → at + n ≤ 16
    → load_le (memcpy d 0 src o 16) n at ≡ load_le src n (o + at)
unfolding load_le memcpy
load_le-memcpy d src o zero at h = refl
load_le-memcpy d src o (suc n) at h =
    let e : o + (at + 1) ≡ o + at + 1 = omega arith in
    let ih = load_le-memcpy d src o n (at + 1) (omega arith) in ground (arith, ih, e)

-- Descriptor `i` of queue `q` stands in RAM, has a next, and is that next itself.
pub record Circle (s : VirtioDevice) (q i k : ℕ) (pr : PhysMemoryRange) : Type 0 where
  pub one : InOne s.mem_map k pr (desc_place s q i) 16
  pub has_next :
      any (load_le pr.phys_mem 2 (desc_place s q i - pr.addr + 12)) vring_desc_f_next ≡ true
  pub itself : load_le pr.phys_mem 2 (desc_place s q i - pr.addr + 14) ≡ i

module _ (s : VirtioDevice) (q i k : ℕ) (pr : PhysMemoryRange) (h : Circle s q i k pr) where
  abbrev read_desc : VirtioDesc → VirtioDesc
  read_desc d = memcpy d 0 pr.phys_mem (desc_place s q i - pr.addr) 16

  get_desc-Circle : (d : VirtioDesc) → get_desc s d q i ≡ some (read_desc d)
  unfolding get_desc
  get_desc-Circle d = rw ((virtio_memcpy-memcpy s k pr (desc_place s q i) d 0 16 h.one).1) refl

  -- The flags and the next of what is read.
  abbrev flags : ℕ
  flags = load_le pr.phys_mem 2 (desc_place s q i - pr.addr + 12)

  read_desc-flags : (d : VirtioDesc) → desc_flags (read_desc d) ≡ flags
  read_desc-flags d = load_le-memcpy d pr.phys_mem (desc_place s q i - pr.addr) 2 12 (omega arith)

  read_desc-next : (d : VirtioDesc) → desc_next (read_desc d) ≡ i
  read_desc-next d =
      load_le-memcpy d pr.phys_mem (desc_place s q i - pr.addr) 2 14 (omega arith) ∙ h.itself

  next_of-Circle :
      (d : VirtioDesc)
      → get_desc s (read_desc d) q (desc_next (read_desc d)) ≡ some (read_desc (read_desc d))
  next_of-Circle d =
      ap (λ (n : ℕ). get_desc s (read_desc d) q n) (read_desc-next d)
      ∙ get_desc-Circle (read_desc d)

  module _ (chain : ℕ) (uninit : VirtioDesc) where
    write_sizes-Circle :
        (fuel : ℕ) (d : VirtioDesc) (r w : ℕ)
        → any flags vring_desc_f_write ≡ true
        → write_sizes chain uninit fuel s q (read_desc d) r w ≡ none
    unfolding write_sizes
    write_sizes-Circle zero d r w wr = refl
    write_sizes-Circle (suc fuel) d r w wr =
        let total = (w + desc_len (read_desc d)) % 2 ^ 32 in
        ground (
          arith,
          read_desc-flags d,
          wr,
          h.has_next,
          next_of-Circle d,
          write_sizes-Circle fuel (read_desc d) r total wr,
        )

    read_sizes-Circle :
        (fuel : ℕ) (d : VirtioDesc) (r : ℕ)
        → read_sizes chain uninit fuel s q (read_desc d) r ≡ none
    unfolding read_sizes
    read_sizes-Circle zero d r = refl
    read_sizes-Circle (suc fuel) d r =
        let total = (r + desc_len (read_desc d)) % 2 ^ 32 in
        let rest = read_sizes-Circle fuel (read_desc d) total in
        elim (Bool-cases (any flags vring_desc_f_write)) [
          | inl wr ↦ ground (arith, read_desc-flags d, wr, write_sizes-Circle chain d r 0 wr)
          | inr rd ↦ ground (arith, read_desc-flags d, rd, h.has_next, next_of-Circle d, rest)
        ]

    get_desc_rw_size-Circle : get_desc_rw_size chain uninit s q i ≡ none
    unfolding get_desc_rw_size
    get_desc_rw_size-Circle = rw (get_desc-Circle uninit, read_sizes-Circle chain uninit 0) refl

notify_loop-Circle :
    {D : Type 0} (s : VirtioDevice) (q k : ℕ) (pr : PhysMemoryRange) (limit : ℕ)
    → Circle s q (next_avail s q) k pr
    → (queue_at s q).last_avail_idx ≢ limit
    → (chain : ℕ) (uninit : VirtioDesc) (device_recv : DeviceRecv D) (d : D) (fuel : ℕ)
    → notify_loop chain uninit device_recv (suc fuel) (s, d) q limit ≡ none
unfolding notify_loop
notify_loop-Circle s q k pr limit h some_left chain uninit device_recv d fuel =
    let test : ((queue_at s q).last_avail_idx == limit) ≡ false = ground arith in
    rw (test, get_desc_rw_size-Circle s q (next_avail s q) k pr h chain uninit) refl

-- A notification does not return, however long the chains are that are followed and whatever the device:
-- when an entry is left in the available ring of a queue that is not read by hand, and the next entry
-- names a descriptor in RAM that has itself as its next.
pub queue_notify-Circle :
    {D : Type 0} (s : VirtioDevice) (q k : ℕ) (pr : PhysMemoryRange)
    → Circle s q (next_avail s q) k pr
    → (queue_at s q).last_avail_idx ≢ avail_idx s q
    → (queue_at s q).manual_recv ≡ false
    → (chain : ℕ) (uninit : VirtioDesc) (device_recv : DeviceRecv D) (d : D)
    → queue_notify chain uninit device_recv (s, d) q ≡ none
unfolding queue_notify
queue_notify-Circle s q k pr h some_left auto chain uninit device_recv d =
    rw auto
      (notify_loop-Circle s q k pr (avail_idx s q) h some_left chain uninit device_recv d 65535)
