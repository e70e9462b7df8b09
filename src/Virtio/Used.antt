-- ===== src/Virtio/Used.antt =====
-- What virtio_consume_desc leaves in the used ring of a queue.
use dromajo.Prelude.{
  ℕ, zero, suc, ◌+◌, ◌-◌, ◌*◌, ◌%◌, ◌^◌, ◌≤◌, ◌≡◌, refl, ap, ◌∙◌, ◌⊎◌, inl, true, false, List,
  arith, ◌==◌, set, set-set, bit_or,
}
use dromajo.Cpu.Mmu.{load_le}
use dromajo.Iomem.{PhysMemoryRange}
use dromajo.Memory.{store_le, read_ram, write_ram}
use dromajo.Memory.Ram.{store_le-outside, load_le-store_le}
use dromajo.Virtio.{
  VirtioDevice, QueueState, queue_at, virtio_read16, virtio_write16, virtio_write32, bytes_at,
  set_irq,
}
use dromajo.Virtio.Sound.{IsSound}
use dromajo.Virtio.Dma.{InOne, held_InOne, get_ram_ptr-one}
use dromajo.Virtio.Queue.{ring_slot, virtio_consume_desc}
use dromajo.Virtio.Transport.{ring_slot-mod}

-- A load that a store elsewhere leaves alone.
load_le-elsewhere :
    (bytes : ℕ → ℕ) (n off m at v : ℕ)
    → (off + n ≤ at) ⊎ (at + m ≤ off)
    → load_le (store_le bytes m at v) n off ≡ load_le bytes n off
unfolding load_le
load_le-elsewhere bytes zero off m at v apart = refl
load_le-elsewhere bytes (suc n) off m at v apart =
    let first = store_le-outside bytes m at v off (ground arith) in
    ground (arith, first, load_le-elsewhere bytes n (off + 1) m at v (ground arith))

part_InOne :
    (mem : List PhysMemoryRange) (i : ℕ) (pr : PhysMemoryRange) (addr count a n : ℕ)
    → InOne mem i pr addr count
    → addr ≤ a
    → a + n ≤ addr + count
    → InOne mem i pr a n
part_InOne mem i pr addr count a n h le lt = record {
  stands = h.stands;
  ram = h.ram;
  low = omega (arith, h.low);
  inside = omega (arith, h.inside);
  found = λ b l k. h.found b (omega arith) (omega arith);
}

-- A device whose range `i` holds other bytes.
abbrev with_bytes : VirtioDevice → ℕ → PhysMemoryRange → (ℕ → ℕ) → VirtioDevice
with_bytes s i pr f = record s { mem_map = set s.mem_map i (record pr { phys_mem = f }) }

module _ (s : VirtioDevice) (i : ℕ) (pr : PhysMemoryRange) (addr c : ℕ)
    (h : InOne s.mem_map i pr addr (suc c)) where
  virtio_read16-one : addr % 2 ≡ 0 → virtio_read16 s addr ≡ load_le pr.phys_mem 2 (addr - pr.addr)
  unfolding virtio_read16 read_ram
  virtio_read16-one even =
      let test : (addr % 2 == 1) ≡ false = ground arith in
      rw (test, get_ram_ptr-one s.mem_map i pr addr c h, read_ram, h.stands) refl

  virtio_write16-one :
      (v : ℕ)
      → addr % 2 ≡ 0
      → virtio_write16 s addr v ≡ with_bytes s i pr (store_le pr.phys_mem 2 (addr - pr.addr) v)
  unfolding virtio_write16 write_ram
  virtio_write16-one v even =
      let test : (addr % 2 == 1) ≡ false = ground arith in
      rw (test, get_ram_ptr-one s.mem_map i pr addr c h, write_ram, h.stands) refl

  virtio_write32-one :
      (v : ℕ)
      → addr % 4 ≡ 0
      → virtio_write32 s addr v ≡ with_bytes s i pr (store_le pr.phys_mem 4 (addr - pr.addr) v)
  unfolding virtio_write32 write_ram
  virtio_write32-one v even =
      let test : (addr % 4 == 0) ≡ true = ground arith in
      rw (test, get_ram_ptr-one s.mem_map i pr addr c h, write_ram, h.stands) refl

-- The address of an entry of the used ring.
abbrev used_entry : QueueState → ℕ → ℕ
used_entry qs index = qs.used_addr + 4 + index % qs.num * 8

-- The used ring of a queue stands in one range of RAM, aligned as its words are.
pub record UsedRing (s : VirtioDevice) (q k : ℕ) (pr : PhysMemoryRange) : Type 0 where
  pub sound : IsSound s
  pub aligned : (queue_at s q).used_addr % 4 ≡ 0
  pub one : InOne s.mem_map k pr (queue_at s q).used_addr (4 + (queue_at s q).num * 8)

module _ (s : VirtioDevice) (q k : ℕ) (pr : PhysMemoryRange) (ring : UsedRing s q k pr) where
  used_idx_lem :
      (virtio_read16 s (((queue_at s q).used_addr + 2) % 2 ^ 64)
        ≡ load_le pr.phys_mem 2 ((queue_at s q).used_addr + 2 - pr.addr))
      × (((queue_at s q).used_addr + 2) % 2 ^ 64 ≡ (queue_at s q).used_addr + 2)
  used_idx_lem =
      let used = (queue_at s q).used_addr in
      let e : (used + 2) % 2 ^ 64 ≡ used + 2 = omega (arith, ring.one.inside) in
      let part =
        part_InOne s.mem_map k pr used (4 + (queue_at s q).num * 8) (used + 2) 2 ring.one
          (omega arith) (omega arith) in
      (
        ap (λ (a : ℕ). virtio_read16 s a) e
            ∙ virtio_read16-one s k pr (used + 2) 1 part (omega (arith, ring.aligned)),
        e,
      )

  -- The bytes of the range behind the three stores, and the device that holds them.
  abbrev used_index : ℕ
  used_index = virtio_read16 s (((queue_at s q).used_addr + 2) % 2 ^ 64)

  abbrev entry_at : ℕ
  entry_at = used_entry (queue_at s q) used_index - pr.addr

  abbrev bytes1 : ℕ → ℕ
  bytes1 =
      store_le pr.phys_mem 2 ((queue_at s q).used_addr + 2 - pr.addr) ((used_index + 1) % 2 ^ 16)

  abbrev bytes2 : ℕ → ℕ → ℕ
  bytes2 i = store_le bytes1 4 entry_at (i % 2 ^ 32)

  abbrev bytes3 : ℕ → ℕ → ℕ → ℕ
  bytes3 i len = store_le (bytes2 i) 4 (entry_at + 4) (len % 2 ^ 32)

  abbrev consumed : ℕ → ℕ → VirtioDevice
  consumed i len =
      set_irq
        (record s {
          mem_map = set s.mem_map k (record pr { phys_mem = bytes3 i len });
          int_status = bit_or s.int_status 1;
        })
        1

  virtio_consume_desc-consumed : (i len : ℕ) → virtio_consume_desc s q i len ≡ consumed i len
  unfolding virtio_consume_desc
  virtio_consume_desc-consumed i len =
      let qs = queue_at s q in
      let used = qs.used_addr in
      let size = 4 + qs.num * 8 in
      let (slot, in_ring) = ring_slot-mod s q used_index ring.sound in
      let entry = used_entry qs used_index in
      let place : entry + 4 - pr.addr ≡ entry_at + 4 = omega (arith, ring.one.low) in
      let v1 = (used_index + 1) % 2 ^ 16 in
      let pr1 = record pr { phys_mem = bytes1 } in
      let pr2 = record pr { phys_mem = bytes2 i } in
      let s1 = with_bytes s k pr bytes1 in
      let s2 = with_bytes s1 k pr1 (bytes2 i) in
      let s3 = with_bytes s2 k pr2 (bytes3 i len) in
      let e1 : virtio_write16 s ((used + 2) % 2 ^ 64) v1 ≡ s1 =
        ap (λ (a : ℕ). virtio_write16 s a v1) used_idx_lem.1
        ∙ virtio_write16-one s k pr (used + 2) 1
            (part_InOne s.mem_map k pr used size (used + 2) 2 ring.one (omega arith) (omega arith))
            v1 (omega (arith, ring.aligned)) in
      let h1 = held_InOne s.mem_map k pr bytes1 used size ring.one in
      let h2 = held_InOne s1.mem_map k pr1 (bytes2 i) used size h1 in
      let a1 : (used + 4 + ring_slot qs used_index * 8) % 2 ^ 64 ≡ entry =
        omega (arith, slot, in_ring, ring.one.inside) in
      let e2 : virtio_write32 s1 ((used + 4 + ring_slot qs used_index * 8) % 2 ^ 64) (i % 2 ^ 32)
          ≡ s2 =
        ap (λ (a : ℕ). virtio_write32 s1 a (i % 2 ^ 32)) a1
        ∙ virtio_write32-one s1 k pr1 entry 3
            (part_InOne s1.mem_map k pr1 used size entry 4 h1 (omega arith)
              (omega (arith, slot, in_ring)))
            (i % 2 ^ 32) (omega (arith, ring.aligned)) in
      let a2 : ((used + 4 + ring_slot qs used_index * 8) % 2 ^ 64 + 4) % 2 ^ 64 ≡ entry + 4 =
        omega (arith, slot, in_ring, ring.one.inside, a1) in
      let e3 : virtio_write32 s2 (((used + 4 + ring_slot qs used_index * 8) % 2 ^ 64 + 4) % 2 ^ 64)
            (len % 2 ^ 32)
          ≡ s3 =
        ap (λ (a : ℕ). virtio_write32 s2 a (len % 2 ^ 32)) a2
        ∙ virtio_write32-one s2 k pr2 (entry + 4) 3
            (part_InOne s2.mem_map k pr2 used size (entry + 4) 4 h2 (omega arith)
              (omega (arith, slot, in_ring)))
            (len % 2 ^ 32) (omega (arith, ring.aligned))
        ∙ ap (λ (o : ℕ). with_bytes s2 k pr2 (store_le (bytes2 i) 4 o (len % 2 ^ 32))) place in
      let once : s3.mem_map ≡ set s.mem_map k (record pr { phys_mem = bytes3 i len }) =
        set-set s1.mem_map k pr2 (record pr { phys_mem = bytes3 i len })
        ∙ set-set s.mem_map k pr1 (record pr { phys_mem = bytes3 i len }) in
      rw (e1, e2, e3)
        (ap
          (λ (m : List PhysMemoryRange).
            set_irq (record s { mem_map = m; int_status = bit_or s.int_status 1 }) 1)
          once)

  -- Where the used ring of a well-formed device stands aligned in one range of RAM: a descriptor that
  -- is consumed leaves the ring's index one higher, modulo 2 ^ 16, the entry that the old index selects
  -- with the descriptor and the length in it, bit 0 of the interrupt status set and the line raised.
  pub virtio_consume_desc-published :
      (i len : ℕ)
      → (virtio_read16 (virtio_consume_desc s q i len) (((queue_at s q).used_addr + 2) % 2 ^ 64)
          ≡ (used_index + 1) % 2 ^ 16)
        × (load_le (bytes_at (virtio_consume_desc s q i len).mem_map k) 4 entry_at ≡ i % 2 ^ 32)
        × (load_le (bytes_at (virtio_consume_desc s q i len).mem_map k) 4 (entry_at + 4)
            ≡ len % 2 ^ 32)
        × ((virtio_consume_desc s q i len).int_status ≡ bit_or s.int_status 1)
        × ((virtio_consume_desc s q i len).irq_level ≡ 1)
  unfolding bytes_at
  virtio_consume_desc-published i len =
      let used = (queue_at s q).used_addr in
      let off = used + 2 - pr.addr in
      let size = 4 + (queue_at s q).num * 8 in
      let t = consumed i len in
      let h = held_InOne s.mem_map k pr (bytes3 i len) used size ring.one in
      let qr = record pr { phys_mem = bytes3 i len } in
      let v1 = (used_index + 1) % 2 ^ 16 in
      let apart : off + 2 ≤ entry_at = omega (arith, ring.one.low) in
      let index : virtio_read16 t ((used + 2) % 2 ^ 64) ≡ v1 =
        ap (λ (a : ℕ). virtio_read16 t a) used_idx_lem.1
        ∙ virtio_read16-one t k qr (used + 2) 1
            (part_InOne t.mem_map k qr used size (used + 2) 2 h (omega arith) (omega arith))
            (omega (arith, ring.aligned))
        ∙ load_le-elsewhere (bytes2 i) 2 off 4 (entry_at + 4) (len % 2 ^ 32) (inl (omega arith))
        ∙ load_le-elsewhere bytes1 2 off 4 entry_at (i % 2 ^ 32) (inl apart)
        ∙ load_le-store_le pr.phys_mem 2 off v1
        ∙ omega arith in
      let bytes : bytes_at t.mem_map k ≡ bytes3 i len = rw (bytes_at, h.stands) refl in
      let desc : load_le (bytes3 i len) 4 entry_at ≡ i % 2 ^ 32 =
        load_le-elsewhere (bytes2 i) 4 entry_at 4 (entry_at + 4) (len % 2 ^ 32) (inl (omega arith))
        ∙ load_le-store_le bytes1 4 entry_at (i % 2 ^ 32)
        ∙ omega arith in
      let length : load_le (bytes3 i len) 4 (entry_at + 4) ≡ len % 2 ^ 32 =
        load_le-store_le (bytes2 i) 4 (entry_at + 4) (len % 2 ^ 32) ∙ omega arith in
      rw (virtio_consume_desc-consumed i len) (
        index,
        ap (λ (f : ℕ → ℕ). load_le f 4 entry_at) bytes ∙ desc,
        ap (λ (f : ℕ → ℕ). load_le f 4 (entry_at + 4)) bytes ∙ length,
        refl,
        refl,
      )
