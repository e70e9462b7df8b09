-- ===== src/Memory/Ram.antt =====
-- A store to RAM and a load from it.
use dromajo.Prelude.{
  ℕ, zero, suc, ◌+◌, ◌-◌, ◌*◌, ◌/◌, ◌%◌, ◌^◌, ◌≤◌, ◌<◌, ◌≡◌, refl, ap, ◌∙◌, true, false, List, [],
  ◌∷◌, Option, none, some, arith, if◌then◌else◌, get_elem?, get_elem?-set_self, set, set-set, leb,
  ltb,
}
use dromajo.Prelude.Bits.{mod_pow_suc}
use dromajo.Iomem.{PhysMemoryRange, contains, get_phys_mem_range, phys_mem_set_dirty_bit}
use dromajo.Cpu.Mmu.{load_le}
use dromajo.Memory.{
  Hart, DeviceIo, store_le, read_ram, write_ram, read_range_at, write_range_at, fill_write,
  count_store,
}
use dromajo.Memory.Kept.{wider}

-- A byte outside of the stored ones is what it was.
pub store_le-outside :
    (bytes : ℕ → ℕ) (n off v i : ℕ)
    → (if leb off i then ltb i (off + n) else false) ≡ false
    → store_le bytes n off v i ≡ bytes i
unfolding store_le
store_le-outside bytes zero off v i h = refl
store_le-outside bytes (suc n) off v i h =
    ground (arith, h, store_le-outside bytes n (off + 1) (v / 256) i)

-- The lowest bytes are not those of the rest.
store_le-low : (bytes : ℕ → ℕ) (n off v i : ℕ) → i < off → store_le bytes n off v i ≡ bytes i
store_le-low bytes n off v i lt = store_le-outside bytes n off v i (ground arith)

load_le-agree :
    (a b : ℕ → ℕ) (n off : ℕ) → ((i : ℕ) → off ≤ i → a i ≡ b i) → load_le a n off ≡ load_le b n off
unfolding load_le
load_le-agree a b zero off h = refl
load_le-agree a b (suc n) off h =
    ground (arith, h off (omega arith), load_le-agree a b n (off + 1) (λ i le. h i (omega arith)))

mod_byte : (v n : ℕ) → v % 2 ^ (8 * suc n) ≡ v % 256 + 256 * (v / 256 % 2 ^ (8 * n))
mod_byte v n =
    let e : 8 * suc n ≡ suc (suc (suc (suc (suc (suc (suc (suc (8 * n)))))))) = omega arith in
    let v1 = v / 2 in
    let v2 = v1 / 2 in
    let v3 = v2 / 2 in
    let v4 = v3 / 2 in
    let v5 = v4 / 2 in
    let v6 = v5 / 2 in
    let v7 = v6 / 2 in
    let top : v7 / 2 ≡ v / 256 = omega arith in
    let last : v7 / 2 % 2 ^ (8 * n) ≡ v / 256 % 2 ^ (8 * n) = ap (λ (x : ℕ). x % 2 ^ (8 * n)) top in
    rw e (
      omega (
        arith,
        mod_pow_suc v (suc (suc (suc (suc (suc (suc (suc (8 * n)))))))),
        mod_pow_suc v1 (suc (suc (suc (suc (suc (suc (8 * n))))))),
        mod_pow_suc v2 (suc (suc (suc (suc (suc (8 * n)))))),
        mod_pow_suc v3 (suc (suc (suc (suc (8 * n))))),
        mod_pow_suc v4 (suc (suc (suc (8 * n)))),
        mod_pow_suc v5 (suc (suc (8 * n))),
        mod_pow_suc v6 (suc (8 * n)),
        mod_pow_suc v7 (8 * n),
        last,
      ))

pub load_le-store_le :
    (bytes : ℕ → ℕ) (n off v : ℕ) → load_le (store_le bytes n off v) n off ≡ v % 2 ^ (8 * n)
unfolding load_le store_le
load_le-store_le bytes zero off v = omega arith
load_le-store_le bytes (suc n) off v =
    let rest = store_le bytes n (off + 1) (v / 256) in
    let whole = store_le bytes (suc n) off v in
    let above = load_le-agree whole rest n (off + 1) (λ i le. ground arith) in
    let ih = load_le-store_le bytes n (off + 1) (v / 256) in
    ground (arith, above, ih, mod_byte v n, wider n)

-- The range that an address belongs to does not depend on what the ranges hold.
pub same_place :
    (m : List PhysMemoryRange) (i : ℕ) (pr qr : PhysMemoryRange) (paddr : ℕ)
    → get_elem? m i ≡ some pr
    → qr.addr ≡ pr.addr
    → qr.size ≡ pr.size
    → get_phys_mem_range (set m i qr) paddr ≡ get_phys_mem_range m paddr
unfolding get_phys_mem_range contains
same_place [] i pr qr paddr h a z = refl
same_place (x ∷ m) zero pr qr paddr h a z =
    let ea : x.addr ≡ pr.addr =
      ap (λ (o : Option PhysMemoryRange). elim o [ none ↦ 0 | some p ↦ p.addr ]) h in
    let ez : x.size ≡ pr.size =
      ap (λ (o : Option PhysMemoryRange). elim o [ none ↦ 0 | some p ↦ p.size ]) h in
    ground (arith, a, z, ea, ez)
same_place (x ∷ m) (suc i) pr qr paddr h a z = rw (same_place m i pr qr paddr h a z) refl

-- The range after a store into it: its pages marked, its bytes replaced.
unfoldable pub stored_range : PhysMemoryRange → ℕ → ℕ → ℕ → PhysMemoryRange
stored_range pr k off v =
    let marked = phys_mem_set_dirty_bit pr off in
    record marked { phys_mem = store_le marked.phys_mem (2 ^ k) off v }

stored_range-place :
    (pr : PhysMemoryRange) (k off v : ℕ)
    → ((stored_range pr k off v).addr ≡ pr.addr)
      × ((stored_range pr k off v).size ≡ pr.size)
      × ((stored_range pr k off v).is_ram ≡ pr.is_ram)
unfolding stored_range phys_mem_set_dirty_bit
stored_range-place pr k off v = (ground arith, ground arith, ground arith)

module _ {D : Type 0} (io : DeviceIo D) (h : Hart D) (i paddr : ℕ) (pr : PhysMemoryRange) where
  written_map :
      (k addr v : ℕ)
      → get_phys_mem_range h.mem_map paddr ≡ some i
      → get_elem? h.mem_map i ≡ some pr
      → pr.is_ram ≡ true
      → (write_range_at io h k addr paddr v).mem_map
        ≡ set h.mem_map i (stored_range pr k (paddr - pr.addr) v)
  unfolding write_range_at fill_write count_store write_ram stored_range
  written_map k addr v found here ram =
      let off = paddr - pr.addr in
      let marked = phys_mem_set_dirty_bit pr off in
      let at = get_elem?-set_self h.mem_map i marked pr here in
      let last = record marked { phys_mem = store_le marked.phys_mem (2 ^ k) off v } in
      ground (arith, found, here, ram, at, set-set h.mem_map i marked last)

  -- A load gives back what a store to the same physical address wrote, at the width of the access.
  -- The address belongs to a RAM range; the virtual addresses of the two may differ.
  pub read_range_at-write_range_at :
      (k addr addr2 v : ℕ)
      → get_phys_mem_range h.mem_map paddr ≡ some i
      → get_elem? h.mem_map i ≡ some pr
      → pr.is_ram ≡ true
      → (read_range_at io (write_range_at io h k addr paddr v) k addr2 paddr).0
        ≡ v % 2 ^ (8 * 2 ^ k)
  unfolding read_range_at read_ram stored_range
  read_range_at-write_range_at k addr addr2 v found here ram =
      let t = write_range_at io h k addr paddr v in
      let off = paddr - pr.addr in
      let sr = stored_range pr k off v in
      let (ea, ez, er) = stored_range-place pr k off v in
      let map = written_map k addr v found here ram in
      let found2 : get_phys_mem_range t.mem_map paddr ≡ some i =
        ap (λ (m : List PhysMemoryRange). get_phys_mem_range m paddr) map
        ∙ same_place h.mem_map i pr sr paddr here ea ez
        ∙ found in
      let here2 : get_elem? t.mem_map i ≡ some sr =
        ap (λ (m : List PhysMemoryRange). get_elem? m i) map
        ∙ get_elem?-set_self h.mem_map i sr pr here in
      let ram2 : sr.is_ram ≡ true = er ∙ ram in
      let back : load_le sr.phys_mem (2 ^ k) (paddr - sr.addr) ≡ v % 2 ^ (8 * 2 ^ k) =
        rw ea (load_le-store_le (phys_mem_set_dirty_bit pr off).phys_mem (2 ^ k) off v) in
      ground (arith, found2, here2, ram2, back)
