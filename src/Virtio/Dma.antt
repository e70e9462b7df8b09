-- ===== src/Virtio/Dma.antt =====
-- The copies between a device's buffer and the guest's RAM, which go page by page, against one copy.
use mathlib.Core.Path.{fun_ext}
use dromajo.Prelude.{
  ℕ, zero, suc, ◌+◌, ◌-◌, ◌%◌, ◌^◌, ◌≤◌, ◌<◌, ◌≡◌, refl, ap, sym, ◌∙◌, ◌⊎◌, inl, inr, true, some,
  List, arith, ◌>>=◌, get_elem?, set, get_elem?-set_self, set-set, set_same,
}
use dromajo.Iomem.{PhysMemoryRange, get_phys_mem_range}
use dromajo.Memory.Ram.{same_place}
use dromajo.Virtio.{
  VirtioDevice, get_ram_ptr, in_page, memcpy, bytes_at, from_ram, virtio_memcpy_from_ram, copy_in,
  to_ram, virtio_memcpy_to_ram,
}

-- The `count` bytes from an address on belong to one range, which is RAM.
pub record InOne (mem : List PhysMemoryRange) (i : ℕ) (pr : PhysMemoryRange) (addr count : ℕ)
    : Type 0 where
  pub stands : get_elem? mem i ≡ some pr
  pub ram : pr.is_ram ≡ true
  pub low : pr.addr ≤ addr
  pub inside : addr + count ≤ 2 ^ 64
  pub found : (a : ℕ) → addr ≤ a → a < addr + count → get_phys_mem_range mem a ≡ some i

in_page-bounds : (addr c : ℕ) → (0 < in_page addr (suc c)) × (in_page addr (suc c) ≤ suc c)
unfolding in_page
in_page-bounds addr c = ground arith

memcpy-zero : (dst : ℕ → ℕ) (d : ℕ) (src : ℕ → ℕ) (o : ℕ) → memcpy dst d src o 0 ≡ dst
unfolding memcpy
memcpy-zero dst d src o = fun_ext (λ i. ground arith)

memcpy-memcpy :
    (dst : ℕ → ℕ) (d : ℕ) (src : ℕ → ℕ) (o n m : ℕ)
    → memcpy (memcpy dst d src o n) (d + n) src (o + n) m ≡ memcpy dst d src o (n + m)
unfolding memcpy
memcpy-memcpy dst d src o n m = fun_ext (λ i.
    let a : d + n ≤ i → o + n + (i - (d + n)) ≡ o + (i - d) = omega arith in ground (arith, a))

pub get_ram_ptr-one :
    (mem : List PhysMemoryRange) (i : ℕ) (pr : PhysMemoryRange) (addr c : ℕ)
    → InOne mem i pr addr (suc c)
    → get_ram_ptr mem addr ≡ some (i, addr - pr.addr)
unfolding get_ram_ptr
get_ram_ptr-one mem i pr addr c h =
    ground (arith, h.found addr (omega arith) (omega arith), h.stands, h.ram)

-- What is left behind a first part.
left_InOne :
    (mem : List PhysMemoryRange) (i : ℕ) (pr : PhysMemoryRange) (addr count l : ℕ)
    → InOne mem i pr addr count
    → l < count
    → InOne mem i pr ((addr + l) % 2 ^ 64) (count - l)
left_InOne mem i pr addr count l h lt =
    let e : (addr + l) % 2 ^ 64 ≡ addr + l = omega (arith, h.inside) in
    record {
      stands = h.stands;
      ram = h.ram;
      low = omega (arith, h.low, e);
      inside = omega (arith, h.inside, e);
      found = λ a le b. h.found a (omega (arith, e)) (omega (arith, e));
    }

cut : (addr c : ℕ) → (in_page addr (suc c) ≡ suc c) ⊎ (in_page addr (suc c) < suc c)
cut addr c = let (_, le) = in_page-bounds addr c in ground arith

from_ram-zero :
    (fuel : ℕ) (mem : List PhysMemoryRange) (buf : ℕ → ℕ) (pos addr : ℕ)
    → from_ram fuel mem buf pos addr 0 ≡ some (buf, true)
unfolding from_ram
from_ram-zero zero mem buf pos addr = refl
from_ram-zero (suc fuel) mem buf pos addr = refl

to_ram-zero :
    (fuel : ℕ) (mem : List PhysMemoryRange) (addr : ℕ) (buf : ℕ → ℕ) (pos : ℕ)
    → to_ram fuel mem addr buf pos 0 ≡ some (mem, true)
unfolding to_ram
to_ram-zero zero mem addr buf pos = refl
to_ram-zero (suc fuel) mem addr buf pos = refl

module _ (i : ℕ) (pr : PhysMemoryRange) where
  -- The offset in the range behind a first part.
  next_offset :
      (mem : List PhysMemoryRange) (addr count l : ℕ)
      → InOne mem i pr addr count
      → l < count
      → (addr + l) % 2 ^ 64 - pr.addr ≡ addr - pr.addr + l
  next_offset mem addr count l h lt =
      let e : (addr + l) % 2 ^ 64 ≡ addr + l = omega (arith, h.inside) in omega (arith, h.low, e)

  from_ram-one :
      (fuel : ℕ) (mem : List PhysMemoryRange) (buf : ℕ → ℕ) (pos addr count : ℕ)
      → count ≤ fuel
      → InOne mem i pr addr count
      → from_ram fuel mem buf pos addr count
        ≡ some (memcpy buf pos pr.phys_mem (addr - pr.addr) count, true)
  unfolding from_ram bytes_at
  from_ram-one zero mem buf pos addr zero le h =
      rw (memcpy-zero buf pos pr.phys_mem (addr - pr.addr)) refl
  from_ram-one (suc fuel) mem buf pos addr zero le h =
      rw (memcpy-zero buf pos pr.phys_mem (addr - pr.addr)) refl
  from_ram-one zero mem buf pos addr (suc c) le h = absurd (omega arith)
  from_ram-one (suc fuel) mem buf pos addr (suc c) le h =
      let l = in_page addr (suc c) in
      let (pos_l, le_l) = in_page-bounds addr c in
      let off = addr - pr.addr in
      let src = pr.phys_mem in
      let part = memcpy buf pos src off l in
      let bytes : bytes_at mem i ≡ src = rw (bytes_at, h.stands) refl in
      let step : from_ram (suc fuel) mem buf pos addr (suc c)
          ≡ from_ram fuel mem (memcpy buf pos (bytes_at mem i) off l) (pos + l)
              ((addr + l) % 2 ^ 64) (suc c - l) =
        rw (from_ram, get_ram_ptr-one mem i pr addr c h) refl in
      let goal_of_rest : from_ram fuel mem part (pos + l) ((addr + l) % 2 ^ 64) (suc c - l)
          ≡ some (memcpy buf pos src off (suc c), true) =
        elim (cut addr c) [
          | inl whole ↦
              let none_left : suc c - l ≡ 0 = omega arith in
              rw (none_left, from_ram-zero fuel mem part (pos + l) ((addr + l) % 2 ^ 64))
                (ap (λ (n : ℕ). some (memcpy buf pos src off n, true)) whole)
          | inr lt ↦
              let ih =
                from_ram-one fuel mem part (pos + l) ((addr + l) % 2 ^ 64) (suc c - l) (omega arith)
                  (left_InOne mem i pr addr (suc c) l h lt) in
              ih
              ∙ ap (λ (b : ℕ → ℕ). some (b, true))
                  (ap (λ (o : ℕ). memcpy part (pos + l) src o (suc c - l))
                      (next_offset mem addr (suc c) l h lt)
                    ∙ memcpy-memcpy buf pos src off l (suc c - l)
                    ∙ ap (λ (n : ℕ). memcpy buf pos src off n) (omega arith))
        ] in
      step
      ∙ ap
          (λ (b : ℕ → ℕ).
            from_ram fuel mem (memcpy buf pos b off l) (pos + l) ((addr + l) % 2 ^ 64) (suc c - l))
          bytes
      ∙ goal_of_rest

-- The range with a part of the buffer copied into it.
abbrev copied_range : PhysMemoryRange → ℕ → (ℕ → ℕ) → ℕ → ℕ → PhysMemoryRange
copied_range pr off buf pos l = record pr { phys_mem = memcpy pr.phys_mem off buf pos l }

copy_in-one :
    (mem : List PhysMemoryRange) (i : ℕ) (pr : PhysMemoryRange) (off : ℕ) (buf : ℕ → ℕ) (pos l : ℕ)
    → get_elem? mem i ≡ some pr
    → copy_in mem i off buf pos l ≡ set mem i (copied_range pr off buf pos l)
unfolding copy_in
copy_in-one mem i pr off buf pos l e = rw (copy_in, e) refl

-- What a range holds does not matter.
pub held_InOne :
    (mem : List PhysMemoryRange) (i : ℕ) (pr : PhysMemoryRange) (f : ℕ → ℕ) (addr count : ℕ)
    → InOne mem i pr addr count
    → InOne (set mem i (record pr { phys_mem = f })) i (record pr { phys_mem = f }) addr count
held_InOne mem i pr f addr count h =
    let qr = record pr { phys_mem = f } in
    record {
      stands = get_elem?-set_self mem i qr pr h.stands;
      ram = h.ram;
      low = h.low;
      inside = h.inside;
      found = λ a le lt. same_place mem i pr qr a h.stands refl refl ∙ h.found a le lt;
    }

copied_InOne :
    (mem : List PhysMemoryRange) (i : ℕ) (pr : PhysMemoryRange) (off : ℕ) (buf : ℕ → ℕ)
    (pos l addr count : ℕ)
    → InOne mem i pr addr count
    → InOne (copy_in mem i off buf pos l) i (copied_range pr off buf pos l) addr count
copied_InOne mem i pr off buf pos l addr count h =
    rw (copy_in-one mem i pr off buf pos l h.stands)
      (held_InOne mem i pr (memcpy pr.phys_mem off buf pos l) addr count h)

copy_in-zero :
    (mem : List PhysMemoryRange) (i : ℕ) (pr : PhysMemoryRange) (off : ℕ) (buf : ℕ → ℕ) (pos : ℕ)
    → get_elem? mem i ≡ some pr
    → copy_in mem i off buf pos 0 ≡ mem
copy_in-zero mem i pr off buf pos e =
    copy_in-one mem i pr off buf pos 0 e
    ∙ ap (λ (f : ℕ → ℕ). set mem i (record pr { phys_mem = f }))
        (memcpy-zero pr.phys_mem off buf pos)
    ∙ set_same mem i pr e

copy_in-copy_in :
    (mem : List PhysMemoryRange) (i : ℕ) (pr : PhysMemoryRange) (off : ℕ) (buf : ℕ → ℕ)
    (pos n m : ℕ)
    → get_elem? mem i ≡ some pr
    → copy_in (copy_in mem i off buf pos n) i (off + n) buf (pos + n) m
      ≡ copy_in mem i off buf pos (n + m)
copy_in-copy_in mem i pr off buf pos n m e =
    let qr = copied_range pr off buf pos n in
    ap (λ (r : List PhysMemoryRange). copy_in r i (off + n) buf (pos + n) m)
      (copy_in-one mem i pr off buf pos n e)
    ∙ copy_in-one (set mem i qr) i qr (off + n) buf (pos + n) m (get_elem?-set_self mem i qr pr e)
    ∙ set-set mem i qr (copied_range qr (off + n) buf (pos + n) m)
    ∙ ap (λ (f : ℕ → ℕ). set mem i (record pr { phys_mem = f }))
        (memcpy-memcpy pr.phys_mem off buf pos n m)
    ∙ sym (copy_in-one mem i pr off buf pos (n + m) e)

to_ram-one :
    (i fuel : ℕ) (mem : List PhysMemoryRange) (pr : PhysMemoryRange) (addr : ℕ) (buf : ℕ → ℕ)
    (pos count : ℕ)
    → count ≤ fuel
    → InOne mem i pr addr count
    → to_ram fuel mem addr buf pos count ≡ some (copy_in mem i (addr - pr.addr) buf pos count, true)
unfolding to_ram
to_ram-one i zero mem pr addr buf pos zero le h =
    rw (copy_in-zero mem i pr (addr - pr.addr) buf pos h.stands) refl
to_ram-one i (suc fuel) mem pr addr buf pos zero le h =
    rw (copy_in-zero mem i pr (addr - pr.addr) buf pos h.stands) refl
to_ram-one i zero mem pr addr buf pos (suc c) le h = absurd (omega arith)
to_ram-one i (suc fuel) mem pr addr buf pos (suc c) le h =
    let l = in_page addr (suc c) in
    let (pos_l, le_l) = in_page-bounds addr c in
    let off = addr - pr.addr in
    let mem1 = copy_in mem i off buf pos l in
    let step : to_ram (suc fuel) mem addr buf pos (suc c)
        ≡ to_ram fuel mem1 ((addr + l) % 2 ^ 64) buf (pos + l) (suc c - l) =
      rw (to_ram, get_ram_ptr-one mem i pr addr c h) refl in
    step ∙ elim (cut addr c) [
      | inl whole ↦
          let none_left : suc c - l ≡ 0 = omega arith in
          rw (none_left, to_ram-zero fuel mem1 ((addr + l) % 2 ^ 64) buf (pos + l))
            (ap (λ (n : ℕ). some (copy_in mem i off buf pos n, true)) whole)
      | inr lt ↦
          let qr = copied_range pr off buf pos l in
          let ih =
            to_ram-one i fuel mem1 qr ((addr + l) % 2 ^ 64) buf (pos + l) (suc c - l) (omega arith)
              (copied_InOne mem i pr off buf pos l ((addr + l) % 2 ^ 64) (suc c - l)
                (left_InOne mem i pr addr (suc c) l h lt)) in
          ih
          ∙ ap (λ (r : List PhysMemoryRange). some (r, true))
              (ap (λ (o : ℕ). copy_in mem1 i o buf (pos + l) (suc c - l))
                  (next_offset i pr mem addr (suc c) l h lt)
                ∙ copy_in-copy_in mem i pr off buf pos l (suc c - l) h.stands
                ∙ ap (λ (n : ℕ). copy_in mem i off buf pos n) (omega arith))
    ]

-- A copy to or from RAM whose bytes all belong to one range returns 0, and is one memcpy between the
-- buffer and the range, whatever pages it crosses.
pub virtio_memcpy-memcpy :
    (s : VirtioDevice) (i : ℕ) (pr : PhysMemoryRange) (addr : ℕ) (buf : ℕ → ℕ) (pos count : ℕ)
    → InOne s.mem_map i pr addr count
    → (virtio_memcpy_to_ram s addr buf pos count
        ≡ some (record s { mem_map = copy_in s.mem_map i (addr - pr.addr) buf pos count }, true))
      × (virtio_memcpy_from_ram s buf pos addr count
          ≡ some (memcpy buf pos pr.phys_mem (addr - pr.addr) count, true))
unfolding virtio_memcpy_to_ram virtio_memcpy_from_ram
virtio_memcpy-memcpy s i pr addr buf pos count h = (
  rw (to_ram-one i count s.mem_map pr addr buf pos count (omega arith) h) refl,
  from_ram-one i pr count s.mem_map buf pos addr count (omega arith) h,
)

memcpy-back :
    (dst : ℕ → ℕ) (d : ℕ) (old : ℕ → ℕ) (o : ℕ) (buf : ℕ → ℕ) (pos n : ℕ)
    → memcpy dst d (memcpy old o buf pos n) o n ≡ memcpy dst d buf pos n
unfolding memcpy
memcpy-back dst d old o buf pos n =
    fun_ext (λ i. let a : o + (i - d) - o ≡ i - d = omega arith in ground (arith, a))

-- A copy from RAM after a copy to the same bytes of one range gives back what was copied.
pub memcpy_from_ram-memcpy_to_ram :
    (s : VirtioDevice) (i : ℕ) (pr : PhysMemoryRange) (addr : ℕ) (buf : ℕ → ℕ) (pos : ℕ)
    (into : ℕ → ℕ) (at count : ℕ)
    → InOne s.mem_map i pr addr count
    → (virtio_memcpy_to_ram s addr buf pos count
        >>= (λ r. virtio_memcpy_from_ram r.0 into at addr count))
      ≡ some (memcpy into at buf pos count, true)
memcpy_from_ram-memcpy_to_ram s i pr addr buf pos into at count h =
    let off = addr - pr.addr in
    let qr = copied_range pr off buf pos count in
    let t : VirtioDevice = record s { mem_map = copy_in s.mem_map i off buf pos count } in
    let back =
      (virtio_memcpy-memcpy t i qr addr into at count
        (copied_InOne s.mem_map i pr off buf pos count addr count h)).1 in
    rw ((virtio_memcpy-memcpy s i pr addr buf pos count h).0) (
      back ∙ ap (λ (f : ℕ → ℕ). some (f, true)) (memcpy-back into at pr.phys_mem off buf pos count))
