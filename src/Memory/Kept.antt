-- ===== src/Memory/Kept.antt =====
-- What the loads and stores leave of the hart, and the size of what a load gives.
use native.Mathlib.Nat.{pow-suc, mod-lt, one-le-pow}
use dromajo.Prelude.{
  ℕ, zero, suc, ◌+◌, ◌-◌, ◌*◌, ◌%◌, ◌^◌, ◌<◌, ◌≡◌, refl, Bool, true, false, List, [], ◌∷◌, arith,
  inl, inr, if◌then◌else◌, get_elem?, bit_or, Option-cases, ◌==◌,
}
use dromajo.Cpu.State.{Cpu}
use dromajo.Iomem.{PhysMemoryRange, get_phys_mem_range}
use dromajo.Cpu.Mmu.{PhysRead, loaded, failed, crashed, load_le}
use dromajo.Memory.Trigger.{check_from, check_triggers, fire, mcontrol_load, mcontrol_store}
use dromajo.Memory.{
  Hart, DeviceIo, read_ram, tlb_load, target_read, target_write, truncate, riscv_cpu_read_memory,
  riscv_cpu_write_memory, read_range_at, write_range_at, device_read, device_write, tlb_store, pend,
  fill_read, fill_write, count_store, misaligned, tlb_idx, tag_of,
}

-- The trigger that fires leaves the registers.
check_from-reg :
    (as1 bs : List ℕ) (s : Cpu) (m addr : ℕ) → (check_from as1 bs s m addr).1.reg ≡ s.reg
unfolding check_from fire
check_from-reg [] bs s m addr = refl
check_from-reg (a ∷ as1) [] s m addr = refl
check_from-reg (a ∷ as1) (b ∷ bs) s m addr = ground (arith, check_from-reg as1 bs s m addr)

check_triggers-reg : (s : Cpu) (m addr : ℕ) → (check_triggers s m addr).1.reg ≡ s.reg
unfolding check_triggers
check_triggers-reg s m addr =
    ground (arith, check_from-reg s.tdata1 s.tdata2 s (bit_or m (8 * 2 ^ s.priv)) addr)

pub wider : (n : ℕ) → 2 ^ (8 * suc n) ≡ 256 * 2 ^ (8 * n)
wider n =
    let e : 8 * suc n ≡ suc (suc (suc (suc (suc (suc (suc (suc (8 * n)))))))) = omega arith in
    rw e (
      omega (
        arith,
        pow-suc 2 (8 * n),
        pow-suc 2 (8 * n + 1),
        pow-suc 2 (8 * n + 2),
        pow-suc 2 (8 * n + 3),
        pow-suc 2 (8 * n + 4),
        pow-suc 2 (8 * n + 5),
        pow-suc 2 (8 * n + 6),
        pow-suc 2 (8 * n + 7),
      ))

load_le-lt : (bytes : ℕ → ℕ) (n off : ℕ) → load_le bytes n off < 2 ^ (8 * n)
unfolding load_le
load_le-lt bytes zero off = omega arith
load_le-lt bytes (suc n) off =
    let e : 2 ^ (8 * suc n) ≡ 256 * 2 ^ (8 * n) = wider n in
    omega (arith, e, load_le-lt bytes n (off + 1))

module _ {D : Type 0} (io : DeviceIo D) where
  read_ram-lt : (m : List PhysMemoryRange) (k i off : ℕ) → read_ram m k i off < 2 ^ (8 * 2 ^ k)
  unfolding read_ram
  read_ram-lt m k i off = elim (Option-cases (get_elem? m i)) [
    | inl e ↦ ground (arith, e, one-le-pow (8 * 2 ^ k) 2)
    | inr (pr, e) ↦ ground (arith, e, load_le-lt pr.phys_mem (2 ^ k) off)
  ]

  device_read-reg :
      (h : Hart D) (i : ℕ) (pr : PhysMemoryRange) (off k : ℕ)
      → (device_read io h i pr off k).1.cpu.reg ≡ h.cpu.reg
  unfolding device_read
  device_read-reg h i pr off k = ground arith

  device_write-reg :
      (h : Hart D) (i : ℕ) (pr : PhysMemoryRange) (off v k : ℕ)
      → (device_write io h i pr off v k).cpu.reg ≡ h.cpu.reg
  unfolding device_write
  device_write-reg h i pr off v k = ground arith

  read_range_at-reg :
      (h : Hart D) (k addr paddr : ℕ) → (read_range_at io h k addr paddr).1.cpu.reg ≡ h.cpu.reg
  unfolding read_range_at fill_read
  read_range_at-reg h k addr paddr = elim (Option-cases (get_phys_mem_range h.mem_map paddr)) [
    | inl e ↦ ground (arith, e)
    | inr (i, e) ↦ elim (Option-cases (get_elem? h.mem_map i)) [
      | inl f ↦ ground (arith, e, f)
      | inr (pr, f) ↦ ground (arith, e, f, device_read-reg h i pr (paddr - pr.addr) k)
    ]
  ]

  write_range_at-reg :
      (h : Hart D) (k addr paddr v : ℕ) → (write_range_at io h k addr paddr v).cpu.reg ≡ h.cpu.reg
  unfolding write_range_at fill_write count_store
  write_range_at-reg h k addr paddr v = elim (Option-cases (get_phys_mem_range h.mem_map paddr)) [
    | inl e ↦ ground (arith, e)
    | inr (i, e) ↦ elim (Option-cases (get_elem? h.mem_map i)) [
      | inl f ↦ ground (arith, e, f)
      | inr (pr, f) ↦ ground (arith, e, f, device_write-reg h i pr (paddr - pr.addr) v k)
    ]
  ]

  read_memory-reg :
      (h : Hart D) (k addr : ℕ) → (riscv_cpu_read_memory io h k addr).1.cpu.reg ≡ h.cpu.reg
  unfolding riscv_cpu_read_memory pend
  read_memory-reg h k addr = grind (arith, read_range_at-reg)

  truncate-hart : (k : ℕ) (r : PhysRead × Hart D) → (truncate k r).1 ≡ r.1
  unfolding truncate
  truncate-hart k (loaded v, h) = refl
  truncate-hart k (failed, h) = refl
  truncate-hart k (crashed, h) = refl

  pub target_read-reg : (h : Hart D) (k addr : ℕ) → (target_read io h k addr).1.cpu.reg ≡ h.cpu.reg
  unfolding target_read pend
  target_read-reg h k addr = ground (
    arith,
    read_memory-reg h k addr,
    truncate-hart k (riscv_cpu_read_memory io h k addr),
    check_triggers-reg h.cpu mcontrol_load addr,
  )

  write_memory-reg :
      (h : Hart D) (k addr v : ℕ) → (riscv_cpu_write_memory io h k addr v).1.cpu.reg ≡ h.cpu.reg
  unfolding riscv_cpu_write_memory pend
  write_memory-reg h k addr v = grind (arith, write_range_at-reg)

  pub target_write-reg :
      (h : Hart D) (k addr v : ℕ) → (target_write io h k addr v).1.cpu.reg ≡ h.cpu.reg
  unfolding target_write tlb_store count_store pend
  target_write-reg h k addr v = ground (
    arith,
    write_memory-reg h k addr (v % 2 ^ (8 * 2 ^ k)),
    check_triggers-reg h.cpu mcontrol_store addr,
  )

  -- The value of a read, if there is one, has the size of the access.
  abbrev pub Narrow : ℕ → PhysRead × Hart D → Type 0
  Narrow k (loaded v, h) = v < 2 ^ (8 * 2 ^ k)
  Narrow k (failed, h) = Unit
  Narrow k (crashed, h) = Unit

  either_Narrow :
      (k : ℕ) (c : Bool) (x y : PhysRead × Hart D)
      → Narrow k x
      → Narrow k y
      → Narrow k (if c then x else y)
  either_Narrow k true x y p q = p
  either_Narrow k false x y p q = q

  truncate-Narrow : (k : ℕ) (r : PhysRead × Hart D) → Narrow k (truncate k r)
  unfolding truncate
  truncate-Narrow k (loaded v, h) = mod-lt v (omega (arith, one-le-pow (8 * 2 ^ k) 2))
  truncate-Narrow k (failed, h) = tt
  truncate-Narrow k (crashed, h) = tt

  pub target_read-Narrow : (h : Hart D) (k addr : ℕ) → Narrow k (target_read io h k addr)
  unfolding target_read tlb_load
  target_read-Narrow h k addr =
      let c = misaligned k addr in
      either_Narrow k (check_triggers h.cpu mcontrol_load addr).0 _ _ tt (
        either_Narrow k c _ _ tt (
          either_Narrow k (h.cpu.tlb_read (tlb_idx addr) == tag_of k addr) _ _
            (read_ram-lt h.mem_map k (h.tlb_read_addend (tlb_idx addr)).range
              (((h.tlb_read_addend (tlb_idx addr)).addend + addr) % 2 ^ 64))
            (truncate-Narrow k (riscv_cpu_read_memory io h k addr))))
