-- ===== src/Cpu/Mmu/Walk.antt =====
-- What a translation that succeeds stands on.
use dromajo.Prelude.{
  ℕ, zero, suc, ◌+◌, ◌-◌, ◌*◌, ◌/◌, ◌%◌, ◌^◌, ◌≤◌, ◌<◌, ◌≡◌, ◌⊎◌, inl, inr, refl, true, ◌==◌, List,
  if◌then◌else◌, arith, bit_and, Bool-cases, ◌≢◌, not,
}
use dromajo.Prelude.Bits.{test_bit, sign_extend}
use dromajo.Cpu.Constants.{prv_m}
use dromajo.Cpu.State.{Cpu}
use dromajo.Cpu.Pmp.{data_priv}
use dromajo.Iomem.{PhysMemoryRange}
use dromajo.Cpu.Mmu.{
  Access, access_number, PhysRead, loaded, failed, crashed, phys, page_fault, leaf, walk,
  entry_addr, riscv_cpu_get_phys_addr, riscv_phys_read_u64,
}
use dromajo.Cpu.Mmu.Leaf.{Grants, leaf-Grants, leaf-in_page, in_page}

module _ (s : Cpu) (vaddr : ℕ) (access : Access) (priv : ℕ) (read_pte : ℕ → PhysRead) where
  -- `p` is where a valid leaf entry, read from memory at its place in a table, maps `vaddr`, and the
  -- entry grants the access.
  pub record MappedBy (levels p : ℕ) : Type 0 where
    pub level : ℕ
    pub in_levels : level < levels
    pub table : ℕ
    pub pte : ℕ
    pub found : read_pte (entry_addr vaddr level table) ≡ loaded pte
    pub valid : test_bit pte 0 ≡ true
    pub grants : Grants s access priv pte
    pub address : p ≡ in_page level pte vaddr

  PhysRead-cases : (r : PhysRead) → ((pte : ℕ) × (r ≡ loaded pte)) ⊎ ((r ≡ failed) ⊎ (r ≡ crashed))
  PhysRead-cases (loaded pte) = inl (pte, refl)
  PhysRead-cases failed = inr (inl refl)
  PhysRead-cases crashed = inr (inr refl)

  walk_step :
      (j table pte : ℕ)
      → read_pte (entry_addr vaddr j table) ≡ loaded pte
      → walk s vaddr access priv read_pte (suc j) table ≡ (
          if not (test_bit pte 0)
          then page_fault
          else if bit_and (pte / 2) 7 == 0
          then walk s vaddr access priv read_pte j (pte / 2 ^ 10 * 2 ^ 12 % 2 ^ 64)
          else leaf s vaddr access priv j pte)
  unfolding walk
  walk_step j table pte e = rw (e, walk)

  walk_refused :
      (j table p : ℕ)
      → (read_pte (entry_addr vaddr j table) ≡ failed)
        ⊎ (read_pte (entry_addr vaddr j table) ≡ crashed)
      → walk s vaddr access priv read_pte (suc j) table ≢ phys p
  unfolding walk
  walk_refused j table p (inl e) = rw (e, walk) (λ h. cc)
  walk_refused j table p (inr e) = rw (e, walk) (λ h. cc)

  pub walk-MappedBy :
      (levels table p : ℕ)
      → levels ≤ 5
      → walk s vaddr access priv read_pte levels table ≡ phys p
      → MappedBy levels p
  unfolding walk
  walk-MappedBy zero table p small h = absurd (cc h)
  walk-MappedBy (suc j) table p small h =
      elim (PhysRead-cases (read_pte (entry_addr vaddr j table))) [
        | inl (pte, e) ↦ elim (Bool-cases (bit_and (pte / 2) 7 == 0)) [
          | inl pointer ↦
              (let next =
                  walk-MappedBy j (pte / 2 ^ 10 * 2 ^ 12 % 2 ^ 64) p (omega arith)
                    (ground (arith, walk_step j table pte e)) in
                record {
                  level = next.level;
                  in_levels = omega (arith, next.in_levels);
                  table = next.table;
                  pte = next.pte;
                  found = next.found;
                  valid = next.valid;
                  grants = next.grants;
                  address = next.address;
                })
          | inr last ↦
              (let ok : leaf s vaddr access priv j pte ≡ phys p =
                  ground (arith, walk_step j table pte e) in
                record {
                  level = j;
                  in_levels = omega arith;
                  table = table;
                  pte = pte;
                  found = e;
                  valid = ground (arith, walk_step j table pte e);
                  grants = leaf-Grants s vaddr access priv j pte p ok;
                  address = leaf-in_page s vaddr access priv j pte p (omega arith) ok;
                })
        ]
        | inr e ↦ absurd (walk_refused j table p e h)
      ]

in_page-offset : (j pte v : ℕ) → j < 5 → in_page j pte v % 2 ^ 12 ≡ v % 2 ^ 12
in_page-offset zero pte v h = omega arith
in_page-offset (suc zero) pte v h = omega arith
in_page-offset (suc (suc zero)) pte v h = omega arith
in_page-offset (suc (suc (suc zero))) pte v h = omega arith
in_page-offset (suc (suc (suc (suc zero)))) pte v h = omega arith
in_page-offset (suc (suc (suc (suc (suc j))))) pte v h = absurd (omega arith)

-- A translation that succeeds below machine mode, with paging on (Sv39 or Sv48), is given by a leaf
-- entry that is valid, was read from memory and grants the access; the virtual address is
-- canonical, and its offset in the four-kilobyte page is kept.
pub get_phys_addr-MappedBy :
    (s : Cpu) (mem_map : List PhysMemoryRange) (vaddr : ℕ) (access : Access) (p : ℕ)
    → let priv = if access_number access == 2 then s.priv else data_priv s in
      let mode = bit_and (s.satp / 2 ^ 60) 15 in
      priv ≢ prv_m
      → (mode ≡ 8) ⊎ (mode ≡ 9)
      → riscv_cpu_get_phys_addr s mem_map vaddr access ≡ phys p
      → (sign_extend (12 + (mode - 5) * 9) vaddr ≡ vaddr)
        × MappedBy s vaddr access priv (riscv_phys_read_u64 s mem_map) (mode - 5) p
        × (p % 2 ^ 12 ≡ vaddr % 2 ^ 12)
unfolding riscv_cpu_get_phys_addr
get_phys_addr-MappedBy s mem_map vaddr access p low on h =
    let priv = if access_number access == 2 then s.priv else data_priv s in
    let mode = bit_and (s.satp / 2 ^ 60) 15 in
    let m =
      walk-MappedBy s vaddr access priv (riscv_phys_read_u64 s mem_map) (mode - 5)
        (bit_and s.satp (2 ^ 44 - 1) * 2 ^ 12) p (omega arith) (ground arith) in
    (
      ground arith,
      m,
      omega (
        arith,
        m.address,
        m.in_levels,
        in_page-offset m.level m.pte vaddr (omega (arith, m.in_levels)),
      ),
    )
