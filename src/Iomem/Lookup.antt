-- ===== src/Iomem/Lookup.antt =====
-- Which range an address belongs to.
use dromajo.Prelude.{
  ℕ, zero, suc, ◌+◌, ◌%◌, ◌^◌, ◌<◌, ◌≡◌, inl, inr, refl, ◌&&◌, true, false, none, some, List, [],
  ◌∷◌, ◌++◌, ltb, leb, if◌then◌else◌, length, get_elem?, arith, Option-cases,
}
use dromajo.Prelude.Bits.{test_bit}
use dromajo.Iomem.{
  PhysMemoryRange, contains, get_phys_mem_range, default_register_ram, register_ram_entry,
  ram_entry, with_dirty_bits, default_set_addr,
}

-- Range `i` is the one that answers: it holds the address, and no later range does.
pub record Answers (s : List PhysMemoryRange) (paddr i : ℕ) : Type 0 where
  pub range : PhysMemoryRange
  pub stands : get_elem? s i ≡ some range
  pub holds : contains range paddr ≡ true
  pub latest :
      (j : ℕ) (other : PhysMemoryRange)
      → i < j
      → get_elem? s j ≡ some other
      → contains other paddr ≡ false

shift_Answers :
    (pr : PhysMemoryRange) (rest : List PhysMemoryRange) (paddr i : ℕ)
    → Answers rest paddr i
    → Answers (pr ∷ rest) paddr (suc i)
shift_Answers pr rest paddr i a = record {
  range = a.range;
  stands = a.stands;
  holds = a.holds;
  latest = later;
}
  where
    later :
        (j : ℕ) (other : PhysMemoryRange)
        → suc i < j
        → get_elem? (pr ∷ rest) j ≡ some other
        → contains other paddr ≡ false
    later zero other lt e = absurd (omega arith)
    later (suc j) other lt e = a.latest j other (omega arith) e

-- No range holds an address that the lookup does not find.
pub get_phys_mem_range-none :
    (s : List PhysMemoryRange) (paddr : ℕ)
    → get_phys_mem_range s paddr ≡ none
    → (j : ℕ) (other : PhysMemoryRange) → get_elem? s j ≡ some other
    → contains other paddr ≡ false
unfolding get_phys_mem_range
get_phys_mem_range-none [] paddr h j other e = cc
get_phys_mem_range-none (pr ∷ rest) paddr h zero other e = ground arith
get_phys_mem_range-none (pr ∷ rest) paddr h (suc j) other e =
    get_phys_mem_range-none rest paddr (ground arith) j other e

head_Answers :
    (pr : PhysMemoryRange) (rest : List PhysMemoryRange) (paddr : ℕ)
    → get_phys_mem_range rest paddr ≡ none
    → contains pr paddr ≡ true
    → Answers (pr ∷ rest) paddr 0
head_Answers pr rest paddr h c = record { range = pr; stands = refl; holds = c; latest = later }
  where
    later :
        (j : ℕ) (other : PhysMemoryRange)
        → 0 < j
        → get_elem? (pr ∷ rest) j ≡ some other
        → contains other paddr ≡ false
    later zero other lt e = absurd (omega arith)
    later (suc j) other lt e = get_phys_mem_range-none rest paddr h j other e

-- A lookup that succeeds gives the latest range that holds the address.
pub get_phys_mem_range-Answers :
    (s : List PhysMemoryRange) (paddr i : ℕ)
    → get_phys_mem_range s paddr ≡ some i
    → Answers s paddr i
unfolding get_phys_mem_range
get_phys_mem_range-Answers [] paddr i h = cc
get_phys_mem_range-Answers (pr ∷ rest) paddr i h =
    elim (Option-cases (get_phys_mem_range rest paddr)) [
      | inl e ↦ (let z : i ≡ 0 = ground arith in rw z (head_Answers pr rest paddr e (ground arith)))
      | inr (k, e) ↦
          (let z : i ≡ suc k = ground arith in
            rw z (shift_Answers pr rest paddr k (get_phys_mem_range-Answers rest paddr k e)))
    ]

-- A new range answers for its addresses, and every other address keeps its answer.
pub get_phys_mem_range-append :
    (s : List PhysMemoryRange) (pr : PhysMemoryRange) (paddr : ℕ)
    → get_phys_mem_range (s ++ pr ∷ []) paddr
      ≡ (if contains pr paddr then some (length s) else get_phys_mem_range s paddr)
unfolding get_phys_mem_range
get_phys_mem_range-append [] pr paddr = refl
get_phys_mem_range-append (x ∷ s) pr paddr = ground (arith, get_phys_mem_range-append s pr paddr)

contains_ram :
    (addr size flags paddr : ℕ)
    → addr + size < 2 ^ 64
    → test_bit flags 2 ≡ false
    → contains (with_dirty_bits (ram_entry addr size flags) size flags) paddr
      ≡ (leb addr paddr && ltb paddr (addr + size))
unfolding contains with_dirty_bits ram_entry
contains_ram addr size flags paddr fits enabled = ground arith

-- RAM of whole pages that is registered as enabled in a map with room, at addresses that do not
-- wrap, answers for the addresses from `addr` up to its size; every other address keeps its answer.
pub default_register_ram_lem :
    (s : List PhysMemoryRange) (addr size flags paddr : ℕ)
    → addr + size < 2 ^ 64
    → length s < 32
    → size % 4096 ≡ 0
    → 0 < size
    → test_bit flags 2 ≡ false
    → (t : List PhysMemoryRange) × (default_register_ram s addr size flags ≡ some t)
      × (get_phys_mem_range t paddr ≡ (
          if leb addr paddr && ltb paddr (addr + size)
          then some (length s)
          else get_phys_mem_range s paddr))
unfolding default_register_ram register_ram_entry
default_register_ram_lem s addr size flags paddr fits room pages pos enabled =
    let pr = with_dirty_bits (ram_entry addr size flags) size flags in
    (
      s ++ pr ∷ [],
      ground arith,
      rw (get_phys_mem_range-append s pr paddr, contains_ram addr size flags paddr fits enabled)
          refl,
    )

-- A mapping that is disabled answers for no address.
pub default_set_addr-disabled :
    (pr : PhysMemoryRange) (addr paddr : ℕ)
    → pr.addr < 2 ^ 64
    → contains (default_set_addr pr addr false).0 paddr ≡ false
unfolding contains default_set_addr
default_set_addr-disabled pr addr paddr fits = ground arith

-- Disabling a mapping and enabling it again at an address gives the range its whole size there;
-- the write TLBs are flushed by both steps if it was mapped RAM of some size.
pub default_set_addr_twice :
    (pr : PhysMemoryRange) (addr : ℕ)
    → let off = default_set_addr pr 0 false in
      let on = default_set_addr off.0 addr true in
      (on.0.addr ≡ addr) × (on.0.size ≡ pr.org_size) × (on.1 ≡ pr.is_ram)
unfolding default_set_addr
default_set_addr_twice pr addr = ground arith
