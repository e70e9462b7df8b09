-- ===== src/Iomem.antt =====
-- The physical memory map: src/iomem.cpp and include/iomem.h. A map is the list of its ranges in
-- the order of registration, `phys_mem_range[0 .. n_phys_mem_range)`; a pointer to a range is its
-- index. `phys_mem` is the content of a RAM range, byte by byte; a device has none. An `assert` that
-- fails gives `none`.
pub mod Lookup
pub mod Dirty
use dromajo.Prelude.{
  ℕ, suc, ◌+◌, ◌-◌, ◌*◌, ◌/◌, ◌%◌, ◌^◌, ◌&&◌, ◌||◌, Bool, true, false, not, Option, none, some,
  List, [], ◌∷◌, ◌++◌, replicate, ◌==◌, ltb, leb, if◌then◌else◌, length, set, get_or, bit_and,
  bit_or, map,
}
use dromajo.Prelude.Bits.{test_bit, bit_not}

abbrev pub devram_page_size : ℕ
devram_page_size = 2 ^ 12

abbrev pub phys_mem_range_max : ℕ
phys_mem_range_max = 32

pub record PhysMemoryRange : Type 0 where
  pub addr : ℕ
  pub org_size : ℕ
  pub size : ℕ
  pub is_ram : Bool
  pub devram_flags : ℕ
  pub phys_mem : ℕ → ℕ
  -- The two bitmaps, if dirty bits are kept, and which of them is in use.
  pub has_dirty_bits : Bool
  pub dirty_bits : List ℕ
  pub dirty_bits_other : List ℕ
  pub devio_flags : ℕ

unfoldable pub contains : PhysMemoryRange → ℕ → Bool
contains pr paddr = leb pr.addr paddr && ltb paddr ((pr.addr + pr.size) % 2 ^ 64)

-- The loop runs from the last range down, so the latest registration wins.
unfoldable pub get_phys_mem_range : List PhysMemoryRange → ℕ → Option ℕ
get_phys_mem_range [] paddr = none
get_phys_mem_range (pr ∷ rest) paddr = elim (get_phys_mem_range rest paddr) [
  | some i ↦ some (suc i)
  | none ↦ if contains pr paddr then some 0 else none
]

-- Flags of a RAM range: bit 1 asks for dirty bits, bit 2 leaves the range unmapped.
unfoldable pub ram_entry : ℕ → ℕ → ℕ → PhysMemoryRange
ram_entry addr size devram_flags = record {
  addr = addr;
  org_size = size;
  size = if test_bit devram_flags 2 then 0 else size;
  is_ram = true;
  devram_flags = bit_and devram_flags (bit_not 32 4);
  phys_mem = λ _. 0;
  has_dirty_bits = false;
  dirty_bits = [];
  dirty_bits_other = [];
  devio_flags = 0;
}

unfoldable pub register_ram_entry :
    List PhysMemoryRange → PhysMemoryRange → ℕ → Option (List PhysMemoryRange)
register_ram_entry s pr size =
    if ltb (length s) phys_mem_range_max && (size % devram_page_size == 0 && not (size == 0))
    then some (s ++ pr ∷ [])
    else none

-- The bitmaps of `default_register_ram`: one bit for each page, rounded up to words of 32.
unfoldable pub with_dirty_bits : PhysMemoryRange → ℕ → ℕ → PhysMemoryRange
with_dirty_bits pr size devram_flags =
    if test_bit devram_flags 1
    then (let words = (size / 2 ^ 12 + 31) / 32 in
        record pr {
          has_dirty_bits = true;
          dirty_bits = replicate words 0;
          dirty_bits_other = replicate words 0;
        })
    else pr

unfoldable pub default_register_ram :
    List PhysMemoryRange → ℕ → ℕ → ℕ → Option (List PhysMemoryRange)
default_register_ram s addr size devram_flags =
    register_ram_entry s (with_dirty_bits (ram_entry addr size devram_flags) size devram_flags) size

unfoldable pub cpu_register_device :
    List PhysMemoryRange → ℕ → ℕ → ℕ → Option (List PhysMemoryRange)
cpu_register_device s addr size devio_flags =
    if ltb (length s) phys_mem_range_max && leb size 0xffffffff
    then some (
        s
        ++ record {
          addr = addr;
          org_size = size;
          size = if test_bit devio_flags 4 then 0 else size;
          is_ram = false;
          devram_flags = 0;
          phys_mem = λ _. 0;
          has_dirty_bits = false;
          dirty_bits = [];
          dirty_bits_other = [];
          devio_flags = devio_flags;
        }
          ∷ [])
    else none

-- The range after `default_set_addr`, and whether the write TLBs of its RAM are flushed.
unfoldable pub default_set_addr : PhysMemoryRange → ℕ → Bool → PhysMemoryRange × Bool
default_set_addr pr addr true =
    if pr.size == 0 || not (pr.addr == addr)
    then (record pr { addr = addr; size = pr.org_size }, pr.is_ram)
    else (pr, false)
default_set_addr pr addr false =
    if pr.size == 0 then (pr, false) else (record pr { addr = 0; size = 0 }, pr.is_ram)

-- `phys_mem_set_dirty_bit` and `phys_mem_is_dirty_bit`: one bit for each page, 32 to a word.
unfoldable pub phys_mem_set_dirty_bit : PhysMemoryRange → ℕ → PhysMemoryRange
phys_mem_set_dirty_bit pr offset =
    if pr.has_dirty_bits
    then (let page_index = offset / 2 ^ 12 in
        record pr {
          dirty_bits =
              set pr.dirty_bits (page_index / 2 ^ 5) (
                bit_or (get_or pr.dirty_bits (page_index / 2 ^ 5) 0) (2 ^ bit_and page_index 0x1f));
        })
    else pr

unfoldable pub phys_mem_is_dirty_bit : PhysMemoryRange → ℕ → Bool
phys_mem_is_dirty_bit pr offset =
    if pr.has_dirty_bits
    then (let page_index = offset / 2 ^ 12 in
        test_bit (get_or pr.dirty_bits (page_index / 2 ^ 5) 0) (bit_and page_index 0x1f))
    else true

unfoldable pub any_dirty : List ℕ → Bool
any_dirty [] = false
any_dirty (w ∷ ws) = not (w == 0) || any_dirty ws

-- `default_get_dirty_bits`: the range with its bitmaps exchanged and the new one cleared, whether
-- the write TLBs are flushed, and the bitmap that was in use.
unfoldable pub default_get_dirty_bits : PhysMemoryRange → PhysMemoryRange × Bool × List ℕ
default_get_dirty_bits pr = (
  record pr { dirty_bits = map (λ _. 0) pr.dirty_bits_other; dirty_bits_other = pr.dirty_bits },
  any_dirty pr.dirty_bits && not (pr.size == 0),
  pr.dirty_bits,
)
