-- ===== src/Memory/Hit.antt =====
-- A load that hits the TLB entry which an earlier load filled.
use dromajo.Prelude.{
  ℕ, zero, suc, ◌+◌, ◌-◌, ◌*◌, ◌/◌, ◌%◌, ◌^◌, ◌≤◌, ◌<◌, ◌≡◌, refl, ap, ◌∙◌, sym, true, false, some,
  arith, get_elem?, bit_and, ◌==◌,
}
use dromajo.Prelude.Digits.{and_digit}
use dromajo.Prelude.Bits.{bit_not, bit_and-high, bit_and-low, mul_pow_suc, div_pow_suc}
use dromajo.Cpu.Mmu.{loaded}
use dromajo.Iomem.{PhysMemoryRange, get_phys_mem_range}
use dromajo.Memory.Trigger.{check_triggers, mcontrol_load}
use dromajo.Memory.{
  Hart, DeviceIo, read_ram, read_range_at, fill_read, target_read, misaligned, tlb_idx, tlb_load,
  page_of, tag_of, update,
}

-- A mask does not see the low bits of a multiple.
masked_multiple :
    (k x a b : ℕ) → a / 2 ^ k ≡ b / 2 ^ k → bit_and (x * 2 ^ k) a ≡ bit_and (x * 2 ^ k) b
masked_multiple zero x a b h =
    let e : a ≡ b = omega arith in ap (λ (n : ℕ). bit_and (x * 2 ^ 0) n) e
masked_multiple (suc k) x a b h =
    let half : x * 2 ^ suc k / 2 ≡ x * 2 ^ k = omega (arith, mul_pow_suc x k) in
    let last : x * 2 ^ suc k % 2 ≡ 0 = omega (arith, mul_pow_suc x k) in
    let rest : a / 2 / 2 ^ k ≡ b / 2 / 2 ^ k = sym (div_pow_suc a k) ∙ h ∙ div_pow_suc b k in
    ground (
      arith,
      and_digit (x * 2 ^ suc k) a,
      and_digit (x * 2 ^ suc k) b,
      half,
      last,
      masked_multiple k x (a / 2) (b / 2) rest,
    )

pub aligned-mod : (k addr : ℕ) → misaligned k addr ≡ false → addr % 2 ^ k ≡ 0
unfolding misaligned
aligned-mod k addr h = ground (arith, h, bit_and-low k addr)

page_of-sub : (addr : ℕ) → addr < 2 ^ 64 → page_of addr ≡ addr - addr % 2 ^ 12
unfolding page_of
page_of-sub addr w = bit_and-high 64 12 addr (omega arith) w

-- The tag of an aligned access is its page.
tag_of-page :
    (k addr : ℕ) → k ≤ 3 → addr < 2 ^ 64 → misaligned k addr ≡ false → tag_of k addr ≡ page_of addr
unfolding tag_of page_of
tag_of-page zero addr le w h = refl
tag_of-page (suc zero) addr le w h =
    let m = aligned-mod 1 addr h in
    let e : addr / 2 * 2 ^ 1 ≡ addr = omega arith in
    rw⁻¹ e (masked_multiple 1 (addr / 2) (bit_not 64 0xffe) (bit_not 64 0xfff) (omega arith))
tag_of-page (suc (suc zero)) addr le w h =
    let m = aligned-mod 2 addr h in
    let e : addr / 4 * 2 ^ 2 ≡ addr = omega arith in
    rw⁻¹ e (masked_multiple 2 (addr / 4) (bit_not 64 0xffc) (bit_not 64 0xfff) (omega arith))
tag_of-page (suc (suc (suc zero))) addr le w h =
    let m = aligned-mod 3 addr h in
    let e : addr / 8 * 2 ^ 3 ≡ addr = omega arith in
    rw⁻¹ e (masked_multiple 3 (addr / 8) (bit_not 64 0xff8) (bit_not 64 0xfff) (omega arith))
tag_of-page (suc (suc (suc (suc k)))) addr le w h = absurd (omega arith)

same_slot : (a b : ℕ) → a < 2 ^ 64 → b < 2 ^ 64 → page_of a ≡ page_of b → tlb_idx a ≡ tlb_idx b
unfolding tlb_idx
same_slot a b wa wb h =
    let e : a / 2 ^ 12 ≡ b / 2 ^ 12 = omega (arith, h, page_of-sub a wa, page_of-sub b wb) in
    ap (λ (n : ℕ). bit_and n 255) e

-- The offset in the range, through the addend of the entry.
through_addend :
    (off a b : ℕ)
    → a < 2 ^ 64
    → b < 2 ^ 64
    → a ≤ off + b
    → off + b < 2 ^ 64 + a
    → ((off + (2 ^ 64 - a)) % 2 ^ 64 + b) % 2 ^ 64 ≡ off + b - a
through_addend off a b wa wb le lt = omega arith

module _ {D : Type 0} (io : DeviceIo D) (h : Hart D) (i addr paddr : ℕ) (pr : PhysMemoryRange) where
  hit :
      (k addr2 : ℕ)
      → tlb_idx addr2 ≡ tlb_idx addr
      → tag_of k addr2 ≡ page_of addr
      → misaligned k addr2 ≡ false
      → (((paddr - pr.addr + (2 ^ 64 - addr)) % 2 ^ 64 + addr2) % 2 ^ 64
          ≡ paddr - pr.addr + addr2 - addr)
      → (check_triggers (fill_read h addr i pr paddr).cpu mcontrol_load addr2).0 ≡ false
      → target_read io (fill_read h addr i pr paddr) k addr2 ≡ (
        loaded (read_ram h.mem_map k i (paddr - pr.addr + addr2 - addr)),
        fill_read h addr i pr paddr,
      )
  unfolding target_read tlb_load fill_read update
  hit k addr2 slot tag al off quiet =
      let one : (tlb_idx addr == tlb_idx addr) ≡ true = ground arith in
      let two : (page_of addr == page_of addr) ≡ true = ground arith in
      rw (quiet, al, slot, tag, one, two, off) refl

  -- A load that was translated to `paddr` in RAM fills the TLB so that an aligned load from the same
  -- page, of any size, reads the range at the same distance from `paddr` as the addresses have, and
  -- changes nothing. No trigger fires on it, and its bytes lie in the range. No permission is tested.
  pub target_read-read_range_at :
      (j k addr2 : ℕ)
      → get_phys_mem_range h.mem_map paddr ≡ some i
      → get_elem? h.mem_map i ≡ some pr
      → pr.is_ram ≡ true
      → addr < 2 ^ 64
      → addr2 < 2 ^ 64
      → page_of addr2 ≡ page_of addr
      → k ≤ 3
      → misaligned k addr2 ≡ false
      → addr ≤ paddr - pr.addr + addr2
      → paddr - pr.addr + addr2 < 2 ^ 64 + addr
      → (check_triggers (fill_read h addr i pr paddr).cpu mcontrol_load addr2).0 ≡ false
      → let t = (read_range_at io h j addr paddr).1 in
        target_read io t k addr2
        ≡ (loaded (read_ram h.mem_map k i (paddr - pr.addr + addr2 - addr)), t)
  unfolding read_range_at
  target_read-read_range_at j k addr2 found here ram wa wb page le al low high quiet =
      let t = (read_range_at io h j addr paddr).1 in
      let filled : t ≡ fill_read h addr i pr paddr = ground (arith, found, here, ram) in
      let slot = same_slot addr2 addr wb wa page in
      let tag = tag_of-page k addr2 le wb al in
      let off = through_addend (paddr - pr.addr) addr addr2 wa wb low high in
      rw filled (hit k addr2 slot (tag ∙ page) al off quiet)
