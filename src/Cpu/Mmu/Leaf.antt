-- ===== src/Cpu/Mmu/Leaf.antt =====
-- What a leaf entry that is accepted grants.
use dromajo.Prelude.{
  ℕ, suc, ◌+◌, ◌-◌, ◌*◌, ◌/◌, ◌%◌, ◌^◌, ◌≤◌, ◌<◌, ◌≡◌, ◌∙◌, ◌⊎◌, ◌≢◌, refl, true, false, ◌==◌, ltb,
  arith, bit_and, bit_or, not, ◌&&◌, ◌||◌,
}
use dromajo.Prelude.Bits.{
  test_bit, test_bit-and, test_bit-or, test_bit-shr, bit_and-low, bit_and-high, bit_not, has_bits,
  has_bits_sound, bit_or-disjoint,
}
use native.Mathlib.Nat.{div-add-mod, mul_comm, mod-lt, one-le-pow}
use dromajo.Cpu.Constants.{mstatus_sum, mstatus_mxr, prv_s}
use dromajo.Cpu.State.{Cpu}
use dromajo.Cpu.Mstatus.{any}
use dromajo.Cpu.Mmu.{
  Access, read, write, code, access_number, phys, leaf, privilege_ok, permissions,
}

-- What the architecture asks of a page for an access: A is set, D too for a store; a user page
-- for user mode and under SUM for supervisor mode, a supervisor page for that mode alone; R for a
-- load, or X under MXR; W for a store; X for a fetch.
pub record Grants (s : Cpu) (access : Access) (priv pte : ℕ) : Type 0 where
  pub accessed : test_bit pte 6 ≡ true
  pub dirty : access ≡ write → test_bit pte 7 ≡ true
  pub supervisor : priv ≡ prv_s → test_bit pte 4 ≡ true → any s.mstatus mstatus_sum ≡ true
  pub user : priv ≢ prv_s → test_bit pte 4 ≡ true
  pub readable :
      access ≡ read
      → (test_bit pte 1 ≡ true) ⊎ ((any s.mstatus mstatus_mxr ≡ true) × (test_bit pte 3 ≡ true))
  pub writable : access ≡ write → test_bit pte 2 ≡ true
  pub executable : access ≡ code → test_bit pte 3 ≡ true

seven : (i : ℕ) → i < 64 → test_bit 7 i ≡ ltb i 3
unfolding has_bits
seven i lt = has_bits_sound 64 7 (λ i. ltb i 3) i refl lt

permission_bit :
    (s : Cpu) (pte i : ℕ)
    → i < 3
    → test_bit (permissions s pte) i
      ≡ (test_bit pte (suc i) || (any s.mstatus mstatus_mxr && (i == 0 && test_bit pte 3)))
unfolding permissions
permission_bit s pte i lt = ground (
  arith,
  test_bit-or (bit_and (pte / 2) 7) (bit_and (pte / 2) 7 / 2 ^ 2) i,
  test_bit-shr 2 (bit_and (pte / 2) 7) i,
  test_bit-and (pte / 2) 7 i,
  test_bit-and (pte / 2) 7 (2 + i),
  test_bit-shr 1 pte i,
  test_bit-shr 1 pte (2 + i),
  seven i (omega arith),
  seven (2 + i) (omega arith),
)

-- The checks that an accepted leaf has passed.
leaf_checks :
    (s : Cpu) (vaddr : ℕ) (access : Access) (priv j pte p : ℕ)
    → leaf s vaddr access priv j pte ≡ phys p
    → (privilege_ok s priv pte ≡ true)
      × (test_bit (permissions s pte) (access_number access) ≡ true)
      × (test_bit pte 6 ≡ true)
      × ((access_number access == 1) && not (test_bit pte 7) ≡ false)
unfolding leaf
leaf_checks s vaddr access priv j pte p h = ground arith

-- A leaf entry that the walk accepts grants the access, as `Grants` says, at whatever level it stands
-- and in whatever privilege the access is made.
pub leaf-Grants :
    (s : Cpu) (vaddr : ℕ) (access : Access) (priv j pte p : ℕ)
    → leaf s vaddr access priv j pte ≡ phys p
    → Grants s access priv pte
unfolding privilege_ok
leaf-Grants s vaddr read priv j pte p h =
    ground (arith, leaf_checks s vaddr read priv j pte p h, permission_bit s pte 0 (omega arith))
leaf-Grants s vaddr write priv j pte p h =
    ground (arith, leaf_checks s vaddr write priv j pte p h, permission_bit s pte 1 (omega arith))
leaf-Grants s vaddr code priv j pte p h =
    ground (arith, leaf_checks s vaddr code priv j pte p h, permission_bit s pte 2 (omega arith))

-- The physical address: the page of the entry's level, and the offset of the virtual address in it.
abbrev pub in_page : ℕ → ℕ → ℕ → ℕ
in_page j pte vaddr =
    let bytes = 2 ^ (12 + 9 * j) in pte / 2 ^ 10 * 2 ^ 12 % 2 ^ 64 / bytes * bytes + vaddr % bytes

page_join :
    (k base v : ℕ)
    → k ≤ 64
    → base < 2 ^ 64
    → bit_or (bit_and base (bit_not 64 (2 ^ k - 1))) (bit_and v (2 ^ k - 1))
      ≡ base / 2 ^ k * 2 ^ k + v % 2 ^ k
page_join k base v h b =
    let high : bit_and base (bit_not 64 (2 ^ k - 1)) ≡ base / 2 ^ k * 2 ^ k = omega (
      arith,
      bit_and-high 64 k base h b,
      div-add-mod base (2 ^ k),
      mul_comm (base / 2 ^ k) (2 ^ k),
    ) in
    rw (high, bit_and-low k v)
      (bit_or-disjoint k (base / 2 ^ k) (v % 2 ^ k) (mod-lt v (one-le-pow k 2 (omega arith))))

leaf_result :
    (s : Cpu) (vaddr : ℕ) (access : Access) (priv j pte p : ℕ)
    → leaf s vaddr access priv j pte ≡ phys p
    → p
      ≡ bit_or
          (bit_and (pte / 2 ^ 10 * 2 ^ 12 % 2 ^ 64) (bit_not 64 (2 ^ (12 + 9 * j) - 1)))
          (bit_and vaddr (2 ^ (12 + 9 * j) - 1))
unfolding leaf
leaf_result s vaddr access priv j pte p h = ground arith

-- The address that an accepted leaf at level `j` gives is the page number of the entry, cleared below
-- the level's page size, with the offset of the virtual address in that page.
pub leaf-in_page :
    (s : Cpu) (vaddr : ℕ) (access : Access) (priv j pte p : ℕ)
    → j < 5
    → leaf s vaddr access priv j pte ≡ phys p
    → p ≡ in_page j pte vaddr
leaf-in_page s vaddr access priv j pte p small h =
    leaf_result s vaddr access priv j pte p h
    ∙ page_join (12 + 9 * j) (pte / 2 ^ 10 * 2 ^ 12 % 2 ^ 64) vaddr (omega arith) (omega arith)

granted :
    (s : Cpu) (access : Access) (priv pte : ℕ)
    → Grants s access priv pte
    → (privilege_ok s priv pte ≡ true)
      × (test_bit (permissions s pte) (access_number access) ≡ true)
      × ((access_number access == 1) && not (test_bit pte 7) ≡ false)
unfolding privilege_ok
granted s read priv pte g =
    ground (arith, permission_bit s pte 0 (omega arith), g.readable refl, g.user, g.supervisor)
granted s write priv pte g = ground (
  arith,
  permission_bit s pte 1 (omega arith),
  g.writable refl,
  g.dirty refl,
  g.user,
  g.supervisor,
)
granted s code priv pte g =
    ground (arith, permission_bit s pte 2 (omega arith), g.executable refl, g.user, g.supervisor)

-- A two-megabyte page whose number is not aligned (some of its low nine bits are set) is accepted
-- as soon as the lowest bit is clear: the alignment check reads one bit, not nine.
pub leaf_misaligned :
    (s : Cpu) (vaddr : ℕ) (access : Access) (priv pte : ℕ)
    → pte / 2 ^ 10 % 2 ^ 9 ≢ 0
    → pte / 2 ^ 10 % 2 ≡ 0
    → bit_and (pte / 2) 7 ≡ 7
    → Grants s access priv pte
    → leaf s vaddr access priv 1 pte ≡ phys (in_page 1 pte vaddr)
unfolding leaf
leaf_misaligned s vaddr access priv pte odd even xwr g = ground (
  arith,
  granted s access priv pte g,
  bit_and-low 1 (pte / 2 ^ 10 % 2 ^ 32),
  page_join 21 (pte / 2 ^ 10 * 2 ^ 12 % 2 ^ 64) vaddr (omega arith) (omega arith),
)
