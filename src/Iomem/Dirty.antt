-- ===== src/Iomem/Dirty.antt =====
-- The dirty bits of a RAM range, page by page.
use dromajo.Prelude.{
  ℕ, zero, suc, ◌/◌, ◌%◌, ◌^◌, ◌<◌, ◌≡◌, ◌≢◌, refl, ◌||◌, true, false, List, [], ◌∷◌, ◌==◌, length,
  get_or, set, map, arith, bit_or, bit_and, get_or-set_self, get_or-set_ne, Bool-cases, inl, inr,
}
use dromajo.Prelude.Bits.{test_bit, test_bit-or, test_bit-one, test_bit-zero, bit_and-low}
use dromajo.Iomem.{
  PhysMemoryRange, phys_mem_set_dirty_bit, phys_mem_is_dirty_bit, default_get_dirty_bits,
}

word_bit :
    (ws : List ℕ) (p q : ℕ)
    → p / 32 < length ws
    → test_bit
        (get_or (set ws (p / 32) (bit_or (get_or ws (p / 32) 0) (2 ^ (p % 32)))) (q / 32) 0)
        (q % 32)
      ≡ (p == q || test_bit (get_or ws (q / 32) 0) (q % 32))
word_bit ws p q room = elim (Bool-cases (p / 32 == q / 32)) [
  | inl e ↦
      (let w : q / 32 ≡ p / 32 = ground arith in
        rw (w, get_or-set_self ws (p / 32) (bit_or (get_or ws (p / 32) 0) (2 ^ (p % 32))) 0 room)
          (ground (
            arith,
            test_bit-or (get_or ws (p / 32) 0) (2 ^ (p % 32)) (q % 32),
            test_bit-one (p % 32) (q % 32),
          )))
  | inr e ↦
      (let w : p / 32 ≢ q / 32 = ground arith in
        rw (get_or-set_ne ws (p / 32) (q / 32) (bit_or (get_or ws (p / 32) 0) (2 ^ (p % 32))) 0 w)
          (ground arith))
]

-- Marking one offset dirty marks its page and no other, where the bitmap covers the offset.
pub is_dirty_bit-set_dirty_bit :
    (pr : PhysMemoryRange) (offset other : ℕ)
    → pr.has_dirty_bits ≡ true
    → offset / 4096 / 32 < length pr.dirty_bits
    → phys_mem_is_dirty_bit (phys_mem_set_dirty_bit pr offset) other
      ≡ (offset / 4096 == other / 4096 || phys_mem_is_dirty_bit pr other)
unfolding phys_mem_is_dirty_bit phys_mem_set_dirty_bit
is_dirty_bit-set_dirty_bit pr offset other kept room = ground (
  arith,
  word_bit pr.dirty_bits (offset / 4096) (other / 4096) room,
  bit_and-low 5 (offset / 4096),
  bit_and-low 5 (other / 4096),
)

get_or-zeroed : (ws : List ℕ) (i : ℕ) → get_or {A = ℕ} (map (λ _. 0) ws) i 0 ≡ 0
get_or-zeroed [] i = refl
get_or-zeroed (w ∷ ws) zero = refl
get_or-zeroed (w ∷ ws) (suc i) = get_or-zeroed ws i

-- Taking the dirty bits hands out the bitmap that was in use and leaves every page clean.
pub get_dirty_bits_clean :
    (pr : PhysMemoryRange) (offset : ℕ)
    → pr.has_dirty_bits ≡ true
    → ((default_get_dirty_bits pr).2 ≡ pr.dirty_bits)
      × (phys_mem_is_dirty_bit (default_get_dirty_bits pr).0 offset ≡ false)
unfolding phys_mem_is_dirty_bit default_get_dirty_bits
get_dirty_bits_clean pr offset kept = (
  refl,
  ground (
    arith,
    get_or-zeroed pr.dirty_bits_other (offset / 4096 / 32),
    test_bit-zero (bit_and (offset / 4096) 0x1f),
  ),
)
