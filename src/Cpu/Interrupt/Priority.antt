-- ===== src/Cpu/Interrupt/Priority.antt =====
-- Which interrupt is taken.
use dromajo.Prelude.{
  ℕ, zero, suc, ◌^◌, ◌≤◌, ◌<◌, ◌≡◌, ◌≢◌, ◌⊎◌, inl, inr, refl, ap, sym, ◌∙◌, get_elem?, ◌%◌, ◌&&◌,
  true, false, ◌==◌, ltb, leb, arith, bit_and, bit_or, List, [], ◌∷◌, Option, none, some,
  Bool-cases,
}
use dromajo.Prelude.Bits.{
  test_bit, test_bit-and, test_bit-zero, test_bit_ext, test_bit-mod, bit_and-le, bit_and-le_left,
  test_bit_above, has_bits, has_bits_sound,
}
use dromajo.Cpu.Constants.{cause_interrupt}
use dromajo.Cpu.State.{Cpu}
use dromajo.Cpu.Trap.{raise_exception}
use dromajo.Cpu.Interrupt.{
  enabled_ints, highest_bit, get_irq_platspecific, first_set, priorities, get_irq_num,
  get_pending_irq_mask, raise_interrupt,
}
use dromajo.Cpu.Interrupt.Pending.{ready, pending_bit}

-- `i` is the highest set bit of a word among bits 1 to `n`.
pub record IsHighest (x n i : ℕ) : Type 0 where
  pub positive : 0 < i
  pub inside : i ≤ n
  pub is_set : test_bit x i ≡ true
  pub none_above : (j : ℕ) → i < j → j ≤ n → test_bit x j ≡ false

highest_bit-some : (x n i : ℕ) → highest_bit x n ≡ some i → IsHighest x n i
unfolding highest_bit
highest_bit-some x zero i h = absurd (cc h)
highest_bit-some x (suc n) i h = elim (Bool-cases (test_bit x (suc n))) [
  | inl on ↦
      (let e : i ≡ suc n = ground arith in
        record {
          positive = omega arith;
          inside = omega arith;
          is_set = rw e on;
          none_above = λ j lt le. absurd (omega arith);
        })
  | inr off ↦
      (let r = highest_bit-some x n i (ground arith) in
        record {
          positive = r.positive;
          inside = omega (arith, r.inside);
          is_set = r.is_set;
          none_above = λ j lt le. ground (arith, r.none_above j lt);
        })
]

highest_bit-none :
    (x n : ℕ) → highest_bit x n ≡ none → (j : ℕ) → 0 < j → j ≤ n → test_bit x j ≡ false
unfolding highest_bit
highest_bit-none x zero h j pos le = absurd (omega arith)
highest_bit-none x (suc n) h j pos le = ground (arith, highest_bit-none x n (ground arith) j pos)

-- Bits 12 to 31.
platform_bit :
    (x i : ℕ)
    → i < 64
    → test_bit (bit_and x 0xfffff000) i ≡ (test_bit x i && (leb 12 i && ltb i 32))
unfolding has_bits
platform_bit x i lt = ground (
  arith,
  test_bit-and x 0xfffff000 i,
  has_bits_sound 64 0xfffff000 (λ i. leb 12 i && ltb i 32) i refl lt,
)

-- `i` is the first of a list whose bit is set.
pub record IsFirst (mask : ℕ) (ps : List ℕ) (i : ℕ) : Type 0 where
  pub place : ℕ
  pub stands : get_elem? ps place ≡ some i
  pub is_set : test_bit mask i ≡ true
  pub none_before : (k j : ℕ) → k < place → get_elem? ps k ≡ some j → test_bit mask j ≡ false

first_set-some : (mask : ℕ) (ps : List ℕ) (i : ℕ) → first_set mask ps ≡ some i → IsFirst mask ps i
unfolding first_set
first_set-some mask [] i h = absurd (cc h)
first_set-some mask (p ∷ ps) i h = elim (Bool-cases (test_bit mask p)) [
  | inl on ↦
      (let e : i ≡ p = ground arith in
        record {
          place = 0;
          stands = ground (arith, e);
          is_set = rw e on;
          none_before = λ k j lt le. absurd (omega arith);
        })
  | inr off ↦
      (let r = first_set-some mask ps i (ground arith) in
        record {
          place = suc r.place;
          stands = r.stands;
          is_set = r.is_set;
          none_before = later p ps mask off r.place r.none_before;
        })
]
  where
    later :
        (p : ℕ) (ps : List ℕ) (mask : ℕ)
        → test_bit mask p ≡ false
        → (n : ℕ) → ((k j : ℕ) → k < n → get_elem? ps k ≡ some j → test_bit mask j ≡ false)
        → (k j : ℕ) → k < suc n
        → get_elem? (p ∷ ps) k ≡ some j
        → test_bit mask j ≡ false
    later p ps mask off n f zero j lt e = ground arith
    later p ps mask off n f (suc k) j lt e = f k j (omega arith) e

-- A mask that reaches bit 12 has a set bit there or above.
platform_some : (mask : ℕ) → mask < 2 ^ 32 → 2 ^ 12 ≤ mask → get_irq_platspecific mask ≢ none
unfolding get_irq_platspecific
platform_some mask w big h =
    let low : (i : ℕ) → i < 32 → test_bit mask i ≡ test_bit (mask % 2 ^ 12) i = λ i lt. ground (
      arith,
      test_bit-mod 12 mask i,
      highest_bit-none (bit_and mask 0xfffff000) 31 h i,
      platform_bit mask i (omega arith),
    ) in
    absurd (omega (arith, test_bit_ext 32 mask (mask % 2 ^ 12) w (omega arith) low))

all_clear :
    (mask : ℕ) → first_set mask priorities ≡ none → (j : ℕ) → j < 12 → test_bit mask j ≡ false
unfolding first_set
all_clear mask h zero lt = ground arith
all_clear mask h (suc zero) lt = ground arith
all_clear mask h (suc (suc zero)) lt = ground arith
all_clear mask h (suc (suc (suc zero))) lt = ground arith
all_clear mask h (suc (suc (suc (suc zero)))) lt = ground arith
all_clear mask h (suc (suc (suc (suc (suc zero))))) lt = ground arith
all_clear mask h (suc (suc (suc (suc (suc (suc zero)))))) lt = ground arith
all_clear mask h (suc (suc (suc (suc (suc (suc (suc zero))))))) lt = ground arith
all_clear mask h (suc (suc (suc (suc (suc (suc (suc (suc zero)))))))) lt = ground arith
all_clear mask h (suc (suc (suc (suc (suc (suc (suc (suc (suc zero))))))))) lt = ground arith
all_clear mask h (suc (suc (suc (suc (suc (suc (suc (suc (suc (suc zero)))))))))) lt = ground arith
all_clear mask h (suc (suc (suc (suc (suc (suc (suc (suc (suc (suc (suc zero))))))))))) lt =
    ground arith
all_clear mask h (suc (suc (suc (suc (suc (suc (suc (suc (suc (suc (suc (suc j)))))))))))) lt =
    absurd (omega arith)

standard_some : (mask : ℕ) → mask < 2 ^ 12 → mask ≢ 0 → first_set mask priorities ≢ none
standard_some mask w ne h =
    ne (
      test_bit_ext 12 mask 0 w (omega arith)
        (λ i lt. all_clear mask h i lt ∙ sym (test_bit-zero i)))

-- The interrupt that Rocket takes: the highest of the platform's, 12 to 31, if there is one, and
-- otherwise the first in the order of the standard ones.
pub IsChosen : ℕ → ℕ → Type 0
IsChosen mask i =
    ((2 ^ 12 ≤ mask)
      × (12 ≤ i)
      × (test_bit mask i ≡ true)
      × ((j : ℕ) → i < j → j < 32 → test_bit mask j ≡ false))
    ⊎ ((mask < 2 ^ 12) × IsFirst mask priorities i)

platform-IsChosen :
    (mask i : ℕ) → 2 ^ 12 ≤ mask → get_irq_platspecific mask ≡ some i → (i < 32) × IsChosen mask i
unfolding get_irq_platspecific IsChosen
platform-IsChosen mask i big h =
    let r = highest_bit-some (bit_and mask 0xfffff000) 31 i h in
    let b = platform_bit mask i (omega (arith, r.inside)) in
    (
      omega (arith, r.inside),
      inl (
        big,
        ground (arith, b, r.is_set),
        ground (arith, b, r.is_set),
        λ j lt le.
            ground (arith, r.none_above j lt, platform_bit mask j (omega arith), b, r.is_set),
      ),
    )

standard-IsChosen :
    (mask i : ℕ) → mask < 2 ^ 12 → first_set mask priorities ≡ some i → (i < 32) × IsChosen mask i
unfolding IsChosen
standard-IsChosen mask i w h =
    let r = first_set-some mask priorities i h in
    (ground (arith, r.is_set, test_bit_above 12 mask i w), inr (w, r))

chosen :
    (mask : ℕ)
    → mask < 2 ^ 32
    → mask ≢ 0
    → (o : Option ℕ) → get_irq_num mask ≡ o
    → (i : ℕ) × (get_irq_num mask ≡ some i) × (i < 32) × IsChosen mask i
unfolding get_irq_num
chosen mask w ne none h = elim (Bool-cases (leb (2 ^ 12) mask)) [
  | inl big ↦ absurd (platform_some mask w (ground arith) (ground arith))
  | inr small ↦ absurd (standard_some mask (ground arith) ne (ground arith))
]
chosen mask w ne (some i) h = elim (Bool-cases (leb (2 ^ 12) mask)) [
  | inl big ↦ (let c = platform-IsChosen mask i (ground arith) (ground arith) in (i, h, c.0, c.1))
  | inr small ↦ (let c = standard-IsChosen mask i (ground arith) (ground arith) in (i, h, c.0, c.1))
]

-- A mask that is not empty has an interrupt to take, and it is the chosen one.
pub get_irq_num-IsChosen :
    (mask : ℕ)
    → mask < 2 ^ 32
    → mask ≢ 0
    → (i : ℕ) × (get_irq_num mask ≡ some i) × (i < 32) × IsChosen mask i
get_irq_num-IsChosen mask w ne = chosen mask w ne (get_irq_num mask) refl

chosen_set : (mask i : ℕ) → IsChosen mask i → test_bit mask i ≡ true
unfolding IsChosen
chosen_set mask i (inl c) = c.2
chosen_set mask i (inr c) = c.1.is_set

pending_lt : (s : Cpu) → s.mie < 2 ^ 32 → get_pending_irq_mask s < 2 ^ 32
unfolding get_pending_irq_mask
pending_lt s we =
    ground (
      arith,
      bit_and-le_left 32 (bit_and s.mip s.mie) (enabled_ints s),
      bit_and-le 32 s.mip s.mie we,
    )

-- At the start of a block of instructions: either no interrupt is ready and none is taken, or one is
-- taken that is pending, enabled and let through, the first of those in priority, and the hart traps
-- with its number. mip, mie and mideleg are 32-bit words.
pub raise_interrupt_lem :
    (s : Cpu)
    → s.mip < 2 ^ 32
    → s.mie < 2 ^ 32
    → s.mideleg < 2 ^ 32
    → ((raise_interrupt s ≡ none) × ((i : ℕ) → i < 32 → ready s i ≡ false))
      ⊎ ((i : ℕ) × (ready s i ≡ true)
          × IsChosen (get_pending_irq_mask s) i
          × (raise_interrupt s ≡ some (raise_exception s (bit_or i cause_interrupt))))
unfolding raise_interrupt
raise_interrupt_lem s wp we wd = elim (Bool-cases (get_pending_irq_mask s == 0)) [
  | inl idle ↦
      (let z : get_pending_irq_mask s ≡ 0 = ground arith in
        inl (
          ground arith,
          λ i lt.
              ground
                (arith, pending_bit s i wd lt, ap (λ (m : ℕ). test_bit m i) z, test_bit-zero i),
        ))
  | inr some_ready ↦
      (let c = get_irq_num-IsChosen (get_pending_irq_mask s) (pending_lt s we) (ground arith) in
        inr (
          c.0,
          ground (arith, pending_bit s c.0 wd c.2, chosen_set (get_pending_irq_mask s) c.0 c.3),
          c.3,
          rw (c.1) (ground arith),
        ))
]
