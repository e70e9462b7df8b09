-- ===== src/Devices/Plic/Claim.antt =====
-- Claiming and completing a source.
use dromajo.Prelude.{
  ℕ, zero, suc, ◌+◌, ◌-◌, ◌*◌, ◌/◌, ◌^◌, ◌≤◌, ◌<◌, ◌≡◌, ◌≢◌, inl, inr, refl, ◌∙◌, sym, Bool, true,
  false, some, ◌==◌, if◌then◌else◌, get_elem?, set, bit_and, arith, Bool-cases,
}
use dromajo.Prelude.Bits.{
  test_bit, bit_not, reset_bit, test_bit-or, test_bit-one, test_bit_ext, bit_and-le, bit_and-low,
  test_bit-zero,
}
use dromajo.Cpu.State.{Cpu}
use dromajo.Devices.{RiscvMachine}
use dromajo.Devices.Plic.{
  plic_mask, ctz_from, ctz32, serve, claim, plic_update_mip, update_cpu, plic_read, plic_write,
}
use dromajo.Devices.Plic.Sync.{Driven, update_cpu-Driven}

-- `i` is the lowest set bit of a word at or above bit `from`.
pub record IsLowest (x from i : ℕ) : Type 0 where
  pub inside : i < 32
  pub is_set : test_bit x i ≡ true
  pub none_below : (j : ℕ) → from ≤ j → j < i → test_bit x j ≡ false

-- A bit at or above `i`, when bit `i` is clear.
at_or_above :
    (x i j : ℕ)
    → i ≤ j
    → test_bit x i ≡ false
    → (i < j → test_bit x j ≡ false)
    → test_bit x j ≡ false
at_or_above x i j p off above = elim (Bool-cases (i == j)) [
  | inl e ↦ (let same : j ≡ i = ground arith in rw same off)
  | inr e ↦ above (ground arith)
]

ctz_from_none :
    (x n i : ℕ) → ctz_from x n i ≡ i + n → (j : ℕ) → i ≤ j → j < i + n → test_bit x j ≡ false
unfolding ctz_from
ctz_from_none x zero i h j p q = absurd (omega arith)
ctz_from_none x (suc n) i h j p q = elim (Bool-cases (test_bit x i)) [
  | inl on ↦ absurd (ground arith)
  | inr off ↦
      at_or_above x i j p off
        (λ lt. ctz_from_none x n (suc i) (ground arith) j (omega arith) (omega arith))
]

ctz_from-le : (x n i : ℕ) → ctz_from x n i ≤ i + n
unfolding ctz_from
ctz_from-le x zero i = omega arith
ctz_from-le x (suc n) i = ground (arith, ctz_from-le x n (suc i))

ctz_from-IsLowest : (x n i : ℕ) → i + n ≡ 32 → ctz_from x n i < 32 → IsLowest x i (ctz_from x n i)
unfolding ctz_from
ctz_from-IsLowest x zero i e lt = absurd (ground arith)
ctz_from-IsLowest x (suc n) i e lt = elim (Bool-cases (test_bit x i)) [
  | inl on ↦ record {
    inside = ground arith;
    is_set = ground arith;
    none_below = λ j p q. absurd (ground arith);
  }
  | inr off ↦
      (let r = ctz_from-IsLowest x n (suc i) (omega arith) (ground arith) in
        record {
          inside = ground (arith, r.inside);
          is_set = ground (arith, r.is_set);
          none_below =
              λ j p q. at_or_above x i j p off (λ lt. r.none_below j (omega arith) (ground arith));
        })
]

plic_mask-lt : (s : RiscvMachine) → plic_mask s < 2 ^ 32
unfolding plic_mask
plic_mask-lt s =
    let b : bit_not 32 s.plic_served_irq < 2 ^ 32 = omega arith in
    omega (arith, bit_and-le 32 s.plic_pending_irq (bit_not 32 s.plic_served_irq) b)

-- A word with a bit set has its lowest one at `ctz32`.
ctz32-IsLowest : (x : ℕ) → x < 2 ^ 32 → x ≢ 0 → IsLowest x 0 (ctz32 x)
unfolding ctz32
ctz32-IsLowest x w ne = elim (Bool-cases (ctz_from x 32 0 == 32)) [
  | inl e ↦ absurd (
      ne (
        test_bit_ext 32 x 0 w (omega arith) (λ i lt.
          ctz_from_none x 32 0 (ground arith) i (omega arith) (omega arith)
          ∙ sym (test_bit-zero i))))
  | inr e ↦ ctz_from-IsLowest x 32 0 refl (ground (arith, ctz_from-le x 32 0))
]

-- Source `i` has gone from pending to being served, with nothing else changed in either word.
pub record Served (s : RiscvMachine) (i : ℕ) (t : RiscvMachine) : Type 0 where
  pub pending :
      (j : ℕ)
      → j < 32
      → test_bit t.plic_pending_irq j ≡ (if j == i then false else test_bit s.plic_pending_irq j)
  pub served :
      (j : ℕ)
      → j < 32
      → test_bit t.plic_served_irq j ≡ (if j == i then true else test_bit s.plic_served_irq j)

serve-Served : (s : RiscvMachine) (i : ℕ) → i < 32 → Served s i (serve s i)
unfolding serve
serve-Served s i p = record {
  pending = λ j lt. reset_bit s.plic_pending_irq i j p lt;
  served = λ j lt. ground (arith, test_bit-or s.plic_served_irq (2 ^ i) j, test_bit-one i j);
}

-- The claim register of context `h`.
abbrev pub claim_offset : ℕ → ℕ
claim_offset h = 0x200004 + 0x1000 * h

claim_word : (h : ℕ) → bit_and (claim_offset h) 0xfff / 4 ≡ 1
claim_word h = omega (arith, bit_and-low 12 (claim_offset h))

read_claim :
    (g c : Bool) (s : RiscvMachine) (h : ℕ)
    → h < 8
    → plic_read g c s (claim_offset h) 2 ≡ claim g c s h
unfolding plic_read
read_claim g c s h lt =
    let e : (claim_offset h - 0x200000) / 0x1000 ≡ h = omega arith in
    ground (arith, claim_word h, e)

claim-some :
    (g c : Bool) (s : RiscvMachine) (h : ℕ) (cpu : Cpu)
    → get_elem? s.cpus h ≡ some cpu
    → plic_mask s ≢ 0
    → let n = serve s (ctz32 (plic_mask s)) in
      claim g c s h
      ≡ some
          (record n { cpus = set n.cpus h (update_cpu g c (plic_mask n) cpu) }, ctz32 (plic_mask s))
unfolding claim plic_update_mip serve
claim-some g c s h cpu e ne = ground arith

-- What a claim by hart `h` leaves: source `i` was the lowest of those that waited, it is now
-- served, and the hart's external interrupt bits are those that the sources still waiting call for.
pub record Claimed (s : RiscvMachine) (h : ℕ) (cpu : Cpu) (i : ℕ) (t : RiscvMachine) : Type 0 where
  pub lowest : IsLowest (plic_mask s) 0 i
  pub moved : Served s i t
  pub hart : Cpu
  pub stands : t.cpus ≡ set s.cpus h hart
  pub driven : Driven (plic_mask t) cpu hart

-- Reading the claim register while a source waits returns the lowest-numbered one, and leaves the
-- machine as `Claimed` says. The context is one of the eight, and has a hart of the same number.
pub plic_read-Claimed :
    (g c : Bool) (s : RiscvMachine) (h : ℕ) (cpu : Cpu)
    → h < 8
    → get_elem? s.cpus h ≡ some cpu
    → plic_mask s ≢ 0
    → (t : RiscvMachine) × (i : ℕ) × ((plic_read g c s (claim_offset h) 2 ≡ some (t, i))
        × Claimed s h cpu i t)
unfolding serve plic_mask
plic_read-Claimed g c s h cpu lt e ne =
    let i = ctz32 (plic_mask s) in
    let low = ctz32-IsLowest (plic_mask s) (plic_mask-lt s) ne in
    let n = serve s i in
    let hart = update_cpu g c (plic_mask n) cpu in
    let t : RiscvMachine = record n { cpus = set n.cpus h hart } in
    (
      t,
      i,
      (
        read_claim g c s h lt ∙ claim-some g c s h cpu e ne,
        record {
          lowest = low;
          moved = record {
            pending = (serve-Served s i low.inside).pending;
            served = (serve-Served s i low.inside).served;
          };
          hart = hart;
          stands = refl;
          driven = update_cpu-Driven g c (plic_mask n) cpu;
        },
      ),
    )

-- Completing a source ends its service and changes nothing else, mip included; the context is one of
-- the eight.
pub plic_write_complete :
    (s : RiscvMachine) (h i : ℕ)
    → h < 8
    → i < 32
    → (served : ℕ) × ((plic_write s (claim_offset h) i 2
          ≡ some record s { plic_served_irq = served })
        × ((j : ℕ)
            → j < 32
            → test_bit served j ≡ (if j == i then false else test_bit s.plic_served_irq j)))
unfolding plic_write
plic_write_complete s h i lt p =
    let low : bit_and i 31 ≡ i = omega (arith, bit_and-low 5 i) in
    (
      bit_and s.plic_served_irq (bit_not 32 (2 ^ i)),
      (ground (arith, claim_word h, low), λ j q. reset_bit s.plic_served_irq i j p q),
    )
