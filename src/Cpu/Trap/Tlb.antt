-- ===== src/Cpu/Trap/Tlb.antt =====
-- When the TLBs are flushed, and when they are not: the privilege of a load or store depends on the
-- current privilege and, under MPRV, on MPP.
use dromajo.Prelude.{
  ℕ, ◌+◌, ◌*◌, ◌/◌, ◌%◌, ◌^◌, ◌<◌, ◌≡◌, ◌≢◌, ◌⊎◌, inl, inr, refl, sym, ◌∙◌, true, false, xor, arith,
  bit_and, bit_xor, Bool-cases,
}
use dromajo.Prelude.Bits.{
  test_bit, test_bit-and, test_bit-xor, test_bit-zero, test_bit-merge, test_bit-mod, test_bit-shr,
  test_bit_ext, bit_and-low, merge,
}
use dromajo.Cpu.Constants.{prv_m, mstatus_mprv, mstatus_sum, mstatus_mxr, mstatus_mpp}
use dromajo.Cpu.State.{Cpu}
use dromajo.Cpu.Mstatus.{
  any, set_priv, set_mstatus, tlb_flush_all, changes_translation, mstatus_write_mask,
}
use dromajo.Cpu.Pmp.{data_priv}
use dromajo.Cpu.Trap.{raise_exception2, is_delegated, enter_m, enter_m_mstatus}
use dromajo.Cpu.Trap.Status.{any-bit, enter_m_bits}
use dromajo.Cpu.Trap.Privilege.{IsFlushed}

abbrev pub SameTlb : Cpu → Cpu → Type 0
SameTlb s t =
    (p : ℕ)
    → (t.tlb_read p ≡ s.tlb_read p)
      × (t.tlb_write p ≡ s.tlb_write p)
      × (t.tlb_code p ≡ s.tlb_code p)

no_bit : (x mask i : ℕ) → any x mask ≡ false → test_bit mask i ≡ true → test_bit x i ≡ false
no_bit x mask i h b =
    let e : bit_and x mask ≡ 0 = ground arith in
    let f : test_bit (bit_and x mask) i ≡ false = rw e (test_bit-zero i) in
    ground (arith, f, test_bit-and x mask i)

-- The two bits of MPP make the previous privilege.
mpp_ext :
    (x y : ℕ)
    → test_bit x 11 ≡ test_bit y 11
    → test_bit x 12 ≡ test_bit y 12
    → bit_and (x / 2 ^ 11) 3 ≡ bit_and (y / 2 ^ 11) 3
mpp_ext x y e f =
    rw (bit_and-low 2 (x / 2 ^ 11), bit_and-low 2 (y / 2 ^ 11))
      (test_bit_ext 2 (x / 2 ^ 11 % 4) (y / 2 ^ 11 % 4) (omega arith) (omega arith) (λ i lt.
        ground (
          arith,
          test_bit-mod 2 (x / 2 ^ 11) i,
          test_bit-mod 2 (y / 2 ^ 11) i,
          test_bit-shr 11 x i,
          test_bit-shr 11 y i,
          two_cases i lt,
        )))
  where
    two_cases : (i : ℕ) → i < 2 → (i ≡ 0) ⊎ (i ≡ 1)
    two_cases i lt = omega arith

-- A bit that the write may change takes the new value.
written :
    (old val i : ℕ)
    → i < 64
    → test_bit mstatus_write_mask i ≡ true
    → test_bit (merge 64 old mstatus_write_mask val) i ≡ test_bit val i
written old val i lt h =
    ground (arith, test_bit-merge 64 old mstatus_write_mask val i (omega arith) lt)

-- Where a write to mstatus does not flush, the bits that translation depends on stay.
unflushed_bit :
    (s : Cpu) (val i : ℕ)
    → changes_translation s (bit_xor s.mstatus val) ≡ false
    → test_bit (mstatus_mprv + mstatus_sum + mstatus_mxr) i ≡ true
    → test_bit s.mstatus i ≡ test_bit val i
unfolding changes_translation xor
unflushed_bit s val i h m = ground (
  arith,
  no_bit (bit_xor s.mstatus val) (mstatus_mprv + mstatus_sum + mstatus_mxr) i,
  test_bit-xor s.mstatus val i,
)

unflushed_mpp :
    (s : Cpu) (val i : ℕ)
    → changes_translation s (bit_xor s.mstatus val) ≡ false
    → any s.mstatus mstatus_mprv ≡ true
    → test_bit mstatus_mpp i ≡ true
    → test_bit s.mstatus i ≡ test_bit val i
unfolding changes_translation xor
unflushed_mpp s val i h v m =
    ground (arith, no_bit (bit_xor s.mstatus val) mstatus_mpp i, test_bit-xor s.mstatus val i)

-- Everything that a cached translation of a load or store depends on in mstatus and priv.
pub record SameContext (s t : Cpu) : Type 0 where
  pub same_data_priv : data_priv t ≡ data_priv s
  pub same_priv : t.priv ≡ s.priv
  pub same_sum : any t.mstatus mstatus_sum ≡ any s.mstatus mstatus_sum
  pub same_mxr : any t.mstatus mstatus_mxr ≡ any s.mstatus mstatus_mxr

set_mstatus_fields :
    (s : Cpu) (val : ℕ)
    → ((set_mstatus s val).mstatus ≡ merge 64 s.mstatus mstatus_write_mask val)
      × ((set_mstatus s val).priv ≡ s.priv)
unfolding set_mstatus tlb_flush_all
set_mstatus_fields s val = ground arith

set_mstatus-IsFlushed :
    (s : Cpu) (val : ℕ)
    → changes_translation s (bit_xor s.mstatus val) ≡ true
    → IsFlushed (set_mstatus s val)
unfolding set_mstatus tlb_flush_all
set_mstatus-IsFlushed s val h p = ground arith

-- Bits 17 to 19 are MPRV, SUM and MXR, bits 11 and 12 MPP, and a write may change all of them.
flag_bits :
    (test_bit (mstatus_mprv + mstatus_sum + mstatus_mxr) 17 ≡ true)
    × (test_bit (mstatus_mprv + mstatus_sum + mstatus_mxr) 18 ≡ true)
    × (test_bit (mstatus_mprv + mstatus_sum + mstatus_mxr) 19 ≡ true)
    × (test_bit mstatus_mpp 11 ≡ true)
    × (test_bit mstatus_mpp 12 ≡ true)
unfolding test_bit
flag_bits = (refl, refl, refl, refl, refl)

write_bits :
    (test_bit mstatus_write_mask 17 ≡ true)
    × (test_bit mstatus_write_mask 18 ≡ true)
    × (test_bit mstatus_write_mask 19 ≡ true)
    × (test_bit mstatus_write_mask 11 ≡ true)
    × (test_bit mstatus_write_mask 12 ≡ true)
unfolding test_bit
write_bits = (refl, refl, refl, refl, refl)

flag_kept :
    (s : Cpu) (val i : ℕ)
    → changes_translation s (bit_xor s.mstatus val) ≡ false
    → i < 64
    → test_bit (mstatus_mprv + mstatus_sum + mstatus_mxr) i ≡ true
    → test_bit mstatus_write_mask i ≡ true
    → any (set_mstatus s val).mstatus (2 ^ i) ≡ any s.mstatus (2 ^ i)
flag_kept s val i h lt flag writes =
    rw
      (
        (set_mstatus_fields s val).0,
        any-bit i (merge 64 s.mstatus mstatus_write_mask val),
        any-bit i s.mstatus,
      )
      (written s.mstatus val i lt writes ∙ sym (unflushed_bit s val i h flag))

mpp_kept :
    (s : Cpu) (val : ℕ)
    → changes_translation s (bit_xor s.mstatus val) ≡ false
    → any s.mstatus mstatus_mprv ≡ true
    → bit_and ((set_mstatus s val).mstatus / 2 ^ 11) 3 ≡ bit_and (s.mstatus / 2 ^ 11) 3
mpp_kept s val h v = rw ((set_mstatus_fields s val).0) (
    mpp_ext (merge 64 s.mstatus mstatus_write_mask val) s.mstatus
      (written s.mstatus val 11 (omega arith) write_bits.3
        ∙ sym (unflushed_mpp s val 11 h v flag_bits.3))
      (written s.mstatus val 12 (omega arith) write_bits.4
        ∙ sym (unflushed_mpp s val 12 h v flag_bits.4)))

unflushed_SameContext :
    (s : Cpu) (val : ℕ)
    → changes_translation s (bit_xor s.mstatus val) ≡ false
    → SameContext s (set_mstatus s val)
unfolding data_priv
unflushed_SameContext s val h =
    let mprv : any (set_mstatus s val).mstatus mstatus_mprv ≡ any s.mstatus mstatus_mprv =
      flag_kept s val 17 h (omega arith) flag_bits.0 write_bits.0 in
    record {
      same_data_priv = ground (arith, mprv, mpp_kept s val h, set_mstatus_fields s val);
      same_priv = (set_mstatus_fields s val).1;
      same_sum = flag_kept s val 18 h (omega arith) flag_bits.1 write_bits.1;
      same_mxr = flag_kept s val 19 h (omega arith) flag_bits.2 write_bits.2;
    }

-- A write to mstatus either flushes the TLBs or leaves all that cached translations depend on.
pub set_mstatus-SameContext :
    (s : Cpu) (val : ℕ) → IsFlushed (set_mstatus s val) ⊎ SameContext s (set_mstatus s val)
set_mstatus-SameContext s val = elim (Bool-cases (changes_translation s (bit_xor s.mstatus val))) [
  | inl h ↦ inl (set_mstatus-IsFlushed s val h)
  | inr h ↦ inr (unflushed_SameContext s val h)
]

three_bits : (test_bit 3 0 ≡ test_bit (3 * 2 ^ 11) 11) × (test_bit 3 1 ≡ test_bit (3 * 2 ^ 11) 12)
unfolding test_bit
three_bits = (refl, refl)

trap_mpp : (m priv : ℕ) → priv ≡ prv_m → bit_and (enter_m_mstatus m priv / 2 ^ 11) 3 ≡ prv_m
trap_mpp m priv e =
    mpp_ext (enter_m_mstatus m priv) (3 * 2 ^ 11)
      (rw (enter_m_bits m priv 11 (omega arith) (omega arith), e) (three_bits.0))
      (rw (enter_m_bits m priv 12 (omega arith) (omega arith), e) (three_bits.1))

-- A trap that machine mode takes from itself while MPRV is set, with a lower privilege in MPP:
-- loads and stores now have machine privilege, and the translations cached at the lower one stay.
pub raise_exception2_stale :
    (s : Cpu) (cause tval : ℕ)
    → s.priv ≡ prv_m
    → any s.mstatus mstatus_mprv ≡ true
    → data_priv s ≢ prv_m
    → let t = raise_exception2 s cause tval in (data_priv t ≡ prv_m) × SameTlb s t
unfolding raise_exception2 enter_m set_priv is_delegated data_priv
raise_exception2_stale s cause tval m v low = (
  ground (
    arith,
    any-bit 17 s.mstatus,
    any-bit 17 (enter_m_mstatus s.mstatus s.priv),
    enter_m_bits s.mstatus s.priv 17 (omega arith) (omega arith),
    trap_mpp s.mstatus s.priv m,
  ),
  λ p. ground arith,
)
