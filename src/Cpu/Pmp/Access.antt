-- ===== src/Cpu/Pmp/Access.antt =====
-- Which accesses the PMP entries let through.
use mathlib.Core.Path.{subst}
use native.Mathlib.Nat.{lt-div-mul-add, one-le-pow}
use dromajo.Prelude.{
  ℕ, zero, suc, ◌*◌, ◌/◌, ◌^◌, ◌<◌, ◌≤◌, ◌+◌, ◌-◌, ◌%◌, ◌≡◌, inl, inr, refl, true, false, List, [],
  ◌∷◌, get_elem?, some, arith, bit_and, Bool-cases,
}
use dromajo.Cpu.Constants.{prv_m}
use dromajo.Cpu.State.{Cpu, PmpEntry}
use dromajo.Cpu.Mstatus.{any}
use dromajo.Cpu.Pmp.{
  overlaps, entry_permits, scan_pmp, riscv_cpu_pmp_access_ok, data_priv, pmpcfg_x, pmpcfg_l,
}

-- Entry `i` is the first that the access meets.
pub record Decides (es : List PmpEntry) (paddr size i : ℕ) (e : PmpEntry) : Type 0 where
  pub stands : get_elem? es i ≡ some e
  pub meets : overlaps e paddr size ≡ true
  pub first :
      (j : ℕ) (other : PmpEntry)
      → j < i
      → get_elem? es j ≡ some other
      → overlaps other paddr size ≡ false

pub scan_pmp-Decides :
    (es : List PmpEntry) (priv paddr size perm i : ℕ) (e : PmpEntry)
    → Decides es paddr size i e
    → scan_pmp es priv paddr size perm ≡ entry_permits e priv perm
unfolding scan_pmp
scan_pmp-Decides [] priv paddr size perm i e d = absurd (cc d.stands)
scan_pmp-Decides (x ∷ es) priv paddr size perm zero e d = ground (arith, d.stands, d.meets)
scan_pmp-Decides (x ∷ es) priv paddr size perm (suc i) e d = rw (d.first 0 x (omega arith) refl) (
    scan_pmp-Decides es priv paddr size perm i e (record {
      stands = d.stands;
      meets = d.meets;
      first = λ j other lt g. d.first (suc j) other (omega arith) g;
    }))

-- A user or supervisor access that the scan lets through is granted by an entry: the first one
-- that it meets has every permission asked for.
pub record Granted (es : List PmpEntry) (paddr size perm : ℕ) : Type 0 where
  pub index : ℕ
  pub entry : PmpEntry
  pub decides : Decides es paddr size index entry
  pub permits : bit_and perm entry.cfg ≡ perm

skip_Decides :
    (x : PmpEntry) (es : List PmpEntry) (paddr size i : ℕ) (e : PmpEntry)
    → overlaps x paddr size ≡ false
    → Decides es paddr size i e
    → Decides (x ∷ es) paddr size (suc i) e
skip_Decides x es paddr size i e miss d = record {
  stands = d.stands;
  meets = d.meets;
  first = earlier;
}
  where
    earlier :
        (j : ℕ) (other : PmpEntry)
        → j < suc i
        → get_elem? (x ∷ es) j ≡ some other
        → overlaps other paddr size ≡ false
    earlier zero other lt h = ground arith
    earlier (suc j) other lt h = d.first j other (omega arith) h

scan_pmp-Granted :
    (es : List PmpEntry) (priv paddr size perm : ℕ)
    → priv < 3
    → scan_pmp es priv paddr size perm ≡ true
    → Granted es paddr size perm
unfolding scan_pmp entry_permits
scan_pmp-Granted [] priv paddr size perm low h = absurd (ground arith)
scan_pmp-Granted (x ∷ es) priv paddr size perm low h = elim (Bool-cases (overlaps x paddr size)) [
  | inl hit ↦ record {
    index = 0;
    entry = x;
    decides = record { stands = refl; meets = hit; first = λ j other lt e. absurd (omega arith) };
    permits = ground arith;
  }
  | inr miss ↦
      (let g = scan_pmp-Granted es priv paddr size perm low (ground arith) in
        record {
          index = suc g.index;
          entry = g.entry;
          decides = skip_Decides x es paddr size g.index g.entry miss g.decides;
          permits = g.permits;
        })
]

-- A quotient of zero bounds the dividend.
below : (k x : ℕ) → x / 2 ^ k ≡ 0 → x < 2 ^ k
below k x top =
    let bound : x < x / 2 ^ k * 2 ^ k + 2 ^ k = lt-div-mul-add (one-le-pow k 2 (omega arith)) in
    let small : x < 0 * 2 ^ k + 2 ^ k = subst (λ (q : ℕ). x < q * 2 ^ k + 2 ^ k) top bound in
    omega (arith, small)

-- The region begins before the access ends, and ends behind the first byte of the access.
abbrev pub Meets : PmpEntry → ℕ → ℕ → Type 0
Meets e paddr size = (e.lo < paddr + size) × (paddr < e.hi)

overlaps-Meets :
    (e : PmpEntry) (paddr size : ℕ)
    → 0 < size
    → paddr + size ≤ 2 ^ 64
    → overlaps e paddr size ≡ true
    → Meets e paddr size
unfolding overlaps
overlaps-Meets e paddr size pos fits h =
    let last : (paddr + size + 2 ^ 64 - 1) % 2 ^ 64 ≡ paddr + size - 1 = omega arith in
    (ground (arith, last), ground arith)

no_overlap :
    (e : PmpEntry) (paddr size : ℕ)
    → 0 < size
    → paddr + size ≤ 2 ^ 64
    → overlaps e paddr size ≡ false
    → ¬ Meets e paddr size
unfolding overlaps
no_overlap e paddr size pos fits h m =
    let last : (paddr + size + 2 ^ 64 - 1) % 2 ^ 64 ≡ paddr + size - 1 = omega arith in
    let low = m.0 in let high = m.1 in ground (arith, last)

-- Entry `index` is the first that the access meets, and it has every permission asked for.
pub record GrantedBy (es : List PmpEntry) (paddr size perm : ℕ) : Type 0 where
  pub index : ℕ
  pub entry : PmpEntry
  pub stands : get_elem? es index ≡ some entry
  pub meets : Meets entry paddr size
  pub first :
      (j : ℕ) (other : PmpEntry)
      → j < index
      → get_elem? es j ≡ some other
      → ¬ Meets other paddr size
  pub permits : bit_and perm entry.cfg ≡ perm

-- A load or store below machine privilege that the PMP lets through begins within the physical
-- address space, and the first entry whose region begins before the end of the access and ends behind
-- its start grants every permission asked for. The access has a byte and does not pass the end of the
-- 64-bit addresses.
pub pmp_access_ok-Granted :
    (s : Cpu) (paddr size perm : ℕ)
    → 0 < size
    → paddr + size ≤ 2 ^ 64
    → any perm pmpcfg_x ≡ false
    → data_priv s < 3
    → riscv_cpu_pmp_access_ok s paddr size perm ≡ true
    → (paddr < 2 ^ s.physical_addr_len) × GrantedBy s.pmp paddr size perm
unfolding riscv_cpu_pmp_access_ok
pmp_access_ok-Granted s paddr size perm pos fits load low h =
    let g : Granted s.pmp paddr size perm =
      scan_pmp-Granted s.pmp (data_priv s) paddr size perm low (ground arith) in
    let top : paddr / 2 ^ s.physical_addr_len ≡ 0 = ground arith in
    (
      below s.physical_addr_len paddr top,
      record {
        index = g.index;
        entry = g.entry;
        stands = g.decides.stands;
        meets = overlaps-Meets g.entry paddr size pos fits g.decides.meets;
        first = λ j other lt e. no_overlap other paddr size pos fits (g.decides.first j other lt e);
        permits = g.permits;
      },
    )

-- Machine mode is bound by the locked entries alone: if the first entry that an access meets is not
-- locked, or there is none, the access is let through.
pub scan_pmp_machine :
    (es : List PmpEntry) (paddr size perm : ℕ)
    → ((i : ℕ) (e : PmpEntry) → Decides es paddr size i e → any e.cfg pmpcfg_l ≡ false)
    → scan_pmp es prv_m paddr size perm ≡ true
unfolding scan_pmp entry_permits
scan_pmp_machine [] paddr size perm h = refl
scan_pmp_machine (x ∷ es) paddr size perm h = elim (Bool-cases (overlaps x paddr size)) [
  | inl hit ↦ ground (
    arith,
    h 0 x (record { stands = refl; meets = hit; first = λ j other lt e. absurd (omega arith) }),
  )
  | inr miss ↦ rw miss (
      scan_pmp_machine es paddr size perm
        (λ i e d. h (suc i) e (skip_Decides x es paddr size i e miss d)))
]
