-- ===== src/Recovery/Encoders.antt =====
-- The encoded instructions, field by field.
use dromajo.Prelude.{
  ℕ, ◌+◌, ◌-◌, ◌*◌, ◌/◌, ◌%◌, ◌^◌, ◌<◌, ◌≡◌, ◌∙◌, sym, ap, arith, bit_and, bit_or, if◌then◌else◌,
}
use dromajo.Prelude.Bits.{
  bit_and-low, bit_and-high, bit_or_comm, bit_or_assoc, sign_extend, test_bit, bit_and-pow,
  test_bit-shr,
}
use dromajo.Cpu.Mstatus.{any}
use dromajo.Interp.Fields.{opcode_of, rd_of, imm_u}
use dromajo.Interp.Fields.Pack.{pack, append_field}
use dromajo.Recovery.{create_csrrw, create_auipc, create_addi, create_seti, create_ld, create_sd}

low5 : (x : ℕ) → x < 32 → bit_and x 0x1f ≡ x
low5 x h = omega (arith, bit_and-low 5 x)

low12 : (x : ℕ) → bit_and x 0xfff ≡ x % 2 ^ 12
low12 x = bit_and-low 12 x

pub create_addi-pack :
    (rd addr : ℕ) → rd < 32 → create_addi rd addr ≡ pack 0x13 rd 0 rd (addr % 2 ^ 12)
unfolding create_addi pack
create_addi-pack rd addr h = ground (
  arith,
  low5 rd h,
  low12 addr,
  low12 (addr % 2 ^ 12),
  append_field 7 0x13 rd,
  append_field 15 (0x13 + rd * 2 ^ 7) rd,
  append_field 20 (0x13 + rd * 2 ^ 7 + rd * 2 ^ 15) (addr % 2 ^ 12),
)

pub create_seti-pack : (rd v : ℕ) → rd < 32 → create_seti rd v ≡ pack 0x13 rd 0 0 (v % 2 ^ 12)
unfolding create_seti pack
create_seti-pack rd v h = ground (
  arith,
  low5 rd h,
  low12 v,
  append_field 7 0x13 rd,
  append_field 20 (0x13 + rd * 2 ^ 7) (v % 2 ^ 12),
)

pub create_ld-pack : (rd rs1 : ℕ) → rd < 32 → rs1 < 32 → create_ld rd rs1 ≡ pack 3 rd 3 rs1 0
unfolding create_ld pack
create_ld-pack rd rs1 h g = ground (
  arith,
  low5 rd h,
  low5 rs1 g,
  append_field 7 3 rd,
  append_field 12 (3 + rd * 2 ^ 7) 3,
  append_field 15 (3 + rd * 2 ^ 7 + 3 * 2 ^ 12) rs1,
)

-- A field between two others, written last.
insert_field :
    (k m low high x : ℕ)
    → low < 2 ^ k
    → low + x * 2 ^ k < 2 ^ m
    → low < 2 ^ m
    → bit_or (bit_or low (high * 2 ^ m)) (x * 2 ^ k) ≡ low + x * 2 ^ k + high * 2 ^ m
insert_field k m low high x p q r =
    bit_or_assoc low (high * 2 ^ m) (x * 2 ^ k)
    ∙ ap (λ (n : ℕ). bit_or low n) (bit_or_comm (high * 2 ^ m) (x * 2 ^ k))
    ∙ sym (bit_or_assoc low (x * 2 ^ k) (high * 2 ^ m))
    ∙ ap (λ (n : ℕ). bit_or n (high * 2 ^ m)) (append_field k low x p)
    ∙ append_field m (low + x * 2 ^ k) high q

pub create_csrrw-pack :
    (rs csrn : ℕ) → rs < 32 → create_csrrw rs csrn ≡ pack 0x73 0 1 rs (csrn % 2 ^ 12)
unfolding create_csrrw pack
create_csrrw-pack rs csrn h =
    ground (arith, low5 rs h, low12 csrn, insert_field 15 20 0x1073 (csrn % 2 ^ 12) rs)

pub create_sd-pack : (rs1 rs2 : ℕ) → rs1 < 32 → rs2 < 32 → create_sd rs1 rs2 ≡ pack 0x23 0 3 rs1 rs2
unfolding create_sd pack
create_sd-pack rs1 rs2 h g =
    let ordered =
      ap (λ (n : ℕ). bit_or n (rs1 * 2 ^ 15))
        (insert_field 12 20 0x23 rs2 3 (omega arith) (omega arith) (omega arith)) in
    let last : bit_or (0x23 + 3 * 2 ^ 12 + rs2 * 2 ^ 20) (rs1 * 2 ^ 15)
        ≡ 0x23 + 3 * 2 ^ 12 + rs1 * 2 ^ 15 + rs2 * 2 ^ 20 =
      ap (λ (n : ℕ). bit_or n (rs1 * 2 ^ 15))
        (sym (append_field 20 (0x23 + 3 * 2 ^ 12) rs2 (omega arith)))
      ∙ insert_field 15 20 (0x23 + 3 * 2 ^ 12) rs2 rs1 (omega arith) (omega arith) (omega arith) in
    rw (low5 rs1 h, low5 rs2 g) (ordered ∙ last ∙ omega arith)

-- The address of create_auipc, rounded up to the next page where bit 11 is set.
unfoldable pub rounded : ℕ → ℕ
rounded addr = if any addr 0x800 then (addr + 0x800) % 2 ^ 32 else addr

pub create_auipc-value :
    (rd addr : ℕ)
    → rd < 32
    → create_auipc rd addr ≡ 0x17 + rd * 2 ^ 7 + rounded addr / 2 ^ 12 * 2 ^ 12
unfolding create_auipc rounded
create_auipc-value rd addr h = ground (
  arith,
  low5 rd h,
  append_field 7 0x17 rd,
  append_field 12 (0x17 + rd * 2 ^ 7)
      ((if any addr 0x800 then (addr + 0x800) % 2 ^ 32 else addr) / 2 ^ 12),
)

-- The sum of what auipc and addi add is the offset, as long as it does not round up to 2 ^ 31.
pub split_offset :
    (off : ℕ)
    → off < 2 ^ 31 - 2 ^ 11
    → (sign_extend 32 (rounded off / 2 ^ 12 * 2 ^ 12) + sign_extend 12 (off % 2 ^ 12)) % 2 ^ 64
      ≡ off
unfolding rounded sign_extend test_bit
split_offset off h = ground (
  arith,
  bit_and-pow 11 off,
  test_bit-shr 11 off 0,
  test_bit-shr 11 (off % 2 ^ 12) 0,
  test_bit-shr 31 (rounded off / 2 ^ 12 * 2 ^ 12) 0,
)

-- The fields of create_auipc's instruction.
pub create_auipc-fields :
    (rd off : ℕ)
    → rd < 32
    → off < 2 ^ 32
    → (bit_and (create_auipc rd off) 3 ≡ 3)
      × (opcode_of (create_auipc rd off) ≡ 0x17)
      × (rd_of (create_auipc rd off) ≡ rd)
      × (imm_u (create_auipc rd off) ≡ sign_extend 32 (rounded off / 2 ^ 12 * 2 ^ 12))
unfolding opcode_of rd_of imm_u rounded
create_auipc-fields rd off h small =
    let insn = create_auipc rd off in
    let v = create_auipc-value rd off h in
    let top : rounded off / 2 ^ 12 * 2 ^ 12 < 2 ^ 32 = ground arith in
    let up : insn < 2 ^ 32 = omega (arith, v, top) in
    let cut : bit_and insn 0xfffff000 ≡ rounded off / 2 ^ 12 * 2 ^ 12 =
      omega (arith, v, bit_and-high 32 12 insn (omega arith) up) in
    (
      omega (arith, v, bit_and-low 2 insn),
      omega (arith, v, bit_and-low 7 insn),
      omega (arith, v, bit_and-low 5 (insn / 2 ^ 7)),
      ap (λ (n : ℕ). sign_extend 32 n) cut,
    )
