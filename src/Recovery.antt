-- ===== src/Recovery.antt =====
-- The boot ROM of a snapshot: the instruction encoders and the code that restores a register or a
-- CSR, of src/riscv_cpu.cpp. The ROM is a list of 32-bit words with a position for code and one for
-- data.
pub mod Encoders
pub mod Run
pub mod Layout
use dromajo.Prelude.{
  ℕ, ◌+◌, ◌-◌, ◌*◌, ◌/◌, ◌%◌, ◌^◌, Bool, not, List, ◌==◌, if◌then◌else◌, set, bit_and, bit_or,
}
use dromajo.Cpu.Mstatus.{any}

unfoldable pub create_csrrw : ℕ → ℕ → ℕ
create_csrrw rs csrn =
    bit_or (bit_or 0x1073 (bit_and csrn 0xfff * 2 ^ 20)) (bit_and rs 0x1f * 2 ^ 15)

unfoldable pub create_csrrs : ℕ → ℕ → ℕ
create_csrrs rd csrn =
    bit_or (bit_or 0x2073 (bit_and csrn 0xfff * 2 ^ 20)) (bit_and rd 0x1f * 2 ^ 7)

-- The upper part is rounded up where the lower part will be read as negative.
unfoldable pub create_auipc : ℕ → ℕ → ℕ
create_auipc rd addr =
    let rounded = if any addr 0x800 then (addr + 0x800) % 2 ^ 32 else addr in
    bit_or (bit_or 0x17 (bit_and rd 0x1f * 2 ^ 7)) (rounded / 2 ^ 12 * 2 ^ 12)

unfoldable pub create_addi : ℕ → ℕ → ℕ
create_addi rd addr =
    let pos = bit_and addr 0xfff in
    bit_or (bit_or (bit_or 0x13 (bit_and rd 0x1f * 2 ^ 7)) (bit_and rd 0x1f * 2 ^ 15))
      (bit_and pos 0xfff * 2 ^ 20)

unfoldable pub create_seti : ℕ → ℕ → ℕ
create_seti rd data1 = bit_or (bit_or 0x13 (bit_and rd 0x1f * 2 ^ 7)) (bit_and data1 0xfff * 2 ^ 20)

unfoldable pub create_ld : ℕ → ℕ → ℕ
create_ld rd rs1 =
    bit_or (bit_or (bit_or 3 (bit_and rd 0x1f * 2 ^ 7)) (3 * 2 ^ 12)) (bit_and rs1 0x1f * 2 ^ 15)

unfoldable pub create_sd : ℕ → ℕ → ℕ
create_sd rs1 rs2 =
    bit_or (bit_or (bit_or 0x23 (bit_and rs2 0x1f * 2 ^ 20)) (3 * 2 ^ 12))
      (bit_and rs1 0x1f * 2 ^ 15)

unfoldable pub create_fld : ℕ → ℕ → ℕ
create_fld rd rs1 =
    bit_or (bit_or (bit_or 7 (bit_and rd 0x1f * 2 ^ 7)) (3 * 2 ^ 12)) (bit_and rs1 0x1f * 2 ^ 15)

-- `rom`, `code_pos` and `data_pos`.
pub record BootRom : Type 0 where
  pub rom : List ℕ
  pub code_pos : ℕ
  pub data_pos : ℕ

-- `rom[(*code_pos)++] = word` and `rom[(*data_pos)++] = word`.
unfoldable pub put_code : BootRom → ℕ → BootRom
put_code r word = record r { rom = set r.rom r.code_pos word; code_pos = (r.code_pos + 1) % 2 ^ 32 }

unfoldable pub put_data : BootRom → ℕ → BootRom
put_data r word = record r { rom = set r.rom r.data_pos word; data_pos = (r.data_pos + 1) % 2 ^ 32 }

unfoldable pub put_data64 : BootRom → ℕ → BootRom
put_data64 r val = put_data (put_data r (bit_and val 0xffffffff)) (val / 2 ^ 32 % 2 ^ 32)

-- `sizeof(uint32_t) * (*data_pos - *code_pos)`.
unfoldable pub data_offset : BootRom → ℕ
data_offset r = 4 * ((r.data_pos + (2 ^ 32 - r.code_pos)) % 2 ^ 32) % 2 ^ 32

-- auipc, addi and ld: `rn` takes the doubleword at the data position.
unfoldable pub put_load : BootRom → ℕ → BootRom
put_load r rn =
    let data_off = data_offset r in
    put_code (put_code (put_code r (create_auipc rn data_off)) (create_addi rn data_off))
      (create_ld rn rn)

unfoldable pub create_csr12_recovery : BootRom → ℕ → ℕ → BootRom
create_csr12_recovery r csrn val =
    put_code (put_code r (create_seti 1 (bit_and val 0xfff))) (create_csrrw 1 csrn)

unfoldable pub create_csr64_recovery : BootRom → ℕ → ℕ → BootRom
create_csr64_recovery r csrn val = put_data64 (put_code (put_load r 1) (create_csrrw 1 csrn)) val

unfoldable pub create_reg_recovery : BootRom → ℕ → ℕ → BootRom
create_reg_recovery r rn val = put_data64 (put_load r rn) val

unfoldable pub create_io64_recovery : BootRom → ℕ → ℕ → BootRom
create_io64_recovery r addr val =
    let t = put_data64 (put_load r 1) addr in
    put_data64 (put_code (put_load t 2) (create_sd 1 2)) val

unfoldable pub create_hang_nonzero_hart : BootRom → BootRom
create_hang_nonzero_hart r =
    put_code (put_code (put_code (put_code r 0xf1402573) 0x00050663) 0x10500073) 0xffdff06f
