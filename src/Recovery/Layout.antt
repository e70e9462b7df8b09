-- ===== src/Recovery/Layout.antt =====
-- The words that a recovery leaves in the ROM.
use dromajo.Prelude.{
  ℕ, ◌+◌, ◌-◌, ◌*◌, ◌/◌, ◌%◌, ◌^◌, ◌<◌, ◌≤◌, ◌≡◌, refl, arith, bit_and, List, length, length-set,
  get_or, set, get_or-set_self, get_or-set_ne, if◌then◌else◌, ◌==◌,
}
use dromajo.Prelude.Bits.{bit_and-low}
use dromajo.Recovery.{
  BootRom, put_code, put_data, put_data64, put_load, data_offset, create_auipc, create_addi,
  create_ld, create_reg_recovery,
}

-- A place of a ROM of which one place was written.
read_set :
    (xs : List ℕ) (i j v : ℕ)
    → i < length xs
    → get_or (set xs i v) j 0 ≡ (if j == i then v else get_or xs j 0)
read_set xs i j v h = ground (arith, get_or-set_self xs i v 0 h, get_or-set_ne xs i j v 0)

module _ (r : BootRom) (word j : ℕ) where
  read-put_code :
      r.code_pos < length r.rom
      → get_or (put_code r word).rom j 0 ≡ (if j == r.code_pos then word else get_or r.rom j 0)
  unfolding put_code
  read-put_code h = read_set r.rom r.code_pos j word h

  read-put_data :
      r.data_pos < length r.rom
      → get_or (put_data r word).rom j 0 ≡ (if j == r.data_pos then word else get_or r.rom j 0)
  unfolding put_data
  read-put_data h = read_set r.rom r.data_pos j word h

put_code-shape :
    (r : BootRom) (word : ℕ)
    → r.code_pos < 2 ^ 30
    → ((put_code r word).code_pos ≡ r.code_pos + 1)
      × ((put_code r word).data_pos ≡ r.data_pos)
      × (length (put_code r word).rom ≡ length r.rom)
unfolding put_code
put_code-shape r word h = (omega arith, refl, length-set r.rom r.code_pos word)

put_data-shape :
    (r : BootRom) (word : ℕ)
    → r.data_pos < 2 ^ 30
    → ((put_data r word).data_pos ≡ r.data_pos + 1)
      × ((put_data r word).code_pos ≡ r.code_pos)
      × (length (put_data r word).rom ≡ length r.rom)
unfolding put_data
put_data-shape r word h = (omega arith, refl, length-set r.rom r.data_pos word)

data_offset-value :
    (r : BootRom)
    → r.code_pos ≤ r.data_pos
    → r.data_pos < 2 ^ 30
    → data_offset r ≡ 4 * (r.data_pos - r.code_pos)
unfolding data_offset
data_offset-value r h small = omega arith

module _ (r : BootRom) (rn val : ℕ) (apart : r.code_pos + 3 ≤ r.data_pos) where
  module _ (room : r.data_pos + 1 < length r.rom) (size : length r.rom ≤ 2 ^ 30)
      (w : val < 2 ^ 64) where
    -- The five writes, the last one first, and the positions after them.
    written :
        (j : ℕ)
        → let t = create_reg_recovery r rn val in
          let off = 4 * (r.data_pos - r.code_pos) in
          (get_or t.rom j 0 ≡ (
            if j == r.data_pos + 1
            then val / 2 ^ 32 % 2 ^ 32
            else if j == r.data_pos
            then bit_and val 0xffffffff
            else if j == r.code_pos + 2
            then create_ld rn rn
            else if j == r.code_pos + 1
            then create_addi rn off
            else if j == r.code_pos
            then create_auipc rn off
            else get_or r.rom j 0))
          × (t.code_pos ≡ r.code_pos + 3)
          × (t.data_pos ≡ r.data_pos + 2)
    unfolding create_reg_recovery put_data64 put_load
    written j =
        let off = data_offset r in
        let value = data_offset-value r (omega arith) (omega arith) in
        let a = put_code r (create_auipc rn off) in
        let sa = put_code-shape r (create_auipc rn off) (omega arith) in
        let b = put_code a (create_addi rn off) in
        let sb = put_code-shape a (create_addi rn off) (omega (arith, sa)) in
        let c = put_code b (create_ld rn rn) in
        let sc = put_code-shape b (create_ld rn rn) (omega (arith, sa, sb)) in
        let low = bit_and val 0xffffffff in
        let d = put_data c low in
        let sd = put_data-shape c low (omega (arith, sa, sb, sc)) in
        let high = val / 2 ^ 32 % 2 ^ 32 in
        let sf = put_data-shape d high (omega (arith, sa, sb, sc, sd)) in
        let ra = read-put_code r (create_auipc rn off) j (omega arith) in
        let rb = read-put_code a (create_addi rn off) j (omega (arith, sa)) in
        let rc = read-put_code b (create_ld rn rn) j (omega (arith, sa, sb)) in
        let rd = read-put_data c low j (omega (arith, sa, sb, sc)) in
        let rf = read-put_data d high j (omega (arith, sa, sb, sc, sd)) in
        (
          ground (arith, value, sa, sb, sc, sd, ra, rb, rc, rd, rf),
          omega (arith, sa, sb, sc, sd, sf),
          omega (arith, sa, sb, sc, sd, sf),
        )

    -- create_reg_recovery writes auipc, addi and ld at the code position, with the distance of the data
    -- position in bytes, and the value in two halves at the data position. The data lie behind the
    -- code, inside a ROM of at most 2 ^ 30 words.
    pub create_reg_recovery-layout :
        let t = create_reg_recovery r rn val in
        let off = 4 * (r.data_pos - r.code_pos) in
        (get_or t.rom r.code_pos 0 ≡ create_auipc rn off)
        × (get_or t.rom (r.code_pos + 1) 0 ≡ create_addi rn off)
        × (get_or t.rom (r.code_pos + 2) 0 ≡ create_ld rn rn)
        × (get_or t.rom r.data_pos 0 + 2 ^ 32 * get_or t.rom (r.data_pos + 1) 0 ≡ val)
        × (t.code_pos ≡ r.code_pos + 3)
        × (t.data_pos ≡ r.data_pos + 2)
    create_reg_recovery-layout =
        let half = bit_and-low 32 val in
        (
          ground (arith, written r.code_pos),
          ground (arith, written (r.code_pos + 1)),
          ground (arith, written (r.code_pos + 2)),
          ground (arith, half, written r.data_pos, written (r.data_pos + 1)),
          ground (arith, written 0),
          ground (arith, written 0),
        )
