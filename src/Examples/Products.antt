-- ===== src/Examples/Products.antt =====
-- Products and quotients of concrete words.
use dromajo.Prelude.{ℕ, ◌+◌, ◌^◌, ◌<◌, ◌≡◌, ◌⊎◌, ◌*◌, ◌-◌, ◌%◌, arith}
use dromajo.Prelude.Bits.{test_bit}
use dromajo.Alu.{clmul64, clmulh64, clmulr64, magnitude, div64, rem64}
use dromajo.Alu.Division.{div64-rem64}
use dromajo.Alu.Carryless.{coefficient, clmul64-coefficient}

clmul64-coefficient_example :
    (test_bit (clmul64 0xf0f0 0x8001) 20 ≡ coefficient 0xf0f0 0x8001 20)
    × (test_bit (clmulh64 0xf0f0 0x8001) 20 ≡ coefficient 0xf0f0 0x8001 (64 + 20))
    × (test_bit (clmulr64 0xf0f0 0x8001) 20 ≡ coefficient 0xf0f0 0x8001 (63 + 20))
clmul64-coefficient_example = clmul64-coefficient 0xf0f0 0x8001 20 (omega arith) (omega arith)

abbrev divisor : ℕ
divisor = 3

div64-rem64_example :
    ((divisor * div64 (2 ^ 64 - 7) divisor + rem64 (2 ^ 64 - 7) divisor) % 2 ^ 64 ≡ 2 ^ 64 - 7)
    × ((divisor ≡ 0) ⊎ (magnitude (rem64 (2 ^ 64 - 7) divisor) < magnitude divisor))
div64-rem64_example = div64-rem64 (2 ^ 64 - 7) divisor (omega arith) (omega arith)
