-- ===== src/Cosim/Agreement.antt =====
-- What the exit code of a step says of the hart and the design under test.
use dromajo.Prelude.{ℕ, ◌^◌, ◌≤◌, ◌≡◌, ◌≢◌, ◌⊎◌, Option, bit_and}
use dromajo.Cpu.State.{Cpu}
use dromajo.Memory.{Hart, DeviceIo}
use dromajo.Interp.{ExtFlags, read_reg}
use dromajo.Cosim.{Machine, Dut, Attempt, ran, differs, error_code, try_until}
use dromajo.Cosim.Overrides.{OnCounter, OffMap}
use dromajo.Cosim.Origin.{Executed, FailedStore, Origin, OtherCause}

-- The instruction at `emu_pc` with the registers of `h` is what the DUT has done: the pc, the word if it
-- is not compressed, and the register that was written, if one was (0 and -1 are none).
pub record Agrees {D : Type 0} (h : Hart D) (dut : Dut) (emu_pc emu_insn iregno : ℕ) : Type 0 where
  pub same_pc : emu_pc ≡ dut.pc
  pub same_insn : (bit_and emu_insn 3 ≢ 3) ⊎ (emu_insn ≡ dut.insn)
  pub same_data : (iregno ≡ 0) ⊎ ((2 ^ 31 ≤ iregno) ⊎ (read_reg h.cpu iregno ≡ dut.wdata))

module _ {D : Type 0} (io : DeviceIo D) (e : ExtFlags) (read_hook : Cpu → ℕ → Option ℕ)
    (write_hook : Cpu → ℕ → ℕ → Option Cpu) (uninit_insn uninit_pa : ℕ) where
  abbrev pub attempts : ℕ → Machine D → Dut → Option (Attempt D)
  attempts = try_until io e read_hook write_hook uninit_insn uninit_pa

  -- The DUT's store-conditional has failed; or the interpreter has run an instruction, and the hart
  -- that it left agrees, or else a counter or a load from outside the memory map was taken over.
  abbrev Simulated : Machine D → Dut → (emu_pc emu_insn iregno : ℕ) → Type 0
  Simulated m dut emu_pc emu_insn iregno =
      FailedStore io e read_hook write_hook uninit_insn uninit_pa dut emu_pc emu_insn
      ⊎ (Executed io e read_hook write_hook uninit_insn uninit_pa m emu_pc iregno
          × (Agrees m.hart dut emu_pc emu_insn iregno
              ⊎ (OnCounter emu_insn ⊎ OffMap uninit_pa m.hart emu_insn)))

  -- The attempt `a` named an instruction on which the hart that is left agrees.
  pub record Confirmed (dut : Dut) (a : Attempt D) (t : Machine D) : Type 0 where
    pub m : Machine D
    pub emu_pc : ℕ
    pub emu_insn : ℕ
    pub iregno : ℕ
    pub attempt : a ≡ ran m emu_pc emu_insn iregno
    pub agrees : Agrees t.hart dut emu_pc emu_insn iregno
    pub simulated : Simulated m dut emu_pc emu_insn iregno

  -- The attempt named an instruction on which the hart that is left does not agree, or met an exception
  -- with another cause than the DUT's.
  pub data Denied (dut : Dut) : Attempt D → Machine D → Type 0 where
    disagrees :
        (m t : Machine D) (emu_pc emu_insn iregno : ℕ)
        → ¬ Agrees t.hart dut emu_pc emu_insn iregno
        → Denied dut (ran m emu_pc emu_insn iregno) t
    other_exception :
        (t : Machine D)
        → OtherCause io e read_hook write_hook uninit_insn uninit_pa t
        → Denied dut (differs t) t

  -- The outcome by its exit code.
  abbrev pub Judged : Dut → Attempt D → ℕ → Machine D → Type 0
  Judged dut a code t = ((code ≡ 0) × Confirmed dut a t) ⊎ ((code ≡ error_code) × Denied dut a t)
