-- ===== src/Interp/Exec/Words.antt =====
-- The switch and the registers.
use mathlib.Core.Path.{subst}
use dromajo.Prelude.{
  ℕ, ◌≤◌, ◌≡◌, ◌≢◌, Bool, true, false, ◌==◌, Option, none, some, arith, if◌then◌else◌,
}
use dromajo.Cpu.State.{Cpu}
use dromajo.Memory.{Hart, DeviceIo, target_read}
use dromajo.Memory.Kept.{target_read-reg, target_read-Narrow}
use dromajo.Interp.{ExtFlags, Flow, illegal_insn}
use dromajo.Interp.Fields.{opcode_of}
use dromajo.Interp.Compressed.{
  c_load, c_store, c_load_sp, address, exec_quadrant_0, exec_quadrant_2,
}
use dromajo.Interp.System.{exec_misc_mem}
use dromajo.Interp.Arith.{int32}
use dromajo.Interp.Arith.Bounds.{int32-lt}
use dromajo.Interp.Exec.{exec_32, exec}
use dromajo.Interp.Exec.Registers.{
  RegsOk, Good, either_Good, good, exec_lui-Good, exec_auipc-Good, exec_jal-Good, exec_jalr-Good,
  exec_branch-Good, exec_compute-Good,
}
use dromajo.Interp.Exec.Accesses.{
  access_width, Sound, sound, either_Sound, on_cpu-Sound, moved, write_loaded-Sound, and_then-Sound,
  stored-Sound, exec_load-Sound, exec_store-Sound, exec_atomic-Sound,
}
use dromajo.Interp.Exec.Short.{quadrant_1-Good, c_addi4spn-Good, c_slli-Good, c_cr-Good}

module _ {D : Type 0} (io : DeviceIo D) where
  -- The same for the instructions that are modelled.
  unfoldable SoundWhere : Option (Hart D × Flow) → Type 0
  SoundWhere none = Unit
  SoundWhere (some r) = Sound io r

  some-Sound : (r : Hart D × Flow) → Sound io r → SoundWhere (some r)
  unfolding SoundWhere
  some-Sound r g = g

  no_instruction : SoundWhere none
  unfolding SoundWhere
  no_instruction = tt

  either_SoundWhere :
      (c : Bool) (x y : Option (Hart D × Flow))
      → SoundWhere x
      → SoundWhere y
      → SoundWhere (if c then x else y)
  either_SoundWhere true x y p q = p
  either_SoundWhere false x y p q = q

  skipped : (x y : Option (Hart D × Flow)) → SoundWhere y → SoundWhere (if false then x else y)
  skipped x y q = q

  c_load-Sound :
      (h : Hart D) (k addr rd : ℕ) → k ≤ 3 → RegsOk h.cpu.reg → Sound io (c_load io h k addr rd)
  unfolding c_load
  c_load-Sound h k addr rd le ok =
      and_then-Sound io k (target_read io h k addr) _
        (moved io _ _ (target_read-reg io h k addr) ok) (target_read-Narrow io h k addr)
        (λ v t small okt.
          write_loaded-Sound io t rd (if k == 2 then int32 v else v) 2 okt
            (ground (arith, small, access_width k le, int32-lt v)))

  c_load_sp-Sound :
      (h : Hart D) (k imm rd : ℕ) → k ≤ 3 → RegsOk h.cpu.reg → Sound io (c_load_sp io h k imm rd)
  unfolding c_load_sp
  c_load_sp-Sound h k imm rd le ok =
      either_Sound io (rd == 0) _ _ (sound io h _ ok)
        (c_load-Sound h k (address h.cpu 2 imm) rd le ok)

  c_store-Sound : (h : Hart D) (k addr v : ℕ) → RegsOk h.cpu.reg → Sound io (c_store io h k addr v)
  unfolding c_store
  c_store-Sound h k addr v ok = stored-Sound io h k addr v 2 ok

  quadrant_0-Sound :
      (h : Hart D) (insn : ℕ) → RegsOk h.cpu.reg → SoundWhere (exec_quadrant_0 io h insn)
  unfolding exec_quadrant_0
  quadrant_0-Sound h insn ok =
      let two : 2 ≤ 3 = omega arith in
      let three : 3 ≤ 3 = omega arith in
      search
        (
          either_SoundWhere, some-Sound, no_instruction, on_cpu-Sound, c_addi4spn-Good,
          c_load-Sound, c_store-Sound, sound,
        )
        depth 12

  quadrant_2-Sound :
      (h : Hart D) (insn : ℕ) → RegsOk h.cpu.reg → SoundWhere (exec_quadrant_2 io h insn)
  unfolding exec_quadrant_2
  quadrant_2-Sound h insn ok =
      let two : 2 ≤ 3 = omega arith in
      let three : 3 ≤ 3 = omega arith in
      search
        (
          either_SoundWhere, some-Sound, no_instruction, on_cpu-Sound, c_slli-Good, c_cr-Good,
          c_load_sp-Sound, c_store-Sound,
        )
        depth 12

  exec_misc_mem-Good : (s : Cpu) (insn : ℕ) → RegsOk s.reg → Good (exec_misc_mem s insn)
  unfolding exec_misc_mem
  exec_misc_mem-Good s insn ok = search (either_Good, good)

  module _ (e : ExtFlags) (rh : Cpu → ℕ → Option ℕ) (wh : Cpu → ℕ → ℕ → Option Cpu) where
    exec_32-Sound :
        (h : Hart D) (delta insn : ℕ)
        → RegsOk h.cpu.reg
        → opcode_of insn ≢ 0x73
        → SoundWhere (exec_32 io e rh wh h delta insn)
    unfolding exec_32
    exec_32-Sound h delta insn ok no_system =
        let shut : (opcode_of insn == 0x73) ≡ false = ground (arith, no_system) in
        let lui = on_cpu-Sound io h _ (exec_lui-Good h.cpu insn ok) in
        let auipc = on_cpu-Sound io h _ (exec_auipc-Good h.cpu insn ok) in
        let jal = on_cpu-Sound io h _ (exec_jal-Good h.cpu insn ok) in
        let jalr = on_cpu-Sound io h _ (exec_jalr-Good h.cpu insn ok) in
        let branch = on_cpu-Sound io h _ (exec_branch-Good h.cpu insn ok) in
        let computed = on_cpu-Sound io h _ (exec_compute-Good e h.cpu insn ok) in
        let misc = on_cpu-Sound io h _ (exec_misc_mem-Good h.cpu insn ok) in
        let loads = exec_load-Sound io h insn ok in
        let stores = exec_store-Sound io h insn ok in
        let atomics = exec_atomic-Sound io h insn ok in
        let illegal = sound io h illegal_insn ok in
        rw (exec_32, shut)
          (search (skipped, either_SoundWhere, some-Sound, no_instruction) depth 16)

    exec-Sound :
        (h : Hart D) (delta insn : ℕ)
        → RegsOk h.cpu.reg
        → opcode_of insn ≢ 0x73
        → SoundWhere (exec io e rh wh h delta insn)
    unfolding exec
    exec-Sound h delta insn ok no_system =
        let wide = exec_32-Sound h delta insn ok no_system in
        let q0 = quadrant_0-Sound h insn ok in
        let q1 = on_cpu-Sound io h _ (quadrant_1-Good h.cpu insn ok) in
        let q2 = quadrant_2-Sound h insn ok in search (either_SoundWhere, some-Sound)

    -- Every modelled instruction but those of opcode 0x73 keeps the integer registers well formed: it
    -- leaves thirty-two 64-bit words of which x0 is zero, whatever way it leaves the switch. The
    -- register file was well formed before.
    pub exec-RegsOk :
        (h t : Hart D) (delta insn : ℕ) (f : Flow)
        → RegsOk h.cpu.reg
        → opcode_of insn ≢ 0x73
        → exec io e rh wh h delta insn ≡ some (t, f)
        → RegsOk t.cpu.reg
    unfolding SoundWhere Sound
    exec-RegsOk h t delta insn f ok no_system done =
        subst (λ (r : Option (Hart D × Flow)). SoundWhere r) done
          (exec-Sound h delta insn ok no_system)
