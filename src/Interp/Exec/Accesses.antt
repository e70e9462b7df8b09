-- ===== src/Interp/Exec/Accesses.antt =====
-- Loads, stores and atomic instructions, and the registers.
use mathlib.Core.Path.{subst}
use native.Mathlib.Nat.{pow-le-pow_right}
use dromajo.Prelude.{
  ℕ, ◌+◌, ◌-◌, ◌*◌, ◌/◌, ◌%◌, ◌^◌, ◌<◌, ◌≤◌, ◌≡◌, refl, sym, Bool, true, false, ◌==◌, List, some,
  arith, if◌then◌else◌, ltb, inl, inr, Option-cases, Bool-cases, ◌⊎◌, ◌||◌,
}
use dromajo.Cpu.State.{Cpu}
use dromajo.Cpu.Mmu.{PhysRead, loaded, failed, crashed}
use dromajo.Memory.{
  Hart, DeviceIo, target_read, target_write, pend, misaligned, cause_misaligned_store,
}
use dromajo.Memory.Kept.{target_read-reg, target_write-reg, Narrow, target_read-Narrow}
use dromajo.Interp.{Flow, next, read_reg, illegal_insn, exception}
use dromajo.Interp.Word.Bounds.{sign_extend-lt}
use dromajo.Interp.Fields.{rd_of, rs1_of, rs2_of, funct3_of, imm_i, imm_s}
use dromajo.Interp.Transfer.{
  on_cpu, and_then, write_loaded, load_size, load_extend, exec_load, exec_store,
}
use dromajo.Interp.Atomic.{
  to_int, amo_value, exec_lr, reserved, exec_sc, as_store, amo_store, exec_amo, exec_atomic,
}
use dromajo.Interp.Exec.Registers.{RegsOk, Good, write_rd-RegsOk}

-- An access of at most eight bytes fits in a register.
access_bits : (k : ℕ) → k ≤ 3 → 8 * 2 ^ k ≤ 64
access_bits k le =
    let p : 2 ^ k ≤ 2 ^ 3 = pow-le-pow_right {n = 2} (omega arith) le in omega (arith, p)

pub access_width : (k : ℕ) → k ≤ 3 → 2 ^ (8 * 2 ^ k) ≤ 2 ^ 64
access_width k le = pow-le-pow_right {n = 2} (omega arith) (access_bits k le)

module _ {D : Type 0} (io : DeviceIo D) where
  -- The hart after an instruction, with its way out.
  unfoldable pub Sound : Hart D × Flow → Type 0
  Sound r = RegsOk r.0.cpu.reg

  pub sound : (h : Hart D) (f : Flow) → RegsOk h.cpu.reg → Sound (h, f)
  unfolding Sound
  sound h f ok = ok

  pub either_Sound :
      (c : Bool) (x y : Hart D × Flow) → Sound x → Sound y → Sound (if c then x else y)
  either_Sound true x y p q = p
  either_Sound false x y p q = q

  pub on_cpu-Sound : (h : Hart D) (r : Cpu × Flow) → Good r → Sound (on_cpu h r)
  unfolding Sound on_cpu Good
  on_cpu-Sound h r g = g

  pub moved : (a b : List ℕ) → a ≡ b → RegsOk b → RegsOk a
  moved a b e ok = subst (λ (r : List ℕ). RegsOk r) (sym e) ok

  pub write_loaded-Sound :
      (h : Hart D) (rd v n : ℕ) → RegsOk h.cpu.reg → v < 2 ^ 64 → Sound (write_loaded h rd v n)
  unfolding Sound write_loaded
  write_loaded-Sound h rd v n ok small = write_rd-RegsOk h.cpu rd v ok small

  -- A continuation that is sound for each value that the access can give.
  pub and_then-Sound :
      (k : ℕ) (r : PhysRead × Hart D) (f : ℕ → Hart D → Hart D × Flow)
      → RegsOk r.1.cpu.reg
      → Narrow io k r
      → ((v : ℕ) (t : Hart D) → v < 2 ^ (8 * 2 ^ k) → RegsOk t.cpu.reg → Sound (f v t))
      → Sound (and_then r f)
  unfolding and_then
  and_then-Sound k (loaded v, h) f ok small g = g v h small ok
  and_then-Sound k (failed, h) f ok small g = sound h _ ok
  and_then-Sound k (crashed, h) f ok small g = sound h _ ok

  load_extend-lt :
      (f k v : ℕ) → load_size f ≡ some k → v < 2 ^ (8 * 2 ^ k) → load_extend f v < 2 ^ 64
  unfolding load_extend load_size
  load_extend-lt f k v e small =
      let le : k ≤ 3 = ground (arith, e) in
      ground (
        arith,
        small,
        access_width k le,
        sign_extend-lt 8 v,
        sign_extend-lt 16 v,
        sign_extend-lt 32 v,
      )

  pub exec_load-Sound : (h : Hart D) (insn : ℕ) → RegsOk h.cpu.reg → Sound (exec_load io h insn)
  unfolding exec_load
  exec_load-Sound h insn ok =
      let addr = (read_reg h.cpu (rs1_of insn) + imm_i insn) % 2 ^ 64 in
      let f = funct3_of insn in
      elim (Option-cases (load_size f)) [
        | inl e ↦ rw (exec_load, e) (sound h _ ok)
        | inr (k, e) ↦
            rw (exec_load, e)
              (and_then-Sound k (target_read io h k addr) _
                (moved _ _ (target_read-reg io h k addr) ok) (target_read-Narrow io h k addr)
                (λ v t small okt.
                  write_loaded-Sound t (rd_of insn) (load_extend f v) 4 okt
                    (load_extend-lt f k v e small)))
      ]

  -- A store has no value; the registers are those before.
  pub plain_Sound :
      (r : PhysRead × Hart D) (n : ℕ) → RegsOk r.1.cpu.reg → Sound (and_then r (λ _ t. (t, next n)))
  unfolding and_then
  plain_Sound (loaded v, t) n ok = sound t (next n) ok
  plain_Sound (failed, t) n ok = sound t _ ok
  plain_Sound (crashed, t) n ok = sound t _ ok

  pub stored-Sound :
      (h : Hart D) (k addr v n : ℕ)
      → RegsOk h.cpu.reg
      → Sound (and_then (target_write io h k addr v) (λ _ t. (t, next n)))
  stored-Sound h k addr v n ok =
      plain_Sound (target_write io h k addr v) n (moved _ _ (target_write-reg io h k addr v) ok)

  pub exec_store-Sound : (h : Hart D) (insn : ℕ) → RegsOk h.cpu.reg → Sound (exec_store io h insn)
  unfolding exec_store
  exec_store-Sound h insn ok =
      either_Sound (ltb (funct3_of insn) 4) _ _
        (stored-Sound h (funct3_of insn) ((read_reg h.cpu (rs1_of insn) + imm_s insn) % 2 ^ 64)
          (read_reg h.cpu (rs2_of insn)) 4 ok)
        (sound h _ ok)

  to_int-lt : (k v : ℕ) → k ≤ 3 → to_int k v < 2 ^ 64
  unfolding to_int
  to_int-lt k v le = sign_extend-lt (8 * 2 ^ k) v (access_bits k le)

  -- What an atomic instruction does after its store: rd takes a value.
  finished :
      (r : PhysRead × Hart D) (rd val : ℕ) (g : Hart D → Hart D)
      → ((t : Hart D) → (g t).cpu.reg ≡ t.cpu.reg)
      → RegsOk r.1.cpu.reg
      → val < 2 ^ 64
      → Sound (and_then r (λ _ t. write_loaded (g t) rd val 4))
  unfolding and_then
  finished (loaded v, t) rd val g same ok small =
      write_loaded-Sound (g t) rd val 4 (moved _ _ (same t) ok) small
  finished (failed, t) rd val g same ok small = sound t _ ok
  finished (crashed, t) rd val g same ok small = sound t _ ok

  exec_lr-Sound : (h : Hart D) (k insn : ℕ) → k ≤ 3 → RegsOk h.cpu.reg → Sound (exec_lr io h k insn)
  unfolding exec_lr
  exec_lr-Sound h k insn le ok =
      let addr = read_reg h.cpu (rs1_of insn) in
      either_Sound _ _ _ (sound h _ ok) (
        and_then-Sound k (target_read io h k addr) _ (moved _ _ (target_read-reg io h k addr) ok)
          (target_read-Narrow io h k addr)
          (λ v t small okt.
            write_loaded-Sound (record t { load_res = addr; load_res_memseqno = t.memseqno })
              (rd_of insn) (to_int k v) 4 okt (to_int-lt k v le)))

  exec_sc-Sound : (h : Hart D) (k insn : ℕ) → RegsOk h.cpu.reg → Sound (exec_sc io h k insn)
  unfolding exec_sc pend
  exec_sc-Sound h k insn ok =
      let addr = read_reg h.cpu (rs1_of insn) in
      let val = read_reg h.cpu (rs2_of insn) in
      either_Sound (misaligned k addr) _ _ (sound (pend h cause_misaligned_store addr) exception ok)
        (either_Sound (reserved io h addr) _ _
          (finished (target_write io h k addr val) (rd_of insn) 0
            (λ t. record t { load_res = 2 ^ 64 - 1; load_res_memseqno = 0 }) (λ t. refl)
            (moved _ _ (target_write-reg io h k addr val) ok) (omega arith))
          (write_loaded-Sound h (rd_of insn) 1 4 ok (omega arith)))

  amo_store-Sound :
      (h : Hart D) (k f insn v : ℕ) → k ≤ 3 → RegsOk h.cpu.reg → Sound (amo_store io h k f insn v)
  unfolding amo_store
  amo_store-Sound h k f insn v le ok =
      let addr = read_reg h.cpu (rs1_of insn) in
      let val2 = amo_value k f (to_int k v) (read_reg h.cpu (rs2_of insn)) in
      finished (target_write io h k addr val2) (rd_of insn) (to_int k v) (λ t. t) (λ t. refl)
        (moved _ _ (target_write-reg io h k addr val2) ok) (to_int-lt k v le)

  as_store-reg : (h : Hart D) → (as_store io h).cpu.reg ≡ h.cpu.reg
  unfolding as_store
  as_store-reg h = ground arith

  PhysRead-cases : (r : PhysRead) → ((v : ℕ) × (r ≡ loaded v)) ⊎ ((r ≡ failed) ⊎ (r ≡ crashed))
  PhysRead-cases (loaded v) = inl (v, refl)
  PhysRead-cases failed = inr (inl refl)
  PhysRead-cases crashed = inr (inr refl)

  exec_amo-Sound :
      (h : Hart D) (k insn : ℕ) → k ≤ 3 → RegsOk h.cpu.reg → Sound (exec_amo io h k insn)
  unfolding exec_amo
  exec_amo-Sound h k insn le ok =
      let r = target_read io h k (read_reg h.cpu (rs1_of insn)) in
      let okr = moved _ _ (target_read-reg io h k (read_reg h.cpu (rs1_of insn))) ok in
      elim (PhysRead-cases r.0) [
        | inl (v, e) ↦ rw (exec_amo, e) (amo_store-Sound r.1 k (insn / 2 ^ 27) insn v le okr)
        | inr (inl e) ↦ rw (exec_amo, e) (sound _ _ (moved _ _ (as_store-reg r.1) okr))
        | inr (inr e) ↦ rw (exec_amo, e) (sound _ _ okr)
      ]

  pub exec_atomic-Sound : (h : Hart D) (insn : ℕ) → RegsOk h.cpu.reg → Sound (exec_atomic io h insn)
  unfolding exec_atomic
  exec_atomic-Sound h insn ok =
      let k = funct3_of insn in
      elim (Bool-cases (k == 2 || k == 3)) [
        | inr e ↦ rw (exec_atomic, e) (sound h _ ok)
        | inl e ↦
            (let le : k ≤ 3 = ground (arith, e) in
              let lr = exec_lr-Sound h k insn le ok in
              let sc = exec_sc-Sound h k insn ok in
              let amo = exec_amo-Sound h k insn le ok in
              let none_of = sound h illegal_insn ok in rw (exec_atomic, e) (search either_Sound))
      ]
