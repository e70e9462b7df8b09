-- ===== src/Interp/Loop/Counts.antt =====
-- How many instructions a call of riscv_cpu_interp64 executes and counts.
use dromajo.Prelude.{
  ℕ, zero, suc, ◌+◌, ◌%◌, ◌^◌, ◌≤◌, Option, none, some, arith, ◌==◌, Option-cases, inl, inr,
}
use dromajo.Cpu.State.{Cpu}
use dromajo.Cpu.Mmu.{PhysRead, loaded, failed, crashed}
use dromajo.Memory.{Hart, DeviceIo, read_ram}
use dromajo.Memory.Fetch.{fetch_block}
use dromajo.Memory.Trigger.{check_triggers, mcontrol_execute}
use dromajo.Prelude.Returns.{Holds, Holds-impl, either_Holds, >>=-Holds, Anything, Holds-Anything}
use dromajo.Interp.{ExtFlags, Flow, next, jump, exception, illegal_insn, done_interp, aborted}
use dromajo.Interp.Exec.{exec}
use dromajo.Interp.Loop.{
  Window, Turn, goes, leaves, with_cpu, taken_interrupt, open_window, in_window, leave_exception,
  after_switch, run_insn, run_fetched, start_block, loop_turn, loop, riscv_cpu_interp64, minus_one,
}

-- A turn that leaves has counted all instructions before it, and has executed at most one more.
abbrev Counted : {D : Type 0} → ℕ → Turn D → Type 0
Counted i (goes h w) = Unit
Counted i (leaves executed delta h) = (i ≤ delta) × (delta ≤ executed) × (executed ≤ suc i)

leave_exception-Counted : {D : Type 0} (i pc : ℕ) (h : Hart D) → Counted i (leave_exception i pc h)
unfolding leave_exception
leave_exception-Counted i pc h = ground arith

after_switch-Counted :
    {D : Type 0} (i pc : ℕ) (w : Option Window) (r : Hart D × Flow)
    → Holds (Counted i) (after_switch i pc w r)
unfolding after_switch
after_switch-Counted i pc w (h, next length) = tt
after_switch-Counted i pc w (h, jump kind) = tt
after_switch-Counted i pc w (h, exception) = leave_exception-Counted i pc h
after_switch-Counted i pc w (h, illegal_insn) = leave_exception-Counted i pc _
after_switch-Counted i pc w (h, done_interp) = (omega arith, omega arith, omega arith)
after_switch-Counted i pc w (h, aborted) = tt

module _ {D : Type 0} (io : DeviceIo D) (e : ExtFlags) (read_hook : Cpu → ℕ → Option ℕ)
    (write_hook : Cpu → ℕ → ℕ → Option Cpu) where
  run_insn-Counted :
      (i pc : ℕ) (w : Option Window) (h : Hart D) (insn : ℕ)
      → Holds (Counted i) (run_insn io e read_hook write_hook i pc w h insn)
  unfolding run_insn
  run_insn-Counted i pc w h insn =
      let m = exec io e read_hook write_hook h i insn in
      >>=-Holds Anything (Counted i) m (after_switch i pc w) (Holds-Anything m)
        (λ r _. after_switch-Counted i pc w r)

  run_fetched-Counted :
      (i pc : ℕ) (w : Option Window) (r : PhysRead × Hart D)
      → Holds (Counted i) (run_fetched io e read_hook write_hook i pc w r)
  unfolding run_fetched
  run_fetched-Counted i pc w (loaded insn, h) = run_insn-Counted i pc w h insn
  run_fetched-Counted i pc w (failed, h) = leave_exception-Counted i pc h
  run_fetched-Counted i pc w (crashed, h) = tt

  start_block-Counted :
      (i pc : ℕ) (h : Hart D) → Holds (Counted i) (start_block io e read_hook write_hook i pc h)
  unfolding start_block
  start_block-Counted i pc h = elim (Option-cases (taken_interrupt h)) [
    | inl e0 ↦ rw (start_block, e0) (run_fetched-Counted i pc (open_window h pc) (fetch_block h pc))
    | inr (c, e1) ↦ rw (start_block, e1) (omega arith, omega arith, omega arith)
  ]

  loop_turn-Counted :
      (i : ℕ) (h : Hart D) (w : Option Window)
      → Holds (Counted i) (loop_turn io e read_hook write_hook i h w)
  unfolding loop_turn
  loop_turn-Counted i h0 w =
      let pc = h0.cpu.pc in
      let triggered = check_triggers h0.cpu mcontrol_execute pc in
      let h = with_cpu h0 triggered.1 in
      either_Holds (Counted i) triggered.0 (some (leave_exception i pc h)) _
        (leave_exception-Counted i pc h)
        (elim (Option-cases (in_window w pc)) [
          | inl out ↦ rw out (start_block-Counted i pc h)
          | inr (m, inside) ↦
              let insn = read_ram h.mem_map 2 m.range ((m.addend + pc) % 2 ^ 64) in
              rw inside (run_insn-Counted i pc w h insn)
        ])

  -- The instructions that are executed, after `i` and at most `n` more.
  abbrev Within : ℕ → ℕ → ℕ × ℕ × Hart D → Type 0
  Within i n r = (i ≤ r.1) × (r.1 ≤ r.0) × (r.0 ≤ i + n)

  loop-Within :
      (n i : ℕ) (h : Hart D) (w : Option Window)
      → Holds (Within i n) (loop io e read_hook write_hook n i h w)
  unfolding loop
  loop-Within zero i h w = (omega arith, omega arith, omega arith)
  loop-Within (suc n) i h w =
      >>=-Holds (Counted i) (Within i (suc n)) (loop_turn io e read_hook write_hook i h w) _
        (loop_turn-Counted i h w)
        (λ t c.
          elim t
              as (λ (u : Turn D).
                Counted i u
                → Holds (Within i (suc n)) (elim u [
                  | goes h1 w1 ↦ loop io e read_hook write_hook n (suc i) h1 w1
                  | leaves executed delta h1 ↦ some (executed, delta, h1)
                ])) [
                  | goes h1 w1 ↦ λ _.
                      Holds-impl (Within (suc i) n) (Within i (suc n))
                        (loop io e read_hook write_hook n (suc i) h1 w1)
                        (λ r k. (omega (arith, k.0), k.1, omega (arith, k.2)))
                        (loop-Within n (suc i) h1 w1)
                  | leaves executed delta h1 ↦ λ k. (k.0, k.1, omega (arith, k.2))
                ]
            c)

  -- A call with `n_cycles` that returns has executed at most that many instructions.
  pub riscv_cpu_interp64-le :
      (h : Hart D) (n_cycles : ℕ)
      → Holds
          (λ (r : ℕ × Hart D). r.0 ≤ n_cycles)
          (riscv_cpu_interp64 io e read_hook write_hook h n_cycles)
  unfolding riscv_cpu_interp64
  riscv_cpu_interp64-le h0 n_cycles =
      let h = with_cpu h0 (record h0.cpu { most_recently_written_reg = minus_one }) in
      let ready = with_cpu h (record h.cpu { pending_exception = minus_one }) in
      let P = λ (r : ℕ × Hart D). r.0 ≤ n_cycles in
      either_Holds P (n_cycles == 0) (some (0, h)) _ (omega arith)
        (elim (Option-cases (taken_interrupt h)) [
          | inr (c, e1) ↦ rw e1 (omega arith)
          | inl e0 ↦ rw e0 (
              >>=-Holds (Within 0 n_cycles) P (loop io e read_hook write_hook n_cycles 0 ready none)
                _ (loop-Within n_cycles 0 ready none) (λ r k. omega (arith, k.2)))
        ])
