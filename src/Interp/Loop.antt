-- ===== src/Interp/Loop.antt =====
-- The loop of `riscv_cpu_interp64` in include/dromajo_template.h: interrupts, triggers, the fetch from
-- a page of straight code, the switch, and the counts of instructions. `none` is a crash or an
-- instruction of the floating-point or vector opcodes.
pub mod Counts
use dromajo.Prelude.{
  ℕ, zero, suc, ◌+◌, ◌-◌, ◌*◌, ◌/◌, ◌%◌, ◌^◌, ◌&&◌, ◌||◌, Bool, true, false, not, Option, none,
  some, ◌==◌, ltb, leb, if◌then◌else◌, ◌>>=◌,
}
use dromajo.Cpu.State.{Cpu}
use dromajo.Cpu.Mstatus.{any}
use dromajo.Cpu.Mmu.{PhysRead, loaded, failed, crashed}
use dromajo.Cpu.Interrupt.{raise_interrupt}
use dromajo.Memory.{Hart, DeviceIo, MemAddend, tlb_idx, page_of, read_ram}
use dromajo.Memory.Trigger.{check_triggers, mcontrol_execute}
use dromajo.Memory.Fetch.{fetch_block}
use dromajo.Interp.{
  ExtFlags, Flow, next, jump, exception, illegal_insn, done_interp, aborted, set_pending,
}
use dromajo.Interp.System.{count_insns}
use dromajo.Interp.Exec.{exec, take_exception, cause_illegal_instruction}

-- -1 as a 32-bit word.
abbrev pub minus_one : ℕ
minus_one = 2 ^ 32 - 1

-- The straight code from `code_ptr` to `code_end`: a page and where it stands in RAM.
pub record Window : Type 0 where
  pub page : ℕ
  pub place : MemAddend

-- `code_ptr < code_end`: all but the last two bytes of the page.
unfoldable pub in_window : Option Window → ℕ → Option MemAddend
in_window none pc = none
in_window (some w) pc = if leb w.page pc && ltb pc (w.page + 4094) then some w.place else none

-- How a turn of the loop ends: it goes on with the next instruction, or leaves with the number of
-- instructions that were executed, the number that the counters take in, and the hart.
pub data Turn (D : Type 0) : Type 0 where
  goes : Hart D → Option Window → Turn D
  leaves : ℕ → ℕ → Hart D → Turn D

-- An exception that cancels its instruction, other than the four environment calls.
unfoldable pub uncounted : ℕ → Bool
uncounted cause = not (cause == minus_one) && (ltb cause 8 || ltb 11 cause)

module _ {D : Type 0} where
  abbrev pub with_cpu : Hart D → Cpu → Hart D
  with_cpu h c = record h { cpu = c }

  -- An interrupt that is taken; under cosimulation only when the model was told of one.
  unfoldable pub taken_interrupt : Hart D → Option Cpu
  taken_interrupt h =
      if any h.cpu.mip h.cpu.mie && (h.has_pending_interrupt || not h.cosim)
      then raise_interrupt h.cpu
      else none

  -- The window that a hit in the TLB opens.
  unfoldable pub open_window : Hart D → ℕ → Option Window
  open_window h addr =
      if h.cpu.tlb_code (tlb_idx addr) == page_of addr
      then some (record { page = page_of addr; place = h.tlb_code_addend (tlb_idx addr) })
      else none

  -- The label `exception`, at instruction number `i` of the call.
  unfoldable pub leave_exception : ℕ → ℕ → Hart D → Turn D
  leave_exception i pc h =
      let k = if uncounted h.cpu.pending_exception then i else suc i in
      leaves k k (with_cpu h (take_exception h.cpu pc))

  -- What follows the switch.
  unfoldable pub after_switch : ℕ → ℕ → Option Window → Hart D × Flow → Option (Turn D)
  after_switch i pc w (h, next length) =
      some (goes (with_cpu h (record h.cpu { pc = (pc + length) % 2 ^ 64 })) w)
  after_switch i pc w (h, jump kind) = some (goes h none)
  after_switch i pc w (h, exception) = some (leave_exception i pc h)
  after_switch i pc w (h, illegal_insn) =
      some (leave_exception i pc (with_cpu h (set_pending h.cpu cause_illegal_instruction)))
  after_switch i pc w (h, done_interp) = some (leaves (suc i) (suc i) h)
  after_switch i pc w (h, aborted) = none

module _ {D : Type 0} (io : DeviceIo D) (e : ExtFlags) (read_hook : Cpu → ℕ → Option ℕ)
    (write_hook : Cpu → ℕ → ℕ → Option Cpu) where
  unfoldable pub run_insn : ℕ → ℕ → Option Window → Hart D → ℕ → Option (Turn D)
  run_insn i pc w h insn = exec io e read_hook write_hook h i insn >>= after_switch i pc w

  -- The first instruction of a block.
  unfoldable pub run_fetched : ℕ → ℕ → Option Window → PhysRead × Hart D → Option (Turn D)
  run_fetched i pc w (loaded insn, h) = run_insn i pc w h insn
  run_fetched i pc w (failed, h) = some (leave_exception i pc h)
  run_fetched i pc w (crashed, h) = none

  unfoldable pub start_block : ℕ → ℕ → Hart D → Option (Turn D)
  start_block i pc h = elim (taken_interrupt h) [
    | some c ↦ some (leaves (suc i) i (with_cpu h c))
    | none ↦ run_fetched i pc (open_window h pc) (fetch_block h pc)
  ]

  -- One turn: `i` instructions of the call came before.
  unfoldable pub loop_turn : ℕ → Hart D → Option Window → Option (Turn D)
  loop_turn i h0 w =
      let pc = h0.cpu.pc in
      let triggered = check_triggers h0.cpu mcontrol_execute pc in
      let h = with_cpu h0 triggered.1 in
      if triggered.0 then some (leave_exception i pc h) else elim (in_window w pc) [
        | some m ↦ run_insn i pc w h (read_ram h.mem_map 2 m.range ((m.addend + pc) % 2 ^ 64))
        | none ↦ start_block i pc h
      ]

  unfoldable pub loop : ℕ → ℕ → Hart D → Option Window → Option (ℕ × ℕ × Hart D)
  loop zero i h w = some (i, i, h)
  loop (suc n) i h w = loop_turn i h w >>= (λ t. elim t [
    | goes h1 w1 ↦ loop n (suc i) h1 w1
    | leaves executed delta h1 ↦ some (executed, delta, h1)
  ])

  -- The number of instructions that were executed, and the hart.
  unfoldable pub riscv_cpu_interp64 : Hart D → ℕ → Option (ℕ × Hart D)
  riscv_cpu_interp64 h0 n_cycles =
      let h = with_cpu h0 (record h0.cpu { most_recently_written_reg = minus_one }) in
      if n_cycles == 0 then some (0, h) else elim (taken_interrupt h) [
        | some c ↦ some (0, with_cpu h c)
        | none ↦
            loop n_cycles 0 (with_cpu h (record h.cpu { pending_exception = minus_one })) none
            >>= (λ r. some (r.0, with_cpu r.2 (count_insns r.2.cpu r.1)))
      ]
