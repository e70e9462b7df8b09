-- ===== src/Examples/Traps.antt =====
-- Traps, returns and interrupts on concrete harts.
use dromajo.Prelude.{ℕ, ◌+◌, ◌^◌, ◌<◌, ◌≡◌, ◌≢◌, ◌⊎◌, refl, arith, true, false, none, some, bit_or}
use dromajo.Prelude.Bits.{test_bit}
use dromajo.Cpu.Constants.{prv_m, cause_interrupt}
use dromajo.Cpu.State.{Cpu}
use dromajo.Cpu.Mstatus.{set_mstatus}
use dromajo.Cpu.Pmp.{data_priv}
use dromajo.Cpu.Trap.{raise_exception, raise_exception2, handle_mret, handle_sret, is_delegated}
use dromajo.Cpu.Trap.Privilege.{TakenBy, table, entry, IsFlushed, raise_exception2-TakenBy}
use dromajo.Cpu.Trap.Return.{
  RestoredM, RestoredS, handle_mret-raise_exception2, handle_sret-raise_exception2,
}
use dromajo.Cpu.Trap.Tlb.{SameContext, SameTlb, set_mstatus-SameContext, raise_exception2_stale}
use dromajo.Cpu.Interrupt.{get_pending_irq_mask, raise_interrupt}
use dromajo.Cpu.Interrupt.Pending.{ready}
use dromajo.Cpu.Interrupt.Priority.{IsChosen, raise_interrupt_lem}
use dromajo.Examples.{hart, user_hart}

abbrev vectored_hart : Cpu
vectored_hart = record user_hart { stvec = 0x201; mideleg = 0x322 }

raise_exception2-TakenBy_example :
    TakenBy vectored_hart 0xb109 8 8 0
      (table 0x201)
      (table 0x100)
      (raise_exception2 vectored_hart 8 0)
    × TakenBy vectored_hart 0x322 8
        (2 ^ 63 + 8)
        0
        (entry 0x201 8)
        (entry 0x100 8)
        (raise_exception2 vectored_hart (2 ^ 63 + 8) 0)
raise_exception2-TakenBy_example =
    raise_exception2-TakenBy vectored_hart 8 0 (omega arith) (omega arith) (omega arith)

to_machine : is_delegated user_hart 2 ≡ false
unfolding is_delegated test_bit
to_machine = refl

handle_mret-raise_exception2_example :
    RestoredM user_hart (handle_mret (raise_exception2 user_hart 2 0))
handle_mret-raise_exception2_example =
    handle_mret-raise_exception2 user_hart 2 0 (omega arith) to_machine

to_supervisor : is_delegated user_hart 8 ≡ true
unfolding is_delegated test_bit
to_supervisor = refl

handle_sret-raise_exception2_example :
    RestoredS user_hart (handle_sret (raise_exception2 user_hart 8 0))
handle_sret-raise_exception2_example = handle_sret-raise_exception2 user_hart 8 0 to_supervisor

set_mstatus-SameContext_example :
    IsFlushed (set_mstatus user_hart 0x2_0000)
    ⊎ SameContext user_hart (set_mstatus user_hart 0x2_0000)
set_mstatus-SameContext_example = set_mstatus-SameContext user_hart 0x2_0000

-- Machine mode, about to access memory as user mode.
abbrev mprv_hart : Cpu
mprv_hart = record hart { mstatus = 0xa_0002_0000 }

mprv_user : data_priv mprv_hart ≡ 0
unfolding data_priv
mprv_user = refl

mprv_user_low : data_priv mprv_hart ≢ prv_m
mprv_user_low h = ground (arith, mprv_user)

raise_exception2_stale_example :
    let t = raise_exception2 mprv_hart 5 0 in (data_priv t ≡ prv_m) × SameTlb mprv_hart t
raise_exception2_stale_example = raise_exception2_stale mprv_hart 5 0 refl refl mprv_user_low

-- The timer interrupt is pending and enabled, for machine mode.
abbrev timer_hart : Cpu
timer_hart = record user_hart { mip = 0x80; mie = 0x80 }

raise_interrupt_lem_example :
    ((raise_interrupt timer_hart ≡ none) × ((i : ℕ) → i < 32 → ready timer_hart i ≡ false))
    ⊎ ((i : ℕ) × (ready timer_hart i ≡ true)
        × IsChosen (get_pending_irq_mask timer_hart) i
        × (raise_interrupt timer_hart
            ≡ some (raise_exception timer_hart (bit_or i cause_interrupt))))
raise_interrupt_lem_example =
    raise_interrupt_lem timer_hart (omega arith) (omega arith) (omega arith)
