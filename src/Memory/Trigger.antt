-- ===== src/Memory/Trigger.antt =====
-- The breakpoint triggers: `check_triggers` of src/riscv_cpu.cpp.
use dromajo.Prelude.{
  ℕ, ◌+◌, ◌*◌, ◌/◌, ◌%◌, ◌^◌, ◌&&◌, ◌||◌, Bool, true, false, List, ◌∷◌, ◌==◌, ltb, leb,
  if◌then◌else◌, bit_and, bit_or, bit_xor,
}
use dromajo.Prelude.Bits.{bit_not}
use dromajo.Cpu.State.{Cpu}
use dromajo.Cpu.Mstatus.{any}

abbrev pub mcontrol_load : ℕ
mcontrol_load = 1

abbrev pub mcontrol_store : ℕ
mcontrol_store = 2

abbrev pub mcontrol_execute : ℕ
mcontrol_execute = 4

-- The bits of tdata2 above its lowest zero.
unfoldable pub napot_mask : ℕ → ℕ
napot_mask tdata2 = bit_not 64 (bit_xor ((tdata2 + 1) % 2 ^ 64) tdata2)

-- The match kinds: equal, NAPOT, at least and below.
unfoldable pub trigger_matches : ℕ → ℕ → ℕ → Bool
trigger_matches tdata1 tdata2 addr =
    let t_match = bit_and tdata1 (15 * 2 ^ 7) / 2 ^ 7 in
    (t_match == 0 && addr == tdata2)
    || (t_match == 1 && bit_and (napot_mask tdata2) addr == bit_and (napot_mask tdata2) tdata2)
    || (t_match == 2 && leb tdata2 addr)
    || (t_match == 3 && ltb addr tdata2)

-- A trigger that fires: debug mode at 0x800, or a breakpoint exception.
unfoldable pub fire : Cpu → ℕ → ℕ → ℕ → Cpu
fire s tdata1 tdata2 addr =
    if any tdata2 (0x3f * 2 ^ 12) && any tdata1 (2 ^ 59)
    then record s { debug_mode = true; pc = 0x0800 }
    else record s { pending_exception = 3; pending_tval = addr }

-- The loop over the triggers: the first one that matches fires.
unfoldable pub check_from : List ℕ → List ℕ → Cpu → ℕ → ℕ → Bool × Cpu
check_from (a ∷ as1) (b ∷ bs) s t_mctl addr =
    let rest = check_from as1 bs s t_mctl addr in
    if bit_and a t_mctl == t_mctl && trigger_matches a b addr then (true, fire s a b addr) else rest
check_from _ _ s t_mctl addr = (false, s)

unfoldable pub check_triggers : Cpu → ℕ → ℕ → Bool × Cpu
check_triggers s t_mctl addr =
    if s.debug_mode
    then (false, s)
    else check_from s.tdata1 s.tdata2 s (bit_or t_mctl (8 * 2 ^ s.priv)) addr
