-- ===== src/Devices/Uart/Line.antt =====
-- The UART's interrupt status register and its line against the registers that ask for an
-- interrupt.
use dromajo.Prelude.{
  ℕ, ◌+◌, ◌-◌, ◌*◌, ◌/◌, ◌%◌, ◌<◌, ◌≡◌, inl, inr, ◌∙◌, true, not, Option, some, ◌==◌, of_bool,
  bit_and, bit_or, arith, Bool-cases, Option-cases,
}
use dromajo.Prelude.Bits.{bit_not, bit_and-low, bit_and-high}
use dromajo.Cpu.Mstatus.{any}
use dromajo.Devices.Uart.{
  DwApbUartState, isr_nibble, update_isr, dw_apb_uart_poll, read_rhr, write_thr, write_ier,
  read_lsr, read_msr, dw_apb_uart_read, dw_apb_uart_write, write_register, read_register,
  latch_access,
}

-- The line is at the level that was driven last, that level says whether an interrupt stands, and
-- the status register names the one of the highest priority.
pub record InSync {W : Type 0} (line : W → ℕ) (s : DwApbUartState) (w : W) : Type 0 where
  pub isr_byte : s.isr < 256
  pub identifies : s.isr % 16 ≡ isr_nibble s
  pub level : s.last_irq_level ≡ of_bool (not (isr_nibble s == 1))
  pub driven : line w ≡ s.last_irq_level

nibble_small : (s : DwApbUartState) → isr_nibble s < 8
unfolding isr_nibble
nibble_small s = ground arith

nibble_odd : (s : DwApbUartState) → (isr_nibble s % 2 == 0) ≡ not (isr_nibble s == 1)
unfolding isr_nibble
nibble_odd s = ground arith

-- The status register that `update_isr` writes.
abbrev new_isr : DwApbUartState → ℕ
new_isr s = bit_and s.isr 0xf0 + isr_nibble s

new_isr_value : (s : DwApbUartState) → s.isr < 256 → new_isr s ≡ s.isr - s.isr % 16 + isr_nibble s
new_isr_value s byte = omega (arith, bit_and-high 8 4 s.isr (omega arith) byte)

new_isr-lt : (s : DwApbUartState) → s.isr < 256 → new_isr s < 256
new_isr-lt s byte = omega (arith, new_isr_value s byte, nibble_small s)

new_isr-mod : (s : DwApbUartState) → s.isr < 256 → new_isr s % 16 ≡ isr_nibble s
new_isr-mod s byte = omega (arith, new_isr_value s byte, nibble_small s)

new_level :
    (s : DwApbUartState)
    → s.isr < 256
    → of_bool (not (any (new_isr s) 1)) ≡ of_bool (not (isr_nibble s == 1))
new_level s byte =
    let even : new_isr s % 2 ≡ isr_nibble s % 2 =
      omega (arith, new_isr_value s byte, nibble_small s) in
    ground (arith, bit_and-low 1 (new_isr s), even, nibble_odd s)

module _ {W : Type 0} (read_data : W → W × Option ℕ) (write_data : ℕ → W → W) (set_irq : ℕ → W → W)
    (line : W → ℕ) (line_set : (level : ℕ) (w : W) → line (set_irq level w) ≡ level)
    (line_read : (w : W) → line (read_data w).0 ≡ line w)
    (line_write : (c : ℕ) (w : W) → line (write_data c w) ≡ line w) where
  update_isr-InSync :
      (s : DwApbUartState) (w : W)
      → s.isr < 256
      → line w ≡ s.last_irq_level
      → let t = update_isr read_data write_data set_irq s w in InSync line t.0 t.1
  unfolding update_isr isr_nibble
  update_isr-InSync s w byte driven = record {
    isr_byte = ground (arith, new_isr-lt s byte);
    identifies = ground (arith, new_isr-mod s byte);
    level = ground (arith, new_level s byte);
    driven = ground (arith, line_set (of_bool (not (any (new_isr s) 1))) w);
  }

  poll-InSync :
      (s : DwApbUartState) (w : W)
      → s.isr < 256
      → line w ≡ s.last_irq_level
      → (any s.lsr 1 ≡ true → InSync line s w)
      → let t = dw_apb_uart_poll read_data write_data set_irq s w in InSync line t.0 t.1
  unfolding dw_apb_uart_poll
  poll-InSync s w byte driven kept = elim (Bool-cases (any s.lsr 1)) [
    | inl full ↦ ground (arith, kept full)
    | inr empty ↦ elim (Option-cases (read_data w).1) [
      | inl e ↦ rw (empty, e) (update_isr-InSync s (read_data w).0 byte (line_read w ∙ driven))
      | inr r ↦
          rw (empty, r.1)
            (update_isr-InSync (record s { rhr = r.0; lsr = bit_or s.lsr 1 }) (read_data w).0 byte
              (line_read w ∙ driven))
    ]
  ]

  read_rhr-InSync :
      (s : DwApbUartState) (w : W)
      → InSync line s w
      → let t = read_rhr read_data write_data set_irq s w in InSync line t.0.0 t.0.1
  unfolding read_rhr
  read_rhr-InSync s w h = elim (Bool-cases (latch_access s)) [
    | inl e ↦ rw e h
    | inr e ↦ rw e (
        update_isr-InSync (record s { lsr = bit_and (bit_and s.lsr (bit_not 8 1)) (bit_not 8 30) })
          w h.isr_byte h.driven)
  ]

  latched-InSync :
      (s : DwApbUartState) (w : W) (latch : ℕ)
      → InSync line s w
      → InSync line (record s { div_latch = latch }) w
  unfolding isr_nibble
  latched-InSync s w latch h = record {
    isr_byte = h.isr_byte;
    identifies = h.identifies;
    level = h.level;
    driven = h.driven;
  }

  control-InSync :
      (s : DwApbUartState) (w : W) (lcr mcr spr : ℕ)
      → InSync line s w
      → InSync line (record s { lcr = lcr; mcr = mcr; spr = spr }) w
  unfolding isr_nibble
  control-InSync s w lcr mcr spr h = record {
    isr_byte = h.isr_byte;
    identifies = h.identifies;
    level = h.level;
    driven = h.driven;
  }

  write_thr-InSync :
      (s : DwApbUartState) (val : ℕ) (w : W)
      → InSync line s w
      → let t = write_thr read_data write_data set_irq s val w in InSync line t.0 t.1
  unfolding write_thr
  write_thr-InSync s val w h = elim (Bool-cases (latch_access s)) [
    | inl e ↦ rw e (latched-InSync s w (bit_and s.div_latch (bit_not 16 255) + val) h)
    | inr e ↦ rw e (
        poll-InSync s (write_data val w) h.isr_byte (line_write val w ∙ h.driven) (λ full. record {
          isr_byte = h.isr_byte;
          identifies = h.identifies;
          level = h.level;
          driven = line_write val w ∙ h.driven;
        }))
  ]

  write_ier-InSync :
      (s : DwApbUartState) (val : ℕ) (w : W)
      → InSync line s w
      → let t = write_ier read_data write_data set_irq s val w in InSync line t.0 t.1
  unfolding write_ier
  write_ier-InSync s val w h = elim (Bool-cases (latch_access s)) [
    | inl e ↦ rw e (latched-InSync s w (bit_and s.div_latch 255 + val * 256) h)
    | inr e ↦ rw e (update_isr-InSync (record s { ier = bit_and val 0xff }) w h.isr_byte h.driven)
  ]

  -- Between the poll and the last update of a read of the line status only the register and the line
  -- are known to agree.
  polled :
      (s : DwApbUartState) (w : W)
      → s.isr < 256
      → line w ≡ s.last_irq_level
      → let t = dw_apb_uart_poll read_data write_data set_irq s w in
        (t.0.isr < 256) × (line t.1 ≡ t.0.last_irq_level)
  unfolding dw_apb_uart_poll
  polled s w byte driven = elim (Bool-cases (any s.lsr 1)) [
    | inl full ↦ rw full (byte, driven)
    | inr empty ↦
        (let h = poll-InSync s w byte driven (λ full. absurd (ground arith)) in
          (h.isr_byte, h.driven))
  ]

  read_lsr-InSync :
      (s : DwApbUartState) (w : W)
      → InSync line s w
      → let t = read_lsr read_data write_data set_irq s w in InSync line t.0.0 t.0.1
  unfolding read_lsr
  read_lsr-InSync s w h =
      let cleared = record s { lsr = bit_and (bit_or s.lsr 0x60) (bit_not 8 0x9e) } in
      let p = polled cleared w h.isr_byte h.driven in
      let q = dw_apb_uart_poll read_data write_data set_irq cleared w in
      update_isr-InSync q.0 q.1 p.0 p.1

  read_register-InSync :
      (s : DwApbUartState) (w : W) (reg : ℕ)
      → InSync line s w
      → let t = read_register read_data write_data set_irq s w reg in InSync line t.0.0 t.0.1
  unfolding read_register read_msr
  read_register-InSync s w reg h = ground (
    arith,
    read_rhr-InSync s w h,
    read_lsr-InSync s w h,
    update_isr-InSync (record s { msr = bit_and s.msr (bit_not 8 15) }) w h.isr_byte h.driven,
  )

  write_register-InSync :
      (s : DwApbUartState) (w : W) (reg val : ℕ)
      → InSync line s w
      → let t = write_register read_data write_data set_irq s w reg val in InSync line t.0 t.1
  unfolding write_register
  write_register-InSync s w reg val h = ground (
    arith,
    write_thr-InSync s val w h,
    write_ier-InSync s val w h,
    control-InSync s w val s.mcr s.spr h,
    control-InSync s w s.lcr val s.spr h,
    control-InSync s w s.lcr s.mcr val h,
  )

  -- A read of any register at a multiple of four below 256 returns, and leaves the line at the level
  -- that the registers ask for, if it was, given that driving the line sets it and that the
  -- character device leaves it alone.
  pub dw_apb_uart_read-InSync :
      (s : DwApbUartState) (w : W) (offset : ℕ)
      → offset % 4 ≡ 0
      → offset < 256
      → InSync line s w
      → (t : DwApbUartState) × (u : W) × (val : ℕ) × ((dw_apb_uart_read read_data write_data set_irq
              s w offset
            ≡ some ((t, u), val))
          × InSync line t u)
  unfolding dw_apb_uart_read
  dw_apb_uart_read-InSync s w offset aligned lt h =
      let t = read_register read_data write_data set_irq s w (offset / 4) in
      (t.0.0, t.0.1, t.1, (ground arith, read_register-InSync s w (offset / 4) h))

  -- A write of any value at a multiple of four below 256 returns, and leaves the line at the level
  -- that the registers ask for, if it was, given that driving the line sets it and that the
  -- character device leaves it alone.
  pub dw_apb_uart_write-InSync :
      (s : DwApbUartState) (w : W) (offset val : ℕ)
      → offset % 4 ≡ 0
      → offset < 256
      → InSync line s w
      → (t : DwApbUartState) × (u : W) × ((dw_apb_uart_write read_data write_data set_irq s w offset
              val
            ≡ some (t, u))
          × InSync line t u)
  unfolding dw_apb_uart_write
  dw_apb_uart_write-InSync s w offset val aligned lt h =
      let t = write_register read_data write_data set_irq s w (offset / 4) (bit_and val 255) in
      (t.0, t.1, (ground arith, write_register-InSync s w (offset / 4) (bit_and val 255) h))

  -- A read or a write of any register at a multiple of four below 256 returns, and leaves the line at
  -- the level that the registers ask for, if it was, given that driving the line sets it and that the
  -- character device leaves it alone.
  pub dw_apb_uart-InSync :
      (s : DwApbUartState) (w : W) (offset val : ℕ)
      → offset % 4 ≡ 0
      → offset < 256
      → InSync line s w
      → ((t : DwApbUartState) × (u : W) × (value : ℕ) × ((dw_apb_uart_read read_data write_data
                set_irq s w offset
              ≡ some ((t, u), value))
            × InSync line t u))
        × ((t : DwApbUartState) × (u : W) × ((dw_apb_uart_write read_data write_data set_irq s w
                  offset val
                ≡ some (t, u))
              × InSync line t u))
  dw_apb_uart-InSync s w offset val aligned lt h = (
    dw_apb_uart_read-InSync s w offset aligned lt h,
    dw_apb_uart_write-InSync s w offset val aligned lt h,
  )
