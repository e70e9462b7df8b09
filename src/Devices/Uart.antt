-- ===== src/Devices/Uart.antt =====
-- The DesignWare UART of src/dw_apb_uart.cpp. The character device and the interrupt line belong to
-- the world `W` outside: reading a character, writing one and driving the line are parameters.
-- `none` is a failed assertion.
pub mod Latch
pub mod Line
use dromajo.Prelude.{
  ℕ, ◌+◌, ◌-◌, ◌*◌, ◌/◌, ◌%◌, ◌^◌, ◌&&◌, Bool, not, Option, none, some, ◌==◌, ltb, if◌then◌else◌,
  of_bool, bit_and, bit_or,
}
use dromajo.Prelude.Bits.{test_bit, bit_not}
use dromajo.Cpu.Mstatus.{any}

pub record DwApbUartState : Type 0 where
  pub last_irq_level : ℕ
  pub div_latch : ℕ
  pub rhr : ℕ
  pub ier : ℕ
  pub isr : ℕ
  pub lcr : ℕ
  pub mcr : ℕ
  pub lsr : ℕ
  pub msr : ℕ
  pub spr : ℕ

-- The interrupt of the highest priority: line status, received data, transmitter empty, modem
-- status, or none.
unfoldable pub isr_nibble : DwApbUartState → ℕ
isr_nibble s =
    if any s.ier 4 && any s.lsr 30
    then 6
    else if any s.ier 1 && any s.lsr 1
    then 4
    else if any s.ier 2 && any s.lsr 32
    then 2
    else if any s.ier 8 && not (bit_and s.msr 15 == 15)
    then 0
    else 1

-- Bit 7 of the line control register: the divisor latch stands at the first two registers.
abbrev pub latch_access : DwApbUartState → Bool
latch_access s = test_bit s.lcr 7

unfoldable pub read_ier : DwApbUartState → ℕ
read_ier s = if latch_access s then s.div_latch / 2 ^ 8 else s.ier

module _ {W : Type 0} (read_data : W → W × Option ℕ) (write_data : ℕ → W → W)
    (set_irq : ℕ → W → W) where
  unfoldable pub update_isr : DwApbUartState → W → DwApbUartState × W
  update_isr s w =
      let isr = bit_and s.isr 0xf0 + isr_nibble s in
      let irq_level = of_bool (not (any isr 1)) in
      if s.last_irq_level == irq_level
      then (record s { isr = isr }, w)
      else (record s { isr = isr; last_irq_level = irq_level }, set_irq irq_level w)

  -- A character is fetched when the holding register is empty.
  unfoldable pub dw_apb_uart_poll : DwApbUartState → W → DwApbUartState × W
  dw_apb_uart_poll s w = if any s.lsr 1 then (s, w) else elim (read_data w).1 [
    | none ↦ update_isr s (read_data w).0
    | some c ↦ update_isr (record s { rhr = c; lsr = bit_or s.lsr 1 }) (read_data w).0
  ]

  unfoldable pub read_rhr : DwApbUartState → W → (DwApbUartState × W) × ℕ
  read_rhr s w = if latch_access s then ((s, w), bit_and s.div_latch 255) else (
    update_isr (record s { lsr = bit_and (bit_and s.lsr (bit_not 8 1)) (bit_not 8 30) }) w,
    s.rhr,
  )

  unfoldable pub write_thr : DwApbUartState → ℕ → W → DwApbUartState × W
  write_thr s val w =
      if latch_access s
      then (record s { div_latch = bit_and s.div_latch (bit_not 16 255) + val }, w)
      else dw_apb_uart_poll s (write_data val w)

  unfoldable pub write_ier : DwApbUartState → ℕ → W → DwApbUartState × W
  write_ier s val w =
      if latch_access s
      then (record s { div_latch = bit_and s.div_latch 255 + val * 256 }, w)
      else update_isr (record s { ier = bit_and val 0xff }) w

  unfoldable pub read_lsr : DwApbUartState → W → (DwApbUartState × W) × ℕ
  read_lsr s w =
      let polled =
        dw_apb_uart_poll (record s { lsr = bit_and (bit_or s.lsr 0x60) (bit_not 8 0x9e) }) w in
      let t = update_isr polled.0 polled.1 in (t, t.0.lsr)

  unfoldable pub read_msr : DwApbUartState → W → (DwApbUartState × W) × ℕ
  read_msr s w = (update_isr (record s { msr = bit_and s.msr (bit_not 8 15) }) w, s.msr)

  -- The read of register `reg`.
  unfoldable pub read_register : DwApbUartState → W → ℕ → (DwApbUartState × W) × ℕ
  read_register s w reg =
      if reg == 0
      then read_rhr s w
      else if reg == 1
      then ((s, w), read_ier s)
      else if reg == 2
      then ((s, w), s.isr)
      else if reg == 3
      then ((s, w), s.lcr)
      else if reg == 4
      then ((s, w), s.mcr)
      else if reg == 5
      then read_lsr s w
      else if reg == 6
      then read_msr s w
      else if reg == 7
      then ((s, w), s.spr)
      else ((s, w), 0)

  unfoldable pub dw_apb_uart_read : DwApbUartState → W → ℕ → Option ((DwApbUartState × W) × ℕ)
  dw_apb_uart_read s w offset =
      if offset % 4 == 0 && ltb offset 256 then some (read_register s w (offset / 4)) else none

  -- The write of a byte to register `offset / 4`.
  unfoldable pub write_register : DwApbUartState → W → ℕ → ℕ → DwApbUartState × W
  write_register s w reg val =
      if reg == 0
      then write_thr s val w
      else if reg == 1
      then write_ier s val w
      else if reg == 3
      then (record s { lcr = val }, w)
      else if reg == 4
      then (record s { mcr = val }, w)
      else if reg == 7
      then (record s { spr = val }, w)
      else (s, w)

  unfoldable pub dw_apb_uart_write : DwApbUartState → W → ℕ → ℕ → Option (DwApbUartState × W)
  dw_apb_uart_write s w offset val =
      if offset % 4 == 0 && ltb offset 256
      then some (write_register s w (offset / 4) (bit_and val 255))
      else none
