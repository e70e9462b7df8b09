-- ===== src/Examples/Serial.antt =====
-- The UART with a world that is the level of its line: every read finds the character 65.
use dromajo.Prelude.{ℕ, ◌≡◌, refl, arith, Option, some}
use dromajo.Devices.Uart.{DwApbUartState, isr_nibble, dw_apb_uart_read, dw_apb_uart_write}
use dromajo.Devices.Uart.Line.{InSync, dw_apb_uart-InSync}

abbrev read_data : ℕ → ℕ × Option ℕ
read_data w = (w, some 65)

abbrev write_data : ℕ → ℕ → ℕ
write_data c w = w

abbrev set_irq : ℕ → ℕ → ℕ
set_irq level w = level

abbrev line : ℕ → ℕ
line w = w

-- The receive and transmit interrupts are enabled and nothing asks for one.
abbrev uart : DwApbUartState
uart = record {
  last_irq_level = 0;
  div_latch = 0;
  rhr = 0;
  ier = 3;
  isr = 1;
  lcr = 0;
  mcr = 0;
  lsr = 0;
  msr = 0;
  spr = 0;
}

uart-InSync : InSync line uart 0
unfolding isr_nibble
uart-InSync = record { isr_byte = omega arith; identifies = refl; level = refl; driven = refl }

dw_apb_uart-InSync_example :
    ((t : DwApbUartState) × (u : ℕ) × (val : ℕ) × ((dw_apb_uart_read read_data write_data set_irq
            uart 0 0
          ≡ some ((t, u), val))
        × InSync line t u))
    × ((t : DwApbUartState) × (u : ℕ) × ((dw_apb_uart_write read_data write_data set_irq uart 0 0 66
            ≡ some (t, u))
          × InSync line t u))
dw_apb_uart-InSync_example =
    dw_apb_uart-InSync read_data write_data set_irq line (λ l w. refl) (λ w. refl) (λ c w. refl)
      uart 0 0 66 refl (omega arith) uart-InSync
