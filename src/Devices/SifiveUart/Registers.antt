-- ===== src/Devices/SifiveUart/Registers.antt =====
-- What the registers of the SiFive UART read back.
use dromajo.Prelude.{ℕ, Option, ◌==◌, ◌≡◌, ◌||◌, Bool, true, arith, if◌then◌else◌}
use dromajo.Devices.SifiveUart.{
  SifiveUartState, uart_read, uart_write, sifive_uart_txctrl, sifive_uart_rxctrl, sifive_uart_ie,
  sifive_uart_div,
}

-- The registers that hold what is written: the controls, the interrupt enable and the divisor.
abbrev pub is_held : ℕ → Bool
is_held offset =
    offset == sifive_uart_txctrl
    || offset == sifive_uart_rxctrl
    || offset == sifive_uart_ie
    || offset == sifive_uart_div

module _ {W : Type 0} (read_data : W → W × Option ℕ) (write_data : ℕ → W → W) where
  -- A register that holds its value reads back the value written to it; the write leaves the character
  -- device as it was and changes nothing that another offset reads.
  uart_read-uart_write :
      (s : SifiveUartState) (w : W) (o p val : ℕ)
      → is_held o ≡ true
      → let t = uart_write read_data write_data s w o val in
        uart_read read_data write_data t.0 t.1 p
        ≡ (if p == o then (w, val) else uart_read read_data write_data s w p)
  unfolding uart_read uart_write
  uart_read-uart_write s w o p val held = ground (arith, held)
