-- ===== src/Devices/Uart/Latch.antt =====
-- The UART's divisor latch.
use dromajo.Prelude.{
  ℕ, ◌+◌, ◌-◌, ◌*◌, ◌/◌, ◌%◌, ◌^◌, ◌<◌, ◌≡◌, ap, ◌∙◌, true, Option, some, arith, ◌>>=◌,
}
use dromajo.Prelude.Bits.{bit_and-low, bit_and-high}
use dromajo.Devices.Uart.{
  DwApbUartState, latch_access, read_ier, read_rhr, write_thr, write_ier, read_register,
  write_register, dw_apb_uart_read, dw_apb_uart_write,
}

module _ {W : Type 0} (read_data : W → W × Option ℕ) (write_data : ℕ → W → W)
    (set_irq : ℕ → W → W) where
  write_low :
      (s : DwApbUartState) (w : W) (lo : ℕ)
      → latch_access s ≡ true
      → s.div_latch < 2 ^ 16
      → lo < 256
      → dw_apb_uart_write read_data write_data set_irq s w 0 lo
        ≡ some (record s { div_latch = s.div_latch - s.div_latch % 256 + lo }, w)
  unfolding dw_apb_uart_write write_register write_thr
  write_low s w lo access wide small =
      ground (arith, access, bit_and-low 8 lo, bit_and-high 16 8 s.div_latch (omega arith) wide)

  write_high :
      (s : DwApbUartState) (w : W) (hi : ℕ)
      → latch_access s ≡ true
      → hi < 256
      → dw_apb_uart_write read_data write_data set_irq s w 4 hi
        ≡ some (record s { div_latch = s.div_latch % 256 + hi * 256 }, w)
  unfolding dw_apb_uart_write write_register write_ier
  write_high s w hi access small =
      ground (arith, access, bit_and-low 8 hi, bit_and-low 8 s.div_latch)

  read_back :
      (t : DwApbUartState) (w : W)
      → latch_access t ≡ true
      → (dw_apb_uart_read read_data write_data set_irq t w 0 ≡ some ((t, w), t.div_latch % 256))
        × (dw_apb_uart_read read_data write_data set_irq t w 4 ≡ some ((t, w), t.div_latch / 256))
  unfolding dw_apb_uart_read read_register read_rhr read_ier
  read_back t w access = ground (arith, access, bit_and-low 8 t.div_latch)

  -- With the latch access bit set, writing the low and the high byte of the divisor changes nothing
  -- else and makes the two registers read back those bytes.
  pub dw_apb_uart_read-dw_apb_uart_write :
      (s : DwApbUartState) (w : W) (lo hi : ℕ)
      → latch_access s ≡ true
      → s.div_latch < 2 ^ 16
      → lo < 256
      → hi < 256
      → let t = record s { div_latch = hi * 256 + lo } in
        ((do
          u ← dw_apb_uart_write read_data write_data set_irq s w 0 lo
          dw_apb_uart_write read_data write_data set_irq u.0 u.1 4 hi)
          ≡ some (t, w))
        × (dw_apb_uart_read read_data write_data set_irq t w 0 ≡ some ((t, w), lo))
        × (dw_apb_uart_read read_data write_data set_irq t w 4 ≡ some ((t, w), hi))
  dw_apb_uart_read-dw_apb_uart_write s w lo hi access wide p q =
      let first = s.div_latch - s.div_latch % 256 + lo in
      let whole : first % 256 + hi * 256 ≡ hi * 256 + lo = omega arith in
      let low : (hi * 256 + lo) % 256 ≡ lo = omega arith in
      let high : (hi * 256 + lo) / 256 ≡ hi = omega arith in
      let t : DwApbUartState = record s { div_latch = hi * 256 + lo } in
      let back = read_back t w access in
      (
        ap
              (λ (o : Option (DwApbUartState × W)).
                o >>= (λ u. dw_apb_uart_write read_data write_data set_irq u.0 u.1 4 hi))
              (write_low s w lo access wide p)
            ∙ write_high (record s { div_latch = first }) w hi access q
            ∙ ap (λ (v : ℕ). some (record s { div_latch = v }, w)) whole,
        back.0 ∙ ap (λ (v : ℕ). some ((t, w), v)) low,
        back.1 ∙ ap (λ (v : ℕ). some ((t, w), v)) high,
      )
