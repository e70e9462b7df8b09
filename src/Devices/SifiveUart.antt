-- ===== src/Devices/SifiveUart.antt =====
-- The SiFive UART of src/riscv_machine.cpp. The character device belongs to the world `W` outside:
-- reading a character, if there is one, and writing one are parameters. The receive FIFO of the
-- source is never filled; only its length is read. uart_update_irq only prints.
pub mod Registers
use dromajo.Prelude.{ℕ, ◌%◌, ◌^◌, Option, none, some, ◌==◌, if◌then◌else◌}

pub record SifiveUartState : Type 0 where
  pub rx_fifo_len : ℕ
  pub ie : ℕ
  pub txctrl : ℕ
  pub rxctrl : ℕ
  pub div : ℕ

abbrev pub sifive_uart_txfifo : ℕ
sifive_uart_txfifo = 0

abbrev pub sifive_uart_rxfifo : ℕ
sifive_uart_rxfifo = 4

abbrev pub sifive_uart_txctrl : ℕ
sifive_uart_txctrl = 8

abbrev pub sifive_uart_rxctrl : ℕ
sifive_uart_rxctrl = 12

abbrev pub sifive_uart_ie : ℕ
sifive_uart_ie = 16

abbrev pub sifive_uart_ip : ℕ
sifive_uart_ip = 20

abbrev pub sifive_uart_div : ℕ
sifive_uart_div = 24

abbrev pub sifive_uart_ip_rxwm : ℕ
sifive_uart_ip_rxwm = 2

module _ {W : Type 0} (read_data : W → W × Option ℕ) (write_data : ℕ → W → W) where
  unfoldable pub read_rxfifo : W → W × ℕ
  read_rxfifo w = elim (read_data w).1 [
    | none ↦ ((read_data w).0, 0x8000_0000)
    | some r ↦ ((read_data w).0, r % 2 ^ 8)
  ]

  unfoldable pub uart_read : SifiveUartState → W → ℕ → W × ℕ
  uart_read s w offset =
      if offset == sifive_uart_rxfifo
      then read_rxfifo w
      else if offset == sifive_uart_txfifo
      then (w, 0)
      else if offset == sifive_uart_ie
      then (w, s.ie)
      else if offset == sifive_uart_ip
      then (w, if s.rx_fifo_len == 0 then 0 else sifive_uart_ip_rxwm)
      else if offset == sifive_uart_txctrl
      then (w, s.txctrl)
      else if offset == sifive_uart_rxctrl
      then (w, s.rxctrl)
      else if offset == sifive_uart_div
      then (w, s.div)
      else (w, 0)

  unfoldable pub uart_write : SifiveUartState → W → ℕ → ℕ → SifiveUartState × W
  uart_write s w offset val =
      if offset == sifive_uart_txfifo
      then (s, write_data (val % 2 ^ 8) w)
      else if offset == sifive_uart_ie
      then (record s { ie = val }, w)
      else if offset == sifive_uart_txctrl
      then (record s { txctrl = val }, w)
      else if offset == sifive_uart_rxctrl
      then (record s { rxctrl = val }, w)
      else if offset == sifive_uart_div
      then (record s { div = val }, w)
      else (s, w)
