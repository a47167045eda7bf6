-- ===== src/W5500/Ops.antt =====
-- Sequences of the SPI callbacks of w5500_custom_spi.cpp.
use esphome_gps_pps_ntp_serv.Base.{ℕ, ◌==◌, ◌&&◌, Bool, false, Option, none, some, List, [], ◌∷◌}
use esphome_gps_pps_ntp_serv.TxPatch.{byte_at}
use esphome_gps_pps_ntp_serv.W5500.Link.{Io}
use esphome_gps_pps_ntp_serv.W5500.Driver.{
  Driver, is_reg, s0_reg_write, reg_cr, cmd_send, is_txbuf_write, spi_write,
}
use esphome_gps_pps_ntp_serv.W5500.Reads.{spi_read}

-- A callback of the driver.
pub data Op : Type 0 where
  write : ℕ → ℕ → Option (List ℕ) → ℕ → Op
  read : ℕ → ℕ → ℕ → Op

unfoldable pub run_op : Io → Driver → Op → Driver
run_op io d (write cmd addr out len) = (spi_write io d cmd addr out len).0
run_op io d (read cmd addr len) = (spi_read io d cmd addr len).0

unfoldable pub run : Io → Driver → List Op → Driver
run io d [] = d
run io d (op ∷ ops) = run io (run_op io d op) ops

-- Whether a callback writes a frame, and whether it is a SEND.
abbrev pub writes_frame : Op → Bool
writes_frame (write cmd addr out len) = is_txbuf_write addr len
writes_frame (read cmd addr len) = false

abbrev pub is_send : Op → Bool
is_send (write cmd addr none len) = false
is_send (write cmd addr (some bytes) len) =
    is_reg addr cmd s0_reg_write reg_cr && len == 1 && (byte_at bytes 0 == cmd_send)
is_send (read cmd addr len) = false
