-- ===== src/W5500/Driver.antt =====
-- The SPI callbacks of w5500_custom_spi.cpp: `w5500_custom_spi_write` and `_read` with all the globals
-- that they keep, the interrupt capture, and what the other components call.
use esphome_gps_pps_ntp_serv.Base.{
  ℕ, ◌+◌, ◌%◌, ◌/◌, ◌==◌, ◌&&◌, Bool, true, false, leb, Option, none, some, List, u16, u32,
  if◌then◌else◌,
}
use esphome_gps_pps_ntp_serv.TxPatch.{word_at, byte_at}
use esphome_gps_pps_ntp_serv.W5500.Classify.{FrameClass, fc_other, classify_frame}
use esphome_gps_pps_ntp_serv.W5500.Command.{Handshake, no_handshake, note_command}
use esphome_gps_pps_ntp_serv.W5500.Link.{Io, Link, initial_link, tick, now, record_frame, transfer}
use esphome_gps_pps_ntp_serv.W5500.Patch.{
  Tracking, no_tracking, track_write, reset_tracking, patch_send, txbuf_write,
}

-- The stamps of the receive path.
pub record RxTaps : Type 0 where
  pub size_read_us : ℕ  -- uint32_t, as the rest but the last
  pub payload_us : ℕ
  pub payloads_since_size_read : ℕ
  pub burst_start_us : ℕ
  pub last_txn_us : ℕ
  pub size_value : ℕ  -- uint16_t

-- The stamps of the send path; those of the last write to the TX buffer, and those taken at a SEND.
pub record SendTaps : Type 0 where
  pub last_tx_class : FrameClass
  pub last_tx_start_us : ℕ
  pub last_tx_end_us : ℕ
  pub send_cmd_us : ℕ
  pub send_cmd_seq : ℕ
  pub send_cmd_class : FrameClass
  pub send_txbuf_start_us : ℕ
  pub send_txbuf_end_us : ℕ
  pub patch_us : ℕ
  pub patched : Bool
  pub sendok_us : ℕ
  pub sendok_seq : ℕ

-- `int_level` is `g_driver_int_level`, and `none` while it has not been seen; `attached` is whether
-- `g_spi_ctx` is set.
pub record Driver : Type 0 where
  pub link : Link
  pub handshake : Handshake
  pub tracking : Tracking
  pub rx : RxTaps
  pub tx : SendTaps
  pub int_level : Option ℕ
  pub int_edge_us : ℕ
  pub int_edge_seq : ℕ
  pub attached : Bool

unfoldable pub initial_driver : Driver
initial_driver = record {
  link = initial_link;
  handshake = no_handshake;
  tracking = no_tracking;
  rx = record {
    size_read_us = 0;
    payload_us = 0;
    payloads_since_size_read = 0;
    burst_start_us = 0;
    last_txn_us = 0;
    size_value = 0;
  };
  tx = record {
    last_tx_class = fc_other;
    last_tx_start_us = 0;
    last_tx_end_us = 0;
    send_cmd_us = 0;
    send_cmd_seq = 0;
    send_cmd_class = fc_other;
    send_txbuf_start_us = 0;
    send_txbuf_end_us = 0;
    patch_us = 0;
    patched = false;
    sendok_us = 0;
    sendok_seq = 0;
  };
  int_level = none;
  int_edge_us = 0;
  int_edge_seq = 0;
  attached = false;
}

-- The addresses that the callbacks look for: a control byte, and a register.
abbrev pub is_reg : ℕ → ℕ → ℕ → ℕ → Bool
is_reg addr cmd control register = addr == control && cmd == register

abbrev pub s0_reg_read : ℕ
s0_reg_read = 0x08

abbrev pub s0_reg_write : ℕ
s0_reg_write = 0x0C

abbrev pub s0_rxbuf_read : ℕ
s0_rxbuf_read = 0x18

abbrev pub reg_rx_rsr : ℕ
reg_rx_rsr = 0x0026

abbrev pub reg_cr : ℕ
reg_cr = 0x0001

abbrev pub reg_ir : ℕ
reg_ir = 0x0002

abbrev pub cmd_send : ℕ
cmd_send = 0x20

-- `status & W5500_SN_IR_SEND_OK`, bit 4.
abbrev pub has_send_ok : ℕ → Bool
has_send_ok status = status / 16 % 2 == 1

abbrev pub common_read : ℕ
common_read = 0x00

abbrev pub common_write : ℕ
common_write = 0x04

abbrev pub reg_int_level : ℕ
reg_int_level = 0x0013

abbrev pub burst_gap_us : ℕ
burst_gap_us = 500

-- The tap on the driver's own write to INTLEVEL.
abbrev pub tap_int_level : Driver → ℕ → ℕ → Option (List ℕ) → ℕ → Driver
tap_int_level d cmd addr none len = d
tap_int_level d cmd addr (some bytes) len =
    if is_reg addr cmd common_write reg_int_level && len == 2
    then record d { int_level = some (word_at bytes 0) }
    else d

-- The snapshots at a SEND, from the link on; the patch comes first, and the stamp last.
unfoldable pub note_send : Io → Driver → Driver
note_send io d =
    let (l, patch_us, patched) = patch_send io d.link d.tracking in
    record d {
      link = tick l;
      tracking = reset_tracking d.tracking;
      tx = record d.tx {
        send_cmd_class = d.tx.last_tx_class;
        send_txbuf_start_us = d.tx.last_tx_start_us;
        send_txbuf_end_us = d.tx.last_tx_end_us;
        patch_us = patch_us;
        patched = patched;
        send_cmd_us = now io l;
        send_cmd_seq = u32 (d.tx.send_cmd_seq + 1);
      };
    }

-- A one-byte write of `byte` to Sn_CR.
unfoldable pub write_command : Io → Driver → ℕ → Driver
write_command io d byte =
    let now_us = now io d.link in
    let d' = record d { link = tick d.link } in
    let d'' = if byte == cmd_send then note_send io d' else d' in
    record d'' { handshake = note_command d''.handshake now_us }

abbrev pub tap_command : Io → Driver → ℕ → ℕ → Option (List ℕ) → ℕ → Driver
tap_command io d cmd addr none len = d
tap_command io d cmd addr (some bytes) len =
    if is_reg addr cmd s0_reg_write reg_cr && len == 1
    then write_command io d (byte_at bytes 0)
    else d

abbrev pub is_txbuf_write : ℕ → ℕ → Bool
is_txbuf_write addr len = addr == txbuf_write && leb 14 len

-- A frame written to the TX buffer; a null pointer would not be copied from.
unfoldable pub note_tx_frame : Io → Driver → ℕ → Option (List ℕ) → ℕ → Driver
note_tx_frame io d cmd frame len =
    let l = record_frame io d.link true frame len in
    let classed = record d.tx { last_tx_class = classify_frame frame len } in
    record d {
      link = l;
      tx =
          if l.recorder.enabled
          then classed
          else record classed { last_tx_start_us = 0; last_tx_end_us = 0 };
      tracking = elim frame [
        | none ↦ d.tracking
        | some bytes ↦ track_write d.tracking cmd bytes len
      ];
    }

-- The transfer, between the stamps of a write to the TX buffer if the recorder is on.
abbrev pub stamped_transfer : Io → Driver → ℕ → ℕ → Option (List ℕ) → ℕ → Bool → Driver × Bool
stamped_transfer io d cmd addr out len true =
    let (l, done) = transfer io (tick d.link) (u16 cmd) addr out len in
    let stamped = record d.tx { last_tx_start_us = now io d.link; last_tx_end_us = now io l } in
    (record d { link = tick l; tx = stamped }, done)
stamped_transfer io d cmd addr out len false =
    let (l, done) = transfer io d.link (u16 cmd) addr out len in (record d { link = l }, done)

-- `w5500_custom_spi_write`; the result is whether it returned ESP_OK.
unfoldable pub spi_write : Io → Driver → ℕ → ℕ → Option (List ℕ) → ℕ → Driver × Bool
spi_write io d cmd addr out len =
    let is_frame = is_txbuf_write addr len in
    let d' = tap_command io (tap_int_level d cmd addr out len) cmd addr out len in
    let d'' = if is_frame then note_tx_frame io d' cmd out len else d' in
    stamped_transfer io d'' cmd addr out len (d''.link.recorder.enabled && is_frame)
