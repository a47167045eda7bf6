-- ===== src/W5500/Reads.antt =====
-- `w5500_custom_spi_read` of w5500_custom_spi.cpp, the interrupt capture, and the functions of the
-- header w5500_custom_spi.h that read and set the globals.
use esphome_gps_pps_ntp_serv.Base.{
  ℕ, ◌+◌, ◌%◌, ◌/◌, ◌==◌, ◌&&◌, not, Bool, true, false, ltb, Option, none, some, List, [], ◌∷◌, u16,
  u32, sub32, if◌then◌else◌,
}
use esphome_gps_pps_ntp_serv.TxPatch.{word_at, byte_at}
use esphome_gps_pps_ntp_serv.W5500.Classify.{FrameClass}
use esphome_gps_pps_ntp_serv.W5500.Recorder.{set_net_recorder}
use esphome_gps_pps_ntp_serv.W5500.Command.{CmdStats, note_poll, take_cmd_stats}
use esphome_gps_pps_ntp_serv.W5500.Link.{
  Io, tick, now, record_frame, record_cr_retry, transfer, bytes_read,
}
use esphome_gps_pps_ntp_serv.W5500.Patch.{TxPatchFn, set_tx_patch}
use esphome_gps_pps_ntp_serv.W5500.Driver.{
  Driver, RxTaps, is_reg, s0_reg_read, s0_rxbuf_read, reg_rx_rsr, reg_cr, reg_ir, has_send_ok,
  common_read, common_write, reg_int_level, burst_gap_us,
}

-- `note_read_transaction`
unfoldable pub note_read_transaction : RxTaps → ℕ → RxTaps
note_read_transaction rx now_us = record rx {
  burst_start_us =
      if ltb burst_gap_us (sub32 now_us rx.last_txn_us) then now_us else rx.burst_start_us;
  last_txn_us = now_us;
}

-- The stamp of the Sn_RX_RSR read or of the payload read.
unfoldable pub note_receive : RxTaps → ℕ → ℕ → ℕ → ℕ → RxTaps
note_receive rx cmd addr len now_us =
    if is_reg addr cmd s0_reg_read reg_rx_rsr
    then record rx { size_read_us = now_us; payloads_since_size_read = 0 }
    else if addr == s0_rxbuf_read && ltb 4 len
    then record rx {
      payload_us = now_us;
      payloads_since_size_read = u32 (rx.payloads_since_size_read + 1);
    }
    else rx

-- What is taken from a transfer that returned ESP_OK with `bytes`: the size register ..
unfoldable pub tap_size : Driver → ℕ → ℕ → List ℕ → ℕ → Driver
tap_size d cmd addr bytes len =
    if len == 2 && is_reg addr cmd s0_reg_read reg_rx_rsr
    then record d { rx = record d.rx { size_value = word_at bytes 0 } }
    else d

-- .. the command register ..
unfoldable pub tap_poll : Io → Driver → ℕ → ℕ → List ℕ → ℕ → Driver
tap_poll io d cmd addr bytes len =
    let (h, again) = note_poll d.handshake (byte_at bytes 0) (now io d.link) in
    let l = tick d.link in
    if is_reg addr cmd s0_reg_read reg_cr && len == 1
    then record d { handshake = h; link = if again then record_cr_retry io l else l }
    else d

-- .. the interrupt register ..
unfoldable pub tap_sendok : Io → Driver → ℕ → ℕ → List ℕ → ℕ → Driver
tap_sendok io d cmd addr bytes len =
    if is_reg addr cmd s0_reg_read reg_ir
      && len == 1
      && (has_send_ok (byte_at bytes 0) && not (d.tx.sendok_seq == d.tx.send_cmd_seq))
    then record d {
      tx = record d.tx { sendok_us = now io d.link; sendok_seq = d.tx.send_cmd_seq };
      link = tick d.link;
    }
    else d

-- .. and a received frame.
unfoldable pub tap_frame : Io → Driver → ℕ → List ℕ → ℕ → Driver
tap_frame io d addr bytes len =
    if addr == s0_rxbuf_read && ltb 4 len
    then record d { link = record_frame io d.link false (some bytes) len }
    else d

abbrev pub tap_read : Io → Driver → ℕ → ℕ → List ℕ → ℕ → Driver
tap_read io d cmd addr bytes len =
    tap_frame io
      (tap_sendok io (tap_poll io (tap_size d cmd addr bytes len) cmd addr bytes len) cmd addr bytes
        len)
      addr bytes len

-- The stamps before the transfer of a read.
abbrev pub before_read : Io → Driver → ℕ → ℕ → ℕ → Driver
before_read io d cmd addr len =
    let burst = note_read_transaction d.rx (now io d.link) in
    record d {
      rx = note_receive burst cmd addr len (now io (tick d.link));
      link = tick (tick d.link);
    }

-- `w5500_custom_spi_read`; the result is the bytes read, or `none` where it did not return ESP_OK.
unfoldable pub spi_read : Io → Driver → ℕ → ℕ → ℕ → Driver × Option (List ℕ)
spi_read io d cmd addr len =
    let d' = before_read io d cmd addr len in
    let (l, done) = transfer io d'.link (u16 cmd) addr none len in
    let bytes = bytes_read io d'.link in
    let d'' = record d' { link = l } in
    if done then (tap_read io d'' cmd addr bytes len, some bytes) else (d'', none)

-- `w5500_custom_spi_init`: the context, the device and the lock may each not be had; and
-- `w5500_custom_spi_deinit` of that one context.
unfoldable pub spi_init : Driver → Bool → Bool → Bool → Driver × Bool
spi_init d context device lock =
    if context && (device && lock) then (record d { attached = true }, true) else (d, false)

unfoldable pub spi_deinit : Driver → Driver
spi_deinit d = record d { attached = false }

-- `int_capture_cb`
unfoldable pub int_capture : Driver → ℕ → Driver
int_capture d now_us = record d { int_edge_us = now_us; int_edge_seq = u32 (d.int_edge_seq + 1) }

-- `W5500SendStamp`, and `w5500_send_stamp`.
pub record SendStamp : Type 0 where
  pub send_cmd_us : ℕ
  pub seq : ℕ
  pub frame_class : FrameClass
  pub txbuf_start_us : ℕ
  pub txbuf_end_us : ℕ
  pub patch_us : ℕ
  pub patched : Bool
  pub sendok_us : ℕ
  pub sendok_seq : ℕ

unfoldable pub send_stamp : Driver → SendStamp
send_stamp d = record {
  send_cmd_us = d.tx.send_cmd_us;
  seq = d.tx.send_cmd_seq;
  frame_class = d.tx.send_cmd_class;
  txbuf_start_us = d.tx.send_txbuf_start_us;
  txbuf_end_us = d.tx.send_txbuf_end_us;
  patch_us = d.tx.patch_us;
  patched = d.tx.patched;
  sendok_us = d.tx.sendok_us;
  sendok_seq = d.tx.sendok_seq;
}

-- `w5500_driver_int_level`
unfoldable pub driver_int_level : Driver → ℕ
driver_int_level d = elim d.int_level [ some value ↦ value | none ↦ 0 ]

-- `w5500_write_int_level` and `w5500_read_int_level`; the latter gives the value on success.
unfoldable pub write_int_level : Io → Driver → ℕ → Driver × Bool
write_int_level io d value =
    let bytes = (value / 256) ∷ (value % 256) ∷ [] in
    let (l, done) = transfer io d.link reg_int_level common_write (some bytes) 2 in
    if d.attached then (record d { link = l }, done) else (d, false)

unfoldable pub read_int_level : Io → Driver → Driver × Option ℕ
read_int_level io d =
    let (l, done) = transfer io d.link reg_int_level common_read none 2 in
    if d.attached
    then (record d { link = l }, if done then some (word_at (bytes_read io d.link) 0) else none)
    else (d, none)

-- `w5500_set_tx_patch`, `w5500_set_net_recorder` and `w5500_take_cmd_stats` on the whole state.
unfoldable pub register_tx_patch : Driver → Option TxPatchFn → ℕ → Driver
register_tx_patch d fn server_port = record d { tracking = set_tx_patch d.tracking fn server_port }

unfoldable pub switch_net_recorder : Driver → Bool → Bool → Driver
switch_net_recorder d enable allocated = record d {
  link = record d.link { recorder = set_net_recorder d.link.recorder enable allocated };
}

unfoldable pub read_cmd_stats : Driver → Driver × CmdStats
read_cmd_stats d =
    let (h, stats) = take_cmd_stats d.handshake in (record d { handshake = h }, stats)
