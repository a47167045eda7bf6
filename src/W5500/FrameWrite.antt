-- ===== src/W5500/FrameWrite.antt =====
-- The driver's write of a frame into the TX buffer and its SEND, in w5500_custom_spi.cpp: what each
-- does to the tracking and to the ring.
use esphome_gps_pps_ntp_serv.Base.{
  ℕ, ◌≤◌, ◌<◌, ◌≡◌, ◌&&◌, refl, Bool, true, false, leb, some, List, [], ◌∷◌, length, take, arith,
  u16, take_all,
}
use mathlib.Core.Path.{◌∙◌}
use esphome_gps_pps_ntp_serv.W5500.Link.{Io, tick, record_frame}
use esphome_gps_pps_ntp_serv.W5500.Patch.{Tracking, TxPatchFn, track_write, patch_send, txbuf_write}
use esphome_gps_pps_ntp_serv.W5500.Memory.{
  Memory, after, put_bytes, transfer-after_done, transfer-after_other,
}
use esphome_gps_pps_ntp_serv.W5500.Driver.{
  Driver, spi_write, note_tx_frame, note_send, write_command, stamped_transfer, reg_cr,
  s0_reg_write, cmd_send,
}

-- The driver writes a frame of `len` bytes at `cmd`, and tells the chip to send.
abbrev pub write_frame : Io → Driver → ℕ → List ℕ → Driver × Bool
write_frame io d cmd frame = spi_write io d cmd txbuf_write (some frame) (length frame)

abbrev pub send : Io → Driver → Driver
send io d = (spi_write io d reg_cr s0_reg_write (some (cmd_send ∷ [])) 1).0

-- A callback that patches is registered, no frame has begun, and the frame fits the header buffer.
pub record IsReady (d : Driver) (fn : TxPatchFn) (cmd : ℕ) (frame : List ℕ) : Type 0 where
  pub registered : d.tracking.fn ≡ some fn
  pub between : d.tracking.frame_started ≡ false
  pub long : 14 ≤ length frame
  pub short : length frame ≤ 128
  pub address : cmd < 65536
  pub eight : (us : ℕ) (t3 : List ℕ) → fn us ≡ some t3 → length t3 ≡ 8

abbrev pub tracked : Driver → TxPatchFn → ℕ → List ℕ → Tracking
tracked d fn cmd frame = record d.tracking {
  fn = some fn;
  hdr = frame;
  frame_start = cmd;
  frame_started = true;
}

track_frame :
    (d : Driver) (fn : TxPatchFn) (cmd : ℕ) (frame : List ℕ)
    → IsReady d fn cmd frame
    → track_write d.tracking cmd frame (length frame) ≡ tracked d fn cmd frame
unfolding track_write
track_frame d fn cmd frame h =
    rw (h.registered, h.between) (ground (arith, take_all frame, h.short, h.address))

frame_noted : Io → Driver → ℕ → List ℕ → Driver
frame_noted io d cmd frame = note_tx_frame io d cmd (some frame) (length frame)

write_frame_lem :
    (io : Io) (d : Driver) (cmd : ℕ) (frame : List ℕ)
    → 14 ≤ length frame
    → write_frame io d cmd frame
      ≡ stamped_transfer io
          (frame_noted io d cmd frame)
          cmd
          txbuf_write
          (some frame)
          (length frame)
          ((frame_noted io d cmd frame).link.recorder.enabled && true)
unfolding spi_write frame_noted
write_frame_lem io d cmd frame long =
    let is_long : leb 14 (length frame) ≡ true = ground arith in rw is_long refl

stamped_transfer-tracking :
    (io : Io) (d : Driver) (cmd : ℕ) (frame : List ℕ) (len : ℕ) (stamped : Bool)
    → (stamped_transfer io d cmd txbuf_write (some frame) len stamped).0.tracking ≡ d.tracking
stamped_transfer-tracking io d cmd frame len true = refl
stamped_transfer-tracking io d cmd frame len false = refl

stamped_transfer-after :
    (io : Io) (m : Memory) (d : Driver) (cmd : ℕ) (frame : List ℕ) (len : ℕ) (stamped : Bool)
    → let (d', done) = stamped_transfer io d cmd txbuf_write (some frame) len stamped in
      done ≡ true → after d'.link.log m ≡ put_bytes (after d.link.log m) (u16 cmd) (take len frame)
stamped_transfer-after io m d cmd frame len true =
    transfer-after_done io m (tick d.link) (u16 cmd) frame len
stamped_transfer-after io m d cmd frame len false =
    transfer-after_done io m d.link (u16 cmd) frame len

pub write_frame-tracking :
    (io : Io) (d : Driver) (fn : TxPatchFn) (cmd : ℕ) (frame : List ℕ)
    → IsReady d fn cmd frame
    → (write_frame io d cmd frame).0.tracking ≡ tracked d fn cmd frame
unfolding frame_noted note_tx_frame
write_frame-tracking io d fn cmd frame h = rw (write_frame_lem io d cmd frame h.long) (
    stamped_transfer-tracking io (frame_noted io d cmd frame) cmd frame (length frame)
      ((frame_noted io d cmd frame).link.recorder.enabled && true)
    ∙ track_frame d fn cmd frame h)

pub write_frame-after :
    (io : Io) (m : Memory) (d : Driver) (cmd : ℕ) (frame : List ℕ)
    → 14 ≤ length frame
    → cmd < 65536
    → (write_frame io d cmd frame).1 ≡ true
    → after (write_frame io d cmd frame).0.link.log m ≡ put_bytes (after d.link.log m) cmd frame
unfolding frame_noted note_tx_frame record_frame
write_frame-after io m d cmd frame long address ok =
    let e = write_frame_lem io d cmd frame long in
    let word : u16 cmd ≡ cmd = omega arith in
    rw e (
      stamped_transfer-after io m (frame_noted io d cmd frame) cmd frame (length frame)
        ((frame_noted io d cmd frame).link.recorder.enabled && true) (rw e at ok)
      ∙ rw (word, take_all frame) refl)

-- A command leaves the TX ring and the patch's stamps as they are.
transfer_command :
    (io : Io) (m : Memory) (d : Driver) (stamped : Bool)
    → let d' = (stamped_transfer io d reg_cr s0_reg_write (some (cmd_send ∷ [])) 1 stamped).0 in
      (after d'.link.log m ≡ after d.link.log m)
      × (d'.tx.patched ≡ d.tx.patched)
      × (d'.tx.patch_us ≡ d.tx.patch_us)
transfer_command io m d true =
    (transfer-after_other io m (tick d.link) reg_cr s0_reg_write (cmd_send ∷ []) 1 refl, refl, refl)
transfer_command io m d false =
    (transfer-after_other io m d.link reg_cr s0_reg_write (cmd_send ∷ []) 1 refl, refl, refl)

-- A SEND transmits what the patch has left in the ring.
pub send-after :
    (io : Io) (m : Memory) (d : Driver)
    → let (l', us, patched) = patch_send io (tick d.link) d.tracking in
      (after (send io d).link.log m ≡ after l'.log m)
      × ((send io d).tx.patched ≡ patched)
      × ((send io d).tx.patch_us ≡ us)
unfolding spi_write write_command note_send
send-after io m d =
    transfer_command io m (write_command io d cmd_send)
      ((patch_send io (tick d.link) d.tracking).0.recorder.enabled && false)
