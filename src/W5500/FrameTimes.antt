-- ===== src/W5500/FrameTimes.antt =====
-- When a frame is written to the W5500's TX buffer: the two stamps of `w5500_custom_spi_write` in
-- w5500_custom_spi.cpp.
use esphome_gps_pps_ntp_serv.Base.{
  ℕ, ◌+◌, ◌≡◌, ◌&&◌, refl, Bool, true, Option, none, some, List, arith, if◌then◌else◌, Bool-cases,
  inl, inr,
}
use esphome_gps_pps_ntp_serv.W5500.Recorder.{net_record_frame}
use esphome_gps_pps_ntp_serv.W5500.Link.{Io, Link, record_frame, transfer}
use esphome_gps_pps_ntp_serv.W5500.Driver.{
  Driver, SendTaps, is_txbuf_write, tap_int_level, tap_command, note_tx_frame, stamped_transfer,
  spi_write,
}

record_frame-enabled :
    (io : Io) (l : Link) (tx : Bool) (frame : Option (List ℕ)) (len : ℕ)
    → (record_frame io l tx frame len).recorder.enabled ≡ l.recorder.enabled
unfolding record_frame net_record_frame
record_frame-enabled io l tx frame len = ground arith

-- The readings of the clock just before and just after the transfer of a frame from the link `l` on,
-- where the recorder is on: the second of this write and the sixth. Where it is off, no time.
pub record Times (io : Io) (l : Link) (tx : SendTaps) : Type 0 where
  pub start : tx.last_tx_start_us ≡ (if l.recorder.enabled then io.micros (l.calls + 1) else 0)
  pub end : tx.last_tx_end_us ≡ (if l.recorder.enabled then io.micros (l.calls + 5) else 0)

-- A write of a frame is no command and no write to INTLEVEL.
frame-taps :
    (io : Io) (d : Driver) (cmd addr : ℕ) (out : Option (List ℕ)) (len : ℕ)
    → is_txbuf_write addr len ≡ true
    → tap_command io (tap_int_level d cmd addr out len) cmd addr out len ≡ d
frame-taps io d cmd addr none len h = refl
frame-taps io d cmd addr (some bytes) len h = ground arith

noted-Times :
    (io : Io) (d : Driver) (cmd addr : ℕ) (out : Option (List ℕ)) (len : ℕ)
    → let d' = note_tx_frame io d cmd out len in
      Times io d.link
        (stamped_transfer io d' cmd addr out len (d'.link.recorder.enabled && true)).0.tx
unfolding note_tx_frame record_frame transfer
noted-Times io d cmd addr out len =
    let same = record_frame-enabled io d.link true out len in
    elim (Bool-cases d.link.recorder.enabled) [ inl on ↦ ground arith | inr off ↦ ground arith ]

pub spi_write-Times :
    (io : Io) (d : Driver) (cmd addr : ℕ) (out : Option (List ℕ)) (len : ℕ)
    → is_txbuf_write addr len ≡ true
    → Times io d.link (spi_write io d cmd addr out len).0.tx
unfolding spi_write
spi_write-Times io d cmd addr out len h =
    rw (h, frame-taps io d cmd addr out len h) (noted-Times io d cmd addr out len)
