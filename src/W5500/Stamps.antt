-- ===== src/W5500/Stamps.antt =====
-- The stamps of w5500_custom_spi.cpp under one write: what a SEND snapshots, what the write of
-- a frame sets, and what a transmit leaves alone.
use esphome_gps_pps_ntp_serv.Base.{
  ℕ, ◌+◌, ◌≡◌, ◌&&◌, refl, Bool, true, false, Option, none, some, List, arith, u32, if◌then◌else◌,
  if_elim, ◌⊎◌, inl, inr,
}
use mathlib.Core.Path.{◌∙◌}
use esphome_gps_pps_ntp_serv.W5500.Classify.{classify_frame}
use esphome_gps_pps_ntp_serv.W5500.Link.{Io, now, tick}
use esphome_gps_pps_ntp_serv.W5500.Driver.{
  Driver, SendTaps, is_txbuf_write, tap_int_level, note_send, write_command, tap_command,
  note_tx_frame, stamped_transfer, spi_write,
}
use esphome_gps_pps_ntp_serv.W5500.Ops.{write, is_send}

-- The parts of a write, one by one: what each leaves alone of the stamps.
tap_int_level-keeps :
    (d : Driver) (cmd addr : ℕ) (out : Option (List ℕ)) (len : ℕ)
    → let d' = tap_int_level d cmd addr out len in
      (d'.rx ≡ d.rx) × (d'.tx ≡ d.tx) × (d'.link ≡ d.link) × (d'.tracking ≡ d.tracking)
tap_int_level-keeps d cmd addr none len = (refl, refl, refl, refl)
tap_int_level-keeps d cmd addr (some bytes) len = ground arith

-- What a SEND snapshots, and what it leaves alone.
pub record Snapshots (tx tx' : SendTaps) : Type 0 where
  pub class_of_last : tx'.send_cmd_class ≡ tx.last_tx_class
  pub start_of_last : tx'.send_txbuf_start_us ≡ tx.last_tx_start_us
  pub end_of_last : tx'.send_txbuf_end_us ≡ tx.last_tx_end_us
  pub seq : tx'.send_cmd_seq ≡ u32 (tx.send_cmd_seq + 1)
  pub sendok : (tx'.sendok_us ≡ tx.sendok_us) × (tx'.sendok_seq ≡ tx.sendok_seq)
  pub last :
      (tx'.last_tx_class ≡ tx.last_tx_class)
      × (tx'.last_tx_start_us ≡ tx.last_tx_start_us)
      × (tx'.last_tx_end_us ≡ tx.last_tx_end_us)

note_send-Snapshots :
    (io : Io) (d : Driver) → Snapshots d.tx (note_send io d).tx × ((note_send io d).rx ≡ d.rx)
unfolding note_send
note_send-Snapshots io d = (
  record {
    class_of_last = refl;
    start_of_last = refl;
    end_of_last = refl;
    seq = refl;
    sendok = (refl, refl);
    last = (refl, refl, refl);
  },
  refl,
)

tap_command-send :
    (io : Io) (d : Driver) (cmd addr : ℕ) (out : Option (List ℕ)) (len : ℕ)
    → is_send (write cmd addr out len) ≡ true
    → Snapshots d.tx (tap_command io d cmd addr out len).tx
unfolding write_command
tap_command-send io d cmd addr none len h = cc
tap_command-send io d cmd addr (some bytes) len h =
    ground (arith, note_send-Snapshots io (record d { link = tick d.link }))

tap_command-keeps :
    (io : Io) (d : Driver) (cmd addr : ℕ) (out : Option (List ℕ)) (len : ℕ)
    → is_send (write cmd addr out len) ≡ false
    → (tap_command io d cmd addr out len).tx ≡ d.tx
unfolding write_command
tap_command-keeps io d cmd addr none len h = refl
tap_command-keeps io d cmd addr (some bytes) len h = ground arith

tap_command-rx :
    (io : Io) (d : Driver) (cmd addr : ℕ) (out : Option (List ℕ)) (len : ℕ)
    → (tap_command io d cmd addr out len).rx ≡ d.rx
unfolding write_command
tap_command-rx io d cmd addr none len = refl
tap_command-rx io d cmd addr (some bytes) len =
    ground (arith, note_send-Snapshots io (record d { link = tick d.link }))

-- .. of the transfer, which only stamps a frame's own write.
stamped_transfer-keeps :
    (io : Io) (d : Driver) (cmd addr : ℕ) (out : Option (List ℕ)) (len : ℕ) (stamped : Bool)
    → let d' = (stamped_transfer io d cmd addr out len stamped).0 in
      (d'.rx ≡ d.rx)
      × (d'.tx ≡ record d.tx {
        last_tx_start_us = if stamped then now io d.link else d.tx.last_tx_start_us;
        last_tx_end_us = d'.tx.last_tx_end_us;
      })
      × (stamped ≡ true ⊎ (d'.tx.last_tx_end_us ≡ d.tx.last_tx_end_us))
stamped_transfer-keeps io d cmd addr out len true = (refl, refl, inl refl)
stamped_transfer-keeps io d cmd addr out len false = (refl, refl, inr refl)

note_tx_frame-rx :
    (io : Io) (d : Driver) (cmd : ℕ) (out : Option (List ℕ)) (len : ℕ)
    → (note_tx_frame io d cmd out len).rx ≡ d.rx
unfolding note_tx_frame
note_tx_frame-rx io d cmd out len = refl

-- Whatever is written, the stamps of the receive path stay: the start of a burst among them.
pub spi_write-rx :
    (io : Io) (d : Driver) (cmd addr : ℕ) (out : Option (List ℕ)) (len : ℕ)
    → (spi_write io d cmd addr out len).0.rx ≡ d.rx
unfolding spi_write
spi_write-rx io d cmd addr out len =
    let d1 : Driver = tap_int_level d cmd addr out len in
    let d2 : Driver = tap_command io d1 cmd addr out len in
    let is_frame : Bool = is_txbuf_write addr len in
    let d3 : Driver = if is_frame then note_tx_frame io d2 cmd out len else d2 in
    let framed : d3.rx ≡ d2.rx =
      if_elim (λ (x : Driver). x.rx ≡ d2.rx) is_frame (λ _. note_tx_frame-rx io d2 cmd out len)
        λ _. refl in
    (stamped_transfer-keeps io d3 cmd addr out len (d3.link.recorder.enabled && is_frame)).0
    ∙ framed
    ∙ tap_command-rx io d1 cmd addr out len
    ∙ (tap_int_level-keeps d cmd addr out len).0

-- A SEND is no write of a frame.
send-frame :
    (cmd addr : ℕ) (out : Option (List ℕ)) (len : ℕ)
    → is_send (write cmd addr out len) ≡ true
    → is_txbuf_write addr len ≡ false
send-frame cmd addr none len h = cc
send-frame cmd addr (some bytes) len h = ground arith

pub spi_write-send :
    (io : Io) (d : Driver) (cmd addr : ℕ) (out : Option (List ℕ)) (len : ℕ)
    → is_send (write cmd addr out len) ≡ true
    → Snapshots d.tx (spi_write io d cmd addr out len).0.tx
unfolding spi_write
spi_write-send io d cmd addr out len h =
    let d1 : Driver = tap_int_level d cmd addr out len in
    let d2 : Driver = tap_command io d1 cmd addr out len in
    rw (send-frame cmd addr out len h) (
      ground (
        arith,
        tap_int_level-keeps d cmd addr out len,
        tap_command-send io d1 cmd addr out len h,
        stamped_transfer-keeps io d2 cmd addr out len (d2.link.recorder.enabled && false),
      ))

pub spi_write-quiet :
    (io : Io) (d : Driver) (cmd addr : ℕ) (out : Option (List ℕ)) (len : ℕ)
    → is_send (write cmd addr out len) ≡ false
    → is_txbuf_write addr len ≡ false
    → (spi_write io d cmd addr out len).0.tx ≡ d.tx
unfolding spi_write
spi_write-quiet io d cmd addr out len h n =
    let d1 : Driver = tap_int_level d cmd addr out len in
    let d2 : Driver = tap_command io d1 cmd addr out len in
    rw n (
      ground (
        arith,
        tap_int_level-keeps d cmd addr out len,
        tap_command-keeps io d1 cmd addr out len h,
        stamped_transfer-keeps io d2 cmd addr out len (d2.link.recorder.enabled && false),
      ))

-- What a write of a frame does to the stamps.
pub record Frames (tx tx' : SendTaps) (out : Option (List ℕ)) (len : ℕ) : Type 0 where
  pub class_of_frame : tx'.last_tx_class ≡ classify_frame out len
  pub kept :
      (tx'.send_cmd_seq ≡ tx.send_cmd_seq)
      × (tx'.sendok_us ≡ tx.sendok_us)
      × (tx'.sendok_seq ≡ tx.sendok_seq)

frame-send :
    (cmd addr : ℕ) (out : Option (List ℕ)) (len : ℕ)
    → is_txbuf_write addr len ≡ true
    → is_send (write cmd addr out len) ≡ false
frame-send cmd addr none len h = refl
frame-send cmd addr (some bytes) len h = ground arith

note_tx_frame-Frames :
    (io : Io) (d : Driver) (cmd : ℕ) (out : Option (List ℕ)) (len : ℕ)
    → Frames d.tx (note_tx_frame io d cmd out len).tx out len
unfolding note_tx_frame
note_tx_frame-Frames io d cmd out len = ground arith

pub spi_write-frame :
    (io : Io) (d : Driver) (cmd addr : ℕ) (out : Option (List ℕ)) (len : ℕ)
    → is_txbuf_write addr len ≡ true
    → Frames d.tx (spi_write io d cmd addr out len).0.tx out len
unfolding spi_write
spi_write-frame io d cmd addr out len h =
    let d1 : Driver = tap_int_level d cmd addr out len in
    let d2 : Driver = tap_command io d1 cmd addr out len in
    let d3 : Driver = note_tx_frame io d2 cmd out len in
    rw h (
      ground (
        arith,
        tap_int_level-keeps d cmd addr out len,
        tap_command-keeps io d1 cmd addr out len (frame-send cmd addr out len h),
        note_tx_frame-Frames io d2 cmd out len,
        stamped_transfer-keeps io d3 cmd addr out len (d3.link.recorder.enabled && true),
      ))
