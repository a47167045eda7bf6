-- ===== src/W5500/Pairing.antt =====
-- The stamps of w5500_custom_spi.cpp over sequences of SPI callbacks: which frame a send stamp is
-- for, and which SEND a SEND_OK is for.
use esphome_gps_pps_ntp_serv.Base.{
  ℕ, ◌+◌, ◌≤◌, ◌<◌, ◌≡◌, ◌≢◌, refl, true, false, Option, none, List, [], ◌∷◌, arith, u16, u32,
  u32_mod, if◌then◌else◌, Bool-cases, if_elim, ◌⊎◌, inl, inr,
}
use esphome_gps_pps_ntp_serv.W5500.Classify.{classify_frame}
use esphome_gps_pps_ntp_serv.W5500.Link.{Io}
use esphome_gps_pps_ntp_serv.W5500.Driver.{Driver, SendTaps, is_txbuf_write}
use esphome_gps_pps_ntp_serv.W5500.Reads.{
  tap_size, tap_poll, tap_sendok, tap_frame, tap_read, before_read, spi_read,
}
use esphome_gps_pps_ntp_serv.W5500.Link.{transfer, bytes_read}
use esphome_gps_pps_ntp_serv.W5500.Reads.{send_stamp}
use esphome_gps_pps_ntp_serv.W5500.Ops.{Op, write, read, run_op, run, writes_frame, is_send}
use esphome_gps_pps_ntp_serv.W5500.Stamps.{spi_write-send, spi_write-quiet, spi_write-frame}
use esphome_gps_pps_ntp_serv.W5500.FrameTimes.{spi_write-Times}

-- A read may stamp a SEND_OK, and nothing else of the send path: the first one seen since the SEND.
pub record Polls (tx tx' : SendTaps) : Type 0 where
  pub same : tx' ≡ record tx { sendok_us = tx'.sendok_us; sendok_seq = tx'.sendok_seq }
  pub seen :
      (tx'.sendok_us ≡ tx.sendok_us) × (tx'.sendok_seq ≡ tx.sendok_seq)
      ⊎ (tx.sendok_seq ≢ tx.send_cmd_seq) × (tx'.sendok_seq ≡ tx.send_cmd_seq)

tap_read-tx :
    (io : Io) (d : Driver) (cmd addr : ℕ) (bytes : List ℕ) (len : ℕ)
    → Polls d.tx (tap_read io d cmd addr bytes len).tx
unfolding tap_size tap_poll tap_sendok tap_frame
tap_read-tx io d cmd addr bytes len = ground arith

pub spi_read-Polls :
    (io : Io) (d : Driver) (cmd addr len : ℕ) → Polls d.tx (spi_read io d cmd addr len).0.tx
unfolding spi_read
spi_read-Polls io d cmd addr len =
    let d' : Driver = before_read io d cmd addr len in
    let t = transfer io d'.link (u16 cmd) addr none len in
    let d'' : Driver = record d' { link = t.0 } in
    let bytes : List ℕ = bytes_read io d'.link in
    if_elim (λ (r : Driver × Option (List ℕ)). Polls d.tx r.0.tx) (t.1)
      (λ _. tap_read-tx io d'' cmd addr bytes len)
      λ _. record { same = refl; seen = inl (refl, refl) }

-- Neither a frame nor a SEND is written.
abbrev pub Quiet : List Op → Type 0
Quiet [] = Unit
Quiet (op ∷ ops) = (writes_frame op ≡ false) × (is_send op ≡ false) × Quiet ops

-- The stamps of the last frame are the same.
abbrev pub SameLast : SendTaps → SendTaps → Type 0
SameLast tx tx' =
    (tx'.last_tx_class ≡ tx.last_tx_class)
    × (tx'.last_tx_start_us ≡ tx.last_tx_start_us)
    × (tx'.last_tx_end_us ≡ tx.last_tx_end_us)
    × (tx'.send_cmd_seq ≡ tx.send_cmd_seq)

Quiet-op :
    (io : Io) (d : Driver) (op : Op)
    → writes_frame op ≡ false
    → is_send op ≡ false
    → SameLast d.tx (run_op io d op).tx
unfolding run_op
Quiet-op io d (write cmd addr out len) f s =
    ground (arith, spi_write-quiet io d cmd addr out len s f)
Quiet-op io d (read cmd addr len) f s = ground (arith, spi_read-Polls io d cmd addr len)

Quiet-run : (io : Io) (d : Driver) (ops : List Op) → Quiet ops → SameLast d.tx (run io d ops).tx
unfolding run
Quiet-run io d [] q = (refl, refl, refl, refl)
Quiet-run io d (op ∷ ops) q = ground (arith, Quiet-op io d op, Quiet-run io (run_op io d op) ops)

-- A frame is written, then come reads, and writes that are neither of a frame nor a SEND, in any number,
-- then a SEND. Its stamp names the class of that frame and a sequence number one up. Where the recorder
-- was on at the frame's write, its two times are the clock's readings just before and just after the
-- transfer of that frame, the second and the sixth reading from the start of that write; where it was
-- off, both are 0, whatever they were before.
pub send_stamp-frame :
    (io : Io) (d : Driver) (cmd addr : ℕ) (frame : Option (List ℕ)) (len : ℕ) (ops : List Op)
    (send : Op)
    → is_txbuf_write addr len ≡ true
    → Quiet ops
    → is_send send ≡ true
    → let d1 = run_op io d (write cmd addr frame len) in
      let stamp = send_stamp (run_op io (run io d1 ops) send) in
      let on = d.link.recorder.enabled in
      (stamp.frame_class ≡ classify_frame frame len)
      × (stamp.txbuf_start_us ≡ (if on then io.micros (d.link.calls + 1) else 0))
      × (stamp.txbuf_end_us ≡ (if on then io.micros (d.link.calls + 5) else 0))
      × (stamp.seq ≡ u32 (d.tx.send_cmd_seq + 1))
unfolding run_op send_stamp
send_stamp-frame io d cmd addr frame len ops (write c a out n) h q s =
    let d1 : Driver = run_op io d (write cmd addr frame len) in
    ground (
      arith,
      spi_write-frame io d cmd addr frame len h,
      spi_write-Times io d cmd addr frame len h,
      Quiet-run io d1 ops q,
      spi_write-send io (run io d1 ops) c a out n s,
    )
send_stamp-frame io d cmd addr frame len ops (read c a n) h q s = cc

-- The SENDs of a sequence.
abbrev pub sends : List Op → ℕ
sends [] = 0
sends (op ∷ ops) = (if is_send op then 1 else 0) + sends ops

-- The stamps of a SEND_OK: a later SEND leaves them, and a read that finds one for the current SEND
-- changes them once.
op-seq :
    (io : Io) (d : Driver) (op : Op)
    → let tx' = (run_op io d op).tx in
      (tx'.send_cmd_seq ≡ (if is_send op then u32 (d.tx.send_cmd_seq + 1) else d.tx.send_cmd_seq))
      × ((tx'.sendok_us ≡ d.tx.sendok_us) × (tx'.sendok_seq ≡ d.tx.sendok_seq)
          ⊎ (d.tx.sendok_seq ≢ d.tx.send_cmd_seq)
            × (tx'.sendok_seq ≡ d.tx.send_cmd_seq)
            × (is_send op ≡ false))
unfolding run_op
op-seq io d (write cmd addr out len) = elim (Bool-cases (is_send (write cmd addr out len))) [
  | inl s ↦ rw s (ground (arith, spi_write-send io d cmd addr out len s))
  | inr n ↦ elim (Bool-cases (is_txbuf_write addr len)) [
    | inl f ↦ rw n (ground (arith, spi_write-frame io d cmd addr out len f))
    | inr q ↦ rw n (ground (arith, spi_write-quiet io d cmd addr out len n q))
  ]
]
op-seq io d (read cmd addr len) = ground (arith, spi_read-Polls io d cmd addr len)

-- From a SEND_OK that was stamped for the current SEND on, its stamp stays through any callbacks
-- that hold no further SEND, more SEND_OKs that are read among them.
pub sendok_once :
    (io : Io) (d : Driver) (ops : List Op)
    → sends ops ≡ 0
    → d.tx.sendok_seq ≡ d.tx.send_cmd_seq
    → let tx' = (run io d ops).tx in
      (tx'.sendok_us ≡ d.tx.sendok_us)
      × (tx'.sendok_seq ≡ d.tx.sendok_seq)
      × (tx'.send_cmd_seq ≡ d.tx.send_cmd_seq)
unfolding run
sendok_once io d [] n h = (refl, refl, refl)
sendok_once io d (op ∷ ops) n h =
    ground (arith, op-seq io d op, sendok_once io (run_op io d op) ops)

-- From a state whose SEND_OK stamp is not ahead of its SENDs, and with fewer than 2^32 SENDs in all,
-- any callbacks leave it so, and the sequence number counts the SENDs.
pub sendok_behind :
    (io : Io) (d : Driver) (ops : List Op)
    → d.tx.sendok_seq ≤ d.tx.send_cmd_seq
    → d.tx.send_cmd_seq + sends ops < u32_mod
    → let tx' = (run io d ops).tx in
      (tx'.sendok_seq ≤ tx'.send_cmd_seq) × (tx'.send_cmd_seq ≡ d.tx.send_cmd_seq + sends ops)
unfolding run
sendok_behind io d [] le n = ground arith
sendok_behind io d (op ∷ ops) le n =
    ground (arith, op-seq io d op, sendok_behind io (run_op io d op) ops)
