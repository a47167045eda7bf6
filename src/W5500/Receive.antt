-- ===== src/W5500/Receive.antt =====
-- The receive stamps of w5500_custom_spi.cpp over sequences of SPI callbacks: the start of a burst, and
-- the frame that a size stamp belongs to.
use esphome_gps_pps_ntp_serv.Base.{
  ℕ, ◌+◌, ◌%◌, ◌≤◌, ◌<◌, ◌≡◌, ◌==◌, ◌&&◌, refl, sym, ap, not, Bool, true, false, ltb, Option, none,
  List, [], ◌∷◌, arith, u16, u32_mod, sub32, if◌then◌else◌, if_elim,
}
use mathlib.Core.Path.{◌∙◌, subst}
use esphome_gps_pps_ntp_serv.TxPatch.{byte_at}
use esphome_gps_pps_ntp_serv.W5500.Link.{Io, now, tick, transfer, bytes_read}
use esphome_gps_pps_ntp_serv.W5500.Driver.{
  Driver, RxTaps, is_reg, s0_reg_read, s0_rxbuf_read, reg_rx_rsr, reg_cr, reg_ir, has_send_ok,
  burst_gap_us,
}
use esphome_gps_pps_ntp_serv.W5500.Reads.{
  note_receive, note_read_transaction, tap_size, tap_poll, tap_sendok, tap_frame, tap_read,
  before_read, spi_read,
}
use esphome_gps_pps_ntp_serv.W5500.Ops.{Op, write, read, run_op, run}
use esphome_gps_pps_ntp_serv.W5500.Stamps.{spi_write-rx}

-- The stamps that the transfer of a read leaves alone.
abbrev pub SameStamps : RxTaps → RxTaps → Type 0
SameStamps rx rx' =
    (rx'.burst_start_us ≡ rx.burst_start_us)
    × (rx'.last_txn_us ≡ rx.last_txn_us)
    × (rx'.size_read_us ≡ rx.size_read_us)
    × (rx'.payloads_since_size_read ≡ rx.payloads_since_size_read)

tap_size-rx :
    (d : Driver) (cmd addr : ℕ) (bytes : List ℕ) (len : ℕ)
    → SameStamps d.rx (tap_size d cmd addr bytes len).rx
unfolding tap_size
tap_size-rx d cmd addr bytes len =
    if_elim (λ (d' : Driver). SameStamps d.rx d'.rx)
      (len == 2 && is_reg addr cmd s0_reg_read reg_rx_rsr) (λ _. (refl, refl, refl, refl))
      λ _. (refl, refl, refl, refl)

tap_poll-rx :
    (io : Io) (d : Driver) (cmd addr : ℕ) (bytes : List ℕ) (len : ℕ)
    → (tap_poll io d cmd addr bytes len).rx ≡ d.rx
unfolding tap_poll
tap_poll-rx io d cmd addr bytes len =
    if_elim (λ (d' : Driver). d'.rx ≡ d.rx) (is_reg addr cmd s0_reg_read reg_cr && len == 1)
      (λ _. refl) λ _. refl

tap_sendok-rx :
    (io : Io) (d : Driver) (cmd addr : ℕ) (bytes : List ℕ) (len : ℕ)
    → (tap_sendok io d cmd addr bytes len).rx ≡ d.rx
unfolding tap_sendok
tap_sendok-rx io d cmd addr bytes len =
    if_elim (λ (d' : Driver). d'.rx ≡ d.rx)
      (is_reg addr cmd s0_reg_read reg_ir
        && len == 1
        && (has_send_ok (byte_at bytes 0) && not (d.tx.sendok_seq == d.tx.send_cmd_seq)))
      (λ _. refl) λ _. refl

tap_frame-rx :
    (io : Io) (d : Driver) (addr : ℕ) (bytes : List ℕ) (len : ℕ)
    → (tap_frame io d addr bytes len).rx ≡ d.rx
unfolding tap_frame
tap_frame-rx io d addr bytes len =
    if_elim (λ (d' : Driver). d'.rx ≡ d.rx) (addr == s0_rxbuf_read && ltb 4 len) (λ _. refl)
      λ _. refl

tap_read-rx :
    (io : Io) (d : Driver) (cmd addr : ℕ) (bytes : List ℕ) (len : ℕ)
    → SameStamps d.rx (tap_read io d cmd addr bytes len).rx
tap_read-rx io d cmd addr bytes len =
    let sized : Driver = tap_size d cmd addr bytes len in
    let polled : Driver = tap_poll io sized cmd addr bytes len in
    let stamped : Driver = tap_sendok io polled cmd addr bytes len in
    let same : (tap_frame io stamped addr bytes len).rx ≡ sized.rx =
      tap_frame-rx io stamped addr bytes len
      ∙ tap_sendok-rx io polled cmd addr bytes len
      ∙ tap_poll-rx io sized cmd addr bytes len in
    subst (SameStamps d.rx) (sym same) (tap_size-rx d cmd addr bytes len)

spi_read-rx :
    (io : Io) (d : Driver) (cmd addr len : ℕ)
    → SameStamps (before_read io d cmd addr len).rx (spi_read io d cmd addr len).0.rx
unfolding spi_read
spi_read-rx io d cmd addr len =
    let d' : Driver = before_read io d cmd addr len in
    let t = transfer io d'.link (u16 cmd) addr none len in
    let d'' : Driver = record d' { link = t.0 } in
    let bytes : List ℕ = bytes_read io d'.link in
    if_elim (λ (r : Driver × Option (List ℕ)). SameStamps d'.rx r.0.rx) (t.1)
      (λ _. tap_read-rx io d'' cmd addr bytes len) λ _. (refl, refl, refl, refl)

-- Each read of the sequence comes at most 500 us after the read before it, by the wrapping clock;
-- writes may come at any time.
abbrev pub Close : Io → Driver → List Op → Type 0
Close io d [] = Unit
Close io d (write cmd addr out len ∷ ops) = Close io (run_op io d (write cmd addr out len)) ops
Close io d (read cmd addr len ∷ ops) =
    (sub32 (now io d.link) d.rx.last_txn_us ≤ burst_gap_us)
    × Close io (run_op io d (read cmd addr len)) ops

burst_kept :
    (io : Io) (d : Driver) (ops : List Op)
    → Close io d ops
    → (run io d ops).rx.burst_start_us ≡ d.rx.burst_start_us
unfolding run run_op note_receive note_read_transaction
burst_kept io d [] c = refl
burst_kept io d (write cmd addr out len ∷ ops) c =
    burst_kept io (run_op io d (write cmd addr out len)) ops c
    ∙ ap RxTaps.burst_start_us (spi_write-rx io d cmd addr out len)
burst_kept io d (read cmd addr len ∷ ops) c =
    ground
      (arith, spi_read-rx io d cmd addr len, burst_kept io (run_op io d (read cmd addr len)) ops)

-- A read more than 500 us after the last one begins a burst. Its time stays the burst's start through
-- any callbacks whose reads follow one another within 500 us, whatever is written among them.
pub burst_start_held :
    (io : Io) (d : Driver) (cmd addr len : ℕ) (ops : List Op)
    → burst_gap_us < sub32 (now io d.link) d.rx.last_txn_us
    → Close io (run_op io d (read cmd addr len)) ops
    → (run io (run_op io d (read cmd addr len)) ops).rx.burst_start_us ≡ now io d.link
unfolding run_op note_receive note_read_transaction
burst_start_held io d cmd addr len ops gap c =
    ground
      (arith, spi_read-rx io d cmd addr len, burst_kept io (run_op io d (read cmd addr len)) ops)

-- The reads of the size register and of a payload.
abbrev pub reads_size : Op → Bool
reads_size (write cmd addr out len) = false
reads_size (read cmd addr len) = is_reg addr cmd s0_reg_read reg_rx_rsr

abbrev pub reads_payload : Op → Bool
reads_payload (write cmd addr out len) = false
reads_payload (read cmd addr len) = addr == s0_rxbuf_read && ltb 4 len

-- The payload reads of a sequence that reads no size.
abbrev pub payloads : List Op → ℕ
payloads [] = 0
payloads (op ∷ ops) = (if reads_payload op then 1 else 0) + payloads ops

abbrev pub NoSize : List Op → Type 0
NoSize [] = Unit
NoSize (op ∷ ops) = (reads_size op ≡ false) × NoSize ops

op_counts :
    (io : Io) (d : Driver) (op : Op)
    → reads_size op ≡ false
    → let rx' = (run_op io d op).rx in
      (rx'.size_read_us ≡ d.rx.size_read_us)
      × (rx'.payloads_since_size_read % u32_mod
          ≡ (d.rx.payloads_since_size_read + (if reads_payload op then 1 else 0)) % u32_mod)
unfolding run_op note_receive note_read_transaction
op_counts io d (write cmd addr out len) h = ground (arith, spi_write-rx io d cmd addr out len)
op_counts io d (read cmd addr len) h = ground (arith, spi_read-rx io d cmd addr len)

run_counts :
    (io : Io) (d : Driver) (ops : List Op)
    → NoSize ops
    → let rx' = (run io d ops).rx in
      (rx'.size_read_us ≡ d.rx.size_read_us)
      × (rx'.payloads_since_size_read % u32_mod
          ≡ (d.rx.payloads_since_size_read + payloads ops) % u32_mod)
unfolding run
run_counts io d [] n = (refl, ground arith)
run_counts io d (op ∷ ops) n = ground (arith, op_counts io d op, run_counts io (run_op io d op) ops)

-- After a read of the size register, and callbacks that do not read it again: the size stamp is that
-- read's time, and the counter is the number of payloads read since, modulo 2^32.
pub size_stamp-payloads :
    (io : Io) (d : Driver) (cmd addr len : ℕ) (ops : List Op)
    → reads_size (read cmd addr len) ≡ true
    → NoSize ops
    → let rx' = (run io (run_op io d (read cmd addr len)) ops).rx in
      (rx'.size_read_us ≡ now io (tick d.link))
      × (rx'.payloads_since_size_read % u32_mod ≡ payloads ops % u32_mod)
unfolding run_op note_receive note_read_transaction
size_stamp-payloads io d cmd addr len ops h n =
    ground
      (arith, spi_read-rx io d cmd addr len, run_counts io (run_op io d (read cmd addr len)) ops)
