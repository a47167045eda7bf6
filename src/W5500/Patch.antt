-- ===== src/W5500/Patch.antt =====
-- The rewrite of T3 in a frame that lies in the W5500's TX buffer, in w5500_custom_spi.cpp: the
-- tracking of the outgoing frame, `patch_write_ring`, and the part of `w5500_custom_spi_write` that
-- patches before a SEND.
use esphome_gps_pps_ntp_serv.Base.{
  ℕ, ◌-◌, ◌%◌, ◌/◌, ◌&&◌, Bool, true, false, Option, none, some, List, [], ◌∷◌, ◌++◌, length, take,
  drop, min, u16, if◌then◌else◌,
}
use esphome_gps_pps_ntp_serv.TxPatch.{
  NtpTxPatchPlan, RingWrite, plan_ntp_tx_patch, plan_ring_writes, udp_csum_update,
}
use esphome_gps_pps_ntp_serv.W5500.Link.{Io, Link, tick, now, transfer}

-- `W5500TxPatchFn` with its context: the time, and the eight bytes of the new T3 if it is to be
-- written.
abbrev pub TxPatchFn : Type 0
TxPatchFn = ℕ → Option (List ℕ)

-- The `g_tx_patch_` variables; `hdr` holds the first `g_tx_patch_hdr_len` bytes of the buffer.
pub record Tracking : Type 0 where
  pub fn : Option TxPatchFn
  pub port : ℕ  -- uint16_t
  pub hdr : List ℕ
  pub frame_start : ℕ  -- uint16_t
  pub frame_started : Bool

abbrev pub no_tracking : Tracking
no_tracking = record { fn = none; port = 0; hdr = []; frame_start = 0; frame_started = false }

-- `w5500_set_tx_patch`
unfoldable pub set_tx_patch : Tracking → Option TxPatchFn → ℕ → Tracking
set_tx_patch t fn server_port = record t {
  fn = fn;
  port = server_port;
  hdr = [];
  frame_started = false;
}

-- W5500_TX_PATCH_HDR_MAX
abbrev pub tx_patch_hdr_max : ℕ
tx_patch_hdr_max = 128

-- The bytes added to `hdr` by a write of `len` bytes.
abbrev pub append_hdr : Tracking → List ℕ → ℕ → Tracking
append_hdr t bytes len = record t {
  hdr = t.hdr ++ take (min len (tx_patch_hdr_max - length t.hdr)) bytes;
}

abbrev pub start_frame : Tracking → ℕ → Tracking
start_frame t cmd =
    if t.frame_started
    then t
    else record t { frame_start = u16 cmd; hdr = []; frame_started = true }

-- The tracking of a write of a frame into the TX buffer.
unfoldable pub track_write : Tracking → ℕ → List ℕ → ℕ → Tracking
track_write t cmd bytes len = elim t.fn [
  | none ↦ t
  | some fn ↦ append_hdr (start_frame t cmd) bytes len
]

-- .. and its end at a SEND.
abbrev pub reset_tracking : Tracking → Tracking
reset_tracking t = record t { frame_started = false; hdr = [] }

-- W5500_CTRL_S0_TXBUF_WRITE
abbrev pub txbuf_write : ℕ
txbuf_write = 0x14

abbrev pub csum_bytes : ℕ → List ℕ
csum_bytes csum = csum / 256 ∷ (csum % 256) ∷ []

module _ (io : Io) where
  -- The `for` loop over the planned writes; all are made, also after one has failed.
  unfoldable pub patch_writes : Link → List RingWrite → List ℕ → Link × Bool
  patch_writes l [] src = (l, true)
  patch_writes l (w ∷ writes) src =
      let (l', done) = transfer io l w.addr txbuf_write (some (drop w.src src)) w.len in
      let (l'', all) = patch_writes l' writes src in (l'', done && all)

  unfoldable pub patch_write_ring : Link → ℕ → ℕ → List ℕ → ℕ → Link × Bool
  patch_write_ring l frame_start rel_off src n =
      patch_writes l (plan_ring_writes frame_start rel_off n) src

  -- The write of the checksum, and of the old T3 again if that fails.
  unfoldable pub patch_csum : Link → ℕ → NtpTxPatchPlan → List ℕ → Link × Bool
  patch_csum l frame_start plan t3 =
      let csum = udp_csum_update plan.old_csum plan.old_t3 t3 in
      let (l', done) = patch_write_ring l frame_start plan.csum_off (csum_bytes csum) 2 in
      if done
      then (l', true)
      else ((patch_write_ring l' frame_start plan.t3_off plan.old_t3 8).0, false)

  -- The writes for a new T3, and whether the frame counts as patched.
  unfoldable pub patch_frame : Link → ℕ → NtpTxPatchPlan → List ℕ → Link × Bool
  patch_frame l frame_start plan t3 =
      let (l', done) = patch_write_ring l frame_start plan.t3_off t3 8 in
      if done && plan.csum_present then patch_csum l' frame_start plan t3 else (l', done)

  abbrev pub apply_patch : Link → Tracking → NtpTxPatchPlan → ℕ → Option (List ℕ) → Link × ℕ × Bool
  apply_patch l t plan patch_us none = (l, patch_us, false)
  apply_patch l t plan patch_us (some t3) =
      let (l', patched) = patch_frame l t.frame_start plan t3 in (l', patch_us, patched)

  -- The patch before a SEND: the time of the callback, or 0, and `patched`.
  unfoldable pub patch_send : Link → Tracking → Link × ℕ × Bool
  patch_send l t = elim t.fn [
    | none ↦ (l, 0, false)
    | some fn ↦
        let plan = plan_ntp_tx_patch (some t.hdr) (length t.hdr) t.port in
        if t.frame_started && plan.planned
        then apply_patch (tick l) t plan (now io l) (fn (now io l))
        else (l, 0, false)
  ]
