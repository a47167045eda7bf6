-- ===== src/W5500/OnWire.antt =====
-- A frame from the driver's write of it into the TX buffer to its SEND, in w5500_custom_spi.cpp: what
-- the chip then transmits.
use esphome_gps_pps_ntp_serv.Base.{
  ℕ, suc, ◌+◌, ◌%◌, ◌≤◌, ◌<◌, ◌≡◌, refl, ap, sym, true, false, ltb, some, List, length, get_or,
  arith, if◌then◌else◌,
}
use mathlib.Core.Path.{◌∙◌}
use esphome_gps_pps_ntp_serv.TxPatch.{NtpTxPatchPlan, plan_ntp_tx_patch}
use esphome_gps_pps_ntp_serv.TxPatch.Plan.{IsServerReply}
use esphome_gps_pps_ntp_serv.W5500.Link.{Io, Link, tick}
use esphome_gps_pps_ntp_serv.W5500.Patch.{Tracking, TxPatchFn, patch_send}
use esphome_gps_pps_ntp_serv.W5500.Memory.{
  Memory, ring_size, after, put_bytes, frame_byte, put_bytes-frame_byte,
}
use esphome_gps_pps_ntp_serv.W5500.Atomic.{with_t3, with_csum}
use esphome_gps_pps_ntp_serv.W5500.PatchSend.{
  IsTracked, done_at, patch_send-patched, patch_send-unpatched,
}
use esphome_gps_pps_ntp_serv.W5500.Driver.{Driver}
use esphome_gps_pps_ntp_serv.W5500.FrameWrite.{
  IsReady, write_frame, send, tracked, write_frame-tracking, write_frame-after, send-after,
}

-- The byte of the frame that was written.
abbrev pub plain_byte : Memory → ℕ → List ℕ → ℕ → ℕ
plain_byte m cmd frame i = if ltb i (length frame) then get_or frame i 0 else frame_byte m cmd i

put_byte :
    (m : Memory) (cmd : ℕ) (frame : List ℕ) (i : ℕ)
    → length frame ≤ 128
    → i < ring_size
    → frame_byte (put_bytes m cmd frame) cmd i ≡ plain_byte m cmd frame i
put_byte m cmd frame i short in_ring =
    ap (λ a. frame_byte (put_bytes m a frame) cmd i) (omega arith)
    ∙ put_bytes-frame_byte frame m cmd 0 i (omega arith) in_ring
    ∙ ground arith

-- The tracked state after the frame's write: what lies in the ring is the frame.
write_frame-IsTracked :
    (io : Io) (m : Memory) (d : Driver) (fn : TxPatchFn) (cmd : ℕ) (frame : List ℕ)
    → IsReady d fn cmd frame
    → (write_frame io d cmd frame).1 ≡ true
    → IsTracked m (tick (write_frame io d cmd frame).0.link) (tracked d fn cmd frame) fn
write_frame-IsTracked io m d fn cmd frame h ok =
    let lies = write_frame-after io m d cmd frame h.long h.address ok in
    record {
      registered = refl;
      started = refl;
      short = h.short;
      held = λ i below.
          ap (λ (mem : Memory). frame_byte mem cmd i) lies
          ∙ put_byte (after d.link.log m) cmd frame i h.short (omega (arith, below, h.short))
          ∙ ground (arith, below);
      eight = h.eight;
    }

module _ (io : Io) (m : Memory) (d : Driver) (fn : TxPatchFn) (cmd : ℕ) (frame : List ℕ)
    (ready : IsReady d fn cmd frame) (ok : (write_frame io d cmd frame).1 ≡ true) (i : ℕ)
    (in_ring : i < ring_size) where
  abbrev pub sent : Driver
  sent = send io (write_frame io d cmd frame).0

  abbrev pub plan : NtpTxPatchPlan
  plan = plan_ntp_tx_patch (some frame) (length frame) d.tracking.port

  abbrev tracking : Tracking
  tracking = tracked d fn cmd frame

  abbrev link : Link
  link = tick (write_frame io d cmd frame).0.link

  -- What the SEND gives in terms of the patch.
  sent_lem :
      let (l', us, patched) = patch_send io link tracking in
      (after sent.link.log m ≡ after l'.log m)
      × (sent.tx.patched ≡ patched)
      × (sent.tx.patch_us ≡ us)
      × (frame_byte (after link.log m) cmd i ≡ plain_byte (after d.link.log m) cmd frame i)
  sent_lem =
      let d1 : Driver = (write_frame io d cmd frame).0 in
      let s = send-after io m d1 in
      let e : patch_send io link d1.tracking ≡ patch_send io link tracking =
        ap (patch_send io link) (write_frame-tracking io d fn cmd frame ready) in
      (
        s.0 ∙ ap (λ r. after r.0.log m) e,
        s.1 ∙ ap (λ r. r.2) e,
        s.2 ∙ ap (λ r. r.1) e,
        ap (λ (mem : Memory). frame_byte mem cmd i)
              (write_frame-after io m d cmd frame ready.long ready.address ok)
            ∙ put_byte (after d.link.log m) cmd frame i ready.short in_ring,
      )

  -- A callback that gives eight bytes or nothing is registered, and no frame has been begun since the
  -- last SEND or the registration. Then a frame of 14 to 128 bytes goes into the ring by one write, at
  -- a 16-bit address, that returns ESP_OK, and the SEND follows. If the send stamp then says that it
  -- was patched, the frame is a server reply from the registered port, and the ring holds it with the
  -- T3 that the callback gave for the stamp's patch time and, if it has a checksum, the updated one;
  -- all other bytes of the ring are as they were after that write.
  pub sent-patched :
      sent.tx.patched ≡ true
      → IsServerReply frame (length frame) d.tracking.port
        × (t3 : List ℕ) × (fn sent.tx.patch_us ≡ some t3)
        × (frame_byte (after sent.link.log m) cmd i
            ≡ with_t3 plan t3 i (with_csum plan t3 i (plain_byte (after d.link.log m) cmd frame i)))
  sent-patched p =
      let (ring, flag, us, plain) = sent_lem in
      let held = write_frame-IsTracked io m d fn cmd frame ready ok in
      let (reply, t3, gave, byte) =
        patch_send-patched io m link tracking fn held i in_ring (sym flag ∙ p) in
      (
        reply,
        t3,
        ap fn us ∙ gave,
        ap (λ (mem : Memory). frame_byte mem cmd i) ring
            ∙ byte
            ∙ ap (λ b. with_t3 plan t3 i (with_csum plan t3 i b)) plain,
      )

  -- A callback that gives eight bytes or nothing is registered, and no frame has been begun since the
  -- last SEND or the registration. Then a frame of 14 to 128 bytes goes into the ring by one write, at
  -- a 16-bit address, that returns ESP_OK, and the SEND follows. The frame does not cross the ring's
  -- end, and of two transfers in a row one returns ESP_OK. If the send stamp then says that the frame
  -- was not patched, the ring holds the frame as it was written, and is elsewhere as before.
  pub sent-unpatched :
      cmd % ring_size + length frame ≤ ring_size
      → ((n : ℕ) → done_at io n ≡ false → done_at io (suc n) ≡ true)
      → sent.tx.patched ≡ false
      → frame_byte (after sent.link.log m) cmd i ≡ plain_byte (after d.link.log m) cmd frame i
  sent-unpatched u reliable p =
      let (ring, flag, us, plain) = sent_lem in
      let held = write_frame-IsTracked io m d fn cmd frame ready ok in
      ap (λ (mem : Memory). frame_byte mem cmd i) ring
      ∙ patch_send-unpatched io m link tracking fn held i in_ring (omega (arith, u)) reliable
          (sym flag ∙ p)
      ∙ plain
