-- ===== src/W5500/WireChecksum.antt =====
-- The UDP checksum of a patched reply on the wire: the driver's write and SEND of
-- w5500_custom_spi.cpp together with the incremental update of ntp_tx_patch.h.
use esphome_gps_pps_ntp_serv.Base.{
  ℕ, zero, suc, ◌+◌, ◌-◌, ◌*◌, ◌/◌, ◌%◌, ◌≤◌, ◌<◌, ◌≡◌, ◌⊎◌, inl, inr, ap, sym, true, some, List,
  [], ◌∷◌, length, get_or, take, drop, arith, get_or-take, get_or-drop, length-take, length-drop,
}
use mathlib.Core.Path.{◌∙◌}
use esphome_gps_pps_ntp_serv.TxPatch.{NtpTxPatchPlan, udp_csum_update, byte_at, word_at}
use esphome_gps_pps_ntp_serv.TxPatch.Plan.{
  IsServerReply, ip_hdr_len, reply_plan, planned_iff, plan_offsets,
}
use esphome_gps_pps_ntp_serv.W5500.Link.{Io}
use esphome_gps_pps_ntp_serv.W5500.Patch.{TxPatchFn, csum_bytes}
use esphome_gps_pps_ntp_serv.W5500.Memory.{Memory, after, frame_byte}
use esphome_gps_pps_ntp_serv.W5500.Atomic.{with_t3, with_csum, new_csum}
use esphome_gps_pps_ntp_serv.W5500.Driver.{Driver}
use esphome_gps_pps_ntp_serv.W5500.FrameWrite.{IsReady, write_frame, send}
use esphome_gps_pps_ntp_serv.W5500.OnWire.{plain_byte, sent-patched}
use esphome_gps_pps_ntp_serv.W5500.WireSum.{word_sum, AreBytes, word_sum-update}

-- The bytes of a patched reply.
abbrev pub patched_byte : List ℕ → List ℕ → ℕ → ℕ
patched_byte frame t3 i =
    with_t3 (reply_plan frame) t3 i (with_csum (reply_plan frame) t3 i (byte_at frame i))

take-AreBytes : (n : ℕ) (xs : List ℕ) → AreBytes xs → AreBytes (take n xs)
take-AreBytes zero xs h i = omega arith
take-AreBytes (suc n) [] h i = omega arith
take-AreBytes (suc n) (x ∷ xs) h zero = h 0
take-AreBytes (suc n) (x ∷ xs) h (suc i) = take-AreBytes n xs (λ k. h (suc k)) i

drop-AreBytes : (n : ℕ) (xs : List ℕ) → AreBytes xs → AreBytes (drop n xs)
drop-AreBytes n xs h i = omega (arith, get_or-drop n xs i 0, h (n + i))

module _ (frame t3 : List ℕ) (i : ℕ) where
  abbrev udp : ℕ
  udp = 14 + ip_hdr_len frame

  pub patched_field : i < 8 → patched_byte frame t3 (udp + 48 + i) ≡ get_or t3 i 0
  patched_field lt =
      let e : udp + 48 + i - (udp + 48) ≡ i = omega arith in
      ground (arith, ap (λ k. get_or t3 k 0) e)

  patched_csum :
      0 < word_at frame (udp + 6)
      → let c = new_csum (reply_plan frame) t3 in
        (patched_byte frame t3 (udp + 6) ≡ c / 256) × (patched_byte frame t3 (udp + 7) ≡ c % 256)
  patched_csum present =
      let c : ℕ = new_csum (reply_plan frame) t3 in
      let e0 : udp + 6 - (udp + 6) ≡ 0 = omega arith in
      let e1 : udp + 7 - (udp + 6) ≡ 1 = omega arith in
      let at : ℕ → ℕ = λ k. get_or (csum_bytes c) k 0 in
      (ground (arith, ap at e0), ground (arith, ap at e1))

  -- All other bytes stay.
  patched_other :
      (i < udp + 6) ⊎ (((udp + 8 ≤ i) × (i < udp + 48)) ⊎ (udp + 56 ≤ i))
      → patched_byte frame t3 i ≡ byte_at frame i
  patched_other (inl h) = ground arith
  patched_other (inr (inl h)) = ground arith
  patched_other (inr (inr h)) = ground arith

-- What the update does to the datagram of a reply, byte by byte.
patched-valid :
    (frame t3 : List ℕ) (wire : ℕ → ℕ) (pseudo n : ℕ)
    → let udp = 14 + ip_hdr_len frame in
      28 ≤ n
      → udp + 2 * n ≤ length frame
      → AreBytes frame
      → AreBytes t3
      → length t3 ≡ 8
      → 0 < word_at frame (udp + 6)
      → (pseudo + word_sum (byte_at frame) udp n) % 65535 ≡ 0
      → ((i : ℕ) → i < length frame → wire i ≡ patched_byte frame t3 i)
      → ((pseudo + word_sum wire udp n) % 65535 ≡ 0) × (0 < wire (udp + 6) * 256 + wire (udp + 7))
patched-valid frame t3 wire pseudo n big inside bytes new eight present valid h =
    let udp : ℕ = 14 + ip_hdr_len frame in
    let old : List ℕ = take 8 (drop (udp + 48) frame) in
    let next : udp + 6 + 1 ≡ udp + 7 = omega arith in
    let fields = patched_csum frame t3 0 present in
    let c : ℕ = new_csum (reply_plan frame) t3 in
    let split : wire (udp + 6) * 256 + wire (udp + 7) ≡ c = omega (
      arith,
      h (udp + 6) (omega (arith, inside, big)) ∙ fields.0,
      h (udp + 7) (omega (arith, inside, big)) ∙ fields.1,
    ) in
    let word =
      split
      ∙ ap (λ k. udp_csum_update (byte_at frame (udp + 6) * 256 + byte_at frame k) old t3) next in
    word_sum-update pseudo (byte_at frame) wire udp n old t3 big
      (omega
        (arith, length-take 8 (drop (udp + 48) frame), length-drop (udp + 48) frame, inside, big))
      eight (take-AreBytes 8 (drop (udp + 48) frame) (drop-AreBytes (udp + 48) frame bytes)) new
      (omega (arith, bytes (udp + 6), bytes (udp + 7)))
      (λ i lt.
        sym (get_or-take 8 (drop (udp + 48) frame) i 0 lt ∙ get_or-drop (udp + 48) frame i 0))
      (λ i lt. h (udp + 48 + i) (omega (arith, lt, inside, big)) ∙ patched_field frame t3 i lt) word
      (λ i lt. sym (h i (omega (arith, lt, inside, big)) ∙ patched_other frame t3 i (inl lt)))
      (λ i ge lt.
        sym (h i (omega (arith, lt, inside, big)) ∙ patched_other frame t3 i (inr (inl (ge, lt)))))
      (λ i ge lt. sym (h i (omega (arith, lt, inside)) ∙ patched_other frame t3 i (inr (inr ge))))
      valid

-- The bytes that the ring holds for the chip after a SEND that patched the frame.
pub sent-bytes :
    (io : Io) (m : Memory) (d : Driver) (fn : TxPatchFn) (cmd : ℕ) (frame : List ℕ)
    → IsReady d fn cmd frame
    → (write_frame io d cmd frame).1 ≡ true
    → let sent = send io (write_frame io d cmd frame).0 in
      sent.tx.patched ≡ true
      → IsServerReply frame (length frame) d.tracking.port
        × (t3 : List ℕ) × (fn sent.tx.patch_us ≡ some t3)
        × ((i : ℕ)
            → i < length frame
            → frame_byte (after sent.link.log m) cmd i ≡ patched_byte frame t3 i)
sent-bytes io m d fn cmd frame ready ok patched =
    let sent : Driver = send io (write_frame io d cmd frame).0 in
    let (reply, t3, gave, first) =
      sent-patched io m d fn cmd frame ready ok 0 (omega arith) patched in
    let planned = (planned_iff frame (length frame) d.tracking.port).0.1 reply in
    let plan_is = (plan_offsets frame (length frame) d.tracking.port (omega arith) planned).0 in
    (
      reply,
      t3,
      gave,
      λ i lt.
          let (_, t3', gave', byte) =
            sent-patched io m d fn cmd frame ready ok i (omega (arith, lt, ready.short)) patched in
          let same : t3' ≡ t3 = cc (gave, gave') in
          let plain : plain_byte (after d.link.log m) cmd frame i ≡ byte_at frame i =
            ground arith in
          byte
          ∙ ap
              (λ (p : NtpTxPatchPlan).
                with_t3 p t3' i (with_csum p t3' i (plain_byte (after d.link.log m) cmd frame i)))
              plan_is
          ∙ ap (λ b. with_t3 (reply_plan frame) t3' i (with_csum (reply_plan frame) t3' i b)) plain
          ∙ ap (λ t. patched_byte frame t i) same,
    )

-- A callback that gives eight bytes or nothing is registered, and no frame has been begun since the last
-- SEND or the registration. Then a frame of 14 to 128 bytes goes into the ring by one write, at a 16-bit
-- address, that returns ESP_OK, the SEND follows, and the send stamp says that the frame was patched.
-- Its bytes and those of every T3 of the callback are below 256, and `n` words from the UDP header on,
-- 28 at least, lie in the frame. If the frame had a checksum, and it made the one's-complement sum of
-- these words and of a pseudo-header come out as zero, then so does the checksum of the frame that the
-- ring then holds for the chip, and it is not the 0 that means none.
pub sent-checksum_valid :
    (io : Io) (m : Memory) (d : Driver) (fn : TxPatchFn) (cmd : ℕ) (frame : List ℕ) (pseudo n : ℕ)
    → IsReady d fn cmd frame
    → (write_frame io d cmd frame).1 ≡ true
    → let sent = send io (write_frame io d cmd frame).0 in
      let wire = frame_byte (after sent.link.log m) cmd in
      let udp = 14 + ip_hdr_len frame in
      sent.tx.patched ≡ true
      → AreBytes frame
      → ((us : ℕ) (t3 : List ℕ) → fn us ≡ some t3 → AreBytes t3)
      → 28 ≤ n
      → udp + 2 * n ≤ length frame
      → 0 < word_at frame (udp + 6)
      → (pseudo + word_sum (byte_at frame) udp n) % 65535 ≡ 0
      → ((pseudo + word_sum wire udp n) % 65535 ≡ 0) × (0 < wire (udp + 6) * 256 + wire (udp + 7))
sent-checksum_valid io m d fn cmd frame pseudo n ready ok patched bytes gives big inside present
      valid =
    let sent : Driver = send io (write_frame io d cmd frame).0 in
    let (_, t3, gave, byte) = sent-bytes io m d fn cmd frame ready ok patched in
    patched-valid frame t3 (frame_byte (after sent.link.log m) cmd) pseudo n big inside bytes
      (gives sent.tx.patch_us t3 gave) (ready.eight sent.tx.patch_us t3 gave) present valid byte
