-- ===== src/NtpServer/Setup/Wire.antt =====
-- The first reply of a server that `setup` has started, from its clocks to the chip's memory: `setup` and
-- `build_patch_t3_` of ntp_server.cpp with the SPI driver of w5500_custom_spi.cpp.
use esphome_gps_pps_ntp_serv.Base.{
  ℕ, ◌+◌, ◌*◌, ◌%◌, ◌≤◌, ◌<◌, ◌≡◌, refl, ap, true, false, some, List, length, get_or, arith,
}
use mathlib.Core.Path.{◌∙◌, subst}
use esphome_gps_pps_ntp_serv.TxPatch.{byte_at, word_at}
use esphome_gps_pps_ntp_serv.TxPatch.Plan.{IsServerReply, ip_hdr_len}
use esphome_gps_pps_ntp_serv.W5500.Link.{Io}
use esphome_gps_pps_ntp_serv.W5500.Memory.{Memory, after, frame_byte}
use esphome_gps_pps_ntp_serv.W5500.Patch.{Tracking, set_tx_patch}
use esphome_gps_pps_ntp_serv.W5500.Driver.{Driver}
use esphome_gps_pps_ntp_serv.W5500.Reads.{register_tx_patch}
use esphome_gps_pps_ntp_serv.W5500.FrameWrite.{IsReady, write_frame, send}
use esphome_gps_pps_ntp_serv.W5500.WireSum.{word_sum, AreBytes}
use esphome_gps_pps_ntp_serv.W5500.WireChecksum.{sent-bytes, patched_field, sent-checksum_valid}
use esphome_gps_pps_ntp_serv.NtpServer.Setup.{PatchReads, SetupIo, tx_patch_trampoline, setup}
use esphome_gps_pps_ntp_serv.NtpServer.Setup.Start.{setup-IsStarted, tx_patch_trampoline-bytes}

module _ (d : Driver) (reads : ℕ → PatchReads) (port : ℕ) (io : SetupIo) where
  abbrev pub started : Driver
  started = (setup d reads port io).driver

  started-tracking :
      io.socket_ok ≡ true
      → io.bind_ok ≡ true
      → started.tracking ≡ set_tx_patch d.tracking (some (tx_patch_trampoline reads)) port
  unfolding register_tx_patch
  started-tracking opened bound =
      let (failed, _, driver, _, _) = setup-IsStarted d reads port io in
      let up : (setup d reads port io).failed ≡ false = ground arith in
      let same : started ≡ register_tx_patch d (some (tx_patch_trampoline reads)) port =
        driver ∙ rw up refl in
      ap (λ (e : Driver). e.tracking) same

  started-IsReady :
      (cmd : ℕ) (frame : List ℕ)
      → io.socket_ok ≡ true
      → io.bind_ok ≡ true
      → 14 ≤ length frame
      → length frame ≤ 128
      → cmd < 65536
      → IsReady started (tx_patch_trampoline reads) cmd frame
  unfolding set_tx_patch
  started-IsReady cmd frame opened bound long short address =
      let now = started-tracking opened bound in
      record {
        registered = ap (λ (t : Tracking). t.fn) now;
        between = ap (λ (t : Tracking). t.frame_started) now;
        long = long;
        short = short;
        address = address;
        eight = λ us t3 e. (tx_patch_trampoline-bytes reads us t3 e).0;
      }

  -- After a `setup` that had its socket, a first reply of 14 to 128 bytes is written into the ring by a
  -- write that returns ESP_OK, the SEND follows, and its stamp says that the frame was patched. The
  -- frame's bytes are below 256, and it had a checksum that was right for the 28 words or more of its
  -- datagram and a pseudo-header. Then the frame is a reply from the server's port, the server was
  -- synchronized at the stamp's patch time, the frame in the chip's memory carries as its transmit
  -- timestamp the eight bytes that the callback gave then, and its checksum is right and not 0.
  pub started-reply_valid :
      (bus : Io) (m : Memory) (cmd : ℕ) (frame : List ℕ) (pseudo n : ℕ)
      → io.socket_ok ≡ true
      → io.bind_ok ≡ true
      → 14 ≤ length frame
      → length frame ≤ 128
      → cmd < 65536
      → (write_frame bus started cmd frame).1 ≡ true
      → let sent = send bus (write_frame bus started cmd frame).0 in
        let wire = frame_byte (after sent.link.log m) cmd in
        let udp = 14 + ip_hdr_len frame in
        sent.tx.patched ≡ true
        → AreBytes frame
        → 28 ≤ n
        → udp + 2 * n ≤ length frame
        → 0 < word_at frame (udp + 6)
        → (pseudo + word_sum (byte_at frame) udp n) % 65535 ≡ 0
        → IsServerReply frame (length frame) port
          × ((reads sent.tx.patch_us).synchronized ≡ true)
          × ((t3 : List ℕ) × (tx_patch_trampoline reads sent.tx.patch_us ≡ some t3)
              × ((i : ℕ) → i < 8 → wire (udp + 48 + i) ≡ get_or t3 i 0))
          × ((pseudo + word_sum wire udp n) % 65535 ≡ 0)
          × (0 < wire (udp + 6) * 256 + wire (udp + 7))
  unfolding set_tx_patch
  started-reply_valid bus m cmd frame pseudo n opened bound long short address ok patched bytes big
        inside present valid =
      let fn = tx_patch_trampoline reads in
      let ready = started-IsReady cmd frame opened bound long short address in
      let (reply, t3, gave, byte) = sent-bytes bus m started fn cmd frame ready ok patched in
      let sum =
        sent-checksum_valid bus m started fn cmd frame pseudo n ready ok patched bytes
          (λ us t e. (tx_patch_trampoline-bytes reads us t e).1) big inside present valid in
      (
        subst (IsServerReply frame (length frame))
            (ap (λ (t : Tracking). t.port) (started-tracking opened bound)) reply,
        (tx_patch_trampoline-bytes reads
            (send bus (write_frame bus started cmd frame).0).tx.patch_us t3 gave).2,
        (
          t3,
          gave,
          λ i lt. byte (14 + ip_hdr_len frame + 48 + i) (omega arith) ∙ patched_field frame t3 i lt,
        ),
        sum.0,
        sum.1,
      )
