-- ===== src/NtpServer/Setup/Tests.antt =====
-- A server that is set up, and its first reply, on a concrete bus.
use esphome_gps_pps_ntp_serv.Base.{
  ℕ, ◌+◌, ◌*◌, ◌%◌, ◌<◌, ◌≡◌, ◌++◌, refl, true, some, List, [], ◌∷◌, length, get_or, replicate, pos,
  neg, arith,
}
use esphome_gps_pps_ntp_serv.TxPatch.{
  plan_ntp_tx_patch, plan_udp, plan_ring_writes, udp_csum_update, add_words, fold_carry, byte_at,
}
use esphome_gps_pps_ntp_serv.TxPatch.Plan.{IsServerReply}
use esphome_gps_pps_ntp_serv.W5500.Link.{Io, initial_link, record_frame, transfer}
use esphome_gps_pps_ntp_serv.W5500.Memory.{after, frame_byte}
use esphome_gps_pps_ntp_serv.W5500.Recorder.{initial_recorder, net_record_frame}
use esphome_gps_pps_ntp_serv.W5500.Patch.{
  set_tx_patch, track_write, patch_send, patch_frame, patch_csum, patch_write_ring, patch_writes,
}
use esphome_gps_pps_ntp_serv.W5500.Driver.{
  Driver, initial_driver, spi_write, note_tx_frame, write_command, note_send,
}
use esphome_gps_pps_ntp_serv.W5500.Reads.{register_tx_patch}
use esphome_gps_pps_ntp_serv.W5500.FrameWrite.{write_frame, send}
use esphome_gps_pps_ntp_serv.W5500.WireSum.{word_sum, EachByte-AreBytes}
use esphome_gps_pps_ntp_serv.NtpServer.Timestamp.{build_patch_t3}
use esphome_gps_pps_ntp_serv.NtpServer.Setup.{
  PatchReads, SetupIo, tx_patch_trampoline, set_post_write_t3, best_us, precision_from, setup,
}
use esphome_gps_pps_ntp_serv.NtpServer.Setup.Start.{IsStarted, setup-IsStarted}
use esphome_gps_pps_ntp_serv.NtpServer.Setup.Wire.{started, started-reply_valid}

abbrev clocks : PatchReads
clocks = record {
  synchronized = true;
  use_pps_anchor = true;
  chip_latency = true;
  delay_us = pos 60;
  esp_now_us = pos 1100;
  clocks = record {
    anchor = some (record { epoch = pos 1800000000; micros = 1000; drift_ppb = neg 9000 });
    clock_us = pos 1110;
    tv_sec = pos 1800000000;
    tv_usec = pos 200050;
    now_us = pos 1120;
  };
}

abbrev reads : ℕ → PatchReads
reads now_us = clocks

-- Reads that cost 3 us and more, or nothing.
abbrev quiet : SetupIo
quiet = record {
  socket_ok = true;
  bind_ok = true;
  has_netif = true;
  input_path_ok = true;
  clock_reads = pos 0 ∷ pos 4 ∷ pos 3 ∷ neg 2 ∷ [];
  anchor_reads = pos 0 ∷ pos 0 ∷ [];
}

setup-IsStarted_example :
    IsStarted initial_driver reads 123 quiet (setup initial_driver reads 123 quiet)
setup-IsStarted_example = setup-IsStarted initial_driver reads 123 quiet

-- 2^-18 s is not below 3 us, and 2^-19 s is not below 1 us.
measured :
    ((setup initial_driver reads 123 quiet).precision ≡ 18)
    × ((setup initial_driver reads 123 quiet).precision_anchor ≡ 19)
unfolding setup best_us precision_from
measured = (refl, refl)

-- A reply from port 123: Ethernet header, a 20-byte IPv4 header, UDP header, 48 bytes of NTP.
abbrev reply : List ℕ
reply =
    replicate 12 2
    ++ (0x08 ∷ 0x00 ∷ 0x45 ∷ replicate 8 0)
    ++ (17 ∷ replicate 10 0)
    ++ (0 ∷ 123 ∷ 4 ∷ 210 ∷ 0 ∷ 56 ∷ 0xab ∷ 0xcd ∷ [])
    ++ (0x24 ∷ replicate 39 7)
    ++ (1 ∷ 2 ∷ 3 ∷ 4 ∷ 5 ∷ 6 ∷ 7 ∷ 8 ∷ [])

abbrev bus : Io
bus = record {
  micros = λ n. 1000 + n * 10;
  lock = λ n. true;
  result = λ n. true;
  read = λ n. 0x10 ∷ [];
}

abbrev server : Driver
server = started initial_driver reads 123 quiet

written : (write_frame bus server 16300 reply).1 ≡ true
unfolding setup set_post_write_t3 initial_driver initial_link initial_recorder register_tx_patch
    set_tx_patch spi_write note_tx_frame record_frame net_record_frame transfer
written = refl

patched : (send bus (write_frame bus server 16300 reply).0).tx.patched ≡ true
unfolding setup set_post_write_t3 initial_driver initial_link initial_recorder register_tx_patch
    set_tx_patch spi_write note_tx_frame record_frame net_record_frame transfer track_write
    write_command note_send patch_send patch_frame patch_csum patch_write_ring patch_writes
    plan_ring_writes plan_ntp_tx_patch plan_udp udp_csum_update add_words fold_carry
    tx_patch_trampoline build_patch_t3
patched = refl

reply_sum : (38156 + word_sum (byte_at reply) 34 28) % 65535 ≡ 0
unfolding word_sum
reply_sum = refl

-- The frame's checksum is right with a pseudo-header of that sum.
started-reply_valid_example :
    let sent = send bus (write_frame bus server 16300 reply).0 in
    let wire = frame_byte (after sent.link.log (λ c. 0)) 16300 in
    IsServerReply reply (length reply) 123
    × ((reads sent.tx.patch_us).synchronized ≡ true)
    × ((t3 : List ℕ) × (tx_patch_trampoline reads sent.tx.patch_us ≡ some t3)
        × ((i : ℕ) → i < 8 → wire (34 + 48 + i) ≡ get_or t3 i 0))
    × ((38156 + word_sum wire 34 28) % 65535 ≡ 0)
    × (0 < wire 40 * 256 + wire 41)
started-reply_valid_example =
    started-reply_valid initial_driver reads 123 quiet bus (λ c. 0) 16300 reply 38156 28 refl refl
      (omega arith) (omega arith) (omega arith) written patched
      (EachByte-AreBytes reply (omega arith)) (omega arith) (omega arith) (omega arith) reply_sum
