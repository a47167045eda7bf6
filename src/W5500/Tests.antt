-- ===== src/W5500/Tests.antt =====
-- The SPI callbacks on a concrete reply frame, and the theorems about them at concrete inputs.
use esphome_gps_pps_ntp_serv.Base.{
  ◌<◌, ℕ, ◌≡◌, ◌+◌, ◌*◌, ◌%◌, ◌/◌, refl, some, List, [], ◌∷◌, ◌++◌, replicate, Bool, true, false,
  arith, suc, not, ◌==◌, u32, u32_mod,
}
use esphome_gps_pps_ntp_serv.TxPatch.{
  plan_ntp_tx_patch, plan_udp, plan_ring_writes, udp_csum_update, add_words, fold_carry, byte_at,
}
use esphome_gps_pps_ntp_serv.TxPatch.Plan.{IsServerReply, planned_iff}
use esphome_gps_pps_ntp_serv.W5500.Classify.{classify_frame}
use esphome_gps_pps_ntp_serv.W5500.Recorder.{
  restart, net_bin_now, set_net_recorder, initial_recorder, net_record_frame,
}
use esphome_gps_pps_ntp_serv.W5500.Sliding.{Slides, restart-IsRing, net_bin_now-Slides}
use esphome_gps_pps_ntp_serv.W5500.Command.{
  Handshake, CmdStats, Event, no_handshake, note_command, note_poll, note_cleared, take_cmd_stats,
  poll_all, accounted, open_command, handshake_counted, run-accounted,
}
use esphome_gps_pps_ntp_serv.W5500.Command
use esphome_gps_pps_ntp_serv.W5500.Link.{Io, initial_link, now, record_frame, transfer}
use esphome_gps_pps_ntp_serv.W5500.Patch.{
  TxPatchFn, set_tx_patch, track_write, patch_writes, patch_write_ring, patch_csum, patch_frame,
  patch_send,
}
use esphome_gps_pps_ntp_serv.W5500.Memory.{Memory, after, frame_byte}
use esphome_gps_pps_ntp_serv.W5500.Atomic.{with_t3, with_csum}
use esphome_gps_pps_ntp_serv.W5500.PatchSend.{done_at}
use esphome_gps_pps_ntp_serv.W5500.Driver.{
  Driver, initial_driver, note_send, write_command, note_tx_frame, spi_write,
}
use esphome_gps_pps_ntp_serv.W5500.Reads.{
  register_tx_patch, spi_read, note_receive, note_read_transaction, tap_size, tap_poll, tap_sendok,
  tap_frame, send_stamp,
}
use esphome_gps_pps_ntp_serv.W5500.FrameWrite.{IsReady, write_frame, send}
use esphome_gps_pps_ntp_serv.W5500.OnWire.{plain_byte, sent-patched, sent-unpatched}
use esphome_gps_pps_ntp_serv.W5500.WireSum.{word_sum, AreBytes, EachByte-AreBytes}
use esphome_gps_pps_ntp_serv.W5500.WireChecksum.{sent-checksum_valid}
use mathlib.Core.Path.{subst}
use esphome_gps_pps_ntp_serv.W5500.Counts.{Call, IsRecorder, perform, perform-IsRecorder}
use esphome_gps_pps_ntp_serv.W5500.Ops.{Op, run_op, run}
use esphome_gps_pps_ntp_serv.W5500.Pairing.{send_stamp-frame, sendok_once}
use esphome_gps_pps_ntp_serv.W5500.Receive.{burst_start_held}

-- A reply from port 123: Ethernet header, a 20-byte IPv4 header, UDP header, 48 bytes of NTP.
abbrev reply : List ℕ
reply =
    replicate 12 2
    ++ (0x08 ∷ 0x00 ∷ 0x45 ∷ replicate 8 0)
    ++ (17 ∷ replicate 10 0)
    ++ (0 ∷ 123 ∷ 4 ∷ 210 ∷ 0 ∷ 56 ∷ 0xab ∷ 0xcd ∷ [])
    ++ (0x24 ∷ replicate 39 7)
    ++ (1 ∷ 2 ∷ 3 ∷ 4 ∷ 5 ∷ 6 ∷ 7 ∷ 8 ∷ [])

-- A clock of ten microseconds a reading; `results` are the transfers' results.
abbrev bus : (ℕ → Bool) → Io
bus results = record {
  micros = λ n. 1000 + n * 10;
  lock = λ n. true;
  result = results;
  read = λ n. 0x10 ∷ [];
}

abbrev good : Io
good = bus (λ n. true)

abbrev stamp : TxPatchFn
stamp us = some (9 ∷ 9 ∷ 9 ∷ 9 ∷ 0 ∷ 0 ∷ (us / 256 % 256) ∷ (us % 256) ∷ [])

idle : Driver
unfolding initial_driver initial_link initial_recorder register_tx_patch set_tx_patch
idle = register_tx_patch initial_driver (some stamp) 123

idle-IsReady : IsReady idle stamp 16300 reply
unfolding idle initial_driver initial_link initial_recorder register_tx_patch set_tx_patch
idle-IsReady = record {
  registered = refl;
  between = refl;
  long = omega arith;
  short = omega arith;
  address = omega arith;
  eight = λ us t3 e. ground arith;
}

abbrev blank : Memory
blank = λ c. 0

frame_written : (write_frame good idle 16300 reply).1 ≡ true
unfolding idle initial_driver initial_link initial_recorder register_tx_patch set_tx_patch spi_write
    note_tx_frame record_frame net_record_frame transfer
frame_written = refl

frame_patched : (send good (write_frame good idle 16300 reply).0).tx.patched ≡ true
unfolding idle initial_driver initial_link initial_recorder register_tx_patch set_tx_patch spi_write
    note_tx_frame record_frame net_record_frame transfer track_write write_command note_send
    patch_send patch_frame patch_csum patch_write_ring patch_writes plan_ring_writes
    plan_ntp_tx_patch plan_udp udp_csum_update add_words fold_carry
frame_patched = refl

-- The frame starts near the end of the ring, so that its T3 straddles it.
sent-patched_example :
    let d = send good (write_frame good idle 16300 reply).0 in
    let p = plan_ntp_tx_patch (some reply) 90 idle.tracking.port in
    IsServerReply reply 90 idle.tracking.port
    × (t3 : List ℕ) × (stamp d.tx.patch_us ≡ some t3)
    × (frame_byte (after d.link.log blank) 16300 84
        ≡ with_t3 p t3 84
            (with_csum p t3 84 (plain_byte (after idle.link.log blank) 16300 reply 84)))
sent-patched_example =
    sent-patched good blank idle stamp 16300 reply idle-IsReady frame_written 84 (omega arith)
      frame_patched

stamp-AreBytes : (us : ℕ) (t3 : List ℕ) → stamp us ≡ some t3 → AreBytes t3
stamp-AreBytes us t3 e =
    let stamped = 9 ∷ 9 ∷ 9 ∷ 9 ∷ 0 ∷ 0 ∷ (us / 256 % 256) ∷ (us % 256) ∷ [] in
    let same : stamped ≡ t3 = cc e in subst AreBytes same (EachByte-AreBytes stamped (omega arith))

reply_sum : (38156 + word_sum (byte_at reply) 34 28) % 65535 ≡ 0
unfolding word_sum
reply_sum = refl

-- The same frame, whose checksum is right with a pseudo-header of that sum.
sent-checksum_valid_example :
    let d = send good (write_frame good idle 16300 reply).0 in
    let wire = frame_byte (after d.link.log blank) 16300 in
    ((38156 + word_sum wire 34 28) % 65535 ≡ 0) × (0 < wire 40 * 256 + wire 41)
sent-checksum_valid_example =
    sent-checksum_valid good blank idle stamp 16300 reply 38156 28 idle-IsReady frame_written
      frame_patched (EachByte-AreBytes reply (omega arith)) stamp-AreBytes (omega arith)
      (omega arith) (omega arith) reply_sum

-- A bus whose third transfer, the write of the checksum, fails.
abbrev flaky : Io
flaky = bus (λ n. not (n == 2))

flaky_reliable : (n : ℕ) → done_at flaky n ≡ false → done_at flaky (suc n) ≡ true
flaky_reliable n h = ground arith

idle_low-IsReady : IsReady idle stamp 256 reply
unfolding idle initial_driver initial_link initial_recorder register_tx_patch set_tx_patch
idle_low-IsReady = record {
  registered = refl;
  between = refl;
  long = omega arith;
  short = omega arith;
  address = omega arith;
  eight = λ us t3 e. ground arith;
}

low_written : (write_frame flaky idle 256 reply).1 ≡ true
unfolding idle initial_driver initial_link initial_recorder register_tx_patch set_tx_patch spi_write
    note_tx_frame record_frame net_record_frame transfer
low_written = refl

low_unpatched : (send flaky (write_frame flaky idle 256 reply).0).tx.patched ≡ false
unfolding idle initial_driver initial_link initial_recorder register_tx_patch set_tx_patch spi_write
    note_tx_frame record_frame net_record_frame transfer track_write write_command note_send
    patch_send patch_frame patch_csum patch_write_ring patch_writes plan_ring_writes
    plan_ntp_tx_patch plan_udp udp_csum_update add_words fold_carry
low_unpatched = refl

sent-unpatched_example :
    let d = send flaky (write_frame flaky idle 256 reply).0 in
    frame_byte (after d.link.log blank) 256 84 ≡ plain_byte (after idle.link.log blank) 256 reply 84
sent-unpatched_example =
    sent-unpatched flaky blank idle stamp 256 reply idle_low-IsReady low_written 84 (omega arith)
      (omega arith) flaky_reliable low_unpatched

initial-IsRecorder : IsRecorder initial_recorder
unfolding initial_recorder
initial-IsRecorder = refl

-- The recorder 250 ms after its ring began.
net_bin_now-Slides_example : Slides (restart 5000) 255000 (net_bin_now (restart 5000) 255000)
net_bin_now-Slides_example =
    net_bin_now-Slides (restart 5000) 255000 (restart-IsRing 5000 (omega arith)) (omega arith)

restart_start : (restart 5000).cur_start_us ≡ 5000
unfolding restart
restart_start = refl

-- Two commands, the second before the first is seen to clear, with a reading between.
abbrev events : List Event
events = Event.write 100 ∷ Event.write 150 ∷ Event.take_stats ∷ Event.poll 0 160 ∷ []

run-accounted_example :
    let (taken, h') = Command.run events no_handshake in
    (accounted taken + h'.commands + h'.overlaps + open_command h') % u32_mod
    ≡ Command.writes events % u32_mod
run-accounted_example = run-accounted events

perform-IsRecorder_example : IsRecorder (perform initial_recorder (Call.switch true true) 7000)
perform-IsRecorder_example =
    perform-IsRecorder initial_recorder (Call.switch true true) 7000 (omega arith)
      initial-IsRecorder

reply-IsServerReply : IsServerReply reply 90 123
unfolding plan_ntp_tx_patch plan_udp
reply-IsServerReply = (planned_iff reply 90 123).0.0 refl

-- A frame, a poll of Sn_CR, and the SEND.
abbrev frame_op : Op
frame_op = Op.write 256 0x14 (some reply) 90

abbrev send_op : Op
send_op = Op.write 1 0x0C (some (0x20 ∷ [])) 1

abbrev poll_op : Op
poll_op = Op.read 1 0x08 1

-- The driver with its recorder on.
recording : Driver
unfolding initial_driver initial_link
recording = record initial_driver {
  link = record initial_link { recorder = set_net_recorder initial_recorder true true };
}

send_stamp-frame_example :
    let d1 = run_op good recording frame_op in
    let stamped = send_stamp (run_op good (run good d1 (poll_op ∷ [])) send_op) in
    (stamped.frame_class ≡ classify_frame (some reply) 90)
    × (stamped.txbuf_start_us ≡ 1010)
    × (stamped.txbuf_end_us ≡ 1050)
    × (stamped.seq ≡ u32 (recording.tx.send_cmd_seq + 1))
unfolding recording initial_driver initial_link set_net_recorder initial_recorder
send_stamp-frame_example =
    send_stamp-frame good recording 256 0x14 (some reply) 90 (poll_op ∷ []) send_op refl
      (refl, refl, tt) refl

-- A SEND_OK that was stamped, and a second read of the interrupt register.
abbrev ir_op : Op
ir_op = Op.read 2 0x08 1

told : Driver
told = run good initial_driver (send_op ∷ (ir_op ∷ []))

told_stamped : told.tx.sendok_seq ≡ told.tx.send_cmd_seq
unfolding told run run_op initial_driver initial_link initial_recorder spi_write spi_read
    write_command note_send patch_send transfer note_receive note_read_transaction tap_size tap_poll
    tap_sendok tap_frame
told_stamped = refl

sendok_once_example :
    let tx' = (run good told (ir_op ∷ (poll_op ∷ []))).tx in
    (tx'.sendok_us ≡ told.tx.sendok_us)
    × (tx'.sendok_seq ≡ told.tx.sendok_seq)
    × (tx'.send_cmd_seq ≡ told.tx.send_cmd_seq)
sendok_once_example = sendok_once good told (ir_op ∷ (poll_op ∷ [])) refl told_stamped

-- A burst: the size register, then a payload, with the reply's frame written in between.
abbrev size_op : Op
size_op = Op.read 0x26 0x08 2

abbrev payload_op : Op
payload_op = Op.read 0 0x18 90

burst_start_held_example :
    (run good (run_op good initial_driver size_op) (frame_op ∷ [])).rx.burst_start_us
    ≡ now good initial_driver.link
unfolding initial_driver initial_link
burst_start_held_example =
    burst_start_held good initial_driver 0x26 0x08 2 (frame_op ∷ []) (omega arith) tt
