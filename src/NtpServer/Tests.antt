-- ===== src/NtpServer/Tests.antt =====
-- The NTP server on concrete readings.
use esphome_gps_pps_ntp_serv.Base.{
  inr, ℤ, ℕ, ◌+◌, ◌*◌, ◌/◌, ◌%◌, ◌≡◌, ◌⊎◌, refl, Bool, true, false, arith, replicate, Option, none,
  some, List, [], ◌∷◌, pos, neg, ◌+ℤ◌, ◌*ℤ◌, ◌≤ℤ◌, ◌<ℤ◌, u32,
}
use esphome_gps_pps_ntp_serv.Gps.State.{PpsAnchor}
use esphome_gps_pps_ntp_serv.Gps.Discipline.{predicted_us}
use esphome_gps_pps_ntp_serv.RxAdmission.{queued_behind_bytes, rx_admission}
use esphome_gps_pps_ntp_serv.RxAdmission.Policy.{IsFreshBurst}
use esphome_gps_pps_ntp_serv.TxPatch.{initial_delay}
use esphome_gps_pps_ntp_serv.NtpServer.Timestamp.{
  NtpTimestamp, encode_ntp_timestamp, micros_epoch_to_ntp_timestamp, ClockReads, get_ntp_timestamp,
  build_patch_t3, anchor_epoch_us,
}
use esphome_gps_pps_ntp_serv.NtpServer.Convert.{fallback-converter, micros_epoch-recovers}
use esphome_gps_pps_ntp_serv.NtpServer.Serve.{
  IsLaterBy, anchor_epoch_us-steady, build_patch_t3-exact,
}
use esphome_gps_pps_ntp_serv.NtpServer.Reply.{Server, is_time_synchronized}
use esphome_gps_pps_ntp_serv.NtpServer.IntLevel.{
  IntLevel, WriteBack, LoopReads, set_short_int_wait, loop, IsTrusted, steps-IsTrusted,
}
use esphome_gps_pps_ntp_serv.NtpServer.Window.{WindowMax}
use esphome_gps_pps_ntp_serv.NtpServer.Frame.{HookInfo, Stamps, Hook, stamp, stamp_range}
use esphome_gps_pps_ntp_serv.NtpServer.Request.{
  State, Settings, Round, refuse_reason, is_unresolved, answer, round,
}
use esphome_gps_pps_ntp_serv.NtpServer.Admit.{round-strict}
use esphome_gps_pps_ntp_serv.NtpServer.Answered.{
  IsAnswerable, IsAdmitted, IsReachable, IsReplyTo, round-answers_iff,
}

abbrev half_past : NtpTimestamp
half_past = record { seconds = 3900000000; fraction = 2147483648 }

abbrev anchor : PpsAnchor
anchor = record { epoch = pos 1800000000; micros = 4294900000; drift_ppb = neg 9000 }

abbrev clock_reads : ClockReads
clock_reads = record {
  anchor = some anchor;
  clock_us = pos 4295100000;
  tv_sec = pos 1800000000;
  tv_usec = pos 200050;
  now_us = pos 4295100040;
}

-- The anchor is to be used, and is of the pulse before the last 2.2 s.
abbrev stale_reads : ClockReads
stale_reads = record clock_reads { clock_us = pos 4297100000 }

fallback-converter_example : get_ntp_timestamp true stale_reads (neg 300000) ≡ (
  micros_epoch_to_ntp_timestamp (pos 1800000000 *ℤ pos 1000000 +ℤ (pos 200050 +ℤ neg 300000)),
  pos 4295100040,
)
fallback-converter_example =
    fallback-converter true stale_reads (neg 300000) (inr (inr (anchor, refl, omega arith)))

micros_epoch-recovers_example :
    let ts = micros_epoch_to_ntp_timestamp (pos 2085978496999999) in
    (ts.seconds ≡ u32 (2085978496999999 / 1000000 + 2208988800))
    × ((ts.fraction * 1000000 + 4294967295) / 4294967296 ≡ 2085978496999999 % 1000000)
micros_epoch-recovers_example = micros_epoch-recovers 2085978496999999

anchor_epoch_us-steady_example :
    (x : ℤ) × (y : ℤ) × (anchor_epoch_us (some anchor) (pos 4295100000) ≡ some x)
    × (anchor_epoch_us (some anchor) (pos (4295100000 + 70000)) ≡ some y)
    × IsLaterBy 70000 x y
anchor_epoch_us-steady_example =
    anchor_epoch_us-steady anchor 4295100000 70000 (omega arith) (omega arith)

-- The timer passes 2^32 us between the edge and the patch.
advanced : pos 4295100117 ≡ pos 4295100000 +ℤ pos 60 +ℤ pos 57
unfolding ◌+ℤ◌
advanced = refl

build_patch_t3-exact_example :
    build_patch_t3 true true true (pos 60) (pos (4295100000 + 12)) clock_reads (u32 4295100000)
    ≡ some (encode_ntp_timestamp (micros_epoch_to_ntp_timestamp (predicted_us anchor 200117)))
build_patch_t3-exact_example =
    build_patch_t3-exact true true true (pos 60) 4295100000 12 4295100117 clock_reads (omega arith)
      advanced

abbrev server : Server
server = record {
  use_pps_anchor = true;
  chip_latency = true;
  precision = 241;
  precision_anchor = 237;
  estimate_us = pos 300;
  time_source = some (true, pos 1800000000);
}

abbrev request : List ℕ
request = 35 ∷ replicate 47 7

abbrev pub no_dispersion : Bool → Option ℕ → ℕ
no_dispersion use_pps_anchor elapsed = 6

abbrev pub short_wait : IntLevel
short_wait = record {
  policy = true;
  effective = true;
  recheck_ms = 4294960000;
  last_readback = 0x0FFF;
}

abbrev good_io : WriteBack
good_io = record { write_ok = true; read_ok = true; readback = 0x0FFF }

-- The driver has put its own value back.
abbrev reset_reads : LoopReads
reset_reads = record {
  gate_ms = 1000;
  driver_level = 0xFFFF;
  due_ms = 1000;
  stamp_ms = 1000;
  set_io = good_io;
  set_ms = 1000;
  check_due_ms = 1000;
  check_stamp_ms = 1000;
  check_read_ok = true;
  check_readback = 0xFFFF;
  rewrite_io = good_io;
}

steps-IsTrusted_example :
    IsTrusted (loop short_wait reset_reads).0
    × IsTrusted (set_short_int_wait short_wait false 0xFFFF good_io 1000).0
steps-IsTrusted_example =
    steps-IsTrusted short_wait reset_reads false 0xFFFF 1000 good_io (ground arith)

abbrev no_samples : WindowMax
no_samples = record { value = pos 0; count = 0 }

abbrev hook : Hook
hook = record {
  port = 123;
  int_edge_t2 = true;
  t2_frame_start = true;
  chip_latency = true;
  last_int_edge_seq_for_t2 = 41;
  int_lead_win = no_samples;
  rx_stamp_gap_win = no_samples;
}

abbrev stamps : Stamps
stamps = record {
  size_read_us = 4294967290;
  payloads_since_size_read = 1;
  size_value = 92;
  burst_start_us = 4294967200;
  int_seq = 42;
  int_edge_us = 4294967190;
}

stamp_range_example :
    let t2 = (stamp hook stamps (pos 4294967596) 90).1.t in
    (t2 ≤ℤ pos 4294967596) × (pos 4294967596 ≤ℤ t2 +ℤ pos 2000147)
stamp_range_example = stamp_range hook stamps (pos 4294967596) 90

abbrev pub settings : Settings
settings = record {
  server = server;
  has_netif = true;
  strict_rx_admission = true;
  short_wait_effective = true;
}

abbrev pub state : State
state = record {
  estimator = record {
    estimate_us = pos 300;
    reject_run = 0;
    reject_min = pos 0;
    reject_max = pos 0;
    reject_first_us = pos 0;
  };
  patch_delay = initial_delay;
  t3_error_win = no_samples;
  hook_latency_win = no_samples;
  refused = 4294967295;
  arp_waits = 0;
  arp = record { clients = replicate 8 0; next = 0; last_refresh_ms = 0; primes = 0 };
  last_t3_clock_read_us = pos 0;
}

abbrev pub stamped : HookInfo
stamped = record {
  t = pos 4294967000;
  int_lead_us = pos 10;
  rx_gap_us = pos 900;
  edge_usable = true;
  lead_us = pos 10;
  capture_armed = true;
  rx_rsr = pos 92;
  frame_len = pos 90;
  t2_from_edge = true;
  t2_from_frame_start = true;
  t2_chip_latency = true;
}

abbrev pub arrived : Round
arrived = record {
  received = pos 48;
  request = request;
  client = 16820416;
  receive_reads = clock_reads;
  hook = some stamped;
  hook_reads = clock_reads;
  hook_now_us = pos 4294967700;
  arp_wait = none;
  transmit_reads = clock_reads;
  before_seq = 6;
  t0 = pos 4295100100;
  t_after = pos 4295100600;
  after = record {
    seq = 7;
    send_cmd_us = 133204;
    is_ntp = true;
    patch_us = 133140;
    patched = true;
  };
}

round-answers_iff_example :
    let (after, reply) = round no_dispersion settings state arrived in
    (IsAnswerable settings arrived
      × (after.refused ≡ 4294967295)
      × (bytes : List ℕ) × (reply ≡ some bytes)
      × IsReplyTo settings arrived bytes)
    ⊎ ((reply ≡ none)
        × (after.refused ≡ 4294967295)
        × ((pos 48 <ℤ pos 48) ⊎ (is_time_synchronized server ≡ false)))
    ⊎ ((reply ≡ none)
        × (after.refused ≡ u32 (4294967295 + 1))
        × (pos 48 ≤ℤ pos 48)
        × (is_time_synchronized server ≡ true)
        × (¬ IsAdmitted settings (some stamped) ⊎ ¬ IsReachable none))
round-answers_iff_example = round-answers_iff no_dispersion settings state arrived

abbrev reply : List ℕ
reply = elim (round no_dispersion settings state arrived).1 [ none ↦ [] | some bytes ↦ bytes ]

answered : (round no_dispersion settings state arrived).1 ≡ some reply
unfolding round answer is_time_synchronized refuse_reason rx_admission queued_behind_bytes
    is_unresolved
answered = refl

round-strict_example :
    (is_time_synchronized server ≡ true)
    × (h : HookInfo) × (some stamped ≡ some h)
    × ((h.capture_armed ≡ false)
        ⊎ (h.edge_usable ≡ true) × (h.lead_us <ℤ pos 200)
        ⊎ IsFreshBurst true (queued_behind_bytes h.rx_rsr h.frame_len) h.rx_gap_us)
round-strict_example = round-strict no_dispersion settings state arrived reply refl refl answered
