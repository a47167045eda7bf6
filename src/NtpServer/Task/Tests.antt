-- ===== src/NtpServer/Task/Tests.antt =====
-- The request task and the diagnostic port of the NTP server on concrete readings.
use esphome_gps_pps_ntp_serv.Base.{
  drop, length, suc, zero, ◌++◌, map, get_or, ◌-◌, ◌-ℤ◌, ℕ, ◌+◌, ◌≡◌, ◌⊎◌, refl, true, false, arith,
  replicate, none, some, List, [], ◌∷◌, pos, ◌+ℤ◌, ◌*ℤ◌, u32,
}
use esphome_gps_pps_ntp_serv.W5500.Recorder.{initial_recorder, net_bin, talker}
use esphome_gps_pps_ntp_serv.TalkerTable.{blank}
use esphome_gps_pps_ntp_serv.TalkerTable as TalkerTable
use esphome_gps_pps_ntp_serv.NtpServer.Console.Text.{
  codes, u_text, d_text, x4_text, x2_text, digits,
}
use esphome_gps_pps_ntp_serv.NtpServer.Console.Batch.{flush, emit, emit_all}
use esphome_gps_pps_ntp_serv.NtpServer.Console.Lines.{
  request_line, DiagReads, answer_body, answer_lines, usage_line, end_line,
}
use esphome_gps_pps_ntp_serv.NtpServer.Console.Datagrams.{flat, AllSized}
use esphome_gps_pps_ntp_serv.NtpServer.Console.Port.{PortIo, command, diag_serve}
use esphome_gps_pps_ntp_serv.NtpServer.Console.Answers.{IsSound, diag_serve-answers}
use esphome_gps_pps_ntp_serv.NtpServer.Diag.Ring.{
  Diagnostics, set_diagnostics, list_requests, diag_ring_size,
}
use esphome_gps_pps_ntp_serv.NtpServer.Diag.Window.{listed}
use esphome_gps_pps_ntp_serv.NtpServer.Task.{Task, Turn, client_tx, heard, turns}
use esphome_gps_pps_ntp_serv.NtpServer.Task.Accounts.{refusals}
use esphome_gps_pps_ntp_serv.NtpServer.Task.Running.{IsRunning}
use esphome_gps_pps_ntp_serv.NtpServer.Task.Answer.{IsRead}
use esphome_gps_pps_ntp_serv.NtpServer.Task.Dumped.{turns-dumped}
use esphome_gps_pps_ntp_serv.NtpServer.Task.Run.{turn_records, replies, turns-accounted}
use esphome_gps_pps_ntp_serv.HookRing.{build_key, lookup, lookup_from, consider}
use esphome_gps_pps_ntp_serv.W5500.Classify.{fc_ntp}
use esphome_gps_pps_ntp_serv.W5500.Reads as Reads
use esphome_gps_pps_ntp_serv.NtpServer.Tests.{
  settings, arrived, stamped, state, short_wait, no_dispersion,
}

-- No ring has been allocated yet.
abbrev undiagnosed : Diagnostics
undiagnosed = record {
  diag_ring = none;
  diag_next = 0;
  diagnostics = false;
  recorder = initial_recorder;
}

-- A request that the hook recorded, and one that it did not.
abbrev sent_stamp : Reads.SendStamp
sent_stamp = record {
  send_cmd_us = 1300;
  seq = 8;
  frame_class = fc_ntp;
  txbuf_start_us = 0;
  txbuf_end_us = 0;
  patch_us = 0;
  patched = false;
  sendok_us = 0;
  sendok_seq = 0;
}

abbrev hit : Turn
hit = record {
  settings = settings;
  round = arrived;
  src_port = 123;
  lookup_now_us = stamped.t +ℤ pos 100;
  slots =
      record {
        before = 2;
        key = build_key (client_tx arrived.request) arrived.client 123;
        info = stamped;
        after = 2;
      }
      ∷ [];
  stamp = sent_stamp;
  now_us = stamped.t;
  lock_wait_us = pos 3;
}

abbrev missed : Turn
missed = record hit { slots = [] }

turns-accounted_example :
    let t : Task = record { state = state; diag = set_diagnostics undiagnosed true true true } in
    let t' = turns no_dispersion t (hit ∷ missed ∷ []) in
    let ds = turn_records no_dispersion t (hit ∷ missed ∷ []) in
    (list_requests t'.diag ≡ listed (drop (length ds - diag_ring_size) ds))
    × (t'.state.refused ≡ u32 (4294967295 + refusals ds))
    × (replies no_dispersion t (hit ∷ missed ∷ []) + refusals ds ≡ length ds)
turns-accounted_example =
    turns-accounted no_dispersion state undiagnosed true (hit ∷ missed ∷ []) refl refl (omega arith)

-- The hook of the first is found, and its record is that of a reply.
hit_found : (heard hit).hook ≡ some stamped
unfolding heard lookup lookup_from consider build_key ◌-ℤ◌ ◌+ℤ◌
hit_found = refl

-- The diagnostic port asked for the clocks, with nothing recorded yet.
abbrev watched : Diagnostics
watched = record undiagnosed { diagnostics = true }

abbrev diag_reads : DiagReads
diag_reads = record {
  clock_us = pos 5000000000;
  micros = 705032704;
  tv_sec = pos 1800000000;
  tv_usec = pos 25;
  readback = 0x0fff;
  now_ms = 5000000;
}

abbrev asked : PortIo
asked = record {
  socket_ok = true;
  bind_ok = true;
  received = codes "CLK please";
  reads = diag_reads;
  stale = [];
}

blank_entry : (n i : ℕ) → get_or (replicate n blank) i blank ≡ blank
blank_entry zero i = refl
blank_entry (suc n) zero = refl
blank_entry (suc n) (suc i) = blank_entry n i

no_bin : (i : ℕ) → net_bin initial_recorder i ≡ none
unfolding net_bin initial_recorder
no_bin i = refl

no_talker : (i : ℕ) → talker initial_recorder i ≡ none
unfolding talker initial_recorder TalkerTable.get
no_talker i = rw (blank_entry 32 i) (ground arith)

watched-IsSound : IsSound watched diag_reads
unfolding list_requests ◌*ℤ◌ ◌+ℤ◌
watched-IsSound = record {
  requests = tt;
  bins = λ i b e. absurd (cc (no_bin i, e));
  talkers = λ i t e. absurd (cc (no_talker i, e));
  clock = omega arith;
  micros = omega arith;
  wall = omega arith;
}

diag_serve-answers_example :
    let (stays_open, sent) = diag_serve watched short_wait false asked in
    let (body, lines) = answer_body watched short_wait diag_reads (command asked) in
    (stays_open ≡ true)
    × ((lines ≡ length body) ⊎ (lines ≡ 0) × (body ≡ usage_line ∷ []))
    × (groups : List (List (List ℕ))) × (flat groups ≡ body ++ end_line (command asked) lines ∷ [])
    × (sent ≡ map flat groups)
    × AllSized sent
diag_serve-answers_example =
    diag_serve-answers watched short_wait false asked refl refl (omega arith) watched-IsSound

-- One datagram of two lines.
clk_answer :
    (diag_serve watched short_wait false asked).1
    ≡ (codes "CLK 5000000000 705032704 1800000000000025" ++ 10 ∷ (codes "END CLK 1" ++ 10 ∷ []))
      ∷ []
unfolding diag_serve flush emit_all emit answer_lines answer_body u_text d_text digits ◌*ℤ◌ ◌+ℤ◌
clk_answer = refl

x4_text_padded : x4_text 4095 ≡ codes "0fff"
unfolding x4_text x2_text
x4_text_padded = refl

state-IsRunning : IsRunning state
state-IsRunning = record {
  valid = record {
    estimate_low = omega arith;
    estimate_high = omega arith;
    run_fits = omega arith;
    run_low = λ h. ground arith;
    run_high = λ h. ground arith;
    run_ordered = λ h. ground arith;
    run_narrow = λ h. ground arith;
  };
  low = omega arith;
  high = omega arith;
}

hit-IsRead : IsRead hit
unfolding heard lookup lookup_from consider build_key ◌-ℤ◌ ◌+ℤ◌
hit-IsRead = record {
  hook = record {
    t = omega arith;
    lead = omega arith;
    gap = omega arith;
    rsr = omega arith;
    frame = omega arith;
  };
  request = refl;
  now = omega arith;
  lock = omega arith;
  wait = omega arith;
}

missed-IsRead : IsRead missed
unfolding heard lookup lookup_from
missed-IsRead = record {
  hook = tt;
  request = refl;
  now = omega arith;
  lock = omega arith;
  wait = omega arith;
}

-- The port asked for the requests.
abbrev asked_req : PortIo
asked_req = record asked { received = codes "REQ all" }

turns-dumped_example :
    let t : Task = record { state = state; diag = set_diagnostics undiagnosed true true true } in
    let ds = turn_records no_dispersion t (hit ∷ missed ∷ []) in
    let last = listed (drop (length ds - diag_ring_size) ds) in
    let (stays_open, sent) =
      diag_serve (turns no_dispersion t (hit ∷ missed ∷ [])).diag short_wait false asked_req in
    (stays_open ≡ true)
    × (groups : List (List (List ℕ))) × (flat groups
        ≡ map request_line last ++ end_line (command asked_req) (length last) ∷ [])
    × (sent ≡ map flat groups)
    × AllSized sent
turns-dumped_example =
    turns-dumped no_dispersion state undiagnosed true (hit ∷ missed ∷ []) short_wait false asked_req
      (codes " all") refl refl (omega arith) state-IsRunning (hit-IsRead, (missed-IsRead, tt)) refl
      refl
