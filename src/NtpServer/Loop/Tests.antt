-- ===== src/NtpServer/Loop/Tests.antt =====
-- A period of the loop on concrete readings: two samples, a round that is early, and one that is due.
use esphome_gps_pps_ntp_serv.Base.{
  ℕ, ◌≡◌, ◌++◌, refl, Bool, true, false, none, List, [], ◌∷◌, replicate, pos, neg, arith,
}
use esphome_gps_pps_ntp_serv.W5500.Command.{no_handshake, take_cmd_stats}
use esphome_gps_pps_ntp_serv.W5500.Recorder.{initial_recorder}
use esphome_gps_pps_ntp_serv.NtpServer.IntLevel.{IntLevel, WriteBack, LoopReads}
use esphome_gps_pps_ntp_serv.NtpServer.Window.{add, take}
use esphome_gps_pps_ntp_serv.NtpServer.ArpClients.{refresh_arp_entries}
use esphome_gps_pps_ntp_serv.NtpServer.Loop.{
  Sensor, Main, LoopIo, publish, publish_taken, publish_commands, telemetry, loop,
}
use esphome_gps_pps_ntp_serv.NtpServer.Loop.Shown.{errors, leads, window, values_of}
use esphome_gps_pps_ntp_serv.NtpServer.Loop.Period.{
  Event, sample, round, samples, run, empty_window, Reports, loop-Reports,
}

abbrev all_sensors : Sensor → Bool
all_sensors s = true

abbrev level : IntLevel
level = record { policy = false; effective = false; recheck_ms = 0; last_readback = 0 }

abbrev main : Main
main = record {
  level = level;
  arp = record { clients = replicate 8 0; next = 0; last_refresh_ms = 1; primes = 2 };
  arp_primes_pending = true;
  diag = record {
    diag_ring = none;
    diag_next = 0;
    diagnostics = false;
    recorder = initial_recorder;
  };
  diag_open = false;
  counters = record {
    t3_error_win = empty_window;
    int_lead_win = empty_window;
    rx_stamp_gap_win = empty_window;
    hook_latency_win = empty_window;
    refused = 4;
    arp_waits = 5;
    handshake = no_handshake;
    telemetry_last_ms = 4294960000;
  };
}

abbrev good_io : WriteBack
good_io = record { write_ok = true; read_ok = true; readback = 0x0FFF }

abbrev no_reads : LoopReads
no_reads = record {
  gate_ms = 1000;
  driver_level = 0;
  due_ms = 1000;
  stamp_ms = 1000;
  set_io = good_io;
  set_ms = 1000;
  check_due_ms = 1000;
  check_stamp_ms = 1000;
  check_read_ok = true;
  check_readback = 0;
  rewrite_io = good_io;
}

abbrev at : ℕ → LoopIo
at now_ms = record {
  level_reads = no_reads;
  cached = λ hop. false;
  netif = none;
  refresh_ms = 2;
  port = record {
    socket_ok = false;
    bind_ok = false;
    received = [];
    reads = record {
      clock_us = pos 0;
      micros = 0;
      tv_sec = pos 0;
      tv_usec = pos 0;
      readback = 0;
      now_ms = now_ms;
    };
    stale = [];
  };
  now_ms = now_ms;
}

abbrev events : List Event
events = sample errors (pos 3) ∷ sample leads (pos 9) ∷ round (at 100) ∷ sample errors (neg 7) ∷ []

-- The clock has wrapped around since the last publication.
loop-Reports_example :
    let (s', ps) = run all_sensors main events in
    let (s'', effects) = loop all_sensors s' (at 2704) in
    Reports (samples errors events) (values_of errors (ps ++ effects.published))
    × (window errors s''.counters ≡ empty_window)
    × (s''.counters.telemetry_last_ms ≡ 2704)
unfolding samples
loop-Reports_example =
    loop-Reports all_sensors errors main events (at 2704) refl refl (omega arith, tt) (omega arith)
      (omega arith)

largest_shown :
    let (s', ps) = run all_sensors main events in
    values_of errors (ps ++ (loop all_sensors s' (at 2704)).1.published) ≡ neg 7 ∷ []
unfolding run values_of loop telemetry publish publish_taken take add refresh_arp_entries
    publish_commands take_cmd_stats
largest_shown = refl
