-- ===== src/Gps/CrashReports/Tests.antt =====
-- A boot that panics after a call of `loop`, and the boot after it; and a latency that is published below
-- zero.
use esphome_gps_pps_ntp_serv.Base.{
  ◌≡◌, refl, true, false, List, [], ◌∷◌, u32, pos, neg, ◌-ℤ◌, ◌+ℤ◌, ◌*ℤ◌, if◌then◌else◌,
}
use esphome_gps_pps_ntp_serv.Gps.State.{GpsPpsTime, initial}
use esphome_gps_pps_ntp_serv.Gps.Latency.{add_latency, track_isr_latency}
use esphome_gps_pps_ntp_serv.Gps.Update.{
  CrashContext, empty, panic_context, Station, LoopReads, Sensors, UpdateReads, isr_latency,
  publish, gps_readings, update,
}
use esphome_gps_pps_ntp_serv.Gps.Reports.{reports}
use esphome_gps_pps_ntp_serv.Gps.CrashReports.{
  Event, looped, updated, loops, has_update, boot, run, crash-reported,
}

abbrev noise : CrashContext
noise = record {
  magic = 7;
  heap_free = 6;
  heap_min = 5;
  uptime_sec = 4;
  pps_count = 3;
  main_stack_hwm = 2;
  loop_count = 1;
}

abbrev after_ten_s : LoopReads
after_ten_s = record {
  pulse = record { tv_sec = pos 0; tv_usec = pos 0; read_micros = 0; check_ms = 0; stamp_ms = 0 };
  now_ms = 12000;
  heap_free = 100000;
  heap_min = 90000;
  stack_hwm = 800;
}

abbrev reads : UpdateReads
reads = record {
  gp_valid = true;
  gl_valid = false;
  ga_valid = false;
  gb_valid = false;
  bd_valid = true;
  now = record { year = 2026; month = 11; day_of_month = 25; hour = 1; minute = 2; second = 3 };
}

-- The sensors of the crash report and of the latency.
abbrev has : Sensors
has = record {
  pps_interval = false;
  pps_isr_latency = true;
  crash_info = true;
  satellites = false;
  gps_satellites = false;
  glonass_satellites = false;
  galileo_satellites = false;
  beidou_satellites = false;
  nmea_clock_delta = false;
  clock_offset = false;
  pps_drift = false;
  anchor_pred_error = false;
  gps_time = false;
}

abbrev events : List Event
events = looped after_ten_s ∷ updated reads ∷ []

crash-reported_example :
    let left = (run has (boot noise false) events).0.crash_ctx in
    (reports (run has (boot left true) events).1
      ≡ (if has_update events then panic_context left ∷ [] else []))
    × (left.loop_count ≡ u32 (loops events))
crash-reported_example = crash-reported has noise false events events refl

-- The pairing has measured one edge, 80 ticks ahead of the first, when it starts again with the next.
abbrev paired : GpsPpsTime
paired = record initial {
  pps_cap_prev = 160000000;
  pps_cap_count = 9;
  lat_paired = false;
  lat_level_ticks = neg 80;
  lat_min_ticks = neg 80;
  lat_sum_ticks = neg 80;
  lat_n = 1;
}

abbrev station : GpsPpsTime → Station
station gps = record {
  gps = gps;
  crash_ctx = noise;
  last_ctx_update_ms = 0;
  crash_report = empty;
  crash_report_pending = false;
}

below_floor :
    (update has (station (track_isr_latency paired 2000000 true)) reads).1
    ≡ isr_latency (neg 80) 1 ∷ []
unfolding update publish gps_readings track_isr_latency add_latency ◌-ℤ◌ ◌+ℤ◌ ◌*ℤ◌
below_floor = refl
