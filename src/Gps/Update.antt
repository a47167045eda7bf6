-- ===== src/Gps/Update.antt =====
-- `setup`, `loop` and `update` of gps_pps_time.cpp with the crash report: what the next boot tells of a
-- panic, and what is published each period. A number that is published as a float is kept as the
-- integer that it is made from, and a text as the values that are printed into it.
use esphome_gps_pps_ntp_serv.Base.{
  ℕ, ◌+◌, ◌/◌, ◌==◌, ◌&&◌, ◌||◌, not, Bool, false, List, [], ◌∷◌, ◌++◌, leb, ℤ, pos, ◌-ℤ◌, ◌*ℤ◌,
  u32, sub32, if◌then◌else◌,
}
use esphome_gps_pps_ntp_serv.Gps.State.{GpsPpsTime, ClockCall}
use esphome_gps_pps_ntp_serv.Gps.Anchor.{pps_capture_ppb}
use esphome_gps_pps_ntp_serv.Gps.Pulse.{PulseReads, gsv_total}
use esphome_gps_pps_ntp_serv.Gps.Pulse as Pulse

abbrev pub crash_magic : ℕ
crash_magic = 0xDEAD5AFE

-- The memory that a reset by a panic leaves; each is a `uint32_t`.
pub record CrashContext : Type 0 where
  pub magic : ℕ
  pub heap_free : ℕ
  pub heap_min : ℕ
  pub uptime_sec : ℕ
  pub pps_count : ℕ
  pub main_stack_hwm : ℕ
  pub loop_count : ℕ

pub data CrashReport : Type 0 where
  empty : CrashReport
  panic_context : CrashContext → CrashReport
  panic_no_context : CrashReport

pub record Station : Type 0 where
  pub gps : GpsPpsTime
  pub crash_ctx : CrashContext
  pub last_ctx_update_ms : ℕ
  pub crash_report : CrashReport
  pub crash_report_pending : Bool

-- `setup`, whose other calls attach the interrupt and arm the capture; `panic` is that the reset reason
-- is ESP_RST_PANIC.
unfoldable pub setup : Station → Bool → Station
setup s panic = record s {
  crash_ctx = record s.crash_ctx { magic = crash_magic; loop_count = 0 };
  crash_report =
      if panic
      then (if s.crash_ctx.magic == crash_magic
          then panic_context s.crash_ctx
          else panic_no_context)
      else s.crash_report;
  crash_report_pending = panic || s.crash_report_pending;
}

-- What the calls of a round of `loop` return.
pub record LoopReads : Type 0 where
  pub pulse : PulseReads
  pub now_ms : ℕ
  pub heap_free : ℕ
  pub heap_min : ℕ
  pub stack_hwm : ℕ

unfoldable pub update_context : CrashContext → GpsPpsTime → LoopReads → CrashContext
update_context c gps r = record c {
  heap_free = r.heap_free;
  heap_min = r.heap_min;
  uptime_sec = r.now_ms / 1000;
  pps_count = gps.pps_count;
  main_stack_hwm = r.stack_hwm;
}

unfoldable pub loop : Station → LoopReads → Station × List ClockCall
loop s r =
    let (gps, calls) = Pulse.loop s.gps r.pulse in
    let due = leb 10000 (sub32 r.now_ms s.last_ctx_update_ms) in
    let c = if due then update_context s.crash_ctx gps r else s.crash_ctx in
    (
      record s {
        gps = gps;
        crash_ctx = record c { loop_count = u32 (c.loop_count + 1) };
        last_ctx_update_ms = if due then r.now_ms else s.last_ctx_update_ms;
      },
      calls,
    )

-- The fields of `now()`.
pub record LocalTime : Type 0 where
  pub year : ℕ
  pub month : ℕ
  pub day_of_month : ℕ
  pub hour : ℕ
  pub minute : ℕ
  pub second : ℕ

-- The sensors that are configured.
pub record Sensors : Type 0 where
  pub pps_interval : Bool
  pub pps_isr_latency : Bool
  pub crash_info : Bool
  pub satellites : Bool
  pub gps_satellites : Bool
  pub glonass_satellites : Bool
  pub galileo_satellites : Bool
  pub beidou_satellites : Bool
  pub nmea_clock_delta : Bool
  pub clock_offset : Bool
  pub pps_drift : Bool
  pub anchor_pred_error : Bool
  pub gps_time : Bool

-- What `update` reads: which sentences of each constellation there are and are valid, and `now()`.
pub record UpdateReads : Type 0 where
  pub gp_valid : Bool
  pub gl_valid : Bool
  pub ga_valid : Bool
  pub gb_valid : Bool
  pub bd_valid : Bool
  pub now : LocalTime

-- What is published. The latency in us is the first number divided by 80 and by the second, in exact
-- arithmetic.
pub data Reading : Type 0 where
  pps_interval_ppb : ℤ → Reading
  isr_latency : ℤ → ℕ → Reading
  crash_info_text : CrashReport → Reading
  satellites_in_view : ℕ → Reading
  gps_in_view : ℕ → Reading
  glonass_in_view : ℕ → Reading
  galileo_in_view : ℕ → Reading
  beidou_in_view : ℕ → Reading
  nmea_clock_delta_ms : ℤ → Reading
  clock_offset_us : ℤ → Reading
  pps_drift_us : ℤ → Reading
  pred_error_us : ℤ → Reading
  gps_time_text : LocalTime → Reading

-- `if (b) publish_state(r)`
unfoldable pub publish : Bool → Reading → List Reading
publish b r = if b then r ∷ [] else []

module _ (has : Sensors) where
  -- Whether the mean latency is published, and its sum and count reset.
  abbrev pub latency_due : GpsPpsTime → Bool
  latency_due gps = has.pps_isr_latency && not (gps.lat_n == 0)

  -- The readings that `update` makes of the GPS state, in its order.
  unfoldable pub gps_readings : GpsPpsTime → UpdateReads → List Reading
  gps_readings gps r =
      publish has.satellites (satellites_in_view (gsv_total gps))
      ++ publish (has.gps_satellites && r.gp_valid) (gps_in_view gps.last_gps_sat_count)
      ++ publish (has.glonass_satellites && r.gl_valid) (glonass_in_view gps.last_glonass_sat_count)
      ++ publish (has.galileo_satellites && r.ga_valid) (galileo_in_view gps.last_galileo_sat_count)
      ++ publish (has.beidou_satellites && (r.gb_valid || r.bd_valid))
          (beidou_in_view gps.last_beidou_sat_count)
      ++ publish (has.nmea_clock_delta && gps.nmea_clock_delta_valid)
          (nmea_clock_delta_ms gps.nmea_clock_delta_ms)
      ++ publish (has.clock_offset && gps.pps_synced) (clock_offset_us gps.last_clock_offset_us)
      ++ publish (has.pps_drift && gps.pps_synced) (pps_drift_us gps.last_drift_us)
      ++ publish (has.anchor_pred_error && gps.anchor_pred_error_valid)
          (pred_error_us gps.anchor_pred_error_us)
      ++ publish (gps.pps_synced && has.gps_time) (gps_time_text r.now)

  unfoldable pub update : Station → UpdateReads → Station × List Reading
  update s r =
      let gps = s.gps in
      let report = s.crash_report_pending && has.crash_info in
      (
        record s {
          gps = if latency_due gps then record gps { lat_sum_ticks = pos 0; lat_n = 0 } else gps;
          crash_report_pending = if report then false else s.crash_report_pending;
        },
        publish (has.pps_interval && not (gps.pps_cap_interval == 0))
              (pps_interval_ppb (pps_capture_ppb gps))
            ++ publish (latency_due gps)
                (isr_latency (gps.lat_sum_ticks -ℤ pos gps.lat_n *ℤ gps.lat_min_ticks) gps.lat_n)
            ++ publish report (crash_info_text s.crash_report)
            ++ gps_readings gps r,
      )
