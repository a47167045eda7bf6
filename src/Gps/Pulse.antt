-- ===== src/Gps/Pulse.antt =====
-- A pulse as the main loop handles it: `loop` and `apply_pps_correction_` of gps_pps_time.cpp.
use esphome_gps_pps_ntp_serv.Base.{
  ℕ, ◌+◌, ◌==◌, false, not, ◌&&◌, ◌||◌, ltb, List, [], ℤ, pos, ◌+ℤ◌, ◌-ℤ◌, ◌*ℤ◌, eqb_ℤ, u16, u32,
  sub32, to_i32, if◌then◌else◌,
}
use esphome_gps_pps_ntp_serv.Gps.State.{GpsPpsTime, ClockCall, lose_sync}
use esphome_gps_pps_ntp_serv.Gps.Latency.{track_isr_latency}
use esphome_gps_pps_ntp_serv.Gps.Period.{extra_epochs, isr_latency, period_in_spec, judge_period}
use esphome_gps_pps_ntp_serv.Gps.Discipline.{discipline}

-- What the calls of gettimeofday(), micros() and millis() return; the first millis() is the one that
-- is only called without satellites, to limit a log line.
pub record PulseReads : Type 0 where
  pub tv_sec : ℤ
  pub tv_usec : ℤ
  pub read_micros : ℕ
  pub check_ms : ℕ
  pub stamp_ms : ℕ

unfoldable pub system_us_at_pps_raw : GpsPpsTime → PulseReads → ℤ
system_us_at_pps_raw s r =
    r.tv_sec *ℤ pos 1000000 +ℤ r.tv_usec -ℤ to_i32 (sub32 r.read_micros s.last_pps_micros)

unfoldable pub gsv_total : GpsPpsTime → ℕ
gsv_total s = u16 (
    s.last_gps_sat_count + s.last_glonass_sat_count + s.last_galileo_sat_count
    + s.last_beidou_sat_count)

-- A pulse without satellites.
unfoldable pub skip_pulse : GpsPpsTime → PulseReads → GpsPpsTime
skip_pulse s r =
    let t = if s.pps_synced then lose_sync s else s in
    if t.pps_count == 0 && ltb 10000 (sub32 r.check_ms t.last_pps_millis)
    then record t { last_pps_millis = r.stamp_ms }
    else t

-- The new epoch and the drift, from a pulse that is not the first.
unfoldable pub advance : GpsPpsTime → ℤ → GpsPpsTime
advance s raw_us =
    let m = s.last_pps_micros in
    let interval = sub32 m s.prev_pps_micros in
    let in_spec = period_in_spec interval in
    let judged = judge_period (record s { prev_pps_micros = m }) in_spec in
    let tracked = track_isr_latency judged m (in_spec && eqb_ℤ (extra_epochs interval) (pos 0)) in
    let epoch = tracked.last_gps_epoch +ℤ pos 1 +ℤ extra_epochs interval in
    record tracked {
      last_gps_epoch = epoch;
      last_drift_us = raw_us -ℤ isr_latency interval -ℤ epoch *ℤ pos 1000000;
    }

unfoldable pub apply_pps_correction : GpsPpsTime → PulseReads → GpsPpsTime × List ClockCall
apply_pps_correction s r =
    let counted = record s { pps_count = u32 (s.pps_count + 1); last_pps_millis = r.stamp_ms } in
    if not s.gps_time_valid || eqb_ℤ s.last_gps_epoch (pos 0)
    then (s, [])
    else if s.last_satellite_count == 0 && gsv_total s == 0
    then (skip_pulse s r, [])
    else if counted.pps_count == 1
    then (record counted { prev_pps_micros = s.last_pps_micros }, [])
    else discipline (advance counted (system_us_at_pps_raw s r)) s.last_pps_micros

-- `loop`, without its crash context, which Gps.Update adds.
unfoldable pub loop : GpsPpsTime → PulseReads → GpsPpsTime × List ClockCall
loop s r = if s.pps_flag then apply_pps_correction (record s { pps_flag = false }) r else (s, [])
