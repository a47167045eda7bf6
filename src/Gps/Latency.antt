-- ===== src/Gps/Latency.antt =====
-- The interrupt-latency diagnostic, `track_isr_latency_` of gps_pps_time.cpp.
use esphome_gps_pps_ntp_serv.Base.{
  ℕ, ◌+◌, ◌*◌, ◌==◌, Bool, true, false, not, ◌&&◌, ◌||◌, ℤ, pos, neg, ◌+ℤ◌, ◌-ℤ◌, ltb_ℤ, u32, sub32,
  if◌then◌else◌,
}
use esphome_gps_pps_ntp_serv.Gps.State.{GpsPpsTime}

abbrev pub lat_pair_limit_ticks : ℕ
lat_pair_limit_ticks = 400000

-- The level after a paired edge whose spans differ by `diff` ticks.
unfoldable pub add_latency : GpsPpsTime → ℤ → GpsPpsTime
add_latency s diff =
    let level = s.lat_level_ticks +ℤ diff in
    if ltb_ℤ (pos lat_pair_limit_ticks) diff || ltb_ℤ diff (neg lat_pair_limit_ticks)
    then record s { lat_level_ticks = pos 0; lat_min_ticks = pos 0 }
    else record s {
      lat_level_ticks = level;
      lat_min_ticks = if ltb_ℤ level s.lat_min_ticks then level else s.lat_min_ticks;
      lat_sum_ticks = s.lat_sum_ticks +ℤ level;
      lat_n = u32 (s.lat_n + 1);
    }

unfoldable pub track_isr_latency : GpsPpsTime → ℕ → Bool → GpsPpsTime
track_isr_latency s isr_us clean =
    let isr_ticks = sub32 isr_us s.lat_prev_isr_us * 80 in
    let cap_ticks = sub32 s.pps_cap_prev s.lat_prev_cap in
    let paired =
      if s.lat_paired && s.pps_cap_count == u32 (s.lat_prev_cap_count + 1)
      then add_latency s (pos isr_ticks -ℤ pos cap_ticks)
      else record s { lat_level_ticks = pos 0; lat_min_ticks = pos 0 } in
    if not clean || s.pps_cap_count == 0 then record s { lat_paired = false } else record paired {
      lat_prev_isr_us = isr_us;
      lat_prev_cap = s.pps_cap_prev;
      lat_prev_cap_count = s.pps_cap_count;
      lat_paired = true;
    }
