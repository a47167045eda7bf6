-- ===== src/Gps/Nmea.antt =====
-- `on_update` of gps_pps_time.cpp. What the parser (TinyGPSPlus, ESPTime) and the clock return is the
-- input of a step.
use esphome_gps_pps_ntp_serv.Base.{
  ℕ, ◌+◌, ◌-◌, ◌%◌, ◌++◌, Bool, true, not, ◌&&◌, ◌||◌, ltb, leb, Option, none, some, List, [], ◌∷◌,
  ℤ, pos, negsuc, neg, ◌+ℤ◌, ◌-ℤ◌, ◌*ℤ◌, div_trunc, ltb_ℤ, eqb_ℤ, u16, wrap_u32, cast_i32,
  if◌then◌else◌,
}
use esphome_gps_pps_ntp_serv.Gps.State.{GpsPpsTime, ClockCall, settimeofday, adjtime, lose_sync}
use esphome_gps_pps_ntp_serv.Gps.Discipline.{beyond}

-- The parser's results: `none` for a count that is not valid or not updated, and `timestamp` for what
-- ESPTime makes of the date and the time. The clock is read twice.
pub record Sentence : Type 0 where
  pub satellites : Option ℤ
  pub gp_sats : Option ℤ
  pub gl_sats : Option ℤ
  pub ga_sats : Option ℤ
  pub gb_sats : Option ℤ
  pub bd_sats : Option ℤ
  pub is_valid : Bool  -- time and date, as the one below
  pub is_updated : Bool
  pub year : ℕ
  pub timestamp : ℤ
  pub now_sec : ℤ
  pub now_usec : ℤ
  pub fix_sec : ℤ
  pub fix_usec : ℤ

abbrev pub epoch_fix_streak : ℕ
epoch_fix_streak = 3

-- `static_cast<int8_t>` keeps the lowest eight bits.
unfoldable pub cast_i8 : ℤ → ℤ
cast_i8 z = let w = wrap_u32 z % 256 in if ltb w 128 then pos w else negsuc (255 - w)

unfoldable pub count_or : ℕ → Option ℤ → ℕ
count_or old none = old
count_or old (some n) = u16 (wrap_u32 n)

unfoldable pub update_satellites : GpsPpsTime → Sentence → GpsPpsTime
update_satellites s n = record s {
  last_satellite_count = count_or s.last_satellite_count n.satellites;
  last_gps_sat_count = count_or s.last_gps_sat_count n.gp_sats;
  last_glonass_sat_count = count_or s.last_glonass_sat_count n.gl_sats;
  last_galileo_sat_count = count_or s.last_galileo_sat_count n.ga_sats;
  last_beidou_sat_count = count_or (count_or s.last_beidou_sat_count n.bd_sats) n.gb_sats;
}

unfoldable pub has_time : Sentence → Bool
has_time n = n.is_valid && (n.is_updated && leb 2025 n.year)

unfoldable pub delta_ms : Sentence → ℤ
delta_ms n = (n.now_sec -ℤ n.timestamp) *ℤ pos 1000 +ℤ div_trunc n.now_usec 1000

unfoldable pub epoch_err_s : ℤ → ℤ
epoch_err_s delta =
    if ltb_ℤ (pos 900) delta
    then cast_i8 (div_trunc (delta +ℤ pos 500) 1000)
    else if ltb_ℤ delta (neg 100)
    then cast_i8 (pos 0 -ℤ div_trunc (pos 0 -ℤ delta +ℤ pos 500) 1000)
    else pos 0

-- The correction of the epoch counter and of the clock by the same whole seconds.
unfoldable pub step_epoch : GpsPpsTime → Sentence → ℤ → GpsPpsTime × List ClockCall
step_epoch s n err = (
  record s {
    last_gps_epoch = s.last_gps_epoch -ℤ err;
    epoch_error_streak = 0;
    anchor_pred_error_skip_next = true;
  },
  settimeofday (n.fix_sec -ℤ err) n.fix_usec ∷ adjtime (pos 0) (pos 0) ∷ [],
)

unfoldable pub count_error : GpsPpsTime → ℤ → GpsPpsTime
count_error s err = record s {
  epoch_error_streak = if eqb_ℤ err s.epoch_error_last then s.epoch_error_streak + 1 else 1;
  epoch_error_last = err;
}

unfoldable pub check_epoch : GpsPpsTime → Sentence → GpsPpsTime × List ClockCall
check_epoch s n =
    let err = epoch_err_s (delta_ms n) in
    let seen = record s {
      nmea_clock_delta_ms = cast_i32 (delta_ms n);
      nmea_clock_delta_valid = true;
    } in
    let counted = count_error seen err in
    if not s.pps_synced || eqb_ℤ err (pos 0)
    then (record seen { epoch_error_streak = 0 }, [])
    else if leb epoch_fix_streak counted.epoch_error_streak
    then step_epoch counted n err
    else (counted, [])

unfoldable pub follow_epoch : GpsPpsTime → Sentence → GpsPpsTime
follow_epoch s n =
    if s.pps_flag
    then s
    else if not s.pps_synced
    then record s { last_gps_epoch = n.timestamp }
    else if beyond (n.timestamp -ℤ s.last_gps_epoch) 2
    then lose_sync s
    else s

-- The coarse time, set once until the pulse takes over.
unfoldable pub coarse_time : GpsPpsTime → Sentence → GpsPpsTime × List ClockCall
coarse_time s n =
    if not s.pps_synced && not s.has_gps_time
    then (record s { has_gps_time = true }, settimeofday n.timestamp (pos 0) ∷ [])
    else (s, [])

unfoldable pub on_update : GpsPpsTime → Sentence → GpsPpsTime × List ClockCall
on_update s n =
    let t = update_satellites s n in
    let checked = check_epoch (record t { gps_time_valid = true }) n in
    let coarse = coarse_time (follow_epoch (checked.0) n) n in
    if has_time n then (coarse.0, checked.1 ++ coarse.1) else (t, [])
