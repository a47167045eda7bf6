-- ===== src/Gps/State.antt =====
-- The state of `GPSPPSTime` (gps_pps_time.h): the fields that its operations read and write. Sensors
-- and pins are left out, the crash report is in Update, and a value that is only published as a float
-- is kept as the integer that it is made from.
use esphome_gps_pps_ntp_serv.Base.{ℕ, ◌+◌, Bool, true, false, ℤ, pos, u32}

-- `PpsAnchor`: at micros() = `micros` true UTC was exactly `epoch` seconds.
pub record PpsAnchor : Type 0 where
  pub epoch : ℤ  -- time_t
  pub micros : ℕ  -- uint32_t
  pub drift_ppb : ℤ  -- int32_t

pub record GpsPpsTime : Type 0 where
  pub last_gps_epoch : ℤ  -- time_t
  pub gps_time_valid : Bool
  pub pps_flag : Bool
  pub last_pps_micros : ℕ  -- uint32_t
  pub isr_anchor_micros : ℕ  -- uint32_t
  pub pps_synced : Bool
  pub pps_cap_prev : ℕ  -- uint32_t, ticks of 12.5 ns
  pub pps_cap_interval : ℕ  -- uint32_t
  pub pps_cap_count : ℕ  -- uint32_t
  pub lat_paired : Bool
  pub lat_prev_isr_us : ℕ  -- uint32_t
  pub lat_prev_cap : ℕ  -- uint32_t
  pub lat_prev_cap_count : ℕ  -- uint32_t
  pub lat_level_ticks : ℤ  -- int64_t
  pub lat_min_ticks : ℤ  -- int64_t
  pub lat_sum_ticks : ℤ  -- int64_t
  pub lat_n : ℕ  -- uint32_t
  pub pps_cap_ppb_mean_x256 : ℤ  -- int32_t
  pub use_hw_rate : Bool
  pub anchor_seq : ℕ  -- uint32_t
  pub anchor : PpsAnchor
  pub has_gps_time : Bool
  pub pps_count : ℕ  -- uint32_t
  pub last_satellite_count : ℕ  -- uint16_t, as the four below
  pub last_gps_sat_count : ℕ
  pub last_glonass_sat_count : ℕ
  pub last_galileo_sat_count : ℕ
  pub last_beidou_sat_count : ℕ
  pub last_drift_us : ℤ  -- int64_t
  pub last_clock_offset_us : ℤ  -- int64_t
  pub prev_pps_micros : ℕ  -- uint32_t
  pub drift_mean_x256 : ℤ  -- int64_t
  pub anchor_pred_error_us : ℤ
  pub anchor_pred_error_valid : Bool
  pub anchor_pred_error_skip_next : Bool
  pub last_pps_millis : ℕ  -- uint32_t
  pub pps_period_healthy : Bool
  pub pps_period_bad_streak : ℕ  -- uint8_t
  pub pps_period_good_streak : ℕ  -- uint8_t
  pub nmea_clock_delta_ms : ℤ  -- int32_t
  pub nmea_clock_delta_valid : Bool
  pub epoch_error_streak : ℕ  -- int8_t, never negative
  pub epoch_error_last : ℤ  -- int8_t

abbrev pub no_anchor : PpsAnchor
no_anchor = record { epoch = pos 0; micros = 0; drift_ppb = pos 0 }

-- The fields' default values.
abbrev pub initial : GpsPpsTime
initial = record {
  last_gps_epoch = pos 0;
  gps_time_valid = false;
  pps_flag = false;
  last_pps_micros = 0;
  isr_anchor_micros = 0;
  pps_synced = false;
  pps_cap_prev = 0;
  pps_cap_interval = 0;
  pps_cap_count = 0;
  lat_paired = false;
  lat_prev_isr_us = 0;
  lat_prev_cap = 0;
  lat_prev_cap_count = 0;
  lat_level_ticks = pos 0;
  lat_min_ticks = pos 0;
  lat_sum_ticks = pos 0;
  lat_n = 0;
  pps_cap_ppb_mean_x256 = pos 0;
  use_hw_rate = true;
  anchor_seq = 0;
  anchor = no_anchor;
  has_gps_time = false;
  pps_count = 0;
  last_satellite_count = 0;
  last_gps_sat_count = 0;
  last_glonass_sat_count = 0;
  last_galileo_sat_count = 0;
  last_beidou_sat_count = 0;
  last_drift_us = pos 0;
  last_clock_offset_us = pos 0;
  prev_pps_micros = 0;
  drift_mean_x256 = pos 0;
  anchor_pred_error_us = pos 0;
  anchor_pred_error_valid = false;
  anchor_pred_error_skip_next = false;
  last_pps_millis = 0;
  pps_period_healthy = true;
  pps_period_bad_streak = 0;
  pps_period_good_streak = 0;
  nmea_clock_delta_ms = pos 0;
  nmea_clock_delta_valid = false;
  epoch_error_streak = 0;
  epoch_error_last = pos 0;
}

-- What an operation asks of the system clock, with seconds and microseconds.
pub data ClockCall : Type 0 where
  settimeofday : ℤ → ℤ → ClockCall
  adjtime : ℤ → ℤ → ClockCall

-- The seqlock's two increments, with the store between them.
unfoldable pub publish_pps_anchor : GpsPpsTime → ℤ → ℕ → ℤ → GpsPpsTime
publish_pps_anchor s epoch micros drift_ppb = record s {
  anchor_seq = u32 (s.anchor_seq + 2);
  anchor = record { epoch = epoch; micros = micros; drift_ppb = drift_ppb };
}

-- The reset that the source writes out in three places: no satellites, epoch diverged by the drift,
-- epoch diverged from NMEA.
unfoldable pub lose_sync : GpsPpsTime → GpsPpsTime
unfolding publish_pps_anchor
lose_sync s = record (publish_pps_anchor (record s { pps_synced = false }) (pos 0) 0 (pos 0)) {
  gps_time_valid = false;
  has_gps_time = false;
  last_gps_epoch = pos 0;
  last_drift_us = pos 0;
  drift_mean_x256 = pos 0;
  pps_count = 0;
}
