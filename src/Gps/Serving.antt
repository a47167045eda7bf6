-- ===== src/Gps/Serving.antt =====
-- `is_synchronized` of gps_pps_time.cpp, and what the server may rely on while it holds.
use esphome_gps_pps_ntp_serv.Base.{ℕ, Bool, ◌&&◌, ltb, sub32}
use esphome_gps_pps_ntp_serv.Gps.State.{GpsPpsTime}

abbrev pub pps_timeout_ms : ℕ
pps_timeout_ms = 10000

unfoldable pub is_synchronized : GpsPpsTime → ℕ → Bool
is_synchronized s now_ms =
    s.pps_synced && (s.pps_period_healthy && ltb (sub32 now_ms s.last_pps_millis) pps_timeout_ms)
