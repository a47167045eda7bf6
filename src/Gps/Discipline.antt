-- ===== src/Gps/Discipline.antt =====
-- The clock discipline at the end of `apply_pps_correction_` (gps_pps_time.cpp), one function for
-- each of its four branches. The state holds the new epoch and the drift already.
use esphome_gps_pps_ntp_serv.Base.{
  ℕ, Bool, true, false, not, ◌&&◌, ◌||◌, ltb, leb, Option, none, some, List, [], ◌∷◌, ℤ, pos, neg,
  ◌+ℤ◌, ◌-ℤ◌, ◌*ℤ◌, div_trunc, rem_trunc, ltb_ℤ, eqb_ℤ, cast_i32, sub32, if◌then◌else◌,
}
use esphome_gps_pps_ntp_serv.Gps.State.{
  PpsAnchor, GpsPpsTime, ClockCall, settimeofday, adjtime, publish_pps_anchor, lose_sync,
}
use esphome_gps_pps_ntp_serv.Gps.Anchor.{
  get_pps_anchor, quiet_reads, pps_capture_ppb, pps_capture_ppb_mean,
}

-- Whether a value lies strictly between -k and k.
abbrev pub within : ℤ → ℕ → Bool
within z k = ltb_ℤ (neg k) z && ltb_ℤ z (pos k)

-- Whether a value lies outside [-k, k].
abbrev pub beyond : ℤ → ℕ → Bool
beyond z k = ltb_ℤ (pos k) z || ltb_ℤ z (neg k)

-- The hard synchronisation: the exact second, and no pending slew.
abbrev pub set_second : ℤ → List ClockCall
set_second epoch = settimeofday epoch (pos 0) ∷ adjtime (pos 0) (pos 0) ∷ []

unfoldable pub hard_sync : GpsPpsTime → GpsPpsTime × List ClockCall
hard_sync s = (record s { last_drift_us = pos 0; pps_synced = true }, set_second s.last_gps_epoch)

unfoldable pub hard_step : GpsPpsTime → GpsPpsTime × List ClockCall
hard_step s =
    (record s { last_drift_us = pos 0; drift_mean_x256 = pos 0 }, set_second s.last_gps_epoch)

-- The seconds and microseconds of the slew, normalised to microseconds in [0, 1000000).
unfoldable pub slew_timeval : ℤ → ℤ × ℤ
slew_timeval correction_us =
    let sec = div_trunc correction_us 1000000 in
    let usec = rem_trunc correction_us 1000000 in
    if ltb_ℤ usec (pos 0) then (sec -ℤ pos 1, usec +ℤ pos 1000000) else (sec, usec)

unfoldable pub correction_us : GpsPpsTime → ℤ
correction_us s = pos 0 -ℤ (s.last_drift_us +ℤ div_trunc s.drift_mean_x256 256)

-- The mean of the clean measurements, and the offset that is reported.
unfoldable pub learn_drift : GpsPpsTime → GpsPpsTime
learn_drift s =
    if within s.last_drift_us 50
    then record s {
      drift_mean_x256 =
          s.drift_mean_x256 +ℤ div_trunc (s.last_drift_us *ℤ pos 256 -ℤ s.drift_mean_x256) 128;
      last_clock_offset_us = s.last_drift_us;
    }
    else record s { last_clock_offset_us = div_trunc s.drift_mean_x256 256 }

-- The mean of the captured rate; 0 stands for "none yet".
unfoldable pub learn_rate : GpsPpsTime → GpsPpsTime
learn_rate s =
    let raw = pps_capture_ppb s in
    let mean = s.pps_cap_ppb_mean_x256 in
    if leb 3 s.pps_cap_count && within raw 100000
    then record s {
      pps_cap_ppb_mean_x256 =
          if eqb_ℤ mean (pos 0)
          then raw *ℤ pos 256
          else mean +ℤ div_trunc (raw *ℤ pos 256 -ℤ mean) 16;
    }
    else s

unfoldable pub rate_ppb : GpsPpsTime → ℤ
rate_ppb s =
    if leb 3 s.pps_cap_count && s.use_hw_rate
    then pps_capture_ppb_mean s
    else cast_i32 (div_trunc s.drift_mean_x256 256) *ℤ pos 1000

-- What an anchor says of an instant `elapsed` us after it.
unfoldable pub predicted_us : PpsAnchor → ℕ → ℤ
predicted_us a elapsed =
    let corrected =
      if within a.drift_ppb 100000
      then pos elapsed -ℤ div_trunc (pos elapsed *ℤ a.drift_ppb) 1000000000
      else pos elapsed in
    a.epoch *ℤ pos 1000000 +ℤ corrected

-- The diagnostic: the error of the previous anchor at this edge.
unfoldable pub record_pred_error : GpsPpsTime → Option PpsAnchor → ℕ → GpsPpsTime
record_pred_error s none pps_micros = s
record_pred_error s (some prev) pps_micros =
    let elapsed = sub32 pps_micros prev.micros in
    if not s.anchor_pred_error_skip_next && (ltb 900000 elapsed && ltb elapsed 1100000)
    then record s {
      anchor_pred_error_us = predicted_us prev elapsed -ℤ s.last_gps_epoch *ℤ pos 1000000;
      anchor_pred_error_valid = true;
    }
    else s

-- The branch for a drift of at most 100 ms. No other task writes the anchor, so the reads are quiet.
unfoldable pub slew : GpsPpsTime → ℕ → GpsPpsTime × List ClockCall
slew s pps_micros =
    let tv = slew_timeval (correction_us s) in
    let learned = learn_rate (learn_drift s) in
    let diag = record_pred_error learned (get_pps_anchor (quiet_reads learned)) pps_micros in
    (
      publish_pps_anchor (record diag { anchor_pred_error_skip_next = false }) diag.last_gps_epoch
          pps_micros (rate_ppb diag),
      adjtime (tv.0) (tv.1) ∷ [],
    )

unfoldable pub discipline : GpsPpsTime → ℕ → GpsPpsTime × List ClockCall
discipline s pps_micros =
    if not s.pps_synced
    then hard_sync s
    else if beyond s.last_drift_us 2000000
    then (lose_sync s, [])
    else if beyond s.last_drift_us 100000
    then hard_step s
    else slew s pps_micros
