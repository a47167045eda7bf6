-- ===== src/Gps/Invariant.antt =====
-- The invariant of the time source, kept by its interrupt, its capture, its main loop and its NMEA
-- handler in any order.
use esphome_gps_pps_ntp_serv.Base.{
  if_elim, ℕ, ◌*◌, ◌≤◌, ◌<◌, ◌≡◌, ◌⊎◌, Bool, true, false, not, arith, List, Option, none, some, ℤ,
  pos, neg, sub32, ◌-ℤ◌, ◌*ℤ◌, ◌≤ℤ◌, div_trunc, +ℤ_parts, *ℤ_parts, div_trunc_parts, -ℤ_parts,
}
use esphome_gps_pps_ntp_serv.Gps.State.{
  PpsAnchor, GpsPpsTime, ClockCall, publish_pps_anchor, lose_sync,
}
use esphome_gps_pps_ntp_serv.Gps.Anchor.{get_pps_anchor, quiet_reads}
use esphome_gps_pps_ntp_serv.Gps.Latency.{add_latency, track_isr_latency}
use esphome_gps_pps_ntp_serv.Gps.Period.{judge_period}
use esphome_gps_pps_ntp_serv.Gps.Discipline.{
  beyond, hard_sync, hard_step, learn_drift, learn_rate, record_pred_error, slew, discipline,
}

-- An anchor is only there while the pulse is trusted.
abbrev pub IsAnchored : GpsPpsTime → Type 0
IsAnchored s = (s.pps_synced ≡ true) ⊎ (s.anchor.epoch ≡ pos 0)

-- The two streaks stay within their limits, one of them is 0, and a verdict lasts until its streak
-- is full.
abbrev pub IsJudged : GpsPpsTime → Type 0
IsJudged s =
    (s.pps_period_bad_streak ≤ 3)
    × (s.pps_period_good_streak ≤ 10)
    × ((s.pps_period_bad_streak ≡ 0) ⊎ (s.pps_period_good_streak ≡ 0))
    × ((s.pps_period_healthy ≡ true) × (s.pps_period_bad_streak < 3)
        ⊎ (s.pps_period_healthy ≡ false) × (s.pps_period_good_streak < 10))

abbrev pub IsPaired : GpsPpsTime → Type 0
IsPaired s = s.lat_min_ticks ≤ℤ s.lat_level_ticks

abbrev pub IsLevel : GpsPpsTime → Type 0
IsLevel s = (neg 12544 ≤ℤ s.drift_mean_x256) × (s.drift_mean_x256 ≤ℤ pos 12544)

-- The drift that is left between two pulses.
abbrev pub IsClose : GpsPpsTime → Type 0
IsClose s = (neg 100000 ≤ℤ s.last_drift_us) × (s.last_drift_us ≤ℤ pos 100000)

abbrev pub IsValid : GpsPpsTime → Type 0
IsValid s =
    IsAnchored s × IsJudged s × IsPaired s × IsLevel s × IsClose s × (s.epoch_error_streak < 3)

pub judge_period-IsJudged : (s : GpsPpsTime) (b : Bool) → IsJudged s → IsJudged (judge_period s b)
unfolding judge_period
judge_period-IsJudged s false h = ground arith
judge_period-IsJudged s true h = ground arith

add_latency-IsPaired : (s : GpsPpsTime) (d : ℤ) → IsPaired s → IsPaired (add_latency s d)
unfolding add_latency
add_latency-IsPaired s d h = ground (arith, +ℤ_parts s.lat_level_ticks d)

pub track_isr_latency-IsPaired :
    (s : GpsPpsTime) (u : ℕ) (b : Bool) → IsPaired s → IsPaired (track_isr_latency s u b)
unfolding track_isr_latency
track_isr_latency-IsPaired s u b h = ground (
  arith,
  add_latency-IsPaired s
      (pos (sub32 u s.lat_prev_isr_us * 80) -ℤ pos (sub32 s.pps_cap_prev s.lat_prev_cap)) h,
)

pub lose_sync-IsValid :
    (s : GpsPpsTime) → IsJudged s → IsPaired s → s.epoch_error_streak < 3 → IsValid (lose_sync s)
unfolding lose_sync publish_pps_anchor
lose_sync-IsValid s hj hp he = ground arith

hard_sync-IsValid :
    (s : GpsPpsTime)
    → IsJudged s
    → IsPaired s
    → IsLevel s
    → s.epoch_error_streak < 3
    → IsValid (hard_sync s).0
unfolding hard_sync
hard_sync-IsValid s hj hp hl he = ground arith

-- The mean stays between its old value and the measurement.
learn_drift-IsLevel : (s : GpsPpsTime) → IsLevel s → IsLevel (learn_drift s)
unfolding learn_drift
learn_drift-IsLevel s h =
    let m = s.drift_mean_x256 in
    let d = s.last_drift_us in
    let gap = d *ℤ pos 256 -ℤ m in
    ground (
      arith,
      *ℤ_parts d 256,
      -ℤ_parts (d *ℤ pos 256) m,
      div_trunc_parts gap 128,
      +ℤ_parts m (div_trunc gap 128),
    )

pub learn_drift-keeps :
    (s : GpsPpsTime)
    → learn_drift s ≡ record s {
      drift_mean_x256 = (learn_drift s).drift_mean_x256;
      last_clock_offset_us = (learn_drift s).last_clock_offset_us;
    }
unfolding learn_drift
learn_drift-keeps s = ground arith

pub learn_rate-keeps :
    (s : GpsPpsTime)
    → learn_rate s ≡ record s { pps_cap_ppb_mean_x256 = (learn_rate s).pps_cap_ppb_mean_x256 }
unfolding learn_rate
learn_rate-keeps s = ground arith

pub record_pred_error-keeps :
    (s : GpsPpsTime) (a : Option PpsAnchor) (m : ℕ)
    → record_pred_error s a m ≡ record s {
      anchor_pred_error_us = (record_pred_error s a m).anchor_pred_error_us;
      anchor_pred_error_valid = (record_pred_error s a m).anchor_pred_error_valid;
    }
unfolding record_pred_error
record_pred_error-keeps s none m = ground arith
record_pred_error-keeps s (some a) m = ground arith

-- What a pulse must bring for its branch to restore the invariant.
abbrev pub IsPending : GpsPpsTime → Type 0
IsPending s = IsAnchored s × IsJudged s × IsPaired s × IsLevel s × (s.epoch_error_streak < 3)

slew-IsValid :
    (s : GpsPpsTime) (m : ℕ) → s.pps_synced ≡ true → IsClose s → IsPending s → IsValid (slew s m).0
unfolding slew publish_pps_anchor
slew-IsValid s m hs hc h =
    let d = learn_drift s in
    let r = learn_rate d in
    let a = get_pps_anchor (quiet_reads r) in
    ground (
      arith,
      learn_drift-IsLevel s _,
      learn_drift-keeps s,
      learn_rate-keeps d,
      record_pred_error-keeps r a m,
    )

hard_step-IsValid : (s : GpsPpsTime) → s.pps_synced ≡ true → IsPending s → IsValid (hard_step s).0
unfolding hard_step
hard_step-IsValid s hs h = ground arith

pub discipline-IsValid : (s : GpsPpsTime) (m : ℕ) → IsPending s → IsValid (discipline s m).0
unfolding discipline
discipline-IsValid s m (ha, hj, hp, hl, he) =
    let Goal : GpsPpsTime × List ClockCall → Type 0 = λ r. IsValid r.0 in
    if_elim Goal (not s.pps_synced) (λ _. hard_sync-IsValid s hj hp hl he)
      λ hs.
        if_elim Goal (beyond s.last_drift_us 2000000) (λ _. lose_sync-IsValid s hj hp he)
          λ _.
            if_elim Goal (beyond s.last_drift_us 100000)
              (λ _. hard_step-IsValid s (ground arith) (ha, hj, hp, hl, he))
              λ hd. slew-IsValid s m (ground arith) (ground arith) (ha, hj, hp, hl, he)
