-- ===== src/Gps/Between.antt =====
-- What can happen to the time source between two NMEA sentences (`pps_isr`, the capture's callback and
-- `loop` of gps_pps_time.cpp): the pending epoch error is as it was.
use esphome_gps_pps_ntp_serv.Base.{
  ℕ, ◌+◌, ◌≡◌, ◌&&◌, ◌∙◌, refl, false, arith, Option, none, some, ℤ, pos, eqb_ℤ, sub32, u32,
}
use esphome_gps_pps_ntp_serv.Gps.State.{GpsPpsTime, PpsAnchor, publish_pps_anchor, lose_sync}
use esphome_gps_pps_ntp_serv.Gps.Anchor.{get_pps_anchor, quiet_reads}
use esphome_gps_pps_ntp_serv.Gps.Isr.{pps_isr, on_cap}
use esphome_gps_pps_ntp_serv.Gps.Latency.{}
use esphome_gps_pps_ntp_serv.Gps.Period.{judge_period, period_in_spec, extra_epochs}
use esphome_gps_pps_ntp_serv.Gps.Discipline.{
  hard_sync, hard_step, learn_drift, learn_rate, record_pred_error, slew, discipline,
}
use esphome_gps_pps_ntp_serv.Gps.Pulse.{
  PulseReads, system_us_at_pps_raw, skip_pulse, advance, apply_pps_correction, loop,
}
use esphome_gps_pps_ntp_serv.Gps.Reach.{judge_period-keeps, track_isr_latency-keeps}

-- The pending epoch error is the same.
pub record SameError (s t : GpsPpsTime) : Type 0 where
  pub last : t.epoch_error_last ≡ s.epoch_error_last
  pub streak : t.epoch_error_streak ≡ s.epoch_error_streak

advance-SameError : (s : GpsPpsTime) (raw : ℤ) → SameError s (advance s raw)
unfolding advance
advance-SameError s raw =
    let m = s.last_pps_micros in
    let interval = sub32 m s.prev_pps_micros in
    let ok = period_in_spec interval in
    let start : GpsPpsTime = record s { prev_pps_micros = m } in
    let clean = ok && eqb_ℤ (extra_epochs interval) (pos 0) in
    ground
      (arith, judge_period-keeps start ok, track_isr_latency-keeps (judge_period start ok) m clean)

record_pred_error-SameError :
    (s : GpsPpsTime) (o : Option PpsAnchor) (m : ℕ) → SameError s (record_pred_error s o m)
unfolding record_pred_error
record_pred_error-SameError s none m = record { last = refl; streak = refl }
record_pred_error-SameError s (some prev) m = ground arith

learned-SameError : (s : GpsPpsTime) → SameError s (learn_rate (learn_drift s))
unfolding learn_rate learn_drift
learned-SameError s = ground arith

slew-SameError : (s : GpsPpsTime) (m : ℕ) → SameError s (slew s m).0
unfolding slew publish_pps_anchor
slew-SameError s m =
    let learned : GpsPpsTime = learn_rate (learn_drift s) in
    ground (
      arith,
      learned-SameError s,
      record_pred_error-SameError learned (get_pps_anchor (quiet_reads learned)) m,
    )

discipline-SameError : (s : GpsPpsTime) (m : ℕ) → SameError s (discipline s m).0
unfolding discipline hard_sync hard_step lose_sync publish_pps_anchor
discipline-SameError s m = ground (arith, slew-SameError s m)

skip_pulse-SameError : (s : GpsPpsTime) (r : PulseReads) → SameError s (skip_pulse s r)
unfolding skip_pulse lose_sync publish_pps_anchor
skip_pulse-SameError s r = ground arith

apply-SameError : (s : GpsPpsTime) (r : PulseReads) → SameError s (apply_pps_correction s r).0
unfolding apply_pps_correction
apply-SameError s r =
    let counted : GpsPpsTime = record s {
      pps_count = u32 (s.pps_count + 1);
      last_pps_millis = r.stamp_ms;
    } in
    let raw : ℤ = system_us_at_pps_raw s r in
    ground (
      arith,
      skip_pulse-SameError s r,
      advance-SameError counted raw,
      discipline-SameError (advance counted raw) s.last_pps_micros,
    )

loop-SameError : (s : GpsPpsTime) (r : PulseReads) → SameError s (loop s r).0
unfolding loop
loop-SameError s r = ground (arith, apply-SameError (record s { pps_flag = false }) r)

isr-SameError : (s : GpsPpsTime) (now : ℕ) → SameError s (pps_isr s now)
unfolding pps_isr
isr-SameError s now = ground arith

cap-SameError : (s : GpsPpsTime) (ticks : ℕ) → SameError s (on_cap s ticks)
unfolding on_cap
cap-SameError s ticks = ground arith

-- Edges, captures and rounds of the main loop, in any order and number.
pub data Between (s : GpsPpsTime) : GpsPpsTime → Type 0 where
  nothing : Between s s
  edge : {t : GpsPpsTime} → Between s t → (now : ℕ) → Between s (pps_isr t now)
  capture : {t : GpsPpsTime} → Between s t → (ticks : ℕ) → Between s (on_cap t ticks)
  round : {t : GpsPpsTime} → Between s t → (r : PulseReads) → Between s (loop t r).0

then_same : {s t u : GpsPpsTime} → SameError s t → SameError t u → SameError s u
then_same h k = record { last = k.last ∙ h.last; streak = k.streak ∙ h.streak }

pub Between-SameError : {s t : GpsPpsTime} → Between s t → SameError s t
Between-SameError nothing = record { last = refl; streak = refl }
Between-SameError (edge {t = t} b now) = then_same (Between-SameError b) (isr-SameError t now)
Between-SameError (capture {t = t} b ticks) =
    then_same (Between-SameError b) (cap-SameError t ticks)
Between-SameError (round {t = t} b r) = then_same (Between-SameError b) (loop-SameError t r)
