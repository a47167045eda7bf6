-- ===== src/Gps/Reach.antt =====
-- The time source as a transition system: its interrupt, its capture, its main loop and its NMEA
-- handler in any order, from the fields' default values.
use esphome_gps_pps_ntp_serv.Base.{
  ℕ, ◌+◌, ◌≡◌, ◌==◌, Bool, true, false, not, ◌&&◌, ◌||◌, if_elim, arith, List, [], some, ℤ, pos,
  eqb_ℤ, sub32, u32,
}
use esphome_gps_pps_ntp_serv.Gps.State.{PpsAnchor, GpsPpsTime, ClockCall, initial}
use esphome_gps_pps_ntp_serv.Gps.Anchor.{get_pps_anchor, quiet_reads}
use esphome_gps_pps_ntp_serv.Gps.Isr.{pps_isr, on_cap}
use esphome_gps_pps_ntp_serv.Gps.Latency.{add_latency, track_isr_latency}
use esphome_gps_pps_ntp_serv.Gps.Period.{judge_period, period_in_spec, extra_epochs}
use esphome_gps_pps_ntp_serv.Gps.Pulse.{
  PulseReads, gsv_total, system_us_at_pps_raw, skip_pulse, advance, apply_pps_correction, loop,
}
use esphome_gps_pps_ntp_serv.Gps.Nmea.{
  Sentence, update_satellites, has_time, check_epoch, count_error, step_epoch, follow_epoch,
  coarse_time, on_update,
}
use esphome_gps_pps_ntp_serv.Gps.Invariant.{
  IsValid, IsPending, judge_period-IsJudged, track_isr_latency-IsPaired, lose_sync-IsValid,
  discipline-IsValid,
}

pub judge_period-keeps :
    (s : GpsPpsTime) (b : Bool)
    → judge_period s b ≡ record s {
      pps_period_good_streak = (judge_period s b).pps_period_good_streak;
      pps_period_bad_streak = (judge_period s b).pps_period_bad_streak;
      pps_period_healthy = (judge_period s b).pps_period_healthy;
    }
unfolding judge_period
judge_period-keeps s false = ground arith
judge_period-keeps s true = ground arith

pub track_isr_latency-keeps :
    (s : GpsPpsTime) (u : ℕ) (b : Bool)
    → let t = track_isr_latency s u b in
      t ≡ record s {
        lat_paired = t.lat_paired;
        lat_prev_isr_us = t.lat_prev_isr_us;
        lat_prev_cap = t.lat_prev_cap;
        lat_prev_cap_count = t.lat_prev_cap_count;
        lat_level_ticks = t.lat_level_ticks;
        lat_min_ticks = t.lat_min_ticks;
        lat_sum_ticks = t.lat_sum_ticks;
        lat_n = t.lat_n;
      }
unfolding track_isr_latency add_latency
track_isr_latency-keeps s u b = ground arith

advance-IsPending : (s : GpsPpsTime) (raw : ℤ) → IsValid s → IsPending (advance s raw)
unfolding advance
advance-IsPending s raw (ha, hj, hp, hl, hc, he) =
    let m = s.last_pps_micros in
    let interval = sub32 m s.prev_pps_micros in
    let ok = period_in_spec interval in
    let start : GpsPpsTime = record s { prev_pps_micros = m } in
    let judged = judge_period start ok in
    let clean = ok && eqb_ℤ (extra_epochs interval) (pos 0) in
    ground (
      arith,
      judge_period-keeps start ok,
      judge_period-IsJudged start ok hj,
      track_isr_latency-keeps judged m clean,
      track_isr_latency-IsPaired judged m clean,
    )

skip_pulse-IsValid : (s : GpsPpsTime) (r : PulseReads) → IsValid s → IsValid (skip_pulse s r)
unfolding skip_pulse
skip_pulse-IsValid s r h = ground (arith, lose_sync-IsValid s)

apply-IsValid : (s : GpsPpsTime) (r : PulseReads) → IsValid s → IsValid (apply_pps_correction s r).0
unfolding apply_pps_correction
apply-IsValid s r h =
    let Goal : GpsPpsTime × List ClockCall → Type 0 = λ r. IsValid r.0 in
    let counted : GpsPpsTime = record s {
      pps_count = u32 (s.pps_count + 1);
      last_pps_millis = r.stamp_ms;
    } in
    if_elim Goal (not s.gps_time_valid || eqb_ℤ s.last_gps_epoch (pos 0)) (λ _. h)
      λ _.
        if_elim Goal (s.last_satellite_count == 0 && gsv_total s == 0)
          (λ _. skip_pulse-IsValid s r h)
          λ _.
            if_elim Goal (counted.pps_count == 1) (λ _. h)
              λ _. discipline-IsValid _ _ (advance-IsPending counted (system_us_at_pps_raw s r) h)

loop-IsValid : (s : GpsPpsTime) (r : PulseReads) → IsValid s → IsValid (loop s r).0
unfolding loop
loop-IsValid s r h =
    let Goal : GpsPpsTime × List ClockCall → Type 0 = λ r. IsValid r.0 in
    if_elim Goal s.pps_flag (λ _. apply-IsValid (record s { pps_flag = false }) r h) λ _. h

check_epoch-IsValid : (s : GpsPpsTime) (n : Sentence) → IsValid s → IsValid (check_epoch s n).0
unfolding check_epoch step_epoch count_error
check_epoch-IsValid s n h = ground arith

follow_epoch-IsValid : (s : GpsPpsTime) (n : Sentence) → IsValid s → IsValid (follow_epoch s n)
unfolding follow_epoch
follow_epoch-IsValid s n (ha, hj, hp, hl, hc, he) = ground (arith, lose_sync-IsValid s hj hp he)

coarse_time-IsValid : (s : GpsPpsTime) (n : Sentence) → IsValid s → IsValid (coarse_time s n).0
unfolding coarse_time
coarse_time-IsValid s n h = ground arith

on_update-IsValid : (s : GpsPpsTime) (n : Sentence) → IsValid s → IsValid (on_update s n).0
unfolding on_update update_satellites
on_update-IsValid s n h =
    let Goal : GpsPpsTime × List ClockCall → Type 0 = λ r. IsValid r.0 in
    if_elim Goal (has_time n)
      (λ _. coarse_time-IsValid _ n (
        follow_epoch-IsValid _ n
          (check_epoch-IsValid (record (update_satellites s n) { gps_time_valid = true }) n h)))
      λ _. h

-- One step, and what it asks of the system clock.
pub data Step : GpsPpsTime → GpsPpsTime → List ClockCall → Type 0 where
  edge : (s : GpsPpsTime) (now : ℕ) → Step s (pps_isr s now) []
  capture : (s : GpsPpsTime) (ticks : ℕ) → Step s (on_cap s ticks) []
  pulse : (s : GpsPpsTime) (r : PulseReads) → Step s (loop s r).0 (loop s r).1
  sentence : (s : GpsPpsTime) (n : Sentence) → Step s (on_update s n).0 (on_update s n).1

-- The states that any sequence of steps reaches.
pub data Reachable : GpsPpsTime → Type 0 where
  start : Reachable initial
  next : {s t : GpsPpsTime} {calls : List ClockCall} → Reachable s → Step s t calls → Reachable t

Step-IsValid : {s t : GpsPpsTime} {calls : List ClockCall} → Step s t calls → IsValid s → IsValid t
unfolding pps_isr on_cap
Step-IsValid (edge s now) h = ground arith
Step-IsValid (capture s ticks) h = h
Step-IsValid (pulse s r) h = loop-IsValid s r h
Step-IsValid (sentence s n) h = on_update-IsValid s n h

-- In every state that the time source reaches, whatever its pulses, sentences and clock readings are:
-- without PPS synchronisation the published anchor is the empty one (epoch 0); the two period streaks
-- stay within 3 and 10, one of them is 0, and the health verdict stands until its streak is full; the
-- latency floor is not above the level; the drift mean stays within 49 us (x256); the drift that is
-- left is at most 100 ms; fewer than three disagreeing sentences are pending.
pub Reachable-IsValid : {s : GpsPpsTime} → Reachable s → IsValid s
Reachable-IsValid start = ground arith
Reachable-IsValid (next r step) = Step-IsValid step (Reachable-IsValid r)

-- In every state that the time source reaches, a reader without interruption is given an anchor only
-- while the pulse is trusted: after a reset it is given none.
pub anchor-needs_sync :
    {s : GpsPpsTime} {a : PpsAnchor}
    → Reachable s
    → get_pps_anchor (quiet_reads s) ≡ some a
    → (s.pps_synced ≡ true) × (a ≡ s.anchor)
unfolding get_pps_anchor
anchor-needs_sync r h = let valid = Reachable-IsValid r in ground arith
