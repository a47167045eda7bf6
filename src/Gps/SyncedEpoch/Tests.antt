-- ===== src/Gps/SyncedEpoch/Tests.antt =====
-- Three sentences to a source that is a second ahead, with a pulse after each of the first two.
use esphome_gps_pps_ntp_serv.Base.{
  ℕ, ◌+◌, ◌/◌, ◌≡◌, refl, ap, true, none, some, [], ◌∷◌, arith, pos, pos_part, ◌+ℤ◌, ◌-ℤ◌, ◌*ℤ◌,
  div_trunc, rem_trunc,
}
use esphome_gps_pps_ntp_serv.Gps.State.{
  GpsPpsTime, initial, settimeofday, adjtime, publish_pps_anchor,
}
use esphome_gps_pps_ntp_serv.Gps.Anchor.{get_pps_anchor, pps_capture_ppb_mean}
use esphome_gps_pps_ntp_serv.Gps.Isr.{pps_isr}
use esphome_gps_pps_ntp_serv.Gps.Latency.{track_isr_latency}
use esphome_gps_pps_ntp_serv.Gps.Period.{
  judge_period, period_in_spec, period_residual, extra_epochs, isr_latency,
}
use esphome_gps_pps_ntp_serv.Gps.Discipline.{
  discipline, slew, learn_drift, learn_rate, rate_ppb, record_pred_error,
}
use esphome_gps_pps_ntp_serv.Gps.Pulse.{
  loop, apply_pps_correction, advance, system_us_at_pps_raw, gsv_total,
}
use esphome_gps_pps_ntp_serv.Gps.Nmea.{
  Sentence, cast_i8, count_or, has_time, epoch_err_s, delta_ms, count_error, check_epoch,
  update_satellites, follow_epoch, coarse_time, on_update,
}
use esphome_gps_pps_ntp_serv.Gps.Between.{nothing, edge, round}
use esphome_gps_pps_ntp_serv.Gps.Sentences.{IsNear, third_sentence-steps}
use esphome_gps_pps_ntp_serv.Gps.SyncedEpoch.{Outcome, synced-epoch}

-- A sentence for second `at`, handled 70 ms after that second on a clock that reads one second more.
abbrev said : ℕ → Sentence
said at = record {
  satellites = some (pos 7);
  gp_sats = some (pos 9);
  gl_sats = none;
  ga_sats = none;
  gb_sats = none;
  bd_sats = some (pos 4);
  is_valid = true;
  is_updated = true;
  year = 2026;
  timestamp = pos at;
  now_sec = pos (at + 1);
  now_usec = pos 70000;
  fix_sec = pos (at + 1);
  fix_usec = pos 70100;
}

-- A pulse at `m` us that is handled at once, on a clock that reads second `sec` and 40 us.
abbrev beat : GpsPpsTime → ℕ → ℕ → GpsPpsTime
beat s m sec =
    (loop (pps_isr s m) (record {
      read_micros = m;
      tv_sec = pos sec;
      tv_usec = pos 40;
      check_ms = 0;
      stamp_ms = m / 1000;
    })).0

-- The source with its counter and its clock a second ahead, when a second has begun.
abbrev first : GpsPpsTime
first = record initial {
  pps_synced = true;
  last_gps_epoch = pos 1501;
  pps_count = 5;
  prev_pps_micros = 1000000;
  isr_anchor_micros = 1000000;
}

abbrev second : GpsPpsTime
second = beat (on_update first (said 1500)).0 2000000 1502

abbrev third : GpsPpsTime
third = beat (on_update second (said 1501)).0 3000000 1503

one_second :
    (epoch_err_s (delta_ms (said 1500)) ≡ pos 1)
    × (epoch_err_s (delta_ms (said 1501)) ≡ pos 1)
    × (epoch_err_s (delta_ms (said 1502)) ≡ pos 1)
unfolding epoch_err_s delta_ms cast_i8 div_trunc ◌+ℤ◌ ◌-ℤ◌ ◌*ℤ◌
one_second = (refl, refl, refl)

timed : (at : ℕ) → has_time (said at) ≡ true
unfolding has_time
timed at = refl

pulsed :
    (second.pps_synced ≡ true)
    × (third.pps_synced ≡ true)
    × (second.last_gps_epoch ≡ pos 1502)
    × (third.last_gps_epoch ≡ pos 1503)
    × (third.epoch_error_streak ≡ 2)
    × (third.epoch_error_last ≡ pos 1)
unfolding get_pps_anchor publish_pps_anchor pps_isr loop apply_pps_correction advance discipline
    slew learn_drift learn_rate rate_ppb record_pred_error pps_capture_ppb_mean judge_period
    track_isr_latency period_in_spec period_residual extra_epochs isr_latency on_update
    update_satellites count_or has_time check_epoch count_error epoch_err_s delta_ms cast_i8
    follow_epoch coarse_time system_us_at_pps_raw gsv_total div_trunc rem_trunc ◌+ℤ◌ ◌-ℤ◌ ◌*ℤ◌
pulsed = (refl, refl, refl, refl, refl, refl)

IsNear-seconds :
    IsNear (said 1500) (pos 1501)
    × IsNear (said 1501) (pos 1502)
    × IsNear (said 1502) (pos 1503 -ℤ pos 1)
unfolding ◌-ℤ◌
IsNear-seconds = omega arith

near :
    IsNear (said 1500) (pos 1501)
    × IsNear (said 1501) second.last_gps_epoch
    × IsNear (said 1502) (third.last_gps_epoch -ℤ pos 1)
near = rw (pulsed.2, pulsed.3) IsNear-seconds

third_sentence-steps_example :
    let (t1, c1) = on_update first (said 1500) in
    let (t2, c2) = on_update second (said 1501) in
    let (t3, c3) = on_update third (said 1502) in
    (t1.last_gps_epoch ≡ pos 1501)
    × (c1 ≡ [])
    × (t2.last_gps_epoch ≡ second.last_gps_epoch)
    × (c2 ≡ [])
    × (t3.last_gps_epoch ≡ third.last_gps_epoch -ℤ pos 1)
    × (c3 ≡ settimeofday (pos 1503 -ℤ pos 1) (pos 70100) ∷ adjtime (pos 0) (pos 0) ∷ [])
third_sentence-steps_example =
    third_sentence-steps first second third (said 1500) (said 1501) (said 1502) (pos 1) refl
      (refl, pulsed.0, pulsed.1) (round (edge nothing _) _) (round (edge nothing _) _)
      (λ h. omega (arith, ap pos_part h)) (timed 1500, near.0, one_second.0)
      (timed 1501, near.1, one_second.1) (timed 1502, near.2, one_second.2)

synced-epoch_example : Outcome third (said 1502) (on_update third (said 1502)).0
synced-epoch_example = synced-epoch third (said 1502) pulsed.1
