-- ===== src/Gps/Tests.antt =====
-- The time source from its first sentence to a disciplined pulse, and the theorems on such states.
use esphome_gps_pps_ntp_serv.Base.{
  ℕ, inl, inr, List, ◌≢◌, ◌≡◌, refl, true, false, arith, replicate, none, some, [], ◌∷◌, ℤ, pos,
  neg, ◌+ℤ◌, ◌-ℤ◌, ◌*ℤ◌, ◌≤ℤ◌, div_trunc, rem_trunc,
}
use esphome_gps_pps_ntp_serv.Gps.State.{PpsAnchor, GpsPpsTime, initial, publish_pps_anchor}
use esphome_gps_pps_ntp_serv.Gps.Anchor.{
  AnchorRead, get_pps_anchor, quiet_reads, pps_capture_ppb_mean,
}
use esphome_gps_pps_ntp_serv.Gps.Isr.{pps_isr}
use esphome_gps_pps_ntp_serv.Gps.Latency.{track_isr_latency}
use esphome_gps_pps_ntp_serv.Gps.Period.{
  extra_epochs, isr_latency, period_residual, period_in_spec, judge_period,
}
use esphome_gps_pps_ntp_serv.Gps.Discipline.{
  set_second, hard_sync, learn_drift, learn_rate, rate_ppb, record_pred_error, slew, discipline,
}
use esphome_gps_pps_ntp_serv.Gps.Pulse.{
  PulseReads, system_us_at_pps_raw, gsv_total, advance, apply_pps_correction, loop,
}
use esphome_gps_pps_ntp_serv.Gps.Nmea.{
  Sentence, cast_i8, count_or, has_time, epoch_err_s, delta_ms, check_epoch, update_satellites,
  follow_epoch, coarse_time, on_update,
}
use esphome_gps_pps_ntp_serv.Gps.PulseSteps
use esphome_gps_pps_ntp_serv.Gps.Recovery.{IsSynced, two_pulses-synchronise, pulse-anchors}
use esphome_gps_pps_ntp_serv.Gps.AnchorStores.{Cell, here, cell_of, publish-Stores}
use esphome_gps_pps_ntp_serv.Gps.Seqlock.{
  Attempt, Attempts, BeganWith, attempt, more, none_left, get_pps_anchor-published,
}
use esphome_gps_pps_ntp_serv.Gps.Serving.{is_synchronized}
use esphome_gps_pps_ntp_serv.Gps.Invariant.{IsValid}
use esphome_gps_pps_ntp_serv.Gps.Reach.{
  Reachable, start, next, edge, pulse, sentence, Reachable-IsValid,
}
use esphome_gps_pps_ntp_serv.Gps.Rules.{judge_all, refused-until_ten_good}
use esphome_gps_pps_ntp_serv.Gps.Epoch.{advance-exact}

abbrev reads : ℤ → ℤ → ℕ → PulseReads
reads sec usec read_micros = record {
  tv_sec = sec;
  tv_usec = usec;
  read_micros = read_micros;
  check_ms = 0;
  stamp_ms = 500;
}

-- A sentence for second `at` with seven satellites, handled 70 ms after that second on a clock that
-- reads `now`.
abbrev at_second : ℤ → ℤ → Sentence
at_second at now = record {
  satellites = some (pos 7);
  gp_sats = some (pos 9);
  gl_sats = none;
  ga_sats = none;
  gb_sats = none;
  bd_sats = some (pos 4);
  is_valid = true;
  is_updated = true;
  year = 2026;
  timestamp = at;
  now_sec = now;
  now_usec = pos 70000;
  fix_sec = now;
  fix_usec = pos 70100;
}

-- A pulse at `m`, and the main loop after it.
abbrev beat : GpsPpsTime → ℕ → PulseReads → GpsPpsTime
beat s m r = (loop (pps_isr s m) r).0

abbrev located : GpsPpsTime
located = (on_update initial (at_second (pos 1000) (pos 0))).0

abbrev counted : GpsPpsTime
counted = beat located 1000000 (reads (pos 1000) (pos 90000) 1000010)

abbrev synced : GpsPpsTime
synced = beat counted 2000000 (reads (pos 1001) (pos 95000) 2000010)

abbrev disciplined : GpsPpsTime
disciplined = beat synced 3000000 (reads (pos 1002) (pos 30) 3000010)

beat-Reachable : {s : GpsPpsTime} → Reachable s → (m : ℕ) (r : PulseReads) → Reachable (beat s m r)
beat-Reachable {s} h m r = next (next h (edge s m)) (pulse (pps_isr s m) r)

disciplined-Reachable : Reachable disciplined
disciplined-Reachable =
    beat-Reachable
      (beat-Reachable
        (beat-Reachable (next start (sentence initial (at_second (pos 1000) (pos 0)))) _ _) _ _)
      _ _

Reachable-IsValid_example : IsValid disciplined
Reachable-IsValid_example = Reachable-IsValid disciplined-Reachable

abbrev served : PpsAnchor
served = record { epoch = pos 1002; micros = 3000000; drift_ppb = pos 0 }

served_lem : get_pps_anchor (quiet_reads disciplined) ≡ some served
unfolding get_pps_anchor publish_pps_anchor pps_isr loop apply_pps_correction advance discipline
    slew hard_sync learn_drift learn_rate rate_ppb record_pred_error pps_capture_ppb_mean
    judge_period track_isr_latency period_in_spec period_residual extra_epochs isr_latency on_update
    update_satellites count_or has_time check_epoch epoch_err_s delta_ms cast_i8 follow_epoch
    coarse_time system_us_at_pps_raw gsv_total div_trunc rem_trunc ◌+ℤ◌ ◌-ℤ◌ ◌*ℤ◌
served_lem = refl

abbrev distrusted : GpsPpsTime
distrusted = record disciplined {
  pps_period_healthy = false;
  pps_period_bad_streak = 3;
  pps_period_good_streak = 0;
}

refused-until_ten_good_example :
    (is_synchronized (judge_all distrusted (false ∷ true ∷ true ∷ false ∷ [])) 600 ≡ false)
    × ((judge_all distrusted (false ∷ replicate 10 true)).pps_period_healthy ≡ true)
refused-until_ten_good_example =
    refused-until_ten_good distrusted (true ∷ true ∷ false ∷ []) 600 (ground arith) refl
      (omega arith)

-- Two seconds after a pulse just before the counter's wrap; the clock is 40 us fast.
abbrev wrapped : GpsPpsTime
wrapped = record initial {
  pps_synced = true;
  last_gps_epoch = pos 1500;
  prev_pps_micros = 4294967000;
  last_pps_micros = 1999705;
}

abbrev wrapped_reads : PulseReads
wrapped_reads = reads (pos 1502) (pos 1040) 2000705

clock : pos 1502 *ℤ pos 1000000 +ℤ pos 1040 ≡ pos 1502000040 +ℤ pos 1000
unfolding ◌+ℤ◌ ◌*ℤ◌
clock = refl

advance-exact_example :
    let t = advance wrapped (system_us_at_pps_raw wrapped wrapped_reads) in
    (t.last_gps_epoch ≡ pos 1500 +ℤ pos 2)
    × (t.last_gps_epoch *ℤ pos 1000000 +ℤ t.last_drift_us +ℤ isr_latency 2000001 ≡ pos 1502000040)
advance-exact_example =
    advance-exact wrapped wrapped_reads 2000001 2 1000 (pos 1502000040) (omega arith) (omega arith)
      (omega arith) (omega arith) (omega arith) (omega arith) clock

-- A receiver with a time, before its first pulse.
abbrev ready : GpsPpsTime
ready = record initial {
  gps_time_valid = true;
  last_gps_epoch = pos 1000;
  last_satellite_count = 7;
}

ready-IsReceiving : PulseSteps.IsReceiving ready
ready-IsReceiving = record {
  valid = refl;
  epoch = omega arith;
  satellites = omega arith;
  healthy = refl;
}

two_pulses-synchronise_example :
    let r1 = reads (pos 3) (pos 90000) 1000010 in
    let r2 = reads (pos 4) (pos 95000) 2000210 in
    let s2 = PulseSteps.pulse (PulseSteps.pulse ready 1000000 r1).0 2000200 r2 in
    (s2.1 ≡ set_second (pos 1000 +ℤ pos 1)) × IsSynced s2.0 2000200 r2 (pos 1000 +ℤ pos 1)
two_pulses-synchronise_example =
    two_pulses-synchronise ready 1000000 2000200 1000200 1 (reads (pos 3) (pos 90000) 1000010)
      (reads (pos 4) (pos 95000) 2000210) ready-IsReceiving refl refl (inl refl) (omega arith)
      (omega arith) (omega arith) (omega arith)

-- One second after a pulse just before the counter's wrap; the clock is 40 us fast.
abbrev running : GpsPpsTime
running = record initial {
  gps_time_valid = true;
  last_gps_epoch = pos 1500;
  last_satellite_count = 7;
  pps_synced = true;
  pps_count = 2;
  prev_pps_micros = 4294967000;
  isr_anchor_micros = 4294967000;
}

abbrev running_reads : PulseReads
running_reads = reads (pos 1501) (pos 1040) 1000705

running-IsReceiving : PulseSteps.IsReceiving running
running-IsReceiving = record {
  valid = refl;
  epoch = omega arith;
  satellites = omega arith;
  healthy = refl;
}

running_clock : pos 1501 *ℤ pos 1000000 +ℤ pos 1040 ≡ pos 1501000040 +ℤ pos 1000
unfolding ◌+ℤ◌ ◌*ℤ◌
running_clock = refl

running_close :
    ((pos 1500 +ℤ pos 1) *ℤ pos 1000000 ≤ℤ pos 1501000040 +ℤ pos 50000)
    × (pos 1501000040 ≤ℤ (pos 1500 +ℤ pos 1) *ℤ pos 1000000 +ℤ pos 50000)
unfolding ◌+ℤ◌ ◌*ℤ◌
running_close = (omega arith, omega arith)

pulse-anchors_example :
    let t = (PulseSteps.pulse running 999705 running_reads).0 in
    get_pps_anchor (quiet_reads t)
    ≡ some (record { epoch = pos 1500 +ℤ pos 1; micros = 999705; drift_ppb = t.anchor.drift_ppb })
pulse-anchors_example =
    pulse-anchors running 999705 1000001 1000 running_reads (pos 1501000040) running-IsReceiving
      refl (omega arith) (omega arith) (omega arith) (omega arith) (omega arith) refl (omega arith)
      (omega arith) (omega arith) running_clock running_close.0 running_close.1

-- A reader whose first attempt meets a publication, and whose second does not.
abbrev unpublished : GpsPpsTime
unpublished = record initial { anchor_seq = 4 }

abbrev fresh : PpsAnchor
fresh = record { epoch = pos 1500; micros = 77; drift_ppb = neg 3 }

abbrev published : GpsPpsTime
published = publish_pps_anchor unpublished (pos 1500) 77 (neg 3)

abbrev first_read : AnchorRead
first_read = record { before = 4; copy = initial.anchor; after = published.anchor_seq }

abbrev second_read : AnchorRead
second_read = record {
  before = published.anchor_seq;
  copy = published.anchor;
  after = published.anchor_seq;
}

abbrev met : List AnchorRead
met = first_read ∷ (second_read ∷ [])

met-Attempts : Attempts (cell_of unpublished) 5 met
met-Attempts =
    let c : Cell = cell_of unpublished in
    let d : Cell = cell_of published in
    let met_writer : Attempt c 5 first_read d =
      attempt here here here (publish-Stores unpublished (pos 1500) 77 (neg 3) (omega arith))
        (omega arith) in
    let met_nobody : Attempt d 0 second_read d = attempt here here here here (omega arith) in
    let last : Attempts d 0 (second_read ∷ []) = more met_nobody here (none_left d) (omega arith) in
    more met_writer here last (omega arith)

met_fresh : get_pps_anchor met ≡ some fresh
unfolding get_pps_anchor publish_pps_anchor
met_fresh = refl

get_pps_anchor-published_example : BeganWith met-Attempts fresh × (fresh.epoch ≢ pos 0)
get_pps_anchor-published_example =
    get_pps_anchor-published (record { word = omega arith; whole = inr refl }) met-Attempts
      (omega arith) met_fresh
