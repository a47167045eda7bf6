-- ===== src/Gps/PulseSteps.antt =====
-- One edge and the main loop's handling of it (`pps_isr` and `loop` of gps_pps_time.cpp), for a
-- receiver that has a time and satellites.
use esphome_gps_pps_ntp_serv.Base.{
  ℕ, ◌+◌, ◌≤◌, ◌<◌, ◌≡◌, ◌==◌, ◌⊎◌, refl, ap, Bool, true, false, not, ◌&&◌, ◌||◌, arith, List, [],
  ℤ, pos, eqb_ℤ, sub32, u32, u32_mod, ◌+ℤ◌, ◌≤ℤ◌, if◌then◌else◌,
}
use mathlib.Core.Path.{◌∙◌}
use esphome_gps_pps_ntp_serv.Gps.State.{GpsPpsTime, ClockCall}
use esphome_gps_pps_ntp_serv.Gps.Isr.{pps_isr}
use esphome_gps_pps_ntp_serv.Gps.Period.{judge_period, period_in_spec, extra_epochs}
use esphome_gps_pps_ntp_serv.Gps.Discipline.{discipline}
use esphome_gps_pps_ntp_serv.Gps.Pulse.{
  PulseReads, system_us_at_pps_raw, advance, apply_pps_correction, loop, gsv_total,
}
use esphome_gps_pps_ntp_serv.Gps.Reach.{judge_period-keeps, track_isr_latency-keeps}
use esphome_gps_pps_ntp_serv.Gps.Epoch.{IsSeconds, advance-counts, period_in_spec_iff}

-- The receiver has a time and satellites, and the pulse's period is trusted.
pub record IsReceiving (s : GpsPpsTime) : Type 0 where
  pub valid : s.gps_time_valid ≡ true
  pub epoch : pos 1 ≤ℤ s.last_gps_epoch
  pub satellites : 0 < s.last_satellite_count
  pub healthy : s.pps_period_healthy ≡ true

-- An edge that the interrupt's guard lets through.
abbrev pub Accepted : GpsPpsTime → ℕ → Type 0
Accepted s now = (s.isr_anchor_micros ≡ 0) ⊎ (900000 ≤ sub32 now s.isr_anchor_micros)

-- An edge at `now`, and the main loop's handling of it.
abbrev pub pulse : GpsPpsTime → ℕ → PulseReads → GpsPpsTime × List ClockCall
pulse s now r = loop (pps_isr s now) r

-- A pulse is counted and stamped.
abbrev pub counted : GpsPpsTime → ℕ → PulseReads → GpsPpsTime
counted s now r = record s {
  pps_flag = false;
  last_pps_micros = now;
  isr_anchor_micros = now;
  pps_count = u32 (s.pps_count + 1);
  last_pps_millis = r.stamp_ms;
}

-- The interrupt's store.
abbrev pub flagged : GpsPpsTime → ℕ → GpsPpsTime
flagged s now = record s { last_pps_micros = now; isr_anchor_micros = now; pps_flag = true }

pps_isr-Accepted : (s : GpsPpsTime) (now : ℕ) → Accepted s now → pps_isr s now ≡ flagged s now
unfolding pps_isr
pps_isr-Accepted s now a = ground arith

has_time :
    (s : GpsPpsTime)
    → IsReceiving s
    → (not s.gps_time_valid || eqb_ℤ s.last_gps_epoch (pos 0)) ≡ false
has_time s h = ground (arith, h.valid, h.epoch)

has_satellites :
    (s : GpsPpsTime) → IsReceiving s → (s.last_satellite_count == 0 && gsv_total s == 0) ≡ false
has_satellites s h = ground (arith, h.satellites)

abbrev pub unflagged : GpsPpsTime → ℕ → GpsPpsTime
unflagged s now = record s { last_pps_micros = now; isr_anchor_micros = now; pps_flag = false }

-- What a pulse does, by whether it is the first.
abbrev pub by_count : GpsPpsTime → ℕ → PulseReads → GpsPpsTime × List ClockCall
by_count s now r =
    if u32 (s.pps_count + 1) == 1
    then (record (counted s now r) { prev_pps_micros = now }, [])
    else discipline (advance (counted s now r) (system_us_at_pps_raw (unflagged s now) r)) now

handled :
    (s : GpsPpsTime) (now : ℕ) (r : PulseReads)
    → IsReceiving s
    → Accepted s now
    → pulse s now r ≡ by_count s now r
unfolding loop apply_pps_correction gsv_total
handled s now r h a = rw (pps_isr-Accepted s now a, has_time s h, has_satellites s h) refl

-- What `advance` leaves alone.
pub advance-keeps :
    (s : GpsPpsTime) (raw : ℤ)
    → let t = advance s raw in
      (t.pps_synced ≡ s.pps_synced)
      × (t.last_pps_millis ≡ s.last_pps_millis)
      × (t.anchor_seq ≡ s.anchor_seq)
      × (t.gps_time_valid ≡ s.gps_time_valid)
      × (t.last_satellite_count ≡ s.last_satellite_count)
      × (t.pps_count ≡ s.pps_count)
      × (t.isr_anchor_micros ≡ s.isr_anchor_micros)
      × (t.prev_pps_micros ≡ s.last_pps_micros)
unfolding advance
advance-keeps s raw =
    let start : GpsPpsTime = record s { prev_pps_micros = s.last_pps_micros } in
    let interval : ℕ = sub32 s.last_pps_micros s.prev_pps_micros in
    let ok : Bool = period_in_spec interval in
    let clean : Bool = ok && eqb_ℤ (extra_epochs interval) (pos 0) in
    ground (
      arith,
      judge_period-keeps start ok,
      track_isr_latency-keeps (judge_period start ok) s.last_pps_micros clean,
    )

judge_good :
    (s : GpsPpsTime) → s.pps_period_healthy ≡ true → (judge_period s true).pps_period_healthy ≡ true
unfolding judge_period
judge_good s h = ground arith

-- A pulse in spec does not shake the trust in the period.
advance-healthy :
    (s : GpsPpsTime) (raw : ℤ)
    → s.pps_period_healthy ≡ true
    → period_in_spec (sub32 s.last_pps_micros s.prev_pps_micros) ≡ true
    → (advance s raw).pps_period_healthy ≡ true
unfolding advance
advance-healthy s raw h ok =
    let start : GpsPpsTime = record s { prev_pps_micros = s.last_pps_micros } in
    let interval : ℕ = sub32 s.last_pps_micros s.prev_pps_micros in
    let clean : Bool = true && eqb_ℤ (extra_epochs interval) (pos 0) in
    rw ok (
      ground (
        arith,
        judge_good start h,
        track_isr_latency-keeps (judge_period start true) s.last_pps_micros clean,
      ))

-- The first pulse only counts.
pub first_pulse :
    (s : GpsPpsTime) (now : ℕ) (r : PulseReads)
    → IsReceiving s
    → Accepted s now
    → s.pps_count ≡ 0
    → (pulse s now r).0 ≡ record (counted s now r) { prev_pps_micros = now }
first_pulse s now r h a zero = ap (λ p. p.0) (handled s now r h a) ∙ ground (arith, zero)

-- A later one, `i` us after the last.
abbrev pub advanced : GpsPpsTime → ℕ → PulseReads → GpsPpsTime
advanced s now r = advance (counted s now r) (system_us_at_pps_raw (unflagged s now) r)

pub later_pulse :
    (s : GpsPpsTime) (now : ℕ) (r : PulseReads)
    → IsReceiving s
    → Accepted s now
    → 0 < s.pps_count
    → s.pps_count < u32_mod
    → pulse s now r ≡ discipline (advanced s now r) now
later_pulse s now r h a lo hi =
    let no : (u32 (s.pps_count + 1) == 1) ≡ false = ground arith in handled s now r h a ∙ rw no refl

-- What an edge that is due brings, `i` us after the last one and about `k` seconds.
pub record Due (s : GpsPpsTime) (now : ℕ) (r : PulseReads) (k : ℕ) : Type 0 where
  pub epoch : (advanced s now r).last_gps_epoch ≡ s.last_gps_epoch +ℤ pos k
  pub healthy : (advanced s now r).pps_period_healthy ≡ true

pub due :
    (s : GpsPpsTime) (now : ℕ) (r : PulseReads) (i k : ℕ)
    → IsReceiving s
    → i < 2147483648
    → IsSeconds i k
    → s.prev_pps_micros < u32_mod
    → now ≡ u32 (s.prev_pps_micros + i)
    → Due s now r k
due s now r i k h hi hk hp e =
    let raw : ℤ = system_us_at_pps_raw (unflagged s now) r in
    let t : GpsPpsTime = counted s now r in
    let same : sub32 now s.prev_pps_micros ≡ i = omega (arith, hi, hp) in
    let ok : period_in_spec i ≡ true = (period_in_spec_iff i hi).1 (k, hk) in
    record {
      epoch = advance-counts t raw i k hi hk same;
      healthy = advance-healthy t raw h.healthy (ap period_in_spec same ∙ ok);
    }
