-- ===== src/Gps/Recovery.antt =====
-- From no synchronisation to an anchor: the pulses that it takes (gps_pps_time.cpp).
use esphome_gps_pps_ntp_serv.Base.{
  ℕ, ◌+◌, ◌%◌, ◌<◌, ◌≡◌, ◌≢◌, inr, refl, ap, true, false, arith, some, ℤ, pos, neg, u32, u32_mod,
  ◌+ℤ◌, ◌*ℤ◌, ◌≤ℤ◌, pos_part, neg_part, +ℤ_parts,
}
use mathlib.Core.Path.{◌∙◌}
use esphome_gps_pps_ntp_serv.Gps.State.{GpsPpsTime}
use esphome_gps_pps_ntp_serv.Gps.Period.{isr_latency}
use esphome_gps_pps_ntp_serv.Gps.Discipline.{hard_sync, set_second, discipline, slew, beyond}
use esphome_gps_pps_ntp_serv.Gps.Pulse.{PulseReads, system_us_at_pps_raw, advance}
use esphome_gps_pps_ntp_serv.Gps.Serving.{is_synchronized}
use esphome_gps_pps_ntp_serv.Gps.Anchor.{get_pps_anchor, quiet_reads}
use esphome_gps_pps_ntp_serv.Gps.Rules.{slew-anchor}
use esphome_gps_pps_ntp_serv.Gps.Epoch.{IsSeconds, advance-exact}
use esphome_gps_pps_ntp_serv.Gps.PulseSteps.{
  IsReceiving, Accepted, pulse, counted, advanced, unflagged, first_pulse, later_pulse, due,
  advance-keeps,
}

-- The second pulse on an unsynchronised clock sets it.
hard_sync-keeps :
    (s : GpsPpsTime)
    → let (t, calls) = hard_sync s in
      (calls ≡ set_second s.last_gps_epoch)
      × (t ≡ record s { last_drift_us = pos 0; pps_synced = true })
unfolding hard_sync
hard_sync-keeps s = (refl, refl)

discipline-unsynced :
    (s : GpsPpsTime) (now : ℕ) → s.pps_synced ≡ false → discipline s now ≡ hard_sync s
unfolding discipline
discipline-unsynced s now h = rw h refl

-- What synchronisation leaves, for the pulses that follow.
pub record IsSynced (s : GpsPpsTime) (now : ℕ) (r : PulseReads) (epoch : ℤ) : Type 0 where
  pub epoch_is : s.last_gps_epoch ≡ epoch
  pub served : is_synchronized s r.stamp_ms ≡ true
  pub receiving : IsReceiving s
  pub edge : (s.prev_pps_micros ≡ now) × (s.isr_anchor_micros ≡ now)

Accepted-later :
    (s : GpsPpsTime) (i k now : ℕ)
    → i < 2147483648
    → IsSeconds i k
    → s.isr_anchor_micros < u32_mod
    → now ≡ u32 (s.isr_anchor_micros + i)
    → Accepted s now
Accepted-later s i k now hi hk hm e = inr (omega (arith, hk))

second_pulse :
    (s : GpsPpsTime) (now : ℕ) (r : PulseReads) (i k : ℕ)
    → IsReceiving s
    → s.pps_synced ≡ false
    → s.pps_count ≡ 1
    → i < 2147483648
    → IsSeconds i k
    → s.prev_pps_micros < u32_mod
    → s.isr_anchor_micros ≡ s.prev_pps_micros
    → now ≡ u32 (s.prev_pps_micros + i)
    → ((pulse s now r).1 ≡ set_second (s.last_gps_epoch +ℤ pos k))
      × IsSynced (pulse s now r).0 now r (s.last_gps_epoch +ℤ pos k)
unfolding is_synchronized
second_pulse s now r i k h off one hi hk hp same e =
    let a : Accepted s now = Accepted-later s i k now hi hk (omega arith) (omega arith) in
    let t : GpsPpsTime = advanced s now r in
    let kept = advance-keeps (counted s now r) (system_us_at_pps_raw (unflagged s now) r) in
    let d = due s now r i k h hi hk hp e in
    let step : pulse s now r ≡ hard_sync t =
      later_pulse s now r h a (omega arith) (omega arith)
      ∙ discipline-unsynced t now (kept.0 ∙ off) in
    let after = hard_sync-keeps t in
    rw step (
      after.0 ∙ ap set_second d.epoch,
      rw (after.1) (record {
        epoch_is = d.epoch;
        served = rw d.healthy (ground (arith, kept.1));
        receiving = record {
          valid = kept.3 ∙ h.valid;
          epoch = rw d.epoch (omega (arith, h.epoch, +ℤ_parts s.last_gps_epoch (pos k)));
          satellites = omega (arith, kept.4, h.satellites);
          healthy = d.healthy;
        };
        edge = (kept.7, kept.6);
      }),
    )

-- The receiver has a time and satellites and the pulse's period is trusted, but the clock is not
-- synchronised and no pulse has been counted. Then come two edges `i` us apart, i within 20 ms of `k`
-- seconds and below 2^31, each handled by the main loop, whatever the clock reads. The first is one that
-- the interrupt lets through: it let none through before, or the last one 0.9 s or more earlier by the
-- wrapping counter. After the second the system clock is set to the epoch, `k` seconds on, with no slew
-- left over, and the source is served from.
pub two_pulses-synchronise :
    (s : GpsPpsTime) (m1 m2 i k : ℕ) (r1 r2 : PulseReads)
    → IsReceiving s
    → s.pps_synced ≡ false
    → s.pps_count ≡ 0
    → Accepted s m1
    → m1 < u32_mod
    → i < 2147483648
    → IsSeconds i k
    → m2 ≡ u32 (m1 + i)
    → let s2 = pulse (pulse s m1 r1).0 m2 r2 in
      (s2.1 ≡ set_second (s.last_gps_epoch +ℤ pos k))
      × IsSynced s2.0 m2 r2 (s.last_gps_epoch +ℤ pos k)
two_pulses-synchronise s m1 m2 i k r1 r2 h off zero a hm hi hk e =
    rw (first_pulse s m1 r1 h a zero) (
      second_pulse (record (counted s m1 r1) { prev_pps_micros = m1 }) m2 r2 i k
        (record {
          valid = h.valid;
          epoch = h.epoch;
          satellites = h.satellites;
          healthy = h.healthy;
        })
        off (omega (arith, zero)) hi hk hm refl e)

next_ne_zero : (e : ℤ) → pos 1 ≤ℤ e → e +ℤ pos 1 ≢ pos 0
next_ne_zero e h z = absurd (omega (arith, +ℤ_parts e (pos 1), ap pos_part z, ap neg_part z))

raw_same :
    (s : GpsPpsTime) (now : ℕ) (r : PulseReads)
    → system_us_at_pps_raw (counted s now r) r ≡ system_us_at_pps_raw (unflagged s now) r
unfolding system_us_at_pps_raw
raw_same s now r = refl

isr_latency_bounds : (i : ℕ) → (pos 0 ≤ℤ isr_latency i) × (isr_latency i ≤ℤ pos 10000)
unfolding isr_latency
isr_latency_bounds i = ground arith

-- A small drift is slewed away.
discipline-slews :
    (s : GpsPpsTime) (now : ℕ)
    → s.pps_synced ≡ true
    → neg 100000 ≤ℤ s.last_drift_us
    → s.last_drift_us ≤ℤ pos 100000
    → discipline s now ≡ slew s now
unfolding discipline
discipline-slews s now on lo hi =
    let near : beyond s.last_drift_us 100000 ≡ false = ground arith in
    let sane : beyond s.last_drift_us 2000000 ≡ false = ground arith in rw (on, sane, near) refl

-- The drift of a clock that reads the true time to 50 ms.
drift_small :
    (epoch drift lat edge : ℤ)
    → epoch *ℤ pos 1000000 +ℤ drift +ℤ lat ≡ edge
    → pos 0 ≤ℤ lat
    → lat ≤ℤ pos 10000
    → epoch *ℤ pos 1000000 ≤ℤ edge +ℤ pos 50000
    → edge ≤ℤ epoch *ℤ pos 1000000 +ℤ pos 50000
    → (neg 100000 ≤ℤ drift) × (drift ≤ℤ pos 100000)
drift_small epoch drift lat edge sum lo hi below above =
    let e : ℤ = epoch *ℤ pos 1000000 in
    let parts : e +ℤ drift +ℤ lat ≡ edge = sum in
    ground (
      arith,
      parts,
      +ℤ_parts e drift,
      +ℤ_parts (e +ℤ drift) lat,
      +ℤ_parts edge (pos 50000),
      +ℤ_parts e (pos 50000),
    )

-- The receiver has a time and satellites, the pulse's period is trusted and the clock is synchronised.
-- The 32-bit count of pulses is not 0, the last edge that the interrupt let through was handled, and no
-- publication of an anchor is under way. The next edge comes one second after that one to 20 ms, and is
-- handled less than 2^31 us later; the clock read the true time to 50 ms at the edge. Then the pulse
-- publishes the anchor for that edge: a reader without interruption is told that it was exactly the next
-- second.
pub pulse-anchors :
    (s : GpsPpsTime) (now i elapsed : ℕ) (r : PulseReads) (edge_us : ℤ)
    → IsReceiving s
    → s.pps_synced ≡ true
    → 0 < s.pps_count
    → s.pps_count < u32_mod
    → s.anchor_seq % 2 ≡ 0
    → IsSeconds i 1
    → s.prev_pps_micros < u32_mod
    → s.isr_anchor_micros ≡ s.prev_pps_micros
    → now ≡ u32 (s.prev_pps_micros + i)
    → elapsed < 2147483648
    → r.read_micros ≡ u32 (now + elapsed)
    → r.tv_sec *ℤ pos 1000000 +ℤ r.tv_usec ≡ edge_us +ℤ pos elapsed
    → (s.last_gps_epoch +ℤ pos 1) *ℤ pos 1000000 ≤ℤ edge_us +ℤ pos 50000
    → edge_us ≤ℤ (s.last_gps_epoch +ℤ pos 1) *ℤ pos 1000000 +ℤ pos 50000
    → let t = (pulse s now r).0 in
      get_pps_anchor (quiet_reads t)
      ≡ some (record {
        epoch = s.last_gps_epoch +ℤ pos 1;
        micros = now;
        drift_ppb = t.anchor.drift_ppb;
      })
pulse-anchors s now i elapsed r edge_us h on lo hi even hk hp same e he hr hc below above =
    let a : Accepted s now =
      Accepted-later s i 1 now (omega arith) hk (omega arith) (omega arith) in
    let c : GpsPpsTime = counted s now r in
    let t : GpsPpsTime = advanced s now r in
    let kept = advance-keeps c (system_us_at_pps_raw (unflagged s now) r) in
    let same_t : advance c (system_us_at_pps_raw c r) ≡ t = ap (advance c) (raw_same s now r) in
    let exact = advance-exact c r i 1 elapsed edge_us (omega arith) hk he hp e hr hc in
    let epoch : t.last_gps_epoch ≡ s.last_gps_epoch +ℤ pos 1 = rw (← same_t) (exact.0) in
    let drift : t.last_gps_epoch *ℤ pos 1000000 +ℤ t.last_drift_us +ℤ isr_latency i ≡ edge_us =
      rw (← same_t) (exact.1) in
    let lat = isr_latency_bounds i in
    let small =
      drift_small t.last_gps_epoch t.last_drift_us (isr_latency i) edge_us drift (lat.0) (lat.1)
        (rw epoch below) (rw epoch above) in
    let step : pulse s now r ≡ slew t now =
      later_pulse s now r h a lo hi ∙ discipline-slews t now (kept.0 ∙ on) (small.0) (small.1) in
    let some_epoch : t.last_gps_epoch ≢ pos 0 = rw epoch (next_ne_zero s.last_gps_epoch h.epoch) in
    rw (step, ← epoch) (slew-anchor t now some_epoch (rw (kept.2) even)).1
