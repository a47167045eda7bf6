-- ===== src/Gps/Epoch.antt =====
-- The epoch and the drift that a pulse gives (`apply_pps_correction_` of gps_pps_time.cpp), against
-- the true length of the interval and the true reading of the clock.
use esphome_gps_pps_ntp_serv.Base.{
  ℕ, ◌+◌, ◌*◌, ◌/◌, ◌≤◌, ◌<◌, ◌≡◌, ◌↔◌, true, ◌&&◌, arith, ℤ, pos, sub_ℕ, pos_part, neg_part, eqb_ℤ,
  ◌+ℤ◌, ◌-ℤ◌, ◌*ℤ◌, +ℤ_parts, -ℤ_parts, *ℤ_parts, eq_of_parts, sub32, u32, u32_mod, sub32-add,
  to_i32, cast_i32, to_i32-sub32, sym,
}
use esphome_gps_pps_ntp_serv.Gps.State.{GpsPpsTime}
use esphome_gps_pps_ntp_serv.Gps.Period.{
  extra_epochs, isr_latency, period_residual, period_in_spec, judge_period,
}
use esphome_gps_pps_ntp_serv.Gps.Pulse.{PulseReads, system_us_at_pps_raw, advance}
use esphome_gps_pps_ntp_serv.Gps.Reach.{judge_period-keeps, track_isr_latency-keeps}

-- An interval of `i` us is within 20 ms of `k` seconds, k at least 1.
abbrev pub IsSeconds : ℕ → ℕ → Type 0
IsSeconds i k = (1 ≤ k) × (i ≤ k * 1000000 + 20000) × (k * 1000000 ≤ i + 20000)

-- The nearest whole number of seconds.
abbrev nearest : ℕ → ℕ
nearest i = u32 (i + 500000) / 1000000

extra_epochs-nearest : (i : ℕ) → extra_epochs i +ℤ pos 1 ≡ pos (nearest i)
unfolding extra_epochs
extra_epochs-nearest i = ground (
  arith,
  +ℤ_parts (extra_epochs i) (pos 1),
  eq_of_parts (extra_epochs i +ℤ pos 1) (pos (nearest i)),
)

cast_i32_small : (z : ℤ) → pos_part z < 2147483648 → neg_part z < 2147483648 → cast_i32 z ≡ z
cast_i32_small z hp hn = ground arith

period_residual-nearest :
    (i : ℕ) → i < 2147483648 → period_residual i ≡ sub_ℕ i (nearest i * 1000000)
unfolding period_residual
period_residual-nearest i hi =
    let whole = (extra_epochs i +ℤ pos 1) *ℤ pos 1000000 in
    let rest = to_i32 i -ℤ whole in
    ground (
      arith,
      extra_epochs-nearest i,
      *ℤ_parts (extra_epochs i +ℤ pos 1) 1000000,
      cast_i32_small whole,
      cast_i32_small rest,
      -ℤ_parts (to_i32 i) whole,
      eq_of_parts rest (sub_ℕ i (nearest i * 1000000)),
    )

period_in_spec-nearest :
    (i : ℕ) → i < 2147483648 → (period_in_spec i ≡ true) ↔ IsSeconds i (nearest i)
unfolding period_in_spec
period_in_spec-nearest i hi =
    ground (
      arith,
      period_residual-nearest i hi,
      extra_epochs-nearest i,
      +ℤ_parts (extra_epochs i) (pos 1),
    )

IsSeconds-nearest : (i k : ℕ) → i < 2147483648 → IsSeconds i k → nearest i ≡ k
IsSeconds-nearest i k hi h = omega arith

-- For an interval below 2^31 us, a pulse is in spec exactly if the interval is within 20 ms of a
-- whole number of seconds, at least one.
pub period_in_spec_iff :
    (i : ℕ) → i < 2147483648 → (period_in_spec i ≡ true) ↔ ((k : ℕ) × IsSeconds i k)
period_in_spec_iff i hi =
    let near = period_in_spec-nearest i hi in
    (λ h. (nearest i, ground (arith, near)), λ (k, h). ground (arith, near, IsSeconds-nearest i k))

advance-epoch :
    (s : GpsPpsTime) (raw : ℤ)
    → let i = sub32 s.last_pps_micros s.prev_pps_micros in
      let t = advance s raw in
      (t.last_gps_epoch ≡ s.last_gps_epoch +ℤ pos 1 +ℤ extra_epochs i)
      × (t.last_drift_us ≡ raw -ℤ isr_latency i -ℤ t.last_gps_epoch *ℤ pos 1000000)
unfolding advance
advance-epoch s raw =
    let m = s.last_pps_micros in
    let i = sub32 m s.prev_pps_micros in
    let ok = period_in_spec i in
    let start : GpsPpsTime = record s { prev_pps_micros = m } in
    let judged = judge_period start ok in
    let clean = ok && eqb_ℤ (extra_epochs i) (pos 0) in
    ground (arith, judge_period-keeps start ok, track_isr_latency-keeps judged m clean)

-- The epoch after an interval of about `k` seconds.
pub advance-counts :
    (s : GpsPpsTime) (raw : ℤ) (i k : ℕ)
    → i < 2147483648
    → IsSeconds i k
    → sub32 s.last_pps_micros s.prev_pps_micros ≡ i
    → (advance s raw).last_gps_epoch ≡ s.last_gps_epoch +ℤ pos k
advance-counts s raw i k hi hk same =
    let e = s.last_gps_epoch in
    let x = extra_epochs i in
    ground (
      arith,
      advance-epoch s raw,
      extra_epochs-nearest i,
      IsSeconds-nearest i k hi hk,
      +ℤ_parts x (pos 1),
      +ℤ_parts e (pos 1),
      +ℤ_parts (e +ℤ pos 1) x,
      +ℤ_parts e (pos k),
      eq_of_parts (e +ℤ pos 1 +ℤ x) (e +ℤ pos k),
    )

-- Take a pulse `i` us after the last one, `i` within 20 ms of `k` seconds and below 2^31, that is
-- handled `elapsed` us later (below 2^31), where the microsecond counter may wrap in between. The epoch advances by
-- exactly `k`, missed pulses included, and the new epoch, the drift and the detected interrupt latency
-- add up to what the system clock read at the edge.
pub advance-exact :
    (s : GpsPpsTime) (r : PulseReads) (i k elapsed : ℕ) (edge_us : ℤ)
    → i < 2147483648
    → IsSeconds i k
    → elapsed < 2147483648
    → s.prev_pps_micros < u32_mod
    → s.last_pps_micros ≡ u32 (s.prev_pps_micros + i)
    → r.read_micros ≡ u32 (s.last_pps_micros + elapsed)
    → r.tv_sec *ℤ pos 1000000 +ℤ r.tv_usec ≡ edge_us +ℤ pos elapsed
    → let t = advance s (system_us_at_pps_raw s r) in
      (t.last_gps_epoch ≡ s.last_gps_epoch +ℤ pos k)
      × (t.last_gps_epoch *ℤ pos 1000000 +ℤ t.last_drift_us +ℤ isr_latency i ≡ edge_us)
unfolding system_us_at_pps_raw
advance-exact s r i k elapsed edge_us hi hk he hp hl hr hc =
    let raw = system_us_at_pps_raw s r in
    let t = advance s raw in
    let m = s.last_pps_micros in
    let scaled = t.last_gps_epoch *ℤ pos 1000000 in
    let same : i ≡ sub32 m s.prev_pps_micros = ground (arith, sub32-add s.prev_pps_micros i hp) in
    let read : raw ≡ edge_us = ground (
      arith,
      to_i32-sub32 m elapsed,
      +ℤ_parts edge_us (pos elapsed),
      -ℤ_parts (edge_us +ℤ pos elapsed) (pos elapsed),
      eq_of_parts raw edge_us,
    ) in
    ground (
      arith,
      advance-epoch s raw,
      advance-counts s raw i k hi hk (sym same),
      same,
      read,
      -ℤ_parts raw (isr_latency i),
      -ℤ_parts (raw -ℤ isr_latency i) scaled,
      +ℤ_parts scaled t.last_drift_us,
      +ℤ_parts (scaled +ℤ t.last_drift_us) (isr_latency i),
      eq_of_parts (scaled +ℤ t.last_drift_us +ℤ isr_latency i) edge_us,
    )
