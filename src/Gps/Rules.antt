-- ===== src/Gps/Rules.antt =====
-- When the time source may be served from (`is_synchronized` and the period streaks of
-- gps_pps_time.cpp), and the slew that it asks for.
use esphome_gps_pps_ntp_serv.Base.{
  ℕ, suc, ◌%◌, ◌+◌, ◌<◌, ◌≡◌, ◌≢◌, ◌↔◌, Bool, true, false, arith, List, [], ◌∷◌, some, ℤ, pos, ◌+ℤ◌,
  ◌*ℤ◌, ◌≤ℤ◌, ◌<ℤ◌, div_trunc, rem_trunc, +ℤ_parts, -ℤ_parts, *ℤ_parts, div_trunc_parts,
  eq_of_parts, div_trunc-rem_trunc, u32, u32_mod, sub32-add, length, replicate,
}
use esphome_gps_pps_ntp_serv.Gps.State.{GpsPpsTime, adjtime, publish_pps_anchor}
use esphome_gps_pps_ntp_serv.Gps.Anchor.{get_pps_anchor, quiet_reads}
use esphome_gps_pps_ntp_serv.Gps.Period.{judge_period}
use esphome_gps_pps_ntp_serv.Gps.Discipline.{
  slew_timeval, correction_us, learn_drift, learn_rate, slew,
}
use esphome_gps_pps_ntp_serv.Gps.Invariant.{
  IsJudged, learn_drift-keeps, learn_rate-keeps, record_pred_error-keeps,
}
use esphome_gps_pps_ntp_serv.Gps.Serving.{is_synchronized}

-- The verdicts on a sequence of pulses, the first one first.
unfoldable pub judge_all : GpsPpsTime → List Bool → GpsPpsTime
judge_all s [] = s
judge_all s (b ∷ bs) = judge_all (judge_period s b) bs

-- After three pulses in a row that are not a whole number of seconds long, the source is not served
-- from, at whatever instant.
pub bad_pulses-refused :
    (s : GpsPpsTime) (now : ℕ)
    → IsJudged s
    → is_synchronized (judge_all s (false ∷ false ∷ false ∷ [])) now ≡ false
unfolding judge_all judge_period is_synchronized
bad_pulses-refused s now h = ground arith

-- One verdict of the nine does not yet restore trust.
judge_short :
    (s : GpsPpsTime) (b : Bool) (n : ℕ)
    → s.pps_period_healthy ≡ false
    → s.pps_period_good_streak + suc n < 10
    → ((judge_period s b).pps_period_healthy ≡ false)
      × ((judge_period s b).pps_period_good_streak + n < 10)
unfolding judge_period
judge_short s false n h hn = ground arith
judge_short s true n h hn = ground arith

judge_all-refused :
    (s : GpsPpsTime) (bs : List Bool)
    → s.pps_period_healthy ≡ false
    → s.pps_period_good_streak + length bs < 10
    → (judge_all s bs).pps_period_healthy ≡ false
unfolding judge_all
judge_all-refused s [] h hn = h
judge_all-refused s (b ∷ bs) h hn =
    let (h', hn') = judge_short s b (length bs) h hn in
    judge_all-refused (judge_period s b) bs h' hn'

-- Once a bad pulse is seen while the source is refused, fewer than ten further pulses, whatever they
-- are like, do not make it served from again; ten good ones do restore its health.
pub refused-until_ten_good :
    (s : GpsPpsTime) (bs : List Bool) (now : ℕ)
    → IsJudged s
    → s.pps_period_healthy ≡ false
    → length bs < 10
    → (is_synchronized (judge_all s (false ∷ bs)) now ≡ false)
      × ((judge_all s (false ∷ replicate 10 true)).pps_period_healthy ≡ true)
unfolding judge_all judge_period is_synchronized
refused-until_ten_good s bs now hj h hn =
    let bad = judge_period s false in
    ground (arith, judge_all-refused bad bs (ground arith) (ground arith))

-- `k` ms after the last pulse (k below 2^32, the millisecond counter wrapping or not), the source is
-- served from exactly if it is synchronised, its pulses are in spec, and k is below ten seconds.
pub is_synchronized_iff :
    (s : GpsPpsTime) (k : ℕ)
    → s.last_pps_millis < u32_mod
    → k < u32_mod
    → (is_synchronized s (u32 (s.last_pps_millis + k)) ≡ true)
      ↔ ((s.pps_synced ≡ true) × (s.pps_period_healthy ≡ true) × (k < 10000))
unfolding is_synchronized
is_synchronized_iff s k hs hk = ground (arith, sub32-add s.last_pps_millis k hs hk)

-- The slew that is handed to adjtime() has its microseconds in [0, 1000000), as adjtime() requires,
-- and its seconds and microseconds add up to the correction, of either sign.
pub slew_timeval_exact :
    (c : ℤ)
    → let (sec, usec) = slew_timeval c in
      (pos 0 ≤ℤ usec) × (usec <ℤ pos 1000000) × (sec *ℤ pos 1000000 +ℤ usec ≡ c)
unfolding slew_timeval
slew_timeval_exact c =
    let (sec, usec) = slew_timeval c in
    let (q, r) : ℤ × ℤ = (div_trunc c 1000000, rem_trunc c 1000000) in
    ground (
      arith,
      div_trunc_parts c 1000000,
      div_trunc-rem_trunc c 1000000,
      -ℤ_parts q (pos 1),
      +ℤ_parts r (pos 1000000),
      *ℤ_parts sec 1000000,
      +ℤ_parts (sec *ℤ pos 1000000) usec,
      eq_of_parts (sec *ℤ pos 1000000 +ℤ usec) c,
    )

-- A pulse with a drift of at most 100 ms on a synchronised clock asks for one slew, of minus the sum
-- of the drift and its mean, and a reader without interruption is then given the anchor that
-- says: at this edge it was exactly this epoch.
pub slew-anchor :
    (s : GpsPpsTime) (m : ℕ)
    → s.last_gps_epoch ≢ pos 0
    → s.anchor_seq % 2 ≡ 0
    → let (t, calls) = slew s m in
      let (sec, usec) = slew_timeval (correction_us s) in
      (calls ≡ adjtime sec usec ∷ [])
      × (get_pps_anchor (quiet_reads t)
          ≡ some (record { epoch = s.last_gps_epoch; micros = m; drift_ppb = t.anchor.drift_ppb }))
unfolding slew publish_pps_anchor get_pps_anchor
slew-anchor s m he hq =
    let d = learn_drift s in
    let r = learn_rate d in
    ground (
      arith,
      learn_drift-keeps s,
      learn_rate-keeps d,
      record_pred_error-keeps r (get_pps_anchor (quiet_reads r)) m,
      eq_of_parts s.last_gps_epoch (pos 0),
    )
