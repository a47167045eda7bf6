-- ===== src/Gps/Sentences.antt =====
-- What NMEA sentences do to the epoch (`on_update` of gps_pps_time.cpp).
use esphome_gps_pps_ntp_serv.Base.{
  ℕ, inl, inr, ◌∙◌, ◌+◌, ◌<◌, ◌≡◌, ◌≢◌, ◌⊎◌, true, arith, [], ◌∷◌, ℤ, pos, neg, ◌+ℤ◌, refl, ◌-ℤ◌,
  ◌*ℤ◌, ◌≤ℤ◌, List, +ℤ_parts, -ℤ_parts, *ℤ_parts, eq_of_parts, div_trunc, div_trunc_parts,
}
use mathlib.Core.List.{append-nil}
use esphome_gps_pps_ntp_serv.Gps.State.{GpsPpsTime, ClockCall, settimeofday, adjtime}
use esphome_gps_pps_ntp_serv.Gps.Nmea.{
  Sentence, cast_i8, epoch_err_s, delta_ms, count_error, step_epoch, check_epoch, follow_epoch,
  coarse_time, has_time, on_update, update_satellites,
}
use esphome_gps_pps_ntp_serv.Gps.Between.{Between, Between-SameError}

-- `k` whole seconds between the clock and the sentences, of either sign and up to 127, are found
-- exactly if the sentence is handled less than 500 ms after its edge.
pub epoch_err_s_exact :
    (k : ℤ) (p : ℕ)
    → neg 127 ≤ℤ k
    → k ≤ℤ pos 127
    → p < 500
    → epoch_err_s (k *ℤ pos 1000 +ℤ pos p) ≡ k
unfolding epoch_err_s cast_i8
epoch_err_s_exact k p hl hu hp =
    let delta = k *ℤ pos 1000 +ℤ pos p in
    let minus = pos 0 -ℤ delta in
    let up = div_trunc (delta +ℤ pos 500) 1000 in
    let down = div_trunc (minus +ℤ pos 500) 1000 in
    ground (
      arith,
      *ℤ_parts k 1000,
      +ℤ_parts (k *ℤ pos 1000) (pos p),
      +ℤ_parts delta (pos 500),
      div_trunc_parts (delta +ℤ pos 500) 1000,
      -ℤ_parts (pos 0) delta,
      +ℤ_parts minus (pos 500),
      div_trunc_parts (minus +ℤ pos 500) 1000,
      -ℤ_parts (pos 0) down,
    )

count_step :
    (s : GpsPpsTime) (n : Sentence) (e : ℤ)
    → s.pps_synced ≡ true
    → (s.epoch_error_streak ≡ 0) ⊎ (s.epoch_error_last ≡ e)
    → s.epoch_error_streak < 2
    → e ≢ pos 0
    → epoch_err_s (delta_ms n) ≡ e
    → let (t, calls) = check_epoch s n in
      (t.pps_synced ≡ true)
      × (t.last_gps_epoch ≡ s.last_gps_epoch)
      × (t.epoch_error_last ≡ e)
      × (t.epoch_error_streak ≡ s.epoch_error_streak + 1)
      × (calls ≡ [])
unfolding check_epoch count_error
count_step s n e hs hp hk he hn =
    ground (arith, eq_of_parts e (pos 0), eq_of_parts e s.epoch_error_last)

fix_step :
    (s : GpsPpsTime) (n : Sentence) (e : ℤ)
    → s.pps_synced ≡ true
    → s.epoch_error_last ≡ e
    → s.epoch_error_streak ≡ 2
    → e ≢ pos 0
    → epoch_err_s (delta_ms n) ≡ e
    → let (t, calls) = check_epoch s n in
      (t.pps_synced ≡ true)
      × (t.last_gps_epoch ≡ s.last_gps_epoch -ℤ e)
      × (calls ≡ settimeofday (n.fix_sec -ℤ e) n.fix_usec ∷ adjtime (pos 0) (pos 0) ∷ [])
unfolding check_epoch count_error step_epoch
fix_step s n e hs hl hk he hn = ground (arith, eq_of_parts e (pos 0))

-- The sentence's time and an epoch are at most two seconds apart.
abbrev pub IsNear : Sentence → ℤ → Type 0
IsNear n epoch = (neg 2 ≤ℤ n.timestamp -ℤ epoch) × (n.timestamp -ℤ epoch ≤ℤ pos 2)

-- A sentence whose time is close to the counter, once this is corrected, has no other effect than
-- that of the correction.
checked : GpsPpsTime → Sentence → GpsPpsTime × List ClockCall
checked s n = check_epoch (record (update_satellites s n) { gps_time_valid = true }) n

follow_near :
    (s : GpsPpsTime) (n : Sentence)
    → s.pps_synced ≡ true
    → IsNear n s.last_gps_epoch
    → follow_epoch s n ≡ s
unfolding follow_epoch
follow_near s n on near = ground arith

pub coarse_synced :
    (s : GpsPpsTime) (n : Sentence) → s.pps_synced ≡ true → coarse_time s n ≡ (s, [])
unfolding coarse_time
coarse_synced s n on = ground arith

near_update :
    (s : GpsPpsTime) (n : Sentence)
    → has_time n ≡ true
    → (checked s n).0.pps_synced ≡ true
    → IsNear n (checked s n).0.last_gps_epoch
    → on_update s n ≡ checked s n
unfolding on_update checked
near_update s n time on near =
    let c = check_epoch (record (update_satellites s n) { gps_time_valid = true }) n in
    rw (time, follow_near (c.0) n on near, coarse_synced (c.0) n on, append-nil (c.1)) refl

count_update :
    (s : GpsPpsTime) (n : Sentence) (e : ℤ)
    → has_time n ≡ true
    → IsNear n s.last_gps_epoch
    → s.pps_synced ≡ true
    → (s.epoch_error_streak ≡ 0) ⊎ (s.epoch_error_last ≡ e)
    → s.epoch_error_streak < 2
    → e ≢ pos 0
    → epoch_err_s (delta_ms n) ≡ e
    → let (t, calls) = on_update s n in
      (t.last_gps_epoch ≡ s.last_gps_epoch)
      × (t.epoch_error_last ≡ e)
      × (t.epoch_error_streak ≡ s.epoch_error_streak + 1)
      × (calls ≡ [])
unfolding checked update_satellites
count_update s n e time near hs hp hk he hn =
    let (on, epoch, last, streak, calls) =
      count_step (record (update_satellites s n) { gps_time_valid = true }) n e hs hp hk he hn in
    rw (near_update s n time on (rw epoch near)) (epoch, last, streak, calls)

fix_update :
    (s : GpsPpsTime) (n : Sentence) (e : ℤ)
    → has_time n ≡ true
    → IsNear n (s.last_gps_epoch -ℤ e)
    → s.pps_synced ≡ true
    → s.epoch_error_last ≡ e
    → s.epoch_error_streak ≡ 2
    → e ≢ pos 0
    → epoch_err_s (delta_ms n) ≡ e
    → let (t, calls) = on_update s n in
      (t.last_gps_epoch ≡ s.last_gps_epoch -ℤ e)
      × (calls ≡ settimeofday (n.fix_sec -ℤ e) n.fix_usec ∷ adjtime (pos 0) (pos 0) ∷ [])
unfolding checked update_satellites
fix_update s n e time near hs hl hk he hn =
    let (on, epoch, calls) =
      fix_step (record (update_satellites s n) { gps_time_valid = true }) n e hs hl hk he hn in
    rw (near_update s n time on (rw epoch near)) (epoch, calls)

-- Three sentences with a time say that the clock of a source with no error pending is `e` seconds out, e
-- not 0; e is their error as the source rounds it to eight bits. Between them come edges, captures and
-- rounds of the main loop in any order and number, and the source is synchronised at each sentence. The
-- first two are within two seconds of the epoch counter, and the third is so of the counter less e. Then
-- the first two leave the counter and the clock alone. The third corrects it: the counter and the system
-- clock are stepped by the same -e seconds, the microseconds are kept and the slew is cancelled.
pub third_sentence-steps :
    (s1 s2 s3 : GpsPpsTime) (n1 n2 n3 : Sentence) (e : ℤ)
    → s1.epoch_error_streak ≡ 0
    → (s1.pps_synced ≡ true) × (s2.pps_synced ≡ true) × (s3.pps_synced ≡ true)
    → Between (on_update s1 n1).0 s2
    → Between (on_update s2 n2).0 s3
    → e ≢ pos 0
    → (has_time n1 ≡ true) × IsNear n1 s1.last_gps_epoch × (epoch_err_s (delta_ms n1) ≡ e)
    → (has_time n2 ≡ true) × IsNear n2 s2.last_gps_epoch × (epoch_err_s (delta_ms n2) ≡ e)
    → (has_time n3 ≡ true) × IsNear n3 (s3.last_gps_epoch -ℤ e) × (epoch_err_s (delta_ms n3) ≡ e)
    → let (t1, c1) = on_update s1 n1 in
      let (t2, c2) = on_update s2 n2 in
      let (t3, c3) = on_update s3 n3 in
      (t1.last_gps_epoch ≡ s1.last_gps_epoch)
      × (c1 ≡ [])
      × (t2.last_gps_epoch ≡ s2.last_gps_epoch)
      × (c2 ≡ [])
      × (t3.last_gps_epoch ≡ s3.last_gps_epoch -ℤ e)
      × (c3 ≡ settimeofday (n3.fix_sec -ℤ e) n3.fix_usec ∷ adjtime (pos 0) (pos 0) ∷ [])
third_sentence-steps s1 s2 s3 n1 n2 n3 e zero (on1, on2, on3) b1 b2 he (h1, near1, e1)
      (h2, near2, e2) (h3, near3, e3) =
    let same1 = Between-SameError b1 in
    let same2 = Between-SameError b2 in
    let (q1, l1, k1, c1) =
      count_update s1 n1 e h1 near1 on1 (inl zero) (omega (arith, zero)) he e1 in
    let one : s2.epoch_error_streak ≡ 1 = omega (arith, same1.streak, k1, zero) in
    let (q2, l2, k2, c2) =
      count_update s2 n2 e h2 near2 on2 (inr (same1.last ∙ l1)) (omega (arith, one)) he e2 in
    let two : s3.epoch_error_streak ≡ 2 = omega (arith, same2.streak, k2, one) in
    let (q3, c3) = fix_update s3 n3 e h3 near3 on3 (same2.last ∙ l2) two he e3 in
    (q1, c1, q2, c2, q3, c3)
