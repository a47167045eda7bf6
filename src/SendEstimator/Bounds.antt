-- ===== src/SendEstimator/Bounds.antt =====
-- The range of the estimate of send_estimator.h, and what one outlier can do to it.
use esphome_gps_pps_ntp_serv.Base.{
  ℕ, ◌+◌, ◌≤◌, ◌<◌, ◌≡◌, ◌≢◌, ◌⊎◌, ◌*◌, arith, ℤ, pos, negsuc, pos_part, neg_part, ◌≤ℤ◌, ◌<ℤ◌, ◌-ℤ◌,
  shr, eq_of_parts, div_trunc, +ℤ_parts, -ℤ_parts,
}
use esphome_gps_pps_ntp_serv.SendEstimator.{
  SendEstimator, min_ℤ, max_ℤ, LearnResult, reseeded, extend_run, consider_reseed, learn,
  learn_fallback,
}

-- a < b + n and a + n ≤ b.
abbrev pub LtAdd : ℤ → ℤ → ℕ → Type 0
LtAdd a b n = pos_part a + neg_part b < pos_part b + neg_part a + n

abbrev pub AddLe : ℤ → ℕ → ℤ → Type 0
AddLe a n b = pos_part a + neg_part b + n ≤ pos_part b + neg_part a

-- What holds of an estimator between two samples.
pub record IsValid (s : SendEstimator) : Type 0 where
  pub estimate_low : pos 0 ≤ℤ s.estimate_us
  pub estimate_high : s.estimate_us <ℤ pos 5000
  pub run_fits : s.reject_run ≤ 255
  pub run_low : 0 < s.reject_run → pos 50 <ℤ s.reject_min
  pub run_high : 0 < s.reject_run → s.reject_max <ℤ pos 5000
  pub run_ordered : 0 < s.reject_run → s.reject_min ≤ℤ s.reject_max
  pub run_narrow : 0 < s.reject_run → LtAdd s.reject_max s.reject_min 100

-- An eighth of a step goes at most to its end, and never past its start.
pub shr_3 :
    (d : ℤ)
    → (8 * pos_part (shr d 3) ≤ pos_part d)
      × (8 * neg_part (shr d 3) < neg_part d + 8)
      × (neg_part d ≤ 8 * neg_part (shr d 3))
      × (pos_part d < 8 * pos_part (shr d 3) + 8)
unfolding shr
shr_3 (pos n) = omega arith
shr_3 (negsuc n) = omega arith

pub min_ℤ_lem :
    (a b : ℤ) → (min_ℤ a b ≤ℤ a) × (min_ℤ a b ≤ℤ b) × ((min_ℤ a b ≡ a) ⊎ (min_ℤ a b ≡ b))
unfolding min_ℤ
min_ℤ_lem a b = ground arith

pub max_ℤ_lem :
    (a b : ℤ) → (a ≤ℤ max_ℤ a b) × (b ≤ℤ max_ℤ a b) × ((max_ℤ a b ≡ a) ⊎ (max_ℤ a b ≡ b))
unfolding max_ℤ
max_ℤ_lem a b = ground arith

extend_run-IsValid :
    {s : SendEstimator} (a now : ℤ)
    → IsValid s
    → pos 50 <ℤ a
    → a <ℤ pos 5000
    → IsValid (extend_run s a now)
unfolding extend_run
extend_run-IsValid {s} a now v lo hi = ground (
  arith,
  min_ℤ_lem s.reject_min a,
  max_ℤ_lem s.reject_max a,
  -ℤ_parts (max_ℤ s.reject_max a) (min_ℤ s.reject_min a),
)

consider_reseed-IsValid :
    {s : SendEstimator} (now : ℤ) → IsValid s → IsValid (consider_reseed s now).0
unfolding consider_reseed div_trunc
consider_reseed-IsValid {s} now v = ground (
  arith,
  -ℤ_parts s.reject_max s.reject_min,
  +ℤ_parts s.reject_min (div_trunc (s.reject_max -ℤ s.reject_min) 2),
)

-- Every sample, whatever its value and time, keeps the estimator in range: the estimate stays in
-- [0, 5000) us, the count of rejects fits its byte, and the samples of a run of rejects lie strictly
-- between 50 and 5000 us and less than 100 us apart.
pub learn-IsValid :
    {s : SendEstimator} (actual_us now_us : ℤ) → IsValid s → IsValid (learn s actual_us now_us).0
unfolding learn
learn-IsValid {s} a now v = ground (
  arith,
  -ℤ_parts a s.estimate_us,
  shr_3 (a -ℤ s.estimate_us),
  +ℤ_parts s.estimate_us (shr (a -ℤ s.estimate_us) 3),
  extend_run-IsValid a now v,
  consider_reseed-IsValid {s = extend_run s a now} now,
)

-- A fallback sample keeps the estimator in range too.
pub learn_fallback-IsValid :
    {s : SendEstimator} (dur_us : ℤ) → IsValid s → IsValid (learn_fallback s dur_us)
unfolding learn_fallback
learn_fallback-IsValid {s} d v = ground (
  arith,
  -ℤ_parts d s.estimate_us,
  shr_3 (d -ℤ s.estimate_us),
  +ℤ_parts s.estimate_us (shr (d -ℤ s.estimate_us) 3),
)

-- The run that a rejected sample leaves holds the sample, and was begun by it unless it went on.
extend_run_lem :
    {s : SendEstimator} (a now : ℤ)
    → IsValid s
    → let s' = extend_run s a now in
      (s'.estimate_us ≡ s.estimate_us)
      × (0 < s'.reject_run)
      × (s'.reject_min ≤ℤ a)
      × (a ≤ℤ s'.reject_max)
      × ((s'.reject_run ≡ 1)
          ⊎ (s'.reject_run ≤ s.reject_run + 1) × (s'.reject_first_us ≡ s.reject_first_us))
unfolding extend_run
extend_run_lem {s} a now v = ground (arith, min_ℤ_lem s.reject_min a, max_ℤ_lem s.reject_max a)

-- A step that re-seeds nothing and moves the estimate by at most 13 us.
pub record IsSmall (s s' : SendEstimator) (result : LearnResult) : Type 0 where
  pub not_reseeded : result ≢ reseeded
  pub up : LtAdd s'.estimate_us s.estimate_us 14
  pub down : LtAdd s.estimate_us s'.estimate_us 14

-- A step that re-seeds the estimate after a run of rejects that began 3 s or more before.
pub record IsReseed (s s' : SendEstimator) (actual_us now_us : ℤ) (result : LearnResult)
    : Type 0 where
  pub is_reseeded : result ≡ reseeded
  pub run_long : 3 ≤ s.reject_run
  pub span_long : AddLe s.reject_first_us 3000000 now_us
  pub below : LtAdd s'.estimate_us actual_us 100
  pub above : LtAdd actual_us s'.estimate_us 100

reject_step :
    (s : SendEstimator) (a now : ℤ)
    → IsValid s
    → pos 50 <ℤ a
    → a <ℤ pos 5000
    → let (s', result) = consider_reseed (extend_run s a now) now in
      IsSmall s s' result ⊎ IsReseed s s' a now result
unfolding consider_reseed div_trunc
reject_step s a now v lo hi =
    let r : SendEstimator = extend_run s a now in
    ground (
      arith,
      extend_run_lem a now v,
      extend_run-IsValid a now v lo hi,
      -ℤ_parts r.reject_max r.reject_min,
      -ℤ_parts now r.reject_first_us,
      +ℤ_parts r.reject_min (div_trunc (r.reject_max -ℤ r.reject_min) 2),
    )

-- A sample moves a seeded estimate by at most 13 us, or it re-seeds it; and it re-seeds it only
-- when at least three rejected samples preceded it in its run, the first of them 3 s or more
-- earlier, the new estimate then being less than 100 us from the sample.
pub learn_step :
    (s : SendEstimator) (actual_us now_us : ℤ)
    → IsValid s
    → s.estimate_us ≢ pos 0
    → let (s', result) = learn s actual_us now_us in
      IsSmall s s' result ⊎ IsReseed s s' actual_us now_us result
unfolding learn
learn_step s a now v seeded = ground (
  arith,
  -ℤ_parts a s.estimate_us,
  shr_3 (a -ℤ s.estimate_us),
  +ℤ_parts s.estimate_us (shr (a -ℤ s.estimate_us) 3),
  reject_step s a now v,
  eq_of_parts s.estimate_us (pos 0),
)
