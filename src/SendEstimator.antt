-- ===== src/SendEstimator.antt =====
-- components/ntp_server/send_estimator.h: the prediction of the send delay, with its outlier rule and
-- its re-seed rule.
pub mod Bounds
pub mod Runs
mod Tests
use esphome_gps_pps_ntp_serv.Base.{
  ℕ, ◌+◌, ◌==◌, Bool, true, false, ◌&&◌, ◌||◌, ltb, leb, ℤ, pos, neg, ◌+ℤ◌, ◌-ℤ◌, shr, div_trunc,
  leb_ℤ, ltb_ℤ, eqb_ℤ, if◌then◌else◌,
}

abbrev pub us_min : ℤ
us_min = pos 50

abbrev pub us_max : ℤ
us_max = pos 5000

abbrev pub step_max_us : ℤ
step_max_us = pos 100

abbrev pub ewma_shift : ℕ
ewma_shift = 3

abbrev pub reseed_after : ℕ
reseed_after = 4

abbrev pub reseed_min_span_us : ℤ
reseed_min_span_us = pos 3000000

pub data LearnResult : Type 0 where
  ignored seeded learned rejected reseeded : LearnResult

-- `SendEstimator`, with the default values of its fields in `initial`.
pub record SendEstimator : Type 0 where
  pub estimate_us : ℤ  -- int32_t
  pub reject_run : ℕ  -- uint8_t
  pub reject_min : ℤ  -- int32_t
  pub reject_max : ℤ  -- int32_t
  pub reject_first_us : ℤ  -- int64_t

abbrev pub initial : SendEstimator
initial = record {
  estimate_us = pos 0;
  reject_run = 0;
  reject_min = pos 0;
  reject_max = pos 0;
  reject_first_us = pos 0;
}

-- std::min and std::max
unfoldable pub min_ℤ : ℤ → ℤ → ℤ
min_ℤ a b = if ltb_ℤ b a then b else a

unfoldable pub max_ℤ : ℤ → ℤ → ℤ
max_ℤ a b = if ltb_ℤ a b then b else a

-- The run of rejects after one more: a new run, or the old one widened. The count stops at UINT8_MAX.
unfoldable pub extend_run : SendEstimator → ℤ → ℤ → SendEstimator
extend_run s actual_us now_us =
    if s.reject_run == 0
      || leb_ℤ step_max_us (max_ℤ s.reject_max actual_us -ℤ min_ℤ s.reject_min actual_us)
    then record s {
      reject_min = actual_us;
      reject_max = actual_us;
      reject_first_us = now_us;
      reject_run = 1;
    }
    else record s {
      reject_min = min_ℤ s.reject_min actual_us;
      reject_max = max_ℤ s.reject_max actual_us;
      reject_run = if ltb s.reject_run 255 then s.reject_run + 1 else s.reject_run;
    }

-- The end of `learn`, after the run was extended.
unfoldable pub consider_reseed : SendEstimator → ℤ → SendEstimator × LearnResult
consider_reseed s now_us =
    if leb reseed_after s.reject_run && leb_ℤ reseed_min_span_us (now_us -ℤ s.reject_first_us)
    then (
      record s {
        estimate_us = s.reject_min +ℤ div_trunc (s.reject_max -ℤ s.reject_min) 2;
        reject_run = 0;
      },
      reseeded,
    )
    else (s, rejected)

unfoldable pub learn : SendEstimator → ℤ → ℤ → SendEstimator × LearnResult
learn s actual_us now_us =
    let innov = actual_us -ℤ s.estimate_us in
    if leb_ℤ actual_us us_min || leb_ℤ us_max actual_us
    then (s, ignored)
    else if eqb_ℤ s.estimate_us (pos 0)
    then (record s { estimate_us = actual_us; reject_run = 0 }, seeded)
    else if ltb_ℤ (neg 100) innov && ltb_ℤ innov step_max_us
    then (record s { estimate_us = s.estimate_us +ℤ shr innov ewma_shift; reject_run = 0 }, learned)
    else consider_reseed (extend_run s actual_us now_us) now_us

unfoldable pub learn_fallback : SendEstimator → ℤ → SendEstimator
learn_fallback s dur_us =
    if ltb_ℤ us_min dur_us && ltb_ℤ dur_us us_max
    then record s { estimate_us = s.estimate_us +ℤ shr (dur_us -ℤ s.estimate_us) ewma_shift }
    else s
