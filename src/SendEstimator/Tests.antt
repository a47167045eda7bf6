-- ===== src/SendEstimator/Tests.antt =====
-- The send estimator on concrete samples.
use esphome_gps_pps_ntp_serv.Base.{◌≡◌, ◌⊎◌, refl, arith, pos, ◌+ℤ◌, ◌-ℤ◌, shr}
use esphome_gps_pps_ntp_serv.SendEstimator.{SendEstimator, initial, learn, learn_fallback}
use esphome_gps_pps_ntp_serv.SendEstimator.Bounds.{IsValid, IsSmall, IsReseed, learn_step}

abbrev settled : SendEstimator
settled = record initial { estimate_us = pos 300 }

settled-IsValid : IsValid settled
settled-IsValid = omega arith

abbrev rejecting : SendEstimator
rejecting = record {
  estimate_us = pos 300;
  reject_run = 3;
  reject_min = pos 790;
  reject_max = pos 810;
  reject_first_us = pos 1000;
}

rejecting-IsValid : IsValid rejecting
rejecting-IsValid = omega arith

learn_step_example :
    let (s, result) = learn rejecting (pos 800) (pos 4000000) in
    IsSmall rejecting s result ⊎ IsReseed rejecting s (pos 800) (pos 4000000) result
learn_step_example = learn_step rejecting (pos 800) (pos 4000000) rejecting-IsValid (λ e. cc)

-- Before any seed, a fallback sample of 200 us leaves an estimate of 25 us, below the floor.
fallback_unseeded : (learn_fallback initial (pos 200)).estimate_us ≡ pos 25
unfolding learn_fallback ◌+ℤ◌ ◌-ℤ◌ shr
fallback_unseeded = refl
