-- ===== src/Gps/Period.antt =====
-- The pulse-period check of `apply_pps_correction_` (gps_pps_time.cpp): how many seconds a pulse
-- interval counts for, whether it is in spec, and the two streaks that gate serving.
use esphome_gps_pps_ntp_serv.Base.{
  ℕ, ◌+◌, ◌/◌, Bool, true, false, not, ◌&&◌, ltb, leb, ℤ, pos, neg, sub_ℕ, ◌+ℤ◌, ◌-ℤ◌, ◌*ℤ◌, leb_ℤ,
  ltb_ℤ, eqb_ℤ, u32, to_i32, cast_i32, if◌then◌else◌,
}
use esphome_gps_pps_ntp_serv.Gps.State.{GpsPpsTime}

abbrev pub pps_period_tolerance_us : ℤ
pps_period_tolerance_us = pos 20000

abbrev pub pps_period_bad_streak_max : ℕ
pps_period_bad_streak_max = 3

abbrev pub pps_period_good_streak_max : ℕ
pps_period_good_streak_max = 10

-- `static_cast<int>((interval + 500000u) / 1000000u) - 1`
unfoldable pub extra_epochs : ℕ → ℤ
extra_epochs pps_interval_us = sub_ℕ (u32 (pps_interval_us + 500000) / 1000000) 1

unfoldable pub isr_latency : ℕ → ℤ
unfolding extra_epochs
isr_latency pps_interval_us =
    let deviation = to_i32 pps_interval_us -ℤ pos 1000000 in
    if eqb_ℤ (extra_epochs pps_interval_us) (pos 0)
    then if ltb_ℤ (pos 500) deviation && ltb_ℤ deviation (pos 10000) then deviation else pos 0
    else pos 0

-- The product and the difference are of type `int`: they are taken modulo 2^32, as the machine does.
unfoldable pub period_residual : ℕ → ℤ
period_residual pps_interval_us =
    cast_i32
      (to_i32 pps_interval_us -ℤ cast_i32 ((extra_epochs pps_interval_us +ℤ pos 1) *ℤ pos 1000000))

unfoldable pub period_in_spec : ℕ → Bool
period_in_spec pps_interval_us =
    leb_ℤ (pos 0) (extra_epochs pps_interval_us)
    && (leb_ℤ (period_residual pps_interval_us) pps_period_tolerance_us
        && leb_ℤ (neg 20000) (period_residual pps_interval_us))

unfoldable pub judge_period : GpsPpsTime → Bool → GpsPpsTime
judge_period s false =
    let streak =
      if ltb s.pps_period_bad_streak pps_period_bad_streak_max
      then s.pps_period_bad_streak + 1
      else s.pps_period_bad_streak in
    record s {
      pps_period_good_streak = 0;
      pps_period_bad_streak = streak;
      pps_period_healthy =
          if leb pps_period_bad_streak_max streak && s.pps_period_healthy
          then false
          else s.pps_period_healthy;
    }
judge_period s true =
    let streak =
      if ltb s.pps_period_good_streak pps_period_good_streak_max
      then s.pps_period_good_streak + 1
      else s.pps_period_good_streak in
    record s {
      pps_period_bad_streak = 0;
      pps_period_good_streak = streak;
      pps_period_healthy =
          if leb pps_period_good_streak_max streak && not s.pps_period_healthy
          then true
          else s.pps_period_healthy;
    }
