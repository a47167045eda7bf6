-- ===== src/Gps/Isr.antt =====
-- The PPS interrupt (`pps_isr`) and the MCPWM capture callback of gps_pps_time.cpp.
use esphome_gps_pps_ntp_serv.Base.{
  ℕ, ◌+◌, ◌≤◌, ◌<◌, ◌≡◌, ◌⊎◌, ◌==◌, true, not, ◌&&◌, ltb, arith, u32, u32_mod, sub32, sub32-add,
  if◌then◌else◌,
}
use esphome_gps_pps_ntp_serv.Gps.State.{GpsPpsTime}

unfoldable pub pps_isr : GpsPpsTime → ℕ → GpsPpsTime
pps_isr s now =
    if not (s.isr_anchor_micros == 0) && ltb (sub32 now s.isr_anchor_micros) 900000
    then s
    else record s { last_pps_micros = now; isr_anchor_micros = now; pps_flag = true }

-- The capture's `on_cap`, with the timer value that the hardware latched.
unfoldable pub on_cap : GpsPpsTime → ℕ → GpsPpsTime
on_cap s now = record s {
  pps_cap_interval =
      if not (s.pps_cap_count == 0) then sub32 now s.pps_cap_prev else s.pps_cap_interval;
  pps_cap_prev = now;
  pps_cap_count = u32 (s.pps_cap_count + 1);
}

-- An edge `k` us after the last accepted one (the counter wrapping or not) is dropped, with no
-- change to the state, exactly if k is below 900000; otherwise it is stamped and flagged. The counter
-- value 0 as the last stamp stands for "none yet", so that it is excluded here.
pub pps_isr_guard :
    (s : GpsPpsTime) (k : ℕ)
    → 0 < s.isr_anchor_micros
    → s.isr_anchor_micros < u32_mod
    → k < u32_mod
    → let now = u32 (s.isr_anchor_micros + k) in
      (k < 900000) × (pps_isr s now ≡ s)
      ⊎ (900000 ≤ k)
        × (pps_isr s now
            ≡ record s { last_pps_micros = now; isr_anchor_micros = now; pps_flag = true })
unfolding pps_isr
pps_isr_guard s k h0 h hk = ground (arith, sub32-add s.isr_anchor_micros k h hk)
