-- ===== src/Deadman/Wrap.antt =====
-- The timer of deadman.h counts real time, whatever value the wrapping counter has when it is armed.
use esphome_gps_pps_ntp_serv.Base.{ℕ, ◌+◌, ◌-◌, ◌<◌, ◌≡◌, true, false, arith, leb, u32, u32_mod}
use esphome_gps_pps_ntp_serv.Deadman.{DeadmanTimer, arm, disarm, expired, remaining_ms}

-- Armed at any counter value `now` for `dur` ms, and asked `k` ms later (both spans below 2^31 ms,
-- the counter having wrapped or not): the timer has expired exactly when `k` has reached `dur`, and
-- the time that it reports as remaining is `dur - k`, or 0 once expired.
pub arm-expired :
    (t : DeadmanTimer) (now dur k : ℕ)
    → now < u32_mod
    → dur < 2147483648
    → k < 2147483648
    → let t' = arm t now dur in
      (expired t' (u32 (now + k)) ≡ leb dur k) × (remaining_ms t' (u32 (now + k)) ≡ dur - k)
unfolding arm expired remaining_ms
arm-expired t now dur k hn hd hk = (ground arith, ground arith)

-- A timer that still has time left has not expired, and a disarmed one has neither.
pub remaining-expired :
    (t : DeadmanTimer) (now : ℕ)
    → t.deadline_ms < u32_mod
    → now < u32_mod
    → 0 < remaining_ms t now
    → (expired t now ≡ false) × (t.armed ≡ true) × (remaining_ms (disarm t) now ≡ 0)
unfolding expired remaining_ms disarm
remaining-expired t now hd hn h = ground arith
