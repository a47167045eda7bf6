-- ===== src/Deadman/Tests.antt =====
-- The dead-man timer at concrete counter values.
use esphome_gps_pps_ntp_serv.Base.{◌≡◌, refl, false, arith}
use esphome_gps_pps_ntp_serv.Deadman.{DeadmanTimer, arm, expired, remaining_ms}
use esphome_gps_pps_ntp_serv.Deadman.Wrap.{arm-expired}

abbrev fresh : DeadmanTimer
fresh = record { armed = false; deadline_ms = 0 }

-- Armed 1 s before the counter wraps, for 2 s, and asked 1.5 s later.
arm-expired_example :
    (expired (arm fresh 4294966296 2000) 500 ≡ false)
    × (remaining_ms (arm fresh 4294966296 2000) 500 ≡ 500)
arm-expired_example =
    arm-expired fresh 4294966296 2000 1500 (omega arith) (omega arith) (omega arith)

-- At half the counter's range before the deadline the timer is neither expired nor has time left.
at_antipode :
    (expired (arm fresh 0 2147483648) 0 ≡ false) × (remaining_ms (arm fresh 0 2147483648) 0 ≡ 0)
unfolding arm expired remaining_ms
at_antipode = (refl, refl)
