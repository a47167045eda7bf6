-- ===== src/RxAdmission/Tests.antt =====
-- The admission rule at concrete requests.
use esphome_gps_pps_ntp_serv.Base.{◌≡◌, refl, true, false, pos, neg}
use esphome_gps_pps_ntp_serv.RxAdmission.{no_edge, queued_behind_bytes, rx_admission}

-- A receive size smaller than the frame gives a negative count, which is refused as unknown is.
queued_below_frame :
    (queued_behind_bytes (pos 60) (pos 90) ≡ neg 32)
    × (rx_admission true false (pos 0) true true (neg 32) (pos 900) ≡ no_edge)
unfolding queued_behind_bytes rx_admission
queued_below_frame = (refl, refl)
