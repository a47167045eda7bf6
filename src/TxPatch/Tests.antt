-- ===== src/TxPatch/Tests.antt =====
-- The patch planning on a concrete reply frame.
use esphome_gps_pps_ntp_serv.Base.{
  ℕ, ◌≡◌, ◌↔◌, refl, none, some, List, [], ◌∷◌, ◌++◌, replicate, true, false,
}
use esphome_gps_pps_ntp_serv.TxPatch.{plan_ntp_tx_patch, plan_udp}
use esphome_gps_pps_ntp_serv.TxPatch.Plan.{IsServerReply, planned_iff}

-- A reply from port 123: Ethernet header, a 20-byte IPv4 header, UDP header, 48 bytes of NTP.
abbrev reply : List ℕ
reply =
    replicate 12 2
    ++ (0x08 ∷ 0x00 ∷ 0x45 ∷ replicate 8 0)
    ++ (17 ∷ replicate 10 0)
    ++ (0 ∷ 123 ∷ 4 ∷ 210 ∷ 0 ∷ 56 ∷ 0xab ∷ 0xcd ∷ [])
    ++ (0x24 ∷ replicate 39 7)
    ++ (1 ∷ 2 ∷ 3 ∷ 4 ∷ 5 ∷ 6 ∷ 7 ∷ 8 ∷ [])

reply_planned : (plan_ntp_tx_patch (some reply) 90 123).planned ≡ true
unfolding plan_ntp_tx_patch plan_udp
reply_planned = refl

planned_iff_example :
    ((plan_ntp_tx_patch (some reply) 90 123).planned ≡ true ↔ IsServerReply reply 90 123)
    × ((plan_ntp_tx_patch none 90 123).planned ≡ false)
planned_iff_example = planned_iff reply 90 123

abbrev old_t3 : List ℕ
old_t3 = 1 ∷ 2 ∷ 3 ∷ 4 ∷ 5 ∷ 6 ∷ 7 ∷ 8 ∷ []

abbrev new_t3 : List ℕ
new_t3 = 255 ∷ 254 ∷ 0 ∷ 0 ∷ 128 ∷ 1 ∷ 9 ∷ 9 ∷ []
