-- ===== src/RxAdmission.antt =====
-- components/ntp_server/rx_admission.h: is the arrival of a request well enough timed to be answered?
pub mod Policy
mod Tests
use esphome_gps_pps_ntp_serv.Base.{
  ℕ, ◌==◌, Bool, true, false, not, ◌&&◌, ◌||◌, ℤ, pos, neg, ◌+ℤ◌, ◌-ℤ◌, leb_ℤ, ltb_ℤ, sub32, to_i32,
  if◌then◌else◌,
}

abbrev pub rx_stall_edge_max_age_us : ℤ
rx_stall_edge_max_age_us = pos 2000000

abbrev pub rx_stall_max_us : ℤ
rx_stall_max_us = pos 1000

abbrev pub rx_edge_lead_strict_us : ℤ
rx_edge_lead_strict_us = pos 200

abbrev pub rx_queued_behind_min_bytes : ℤ
rx_queued_behind_min_bytes = pos 60

abbrev pub rx_fresh_burst_min_gap_us : ℤ
rx_fresh_burst_min_gap_us = pos 800

pub record RxEdgeEval : Type 0 where
  pub edge_usable : Bool
  pub lead_us : ℤ  -- int32_t

unfoldable pub evaluate_rx_edge : ℕ → ℕ → ℕ → RxEdgeEval
evaluate_rx_edge edge_seq edge_us burst_start_us =
    let lead = to_i32 (sub32 burst_start_us edge_us) in
    if edge_seq == 0 || burst_start_us == 0
    then record { edge_usable = false; lead_us = pos 0 }
    else record {
      edge_usable = ltb_ℤ (pos 0) lead && ltb_ℤ lead rx_stall_edge_max_age_us;
      lead_us = lead;
    }

pub data RxVerdict : Type 0 where
  accept old_edge no_edge : RxVerdict

unfoldable pub queued_behind_bytes : ℤ → ℤ → ℤ
unfolding ◌+ℤ◌ ◌-ℤ◌
queued_behind_bytes rx_rsr frame_len =
    if ltb_ℤ rx_rsr (pos 0) || ltb_ℤ frame_len (pos 0)
    then neg 1
    else rx_rsr -ℤ (frame_len +ℤ pos 2)

-- The arguments, in the source's order: capture_armed, edge_usable, lead_us, strict,
-- short_wait_active, queued_bytes, rx_gap_us.
unfoldable pub rx_admission : Bool → Bool → ℤ → Bool → Bool → ℤ → ℤ → RxVerdict
rx_admission capture_armed edge_usable lead_us strict short_wait_active queued_bytes rx_gap_us =
    let threshold = if strict then rx_edge_lead_strict_us else rx_stall_max_us in
    if edge_usable && leb_ℤ threshold lead_us
    then old_edge
    else if not strict || not capture_armed || edge_usable
    then accept
    else if not short_wait_active
    then no_edge
    else if ltb_ℤ queued_bytes (pos 0) || leb_ℤ rx_queued_behind_min_bytes queued_bytes
    then no_edge
    else if ltb_ℤ rx_gap_us rx_fresh_burst_min_gap_us
    then no_edge
    else accept
