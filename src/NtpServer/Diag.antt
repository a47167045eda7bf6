-- ===== src/NtpServer/Diag.antt =====
-- The diagnostic records of ntp_server.h, which `recv_task_` fills and the REQ command dumps.
use esphome_gps_pps_ntp_serv.Base.{
  ℕ, zero, suc, ◌+◌, ◌%◌, ◌==◌, ◌&&◌, ◌||◌, not, Bool, true, false, Option, none, some, List, [],
  ◌∷◌, ◌++◌, get_or, set, take, drop, replicate, ℤ, pos, neg, ◌-ℤ◌, eqb_ℤ, ltb_ℤ, leb_ℤ, u32, sub32,
  to_i32, wrap_u32, cast_i32, if◌then◌else◌,
}
use esphome_gps_pps_ntp_serv.SendEstimator.{LearnResult, reseeded, ignored, us_max}
use esphome_gps_pps_ntp_serv.NtpServer.Frame.{HookInfo}
use esphome_gps_pps_ntp_serv.NtpServer.Request.{
  RefuseReason, refuse_none, refuse_old_edge, refuse_no_edge, refuse_hook_miss,
}
use esphome_gps_pps_ntp_serv.W5500.Classify.{FrameClass, fc_ntp, class_index}
use esphome_gps_pps_ntp_serv.W5500.Recorder.{Recorder, set_net_recorder}
use esphome_gps_pps_ntp_serv.W5500.Reads.{SendStamp}
pub mod Fill
pub mod Ring
pub mod Window
pub mod Dump

-- The DIAG_* bits, each a Boolean.
pub record Flags : Type 0 where
  pub hook_hit : Bool
  pub rx_stalled : Bool
  pub refused : Bool
  pub reseeded : Bool
  pub send_long : Bool
  pub fallback : Bool
  pub arp_miss : Bool
  pub send_not_ntp : Bool
  pub int_edge_t2 : Bool
  pub t2_frame_start : Bool
  pub chip_latency_t2 : Bool

-- REFUSE_ARP_UNRESOLVED is not a reason of the admission.
pub data DiagReason : Type 0 where
  admission : RefuseReason → DiagReason
  arp_unresolved : DiagReason

pub record DiagRecord : Type 0 where
  pub t2_us : ℤ  -- int64_t
  pub client_tx : List ℕ  -- uint8_t[8]
  pub flags : Flags
  pub int_lead_us : ℤ  -- int32_t, as the rest but the reason and `patched`
  pub rx_gap_us : ℤ
  pub hook_latency_us : ℤ
  pub send_us : ℤ
  pub sendto_us : ℤ
  pub lock_wait_us : ℤ
  pub estimate_us : ℤ
  pub arp_wait_us : ℤ
  pub refuse_reason : DiagReason
  pub send_class : ℤ
  pub tx_write_start_us : ℤ
  pub tx_write_end_us : ℤ
  pub rx_rsr : ℤ
  pub frame_len : ℤ
  pub patched : Bool
  pub patch_to_send_us : ℤ
  pub patch_pred_us : ℤ
  pub t3_calc_to_t0_us : ℤ
  pub sendok_interval_us : ℤ

-- A record of zero bytes, as the slots hold at first.
abbrev pub no_record : DiagRecord
no_record = record {
  t2_us = pos 0;
  client_tx = replicate 8 0;
  flags = record {
    hook_hit = false;
    rx_stalled = false;
    refused = false;
    reseeded = false;
    send_long = false;
    fallback = false;
    arp_miss = false;
    send_not_ntp = false;
    int_edge_t2 = false;
    t2_frame_start = false;
    chip_latency_t2 = false;
  };
  int_lead_us = pos 0;
  rx_gap_us = pos 0;
  hook_latency_us = pos 0;
  send_us = pos 0;
  sendto_us = pos 0;
  lock_wait_us = pos 0;
  estimate_us = pos 0;
  arp_wait_us = pos 0;
  refuse_reason = admission refuse_none;
  send_class = pos 0;
  tx_write_start_us = pos 0;
  tx_write_end_us = pos 0;
  rx_rsr = pos 0;
  frame_len = pos 0;
  patched = false;
  patch_to_send_us = pos 0;
  patch_pred_us = pos 0;
  t3_calc_to_t0_us = pos 0;
  sendok_interval_us = pos 0;
}
