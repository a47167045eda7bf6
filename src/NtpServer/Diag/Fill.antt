-- ===== src/NtpServer/Diag/Fill.antt =====
-- How `recv_task_` of ntp_server.cpp fills the diagnostic record of a request.
use esphome_gps_pps_ntp_serv.Base.{
  ℕ, ◌==◌, ◌&&◌, ◌||◌, ◌≡◌, refl, not, Bool, true, false, Option, none, some, List, take, drop, ℤ,
  pos, neg, ◌-ℤ◌, leb_ℤ, sub32, to_i32, wrap_u32, cast_i32, if◌then◌else◌,
}
use esphome_gps_pps_ntp_serv.SendEstimator.{LearnResult, reseeded, ignored, us_max}
use esphome_gps_pps_ntp_serv.NtpServer.Frame.{HookInfo}
use esphome_gps_pps_ntp_serv.NtpServer.Request.{
  RefuseReason, refuse_none, refuse_old_edge, refuse_no_edge, refuse_hook_miss,
}
use esphome_gps_pps_ntp_serv.W5500.Classify.{FrameClass, fc_ntp, class_index}
use esphome_gps_pps_ntp_serv.W5500.Reads.{SendStamp}
use esphome_gps_pps_ntp_serv.NtpServer.Diag.{DiagRecord, Flags, admission, arp_unresolved}

abbrev pub unmeasured : ℤ
unmeasured = neg 1

abbrev pub hook_flags : Option HookInfo → Flags
hook_flags hook = record {
  hook_hit = elim hook [ none ↦ false | some h ↦ true ];
  rx_stalled = false;
  refused = false;
  reseeded = false;
  send_long = false;
  fallback = false;
  arp_miss = false;
  send_not_ntp = false;
  int_edge_t2 = elim hook [ none ↦ false | some h ↦ h.t2_from_edge ];
  t2_frame_start = elim hook [ none ↦ false | some h ↦ h.t2_from_frame_start ];
  chip_latency_t2 = elim hook [ none ↦ false | some h ↦ h.t2_chip_latency ];
}

-- The record at its start; `now_us` is the time of a request that the hook missed.
unfoldable pub diag_start : Option HookInfo → ℤ → List ℕ → ℤ → ℤ → DiagRecord
diag_start hook now_us buffer hook_latency_us estimate_us = record {
  t2_us = elim hook [ none ↦ now_us | some h ↦ h.t ];
  client_tx = take 8 (drop 40 buffer);
  flags = hook_flags hook;
  int_lead_us = elim hook [ none ↦ unmeasured | some h ↦ h.int_lead_us ];
  rx_gap_us = elim hook [ none ↦ unmeasured | some h ↦ h.rx_gap_us ];
  hook_latency_us = hook_latency_us;
  send_us = unmeasured;
  sendto_us = unmeasured;
  lock_wait_us = unmeasured;
  estimate_us = estimate_us;
  arp_wait_us = unmeasured;
  refuse_reason = admission refuse_none;
  send_class = unmeasured;
  tx_write_start_us = unmeasured;
  tx_write_end_us = unmeasured;
  rx_rsr = elim hook [ none ↦ unmeasured | some h ↦ h.rx_rsr ];
  frame_len = elim hook [ none ↦ unmeasured | some h ↦ h.frame_len ];
  patched = false;
  patch_to_send_us = unmeasured;
  patch_pred_us = unmeasured;
  t3_calc_to_t0_us = unmeasured;
  sendok_interval_us = unmeasured;
}

abbrev pub is_stall : RefuseReason → Bool
is_stall refuse_old_edge = true
is_stall refuse_no_edge = true
is_stall refuse_none = false
is_stall refuse_hook_miss = false

-- A request refused by the admission, and one whose next hop did not resolve.
unfoldable pub diag_refuse : DiagRecord → RefuseReason → DiagRecord
diag_refuse d reason = record d {
  flags = record d.flags { refused = true; rx_stalled = is_stall reason || d.flags.rx_stalled };
  refuse_reason = admission reason;
}

unfoldable pub diag_unresolved : DiagRecord → ℤ → DiagRecord
diag_unresolved d arp_wait_us = record d {
  flags = record d.flags { refused = true; arp_miss = true };
  arp_wait_us = arp_wait_us;
  refuse_reason = arp_unresolved;
}

-- What an answered request measured; `patch_pred_us` is the patch delay's estimate before it learned.
pub record Sent : Type 0 where
  pub missed : Bool
  pub arp_wait_us : ℤ
  pub lock_wait_us : ℤ
  pub last_t3_clock_read_us : ℤ
  pub before_seq : ℕ
  pub after : SendStamp
  pub t0 : ℤ
  pub t_after : ℤ
  pub learned : LearnResult
  pub patch_pred_us : ℤ

abbrev pub sent_one : Sent → Bool
sent_one s = not (s.after.seq == s.before_seq)

abbrev pub is_ntp : FrameClass → Bool
is_ntp c = class_index c == class_index fc_ntp

-- The SEND was provably that of our reply.
abbrev pub is_ours : Sent → Bool
is_ours s = sent_one s && is_ntp s.after.frame_class

-- Microseconds from t0, and between two stamps, as int32_t.
abbrev pub since_t0 : Sent → ℕ → ℤ
since_t0 s stamp = to_i32 (sub32 stamp (wrap_u32 s.t0))

abbrev pub actual_us : Sent → ℤ
actual_us s = if is_ours s then since_t0 s s.after.send_cmd_us else unmeasured

abbrev pub sendto_us : Sent → ℤ
sendto_us s = cast_i32 (s.t_after -ℤ s.t0)

abbrev pub is_ignored : LearnResult → Bool
is_ignored ignored = true
is_ignored r = false

abbrev pub is_reseeded : LearnResult → Bool
is_reseeded reseeded = true
is_reseeded r = false

unfoldable pub diag_sent : DiagRecord → Sent → DiagRecord
diag_sent d s =
    let a = s.after in
    let measured = is_ours s && (not (a.txbuf_start_us == 0) && not (a.txbuf_end_us == 0)) in
    let patched = is_ours s && a.patched in
    record d {
      arp_wait_us = s.arp_wait_us;
      lock_wait_us = s.lock_wait_us;
      t3_calc_to_t0_us = cast_i32 (s.t0 -ℤ s.last_t3_clock_read_us);
      send_us = actual_us s;
      sendto_us = sendto_us s;
      sendok_interval_us =
          if is_ours s && a.sendok_seq == a.seq
          then to_i32 (sub32 a.sendok_us a.send_cmd_us)
          else unmeasured;
      send_class = if sent_one s then pos (class_index a.frame_class) else unmeasured;
      tx_write_start_us = if measured then since_t0 s a.txbuf_start_us else d.tx_write_start_us;
      tx_write_end_us = if measured then since_t0 s a.txbuf_end_us else d.tx_write_end_us;
      patched = patched || d.patched;
      patch_to_send_us =
          if patched
          then if a.patch_us == 0 then unmeasured else to_i32 (sub32 a.send_cmd_us a.patch_us)
          else d.patch_to_send_us;
      patch_pred_us =
          if patched
          then if a.patch_us == 0 then unmeasured else s.patch_pred_us
          else d.patch_pred_us;
      flags = record d.flags {
        arp_miss = s.missed || d.flags.arp_miss;
        send_not_ntp = (sent_one s && not (is_ntp a.frame_class)) || d.flags.send_not_ntp;
        send_long = leb_ℤ us_max (actual_us s) || leb_ℤ us_max (sendto_us s) || d.flags.send_long;
        reseeded = is_reseeded s.learned || d.flags.reseeded;
        fallback = (is_ignored s.learned && not (sent_one s)) || d.flags.fallback;
      };
    }

-- Where no SEND happened, or it was of another frame, the record of an answered request has no time of
-- the SEND and none of its completion, and its fields on the patch and on the TX buffer are as before.
diag_sent-not_ours :
    (d : DiagRecord) (s : Sent)
    → is_ours s ≡ false
    → let d' = diag_sent d s in
      (d'.send_us ≡ unmeasured)
      × (d'.sendok_interval_us ≡ unmeasured)
      × (d'.tx_write_start_us ≡ d.tx_write_start_us)
      × (d'.tx_write_end_us ≡ d.tx_write_end_us)
      × (d'.patched ≡ d.patched)
      × (d'.patch_to_send_us ≡ d.patch_to_send_us)
      × (d'.patch_pred_us ≡ d.patch_pred_us)
unfolding diag_sent
diag_sent-not_ours d s h = rw h (refl, refl, refl, refl, refl, refl, refl)
