-- ===== src/NtpServer/Request.antt =====
-- One round of `recv_task_` in ntp_server.cpp: is the request answered, with what, and what is learned
-- from the send. The diagnostic record is left out. What the clocks, the socket, the driver's stamps
-- and the waits return is the input of a round.
use esphome_gps_pps_ntp_serv.Base.{
  ℕ, ◌+◌, ◌==◌, Bool, true, false, not, ◌&&◌, Option, none, some, List, ℤ, pos, ◌-ℤ◌, ltb_ℤ, u32,
  sub32, to_i32, wrap_u32, cast_i32, if◌then◌else◌,
}
use esphome_gps_pps_ntp_serv.RxAdmission.{
  accept, old_edge, no_edge, queued_behind_bytes, rx_admission,
}
use esphome_gps_pps_ntp_serv.SendEstimator.{SendEstimator, us_max, learn, learn_fallback}
use esphome_gps_pps_ntp_serv.TxPatch.{PatchDelayEstimator, learn_delay}
use esphome_gps_pps_ntp_serv.ArpWait.{ArpWaitResult}
use esphome_gps_pps_ntp_serv.NtpServer.Timestamp.{
  NtpTimestamp, ClockReads, get_ntp_timestamp, hook_to_ntp_timestamp,
}
use esphome_gps_pps_ntp_serv.NtpServer.Window.{WindowMax, add}
use esphome_gps_pps_ntp_serv.NtpServer.Frame.{HookInfo}
use esphome_gps_pps_ntp_serv.NtpServer.ArpClients.{ArpClients, note_arp_client}
use esphome_gps_pps_ntp_serv.NtpServer.Reply.{Server, is_time_synchronized, build_ntp_response}

pub data RefuseReason : Type 0 where
  refuse_none refuse_old_edge refuse_no_edge refuse_hook_miss : RefuseReason

-- The part of `W5500SendStamp` that is used without diagnostics.
pub record SendStamp : Type 0 where
  pub seq : ℕ
  pub send_cmd_us : ℕ
  pub is_ntp : Bool  -- frame_class == W5500_FC_NTP
  pub patch_us : ℕ
  pub patched : Bool

pub record State : Type 0 where
  pub estimator : SendEstimator
  pub patch_delay : PatchDelayEstimator
  pub t3_error_win : WindowMax
  pub hook_latency_win : WindowMax
  pub refused : ℕ
  pub arp_waits : ℕ
  pub arp : ArpClients
  pub last_t3_clock_read_us : ℤ

-- The settings; `estimate_us` of `server` is replaced by that of the estimator.
pub record Settings : Type 0 where
  pub server : Server
  pub has_netif : Bool
  pub strict_rx_admission : Bool
  pub short_wait_effective : Bool

pub record Round : Type 0 where
  pub received : ℤ
  pub request : List ℕ
  pub client : ℕ
  pub receive_reads : ClockReads
  pub hook : Option HookInfo  -- what hook_lookup_() found
  pub hook_reads : ClockReads
  pub hook_now_us : ℤ
  pub arp_wait : Option ArpWaitResult  -- `none` without a next hop to wait for
  pub transmit_reads : ClockReads
  pub before_seq : ℕ
  pub t0 : ℤ
  pub t_after : ℤ
  pub after : SendStamp

unfoldable pub refuse_reason : Settings → Option HookInfo → RefuseReason
refuse_reason c none = if c.has_netif then refuse_hook_miss else refuse_none
refuse_reason c (some h) =
    elim (rx_admission h.capture_armed h.edge_usable h.lead_us c.strict_rx_admission
      c.short_wait_effective (queued_behind_bytes h.rx_rsr h.frame_len) h.rx_gap_us) [
        | accept ↦ refuse_none
        | old_edge ↦ refuse_old_edge
        | no_edge ↦ refuse_no_edge
      ]

abbrev pub is_refused : RefuseReason → Bool
is_refused refuse_none = false
is_refused r = true

unfoldable pub receive_timestamp : Settings → Round → NtpTimestamp
receive_timestamp c r = elim r.hook [
  | none ↦ (get_ntp_timestamp c.server.use_pps_anchor r.receive_reads (pos 0)).0
  | some h ↦ hook_to_ntp_timestamp c.server.use_pps_anchor r.hook_reads h.t
]

unfoldable pub note_latency : State → Round → State
note_latency s r = elim r.hook [
  | none ↦ s
  | some h ↦ record s {
    hook_latency_win = add s.hook_latency_win (cast_i32 (r.hook_now_us -ℤ h.t));
  }
]

unfoldable pub learn_patch : State → SendStamp → State
learn_patch s after =
    if after.patched && not (after.patch_us == 0)
    then record s {
      patch_delay = learn_delay s.patch_delay (to_i32 (sub32 after.send_cmd_us after.patch_us));
    }
    else s

-- What the send teaches: the command of an NTP frame, nothing from another frame's, or else how long
-- sendto() took.
unfoldable pub learn_send : State → Round → State
learn_send s r =
    let actual_us = to_i32 (sub32 r.after.send_cmd_us (wrap_u32 r.t0)) in
    let error = cast_i32 (actual_us -ℤ s.estimator.estimate_us) in
    if r.after.seq == r.before_seq
    then record s { estimator = learn_fallback s.estimator (cast_i32 (r.t_after -ℤ r.t0)) }
    else if r.after.is_ntp
    then learn_patch
        (record s {
          t3_error_win =
              if ltb_ℤ (pos 0) actual_us && ltb_ℤ actual_us us_max
              then add s.t3_error_win error
              else s.t3_error_win;
          estimator = (learn s.estimator actual_us r.t0).0;
        })
        r.after
    else s

unfoldable pub refuse : State → State
refuse s = record s { refused = u32 (s.refused + 1) }

unfoldable pub note_wait : State → Round → State
note_wait s r = elim r.arp_wait [
  | none ↦ s
  | some w ↦ if w.missed then record s { arp_waits = u32 (s.arp_waits + 1) } else s
]

unfoldable pub is_unresolved : Round → Bool
is_unresolved r = elim r.arp_wait [ none ↦ false | some w ↦ not w.resolved ]

module _ (root_dispersion : Bool → Option ℕ → ℕ) where
  -- The reply, and the state after the send.
  unfoldable pub answer : Settings → State → Round → State × Option (List ℕ)
  answer c s r =
      let server = record c.server { estimate_us = s.estimator.estimate_us } in
      let built =
        build_ntp_response root_dispersion server r.request (receive_timestamp c r)
          r.transmit_reads in
      (learn_send (record s { last_t3_clock_read_us = built.1 }) r, some (built.0))

  unfoldable pub round : Settings → State → Round → State × Option (List ℕ)
  round c s r =
      let noted = note_latency s r in
      let tracked = record noted { arp = note_arp_client noted.arp r.client } in
      let waited = note_wait tracked r in
      if ltb_ℤ r.received (pos 48)
      then (s, none)
      else if not (is_time_synchronized c.server)
      then (noted, none)
      else if is_refused (refuse_reason c r.hook)
      then (refuse noted, none)
      else if is_unresolved r
      then (refuse waited, none)
      else answer c waited r
