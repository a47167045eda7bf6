-- ===== src/NtpServer/Task.antt =====
-- `recv_task_` of ntp_server.cpp as a whole: a request is looked up among the hook's stamps, handled as
-- in Request, and its diagnostic record goes into the ring.
pub mod Accounts
pub mod Run
pub mod Printable
pub mod Running
pub mod Answer
pub mod Dumped
mod Tests
use esphome_gps_pps_ntp_serv.Base.{
  ℕ, ◌==◌, not, Bool, true, false, Option, none, some, List, [], ◌∷◌, take, drop, ℤ, pos, ◌-ℤ◌,
  ltb_ℤ, sub32, to_i32, wrap_u32, cast_i32, if◌then◌else◌,
}
use esphome_gps_pps_ntp_serv.SendEstimator.{LearnResult, ignored, learn}
use esphome_gps_pps_ntp_serv.HookRing.{Observed, lookup}
use esphome_gps_pps_ntp_serv.W5500.Reads as Reads
use esphome_gps_pps_ntp_serv.NtpServer.Frame.{HookInfo}
use esphome_gps_pps_ntp_serv.NtpServer.Reply.{is_time_synchronized}
use esphome_gps_pps_ntp_serv.NtpServer.Request.{
  SendStamp, State, Settings, Round, refuse_reason, is_refused, is_unresolved, round,
}
use esphome_gps_pps_ntp_serv.NtpServer.Diag.{DiagRecord}
use esphome_gps_pps_ntp_serv.NtpServer.Diag.Fill.{
  unmeasured, is_ntp, Sent, diag_start, diag_refuse, diag_unresolved, diag_sent,
}
use esphome_gps_pps_ntp_serv.NtpServer.Diag.Ring.{Diagnostics, diag_record}

pub record Task : Type 0 where
  pub state : State
  pub diag : Diagnostics

-- What one turn of the loop reads. The hook and the send stamp of `round` come from `slots` and
-- `stamp`: the slots of the hook's ring as `hook_lookup_` sees them, and `w5500_send_stamp()`.
pub record Turn : Type 0 where
  pub settings : Settings
  pub round : Round
  pub src_port : ℕ
  pub lookup_now_us : ℤ
  pub slots : List (Observed HookInfo)
  pub stamp : Reads.SendStamp
  pub now_us : ℤ  -- for the T2 of a request that the hook missed
  pub lock_wait_us : ℤ

abbrev pub client_tx : List ℕ → List ℕ
client_tx request = take 8 (drop 40 request)

abbrev pub stamp_used : Reads.SendStamp → SendStamp
stamp_used a = record {
  seq = a.seq;
  send_cmd_us = a.send_cmd_us;
  is_ntp = is_ntp a.frame_class;
  patch_us = a.patch_us;
  patched = a.patched;
}

unfoldable pub heard : Turn → Round
heard u = record u.round {
  hook =
      lookup HookInfo.t (client_tx u.round.request) u.round.client u.src_port u.lookup_now_us
        u.slots;
  after = stamp_used u.stamp;
}

abbrev pub hook_latency_us : Round → ℤ
hook_latency_us r = elim r.hook [ none ↦ unmeasured | some h ↦ cast_i32 (r.hook_now_us -ℤ h.t) ]

abbrev pub arp_waited_us : Round → ℤ
arp_waited_us r = elim r.arp_wait [ none ↦ unmeasured | some w ↦ w.waited_us ]

abbrev pub arp_missed : Round → Bool
arp_missed r = elim r.arp_wait [ none ↦ false | some w ↦ w.missed ]

-- What `learn` answered, or IGNORED where it was not called.
abbrev pub learn_result : State → Round → LearnResult
learn_result s r =
    let actual_us = to_i32 (sub32 r.after.send_cmd_us (wrap_u32 r.t0)) in
    if r.after.seq == r.before_seq
    then ignored
    else if r.after.is_ntp
    then (learn s.estimator actual_us r.t0).1
    else ignored

-- The measurements of an answered request; `s` is the state before it, `s'` after it.
abbrev pub measured : State → State → Turn → Round → Sent
measured s s' u r = record {
  missed = arp_missed r;
  arp_wait_us = arp_waited_us r;
  lock_wait_us = u.lock_wait_us;
  last_t3_clock_read_us = s'.last_t3_clock_read_us;
  before_seq = r.before_seq;
  after = u.stamp;
  t0 = r.t0;
  t_after = r.t_after;
  learned = learn_result s r;
  patch_pred_us = s.patch_delay.estimate_us;
}

-- The record of a turn, or `none` for a packet that is dropped before there is one.
unfoldable pub turn_record : Turn → State → State → Option DiagRecord
turn_record u s s' =
    let r = heard u in
    let d = diag_start r.hook u.now_us r.request (hook_latency_us r) s.estimator.estimate_us in
    let reason = refuse_reason u.settings r.hook in
    if ltb_ℤ r.received (pos 48)
    then none
    else if not (is_time_synchronized u.settings.server)
    then none
    else if is_refused reason
    then some (diag_refuse d reason)
    else if is_unresolved r
    then some (diag_unresolved d (arp_waited_us r))
    else some (diag_sent d (measured s s' u r))

-- `if (diagnostics)` around `diag_record_`.
abbrev pub keep_record : Diagnostics → Option DiagRecord → Diagnostics
keep_record diag none = diag
keep_record diag (some d) = if diag.diagnostics then diag_record diag d else diag

module _ (root_dispersion : Bool → Option ℕ → ℕ) where
  unfoldable pub turn : Task → Turn → Task × Option (List ℕ)
  turn t u =
      let (s', reply) = round root_dispersion u.settings t.state (heard u) in
      (record { state = s'; diag = keep_record t.diag (turn_record u t.state s') }, reply)

  -- The task over a sequence of turns: its state at the end.
  unfoldable pub turns : Task → List Turn → Task
  turns t [] = t
  turns t (u ∷ us) = turns (turn t u).0 us
