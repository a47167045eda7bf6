-- ===== src/NtpServer/Task/Answer.antt =====
-- The ranges of what `recv_task_` of ntp_server.cpp records of a sequence of requests, for the text that
-- `diag_serve_` prints of them.
use esphome_gps_pps_ntp_serv.Base.{
  ℕ, ◌≡◌, ◌++◌, not, Bool, Option, none, some, List, [], ◌∷◌, length, drop, arith, zero, suc, ℤ,
  pos, ◌≤ℤ◌, ◌<ℤ◌, negsuc, ◌-ℤ◌, ltb_ℤ, eqb_ℤ, cast_i32, if_elim,
}
use esphome_gps_pps_ntp_serv.NtpServer.Reply.{is_time_synchronized}
use esphome_gps_pps_ntp_serv.NtpServer.Request.{
  RefuseReason, State, Round, is_refused, is_unresolved, refuse_reason,
}
use esphome_gps_pps_ntp_serv.NtpServer.Diag.{DiagRecord}
use esphome_gps_pps_ntp_serv.NtpServer.Frame.{HookInfo}
use esphome_gps_pps_ntp_serv.NtpServer.Diag.Fill.{
  unmeasured, diag_start, diag_refuse, diag_unresolved,
}
use esphome_gps_pps_ntp_serv.NtpServer.Diag.Window.{listed}
use esphome_gps_pps_ntp_serv.NtpServer.Console.Lengths.{IsInt32, IsInt64, IsSize, IsPrintable}
use esphome_gps_pps_ntp_serv.NtpServer.Console.Answers.{ArePrintable}
use esphome_gps_pps_ntp_serv.NtpServer.Task.{
  Task, Turn, heard, turn_record, turn, arp_waited_us, hook_latency_us, measured,
}
use esphome_gps_pps_ntp_serv.NtpServer.Task.Accounts.{to_list}
use esphome_gps_pps_ntp_serv.NtpServer.Task.Run.{turn_records}
use esphome_gps_pps_ntp_serv.NtpServer.Task.Printable.{
  IsHeard, cast_i32-IsInt32, diag_start-IsPrintable, diag_sent-IsPrintable,
}
use esphome_gps_pps_ntp_serv.NtpServer.Task.Running.{IsRunning, round-IsRunning}

-- The readings of a turn lie in the ranges of their types.
pub record IsRead (u : Turn) : Type 0 where
  pub hook : IsHeard (heard u).hook
  pub request : length u.round.request ≡ 48
  pub now : IsInt64 u.now_us
  pub lock : IsInt32 u.lock_wait_us
  pub wait : IsInt32 (arp_waited_us (heard u))

small-IsSize : (a : ℤ) → pos 0 ≤ℤ a → a <ℤ pos 5000 → IsSize a
small-IsSize (pos n) lo hi = omega arith
small-IsSize (negsuc n) lo hi = omega arith

small-IsInt32 : (a : ℤ) → pos 0 ≤ℤ a → a ≤ℤ pos 500 → IsInt32 a
small-IsInt32 (pos n) lo hi = omega arith
small-IsInt32 (negsuc n) lo hi = omega arith

hooked :
    (hook : Option HookInfo) (now : ℤ)
    → IsInt32 (elim hook [ none ↦ unmeasured | some h ↦ cast_i32 (now -ℤ h.t) ])
hooked none now = omega arith
hooked (some h) now = cast_i32-IsInt32 (now -ℤ h.t)

hook_latency-IsInt32 : (r : Round) → IsInt32 (hook_latency_us r)
hook_latency-IsInt32 r = hooked r.hook r.hook_now_us

start-IsPrintable :
    (s : State) (u : Turn)
    → IsRunning s
    → IsRead u
    → let r = heard u in
      IsPrintable (diag_start r.hook u.now_us r.request (hook_latency_us r) s.estimator.estimate_us)
unfolding heard
start-IsPrintable s u h read =
    diag_start-IsPrintable (heard u).hook u.now_us u.round.request (hook_latency_us (heard u))
      s.estimator.estimate_us read.hook read.now read.request (hook_latency-IsInt32 (heard u))
      (small-IsSize s.estimator.estimate_us h.valid.estimate_low h.valid.estimate_high)

diag_refuse-IsPrintable :
    (d : DiagRecord) (reason : RefuseReason) → IsPrintable d → IsPrintable (diag_refuse d reason)
unfolding diag_refuse
diag_refuse-IsPrintable d reason p = record {
  t2 = p.t2;
  tx = p.tx;
  int_lead = p.int_lead;
  rx_gap = p.rx_gap;
  hook_latency = p.hook_latency;
  send = p.send;
  sendto = p.sendto;
  lock_wait = p.lock_wait;
  estimate = p.estimate;
  arp_wait = p.arp_wait;
  class = p.class;
  tx_start = p.tx_start;
  tx_end = p.tx_end;
  rsr = p.rsr;
  frame = p.frame;
  to_send = p.to_send;
  pred = p.pred;
  t3_gap = p.t3_gap;
  sendok = p.sendok;
}

diag_unresolved-IsPrintable :
    (d : DiagRecord) (us : ℤ) → IsPrintable d → IsInt32 us → IsPrintable (diag_unresolved d us)
unfolding diag_unresolved
diag_unresolved-IsPrintable d us p h = record {
  t2 = p.t2;
  tx = p.tx;
  int_lead = p.int_lead;
  rx_gap = p.rx_gap;
  hook_latency = p.hook_latency;
  send = p.send;
  sendto = p.sendto;
  lock_wait = p.lock_wait;
  estimate = p.estimate;
  arp_wait = h;
  class = p.class;
  tx_start = p.tx_start;
  tx_end = p.tx_end;
  rsr = p.rsr;
  frame = p.frame;
  to_send = p.to_send;
  pred = p.pred;
  t3_gap = p.t3_gap;
  sendok = p.sendok;
}

turn_record-ArePrintable :
    (s s' : State) (u : Turn) → IsRunning s → IsRead u → ArePrintable (to_list (turn_record u s s'))
unfolding turn_record
turn_record-ArePrintable s s' u h read =
    let r = heard u in
    let p = start-IsPrintable s u h read in
    let d = diag_start r.hook u.now_us r.request (hook_latency_us r) s.estimator.estimate_us in
    let P : Option DiagRecord → Type 0 = λ o. ArePrintable (to_list o) in
    if_elim P (ltb_ℤ r.received (pos 48)) (λ _. tt)
      λ _.
        if_elim P (not (is_time_synchronized u.settings.server)) (λ _. tt)
          λ _.
            if_elim P (is_refused (refuse_reason u.settings r.hook))
              (λ _. (diag_refuse-IsPrintable d (refuse_reason u.settings r.hook) p, tt))
              λ _.
                if_elim P (is_unresolved r)
                  (λ _. (diag_unresolved-IsPrintable d (arp_waited_us r) p read.wait, tt))
                  λ _. (
                    diag_sent-IsPrintable d (measured s s' u r) p read.wait read.lock
                        (small-IsInt32 s.patch_delay.estimate_us h.low h.high),
                    tt,
                  )

append-ArePrintable :
    (ds es : List DiagRecord) → ArePrintable ds → ArePrintable es → ArePrintable (ds ++ es)
append-ArePrintable [] es h k = k
append-ArePrintable (d ∷ ds) es h k = (h.0, append-ArePrintable ds es h.1 k)

pub drop-ArePrintable : (n : ℕ) (ds : List DiagRecord) → ArePrintable ds → ArePrintable (drop n ds)
drop-ArePrintable zero ds h = h
drop-ArePrintable (suc n) [] h = tt
drop-ArePrintable (suc n) (d ∷ ds) h = drop-ArePrintable n ds h.1

pub listed-ArePrintable : (ds : List DiagRecord) → ArePrintable ds → ArePrintable (listed ds)
listed-ArePrintable [] h = tt
listed-ArePrintable (d ∷ ds) h =
    if_elim ArePrintable (not (eqb_ℤ d.t2_us (pos 0))) (λ _. (h.0, listed-ArePrintable ds h.1))
      λ _. listed-ArePrintable ds h.1

abbrev pub AreRead : List Turn → Type 0
AreRead [] = Unit
AreRead (u ∷ us) = IsRead u × AreRead us

module _ (root_dispersion : Bool → Option ℕ → ℕ) where
  pub turn_records-ArePrintable :
      (t : Task) (us : List Turn)
      → IsRunning t.state
      → AreRead us
      → ArePrintable (turn_records root_dispersion t us)
  unfolding turn_records turn
  turn_records-ArePrintable t [] h read = tt
  turn_records-ArePrintable t (u ∷ us) h read =
      let t' : Task = (turn root_dispersion t u).0 in
      append-ArePrintable (to_list (turn_record u t.state t'.state)) _
        (turn_record-ArePrintable t.state t'.state u h read.0)
        (turn_records-ArePrintable t' us (round-IsRunning root_dispersion t.state u h) read.1)
