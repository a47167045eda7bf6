-- ===== src/NtpServer/Task/Printable.antt =====
-- The ranges of the diagnostic records that `recv_task_` of ntp_server.cpp makes, for the text of the dump.
use esphome_gps_pps_ntp_serv.Base.{
  ℕ, ◌<◌, ◌≡◌, ◌==◌, ◌&&◌, not, Bool, true, false, Option, none, some, List, length, drop, arith, ℤ,
  ◌-ℤ◌, u32_mod, sub32, to_i32, wrap_u32, cast_i32, if◌then◌else◌, length-take, length-drop,
}
use esphome_gps_pps_ntp_serv.NtpServer.Frame.{HookInfo}
use esphome_gps_pps_ntp_serv.NtpServer.Diag.{DiagRecord}
use esphome_gps_pps_ntp_serv.NtpServer.Diag.Fill.{
  Sent, diag_start, diag_sent, unmeasured, is_ours, since_t0,
}
use esphome_gps_pps_ntp_serv.NtpServer.Console.Lengths.{IsInt32, IsInt64, IsSize, IsPrintable}

to_i32-IsInt32 : (w : ℕ) → w < u32_mod → IsInt32 (to_i32 w)
to_i32-IsInt32 w h = ground arith

pub cast_i32-IsInt32 : (z : ℤ) → IsInt32 (cast_i32 z)
cast_i32-IsInt32 z = ground arith

stamp-IsInt32 : (a b : ℕ) → IsInt32 (to_i32 (sub32 a b))
stamp-IsInt32 a b = to_i32-IsInt32 (sub32 a b) (omega arith)

-- What the hook measured of a frame.
pub record IsHook (h : HookInfo) : Type 0 where
  pub t : IsInt64 h.t
  pub lead : IsInt32 h.int_lead_us
  pub gap : IsInt32 h.rx_gap_us
  pub rsr : IsSize h.rx_rsr
  pub frame : IsSize h.frame_len

abbrev pub IsHeard : Option HookInfo → Type 0
IsHeard none = Unit
IsHeard (some h) = IsHook h

pub diag_start-IsPrintable :
    (hook : Option HookInfo) (now : ℤ) (request : List ℕ) (latency estimate : ℤ)
    → IsHeard hook
    → IsInt64 now
    → length request ≡ 48
    → IsInt32 latency
    → IsSize estimate
    → IsPrintable (diag_start hook now request latency estimate)
unfolding diag_start
diag_start-IsPrintable none now request latency estimate h hn hr hl he = record {
  t2 = hn;
  tx = omega (arith, hr, length-take 8 (drop 40 request), length-drop 40 request);
  int_lead = omega arith;
  rx_gap = omega arith;
  hook_latency = hl;
  send = omega arith;
  sendto = omega arith;
  lock_wait = omega arith;
  estimate = he;
  arp_wait = omega arith;
  class = omega arith;
  tx_start = omega arith;
  tx_end = omega arith;
  rsr = omega arith;
  frame = omega arith;
  to_send = omega arith;
  pred = omega arith;
  t3_gap = omega arith;
  sendok = omega arith;
}
diag_start-IsPrintable (some k) now request latency estimate h hn hr hl he = record {
  t2 = h.t;
  tx = omega (arith, hr, length-take 8 (drop 40 request), length-drop 40 request);
  int_lead = h.lead;
  rx_gap = h.gap;
  hook_latency = hl;
  send = omega arith;
  sendto = omega arith;
  lock_wait = omega arith;
  estimate = he;
  arp_wait = omega arith;
  class = omega arith;
  tx_start = omega arith;
  tx_end = omega arith;
  rsr = h.rsr;
  frame = h.frame;
  to_send = omega arith;
  pred = omega arith;
  t3_gap = omega arith;
  sendok = omega arith;
}

choice-IsInt32 : (b : Bool) (x y : ℤ) → IsInt32 x → IsInt32 y → IsInt32 (if b then x else y)
choice-IsInt32 true x y hx hy = hx
choice-IsInt32 false x y hx hy = hy

unmeasured-IsInt32 : IsInt32 unmeasured
unmeasured-IsInt32 = omega arith

pub diag_sent-IsPrintable :
    (d : DiagRecord) (s : Sent)
    → IsPrintable d
    → IsInt32 s.arp_wait_us
    → IsInt32 s.lock_wait_us
    → IsInt32 s.patch_pred_us
    → IsPrintable (diag_sent d s)
unfolding diag_sent
diag_sent-IsPrintable d s p ha hl hp =
    let a = s.after in
    let ours = is_ours s in
    let timed = ours && (not (a.txbuf_start_us == 0) && not (a.txbuf_end_us == 0)) in
    let patched = ours && a.patched in
    let from_t0 : (stamp : ℕ) → IsInt32 (since_t0 s stamp) =
      λ stamp. stamp-IsInt32 stamp (wrap_u32 s.t0) in
    let delay = to_i32 (sub32 a.send_cmd_us a.patch_us) in
    let completion = to_i32 (sub32 a.sendok_us a.send_cmd_us) in
    record {
      t2 = p.t2;
      tx = p.tx;
      int_lead = p.int_lead;
      rx_gap = p.rx_gap;
      hook_latency = p.hook_latency;
      send =
          choice-IsInt32 ours (since_t0 s a.send_cmd_us) unmeasured (from_t0 a.send_cmd_us)
            unmeasured-IsInt32;
      sendto = cast_i32-IsInt32 (s.t_after -ℤ s.t0);
      lock_wait = hl;
      estimate = p.estimate;
      arp_wait = ha;
      class = ground arith;
      tx_start =
          choice-IsInt32 timed (since_t0 s a.txbuf_start_us) d.tx_write_start_us
            (from_t0 a.txbuf_start_us) p.tx_start;
      tx_end =
          choice-IsInt32 timed (since_t0 s a.txbuf_end_us) d.tx_write_end_us
            (from_t0 a.txbuf_end_us) p.tx_end;
      rsr = p.rsr;
      frame = p.frame;
      to_send =
          choice-IsInt32 patched (if a.patch_us == 0 then unmeasured else delay) d.patch_to_send_us
            (choice-IsInt32 (a.patch_us == 0) unmeasured delay unmeasured-IsInt32
              (stamp-IsInt32 a.send_cmd_us a.patch_us))
            p.to_send;
      pred =
          choice-IsInt32 patched (if a.patch_us == 0 then unmeasured else s.patch_pred_us)
            d.patch_pred_us
            (choice-IsInt32 (a.patch_us == 0) unmeasured s.patch_pred_us unmeasured-IsInt32 hp)
            p.pred;
      t3_gap = cast_i32-IsInt32 (s.t0 -ℤ s.last_t3_clock_read_us);
      sendok =
          choice-IsInt32 (ours && a.sendok_seq == a.seq) completion unmeasured
            (stamp-IsInt32 a.sendok_us a.send_cmd_us) unmeasured-IsInt32;
    }
