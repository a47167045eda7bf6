-- ===== src/NtpServer/Console/Lines.antt =====
-- The lines of the answers of `diag_serve_` in ntp_server.cpp, as texts, and its choice of the answer.
use esphome_gps_pps_ntp_serv.Base.{
  ℕ, zero, suc, ◌+◌, ◌/◌, ◌==◌, ◌&&◌, Bool, true, false, Option, none, some, List, [], ◌∷◌, ◌++◌,
  map, length, take, ℤ, pos, ◌+ℤ◌, ◌*ℤ◌, ltb_ℤ, pos_part, sub32, to_i32, if◌then◌else◌,
}
use esphome_gps_pps_ntp_serv.W5500.Recorder.{NetBin, Recorder, net_bin, net_bins, talker}
use esphome_gps_pps_ntp_serv.TalkerTable.{Talker, size}
use esphome_gps_pps_ntp_serv.NtpServer.Request.{
  refuse_none, refuse_old_edge, refuse_no_edge, refuse_hook_miss,
}
use esphome_gps_pps_ntp_serv.NtpServer.IntLevel.{IntLevel}
use esphome_gps_pps_ntp_serv.NtpServer.Diag.{
  DiagRecord, DiagReason, Flags, admission, arp_unresolved,
}
use esphome_gps_pps_ntp_serv.NtpServer.Diag.Ring.{Diagnostics, list_requests}
use esphome_gps_pps_ntp_serv.NtpServer.Console.Text.{
  codes, line_of, u_text, d_text, x_text, x2_text, x4_text,
}

-- What the clocks and the chip return.
pub record DiagReads : Type 0 where
  pub clock_us : ℤ
  pub micros : ℕ
  pub tv_sec : ℤ
  pub tv_usec : ℤ
  pub readback : ℕ  -- 0 where the read of INTLEVEL failed
  pub now_ms : ℕ

abbrev pub clk_line : DiagReads → List ℕ
clk_line r =
    line_of (codes "CLK")
      (d_text r.clock_us ∷ u_text r.micros ∷ d_text (r.tv_sec *ℤ pos 1000000 +ℤ r.tv_usec) ∷ [])

abbrev pub bit : Bool → ℕ → ℕ
bit b value = if b then value else 0

-- The DIAG_* bits of `flags`.
abbrev pub flag_bits : Flags → ℕ
flag_bits f =
    bit f.hook_hit 0x01
    + bit f.rx_stalled 0x02
    + bit f.refused 0x04
    + bit f.reseeded 0x08
    + bit f.send_long 0x10
    + bit f.fallback 0x20
    + bit f.arp_miss 0x40
    + bit f.send_not_ntp 0x80
    + bit f.int_edge_t2 0x100
    + bit f.t2_frame_start 0x200
    + bit f.chip_latency_t2 0x400

-- The REFUSE_* values.
abbrev pub reason_value : DiagReason → ℕ
reason_value (admission refuse_none) = 0
reason_value (admission refuse_old_edge) = 1
reason_value (admission refuse_no_edge) = 2
reason_value (admission refuse_hook_miss) = 3
reason_value arp_unresolved = 4

abbrev pub hex_bytes : List ℕ → List ℕ
hex_bytes [] = []
hex_bytes (b ∷ bs) = x2_text b ++ hex_bytes bs

abbrev pub request_fields : DiagRecord → List (List ℕ)
request_fields d =
    (d_text d.t2_us
      ∷ hex_bytes d.client_tx
      ∷ x_text (flag_bits d.flags)
      ∷ d_text d.int_lead_us
      ∷ d_text d.rx_gap_us
      ∷ d_text d.hook_latency_us
      ∷ d_text d.send_us
      ∷ d_text d.sendto_us
      ∷ d_text d.lock_wait_us
      ∷ d_text d.estimate_us
      ∷ d_text d.arp_wait_us
      ∷ u_text (reason_value d.refuse_reason)
      ∷ d_text d.send_class
      ∷ d_text d.tx_write_start_us
      ∷ d_text d.tx_write_end_us
      ∷ d_text d.rx_rsr
      ∷ d_text d.frame_len
      ∷ u_text (bit d.patched 1)
      ∷ d_text d.patch_to_send_us
      ∷ d_text d.patch_pred_us
      ∷ d_text d.t3_calc_to_t0_us
      ∷ d_text d.sendok_interval_us
      ∷ [])

unfoldable pub request_line : DiagRecord → List ℕ
request_line d = line_of (codes "R") (request_fields d)

abbrev pub bin_fields : NetBin → List (List ℕ)
bin_fields b =
    (u_text b.start_us
      ∷ (map u_text b.tx
          ++ (u_text b.tx_bytes
              ∷ (map u_text b.rx
                  ++ (u_text b.rx_bytes ∷ u_text b.lock_wait_max_us ∷ u_text b.cr_retried ∷ [])))))

unfoldable pub bin_line : NetBin → List ℕ
bin_line b = line_of (codes "N") (bin_fields b)

abbrev pub is_idle : NetBin → Bool
is_idle b = b.tx_bytes == 0 && (b.rx_bytes == 0 && (b.lock_wait_max_us == 0 && b.cr_retried == 0))

abbrev pub add_bin : Option NetBin → List (List ℕ) → List (List ℕ)
add_bin none rest = rest
add_bin (some b) rest = if is_idle b then rest else bin_line b ∷ rest

-- The loop over the bins: `k` of them from `i` on.
unfoldable pub bin_lines : Recorder → ℕ → ℕ → List (List ℕ)
bin_lines s i zero = []
bin_lines s i (suc k) = let rest = bin_lines s (suc i) k in add_bin (net_bin s i) rest

abbrev pub mac_text : List ℕ → List ℕ
mac_text [] = []
mac_text (b ∷ []) = x2_text b
mac_text (b ∷ c ∷ bs) = x2_text b ++ b':' ∷ mac_text (c ∷ bs)

abbrev pub talker_fields : Talker → List (List ℕ)
talker_fields t =
    (mac_text t.src_mac
      ∷ x4_text t.ethertype
      ∷ mac_text t.first_dst_mac
      ∷ u_text t.frames
      ∷ u_text t.burst_frames
      ∷ u_text t.bytes
      ∷ u_text t.first_us
      ∷ u_text t.last_us
      ∷ [])

unfoldable pub talker_line : Talker → List ℕ
talker_line t = line_of (codes "T") (talker_fields t)

abbrev pub add_talker : Option Talker → List (List ℕ) → List (List ℕ)
add_talker none rest = rest
add_talker (some t) rest = talker_line t ∷ rest

unfoldable pub talker_lines : Recorder → ℕ → ℕ → List (List ℕ)
talker_lines s i zero = []
talker_lines s i (suc k) = let rest = talker_lines s (suc i) k in add_talker (talker s i) rest

unfoldable pub int_line : IntLevel → DiagReads → List ℕ
int_line s r =
    let remaining_ms = to_i32 (sub32 s.recheck_ms r.now_ms) in
    let remaining_s = if ltb_ℤ (pos 0) remaining_ms then pos_part remaining_ms / 1000 else 0 in
    line_of (codes "INT")
      (x4_text r.readback ∷ u_text (bit s.effective 1) ∷ u_text remaining_s ∷ [])

abbrev pub usage_line : List ℕ
usage_line = codes "ERR usage: CLK | REQ | NET | TLK | INT" ++ 10 ∷ []

-- `strncmp(cmd, name, 3) == 0` for a name of three characters.
abbrev pub same_text : List ℕ → List ℕ → Bool
same_text [] [] = true
same_text (a ∷ as_) (b ∷ bs) = a == b && same_text as_ bs
same_text _ _ = false

abbrev pub is_command : List ℕ → List ℕ → Bool
is_command cmd name = same_text (take 3 cmd) name

abbrev pub has_ring : Diagnostics → Bool
has_ring s = elim s.diag_ring [ none ↦ false | some ring ↦ true ]

-- The lines of the answer before END, and the number that END gives.
unfoldable pub answer_body : Diagnostics → IntLevel → DiagReads → List ℕ → List (List ℕ) × ℕ
answer_body s level r cmd =
    let requests = map request_line (list_requests s) in
    let bins = bin_lines s.recorder 0 net_bins in
    let talkers = talker_lines s.recorder 0 size in
    if is_command cmd (codes "CLK")
    then (clk_line r ∷ [], 1)
    else if is_command cmd (codes "REQ") && has_ring s
    then (requests, length requests)
    else if is_command cmd (codes "NET")
    then (bins, length bins)
    else if is_command cmd (codes "TLK")
    then (talkers, length talkers)
    else if is_command cmd (codes "INT")
    then (int_line level r ∷ [], 1)
    else (usage_line ∷ [], 0)

-- A C string: up to the first zero byte.
abbrev pub c_string : List ℕ → List ℕ
c_string [] = []
c_string (b ∷ bs) = if b == 0 then [] else b ∷ c_string bs

abbrev pub end_line : List ℕ → ℕ → List ℕ
end_line cmd lines = line_of (codes "END") (c_string (take 3 cmd) ∷ u_text lines ∷ [])

unfoldable pub answer_lines : Diagnostics → IntLevel → DiagReads → List ℕ → List (List ℕ)
answer_lines s level r cmd =
    let (body, lines) = answer_body s level r cmd in body ++ end_line cmd lines ∷ []
