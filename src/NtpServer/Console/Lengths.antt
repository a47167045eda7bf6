-- ===== src/NtpServer/Console/Lengths.antt =====
-- The lengths of the lines of `diag_serve_` in ntp_server.cpp, against its buffer of 240 bytes.
use esphome_gps_pps_ntp_serv.Base.{
  ℕ, ◌+◌, ◌*◌, ◌≤◌, ◌<◌, ◌≡◌, refl, List, [], ◌∷◌, ◌++◌, map, length, arith, ℤ, pos_part, neg_part,
  length-append,
}
use esphome_gps_pps_ntp_serv.W5500.Recorder.{NetBin}
use esphome_gps_pps_ntp_serv.TalkerTable.{Talker}
use esphome_gps_pps_ntp_serv.NtpServer.Diag.{DiagRecord, DiagReason}
use esphome_gps_pps_ntp_serv.NtpServer.Console.Text.{
  codes, spaced, line_of, digits, u_text, d_text, x_text, x2_text, x4_text, u_text-length,
  d_text-length,
}
use esphome_gps_pps_ntp_serv.NtpServer.Console.Batch.{line_size}
use esphome_gps_pps_ntp_serv.NtpServer.Console.Lines.{
  request_line, request_fields, bin_line, bin_fields, talker_fields, talker_line, hex_bytes,
  mac_text, flag_bits, reason_value, bit,
}

abbrev pub Fits : List ℕ → Type 0
Fits text = (0 < length text) × (length text < line_size)

-- The length of the fields with their spaces and the newline.
abbrev pub total : List (List ℕ) → ℕ
total [] = 1
total (f ∷ fs) = 1 + length f + total fs

length-spaced : (fs : List (List ℕ)) → length (spaced fs) ≡ total fs
length-spaced [] = refl
length-spaced (f ∷ fs) = omega (arith, length-append f (spaced fs), length-spaced fs)

length-line_of :
    (name : List ℕ) (fs : List (List ℕ)) → length (line_of name fs) ≡ length name + total fs
length-line_of name fs = omega (arith, length-append name (spaced fs), length-spaced fs)

total_pos : (fs : List (List ℕ)) → 0 < total fs
total_pos [] = omega arith
total_pos (f ∷ fs) = omega arith

pub Fits-line_of :
    (name : List ℕ) (fs : List (List ℕ))
    → length name + total fs < line_size
    → Fits (line_of name fs)
Fits-line_of name fs h = omega (arith, length-line_of name fs, total_pos fs)

-- The ranges of `int32_t` and `int64_t`.
abbrev pub IsInt32 : ℤ → Type 0
IsInt32 a = (neg_part a ≤ 2147483648) × (pos_part a < 2147483648)

abbrev pub IsInt64 : ℤ → Type 0
IsInt64 a = (neg_part a ≤ 9223372036854775808) × (pos_part a < 9223372036854775808)

-- A size, or -1: at most five digits and a sign.
abbrev pub IsSize : ℤ → Type 0
IsSize a = (neg_part a ≤ 1) × (pos_part a < 100000)

d_text-int32 : (a : ℤ) → IsInt32 a → length (d_text a) ≤ 11
d_text-int32 a h = d_text-length a 10 (omega arith) (omega (arith, h)) (omega (arith, h))

pub d_text-int64 : (a : ℤ) → IsInt64 a → length (d_text a) ≤ 20
d_text-int64 a h = d_text-length a 19 (omega arith) (omega (arith, h)) (omega (arith, h))

d_text-size : (a : ℤ) → IsSize a → length (d_text a) ≤ 5
d_text-size a h = d_text-length a 4 (omega arith) (omega (arith, h)) (omega (arith, h))

pub u_text-u32 : (n : ℕ) → n < 4294967296 → length (u_text n) ≤ 10
u_text-u32 n h = (u_text-length n 10 (omega arith) (omega (arith, h))).1

u_text-u16 : (n : ℕ) → n < 65536 → length (u_text n) ≤ 5
u_text-u16 n h = (u_text-length n 5 (omega arith) (omega (arith, h))).1

pub u_text-digit : (n : ℕ) → n < 10 → length (u_text n) ≤ 1
u_text-digit n h = (u_text-length n 1 (omega arith) (omega (arith, h))).1

x_text-length : (n : ℕ) → length (x_text n) ≤ 4
unfolding x_text digits
x_text-length n = ground arith

length-hex_bytes : (bs : List ℕ) → length (hex_bytes bs) ≡ 2 * length bs
unfolding x2_text
length-hex_bytes [] = omega arith
length-hex_bytes (b ∷ bs) = omega (arith, length-hex_bytes bs)

length-mac_text : (bs : List ℕ) → length (mac_text bs) ≤ 3 * length bs
unfolding x2_text
length-mac_text [] = omega arith
length-mac_text (b ∷ []) = omega arith
length-mac_text (b ∷ c ∷ bs) = omega (arith, length-mac_text (c ∷ bs))

reason_digit : (r : DiagReason) → reason_value r < 10
reason_digit r = ground arith

abbrev pub AreWords : List ℕ → Type 0
AreWords [] = Unit
AreWords (n ∷ ns) = (n < 65536) × AreWords ns

-- The fields of a record in the ranges of their types; the sizes and the estimate are smaller.
pub record IsPrintable (d : DiagRecord) : Type 0 where
  pub t2 : IsInt64 d.t2_us
  pub tx : length d.client_tx ≡ 8
  pub int_lead : IsInt32 d.int_lead_us
  pub rx_gap : IsInt32 d.rx_gap_us
  pub hook_latency : IsInt32 d.hook_latency_us
  pub send : IsInt32 d.send_us
  pub sendto : IsInt32 d.sendto_us
  pub lock_wait : IsInt32 d.lock_wait_us
  pub estimate : IsSize d.estimate_us
  pub arp_wait : IsInt32 d.arp_wait_us
  pub class : IsSize d.send_class
  pub tx_start : IsInt32 d.tx_write_start_us
  pub tx_end : IsInt32 d.tx_write_end_us
  pub rsr : IsSize d.rx_rsr
  pub frame : IsSize d.frame_len
  pub to_send : IsInt32 d.patch_to_send_us
  pub pred : IsInt32 d.patch_pred_us
  pub t3_gap : IsInt32 d.t3_calc_to_t0_us
  pub sendok : IsInt32 d.sendok_interval_us

-- A line of the REQ command fits the buffer, so that `snprintf` cuts nothing off.
pub request_line-Fits : (d : DiagRecord) → IsPrintable d → Fits (request_line d)
unfolding request_line
request_line-Fits d h = Fits-line_of (codes "R") (request_fields d) (
    omega (
      arith,
      length-hex_bytes d.client_tx,
      h.tx,
      d_text-int64 d.t2_us h.t2,
      x_text-length (flag_bits d.flags),
      d_text-int32 d.int_lead_us h.int_lead,
      d_text-int32 d.rx_gap_us h.rx_gap,
      d_text-int32 d.hook_latency_us h.hook_latency,
      d_text-int32 d.send_us h.send,
      d_text-int32 d.sendto_us h.sendto,
      d_text-int32 d.lock_wait_us h.lock_wait,
      d_text-size d.estimate_us h.estimate,
      d_text-int32 d.arp_wait_us h.arp_wait,
      u_text-digit (reason_value d.refuse_reason) (reason_digit d.refuse_reason),
      d_text-size d.send_class h.class,
      d_text-int32 d.tx_write_start_us h.tx_start,
      d_text-int32 d.tx_write_end_us h.tx_end,
      d_text-size d.rx_rsr h.rsr,
      d_text-size d.frame_len h.frame,
      u_text-digit (bit d.patched 1) (ground arith),
      d_text-int32 d.patch_to_send_us h.to_send,
      d_text-int32 d.patch_pred_us h.pred,
      d_text-int32 d.t3_calc_to_t0_us h.t3_gap,
      d_text-int32 d.sendok_interval_us h.sendok,
    ))

-- The counters of a bin in the ranges of their types.
pub record IsBin (b : NetBin) : Type 0 where
  pub start : b.start_us < 4294967296
  pub tx_count : length b.tx ≡ 9
  pub rx_count : length b.rx ≡ 9
  pub tx : AreWords b.tx
  pub rx : AreWords b.rx
  pub tx_size : b.tx_bytes < 4294967296
  pub rx_size : b.rx_bytes < 4294967296
  pub wait : b.lock_wait_max_us < 4294967296
  pub retried : b.cr_retried < 65536

total-map :
    (ns : List ℕ) (fs : List (List ℕ))
    → AreWords ns
    → total (map u_text ns ++ fs) ≤ 6 * length ns + total fs
total-map [] fs h = omega arith
total-map (n ∷ ns) fs h = omega (arith, u_text-u16 n h.0, total-map ns fs h.1)

pub bin_line-Fits : (b : NetBin) → IsBin b → Fits (bin_line b)
unfolding bin_line
bin_line-Fits b h =
    let tail : List (List ℕ) =
      u_text b.rx_bytes ∷ u_text b.lock_wait_max_us ∷ u_text b.cr_retried ∷ [] in
    Fits-line_of (codes "N") (bin_fields b) (
      omega (
        arith,
        total-map b.tx (u_text b.tx_bytes ∷ (map u_text b.rx ++ tail)) h.tx,
        total-map b.rx tail h.rx,
        h.tx_count,
        h.rx_count,
        u_text-u32 b.start_us h.start,
        u_text-u32 b.tx_bytes h.tx_size,
        u_text-u32 b.rx_bytes h.rx_size,
        u_text-u32 b.lock_wait_max_us h.wait,
        u_text-u16 b.cr_retried h.retried,
      ))

pub record IsTalker (t : Talker) : Type 0 where
  pub src : length t.src_mac ≡ 6
  pub dst : length t.first_dst_mac ≡ 6
  pub frames : t.frames < 4294967296
  pub burst : t.burst_frames < 4294967296
  pub bytes : t.bytes < 4294967296
  pub first : t.first_us < 4294967296
  pub last : t.last_us < 4294967296

pub talker_line-Fits : (t : Talker) → IsTalker t → Fits (talker_line t)
unfolding talker_line x4_text x2_text
talker_line-Fits t h = Fits-line_of (codes "T") (talker_fields t) (
    omega (
      arith,
      length-mac_text t.src_mac,
      length-mac_text t.first_dst_mac,
      h.src,
      h.dst,
      u_text-u32 t.frames h.frames,
      u_text-u32 t.burst_frames h.burst,
      u_text-u32 t.bytes h.bytes,
      u_text-u32 t.first_us h.first,
      u_text-u32 t.last_us h.last,
    ))
