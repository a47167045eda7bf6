-- ===== src/TxPatch.antt =====
-- components/ntp_server/ntp_tx_patch.h: planning the rewrite of T3 and the UDP checksum in a reply
-- that already lies in the W5500's TX buffer. A frame is a list of bytes.
pub mod Plan
pub mod Checksum
pub mod Ring
mod Tests
use esphome_gps_pps_ntp_serv.Base.{
  ℕ, zero, suc, ◌+◌, ◌-◌, ◌*◌, ◌/◌, ◌%◌, ◌==◌, Bool, true, false, not, ◌&&◌, ◌||◌, ltb, leb, Option,
  none, some, List, [], ◌∷◌, get_or, take, drop, ℤ, pos, ◌+ℤ◌, ◌-ℤ◌, shr, ltb_ℤ, u16, if◌then◌else◌,
}

pub record NtpTxPatchPlan : Type 0 where
  pub planned : Bool  -- the source's `ok`
  pub t3_off : ℕ  -- uint16_t
  pub csum_off : ℕ  -- uint16_t
  pub csum_present : Bool
  pub old_csum : ℕ  -- uint16_t
  pub old_t3 : List ℕ  -- uint8_t[8]

abbrev pub no_plan : NtpTxPatchPlan
no_plan = record {
  planned = false;
  t3_off = 0;
  csum_off = 0;
  csum_present = false;
  old_csum = 0;
  old_t3 = 0 ∷ 0 ∷ 0 ∷ 0 ∷ 0 ∷ 0 ∷ 0 ∷ 0 ∷ [];
}

abbrev pub byte_at : List ℕ → ℕ → ℕ
byte_at frame i = get_or frame i 0

-- `(hi << 8) | lo` of two bytes.
abbrev pub word_at : List ℕ → ℕ → ℕ
word_at frame i = byte_at frame i * 256 + byte_at frame (i + 1)

-- The part of `plan_ntp_tx_patch` from the offset of the UDP header on.
unfoldable pub plan_udp : List ℕ → ℕ → ℕ → ℕ → NtpTxPatchPlan
plan_udp frame len server_port udp_offset =
    let ntp_offset = udp_offset + 8 in
    let t3_off = u16 (ntp_offset + 40) in
    let csum_off = u16 (udp_offset + 6) in
    let csum = word_at frame csum_off in
    if ltb len (udp_offset + 8)
    then no_plan
    else if not (byte_at frame 23 == 17)
    then no_plan
    else if not (word_at frame udp_offset == server_port)
    then no_plan
    else if ltb (word_at frame (udp_offset + 4)) 56
    then no_plan
    else if ltb len (ntp_offset + 48)
    then no_plan
    else if not (byte_at frame ntp_offset % 8 == 4)
    then no_plan
    else if ltb len (t3_off + 8)
    then no_plan
    else record {
      planned = true;
      t3_off = t3_off;
      csum_off = csum_off;
      csum_present = not (csum == 0);
      old_csum = csum;
      old_t3 = take 8 (drop t3_off frame);
    }

-- `none` is the null pointer; otherwise the frame holds at least `len` bytes.
unfoldable pub plan_ntp_tx_patch : Option (List ℕ) → ℕ → ℕ → NtpTxPatchPlan
plan_ntp_tx_patch none len server_port = no_plan
plan_ntp_tx_patch (some frame) len server_port =
    let ver_ihl = byte_at frame 14 in
    let version = ver_ihl / 16 % 16 in
    let ihl = ver_ihl % 16 in
    if ltb len 34
    then no_plan
    else if not (word_at frame 12 == 0x0800)
    then no_plan
    else if not (version == 4) || ltb ihl 5
    then no_plan
    else plan_udp frame len server_port (14 + ihl * 4)

-- `static_cast<uint16_t>(~w)` of a 16-bit word.
abbrev pub not16 : ℕ → ℕ
not16 w = 65535 - w

-- The `for` loop over the four words of the two fields, two bytes a round.
unfoldable pub add_words : ℕ → List ℕ → List ℕ → ℕ
add_words sum (a ∷ b ∷ old) (c ∷ d ∷ new) =
    add_words (sum + not16 (a * 256 + b) + (c * 256 + d)) old new
add_words sum _ _ = sum

-- The `while` loop that folds the carry, on fuel.
unfoldable pub fold_carry : ℕ → ℕ → ℕ
fold_carry zero sum = sum
fold_carry (suc fuel) sum =
    let rest = fold_carry fuel (sum % 65536 + sum / 65536) in if sum / 65536 == 0 then sum else rest

unfoldable pub udp_csum_update : ℕ → List ℕ → List ℕ → ℕ
udp_csum_update old_csum old8 new8 =
    let result = not16 (fold_carry 3 (add_words (not16 old_csum) old8 new8)) in
    if result == 0 then 65535 else result

pub record RingWrite : Type 0 where
  pub addr : ℕ  -- uint16_t
  pub len : ℕ  -- uint16_t
  pub src : ℕ  -- uint16_t

-- The writes put into `out`; their number is the value that the source returns.
unfoldable pub plan_ring_writes : ℕ → ℕ → ℕ → List RingWrite
plan_ring_writes frame_start_offset rel_off n =
    let start = frame_start_offset % 0x4000 + rel_off in
    let first_len = u16 (0x4000 - start) in
    if ltb start 0x4000 && ltb 0x4000 (start + n)
    then record { addr = u16 start; len = first_len; src = 0 }
      ∷ record { addr = 0x4000; len = u16 (n - first_len); src = first_len }
      ∷ []
    else record { addr = u16 start; len = n; src = 0 } ∷ []

-- `PatchDelayEstimator`: its one field is the estimate, 60 us at first.
pub record PatchDelayEstimator : Type 0 where
  pub estimate_us : ℤ  -- int32_t

abbrev pub initial_delay : PatchDelayEstimator
initial_delay = record { estimate_us = pos 60 }

unfoldable pub learn_delay : PatchDelayEstimator → ℤ → PatchDelayEstimator
learn_delay s us =
    if ltb_ℤ us (pos 10) || ltb_ℤ (pos 500) us
    then s
    else record { estimate_us = s.estimate_us +ℤ shr (us -ℤ s.estimate_us) 3 }
