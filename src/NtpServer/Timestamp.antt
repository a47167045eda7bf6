-- ===== src/NtpServer/Timestamp.antt =====
-- The timestamps of ntp_server.cpp: the wire format, UTC from an anchor, and the two ways to read the
-- clock. What the clocks return is an argument.
use esphome_gps_pps_ntp_serv.Base.{
  ℕ, zero, suc, ◌+◌, ◌*◌, ◌/◌, ◌%◌, ◌++◌, Bool, ltb, Option, none, some, List, [], ◌∷◌, ℤ, pos,
  pos_part, neg_part, ◌+ℤ◌, ◌-ℤ◌, ◌*ℤ◌, div_trunc, rem_trunc, ltb_ℤ, leb_ℤ, u32, sub32, wrap_u32,
  to_i32, if◌then◌else◌,
}
use esphome_gps_pps_ntp_serv.Gps.State.{PpsAnchor}
use esphome_gps_pps_ntp_serv.Gps.Discipline.{within}

pub record NtpTimestamp : Type 0 where
  pub seconds : ℕ  -- uint32_t
  pub fraction : ℕ  -- uint32_t

abbrev pub ntp_unix_offset : ℕ
ntp_unix_offset = 2208988800

-- A word's four bytes, the highest first.
unfoldable pub encode_word : ℕ → List ℕ
encode_word w = w / 16777216 % 256 ∷ w / 65536 % 256 ∷ w / 256 % 256 ∷ w % 256 ∷ []

unfoldable pub encode_ntp_timestamp : NtpTimestamp → List ℕ
encode_ntp_timestamp ts = encode_word ts.seconds ++ encode_word ts.fraction

-- The timestamp of a second and a number of microseconds.
unfoldable pub to_ntp : ℤ → ℤ → NtpTimestamp
to_ntp sec usec = record {
  seconds = u32 (wrap_u32 sec + ntp_unix_offset);
  fraction = u32 (pos_part usec * 4294967296 / 1000000);
}

unfoldable pub micros_epoch_to_ntp_timestamp : ℤ → NtpTimestamp
micros_epoch_to_ntp_timestamp unix_us =
    let sec = div_trunc unix_us 1000000 in
    let usec = rem_trunc unix_us 1000000 in
    if ltb_ℤ usec (pos 0) then to_ntp (sec -ℤ pos 1) (usec +ℤ pos 1000000) else to_ntp sec usec

-- `anchor_epoch_us_`, with what get_pps_anchor() returned.
unfoldable pub anchor_epoch_us : Option PpsAnchor → ℤ → Option ℤ
anchor_epoch_us none at_us = none
anchor_epoch_us (some a) at_us =
    let elapsed = sub32 (wrap_u32 at_us) a.micros in
    let corrected =
      if within a.drift_ppb 100000
      then pos elapsed -ℤ div_trunc (pos elapsed *ℤ a.drift_ppb) 1000000000
      else pos elapsed in
    if ltb 2000000 elapsed then none else some (a.epoch *ℤ pos 1000000 +ℤ corrected)

-- `while (usec >= 1000000)` and `while (usec < 0)`, on fuel.
unfoldable pub carry_up : ℕ → ℤ → ℤ → ℤ × ℤ
carry_up zero sec usec = (sec, usec)
carry_up (suc fuel) sec usec =
    let rest = carry_up fuel (sec +ℤ pos 1) (usec -ℤ pos 1000000) in
    if leb_ℤ (pos 1000000) usec then rest else (sec, usec)

unfoldable pub carry_down : ℕ → ℤ → ℤ → ℤ × ℤ
carry_down zero sec usec = (sec, usec)
carry_down (suc fuel) sec usec =
    let rest = carry_down fuel (sec -ℤ pos 1) (usec +ℤ pos 1000000) in
    if ltb_ℤ usec (pos 0) then rest else (sec, usec)

-- The two loops, with as many rounds as the microseconds can need.
unfoldable pub normalise : ℤ → ℤ → ℤ × ℤ
normalise sec usec =
    let up = carry_up (pos_part usec / 1000000) sec usec in
    carry_down (neg_part (up.1) / 1000000 + 1) (up.0) (up.1)

-- The readings of one conversion: the anchor, gettimeofday(), and the esp_timer next to each.
pub record ClockReads : Type 0 where
  pub anchor : Option PpsAnchor
  pub clock_us : ℤ
  pub tv_sec : ℤ
  pub tv_usec : ℤ
  pub now_us : ℤ

-- `get_ntp_timestamp_`, with the reading that it reports in `clock_read_us`.
unfoldable pub get_ntp_timestamp : Bool → ClockReads → ℤ → NtpTimestamp × ℤ
get_ntp_timestamp use_pps_anchor r offset_us =
    let tv = normalise r.tv_sec (r.tv_usec +ℤ offset_us) in
    let fallback : NtpTimestamp × ℤ = (to_ntp (tv.0) (tv.1), r.now_us) in
    elim (if use_pps_anchor then anchor_epoch_us r.anchor r.clock_us else none) [
      | some anchored_us ↦ (micros_epoch_to_ntp_timestamp (anchored_us +ℤ offset_us), r.clock_us)
      | none ↦ fallback
    ]

unfoldable pub hook_to_ntp_timestamp : Bool → ClockReads → ℤ → NtpTimestamp
hook_to_ntp_timestamp use_pps_anchor r hook_us =
    elim (if use_pps_anchor then anchor_epoch_us r.anchor hook_us else none) [
      | some anchored_us ↦ micros_epoch_to_ntp_timestamp anchored_us
      | none ↦
          micros_epoch_to_ntp_timestamp
            (r.tv_sec *ℤ pos 1000000 +ℤ r.tv_usec -ℤ (r.now_us -ℤ hook_us))
    ]

abbrev pub w5500_tx_stamp_early_us : ℤ
w5500_tx_stamp_early_us = pos 57

-- The instant that the patch names: its own, rebuilt in 64 bits, and the learned delay.
unfoldable pub predicted_send_us : Bool → ℤ → ℤ → ℕ → ℤ
predicted_send_us chip_latency estimate esp_now_us now_us =
    let at = esp_now_us -ℤ to_i32 (sub32 (wrap_u32 esp_now_us) now_us) +ℤ estimate in
    if chip_latency then at +ℤ w5500_tx_stamp_early_us else at

-- `build_patch_t3_`: nothing while the time source is not synchronised.
unfoldable pub build_patch_t3 : Bool → Bool → Bool → ℤ → ℤ → ClockReads → ℕ → Option (List ℕ)
build_patch_t3 synchronized use_pps_anchor chip_latency estimate esp_now_us r now_us =
    if synchronized
    then some (
        encode_ntp_timestamp (
          hook_to_ntp_timestamp use_pps_anchor r
            (predicted_send_us chip_latency estimate esp_now_us now_us)))
    else none
