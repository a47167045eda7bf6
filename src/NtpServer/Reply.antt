-- ===== src/NtpServer/Reply.antt =====
-- The reply to a request: `build_ntp_response_` of ntp_server.cpp. The root dispersion is computed in
-- floating point, which is the argument `root_dispersion` here: of the time base, and of the seconds
-- since the last correction where there was one.
use esphome_gps_pps_ntp_serv.Base.{
  ℕ, ◌+◌, ◌*◌, ◌/◌, ◌%◌, ◌≡◌, ◌==◌, ◌++◌, refl, Bool, false, arith, length, get_or, Option, none,
  some, List, [], ◌∷◌, ℤ, pos, ◌+ℤ◌, ltb_ℤ, u32, sub32, wrap_u32, if◌then◌else◌,
}
use esphome_gps_pps_ntp_serv.NtpServer.Timestamp.{
  NtpTimestamp, ntp_unix_offset, encode_word, encode_ntp_timestamp, w5500_tx_stamp_early_us,
  ClockReads, get_ntp_timestamp,
}

-- The settings that a reply reads, and the time source's answers.
pub record Server : Type 0 where
  pub use_pps_anchor : Bool
  pub chip_latency : Bool
  pub precision : ℕ  -- int8_t, as its byte, as the one below
  pub precision_anchor : ℕ
  pub estimate_us : ℤ  -- send_estimator_.estimate()
  pub time_source : Option (Bool × ℤ)  -- is_synchronized(), get_last_sync_epoch()

unfoldable pub is_time_synchronized : Server → Bool
is_time_synchronized s = elim s.time_source [ none ↦ false | some source ↦ source.0 ]

unfoldable pub reference_seconds : Server → ℕ
reference_seconds s = elim s.time_source [
  | none ↦ 0
  | some source ↦ if ltb_ℤ (pos 0) source.1 then u32 (wrap_u32 (source.1) + ntp_unix_offset) else 0
]

-- Leap indicator, version and mode: the two shifts and the mode share no bit.
unfoldable pub first_byte : Bool → ℕ → ℕ
first_byte synced request_0 =
    let vn = request_0 / 8 % 8 in if synced then vn * 8 + 4 else 192 + vn * 8 + 4

-- The eight bytes from `i` on.
abbrev pub bytes_8 : List ℕ → ℕ → List ℕ
bytes_8 b i =
    get_or b i 0
    ∷ get_or b (i + 1) 0
    ∷ get_or b (i + 2) 0
    ∷ get_or b (i + 3) 0
    ∷ get_or b (i + 4) 0
    ∷ get_or b (i + 5) 0
    ∷ get_or b (i + 6) 0
    ∷ get_or b (i + 7) 0
    ∷ []

unfoldable pub t3_offset_us : Server → ℤ
t3_offset_us s = if s.chip_latency then s.estimate_us +ℤ w5500_tx_stamp_early_us else s.estimate_us

module _ (root_dispersion : Bool → Option ℕ → ℕ) where
  unfoldable pub build_ntp_response : Server → List ℕ → NtpTimestamp → ClockReads → List ℕ × ℤ
  build_ntp_response s request receive_ts r =
      let synced = is_time_synchronized s in
      let ref_seconds = reference_seconds s in
      let disp =
        root_dispersion s.use_pps_anchor
          (if ref_seconds == 0 then none else some (sub32 receive_ts.seconds ref_seconds)) in
      let (transmit_ts, clock_read_us) = get_ntp_timestamp s.use_pps_anchor r (t3_offset_us s) in
      (
        (first_byte synced (get_or request 0 0)
              ∷ (if synced then 1 else 16)
              ∷ get_or request 2 0
              ∷ (if s.use_pps_anchor then s.precision_anchor else s.precision)
              ∷ 0
              ∷ 0
              ∷ 0
              ∷ 0
              ∷ [])
            ++ encode_word disp
            ++ (71 ∷ 80 ∷ 83 ∷ 0 ∷ [])
            ++ encode_word ref_seconds
            ++ (0 ∷ 0 ∷ 0 ∷ 0 ∷ [])
            ++ bytes_8 request 40
            ++ encode_ntp_timestamp receive_ts
            ++ encode_ntp_timestamp transmit_ts,
        clock_read_us,
      )

  -- The reply has 48 bytes. It has mode 4 and the client's version; it says stratum 1 and no leap
  -- warning exactly if the time source is synchronised, and otherwise stratum 16 and "unsynchronised".
  pub response-header :
      (s : Server) (request : List ℕ) (receive_ts : NtpTimestamp) (r : ClockReads)
      → let reply = (build_ntp_response s request receive_ts r).0 in
        let first = get_or reply 0 0 in
        let synced = is_time_synchronized s in
        (length reply ≡ 48)
        × (first % 8 ≡ 4)
        × (first / 8 % 8 ≡ get_or request 0 0 / 8 % 8)
        × (first / 64 ≡ (if synced then 0 else 3))
        × (get_or reply 1 0 ≡ (if synced then 1 else 16))
  unfolding build_ntp_response encode_word encode_ntp_timestamp first_byte
  response-header s request receive_ts r = ground arith

  -- The reply carries the request's transmit timestamp as its origin, the receive timestamp that it
  -- was given, and as the transmit timestamp the clock advanced by the predicted send delay.
  pub response-timestamps :
      (s : Server) (request : List ℕ) (receive_ts : NtpTimestamp) (r : ClockReads)
      → let reply = (build_ntp_response s request receive_ts r).0 in
        (bytes_8 reply 24 ≡ bytes_8 request 40)
        × (bytes_8 reply 32 ≡ encode_ntp_timestamp receive_ts)
        × (bytes_8 reply 40
            ≡ encode_ntp_timestamp (get_ntp_timestamp s.use_pps_anchor r (t3_offset_us s)).0)
  unfolding build_ntp_response encode_word encode_ntp_timestamp
  response-timestamps s request receive_ts r = (refl, refl, refl)
