-- ===== src/NtpServer/Convert.antt =====
-- What the timestamps of ntp_server.cpp mean: the wire format read back, the second and microsecond
-- recovered, and the two ways to normalise.
use esphome_gps_pps_ntp_serv.Base.{
  refl, Bool, true, sub32, wrap_u32, if◌then◌else◌, ◌⊎◌, Bool-cases, inl, inr, ltb_ℤ, ℕ, zero, suc,
  ◌+◌, ◌*◌, ◌/◌, ◌%◌, ◌≤◌, ◌<◌, ◌≡◌, false, arith, Option, none, some, List, [], ◌∷◌, ℤ, pos,
  pos_part, neg_part, ◌+ℤ◌, ◌-ℤ◌, ◌*ℤ◌, ◌≤ℤ◌, ◌<ℤ◌, div_trunc, rem_trunc, div_trunc-rem_trunc,
  div_trunc_parts, +ℤ_parts, -ℤ_parts, *ℤ_parts, eq_of_parts, u32, u32_mod,
}
use esphome_gps_pps_ntp_serv.Gps.State.{PpsAnchor}
use esphome_gps_pps_ntp_serv.NtpServer.Timestamp.{
  NtpTimestamp, ntp_unix_offset, encode_word, encode_ntp_timestamp, to_ntp,
  micros_epoch_to_ntp_timestamp, carry_up, carry_down, normalise, get_ntp_timestamp, ClockReads,
  anchor_epoch_us,
}

-- What a client makes of eight bytes.
abbrev pub decode : List ℕ → Option NtpTimestamp
decode (a ∷ b ∷ c ∷ d ∷ e ∷ f ∷ g ∷ h ∷ []) = some (record {
  seconds = a * 16777216 + b * 65536 + c * 256 + d;
  fraction = e * 16777216 + f * 65536 + g * 256 + h;
})
decode bytes = none

word-bytes :
    (w : ℕ)
    → w < u32_mod
    → w / 16777216 % 256 * 16777216 + w / 65536 % 256 * 65536 + w / 256 % 256 * 256 + w % 256 ≡ w
word-bytes w h = omega arith

-- A client that reads the eight bytes as two big-endian words gets the timestamp back.
pub encode_ntp_timestamp-decode :
    (ts : NtpTimestamp)
    → ts.seconds < u32_mod
    → ts.fraction < u32_mod
    → decode (encode_ntp_timestamp ts) ≡ some ts
unfolding encode_ntp_timestamp encode_word
encode_ntp_timestamp-decode ts hs hf =
    grind (arith, word-bytes ts.seconds hs, word-bytes ts.fraction hf)

-- The quotient by a million rounded down, and the remainder that is left.
abbrev pub IsSplit : ℤ → ℤ → ℤ → Type 0
IsSplit us sec usec = (pos 0 ≤ℤ usec) × (usec <ℤ pos 1000000) × (sec *ℤ pos 1000000 +ℤ usec ≡ us)

IsSplit-unique : (us s u t v : ℤ) → IsSplit us s u → IsSplit us t v → (s ≡ t) × (u ≡ v)
IsSplit-unique us s u t v h k = ground (
  arith,
  *ℤ_parts s 1000000,
  *ℤ_parts t 1000000,
  +ℤ_parts (s *ℤ pos 1000000) u,
  +ℤ_parts (t *ℤ pos 1000000) v,
  eq_of_parts s t,
  eq_of_parts u v,
)

carry_up-split :
    (fuel : ℕ) (sec usec : ℤ)
    → pos_part usec < fuel * 1000000 + 1000000
    → let r = carry_up fuel sec usec in
      (r.1 <ℤ pos 1000000)
      × (r.0 *ℤ pos 1000000 +ℤ r.1 ≡ sec *ℤ pos 1000000 +ℤ usec)
      × (neg_part (r.1) ≡ neg_part usec)
unfolding carry_up
carry_up-split zero sec usec h = ground arith
carry_up-split (suc fuel) sec usec h =
    let s = sec +ℤ pos 1 in
    let u = usec -ℤ pos 1000000 in
    ground (
      arith,
      carry_up-split fuel s u,
      +ℤ_parts sec (pos 1),
      -ℤ_parts usec (pos 1000000),
      *ℤ_parts sec 1000000,
      *ℤ_parts s 1000000,
      +ℤ_parts (sec *ℤ pos 1000000) usec,
      +ℤ_parts (s *ℤ pos 1000000) u,
      eq_of_parts (s *ℤ pos 1000000 +ℤ u) (sec *ℤ pos 1000000 +ℤ usec),
    )

carry_down-IsSplit :
    (fuel : ℕ) (sec usec : ℤ)
    → usec <ℤ pos 1000000
    → neg_part usec ≤ fuel * 1000000
    → let r = carry_down fuel sec usec in IsSplit (sec *ℤ pos 1000000 +ℤ usec) (r.0) (r.1)
unfolding carry_down
carry_down-IsSplit zero sec usec hu h = ground arith
carry_down-IsSplit (suc fuel) sec usec hu h =
    let s = sec -ℤ pos 1 in
    let u = usec +ℤ pos 1000000 in
    ground (
      arith,
      carry_down-IsSplit fuel s u,
      -ℤ_parts sec (pos 1),
      +ℤ_parts usec (pos 1000000),
      *ℤ_parts sec 1000000,
      *ℤ_parts s 1000000,
      +ℤ_parts (sec *ℤ pos 1000000) usec,
      +ℤ_parts (s *ℤ pos 1000000) u,
      eq_of_parts (s *ℤ pos 1000000 +ℤ u) (sec *ℤ pos 1000000 +ℤ usec),
    )

-- The two loops end, within the fuel, at the second and the microsecond of the sum.
pub normalise-IsSplit :
    (sec usec : ℤ) → let r = normalise sec usec in IsSplit (sec *ℤ pos 1000000 +ℤ usec) (r.0) (r.1)
unfolding normalise
normalise-IsSplit sec usec =
    let up = carry_up (pos_part usec / 1000000) sec usec in
    let raised = carry_up-split (pos_part usec / 1000000) sec usec (omega arith) in
    let lowered =
      carry_down-IsSplit (neg_part (up.1) / 1000000 + 1) (up.0) (up.1) (raised.0) (omega arith) in
    ground (arith, raised, lowered)

micros_epoch-IsSplit :
    (us : ℤ)
    → (sec : ℤ) × (usec : ℤ) × IsSplit us sec usec
      × (micros_epoch_to_ntp_timestamp us ≡ to_ntp sec usec)
unfolding micros_epoch_to_ntp_timestamp
micros_epoch-IsSplit us =
    let (q, r) : ℤ × ℤ = (div_trunc us 1000000, rem_trunc us 1000000) in
    elim (Bool-cases (ltb_ℤ r (pos 0))) [
      | inl hr ↦ (
        q -ℤ pos 1,
        r +ℤ pos 1000000,
        ground (
          arith,
          div_trunc_parts us 1000000,
          div_trunc-rem_trunc us 1000000,
          -ℤ_parts q (pos 1),
          +ℤ_parts r (pos 1000000),
          *ℤ_parts (q -ℤ pos 1) 1000000,
          +ℤ_parts ((q -ℤ pos 1) *ℤ pos 1000000) (r +ℤ pos 1000000),
          eq_of_parts ((q -ℤ pos 1) *ℤ pos 1000000 +ℤ (r +ℤ pos 1000000)) us,
        ),
        ground arith,
      )
      | inr hr ↦ (
        q,
        r,
        ground (
          arith,
          div_trunc_parts us 1000000,
          div_trunc-rem_trunc us 1000000,
          *ℤ_parts q 1000000,
          +ℤ_parts (q *ℤ pos 1000000) r,
          eq_of_parts (q *ℤ pos 1000000 +ℤ r) us,
        ),
        ground arith,
      )
    ]

-- No anchor serves at the clock's reading: none is to be used, none is published, or it is more than two
-- seconds old.
abbrev pub IsUnanchored : Bool → ClockReads → Type 0
IsUnanchored use_pps_anchor r =
    (use_pps_anchor ≡ false)
    ⊎ (r.anchor ≡ none)
    ⊎ (a : PpsAnchor) × (r.anchor ≡ some a) × (2000000 < sub32 (wrap_u32 r.clock_us) a.micros)

unanchored :
    (use_pps_anchor : Bool) (r : ClockReads)
    → IsUnanchored use_pps_anchor r
    → (if use_pps_anchor then anchor_epoch_us r.anchor r.clock_us else none) ≡ none
unfolding anchor_epoch_us
unanchored use_pps_anchor r (inl off) = rw off refl
unanchored false r h = refl
unanchored true r (inr (inl e)) = rw e refl
unanchored true r (inr (inr (a, e, old))) = rw e (ground arith)

-- Where the anchor is not used, or there is none, or it is more than two seconds old, the loops of
-- `get_ntp_timestamp` give the same timestamp as the division of the converter, for an offset of either
-- sign: that of the clock's time plus the offset.
pub fallback-converter :
    (use_pps_anchor : Bool) (r : ClockReads) (offset : ℤ)
    → IsUnanchored use_pps_anchor r
    → get_ntp_timestamp use_pps_anchor r offset
      ≡ (micros_epoch_to_ntp_timestamp (r.tv_sec *ℤ pos 1000000 +ℤ (r.tv_usec +ℤ offset)), r.now_us)
unfolding get_ntp_timestamp
fallback-converter use_pps_anchor r offset none_serves =
    let us = r.tv_sec *ℤ pos 1000000 +ℤ (r.tv_usec +ℤ offset) in
    let (sec, usec, split, same) = micros_epoch-IsSplit us in
    let (hs, hu) =
      IsSplit-unique us _ _ sec usec (normalise-IsSplit r.tv_sec (r.tv_usec +ℤ offset)) split in
    ground (arith, hs, hu, same, unanchored use_pps_anchor r none_serves)

-- The converter's fraction gives the microsecond back: rounded up to a microsecond, it is the one that
-- was converted, and the seconds are those of the NTP era.
pub micros_epoch-recovers :
    (n : ℕ)
    → let ts = micros_epoch_to_ntp_timestamp (pos n) in
      (ts.seconds ≡ u32 (n / 1000000 + ntp_unix_offset))
      × ((ts.fraction * 1000000 + 4294967295) / 4294967296 ≡ n % 1000000)
unfolding micros_epoch_to_ntp_timestamp div_trunc rem_trunc to_ntp
micros_epoch-recovers n = ground arith
