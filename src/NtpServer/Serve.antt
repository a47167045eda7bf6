-- ===== src/NtpServer/Serve.antt =====
-- The time that is served from an anchor (`anchor_epoch_us_` and `build_patch_t3_` of ntp_server.cpp),
-- and its copy in the time source's diagnostic.
use esphome_gps_pps_ntp_serv.Base.{
  ℕ, if◌then◌else◌, zero, suc, ◌+◌, ◌*◌, ◌/◌, ◌≤◌, ◌<◌, ◌≡◌, Bool, true, false, leb, refl, ap, sym,
  Option, u32_mod, inl, inr, Bool-cases, Option-cases, arith, none, some, ℤ, pos, negsuc, pos_part,
  neg_part, ◌+ℤ◌, ◌-ℤ◌, ◌*ℤ◌, ◌≤ℤ◌, div_trunc, div_trunc_parts, +ℤ_parts, -ℤ_parts, eq_of_parts,
  u32, sub32, wrap_u32, to_i32,
}
use mathlib.Core.Path.{◌∙◌}
use esphome_gps_pps_ntp_serv.Gps.State.{PpsAnchor}
use esphome_gps_pps_ntp_serv.Gps.Discipline.{predicted_us}
use esphome_gps_pps_ntp_serv.NtpServer.Timestamp.{
  anchor_epoch_us, micros_epoch_to_ntp_timestamp, predicted_send_us, ClockReads, build_patch_t3,
  hook_to_ntp_timestamp, encode_ntp_timestamp,
}

-- The arithmetic that the time source repeats for its diagnostic is the one that serves: on an anchor
-- that is at most two seconds old they give the same microsecond.
pub predicted_us-pinned :
    (a : PpsAnchor) (at_us : ℤ)
    → sub32 (wrap_u32 at_us) a.micros ≤ 2000000
    → anchor_epoch_us (some a) at_us ≡ some (predicted_us a (sub32 (wrap_u32 at_us) a.micros))
unfolding anchor_epoch_us predicted_us
predicted_us-pinned a at_us h = ground arith

-- The rate correction over `e` microseconds, for a rate of `d` ppb.
abbrev rate_us : ℤ → ℕ → ℤ
rate_us d e = div_trunc (pos e *ℤ d) 1000000000

rate_us_parts :
    (d : ℤ) (e : ℕ)
    → (pos_part (rate_us d e) ≡ e * pos_part d / 1000000000)
      × (neg_part (rate_us d e) ≡ e * neg_part d / 1000000000)
unfolding ◌*ℤ◌
rate_us_parts (pos n) e = ground (arith, div_trunc_parts (pos e *ℤ pos n) 1000000000)
rate_us_parts (negsuc n) e = ground (arith, div_trunc_parts (pos e *ℤ negsuc n) 1000000000)

scaled_le : (e d : ℕ) → d < 100000 → e * d ≤ e * 100000
scaled_le zero d h = omega arith
scaled_le (suc e) d h = let rest = scaled_le e d h in omega arith

-- A magnitude of the correction grows by at most a ten-thousandth of the time that passes, rounded up.
rate_growth :
    (d e j : ℕ)
    → d < 100000
    → (e * d / 1000000000 ≤ (e + j) * d / 1000000000)
      × ((e + j) * d / 1000000000 ≤ e * d / 1000000000 + j / 10000 + 1)
rate_growth d e j h = let small = scaled_le j d h in omega arith

predicted_us-steady :
    (a : PpsAnchor) (e j : ℕ)
    → (predicted_us a e ≤ℤ predicted_us a (e + j))
      × (predicted_us a e +ℤ pos j ≤ℤ predicted_us a (e + j) +ℤ pos (j / 10000 + 1))
      × (predicted_us a (e + j) ≤ℤ predicted_us a e +ℤ pos (j + j / 10000 + 1))
unfolding predicted_us
predicted_us-steady a e j =
    let d = a.drift_ppb in
    let base = a.epoch *ℤ pos 1000000 in
    let (c0, c1) : ℤ × ℤ = (rate_us d e, rate_us d (e + j)) in
    let (t0, t1) : ℤ × ℤ = (predicted_us a e, predicted_us a (e + j)) in
    ground (
      arith,
      rate_us_parts d e,
      rate_us_parts d (e + j),
      rate_growth (pos_part d) e j,
      rate_growth (neg_part d) e j,
      -ℤ_parts (pos e) c0,
      -ℤ_parts (pos (e + j)) c1,
      +ℤ_parts base (pos e -ℤ c0),
      +ℤ_parts base (pos (e + j) -ℤ c1),
      +ℤ_parts base (pos e),
      +ℤ_parts base (pos (e + j)),
      +ℤ_parts t0 (pos j),
      +ℤ_parts t1 (pos (j / 10000 + 1)),
      +ℤ_parts t0 (pos (j + j / 10000 + 1)),
    )

-- A microsecond is later than another by `j`, up to one part in ten thousand and a microsecond, and
-- never earlier.
abbrev pub IsLaterBy : ℕ → ℤ → ℤ → Type 0
IsLaterBy j x y =
    (x ≤ℤ y) × (x +ℤ pos j ≤ℤ y +ℤ pos (j / 10000 + 1)) × (y ≤ℤ x +ℤ pos (j + j / 10000 + 1))

-- Let an anchor be at most two seconds old at an instant and still so `j` us later. Then it serves both,
-- and the served time does not run backwards, however its rate is corrected: the second is later by
-- `j`, up to one part in ten thousand and a microsecond.
pub anchor_epoch_us-steady :
    (a : PpsAnchor) (at j : ℕ)
    → a.micros < u32_mod
    → sub32 (u32 at) a.micros + j ≤ 2000000
    → (x : ℤ) × (y : ℤ) × (anchor_epoch_us (some a) (pos at) ≡ some x)
      × (anchor_epoch_us (some a) (pos (at + j)) ≡ some y)
      × IsLaterBy j x y
anchor_epoch_us-steady a at j word fresh =
    let e : ℕ = sub32 (u32 at) a.micros in
    let later : sub32 (u32 (at + j)) a.micros ≡ e + j = omega (arith, word, fresh) in
    (
      predicted_us a e,
      predicted_us a (e + j),
      predicted_us-pinned a (pos at) (omega (arith, fresh)),
      predicted_us-pinned a (pos (at + j)) (omega (arith, fresh, later))
          ∙ ap (λ k. some (predicted_us a k)) later,
      predicted_us-steady a e j,
    )

patch_instant :
    (p k : ℕ)
    → k < 2147483648
    → pos (p + k) -ℤ to_i32 (sub32 (wrap_u32 (pos (p + k))) (u32 p)) ≡ pos p
patch_instant p k h =
    let back : to_i32 (sub32 (u32 (p + k)) (u32 p)) ≡ pos k = ground arith in
    ground (arith, back, -ℤ_parts (pos (p + k)) (pos k), eq_of_parts (pos (p + k) -ℤ pos k) (pos p))

too_old :
    (a : PpsAnchor) (t : ℕ)
    → 2000000 < sub32 (u32 t) a.micros
    → anchor_epoch_us (some a) (pos t) ≡ none
unfolding anchor_epoch_us
too_old a t h = ground arith

send_instant :
    (chip_latency : Bool) (estimate : ℤ) (p k t : ℕ)
    → k < 2147483648
    → pos t ≡ pos p +ℤ estimate +ℤ pos (if chip_latency then 57 else 0)
    → predicted_send_us chip_latency estimate (pos (p + k)) (u32 p) ≡ pos t
unfolding predicted_send_us
send_instant chip_latency estimate p k t hk ht =
    let at = pos p +ℤ estimate in
    ground (arith, patch_instant p k hk, +ℤ_parts at (pos 0), eq_of_parts (at +ℤ pos 0) at)

-- The system clock's time at the instant `t` of the timer, by its reading beside the timer's.
abbrev pub clock_at : ClockReads → ℕ → ℤ
clock_at r t = r.tv_sec *ℤ pos 1000000 +ℤ r.tv_usec -ℤ (r.now_us -ℤ pos t)

-- UTC at `t`: the anchor's time where an anchor is to be used and is at most two seconds old, and the
-- system clock's elsewhere.
abbrev pub utc_by : Option PpsAnchor → ClockReads → ℕ → ℤ
utc_by none r t = clock_at r t
utc_by (some a) r t =
    let age = sub32 (u32 t) a.micros in if leb age 2000000 then predicted_us a age else clock_at r t

abbrev pub utc_at : Bool → ClockReads → ℕ → ℤ
utc_at use_pps_anchor r t = if use_pps_anchor then utc_by r.anchor r t else clock_at r t

hook_anchored :
    (r : ClockReads) (t : ℕ) (us : ℤ)
    → anchor_epoch_us r.anchor (pos t) ≡ some us
    → hook_to_ntp_timestamp true r (pos t) ≡ micros_epoch_to_ntp_timestamp us
unfolding hook_to_ntp_timestamp
hook_anchored r t us e = ground arith

hook_unanchored :
    (r : ClockReads) (t : ℕ)
    → anchor_epoch_us r.anchor (pos t) ≡ none
    → hook_to_ntp_timestamp true r (pos t) ≡ micros_epoch_to_ntp_timestamp (clock_at r t)
unfolding hook_to_ntp_timestamp
hook_unanchored r t e = ground arith

no_anchor : (t : ℕ) → anchor_epoch_us none (pos t) ≡ none
unfolding anchor_epoch_us
no_anchor t = refl

served_at :
    (use_pps_anchor : Bool) (r : ClockReads) (t : ℕ)
    → hook_to_ntp_timestamp use_pps_anchor r (pos t)
      ≡ micros_epoch_to_ntp_timestamp (utc_at use_pps_anchor r t)
unfolding hook_to_ntp_timestamp
served_at false r t = refl
served_at true r t = elim (Option-cases r.anchor) [
  | inl absent ↦
      hook_unanchored r t (ap (λ o. anchor_epoch_us o (pos t)) absent ∙ no_anchor t)
      ∙ ap micros_epoch_to_ntp_timestamp (sym (ap (λ o. utc_by o r t) absent))
  | inr (a, present) ↦
      let age : ℕ = sub32 (u32 t) a.micros in
      let serve = λ (o : Option ℤ) (e : anchor_epoch_us (some a) (pos t) ≡ o).
        ap (λ o. anchor_epoch_us o (pos t)) present ∙ e in
      let at = ap (λ o. utc_by o r t) present in
      elim (Bool-cases (leb age 2000000)) [
        | inl fresh ↦
            hook_anchored r t (predicted_us a age)
              (serve (some (predicted_us a age)) (predicted_us-pinned a (pos t) (ground arith)))
            ∙ ap micros_epoch_to_ntp_timestamp (sym (at ∙ rw fresh refl))
        | inr old ↦
            hook_unanchored r t (serve none (too_old a t (ground arith)))
            ∙ ap micros_epoch_to_ntp_timestamp (sym (at ∙ rw old refl))
      ]
]

-- The send timestamp that is patched in. Unless the source is synchronised there is none. Otherwise,
-- let the driver's 32-bit stamp be taken at `p` us of the 64-bit timer, which is read `k` us later, with
-- k below 2^31, and let `t` be p plus the learned delay plus 57 us where the chip's latency is
-- corrected. The eight bytes are those of UTC at t: by the anchor, where it is to be used and is at most
-- two seconds old at t, and else by the system clock, brought from its own reading to t.
pub build_patch_t3-exact :
    (synchronized use_pps_anchor chip_latency : Bool) (estimate : ℤ) (p k t : ℕ) (r : ClockReads)
    → k < 2147483648
    → pos t ≡ pos p +ℤ estimate +ℤ pos (if chip_latency then 57 else 0)
    → build_patch_t3 synchronized use_pps_anchor chip_latency estimate (pos (p + k)) r (u32 p) ≡ (
        if synchronized
        then some (encode_ntp_timestamp (micros_epoch_to_ntp_timestamp (utc_at use_pps_anchor r t)))
        else none)
unfolding build_patch_t3
build_patch_t3-exact synchronized use_pps_anchor chip_latency estimate p k t r hk ht =
    rw (send_instant chip_latency estimate p k t hk ht, served_at use_pps_anchor r t) refl
