-- ===== src/Gps/SyncedEpoch.antt =====
-- Every way in which a sentence acts on a synchronised source (`on_update` of gps_pps_time.cpp).
mod Tests
use esphome_gps_pps_ntp_serv.Base.{
  inl, inr, ◌∙◌, ◌≤◌, ◌≡◌, ◌⊎◌, ap, sym, refl, if_elim, true, false, arith, List, ℤ, pos, neg, ◌-ℤ◌,
  ◌<ℤ◌, eq_of_parts,
}
use mathlib.Core.Path.{subst}
use esphome_gps_pps_ntp_serv.Gps.State.{GpsPpsTime, ClockCall, publish_pps_anchor, lose_sync}
use esphome_gps_pps_ntp_serv.Gps.Nmea.{
  Sentence, epoch_err_s, delta_ms, count_error, step_epoch, check_epoch, follow_epoch, coarse_time,
  has_time, on_update, update_satellites,
}
use esphome_gps_pps_ntp_serv.Gps.Sentences.{coarse_synced}

-- The sentence's time and an epoch are more than two seconds apart.
abbrev pub IsFar : Sentence → ℤ → Type 0
IsFar n epoch = (n.timestamp -ℤ epoch <ℤ neg 2) ⊎ (pos 2 <ℤ n.timestamp -ℤ epoch)

-- The sentence is the third in a row with its error, fewer if that was pending.
abbrev pub IsThird : GpsPpsTime → Sentence → Type 0
IsThird s n = (2 ≤ s.epoch_error_streak) × (epoch_err_s (delta_ms n) ≡ s.epoch_error_last)

-- The counter less the sentence's error.
abbrev pub stepped : GpsPpsTime → Sentence → ℤ
stepped s n = s.last_gps_epoch -ℤ epoch_err_s (delta_ms n)

abbrev Counted : GpsPpsTime → Sentence → GpsPpsTime → Type 0
Counted s n t =
    (t.last_gps_epoch ≡ s.last_gps_epoch) ⊎ IsThird s n × (t.last_gps_epoch ≡ stepped s n)

abbrev Lost : GpsPpsTime → Type 0
Lost t = (t.pps_synced ≡ false) × (t.last_gps_epoch ≡ pos 0) × (t.anchor.epoch ≡ pos 0)

check_epoch-outcome :
    (s : GpsPpsTime) (n : Sentence)
    → s.pps_synced ≡ true
    → let t = (check_epoch s n).0 in
      (t.pps_synced ≡ true) × (t.pps_flag ≡ s.pps_flag) × Counted s n t
unfolding check_epoch count_error step_epoch
check_epoch-outcome s n h =
    let e = epoch_err_s (delta_ms n) in ground (arith, eq_of_parts e s.epoch_error_last)

follow_epoch-outcome :
    (s : GpsPpsTime) (n : Sentence)
    → s.pps_synced ≡ true
    → (follow_epoch s n ≡ s)
      ⊎ ((s.pps_flag ≡ false) × IsFar n s.last_gps_epoch × Lost (follow_epoch s n))
unfolding follow_epoch lose_sync publish_pps_anchor
follow_epoch-outcome s n h = ground arith

coarse_time-Lost : (s : GpsPpsTime) (n : Sentence) → Lost s → Lost (coarse_time s n).0
unfolding coarse_time
coarse_time-Lost s n h = ground arith

-- What a sentence makes of a synchronised state `s`.
abbrev pub Outcome : GpsPpsTime → Sentence → GpsPpsTime → Type 0
Outcome s n t =
    ((t.pps_synced ≡ true) × (t.last_gps_epoch ≡ s.last_gps_epoch))
    ⊎ (IsThird s n × (t.pps_synced ≡ true) × (t.last_gps_epoch ≡ stepped s n))
    ⊎ ((s.pps_flag ≡ false)
        × (IsFar n s.last_gps_epoch ⊎ IsThird s n × IsFar n (stepped s n))
        × ((t.pps_synced ≡ false) × (t.last_gps_epoch ≡ pos 0) × (t.anchor.epoch ≡ pos 0)))

far :
    (s t : GpsPpsTime) (n : Sentence)
    → Counted s n t
    → IsFar n t.last_gps_epoch
    → IsFar n s.last_gps_epoch ⊎ IsThird s n × IsFar n (stepped s n)
far s t n (inl e) h = inl (subst (IsFar n) e h)
far s t n (inr (third, e)) h = inr (third, subst (IsFar n) e h)

kept : (s t : GpsPpsTime) (n : Sentence) → t.pps_synced ≡ true → Counted s n t → Outcome s n t
kept s t n on (inl e) = inl (on, e)
kept s t n on (inr (third, e)) = inr (inl (third, on, e))

-- From the state that the check of the epoch has left on.
followed :
    (s t : GpsPpsTime) (n : Sentence)
    → t.pps_synced ≡ true
    → t.pps_flag ≡ s.pps_flag
    → Counted s n t
    → Outcome s n (coarse_time (follow_epoch t n) n).0
followed s t n on flag counted = elim (follow_epoch-outcome t n on) [
  | inl still ↦
      subst (λ u. Outcome s n (u.0)) (sym (ap (λ u. coarse_time u n) still ∙ coarse_synced t n on))
        (kept s t n on counted)
  | inr (waits, off, lost) ↦
      inr
        (inr (sym flag ∙ waits, far s t n counted off, coarse_time-Lost (follow_epoch t n) n lost))
]

-- What a sentence does to a synchronised source is one of these. It leaves the epoch counter and the
-- synchronisation alone. Or, as the third in a row with the same error (fewer if that error was
-- pending), it steps the counter by that error, and the source stays synchronised. Or, in either case
-- and while no pulse is waiting, its time is more than two seconds from the counter that it has left or
-- stepped; then the source loses its synchronisation, with epoch 0 in the counter and in the anchor.
pub synced-epoch :
    (s : GpsPpsTime) (n : Sentence) → s.pps_synced ≡ true → Outcome s n (on_update s n).0
unfolding on_update update_satellites
synced-epoch s n h =
    let seen : GpsPpsTime = record (update_satellites s n) { gps_time_valid = true } in
    let (on, flag, counted) = check_epoch-outcome seen n h in
    if_elim (λ (r : GpsPpsTime × List ClockCall). Outcome s n (r.0)) (has_time n)
      (λ _. followed seen (check_epoch seen n).0 n on flag counted) λ _. inl (h, refl)
