-- ===== src/NtpServer/Task/Running.antt =====
-- The ranges of the two estimators of ntp_server.cpp over the requests that `recv_task_` handles.
use esphome_gps_pps_ntp_serv.Base.{
  ℕ, ◌≡◌, ◌==◌, ◌&&◌, not, Bool, Option, List, arith, ℤ, pos, ◌≤ℤ◌, ◌-ℤ◌, ltb_ℤ, sub32, to_i32,
  if_elim, -ℤ_parts, +ℤ_parts, shr,
}
use esphome_gps_pps_ntp_serv.SendEstimator.{SendEstimator}
use esphome_gps_pps_ntp_serv.SendEstimator.Bounds.{
  IsValid, learn-IsValid, learn_fallback-IsValid, shr_3,
}
use esphome_gps_pps_ntp_serv.TxPatch.{PatchDelayEstimator, learn_delay}
use esphome_gps_pps_ntp_serv.NtpServer.Reply.{is_time_synchronized}
use esphome_gps_pps_ntp_serv.NtpServer.ArpClients.{note_arp_client}
use esphome_gps_pps_ntp_serv.NtpServer.Request.{
  State, Settings, Round, SendStamp, round, answer, refuse, note_wait, note_latency, learn_send,
  learn_patch, is_refused, is_unresolved, refuse_reason,
}
use esphome_gps_pps_ntp_serv.NtpServer.Task.{Turn, heard}

-- What the estimators hold.
pub record Ranges (e : SendEstimator) (p : PatchDelayEstimator) : Type 0 where
  pub valid : IsValid e
  pub low : pos 0 ≤ℤ p.estimate_us
  pub high : p.estimate_us ≤ℤ pos 500

abbrev pub IsRunning : State → Type 0
IsRunning s = Ranges s.estimator s.patch_delay

learn_delay-range :
    (e : PatchDelayEstimator) (us : ℤ)
    → pos 0 ≤ℤ e.estimate_us
    → e.estimate_us ≤ℤ pos 500
    → (pos 0 ≤ℤ (learn_delay e us).estimate_us) × ((learn_delay e us).estimate_us ≤ℤ pos 500)
unfolding learn_delay
learn_delay-range e us lo hi = ground (
  arith,
  -ℤ_parts us e.estimate_us,
  shr_3 (us -ℤ e.estimate_us),
  +ℤ_parts e.estimate_us (shr (us -ℤ e.estimate_us) 3),
)

learn_patch-IsRunning : (s : State) (a : SendStamp) → IsRunning s → IsRunning (learn_patch s a)
unfolding learn_patch
learn_patch-IsRunning s a h =
    let us = to_i32 (sub32 a.send_cmd_us a.patch_us) in
    let range = learn_delay-range s.patch_delay us h.low h.high in
    if_elim IsRunning (a.patched && not (a.patch_us == 0))
      (λ _. record { valid = h.valid; low = range.0; high = range.1 }) λ _. h

learn_send-IsRunning : (s : State) (r : Round) → IsRunning s → IsRunning (learn_send s r)
unfolding learn_send
learn_send-IsRunning s r h =
    if_elim IsRunning (r.after.seq == r.before_seq)
      (λ _. record { valid = learn_fallback-IsValid _ h.valid; low = h.low; high = h.high })
      λ _.
        if_elim IsRunning r.after.is_ntp
          (λ _.
            learn_patch-IsRunning _ r.after
              (record { valid = learn-IsValid _ _ h.valid; low = h.low; high = h.high }))
          λ _. h

note_latency-keeps :
    (s : State) (r : Round)
    → ((note_latency s r).estimator ≡ s.estimator)
      × ((note_latency s r).patch_delay ≡ s.patch_delay)
unfolding note_latency
note_latency-keeps s r = ground arith

note_wait-keeps :
    (s : State) (r : Round)
    → ((note_wait s r).estimator ≡ s.estimator) × ((note_wait s r).patch_delay ≡ s.patch_delay)
unfolding note_wait
note_wait-keeps s r = ground arith

abbrev waited : State → Turn → State
waited s u =
    let noted = note_latency s (heard u) in
    note_wait (record noted { arp = note_arp_client noted.arp (heard u).client }) (heard u)

waited-IsRunning : (s : State) (u : Turn) → IsRunning s → IsRunning (waited s u)
waited-IsRunning s u h =
    let (e, p) = note_latency-keeps s (heard u) in
    let noted = note_latency s (heard u) in
    let tracked : State = record noted { arp = note_arp_client noted.arp (heard u).client } in
    let (e', p') = note_wait-keeps tracked (heard u) in rw e' (rw p' (rw e (rw p h)))

module _ (root_dispersion : Bool → Option ℕ → ℕ) where
  answer-IsRunning :
      (c : Settings) (s : State) (r : Round)
      → IsRunning s
      → IsRunning (answer root_dispersion c s r).0
  unfolding answer
  answer-IsRunning c s r h = learn_send-IsRunning _ r h

  pub round-IsRunning :
      (s : State) (u : Turn)
      → IsRunning s
      → IsRunning (round root_dispersion u.settings s (heard u)).0
  unfolding round refuse
  round-IsRunning s u h =
      let r = heard u in
      let (e, p) = note_latency-keeps s r in
      let P : State × Option (List ℕ) → Type 0 = λ o. IsRunning o.0 in
      if_elim P (ltb_ℤ r.received (pos 48)) (λ _. h)
        λ _.
          if_elim P (not (is_time_synchronized u.settings.server)) (λ _. rw e (rw p h))
            λ _.
              if_elim P (is_refused (refuse_reason u.settings r.hook)) (λ _. rw e (rw p h))
                λ _.
                  if_elim P (is_unresolved r) (λ _. waited-IsRunning s u h)
                    λ _. answer-IsRunning u.settings (waited s u) r (waited-IsRunning s u h)
