-- ===== src/NtpServer/Admit.antt =====
-- Which requests `recv_task_` of ntp_server.cpp answers, and what a round keeps.
use esphome_gps_pps_ntp_serv.Base.{
  ℕ, ◌+◌, ◌≡◌, ◌⊎◌, ◌↔◌, sym, ap, Bool, true, false, arith, Option, none, some, Option-cases, inl,
  inr, if_elim, not, List, pos, ◌≤ℤ◌, ◌<ℤ◌, ltb_ℤ, cast_i32, ◌-ℤ◌, to_i32, sub32, wrap_u32, u32,
}
use mathlib.Core.Path.{subst}
use esphome_gps_pps_ntp_serv.RxAdmission.{accept, queued_behind_bytes, rx_admission}
use esphome_gps_pps_ntp_serv.RxAdmission.Policy.{IsFreshBurst, accept_iff}
use esphome_gps_pps_ntp_serv.SendEstimator.Bounds.{IsValid, learn-IsValid, learn_fallback-IsValid}
use esphome_gps_pps_ntp_serv.TxPatch.Ring.{learn_delay_bounds}
use esphome_gps_pps_ntp_serv.NtpServer.Frame.{HookInfo}
use esphome_gps_pps_ntp_serv.NtpServer.ArpClients.{note_arp_client}
use esphome_gps_pps_ntp_serv.NtpServer.Reply.{is_time_synchronized, build_ntp_response}
use esphome_gps_pps_ntp_serv.NtpServer.Request.{
  receive_timestamp, State, Settings, Round, refuse_reason, is_refused, is_unresolved, note_latency,
  note_wait, learn_patch, learn_send, refuse, answer, round,
}

pub refuse_reason-none_iff :
    (c : Settings) (h : HookInfo)
    → (is_refused (refuse_reason c (some h)) ≡ false) ↔ (
        rx_admission h.capture_armed h.edge_usable h.lead_us c.strict_rx_admission
          c.short_wait_effective
          (queued_behind_bytes h.rx_rsr h.frame_len)
          h.rx_gap_us
        ≡ accept)
unfolding refuse_reason
refuse_reason-none_iff c h = (λ x. ground arith, λ x. ground arith)

note_latency-keeps :
    (s : State) (r : Round)
    → note_latency s r ≡ record s { hook_latency_win = (note_latency s r).hook_latency_win }
unfolding note_latency
note_latency-keeps s r = elim (Option-cases r.hook) [ inl h ↦ ground arith | inr h ↦ ground arith ]

note_wait-keeps :
    (s : State) (r : Round) → note_wait s r ≡ record s { arp_waits = (note_wait s r).arp_waits }
unfolding note_wait
note_wait-keeps s r = elim (Option-cases r.arp_wait) [ inl h ↦ ground arith | inr h ↦ ground arith ]

-- The state that a round has reached before it waits, and after.
abbrev noted : State → Round → State
noted s r = let n = note_latency s r in record n { arp = note_arp_client n.arp r.client }

abbrev waited : State → Round → State
waited s r = note_wait (noted s r) r

waited-keeps :
    (s : State) (r : Round)
    → ((waited s r).estimator ≡ s.estimator)
      × ((waited s r).patch_delay ≡ s.patch_delay)
      × ((waited s r).refused ≡ s.refused)
waited-keeps s r = ground (arith, note_wait-keeps (noted s r) r, note_latency-keeps s r)

IsInRange : State → Type 0
IsInRange s =
    IsValid s.estimator
    × (pos 10 ≤ℤ s.patch_delay.estimate_us)
    × (s.patch_delay.estimate_us ≤ℤ pos 500)

learn_send-IsInRange : (s : State) (r : Round) → IsInRange s → IsInRange (learn_send s r)
unfolding learn_send learn_patch IsInRange
learn_send-IsInRange s r (hv, hl, hh) =
    let us = to_i32 (sub32 r.after.send_cmd_us r.after.patch_us) in
    ground (
      arith,
      learn-IsValid {s = s.estimator} (to_i32 (sub32 r.after.send_cmd_us (wrap_u32 r.t0))) r.t0 hv,
      learn_fallback-IsValid {s = s.estimator} (cast_i32 (r.t_after -ℤ r.t0)) hv,
      learn_delay_bounds s.patch_delay us hl hh,
    )

noted-IsInRange : (s : State) (r : Round) → IsInRange s → IsInRange (note_latency s r)
unfolding IsInRange
noted-IsInRange s r h = subst IsInRange (sym (note_latency-keeps s r)) h

waited-IsInRange : (s : State) (r : Round) → IsInRange s → IsInRange (waited s r)
unfolding IsInRange
waited-IsInRange s r h =
    subst IsInRange (sym (note_wait-keeps (noted s r) r)) (noted-IsInRange s r h)

missed_refused :
    (c : Settings) (o : Option HookInfo)
    → o ≡ none
    → c.has_netif ≡ true
    → is_refused (refuse_reason c o) ≡ false
    → ⊥
unfolding refuse_reason
missed_refused c o h hn hf = ground arith

strict_fresh :
    (c : Settings) (h : HookInfo)
    → c.strict_rx_admission ≡ true
    → is_refused (refuse_reason c (some h)) ≡ false
    → (h.capture_armed ≡ false)
      ⊎ (h.edge_usable ≡ true) × (h.lead_us <ℤ pos 200)
      ⊎ IsFreshBurst c.short_wait_effective (queued_behind_bytes h.rx_rsr h.frame_len) h.rx_gap_us
strict_fresh c h hs hf =
    let queued = queued_behind_bytes h.rx_rsr h.frame_len in
    ground (
      arith,
      refuse_reason-none_iff c h,
      accept_iff h.edge_usable h.lead_us c.short_wait_effective queued h.rx_gap_us,
    )

module _ (root_dispersion : Bool → Option ℕ → ℕ) where
  answer-estimator :
      (c : Settings) (s t : State) (r : Round)
      → t.estimator ≡ s.estimator
      → (answer root_dispersion c t r).1 ≡ (answer root_dispersion c s r).1
  unfolding answer
  answer-estimator c s t r h =
      ap
        (λ e.
          some
            (build_ntp_response root_dispersion (record c.server { estimate_us = e.estimate_us })
              r.request (receive_timestamp c r) r.transmit_reads).0)
        h

  answer-refused :
      (c : Settings) (s : State) (r : Round) → (answer root_dispersion c s r).0.refused ≡ s.refused
  unfolding answer learn_send learn_patch
  answer-refused c s r = ground arith

  -- The branches of a round by the code's own tests.
  pub round-cases :
      (c : Settings) (s : State) (r : Round)
      → let (after, reply) = round root_dispersion c s r in
        ((reply ≡ (answer root_dispersion c s r).1)
          × (after.refused ≡ s.refused)
          × (ltb_ℤ r.received (pos 48) ≡ false)
          × (is_time_synchronized c.server ≡ true)
          × (is_refused (refuse_reason c r.hook) ≡ false)
          × (is_unresolved r ≡ false))
        ⊎ ((reply ≡ none)
            × (after.refused ≡ s.refused)
            × ((ltb_ℤ r.received (pos 48) ≡ true) ⊎ (is_time_synchronized c.server ≡ false)))
        ⊎ ((reply ≡ none)
            × (after.refused ≡ u32 (s.refused + 1))
            × (ltb_ℤ r.received (pos 48) ≡ false)
            × (is_time_synchronized c.server ≡ true)
            × ((is_refused (refuse_reason c r.hook) ≡ true) ⊎ (is_unresolved r ≡ true)))
  unfolding round refuse
  round-cases c s r = ground (
    arith,
    note_latency-keeps s r,
    waited-keeps s r,
    answer-estimator c s (waited s r) r,
    answer-refused c (waited s r) r,
  )

  round-sent :
      (c : Settings) (s : State) (r : Round) (reply : List ℕ)
      → (round root_dispersion c s r).1 ≡ some reply
      → (is_time_synchronized c.server ≡ true) × (is_refused (refuse_reason c r.hook) ≡ false)
  round-sent c s r reply h = ground (arith, round-cases c s r)

  -- Where the frame hook is installed and admission is strict, every answered request was stamped by
  -- the hook, and the hook's record has a usable edge with a lead below 200 us, or shows a fresh
  -- burst, or was made before the first edge of the interrupt was ever captured. The time source was synchronised.
  pub round-strict :
      (c : Settings) (s : State) (r : Round) (reply : List ℕ)
      → c.has_netif ≡ true
      → c.strict_rx_admission ≡ true
      → (round root_dispersion c s r).1 ≡ some reply
      → (is_time_synchronized c.server ≡ true)
        × (h : HookInfo) × (r.hook ≡ some h)
        × ((h.capture_armed ≡ false)
            ⊎ (h.edge_usable ≡ true) × (h.lead_us <ℤ pos 200)
            ⊎ IsFreshBurst c.short_wait_effective
                (queued_behind_bytes h.rx_rsr h.frame_len)
                h.rx_gap_us)
  round-strict c s r reply hn hs ha =
      let (sync, fresh) = round-sent c s r reply ha in
      elim (Option-cases r.hook) [
        | inl h ↦ absurd (missed_refused c r.hook h hn fresh)
        | inr (h, e) ↦ (
          sync,
          h,
          e,
          strict_fresh c h hs (subst (λ o. is_refused (refuse_reason c o) ≡ false) e fresh),
        )
      ]

  -- A round keeps both estimators in range, whatever it is given.
  pub round-estimators :
      (c : Settings) (s : State) (r : Round)
      → IsValid s.estimator
      → pos 10 ≤ℤ s.patch_delay.estimate_us
      → s.patch_delay.estimate_us ≤ℤ pos 500
      → let t = (round root_dispersion c s r).0 in
        IsValid t.estimator
        × (pos 10 ≤ℤ t.patch_delay.estimate_us)
        × (t.patch_delay.estimate_us ≤ℤ pos 500)
  unfolding round refuse answer IsInRange
  round-estimators c s r hv hl hh =
      let Goal : State × Option (List ℕ) → Type 0 = λ q. IsInRange (q.0) in
      let start : IsInRange s = (hv, hl, hh) in
      let reached = waited-IsInRange s r start in
      let heard = noted-IsInRange s r start in
      if_elim Goal (ltb_ℤ r.received (pos 48)) (λ _. start)
        λ _.
          if_elim Goal (not (is_time_synchronized c.server)) (λ _. heard)
            λ _.
              if_elim Goal (is_refused (refuse_reason c r.hook)) (λ _. heard)
                λ _.
                  if_elim Goal (is_unresolved r) (λ _. reached)
                    λ _. learn_send-IsInRange _ r reached
