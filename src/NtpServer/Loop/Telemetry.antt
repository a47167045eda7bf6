-- ===== src/NtpServer/Loop/Telemetry.antt =====
-- The telemetry of `loop` of ntp_server.cpp over a period: the samples of the other tasks and the rounds
-- of the main task between two publications.
use esphome_gps_pps_ntp_serv.Base.{
  ℕ, ◌≡◌, refl, ap, Bool, true, false, Option, none, some, List, [], ◌∷◌, ◌++◌, ltb, ℤ, pos, sub32,
  arith, if_elim,
}
use mathlib.Core.List.{append-nil}
use mathlib.Core.Path.{◌∙◌}
use esphome_gps_pps_ntp_serv.W5500.Command.{CmdStats, take_cmd_stats}
use esphome_gps_pps_ntp_serv.NtpServer.Window.{take}
use esphome_gps_pps_ntp_serv.NtpServer.Loop.{
  telemetry_interval_ms, Sensor, refused, arp_waits, w5500_cmd_retries, w5500_cmd_max, Counters,
  publish, publish_taken, publish_commands, telemetry,
}
use esphome_gps_pps_ntp_serv.NtpServer.Loop.Shown.{
  Kind, errors, leads, gaps, latencies, window, sensor, is_for, values_of, values_of-append,
  none_silent, refused-IsOther, arp_waits-IsOther, w5500_cmd_retries-IsOther, w5500_cmd_max-IsOther,
  taken_list,
}

module _ (has : Sensor → Bool) where
  pub publish-silent :
      (k : Kind) (s : Sensor) (v : ℤ) → is_for k s ≡ false → values_of k (publish has s v) ≡ []
  unfolding publish values_of
  publish-silent k s v h = ground arith

  publish_taken-silent :
      (k : Kind) (s : Sensor) (o : Option ℤ)
      → is_for k s ≡ false
      → values_of k (publish_taken has s o) ≡ []
  unfolding publish_taken values_of
  publish_taken-silent k s none h = refl
  publish_taken-silent k s (some v) h = publish-silent k s v h

  pub silent-append :
      (k : Kind) (ps qs : List (Sensor × ℤ))
      → values_of k ps ≡ []
      → values_of k (ps ++ qs) ≡ values_of k qs
  silent-append k ps qs e = values_of-append k ps qs ∙ ap (λ vs. vs ++ values_of k qs) e

  -- The value of a window that its sensor shows.
  publish_taken-own :
      (k : Kind) (o : Option ℤ)
      → has (sensor k) ≡ true
      → values_of k (publish_taken has (sensor k) o) ≡ elim o [ none ↦ [] | some v ↦ v ∷ [] ]
  unfolding publish_taken publish values_of
  publish_taken-own k none h = refl
  publish_taken-own errors (some v) h = ground arith
  publish_taken-own leads (some v) h = ground arith
  publish_taken-own gaps (some v) h = ground arith
  publish_taken-own latencies (some v) h = ground arith

  publish_commands-silent : (k : Kind) (c : CmdStats) → values_of k (publish_commands has c) ≡ []
  unfolding publish_commands
  publish_commands-silent k c =
      silent-append k (publish has w5500_cmd_retries (pos c.retried)) _
        (publish-silent k w5500_cmd_retries (pos c.retried) (w5500_cmd_retries-IsOther k))
      ∙ if_elim (λ ps. values_of k ps ≡ []) (ltb 0 c.commands)
          (λ _. publish-silent k w5500_cmd_max (pos c.max_us) (w5500_cmd_max-IsOther k))
          λ _. none_silent k

  append-silent :
      (k : Kind) (ps qs : List (Sensor × ℤ))
      → values_of k qs ≡ []
      → values_of k (ps ++ qs) ≡ values_of k ps
  append-silent k ps qs e =
      values_of-append k ps qs ∙ ap (λ vs. values_of k ps ++ vs) e ∙ append-nil (values_of k ps)

  -- The four windows, in the order of the code.
  shown : Counters → Kind → List (Sensor × ℤ)
  shown c k = publish_taken has (sensor k) (take (window k c)).1

  shown-silent :
      (c : Counters) (k l : Kind) → is_for k (sensor l) ≡ false → values_of k (shown c l) ≡ []
  unfolding shown
  shown-silent c k l e = publish_taken-silent k (sensor l) (take (window l c)).1 e

  windows_shown :
      (k : Kind) (c : Counters)
      → values_of k (shown c errors ++ shown c leads ++ shown c gaps ++ shown c latencies)
        ≡ values_of k (shown c k)
  windows_shown errors c =
      append-silent errors _ (shown c latencies) (shown-silent c errors latencies refl)
      ∙ append-silent errors _ (shown c gaps) (shown-silent c errors gaps refl)
      ∙ append-silent errors _ (shown c leads) (shown-silent c errors leads refl)
  windows_shown leads c =
      append-silent leads _ (shown c latencies) (shown-silent c leads latencies refl)
      ∙ append-silent leads _ (shown c gaps) (shown-silent c leads gaps refl)
      ∙ silent-append leads (shown c errors) _ (shown-silent c leads errors refl)
  windows_shown gaps c =
      append-silent gaps _ (shown c latencies) (shown-silent c gaps latencies refl)
      ∙ silent-append gaps _ (shown c gaps) (
          append-silent gaps _ (shown c leads) (shown-silent c gaps leads refl)
          ∙ shown-silent c gaps errors refl)
  windows_shown latencies c = silent-append latencies _ (shown c latencies) (
      append-silent latencies _ (shown c gaps) (shown-silent c latencies gaps refl)
      ∙ append-silent latencies _ (shown c leads) (shown-silent c latencies leads refl)
      ∙ shown-silent c latencies errors refl)

  shown_all : Counters → List (Sensor × ℤ)
  unfolding shown
  shown_all c =
      shown c errors
      ++ shown c leads
      ++ shown c gaps
      ++ shown c latencies
      ++ publish has refused (pos c.refused)
      ++ publish has arp_waits (pos c.arp_waits)
      ++ publish_commands has (take_cmd_stats c.handshake).1

  shown_all-window : (k : Kind) (c : Counters) → values_of k (shown_all c) ≡ values_of k (shown c k)
  unfolding shown_all
  shown_all-window k c =
      append-silent k _ (publish_commands has (take_cmd_stats c.handshake).1)
        (publish_commands-silent k (take_cmd_stats c.handshake).1)
      ∙ append-silent k _ (publish has arp_waits (pos c.arp_waits))
          (publish-silent k arp_waits (pos c.arp_waits) (arp_waits-IsOther k))
      ∙ append-silent k _ (publish has refused (pos c.refused))
          (publish-silent k refused (pos c.refused) (refused-IsOther k))
      ∙ windows_shown k c

  abbrev reset : Counters → ℕ → Counters
  reset c now_ms = record c {
    t3_error_win = (take c.t3_error_win).0;
    int_lead_win = (take c.int_lead_win).0;
    rx_stamp_gap_win = (take c.rx_stamp_gap_win).0;
    hook_latency_win = (take c.hook_latency_win).0;
    handshake = (take_cmd_stats c.handshake).0;
    telemetry_last_ms = now_ms;
  }

  reset-window :
      (k : Kind) (c : Counters) (now_ms : ℕ) → window k (reset c now_ms) ≡ (take (window k c)).0
  reset-window errors c now_ms = refl
  reset-window leads c now_ms = refl
  reset-window gaps c now_ms = refl
  reset-window latencies c now_ms = refl

  telemetry_due_lem :
      (c : Counters) (now_ms : ℕ)
      → ltb (sub32 now_ms c.telemetry_last_ms) telemetry_interval_ms ≡ false
      → telemetry has c now_ms ≡ (reset c now_ms, shown_all c)
  unfolding telemetry shown_all shown
  telemetry_due_lem c now_ms due = rw due refl

  -- What a publication shows for a window.
  pub telemetry-due :
      (k : Kind) (c : Counters) (now_ms : ℕ)
      → has (sensor k) ≡ true
      → ltb (sub32 now_ms c.telemetry_last_ms) telemetry_interval_ms ≡ false
      → let (c', ps) = telemetry has c now_ms in
        (values_of k ps ≡ taken_list (take (window k c)).1)
        × (window k c' ≡ (take (window k c)).0)
        × (c'.telemetry_last_ms ≡ now_ms)
  unfolding shown
  telemetry-due k c now_ms h due = rw (telemetry_due_lem c now_ms due) (
    shown_all-window k c ∙ publish_taken-own k (take (window k c)).1 h,
    reset-window k c now_ms,
    refl,
  )

  pub telemetry-early :
      (c : Counters) (now_ms : ℕ)
      → ltb (sub32 now_ms c.telemetry_last_ms) telemetry_interval_ms ≡ true
      → telemetry has c now_ms ≡ (c, [])
  unfolding telemetry
  telemetry-early c now_ms early = rw early refl
