-- ===== src/NtpServer/Loop.antt =====
-- `loop` of ntp_server.cpp: the round of the main task, which keeps the interrupt level and the ARP
-- entries, answers the diagnostic port and publishes the telemetry. A round is one step here: the
-- calls of the other tasks come before or after it.
pub mod Shown
pub mod Telemetry
pub mod Period
mod Tests
use esphome_gps_pps_ntp_serv.Base.{
  ℕ, ◌==◌, ◌&&◌, ◌||◌, not, Bool, true, false, Option, none, some, List, [], ◌∷◌, ◌++◌, length, ltb,
  ℤ, pos, sub32, if◌then◌else◌,
}
use esphome_gps_pps_ntp_serv.W5500.Command.{Handshake, CmdStats, take_cmd_stats}
use esphome_gps_pps_ntp_serv.NtpServer.IntLevel.{IntLevel, LoopReads}
use esphome_gps_pps_ntp_serv.NtpServer.IntLevel as IntLevel
use esphome_gps_pps_ntp_serv.NtpServer.Window.{WindowMax, take}
use esphome_gps_pps_ntp_serv.NtpServer.ArpClients.{ArpClients, Netif, refresh_arp_entries}
use esphome_gps_pps_ntp_serv.NtpServer.Diag.Ring.{Diagnostics}
use esphome_gps_pps_ntp_serv.NtpServer.Console.Port.{PortIo, diag_serve}

abbrev pub telemetry_interval_ms : ℕ
telemetry_interval_ms = 10000

-- The sensors that `loop` publishes to.
pub data Sensor : Type 0 where
  arp_primes : Sensor
  t3_error : Sensor
  int_lead : Sensor
  rx_stamp_gap : Sensor
  hook_latency : Sensor
  refused : Sensor
  arp_waits : Sensor
  w5500_cmd_retries : Sensor
  w5500_cmd_max : Sensor

-- What the telemetry reads and resets.
pub record Counters : Type 0 where
  pub t3_error_win : WindowMax
  pub int_lead_win : WindowMax
  pub rx_stamp_gap_win : WindowMax
  pub hook_latency_win : WindowMax
  pub refused : ℕ
  pub arp_waits : ℕ
  pub handshake : Handshake
  pub telemetry_last_ms : ℕ

-- What a round of `loop` reads and writes.
pub record Main : Type 0 where
  pub level : IntLevel
  pub arp : ArpClients
  pub arp_primes_pending : Bool
  pub diag : Diagnostics
  pub diag_open : Bool  -- diag_socket_ >= 0
  pub counters : Counters

-- What the calls of a round return.
pub record LoopIo : Type 0 where
  pub level_reads : LoopReads
  pub cached : ℕ → Bool  -- etharp_find_addr()
  pub netif : Option Netif
  pub refresh_ms : ℕ
  pub port : PortIo
  pub now_ms : ℕ

-- What a round does: the values written to INTLEVEL, the hops asked for, the datagrams sent, and what
-- is published, as the integer that is converted to a float.
pub record Effects : Type 0 where
  pub int_levels : List ℕ
  pub hops : List ℕ
  pub datagrams : List (List ℕ)
  pub published : List (Sensor × ℤ)

module _ (has : Sensor → Bool) where
  -- `if (sensor != nullptr) sensor->publish_state(v)`
  unfoldable pub publish : Sensor → ℤ → List (Sensor × ℤ)
  publish s v = if has s then (s, v) ∷ [] else []

  -- `if (win.take(v) && sensor != nullptr) sensor->publish_state(v)`
  unfoldable pub publish_taken : Sensor → Option ℤ → List (Sensor × ℤ)
  publish_taken s none = []
  publish_taken s (some v) = publish s v

  unfoldable pub publish_commands : CmdStats → List (Sensor × ℤ)
  publish_commands cmd =
      publish w5500_cmd_retries (pos cmd.retried)
      ++ (if ltb 0 cmd.commands then publish w5500_cmd_max (pos cmd.max_us) else [])

  unfoldable pub telemetry : Counters → ℕ → Counters × List (Sensor × ℤ)
  telemetry c now_ms =
      let (t3_win, t3) = take c.t3_error_win in
      let (lead_win, lead) = take c.int_lead_win in
      let (gap_win, gap) = take c.rx_stamp_gap_win in
      let (latency_win, latency) = take c.hook_latency_win in
      let (handshake, cmd) = take_cmd_stats c.handshake in
      if ltb (sub32 now_ms c.telemetry_last_ms) telemetry_interval_ms then (c, []) else (
        record c {
          t3_error_win = t3_win;
          int_lead_win = lead_win;
          rx_stamp_gap_win = gap_win;
          hook_latency_win = latency_win;
          handshake = handshake;
          telemetry_last_ms = now_ms;
        },
        publish_taken t3_error t3
            ++ publish_taken int_lead lead
            ++ publish_taken rx_stamp_gap gap
            ++ publish_taken hook_latency latency
            ++ publish refused (pos c.refused)
            ++ publish arp_waits (pos c.arp_waits)
            ++ publish_commands cmd,
      )

  unfoldable pub loop : Main → LoopIo → Main × Effects
  loop s io =
      let (level, int_levels) = IntLevel.loop s.level io.level_reads in
      let (arp, hops) = refresh_arp_entries io.cached s.arp io.netif io.refresh_ms in
      let pending = s.arp_primes_pending || ltb 0 (length hops) in
      let (diag_open, datagrams) = diag_serve s.diag level s.diag_open io.port in
      let (counters, published) = telemetry s.counters io.now_ms in
      (
        record s {
          level = level;
          arp = arp;
          arp_primes_pending = false;
          diag_open = diag_open;
          counters = counters;
        },
        record {
          int_levels = int_levels;
          hops = hops;
          datagrams = datagrams;
          published = (if pending then publish arp_primes (pos arp.primes) else []) ++ published;
        },
      )
