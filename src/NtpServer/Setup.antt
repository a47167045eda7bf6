-- ===== src/NtpServer/Setup.antt =====
-- `setup` of ntp_server.cpp: the socket, the hook, the measured precision and the request task; and
-- `set_post_write_t3` with its callback.
pub mod Start
pub mod Wire
mod Tests
use esphome_gps_pps_ntp_serv.Base.{
  ℕ, zero, suc, ◌*◌, ◌^◌, ◌==◌, ◌&&◌, not, ltb, Bool, true, false, Option, none, some, List, [],
  ◌∷◌, ℤ, pos, pos_part, ltb_ℤ, if◌then◌else◌,
}
use esphome_gps_pps_ntp_serv.W5500.Patch.{TxPatchFn}
use esphome_gps_pps_ntp_serv.W5500.Driver.{Driver}
use esphome_gps_pps_ntp_serv.W5500.Reads.{register_tx_patch}
use esphome_gps_pps_ntp_serv.NtpServer.Timestamp.{ClockReads, build_patch_t3}

-- What `build_patch_t3_` reads in one call.
pub record PatchReads : Type 0 where
  pub synchronized : Bool
  pub use_pps_anchor : Bool
  pub chip_latency : Bool
  pub delay_us : ℤ  -- patch_delay_.estimate()
  pub esp_now_us : ℤ
  pub clocks : ClockReads

-- `tx_patch_trampoline_`, with what the server reads in a call at each time.
unfoldable pub tx_patch_trampoline : (ℕ → PatchReads) → TxPatchFn
tx_patch_trampoline reads now_us =
    let r = reads now_us in
    build_patch_t3 r.synchronized r.use_pps_anchor r.chip_latency r.delay_us r.esp_now_us r.clocks
      now_us

unfoldable pub set_post_write_t3 : Driver → (ℕ → PatchReads) → ℕ → Bool → Driver
set_post_write_t3 d reads port true = register_tx_patch d (some (tx_patch_trampoline reads)) port
set_post_write_t3 d reads port false = register_tx_patch d none 0

abbrev pub uint32_max : ℕ
uint32_max = 4294967295

-- The loop over the measured reads: the smallest difference that is not 0, or 1 if there is none.
unfoldable pub best_us : ℕ → List ℤ → ℕ
best_us best [] = if best == uint32_max then 1 else best
best_us best (d ∷ ds) =
    best_us (if ltb_ℤ (pos 0) d && ltb (pos_part d) best then pos_part d else best) ds

-- The loop `while (p < 0 && 2^p < best_us / 10^6) p++`, with `k` for -p. The comparison of floats is
-- that of the exact numbers: 2^p is a float, and a quotient that is not 2^p differs from it by more than
-- the rounding.
unfoldable pub precision_from : ℕ → ℕ → ℕ
precision_from zero best = 0
precision_from (suc k) best =
    let rest = precision_from k best in if ltb 1000000 (best * 2 ^ suc k) then rest else suc k

-- What the calls of `setup` return; `has_netif` is that the component and its interface are there, and
-- the last two are the differences of the hundred reads of each clock.
pub record SetupIo : Type 0 where
  pub socket_ok : Bool
  pub bind_ok : Bool
  pub has_netif : Bool
  pub input_path_ok : Bool
  pub clock_reads : List ℤ
  pub anchor_reads : List ℤ

-- What `setup` leaves. The precisions are those of `precision_` and `precision_anchor_`, negated.
pub record Started : Type 0 where
  pub failed : Bool
  pub listening : Bool
  pub eth_netif : Bool
  pub hooked : Bool
  pub driver : Driver
  pub precision : ℕ
  pub precision_anchor : ℕ
  pub task : Bool

-- Without a socket that is bound nothing else is started.
abbrev pub not_started : Driver → Started
not_started d = record {
  failed = true;
  listening = false;
  eth_netif = false;
  hooked = false;
  driver = d;
  precision = 20;
  precision_anchor = 20;
  task = false;
}

unfoldable pub setup : Driver → (ℕ → PatchReads) → ℕ → SetupIo → Started
setup d reads port io =
    let hooked = io.has_netif && io.input_path_ok in
    let patched = set_post_write_t3 d reads port true in
    if not io.socket_ok then not_started d else if not io.bind_ok then not_started d else record {
      failed = false;
      listening = true;
      eth_netif = hooked;
      hooked = hooked;
      driver = set_post_write_t3 patched reads port true;
      precision = precision_from 20 (best_us uint32_max io.clock_reads);
      precision_anchor = precision_from 20 (best_us uint32_max io.anchor_reads);
      task = true;
    }
