-- ===== src/ArpWait.antt =====
-- components/ntp_server/arp_wait.h: which address the reply needs an ARP entry for, and the bounded
-- wait for that entry. What the caller's callables do is a parameter: a state of the outside world and
-- four operations on it.
pub mod Bounded
mod Tests
use Prim.Native.Nat.{bit_and, bit_xor}
use esphome_gps_pps_ntp_serv.Base.{
  ℕ, zero, suc, ◌==◌, Bool, true, false, Option, none, some, ℤ, pos, ◌-ℤ◌, leb_ℤ, cast_i32,
  if◌then◌else◌,
}

unfoldable pub next_hop_ipv4 : ℕ → ℕ → ℕ → ℕ → ℕ
next_hop_ipv4 client our_ip netmask gateway =
    if bit_and (bit_xor client our_ip) netmask == 0 then client else gateway

pub record ArpWaitResult : Type 0 where
  pub resolved : Bool
  pub missed : Bool
  pub waited_us : ℤ  -- int32_t

-- The callables that `wait_for_arp` is given.
pub record Callables (W : Type 0) : Type 0 where
  pub lookup : W → Bool × W
  pub query : W → W
  pub sleep_1ms : W → W
  pub now_us : W → ℤ × W

module _ {W : Type 0} (env : Callables W) (max_wait_us : ℤ) where
  -- The `while (true)` loop, on fuel; `none` means that the fuel ran out.
  unfoldable pub wait_loop : ℕ → ℤ → W → Option (ArpWaitResult × W)
  wait_loop zero start w = none
  wait_loop (suc fuel) start w =
      let (now, w') = env.now_us (env.sleep_1ms w) in
      let elapsed = cast_i32 (now -ℤ start) in
      let (hit, w'') = env.lookup w' in
      let rest = wait_loop fuel start w'' in
      if hit
      then some (record { resolved = true; missed = true; waited_us = elapsed }, w'')
      else if leb_ℤ max_wait_us elapsed
      then some (record { resolved = false; missed = true; waited_us = elapsed }, w'')
      else rest

  unfoldable pub wait_for_arp : ℕ → W → Option (ArpWaitResult × W)
  wait_for_arp fuel w =
      let (hit, w') = env.lookup w in
      let (start, w'') = env.now_us (env.query w') in
      if hit
      then some (record { resolved = true; missed = false; waited_us = pos 0 }, w')
      else wait_loop fuel start w''
