-- ===== src/Deadman.antt =====
-- components/ntp_server/deadman.h: the dead-man timer over the wrapping `millis()` counter, and the
-- guard on the read-back of INTLEVEL.
pub mod Wrap
mod Tests
use esphome_gps_pps_ntp_serv.Base.{
  ℕ, ◌+◌, ◌==◌, Bool, true, false, ◌&&◌, pos, pos_part, leb_ℤ, ltb_ℤ, u32, sub32, to_i32,
  if◌then◌else◌,
}

-- `DeadmanTimer`
pub record DeadmanTimer : Type 0 where
  pub armed : Bool
  pub deadline_ms : ℕ  -- uint32_t

pub arm : DeadmanTimer → ℕ → ℕ → DeadmanTimer
arm t now_ms duration_ms = record { armed = true; deadline_ms = u32 (now_ms + duration_ms) }

pub disarm : DeadmanTimer → DeadmanTimer
disarm t = record t { armed = false }

pub expired : DeadmanTimer → ℕ → Bool
expired t now_ms = if t.armed then leb_ℤ (pos 0) (to_i32 (sub32 now_ms t.deadline_ms)) else false

-- The cast back to `uint32_t` is made only of a positive value, and so keeps it.
pub remaining_ms : DeadmanTimer → ℕ → ℕ
remaining_ms t now_ms =
    let rem = to_i32 (sub32 t.deadline_ms now_ms) in
    if t.armed then if ltb_ℤ (pos 0) rem then pos_part rem else 0 else 0

unfoldable pub int_level_still_short : Bool → ℕ → Bool
int_level_still_short read_ok readback = read_ok && readback == 0x0FFF
