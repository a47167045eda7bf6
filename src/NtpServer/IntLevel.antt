-- ===== src/NtpServer/IntLevel.antt =====
-- The short interrupt wait of the W5500: `set_short_int_wait` and the first part of `loop` in
-- ntp_server.cpp. What the chip's registers and millis() return is the input of a step, and a step
-- says which values it wrote to INTLEVEL.
use esphome_gps_pps_ntp_serv.Base.{
  ℕ, ◌+◌, ◌<◌, ◌≡◌, ◌⊎◌, ◌↔◌, ◌==◌, ◌++◌, Bool, true, false, not, ◌&&◌, leb, arith, List, [], ◌∷◌,
  pos, leb_ℤ, u32, sub32, to_i32, if◌then◌else◌,
}
use esphome_gps_pps_ntp_serv.Deadman.{int_level_still_short}

abbrev pub w5500_int_level_short : ℕ
w5500_int_level_short = 0x0FFF

abbrev pub w5500_int_level_default : ℕ
w5500_int_level_default = 0xFFFF

abbrev pub short_int_wait_boot_delay_ms : ℕ
short_int_wait_boot_delay_ms = 60000

abbrev pub int_level_recheck_ms : ℕ
int_level_recheck_ms = 60000

pub record IntLevel : Type 0 where
  pub policy : Bool  -- short_int_wait_policy_
  pub effective : Bool  -- short_wait_effective_
  pub recheck_ms : ℕ  -- int_level_recheck_ms_
  pub last_readback : ℕ  -- last_int_level_readback_

-- A write of INTLEVEL and the read after it.
pub record WriteBack : Type 0 where
  pub write_ok : Bool
  pub read_ok : Bool
  pub readback : ℕ

-- `driver_level` is w5500_driver_int_level(), and `now_ms` the millis() of the next check.
unfoldable pub set_short_int_wait : IntLevel → Bool → ℕ → WriteBack → ℕ → IntLevel × List ℕ
set_short_int_wait s enable driver_level io now_ms =
    let driver_default =
      if not (driver_level == 0) then driver_level else w5500_int_level_default in
    let target = if enable then w5500_int_level_short else driver_default in
    let read_ok = io.write_ok && io.read_ok in
    let effective = enable && (io.write_ok && (read_ok && io.readback == target)) in
    (
      record {
        policy = enable;
        effective = effective;
        recheck_ms = if effective then u32 (now_ms + int_level_recheck_ms) else s.recheck_ms;
        last_readback = if read_ok then io.readback else 0;
      },
      target ∷ [],
    )

-- What one round of `loop` may read, in the order of the calls.
pub record LoopReads : Type 0 where
  pub gate_ms : ℕ
  pub driver_level : ℕ
  pub due_ms : ℕ
  pub stamp_ms : ℕ
  pub set_io : WriteBack
  pub set_ms : ℕ
  pub check_due_ms : ℕ
  pub check_stamp_ms : ℕ
  pub check_read_ok : Bool
  pub check_readback : ℕ
  pub rewrite_io : WriteBack

-- `static_cast<int32_t>(now - recheck) >= 0`
abbrev pub is_due : ℕ → ℕ → Bool
is_due now_ms recheck_ms = leb_ℤ (pos 0) (to_i32 (sub32 now_ms recheck_ms))

unfoldable pub boot_enable : IntLevel → LoopReads → IntLevel × List ℕ
boot_enable s r =
    if s.policy
      && (not s.effective
          && (leb short_int_wait_boot_delay_ms r.gate_ms
              && (not (r.driver_level == 0) && is_due r.due_ms s.recheck_ms)))
    then set_short_int_wait (record s { recheck_ms = u32 (r.stamp_ms + int_level_recheck_ms) }) true
        r.driver_level r.set_io r.set_ms
    else (s, [])

-- The register no longer holds the short wait.
unfoldable pub reapply : IntLevel → WriteBack → IntLevel × List ℕ
reapply s io =
    let ok = io.write_ok && io.read_ok in
    if s.policy
    then (
      record s {
        effective = ok && io.readback == w5500_int_level_short;
        last_readback = if ok then io.readback else 0;
      },
      w5500_int_level_short ∷ [],
    )
    else (record s { effective = false }, [])

unfoldable pub recheck : IntLevel → LoopReads → IntLevel × List ℕ
recheck s r =
    let checked = record s {
      recheck_ms = u32 (r.check_stamp_ms + int_level_recheck_ms);
      last_readback = if r.check_read_ok then r.check_readback else 0;
    } in
    if s.effective && is_due r.check_due_ms s.recheck_ms
    then if int_level_still_short r.check_read_ok r.check_readback
      then (checked, [])
      else reapply checked r.rewrite_io
    else (s, [])

unfoldable pub loop : IntLevel → LoopReads → IntLevel × List ℕ
loop s r =
    let enabled = boot_enable s r in
    let checked = recheck (enabled.0) r in (checked.0, enabled.1 ++ checked.1)

-- The short wait counts as in effect only while it is wanted and was last read back.
abbrev pub IsTrusted : IntLevel → Type 0
IsTrusted s = (s.effective ≡ false) ⊎ (s.policy ≡ true) × (s.last_readback ≡ w5500_int_level_short)

boot_enable-IsTrusted : (s : IntLevel) (r : LoopReads) → IsTrusted s → IsTrusted (boot_enable s r).0
unfolding boot_enable set_short_int_wait
boot_enable-IsTrusted s r h = ground arith

recheck-IsTrusted : (s : IntLevel) (r : LoopReads) → IsTrusted s → IsTrusted (recheck s r).0
unfolding recheck reapply int_level_still_short
recheck-IsTrusted s r h = ground arith

-- A round of the loop and a change of the policy both keep this: the short wait is in effect only
-- while it is wanted and INTLEVEL was last read back as 0x0FFF, whatever the chip answers.
pub steps-IsTrusted :
    (s : IntLevel) (r : LoopReads) (enable : Bool) (driver_level now_ms : ℕ) (io : WriteBack)
    → IsTrusted s
    → IsTrusted (loop s r).0 × IsTrusted (set_short_int_wait s enable driver_level io now_ms).0
unfolding loop set_short_int_wait
steps-IsTrusted s r enable driver_level now_ms io h =
    (recheck-IsTrusted (boot_enable s r).0 r (boot_enable-IsTrusted s r h), ground arith)

-- While the short wait is not wanted, or in the first minute after the boot, or before the driver has
-- written INTLEVEL, a round of the loop in which it is not in effect writes nothing and changes nothing.
pub loop-quiet :
    (s : IntLevel) (r : LoopReads)
    → s.effective ≡ false
    → (s.policy ≡ false) ⊎ (r.gate_ms < 60000) ⊎ (r.driver_level ≡ 0)
    → loop s r ≡ (s, [])
unfolding loop boot_enable recheck
loop-quiet s r he hq = ground arith

-- Once its check is due, a round leaves the short wait in effect exactly if the register holds it,
-- either as it was read first or as it was read after one attempt to write it again.
pub loop-recheck_iff :
    (s : IntLevel) (r : LoopReads)
    → IsTrusted s
    → s.effective ≡ true
    → is_due r.check_due_ms s.recheck_ms ≡ true
    → ((loop s r).0.effective ≡ true) ↔ (
        (r.check_read_ok ≡ true) × (r.check_readback ≡ 0x0FFF)
        ⊎ (r.rewrite_io.write_ok ≡ true)
          × (r.rewrite_io.read_ok ≡ true)
          × (r.rewrite_io.readback ≡ 0x0FFF))
unfolding loop boot_enable recheck reapply int_level_still_short
loop-recheck_iff s r ht he hd = ground arith
