-- ===== src/W5500/Atomic.antt =====
-- What the patch of w5500_custom_spi.cpp does to the frame in the TX ring, when its writes go through
-- and when they fail.
use esphome_gps_pps_ntp_serv.Base.{
  ℕ, ◌+◌, ◌-◌, ◌≤◌, ◌<◌, ◌≡◌, ◌&&◌, ap, not, Bool, true, false, ltb, leb, List, length, get_or,
  arith, if◌then◌else◌,
}
use mathlib.Core.Path.{◌∙◌}
use esphome_gps_pps_ntp_serv.TxPatch.{NtpTxPatchPlan, udp_csum_update}
use esphome_gps_pps_ntp_serv.W5500.Link.{Io, Link}
use esphome_gps_pps_ntp_serv.W5500.Patch.{patch_write_ring, patch_csum, patch_frame, csum_bytes}
use esphome_gps_pps_ntp_serv.W5500.Memory.{
  Memory, ring_size, after, frame_byte, put_bytes-frame_byte, Unsplit, patch_write_ring-done,
  patch_write_ring-failed,
}

-- A plan whose fields lie apart and within the ring.
pub record FitsRing (plan : NtpTxPatchPlan) : Type 0 where
  pub csum_first : plan.csum_off + 2 ≤ plan.t3_off
  pub t3_inside : plan.t3_off + 8 ≤ ring_size
  pub old_len : length plan.old_t3 ≡ 8

-- The checksum that goes with a new T3.
abbrev pub new_csum : NtpTxPatchPlan → List ℕ → ℕ
new_csum plan t3 = udp_csum_update plan.old_csum plan.old_t3 t3

-- Byte `i` of a frame, `b` before, with T3 or with both fields replaced.
abbrev pub with_t3 : NtpTxPatchPlan → List ℕ → ℕ → ℕ → ℕ
with_t3 plan t3 i b =
    if leb plan.t3_off i && ltb i (plan.t3_off + 8) then get_or t3 (i - plan.t3_off) 0 else b

abbrev pub with_csum : NtpTxPatchPlan → List ℕ → ℕ → ℕ → ℕ
with_csum plan t3 i b =
    if plan.csum_present && (leb plan.csum_off i && ltb i (plan.csum_off + 2))
    then get_or (csum_bytes (new_csum plan t3)) (i - plan.csum_off) 0
    else b

module _ (io : Io) (m : Memory) (frame_start i : ℕ) (in_ring : i < ring_size) where
  -- Byte `i` of the frame in the ring.
  abbrev pub byte : Link → ℕ
  byte l = frame_byte (after l.log m) frame_start i

  write_byte :
      (l : Link) (off : ℕ) (src : List ℕ) (n : ℕ)
      → length src ≡ n
      → off + n ≤ ring_size
      → let (l', done) = patch_write_ring io l frame_start off src n in
        done ≡ true
        → byte l' ≡ (if leb off i && ltb i (off + n) then get_or src (i - off) 0 else byte l)
  write_byte l off src n e = rw (← e) λ h d.
      ap (λ (mem : Memory). frame_byte mem frame_start i)
        (patch_write_ring-done io m l frame_start off src h d)
      ∙ put_bytes-frame_byte src (after l.log m) frame_start off i h in_ring

  keep_byte :
      (l : Link) (off : ℕ) (src : List ℕ) (n : ℕ)
      → length src ≡ n
      → Unsplit frame_start off n
      → let (l', done) = patch_write_ring io l frame_start off src n in
        done ≡ false → byte l' ≡ byte l
  keep_byte l off src n e = rw (← e) λ h d.
      ap (λ (mem : Memory). frame_byte mem frame_start i)
        (patch_write_ring-failed io m l frame_start off src h d)

  module _ (l : Link) (plan : NtpTxPatchPlan) (t3 : List ℕ) (fits : FitsRing plan)
      (eight : length t3 ≡ 8) where
    abbrev pub first : Link × Bool
    first = patch_write_ring io l frame_start plan.t3_off t3 8

    abbrev pub second : Link × Bool
    second = patch_write_ring io first.0 frame_start plan.csum_off (csum_bytes (new_csum plan t3)) 2

    abbrev pub third : Link × Bool
    third = patch_write_ring io second.0 frame_start plan.t3_off plan.old_t3 8

    -- A frame that counts as patched has the new T3 and, if it has a checksum, the new one, and is
    -- otherwise as before.
    pub patch_frame-patched :
        (patch_frame io l frame_start plan t3).1 ≡ true
        → byte (patch_frame io l frame_start plan t3).0
          ≡ with_t3 plan t3 i (with_csum plan t3 i (byte l))
    unfolding patch_frame patch_csum
    patch_frame-patched p = ground (
      arith,
      write_byte l plan.t3_off t3 8,
      write_byte first.0 plan.csum_off (csum_bytes (new_csum plan t3)) 2,
    )

    -- A frame that does not count as patched, where no write crosses the end of the ring, is as
    -- before, unless the write of the new T3 went through, but neither that of the checksum nor that
    -- of the old T3 after it: then the frame has the new T3 with the old checksum.
    pub patch_frame-unpatched :
        Unsplit frame_start plan.t3_off 8
        → (leb plan.t3_off i && ltb i (plan.t3_off + 8) ≡ true
            → get_or plan.old_t3 (i - plan.t3_off) 0 ≡ byte l)
        → (patch_frame io l frame_start plan t3).1 ≡ false
        → byte (patch_frame io l frame_start plan t3).0
          ≡ (if first.1 && not third.1 then with_t3 plan t3 i (byte l) else byte l)
    unfolding patch_frame patch_csum
    patch_frame-unpatched u old p = ground (
      arith,
      write_byte l plan.t3_off t3 8,
      keep_byte l plan.t3_off t3 8,
      keep_byte first.0 plan.csum_off (csum_bytes (new_csum plan t3)) 2,
      write_byte second.0 plan.t3_off plan.old_t3 8,
      keep_byte second.0 plan.t3_off plan.old_t3 8,
      old,
    )
