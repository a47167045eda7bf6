-- ===== src/TxPatch/Ring.antt =====
-- The addressing of a patch in the TX ring of ntp_tx_patch.h, and the patch-to-send delay.
use esphome_gps_pps_ntp_serv.Base.{
  ℕ, zero, suc, ◌+◌, ◌-◌, ◌%◌, ◌≤◌, ◌≡◌, ◌⊎◌, refl, List, [], ◌∷◌, ◌++◌, arith, ℤ, pos, ◌≤ℤ◌,
  +ℤ_parts, -ℤ_parts, shr, ◌-ℤ◌,
}
use mathlib.Core.List.{append-nil}
use native.Mathlib.Nat.{suc-add}
use esphome_gps_pps_ntp_serv.SendEstimator.Bounds.{shr_3}
use esphome_gps_pps_ntp_serv.TxPatch.{RingWrite, plan_ring_writes, PatchDelayEstimator, learn_delay}

-- The bytes `src`, `src + 1`, .. of the source buffer with the ring cells that take them, for a
-- transfer of `n` bytes to address `addr`: the chip takes an address modulo the ring's size.
abbrev pub cells : ℕ → ℕ → ℕ → List (ℕ × ℕ)
cells addr src zero = []
cells addr src (suc n) = (addr % 0x4000, src) ∷ cells (addr + 1) (src + 1) n

abbrev pub cells_of : List RingWrite → List (ℕ × ℕ)
cells_of [] = []
cells_of (w ∷ ws) = cells w.addr w.src w.len ++ cells_of ws

-- No write of the list runs past the end of the ring.
abbrev pub InRing : List RingWrite → Type 0
InRing [] = Unit
InRing (w ∷ ws) = (w.addr % 0x4000 + w.len ≤ 0x4000) × InRing ws

cells-append :
    (addr src m n : ℕ) → cells addr src m ++ cells (addr + m) (src + m) n ≡ cells addr src (m + n)
cells-append addr src zero n = ground arith
cells-append addr src (suc m) n = rw suc-add (ground (arith, cells-append (addr + 1) (src + 1) m n))

cells-mod : (a b src n : ℕ) → a % 0x4000 ≡ b % 0x4000 → cells a src n ≡ cells b src n
cells-mod a b src zero h = refl
cells-mod a b src (suc n) h = ground (arith, cells-mod (a + 1) (b + 1) (src + 1) n)

-- A patch of `n` bytes at offset `rel_off` of a frame that starts at ring address
-- `frame_start_offset`, no longer than the ring and ending at most two ring sizes up: the writes put
-- byte i of the patch into the ring cell of frame byte `rel_off + i`, for every i below `n` in order
-- and nothing else, and no single write runs past the end of the ring.
pub plan_ring_writes-cells :
    (frame_start_offset rel_off n : ℕ)
    → rel_off + n ≤ 0x4000
    → let writes = plan_ring_writes frame_start_offset rel_off n in
      (cells_of writes ≡ cells (frame_start_offset + rel_off) 0 n) × InRing writes
unfolding plan_ring_writes
plan_ring_writes-cells off rel n h =
    let start : ℕ = off % 0x4000 + rel in
    let first : ℕ = 0x4000 - start in
    ground (
      arith,
      cells-append start 0 first (n - first),
      cells-mod start (off + rel) 0 n,
      append-nil (cells start 0 n),
      append-nil (cells 0x4000 first (n - first)),
    )

-- The estimate of the patch-to-send delay stays within 10 to 500 us, and one sample moves it no
-- further than to the sample itself.
pub learn_delay_bounds :
    (s : PatchDelayEstimator) (us : ℤ)
    → pos 10 ≤ℤ s.estimate_us
    → s.estimate_us ≤ℤ pos 500
    → let s' = learn_delay s us in
      (pos 10 ≤ℤ s'.estimate_us)
      × (s'.estimate_us ≤ℤ pos 500)
      × ((s.estimate_us ≤ℤ s'.estimate_us) × (s'.estimate_us ≤ℤ us)
          ⊎ (us ≤ℤ s'.estimate_us) × (s'.estimate_us ≤ℤ s.estimate_us)
          ⊎ (s'.estimate_us ≡ s.estimate_us))
unfolding learn_delay
learn_delay_bounds s us lo hi = ground (
  arith,
  -ℤ_parts us s.estimate_us,
  shr_3 (us -ℤ s.estimate_us),
  +ℤ_parts s.estimate_us (shr (us -ℤ s.estimate_us) 3),
)
