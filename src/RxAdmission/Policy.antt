-- ===== src/RxAdmission/Policy.antt =====
-- What the admission rule of rx_admission.h promises of the requests that it lets through.
use esphome_gps_pps_ntp_serv.Base.{
  ℕ, ◌+◌, ◌<◌, ◌≡◌, ◌↔◌, ◌⊎◌, Bool, true, false, ◌&&◌, arith, ltb, ℤ, pos, ◌≤ℤ◌, ◌<ℤ◌, u32, u32_mod,
}
use esphome_gps_pps_ntp_serv.RxAdmission.{evaluate_rx_edge, accept, rx_admission}

-- The conditions under which a request with no usable edge is answered in the strict regime.
pub record IsFreshBurst (short_wait : Bool) (queued gap : ℤ) : Type 0 where
  pub short : short_wait ≡ true
  pub queued_known : pos 0 ≤ℤ queued
  pub queued_small : queued <ℤ pos 60
  pub gap_long : pos 800 ≤ℤ gap

-- In the strict regime, once an edge has ever been captured, a request is accepted exactly when it
-- has a usable edge whose lead is below 200 us, or has none but arrived in a fresh burst: the short
-- wait is active, 0 to 59 bytes were queued behind it, and its gap is at least 800 us.
pub accept_iff :
    (usable : Bool) (lead : ℤ) (short_wait : Bool) (queued gap : ℤ)
    → (rx_admission true usable lead true short_wait queued gap ≡ accept) ↔ (
        (usable ≡ true) × (lead <ℤ pos 200) ⊎ (usable ≡ false) × IsFreshBurst short_wait queued gap)
unfolding rx_admission
accept_iff usable lead short_wait queued gap = (λ h. ground arith, λ h. ground arith)

-- Every request that the strict regime accepts the legacy regime accepts too, whatever the other
-- inputs are.
pub strict-legacy :
    (armed usable : Bool) (lead : ℤ) (short_wait : Bool) (queued gap : ℤ)
    → rx_admission armed usable lead true short_wait queued gap ≡ accept
    → rx_admission armed usable lead false short_wait queued gap ≡ accept
unfolding rx_admission
strict-legacy armed usable lead short_wait queued gap h = ground arith

-- An edge stamped at any counter value `e`, with the burst starting `d` us later (below 2^31 us, over
-- the counter's wrap or not): its lead is `d`, and it is usable exactly if 0 < d < 2 s. This wants an
-- edge to have been seen and the burst not to start at counter value 0, which stands for "never".
pub evaluate_rx_edge_wrap :
    (seq e d : ℕ)
    → 0 < seq
    → e < u32_mod
    → d < 2147483648
    → 0 < u32 (e + d)
    → let r = evaluate_rx_edge seq e (u32 (e + d)) in
      (r.lead_us ≡ pos d) × (r.edge_usable ≡ (ltb 0 d && ltb d 2000000))
unfolding evaluate_rx_edge
evaluate_rx_edge_wrap seq e d hs he hd hb = (ground arith, ground arith)
