-- ===== src/W5500/PatchSend.antt =====
-- The patch before a SEND in w5500_custom_spi.cpp (`patch_send`), from the tracked header to the bytes
-- that the chip transmits.
use esphome_gps_pps_ntp_serv.Base.{
  ℕ, suc, ◌+◌, ◌-◌, ◌%◌, ◌≤◌, ◌<◌, ◌≡◌, ◌&&◌, ◌⊎◌, inl, inr, refl, ap, sym, Bool, true, false, ltb,
  leb, Option, none, some, List, [], ◌∷◌, length, get_or, take, drop, arith, if◌then◌else◌,
  Bool-cases, Option-cases, if_elim, length-snoc, u16, get_or-take, get_or-drop,
}
use mathlib.Core.Path.{◌∙◌}
use esphome_gps_pps_ntp_serv.TxPatch.{
  NtpTxPatchPlan, RingWrite, plan_ntp_tx_patch, plan_ring_writes,
}
use esphome_gps_pps_ntp_serv.TxPatch.Plan.{ip_hdr_len, IsServerReply, planned_iff, plan_offsets}
use esphome_gps_pps_ntp_serv.W5500.Link.{Io, Link, tick, now, transfer}
use esphome_gps_pps_ntp_serv.W5500.Patch.{
  Tracking, TxPatchFn, patch_writes, patch_write_ring, patch_csum, patch_frame, patch_send,
  csum_bytes,
}
use esphome_gps_pps_ntp_serv.W5500.Memory.{Memory, ring_size, after, frame_byte, Unsplit}
use esphome_gps_pps_ntp_serv.W5500.Atomic.{
  FitsRing, with_t3, with_csum, new_csum, patch_frame-patched, patch_frame-unpatched,
}

-- Does transfer `n` return ESP_OK?
abbrev pub done_at : Io → ℕ → Bool
done_at io n = if io.lock n then io.result n else false

transfer_result :
    (io : Io) (l : Link) (cmd addr len : ℕ) (out : Option (List ℕ))
    → let (l', done) = transfer io l cmd addr out len in
      (done ≡ done_at io (length l.log)) × (length l'.log ≡ suc (length l.log))
unfolding transfer
transfer_result io l cmd addr len out = (refl, length-snoc l.log _)

-- An unsplit write is one transfer.
abbrev One : Io → Link → List ℕ → List RingWrite → Type 0
One io l src writes =
    let (l', done) = patch_writes io l writes src in
    (done ≡ done_at io (length l.log)) × (length l'.log ≡ suc (length l.log))

One-result : (io : Io) (l : Link) (w : RingWrite) (src : List ℕ) → One io l src (w ∷ [])
unfolding patch_writes
One-result io l w src =
    ground (arith, transfer_result io l w.addr 0x14 w.len (some (drop w.src src)))

Unsplit-result :
    (io : Io) (l : Link) (frame_start off n : ℕ) (src : List ℕ)
    → Unsplit frame_start off n
    → let (l', done) = patch_write_ring io l frame_start off src n in
      (done ≡ done_at io (length l.log)) × (length l'.log ≡ suc (length l.log))
unfolding patch_write_ring patch_writes plan_ring_writes
Unsplit-result io l frame_start off n src u =
    let start : ℕ = frame_start % ring_size + off in
    let w : RingWrite = record { addr = u16 start; len = n; src = 0 } in
    if_elim (One io l src) (ltb start 0x4000 && ltb 0x4000 (start + n)) (λ t. absurd (ground arith))
      λ _. One-result io l w src

-- The header that was tracked is the start of the frame that lies in the ring.
pub record IsTracked (m : Memory) (l : Link) (t : Tracking) (fn : TxPatchFn) : Type 0 where
  pub registered : t.fn ≡ some fn
  pub started : t.frame_started ≡ true
  pub short : length t.hdr ≤ 128
  pub held :
      (i : ℕ) → i < length t.hdr → frame_byte (after l.log m) t.frame_start i ≡ get_or t.hdr i 0
  pub eight : (us : ℕ) (t3 : List ℕ) → fn us ≡ some t3 → length t3 ≡ 8

abbrev pub plan_of : Tracking → NtpTxPatchPlan
plan_of t = plan_ntp_tx_patch (some t.hdr) (length t.hdr) t.port

plan_fits : (t : Tracking) → length t.hdr ≤ 128 → (plan_of t).planned ≡ true → FitsRing (plan_of t)
plan_fits t short p =
    let (_, apart, inside, len) = plan_offsets t.hdr (length t.hdr) t.port (omega arith) p in
    record { csum_first = apart; t3_inside = omega arith; old_len = len }

-- The old T3 of the plan is what the frame has there.
old_t3_held :
    (m : Memory) (l : Link) (t : Tracking) (fn : TxPatchFn) (i : ℕ)
    → IsTracked m l t fn
    → (plan_of t).planned ≡ true
    → leb (plan_of t).t3_off i && ltb i ((plan_of t).t3_off + 8) ≡ true
    → get_or (plan_of t).old_t3 (i - (plan_of t).t3_off) 0
      ≡ frame_byte (after l.log m) t.frame_start i
old_t3_held m l t fn i h p inside =
    let (same, _, ends, _) = plan_offsets t.hdr (length t.hdr) t.port (omega arith) p in
    let off : ℕ = 14 + ip_hdr_len t.hdr + 48 in
    let k : ℕ = i - off in
    let at : (plan_of t).t3_off ≡ off = ap NtpTxPatchPlan.t3_off same in
    let old : (plan_of t).old_t3 ≡ take 8 (drop off t.hdr) = ap NtpTxPatchPlan.old_t3 same in
    rw (at, old)
      (get_or-take 8 (drop off t.hdr) k 0 (ground (arith, at))
        ∙ get_or-drop off t.hdr k 0
        ∙ ap (λ j. get_or t.hdr j 0) (ground (arith, at))
        ∙ sym (h.held i (ground arith)))

-- Where of two transfers in a row one returns ESP_OK, a checksum write that failed after T3 was
-- written is followed by a write of the old T3 that does not.
restore_done :
    (io : Io) (frame_start : ℕ) (l : Link) (plan : NtpTxPatchPlan) (t3 : List ℕ)
    → ((n : ℕ) → done_at io n ≡ false → done_at io (suc n) ≡ true)
    → Unsplit frame_start plan.t3_off 8
    → Unsplit frame_start plan.csum_off 2
    → (patch_frame io l frame_start plan t3).1 ≡ false
    → let l1 = patch_write_ring io l frame_start plan.t3_off t3 8 in
      let csum = csum_bytes (new_csum plan t3) in
      let l2 = patch_write_ring io l1.0 frame_start plan.csum_off csum 2 in
      l1.1 ≡ true → (patch_write_ring io l2.0 frame_start plan.t3_off plan.old_t3 8).1 ≡ true
unfolding patch_frame patch_csum
restore_done io frame_start l plan t3 reliable u v p d =
    let csum : List ℕ = csum_bytes (new_csum plan t3) in
    let l1 : Link = (patch_write_ring io l frame_start plan.t3_off t3 8).0 in
    let l2 : Link = (patch_write_ring io l1 frame_start plan.csum_off csum 2).0 in
    ground (
      arith,
      Unsplit-result io l1 frame_start plan.csum_off 2 csum v,
      Unsplit-result io l2 frame_start plan.t3_off 8 plan.old_t3 u,
      reliable (length l1.log),
    )

module _ (io : Io) (m : Memory) (l : Link) (t : Tracking) (fn : TxPatchFn) (h : IsTracked m l t fn)
    (i : ℕ) (in_ring : i < ring_size) where
  outcome :
      ((◌≡◌ {A = Bool} (plan_of t).planned false) ⊎ (fn (now io l) ≡ none))
      ⊎ ((t3 : List ℕ) × (◌≡◌ {A = Bool} (plan_of t).planned true) × (fn (now io l) ≡ some t3))
  outcome = elim (Bool-cases (plan_of t).planned) [
    | inl planned ↦ elim (Option-cases (fn (now io l))) [
      | inl gave ↦ inl (inr gave)
      | inr (t3, gave) ↦ inr (t3, planned, gave)
    ]
    | inr not_planned ↦ inl (inl not_planned)
  ]

  done_eq :
      (t3 : List ℕ)
      → (plan_of t).planned ≡ true
      → fn (now io l) ≡ some t3
      → let (l', patched) = patch_frame io (tick l) t.frame_start (plan_of t) t3 in
        patch_send io l t ≡ (l', now io l, patched)
  unfolding patch_send
  done_eq t3 p e = rw (h.registered, h.started, p, e) refl

  skipped :
      (◌≡◌ {A = Bool} (plan_of t).planned false) ⊎ (fn (now io l) ≡ none)
      → ((patch_send io l t).0.log ≡ l.log) × ((patch_send io l t).2 ≡ false)
  unfolding patch_send
  skipped why = ground (arith, h.registered, h.started)

  -- A frame that `patch_send` reports as patched is a server reply from the registered port; the
  -- callback gave a T3 for the time reported, and in the ring the frame has that T3 and, if it had a
  -- checksum, the updated one, and is otherwise as before.
  pub patch_send-patched :
      (patch_send io l t).2 ≡ true
      → IsServerReply t.hdr (length t.hdr) t.port
        × (t3 : List ℕ) × (fn (patch_send io l t).1 ≡ some t3)
        × (frame_byte (after (patch_send io l t).0.log m) t.frame_start i
            ≡ with_t3
                (plan_of t)
                t3
                i
                (with_csum (plan_of t) t3 i (frame_byte (after l.log m) t.frame_start i)))
  patch_send-patched p = elim (outcome) [
    | inl why ↦ absurd (ground (arith, skipped why))
    | inr (t3, planned, gave) ↦
        let e = done_eq t3 planned gave in
        let fits = plan_fits t h.short planned in
        (
          (planned_iff t.hdr (length t.hdr) t.port).0.0 planned,
          t3,
          rw e gave,
          rw e (
              patch_frame-patched io m t.frame_start i in_ring (tick l) (plan_of t) t3 fits
                (h.eight (now io l) t3 gave) (rw e at p)),
        )
  ]

  -- A frame that it does not report as patched lies in the ring as before, if the tracked header does
  -- not cross the ring's end and of two transfers in a row one returns ESP_OK.
  pub patch_send-unpatched :
      Unsplit t.frame_start (length t.hdr) 0
      → ((n : ℕ) → done_at io n ≡ false → done_at io (suc n) ≡ true)
      → (patch_send io l t).2 ≡ false
      → frame_byte (after (patch_send io l t).0.log m) t.frame_start i
        ≡ frame_byte (after l.log m) t.frame_start i
  patch_send-unpatched u reliable p = elim (outcome) [
    | inl why ↦ ap (λ log. frame_byte (after log m) t.frame_start i) (skipped why).0
    | inr (t3, planned, gave) ↦
        let e = done_eq t3 planned gave in
        let fits = plan_fits t h.short planned in
        let (_, apart, inside, _) =
          plan_offsets t.hdr (length t.hdr) t.port (omega arith) planned in
        let whole : Unsplit t.frame_start (plan_of t).t3_off 8 = omega arith in
        let unpatched =
          patch_frame-unpatched io m t.frame_start i in_ring (tick l) (plan_of t) t3 fits
            (h.eight (now io l) t3 gave) whole (old_t3_held m l t fn i h planned) (rw e at p) in
        let restored =
          restore_done io t.frame_start (tick l) (plan_of t) t3 reliable whole (omega arith)
            (rw e at p) in
        rw e (ground (arith, unpatched, restored))
  ]
