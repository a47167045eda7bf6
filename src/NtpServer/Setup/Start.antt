-- ===== src/NtpServer/Setup/Start.antt =====
-- What `setup` of ntp_server.cpp guarantees: the precision, and the callback that it registers.
use esphome_gps_pps_ntp_serv.Base.{
  ℕ, zero, suc, ◌*◌, ◌^◌, ◌≤◌, ◌<◌, ◌≡◌, ◌⊎◌, ◌↔◌, ◌≢◌, if_elim, ltb→lt, Bool-cases, ap, inl, inr,
  refl, sym, ltb, ◌==◌, ◌&&◌, not, ◌≤ℤ◌, Bool, true, false, Option, some, List, [], ◌∷◌, ℤ, pos,
  pos_part, length, ltb_ℤ, ◌<ℤ◌, arith, if◌then◌else◌,
}
use esphome_gps_pps_ntp_serv.NtpServer.Timestamp.{
  build_patch_t3, NtpTimestamp, encode_ntp_timestamp, encode_word,
}
use esphome_gps_pps_ntp_serv.W5500.WireSum.{AreBytes, EachByte-AreBytes}
use esphome_gps_pps_ntp_serv.W5500.Patch.{set_tx_patch}
use esphome_gps_pps_ntp_serv.W5500.Driver.{Driver}
use esphome_gps_pps_ntp_serv.W5500.Reads.{register_tx_patch}
use mathlib.Core.List.{Memᴰ}
use mathlib.Core.Path.{◌∙◌}
use esphome_gps_pps_ntp_serv.NtpServer.Setup.{
  PatchReads, SetupIo, Started, uint32_max, tx_patch_trampoline, set_post_write_t3, best_us,
  precision_from, setup,
}

not_ltb : (a b : ℕ) → ltb a b ≡ false → b ≤ a
not_ltb a b h = ground arith

-- `k` is the largest up to `n` of which 2^-k s is not below `best` us.
abbrev pub IsPrecision : ℕ → ℕ → ℕ → Type 0
IsPrecision n best k =
    (k ≤ n) × ((k ≡ 0) ⊎ (best * 2 ^ k ≤ 1000000)) × ((k ≡ n) ⊎ (1000000 < best * 2 ^ suc k))

precision_from-IsPrecision : (n best : ℕ) → IsPrecision n best (precision_from n best)
unfolding precision_from
precision_from-IsPrecision zero best = (omega arith, inl refl, inl refl)
precision_from-IsPrecision (suc n) best =
    let (below, fits, next) = precision_from-IsPrecision n best in
    if_elim (IsPrecision (suc n) best) (ltb 1000000 (best * 2 ^ suc n))
      (λ t. (
        omega (arith, below),
        fits,
        elim next [
          | inl e ↦ inr (rw e (ltb→lt 1000000 (best * 2 ^ suc n) t))
          | inr more ↦ inr more
        ],
      ))
      λ f. (omega arith, inr (not_ltb 1000000 (best * 2 ^ suc n) f), inl refl)

-- No positive difference is smaller.
abbrev pub IsLeast : ℕ → List ℤ → Type 0
IsLeast best [] = Unit
IsLeast best (d ∷ ds) = ((pos 0 <ℤ d) → best ≤ pos_part d) × IsLeast best ds

-- No difference is positive and below 2^32 - 1.
abbrev pub NoPositive : List ℤ → Type 0
NoPositive [] = Unit
NoPositive (d ∷ ds) = ((d ≤ℤ pos 0) ⊎ (uint32_max ≤ pos_part d)) × NoPositive ds

abbrev better : ℕ → ℤ → ℕ
better best d = if ltb_ℤ (pos 0) d && ltb (pos_part d) best then pos_part d else best

better-le :
    (best : ℕ) (d : ℤ)
    → 0 < best
    → (0 < better best d)
      × (better best d ≤ best)
      × ((pos 0 <ℤ d) → better best d ≤ pos_part d)
      × ((better best d ≡ best) × ((d ≤ℤ pos 0) ⊎ (best ≤ pos_part d))
          ⊎ (pos (better best d) ≡ d) × (better best d < best))
better-le best d h = ground arith

over :
    (best : ℕ) (d : ℤ)
    → best ≡ uint32_max
    → (d ≤ℤ pos 0) ⊎ (best ≤ pos_part d)
    → (d ≤ℤ pos 0) ⊎ (uint32_max ≤ pos_part d)
over best d full (inl h) = inl h
over best d full (inr h) = inr (omega (arith, full, h))

==→≡ : {a b : ℕ} → (a == b) ≡ true → a ≡ b
==→≡ h = ground arith

-- The smallest of the positive differences and of `best`; 1 where that is 2^32 - 1.
best_us-IsLeast :
    (best : ℕ) (ds : List ℤ)
    → 0 < best
    → best ≤ uint32_max
    → let r = best_us best ds in
      (0 < r)
      × (r ≤ best)
      × IsLeast r ds
      × ((r ≡ 1) × (best ≡ uint32_max) × NoPositive ds
          ⊎ (r ≡ best) × (best ≢ uint32_max)
          ⊎ Memᴰ (pos r) ds)
unfolding best_us
best_us-IsLeast best [] h bound = elim (Bool-cases (best == uint32_max)) [
  | inl top ↦ rw top (omega arith, omega arith, tt, inl (refl, ==→≡ top, tt))
  | inr other ↦ rw other (h, omega arith, tt, inr (inl (refl, λ e. absurd (ground arith))))
]
best_us-IsLeast best (d ∷ ds) h bound =
    let (some_us, smaller, least, which) = better-le best d h in
    let (rest_pos, rest_le, rest_least, rest_which) =
      best_us-IsLeast (better best d) ds some_us (omega (arith, smaller, bound)) in
    (
      rest_pos,
      omega (arith, rest_le, smaller),
      (λ p. omega (arith, rest_le, least p), rest_least),
      elim rest_which [
        | inl (one, full, no_rest) ↦ elim which [
          | inl (same, not_better) ↦
              inl (one, sym same ∙ full, (over best d (sym same ∙ full) not_better, no_rest))
          | inr (_, less) ↦ absurd (omega (arith, less, full, bound))
        ]
        | inr (inl (e, ne)) ↦ elim which [
          | inl (same, _) ↦ inr (inl (e ∙ same, λ q. ne (same ∙ q)))
          | inr (new, _) ↦ inr (inr (Memᴰ.head (ap pos e ∙ new)))
        ]
        | inr (inr m) ↦ inr (inr (Memᴰ.tail m))
      ],
    )

encode_ntp_timestamp-bytes :
    (ts : NtpTimestamp)
    → (length (encode_ntp_timestamp ts) ≡ 8) × AreBytes (encode_ntp_timestamp ts)
unfolding encode_ntp_timestamp encode_word
encode_ntp_timestamp-bytes ts = (refl, EachByte-AreBytes (encode_ntp_timestamp ts) (omega arith))

Gives : Bool → List ℕ → Option (List ℕ) → Type 0
Gives synchronized t3 given =
    given ≡ some t3 → (length t3 ≡ 8) × AreBytes t3 × (synchronized ≡ true)

encoded-Gives :
    (synchronized : Bool) (ts : NtpTimestamp) (t3 : List ℕ)
    → synchronized ≡ true
    → Gives synchronized t3 (some (encode_ntp_timestamp ts))
unfolding Gives
encoded-Gives synchronized ts t3 on e =
    let (long, bytes) = encode_ntp_timestamp-bytes ts in
    let same : encode_ntp_timestamp ts ≡ t3 = cc e in (rw (sym same) long, rw (sym same) bytes, on)

-- The callback gives eight bytes, or nothing, and it gives them only while the time is synchronized.
pub tx_patch_trampoline-bytes :
    (reads : ℕ → PatchReads) (us : ℕ) (t3 : List ℕ)
    → tx_patch_trampoline reads us ≡ some t3
    → (length t3 ≡ 8) × AreBytes t3 × ((reads us).synchronized ≡ true)
unfolding tx_patch_trampoline build_patch_t3 Gives
tx_patch_trampoline-bytes reads us t3 =
    if_elim (Gives (reads us).synchronized t3) (reads us).synchronized
      (encoded-Gives (reads us).synchronized _ t3) λ _ e. absurd (cc e)

-- The smallest positive read is `best`, where one is positive and below 2^32 - 1 us; 1 us stands for it
-- where none is. The precision is that of it.
abbrev pub IsMeasured : List ℤ → ℕ → Type 0
IsMeasured ds k =
    (best : ℕ) × (0 < best)
    × IsLeast best ds
    × ((best ≡ 1) × NoPositive ds ⊎ Memᴰ (pos best) ds)
    × IsPrecision 20 best k

precision-IsMeasured : (ds : List ℤ) → IsMeasured ds (precision_from 20 (best_us uint32_max ds))
precision-IsMeasured ds =
    let (some_us, _, least, which) = best_us-IsLeast uint32_max ds (omega arith) (omega arith) in
    (
      best_us uint32_max ds,
      some_us,
      least,
      elim which [
        | inl (one, _, no_read) ↦ inl (one, no_read)
        | inr (inl (_, ne)) ↦ absurd (ne refl)
        | inr (inr m) ↦ inr m
      ],
      precision_from-IsPrecision 20 (best_us uint32_max ds),
    )

-- What holds of what `setup` leaves.
abbrev pub IsStarted : Driver → (ℕ → PatchReads) → ℕ → SetupIo → Started → Type 0
IsStarted d reads port io st =
    ((st.failed ≡ true) ↔ ((io.socket_ok ≡ false) ⊎ (io.bind_ok ≡ false)))
    × ((st.task ≡ not st.failed) × (st.listening ≡ not st.failed))
    × (st.driver
        ≡ (if st.failed then d else register_tx_patch d (some (tx_patch_trampoline reads)) port))
    × ((st.hooked ≡ true)
        ↔ ((st.failed ≡ false) × (io.has_netif ≡ true) × (io.input_path_ok ≡ true)))
    × ((st.failed ≡ true)
        ⊎ IsMeasured io.clock_reads st.precision × IsMeasured io.anchor_reads st.precision_anchor)

-- `setup` fails exactly if the socket could not be had or could not be bound, and then the driver is as
-- before and no task serves. Otherwise the task serves, the driver calls back into the server for
-- frames from its port, the T2 hook is installed exactly if there is an interface that took it, and
-- each precision is -k for the largest k up to 20 of which 2^-k s is not below the smallest positive
-- measured read, and 0 if there is no such k. Where no read is positive and below 2^32 - 1 us, and only
-- there, 1 us stands for the smallest.
pub setup-IsStarted :
    (d : Driver) (reads : ℕ → PatchReads) (port : ℕ) (io : SetupIo)
    → IsStarted d reads port io (setup d reads port io)
unfolding setup set_post_write_t3 register_tx_patch set_tx_patch
setup-IsStarted d reads port io =
    if_elim (IsStarted d reads port io) (not io.socket_ok)
      (λ closed. (ground arith, (refl, refl), refl, ground arith, inl refl))
      λ got.
        if_elim (IsStarted d reads port io) (not io.bind_ok)
          (λ unbound. (ground arith, (refl, refl), refl, ground arith, inl refl))
          λ bound. (
            ground arith,
            (refl, refl),
            refl,
            ground arith,
            inr (precision-IsMeasured io.clock_reads, precision-IsMeasured io.anchor_reads),
          )
