-- ===== src/NtpServer/Window.antt =====
-- `WindowMax` of ntp_server.h: the sample of the largest magnitude in a window. Each call is one step
-- here; the atomic operations inside a call are not interleaved with another call's.
use esphome_gps_pps_ntp_serv.Base.{
  ℕ, inl, inr, refl, ◌∙◌, ◌+◌, ◌≤◌, ◌<◌, ◌≡◌, ◌⊎◌, ◌==◌, ltb, arith, length, Option, none, some,
  List, [], ◌∷◌, ℤ, pos, pos_part, neg_part, u32, if◌then◌else◌,
}
use mathlib.Core.List.{Memᴰ}

pub record WindowMax : Type 0 where
  pub value : ℤ  -- int32_t
  pub count : ℕ  -- uint32_t

-- `v < 0 ? -v : v`
abbrev pub magnitude : ℤ → ℕ
magnitude v = pos_part v + neg_part v

unfoldable pub add : WindowMax → ℤ → WindowMax
add w v = record {
  value = if ltb (magnitude w.value) (magnitude v) then v else w.value;
  count = u32 (w.count + 1);
}

unfoldable pub take : WindowMax → WindowMax × Option ℤ
take w =
    if w.count == 0
    then (record w { count = 0 }, none)
    else (record { value = pos 0; count = 0 }, some w.value)

-- A window of samples, the first one first.
unfoldable pub add_all : WindowMax → List ℤ → WindowMax
add_all w [] = w
add_all w (v ∷ vs) = add_all (add w v) vs

-- No sample is larger.
abbrev pub IsBound : ℕ → List ℤ → Type 0
IsBound m [] = 0 ≤ m
IsBound m (v ∷ vs) = (magnitude v ≤ m) × IsBound m vs

add_one :
    (w : WindowMax) (v : ℤ)
    → (magnitude w.value ≤ magnitude (add w v).value)
      × (magnitude v ≤ magnitude (add w v).value)
      × (((add w v).value ≡ w.value) ⊎ ((add w v).value ≡ v))
      × ((add w v).count ≡ u32 (w.count + 1))
unfolding add
add_one w v = ground arith

add_all-IsBound :
    (w : WindowMax) (vs : List ℤ)
    → IsBound (magnitude (add_all w vs).value) vs
      × (magnitude w.value ≤ magnitude (add_all w vs).value)
unfolding add_all
add_all-IsBound w [] = (omega arith, omega arith)
add_all-IsBound w (v ∷ vs) =
    let (rest, above) = add_all-IsBound (add w v) vs in
    let (old, new, which, one) = add_one w v in ((omega arith, rest), omega arith)

add_all-source :
    (w : WindowMax) (vs : List ℤ) → ((add_all w vs).value ≡ w.value) ⊎ Memᴰ (add_all w vs).value vs
unfolding add_all
add_all-source w [] = inl refl
add_all-source w (v ∷ vs) = elim (add_all-source (add w v) vs) [
  | inr m ↦ inr (Memᴰ.tail m)
  | inl same ↦ elim (add_one w v).2 [
    | inl old ↦ inl (same ∙ old)
    | inr new ↦ inr (Memᴰ.head (same ∙ new))
  ]
]

add_all-count :
    (w : WindowMax) (vs : List ℤ)
    → w.count + length vs < 4294967296
    → (add_all w vs).count ≡ w.count + length vs
unfolding add_all
add_all-count w [] h = omega arith
add_all-count w (v ∷ vs) h =
    let (old, new, which, one) = add_one w v in
    let rest = add_all-count (add w v) vs (omega arith) in omega arith

-- After a window of at least one sample and fewer than 2^32, taking it gives a value that no sample
-- exceeds in magnitude and that is a sample itself (or 0), and leaves the window empty.
pub take-add_all :
    (vs : List ℤ)
    → 0 < length vs
    → length vs < 4294967296
    → let full = add_all (record { value = pos 0; count = 0 }) vs in
      (take full ≡ (record { value = pos 0; count = 0 }, some full.value))
      × IsBound (magnitude full.value) vs
      × ((full.value ≡ pos 0) ⊎ Memᴰ full.value vs)
unfolding take
take-add_all vs h0 h =
    let empty : WindowMax = record { value = pos 0; count = 0 } in
    (
      ground (arith, add_all-count empty vs (omega arith)),
      (add_all-IsBound empty vs).0,
      add_all-source empty vs,
    )
