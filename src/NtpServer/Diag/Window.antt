-- ===== src/NtpServer/Diag/Window.antt =====
-- The ring of diagnostic records of ntp_server.cpp as the list of its slots, oldest first.
use esphome_gps_pps_ntp_serv.Base.{
  ℕ, zero, suc, ◌+◌, ◌-◌, ◌%◌, ◌<◌, ◌≡◌, ◌⊎◌, inl, inr, refl, sym, ap, not, List, [], ◌∷◌, ◌++◌,
  length, get_or, set, take, drop, pos, eqb_ℤ, u32, if◌then◌else◌, arith, length-set, length-append,
  drop-set, take-set, drop-drop, drop_all, take_all, get_or-append, get_or-drop, length-drop,
  length-take, get_or-take,
}
use mathlib.Core.Path.{◌∙◌}
use mathlib.Core.List.{append_assoc, append-nil}
use esphome_gps_pps_ntp_serv.NtpServer.Diag.{DiagRecord}
use esphome_gps_pps_ntp_serv.NtpServer.Diag.Ring.{
  DiagSlot, diag_ring_size, fresh_slot, put_slot, list_slots,
}

-- The slots in the order of the dump.
abbrev pub window : List DiagSlot → ℕ → List DiagSlot
window ring next = drop next ring ++ take next ring

-- The records of the dump: a T2 of 0 marks a slot that was never written.
abbrev pub listed : List DiagRecord → List DiagRecord
listed [] = []
listed (d ∷ ds) = if not (eqb_ℤ d.t2_us (pos 0)) then d ∷ listed ds else listed ds

abbrev pub recs : List DiagSlot → List DiagRecord
recs [] = []
recs (s ∷ ss) = s.rec ∷ recs ss

pub record IsRing (ring : List DiagSlot) (next : ℕ) : Type 0 where
  pub full : length ring ≡ diag_ring_size
  pub in_range : next < diag_ring_size
  pub settled : (i : ℕ) → DiagSlot.seq (get_or ring i fresh_slot) % 2 ≡ 0

pub length-window :
    (ring : List DiagSlot) (next : ℕ)
    → IsRing ring next
    → length (window ring next) ≡ diag_ring_size
length-window ring next h = omega (
  arith,
  h.full,
  h.in_range,
  length-append (drop next ring) (take next ring),
  length-drop next ring,
  length-take next ring,
)

next_place :
    (next : ℕ)
    → next < diag_ring_size
    → ((next + 1) % diag_ring_size ≡ suc next)
      ⊎ (((next + 1) % diag_ring_size ≡ 0) × (suc next ≡ diag_ring_size))
next_place next h = ground arith

-- Rings of 1024 cells of any kind.
module _ {A : Type 0} (d : A) where
  get_or-rotate :
      (xs : List A) (next i : ℕ)
      → length xs ≡ diag_ring_size
      → next < diag_ring_size
      → i < diag_ring_size
      → get_or (drop next xs ++ take next xs) i d ≡ get_or xs ((next + i) % diag_ring_size) d
  get_or-rotate xs next i full h below = ground (
    arith,
    full,
    get_or-append (drop next xs) (take next xs) i d,
    length-drop next xs,
    get_or-drop next xs i d,
    get_or-take next xs (i - (1024 - next)) d,
  )

  drop-get_or : (xs : List A) (i : ℕ) → i < length xs → drop i xs ≡ get_or xs i d ∷ drop (suc i) xs
  drop-get_or [] i h = elim h [ ]
  drop-get_or (x ∷ xs) zero h = refl
  drop-get_or (x ∷ xs) (suc i) h = drop-get_or xs i (omega arith)

module _ {A : Type 0} where
  rotate_end : (xs : List A) (n : ℕ) → n ≡ length xs → drop n xs ++ take n xs ≡ xs
  rotate_end xs n e = ap (λ m. drop m xs ++ take m xs) e ∙ rw (drop_all xs, take_all xs)

  -- A write to the cell at `next` takes the place of the oldest.
  pub rotate-set :
      (xs : List A) (next : ℕ) (v : A)
      → length xs ≡ diag_ring_size
      → next < diag_ring_size
      → let next' = (next + 1) % diag_ring_size in
        drop next' (set xs next v) ++ take next' (set xs next v)
        ≡ drop 1 (drop next xs ++ take next xs) ++ v ∷ []
  rotate-set xs next v full h = elim (next_place next h) [
    | inl more ↦ rw more (rotated ∙ sliding)
    | inr last ↦ rw (last.0) (
        append-nil (set xs next v)
        ∙ sym (
            rotate_end (set xs next v) (suc next)
              (omega (arith, full, last.1, length-set xs next v)))
        ∙ (rotated ∙ sliding))
  ]
    where
      sliding :
          drop (suc next) xs ++ (take next xs ++ v ∷ [])
          ≡ drop 1 (drop next xs ++ take next xs) ++ v ∷ []
      sliding =
          sym (append_assoc (drop (suc next) xs) (take next xs) (v ∷ []))
          ∙ ap (λ w. w ++ v ∷ []) (sym (drop-drop next xs (take next xs) (omega (arith, full))))

      rotated :
          drop (suc next) (set xs next v) ++ take (suc next) (set xs next v)
          ≡ drop (suc next) xs ++ (take next xs ++ v ∷ [])
      rotated = rw (drop-set next xs v, take-set next xs v (omega (arith, full)))

pub list_slots-listed :
    (ring : List DiagSlot) (next i k : ℕ)
    → IsRing ring next
    → i + k ≡ diag_ring_size
    → list_slots ring next i k ≡ listed (recs (drop i (window ring next)))
unfolding list_slots
list_slots-listed ring next i zero h e =
    let w : List DiagSlot = window ring next in
    let whole : i ≡ length w = omega (arith, length-window ring next h) in
    sym (ap (λ n. listed (recs (drop n w))) whole ∙ ap (λ ss. listed (recs ss)) (drop_all w))
list_slots-listed ring next i (suc k) h e =
    let slot : DiagSlot = get_or ring ((next + i) % diag_ring_size) fresh_slot in
    rw (
      drop-get_or fresh_slot (window ring next) i (omega (arith, length-window ring next h)),
      get_or-rotate fresh_slot ring next i h.full h.in_range (omega arith),
      sym (list_slots-listed ring next (suc i) k h (omega arith)),
      h.settled ((next + i) % diag_ring_size),
    )

pub recs-append : (ss ts : List DiagSlot) → recs (ss ++ ts) ≡ recs ss ++ recs ts
recs-append [] ts = refl
recs-append (s ∷ ss) ts = ap (◌∷◌ s.rec) (recs-append ss ts)

pub recs-drop : (n : ℕ) (ss : List DiagSlot) → recs (drop n ss) ≡ drop n (recs ss)
recs-drop zero ss = refl
recs-drop (suc n) [] = refl
recs-drop (suc n) (s ∷ ss) = recs-drop n ss

get_or-settled :
    (ss : List DiagSlot) (n i : ℕ) (s : DiagSlot)
    → s.seq % 2 ≡ 0
    → DiagSlot.seq (get_or ss i fresh_slot) % 2 ≡ 0
    → DiagSlot.seq (get_or (set ss n s) i fresh_slot) % 2 ≡ 0
get_or-settled [] n i s h e = e
get_or-settled (t ∷ ss) zero zero s h e = h
get_or-settled (t ∷ ss) zero (suc i) s h e = e
get_or-settled (t ∷ ss) (suc n) zero s h e = e
get_or-settled (t ∷ ss) (suc n) (suc i) s h e = get_or-settled ss n i s h e

pub put_slot-IsRing :
    (ring : List DiagSlot) (next : ℕ) (d : DiagRecord)
    → IsRing ring next
    → IsRing (put_slot ring next d) ((next + 1) % diag_ring_size)
put_slot-IsRing ring next d h =
    let s : DiagSlot = record {
      seq = u32 (DiagSlot.seq (get_or ring next fresh_slot) + 2);
      rec = d;
    } in
    record {
      full = length-set ring next s ∙ h.full;
      in_range = omega arith;
      settled = λ i. get_or-settled ring next i s (omega (arith, h.settled next)) (h.settled i);
    }
