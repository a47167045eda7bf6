-- ===== src/TalkerTable/Victim.antt =====
-- Which slot of the talker table makes way for a new key.
use esphome_gps_pps_ntp_serv.Base.{
  ℕ, zero, suc, ◌+◌, ◌-◌, ◌≤◌, ◌<◌, ◌≡◌, ◌⊎◌, inl, inr, refl, ap, ◌∙◌, true, false, Bool-cases,
  none, some, [], ◌∷◌, arith, length, get_or, Option-cases,
}
use esphome_gps_pps_ntp_serv.TalkerTable.{
  Entry, blank, Table, first_unused, less_active, least_active, choose_slot,
}

-- The slot that `first_unused` names is inside the table and free.
first_unused-some :
    (i : ℕ) (t : Table) (k : ℕ)
    → first_unused i t ≡ some k
    → (i ≤ k) × (k - i < length t) × ((get_or t (k - i) blank).used ≡ false)
unfolding first_unused
first_unused-some i [] k h = cc
first_unused-some i (e ∷ es) k h = ground (arith, first_unused-some (i + 1) es k)

-- It names none only if every slot is used.
first_unused-none :
    (i : ℕ) (t : Table) (j : ℕ)
    → first_unused i t ≡ none
    → j < length t
    → (get_or t j blank).used ≡ true
unfolding first_unused
first_unused-none i [] j h lt = absurd (omega arith)
first_unused-none i (e ∷ es) zero h lt = ground arith
first_unused-none i (e ∷ es) (suc j) h lt = ground (arith, first_unused-none (i + 1) es j)

-- Less activity is a strict weak order: what is no less than the better of two is no less than either.
not_less_trans :
    (a b c : Entry) → less_active a b ≡ false → less_active b c ≡ false → less_active a c ≡ false
unfolding less_active
not_less_trans a b c h k = ground arith

less_active-asymm : (a b : Entry) → less_active a b ≡ true → less_active b a ≡ false
unfolding less_active
less_active-asymm a b h = ground arith

less_active_irrefl : (a : Entry) → less_active a a ≡ false
unfolding less_active
less_active_irrefl a = ground arith

-- The scan ends at the index of an entry that none of those it saw, and not the one that it began
-- with, is less active than.
record Scanned (whole : Table) (best : Entry) (seen : Table) (k : ℕ) : Type 0 where
  inside : k < length whole
  below_best : less_active best (get_or whole k blank) ≡ false
  below_seen :
      (j : ℕ) → j < length seen → less_active (get_or seen j blank) (get_or whole k blank) ≡ false

widen :
    (whole : Table) (best e nb : Entry) (es : Table) (k : ℕ)
    → less_active best nb ≡ false
    → less_active e nb ≡ false
    → Scanned whole nb es k
    → Scanned whole best (e ∷ es) k
widen whole best e nb es k hb he s = record {
  inside = s.inside;
  below_best = not_less_trans best nb (get_or whole k blank) hb s.below_best;
  below_seen = seen;
}
  where
    seen :
        (j : ℕ)
        → j < length (e ∷ es)
        → less_active (get_or (e ∷ es) j blank) (get_or whole k blank) ≡ false
    seen zero lt = not_less_trans e nb (get_or whole k blank) he s.below_best
    seen (suc j) lt = s.below_seen j (omega arith)

least_active-Scanned :
    (whole : Table) (idx : ℕ) (best : Entry) (i : ℕ) (rest : Table)
    → idx < length whole
    → best ≡ get_or whole idx blank
    → ((j : ℕ) → get_or rest j blank ≡ get_or whole (i + j) blank)
    → i + length rest ≤ length whole
    → Scanned whole best rest (least_active idx best i rest)
unfolding least_active
least_active-Scanned whole idx best i [] hi hb same fits = record {
  inside = hi;
  below_best = rw (← hb) (less_active_irrefl best);
  below_seen = λ j lt. absurd (omega arith);
}
least_active-Scanned whole idx best i (e ∷ es) hi hb same fits =
    elim (Bool-cases (less_active e best)) [
      | inl less ↦ rw less (
          widen whole best e e es _ (less_active-asymm e best less) (less_active_irrefl e)
            (least_active-Scanned whole i e (i + 1) es (omega arith) here tail (omega arith)))
      | inr more ↦ rw more (
          widen whole best e best es _ (less_active_irrefl best) more
            (least_active-Scanned whole idx best (i + 1) es hi hb tail (omega arith)))
    ]
  where
    here : e ≡ get_or whole i blank
    here = same 0 ∙ ap (λ n. get_or whole n blank) (omega arith)

    tail : (j : ℕ) → get_or es j blank ≡ get_or whole (i + 1 + j) blank
    tail j = same (suc j) ∙ ap (λ n. get_or whole n blank) (omega arith)

-- The slot chosen for a new key lies inside the table. It is a free slot if there is one; and if
-- every slot is used it is one that no slot is less active than, by fewer frames or, at as many
-- frames, an older last frame.
pub choose_slot_lem :
    (t : Table)
    → 0 < length t
    → let victim = get_or t (choose_slot t) blank in
      (choose_slot t < length t)
      × ((victim.used ≡ false)
          ⊎ ((j : ℕ)
              → j < length t
              → ((get_or t j blank).used ≡ true) × (less_active (get_or t j blank) victim ≡ false)))
unfolding choose_slot
choose_slot_lem [] pos = absurd (omega arith)
choose_slot_lem (e ∷ es) pos = elim (Option-cases (first_unused 0 (e ∷ es))) [
  | inl full ↦
      let scan = scanned e es in rw (full, choose_slot) (scan.inside, inr (least full scan))
  | inr (k, free) ↦
      let z : k - 0 ≡ k = omega arith in
      let found = rw z at (first_unused-some 0 (e ∷ es) k free) in
      rw (free, choose_slot) (found.1, inl found.2)
]
  where
    scanned : (e : Entry) (es : Table) → Scanned (e ∷ es) e es (least_active 0 e 1 es)
    scanned e es =
        least_active-Scanned (e ∷ es) 0 e 1 es (omega arith) refl
          (λ j. let q : suc j ≡ 1 + j = omega arith in ap (λ n. get_or (e ∷ es) n blank) q)
          (omega arith)

    least :
        {e : Entry} {es : Table} {k : ℕ}
        → first_unused 0 (e ∷ es) ≡ none
        → Scanned (e ∷ es) e es k
        → (j : ℕ) → j < length (e ∷ es)
        → ((get_or (e ∷ es) j blank).used ≡ true)
          × (less_active (get_or (e ∷ es) j blank) (get_or (e ∷ es) k blank) ≡ false)
    least {e} {es} full scan zero lt = (first_unused-none 0 (e ∷ es) 0 full lt, scan.below_best)
    least {e} {es} full scan (suc j) lt =
        (first_unused-none 0 (e ∷ es) (suc j) full lt, scan.below_seen j (omega arith))
