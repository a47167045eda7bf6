-- ===== src/TalkerTable/Keys.antt =====
-- No key of the talker table has two entries, and the table keeps its 32 slots.
use esphome_gps_pps_ntp_serv.Base.{
  ℕ, zero, suc, ◌+◌, ◌≤◌, ◌<◌, ◌≡◌, ◌⊎◌, inl, inr, refl, ap, ◌∙◌, map, replicate, Bool, none, List,
  [], ◌∷◌, arith, length, length-set, get_or, set, if◌then◌else◌,
}
use esphome_gps_pps_ntp_serv.TalkerTable.{Entry, blank, Table, empty_table, is_for, note, clear}
use esphome_gps_pps_ntp_serv.TalkerTable.Lookup.{find_entry, is_for_unique, slot_for, note_write}
use esphome_gps_pps_ntp_serv.TalkerTable.Note.{noted, slot_lem}

abbrev hit : Entry → List ℕ → ℕ → ℕ
hit e src et = if is_for e src et then 1 else 0

-- How many entries serve a key.
abbrev pub entries_for : Table → List ℕ → ℕ → ℕ
entries_for [] src et = 0
entries_for (e ∷ es) src et = (if is_for e src et then 1 else 0) + entries_for es src et

pub record IsValid (t : Table) : Type 0 where
  pub slots : length t ≡ 32
  pub unique : (src : List ℕ) (et : ℕ) → entries_for t src et ≤ 1

entries_for-set :
    (t : Table) (i : ℕ) (v : Entry) (src : List ℕ) (et : ℕ)
    → i < length t
    → entries_for (set t i v) src et + hit (get_or t i blank) src et
      ≡ entries_for t src et + hit v src et
entries_for-set [] i v src et h = absurd (omega arith)
entries_for-set (e ∷ es) zero v src et h = omega arith
entries_for-set (e ∷ es) (suc i) v src et h = omega (arith, entries_for-set es i v src et)

entries_for-none :
    (t : Table) (src : List ℕ) (et : ℕ) → find_entry t src et ≡ none → entries_for t src et ≡ 0
entries_for-none [] src et h = refl
entries_for-none (e ∷ es) src et h = ground (arith, entries_for-none es src et)

-- Writing a counted entry for a key: over the entry of that key, or anywhere if the key has none.
module _ (t : Table) (v : IsValid t) (src : List ℕ) (et i : ℕ) (e : Entry)
    (inside : i < length t) where
  set-IsValid :
      (hit e src et ≡ 1)
      → (hit (get_or t i blank) src et ≡ 1) ⊎ (entries_for t src et ≡ 0)
      → IsValid (set t i e)
  set-IsValid he old = record { slots = length-set t i e ∙ v.slots; unique = unique }
    where
      unique : (src' : List ℕ) (et' : ℕ) → entries_for (set t i e) src' et' ≤ 1
      unique src' et' =
          let w = entries_for-set t i e src' et' inside in
          let u = v.unique src' et' in
          ground (
            arith,
            is_for_unique e src src' et et',
            is_for_unique (get_or t i blank) src src' et et',
          )

blank-entries_for : (n : ℕ) (src : List ℕ) (et : ℕ) → entries_for (replicate n blank) src et ≡ 0
unfolding is_for
blank-entries_for zero src et = refl
blank-entries_for (suc n) src et = omega (arith, blank-entries_for n src et)

pub empty-IsValid : IsValid empty_table
empty-IsValid = record {
  slots = refl;
  unique = λ src et. omega (arith, blank-entries_for 32 src et);
}

-- Noting a frame, whatever it is, keeps the table at 32 slots with no two entries for one key.
pub note-IsValid :
    (t : Table) (src dst : List ℕ) (et len now : ℕ) (burst : Bool)
    → IsValid t
    → IsValid (note t src dst et len now burst)
note-IsValid t src dst et len now burst v =
    let room : 0 < length t = omega (arith, v.slots) in
    let facts = slot_lem t src dst et len now burst room in
    let written : Entry = noted t src dst et len now burst in
    let old : (hit (get_or t (slot_for t src et) blank) src et ≡ 1) ⊎ (entries_for t src et ≡ 0) =
      elim facts.2 [
        | inl same ↦ inl (rw same)
        | inr (new, nothing) ↦ inr (entries_for-none t src et nothing)
      ] in
    rw (note_write t src dst et len now burst room)
      (set-IsValid t v src et (slot_for t src et) written facts.0 (rw facts.1) old)

-- Clearing a table of 32 slots gives the empty table.
pub clear_lem : (t : Table) → length t ≡ 32 → clear t ≡ empty_table
unfolding clear
clear_lem t h = blanks t ∙ ap (λ n. replicate n blank) h
  where
    blanks : (t : Table) → map (λ e. blank) t ≡ replicate (length t) blank
    blanks [] = refl
    blanks (e ∷ es) = ap (λ r. blank ∷ r) (blanks es)
