-- ===== src/TalkerTable/Note.antt =====
-- What `note` of the talker table does to the entry of its key and to the others.
use esphome_gps_pps_ntp_serv.Base.{
  ℕ, ◌-◌, ◌<◌, ◌≡◌, ◌≢◌, ◌⊎◌, inl, inr, Bool, true, false, none, some, Option-cases, List, arith,
  length, get_or,
}
use esphome_gps_pps_ntp_serv.TalkerTable.{
  Entry, blank, Table, is_for, find_from, find, choose_slot, new_entry, count_frame, note,
}
use esphome_gps_pps_ntp_serv.TalkerTable.Victim.{choose_slot_lem}
use esphome_gps_pps_ntp_serv.TalkerTable.Lookup.{
  find_entry, find_from-some, find_from-none, find_from-is_for, is_for_unique, new_entry-is_for,
  count_frame-is_for, counted_in, slot_for, note_write, find_entry-set_new, find_entry-set_known,
  find_entry-set_ne,
}

abbrev pub noted : Table → List ℕ → List ℕ → ℕ → ℕ → ℕ → Bool → Entry
noted t src dst et len now burst =
    count_frame (counted_in (find_entry t src et) src dst et now) len now burst

-- The slot that is written lies inside the table; what is written serves the key; and what it
-- replaces served the key too, or the key had no entry.
pub slot_lem :
    (t : Table) (src dst : List ℕ) (et len now : ℕ) (burst : Bool)
    → 0 < length t
    → (slot_for t src et < length t)
      × (is_for (noted t src dst et len now burst) src et ≡ true)
      × ((is_for (get_or t (slot_for t src et) blank) src et ≡ true)
          ⊎ (find t src et ≡ none) × (find_entry t src et ≡ none))
unfolding find
slot_lem t src dst et len now burst room = elim (Option-cases (find_from 0 t src et)) [
  | inl new ↦
      let fresh : Entry = new_entry src dst et now in
      ground (
        arith,
        find_from-none 0 t src et,
        (choose_slot_lem t room).0,
        count_frame-is_for fresh len now burst src et,
        new_entry-is_for src dst et now,
      )
  | inr (k, old) ↦
      let z : k - 0 ≡ k = omega arith in
      let found = rw z at (find_from-some 0 t src et k old) in
      let serves = rw z at (find_from-is_for 0 t src et k old) in
      ground (arith, count_frame-is_for (get_or t k blank) len now burst src et)
]

-- After a frame is noted its key is found, with the frame counted in the entry that it had, or in a
-- new entry if it had none; this holds of every table with a slot.
pub find_entry-note :
    (t : Table) (src dst : List ℕ) (et len now : ℕ) (burst : Bool)
    → 0 < length t
    → find_entry (note t src dst et len now burst) src et
      ≡ some (count_frame (counted_in (find_entry t src et) src dst et now) len now burst)
unfolding find
find_entry-note t src dst et len now burst room =
    rw (note_write t src dst et len now burst room) (elim (Option-cases (find_from 0 t src et)) [
      | inl new ↦
          let facts = slot_lem t src dst et len now burst room in
          find_entry-set_new t (slot_for t src et) (noted t src dst et len now burst) src et facts.0
            facts.1 (find_from-none 0 t src et new)
      | inr (k, old) ↦
          let z : k - 0 ≡ k = omega arith in
          let facts = slot_lem t src dst et len now burst room in
          ground (
            arith,
            rw z at
                (find_entry-set_known 0 t (noted t src dst et len now burst) src et k old facts.1),
          )
    ])

-- Some slot is free.
abbrev pub HasFree : Table → Type 0
HasFree t = (j : ℕ) × (j < length t) × ((get_or t j blank).used ≡ false)

unused-is_for : (e : Entry) (src : List ℕ) (et : ℕ) → e.used ≡ false → is_for e src et ≡ false
unfolding is_for
unused-is_for e src et h = rw h

-- With a free slot the one chosen serves no key.
free-is_for :
    (t : Table) (src : List ℕ) (et : ℕ)
    → 0 < length t
    → HasFree t
    → is_for (get_or t (choose_slot t) blank) src et ≡ false
free-is_for t src et room (j, lt, free) = elim (choose_slot_lem t room).1 [
  | inl unused ↦ unused-is_for (get_or t (choose_slot t) blank) src et unused
  | inr full ↦ cc ((full j lt).0, free)
]

slot_for-none :
    (t : Table) (src : List ℕ) (et : ℕ) → find t src et ≡ none → slot_for t src et ≡ choose_slot t
slot_for-none t src et h = ground arith

is_for_other :
    (e : Entry) (src src' : List ℕ) (et et' : ℕ)
    → (src ≢ src') ⊎ (et ≢ et')
    → is_for e src et ≡ true
    → is_for e src' et' ≡ false
is_for_other e src src' et et' ne h = ground (arith, is_for_unique e src src' et et')

-- Noting a frame of a key changes nothing for any other key, if the key is in the table or a slot is
-- free; with neither, exactly one slot is given up, and a key that it did not serve is unchanged.
pub find_entry-note_ne :
    (t : Table) (src dst : List ℕ) (et len now : ℕ) (burst : Bool) (src' : List ℕ) (et' : ℕ)
    → 0 < length t
    → (src ≢ src') ⊎ (et ≢ et')
    → (find t src et ≢ none)
      ⊎ HasFree t
      ⊎ (is_for (get_or t (choose_slot t) blank) src' et' ≡ false)
    → find_entry (note t src dst et len now burst) src' et' ≡ find_entry t src' et'
find_entry-note_ne t src dst et len now burst src' et' room ne safe =
    let facts = slot_lem t src dst et len now burst room in
    let victim : Entry = get_or t (choose_slot t) blank in
    let old : is_for (get_or t (slot_for t src et) blank) src' et' ≡ false = elim facts.2 [
      | inl same ↦ is_for_other (get_or t (slot_for t src et) blank) src src' et et' ne same
      | inr (new, nothing) ↦ elim safe [
        | inl known ↦ absurd (known new)
        | inr (inl free) ↦ rw (slot_for-none t src et new) (free-is_for t src' et' room free)
        | inr (inr unserved) ↦ rw (slot_for-none t src et new) unserved
      ]
    ] in
    let written : Entry = noted t src dst et len now burst in
    rw (note_write t src dst et len now burst room) (
      find_entry-set_ne t (slot_for t src et) written src' et' old
        (is_for_other written src src' et et' ne facts.1))
