-- ===== src/TalkerTable/Tests.antt =====
-- The talker table on concrete frames.
use esphome_gps_pps_ntp_serv.Base.{ℕ, ◌≡◌, refl, true, false, some, List, [], ◌∷◌, arith, replicate}
use esphome_gps_pps_ntp_serv.TalkerTable.{
  Table, empty_table, is_for, find, find_from, first_unused, choose_slot, count_frame, count_at,
  make_room, note,
}
use esphome_gps_pps_ntp_serv.TalkerTable.Lookup.{find_entry, counted_in}
use esphome_gps_pps_ntp_serv.TalkerTable.Note.{find_entry-note}
use esphome_gps_pps_ntp_serv.TalkerTable.Keys.{IsValid, empty-IsValid, note-IsValid}

abbrev mac_a : List ℕ
mac_a = 2 ∷ 0 ∷ 0 ∷ 0 ∷ 0 ∷ 1 ∷ []

abbrev mac_b : List ℕ
mac_b = 2 ∷ 0 ∷ 0 ∷ 0 ∷ 0 ∷ 2 ∷ []

abbrev broadcast : List ℕ
broadcast = replicate 6 255

abbrev one_talker : Table
one_talker = note empty_table mac_a broadcast 0x0806 60 1000 false

note-IsValid_example : IsValid one_talker
note-IsValid_example = note-IsValid empty_table mac_a broadcast 0x0806 60 1000 false empty-IsValid

find_entry-note_example :
    find_entry (note empty_table mac_a broadcast 0x0806 60 1000 true) mac_a 0x0806
    ≡ some (
        count_frame
          (counted_in (find_entry empty_table mac_a 0x0806) mac_a broadcast 0x0806 1000)
          60
          1000
          true)
find_entry-note_example =
    find_entry-note empty_table mac_a broadcast 0x0806 60 1000 true (omega arith)

second_slot : find (note one_talker mac_b broadcast 0x0806 60 2000 false) mac_b 0x0806 ≡ some 1
unfolding note find find_from is_for make_room choose_slot first_unused count_at
second_slot = refl
