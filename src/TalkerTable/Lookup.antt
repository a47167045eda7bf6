-- ===== src/TalkerTable/Lookup.antt =====
-- The talker table as a map from keys to entries.
use esphome_gps_pps_ntp_serv.Base.{
  ℕ, zero, suc, ◌+◌, ◌-◌, ◌≤◌, ◌<◌, ◌≡◌, inl, inr, refl, ap, Bool, true, false, Option, none, some,
  Option-cases, List, [], ◌∷◌, arith, length, get_or, set, if◌then◌else◌,
}
use esphome_gps_pps_ntp_serv.TalkerTable.{
  Entry, blank, Table, same_bytes, is_for, find_from, find, choose_slot, new_entry, make_room,
  count_frame, count_at, note,
}
use esphome_gps_pps_ntp_serv.TalkerTable.Victim.{choose_slot_lem}

-- The entry that a search for a key comes to.
abbrev pub find_entry : Table → List ℕ → ℕ → Option Entry
find_entry [] src et = none
find_entry (e ∷ es) src et = if is_for e src et then some e else find_entry es src et

pub same_bytes-eq : (a b : List ℕ) → same_bytes a b ≡ true → a ≡ b
same_bytes-eq [] [] h = refl
same_bytes-eq [] (b ∷ ys) h = cc
same_bytes-eq (a ∷ xs) [] h = cc
same_bytes-eq (a ∷ xs) (b ∷ ys) h = ground (arith, same_bytes-eq xs ys)

pub same_bytes_refl : (a : List ℕ) → same_bytes a a ≡ true
same_bytes_refl [] = refl
same_bytes_refl (a ∷ xs) = ground (arith, same_bytes_refl xs)

-- Two keys that one entry serves are the same.
pub is_for_unique :
    (e : Entry) (src src' : List ℕ) (et et' : ℕ)
    → is_for e src et ≡ true
    → is_for e src' et' ≡ true
    → (src ≡ src') × (et ≡ et')
unfolding is_for
is_for_unique e src src' et et' h h' =
    ground (arith, same_bytes-eq e.src_mac src, same_bytes-eq e.src_mac src')

-- `find` and `find_entry` agree: the index found is that of the entry found.
pub find_from-some :
    (i : ℕ) (t : Table) (src : List ℕ) (et k : ℕ)
    → find_from i t src et ≡ some k
    → (i ≤ k) × (k - i < length t) × (find_entry t src et ≡ some (get_or t (k - i) blank))
unfolding find_from
find_from-some i [] src et k h = cc
find_from-some i (e ∷ es) src et k h = ground (arith, find_from-some (i + 1) es src et k)

pub find_from-none :
    (i : ℕ) (t : Table) (src : List ℕ) (et : ℕ)
    → find_from i t src et ≡ none
    → find_entry t src et ≡ none
unfolding find_from
find_from-none i [] src et h = refl
find_from-none i (e ∷ es) src et h = ground (arith, find_from-none (i + 1) es src et)

-- Writing an entry for the key where none was, or over the first one, makes it the one found.
pub find_entry-set_new :
    (t : Table) (i : ℕ) (v : Entry) (src : List ℕ) (et : ℕ)
    → i < length t
    → is_for v src et ≡ true
    → find_entry t src et ≡ none
    → find_entry (set t i v) src et ≡ some v
find_entry-set_new [] i v src et lt h n = absurd (omega arith)
find_entry-set_new (e ∷ es) zero v src et lt h n = rw h
find_entry-set_new (e ∷ es) (suc i) v src et lt h n =
    ground (arith, find_entry-set_new es i v src et)

-- A write changes nothing for a key that neither the old entry there nor the new one serves.
pub find_entry-set_ne :
    (t : Table) (i : ℕ) (v : Entry) (src : List ℕ) (et : ℕ)
    → is_for (get_or t i blank) src et ≡ false
    → is_for v src et ≡ false
    → find_entry (set t i v) src et ≡ find_entry t src et
find_entry-set_ne [] i v src et h h' = refl
find_entry-set_ne (e ∷ es) zero v src et h h' = rw (h, h')
find_entry-set_ne (e ∷ es) (suc i) v src et h h' = ground (arith, find_entry-set_ne es i v src et)

pub find_entry-set_known :
    (i : ℕ) (t : Table) (v : Entry) (src : List ℕ) (et k : ℕ)
    → find_from i t src et ≡ some k
    → is_for v src et ≡ true
    → find_entry (set t (k - i) v) src et ≡ some v
unfolding find_from
find_entry-set_known i [] v src et k h hv = cc
find_entry-set_known i (e ∷ es) v src et k h hv =
    ground (arith, find_from-some (i + 1) es src et k, find_entry-set_known (i + 1) es v src et k)

pub find_from-is_for :
    (i : ℕ) (t : Table) (src : List ℕ) (et k : ℕ)
    → find_from i t src et ≡ some k
    → is_for (get_or t (k - i) blank) src et ≡ true
unfolding find_from
find_from-is_for i [] src et k h = cc
find_from-is_for i (e ∷ es) src et k h =
    ground (arith, find_from-some (i + 1) es src et k, find_from-is_for (i + 1) es src et k)

pub count_frame-is_for :
    (e : Entry) (len now : ℕ) (burst : Bool) (src : List ℕ) (et : ℕ)
    → is_for (count_frame e len now burst) src et ≡ is_for e src et
unfolding is_for
count_frame-is_for e len now burst src et = refl

pub new_entry-is_for :
    (src dst : List ℕ) (et now : ℕ) → is_for (new_entry src dst et now) src et ≡ true
unfolding is_for
new_entry-is_for src dst et now = ground (arith, same_bytes_refl src)

get_or-set_self : (t : Table) (i : ℕ) (v : Entry) → i < length t → get_or (set t i v) i blank ≡ v
get_or-set_self [] i v h = absurd (omega arith)
get_or-set_self (e ∷ es) zero v h = refl
get_or-set_self (e ∷ es) (suc i) v h = get_or-set_self es i v (omega arith)

set-set : (t : Table) (i : ℕ) (v w : Entry) → set (set t i v) i w ≡ set t i w
set-set [] i v w = refl
set-set (e ∷ es) zero v w = refl
set-set (e ∷ es) (suc i) v w = ap (λ r. e ∷ r) (set-set es i v w)

-- The entry that a frame of a key is counted in: the one found for it, or a new one.
abbrev pub counted_in : Option Entry → List ℕ → List ℕ → ℕ → ℕ → Entry
counted_in (some e) src dst et now = e
counted_in none src dst et now = new_entry src dst et now

-- `note` writes one slot: the one found for the key, or the one chosen to make room.
abbrev pub slot_for : Table → List ℕ → ℕ → ℕ
slot_for t src et = elim (find t src et) [ some k ↦ k | none ↦ choose_slot t ]

pub note_write :
    (t : Table) (src dst : List ℕ) (et len now : ℕ) (burst : Bool)
    → 0 < length t
    → note t src dst et len now burst
      ≡ set t
          (slot_for t src et)
          (count_frame (counted_in (find_entry t src et) src dst et now) len now burst)
unfolding note count_at make_room find
note_write t src dst et len now burst pos = elim (Option-cases (find_from 0 t src et)) [
  | inl new ↦ ground (
    arith,
    find_from-none 0 t src et,
    (choose_slot_lem t pos).0,
    get_or-set_self t (choose_slot t) (new_entry src dst et now),
    set-set t (choose_slot t) (new_entry src dst et now)
        (count_frame (new_entry src dst et now) len now burst),
  )
  | inr (k, old) ↦
      let z : k - 0 ≡ k = omega arith in ground (arith, rw z at (find_from-some 0 t src et k old))
]
