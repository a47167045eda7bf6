-- ===== src/TalkerTable.antt =====
-- components/ethernet/w5500_talker_table.h: the table of 32 talkers, keyed on source MAC and
-- EtherType. A MAC is the list of its six bytes, and a table is the list of its entries.
pub mod Keys
pub mod Lookup
pub mod Note
pub mod Victim
mod Tests
use esphome_gps_pps_ntp_serv.Base.{
  ℕ, zero, suc, ◌+◌, ◌==◌, Bool, true, false, not, ◌&&◌, ◌||◌, ltb, leb, Option, none, some, List,
  [], ◌∷◌, map, get_or, set, drop, replicate, u32, if◌then◌else◌,
}

pub record Entry : Type 0 where
  pub used : Bool
  pub src_mac : List ℕ
  pub ethertype : ℕ  -- uint16_t
  pub first_dst_mac : List ℕ
  pub frames : ℕ  -- uint32_t, as the rest
  pub burst_frames : ℕ
  pub bytes : ℕ
  pub first_us : ℕ
  pub last_us : ℕ

abbrev pub zero_mac : List ℕ
zero_mac = 0 ∷ 0 ∷ 0 ∷ 0 ∷ 0 ∷ 0 ∷ []

-- `Entry{}`
abbrev pub blank : Entry
blank = record {
  used = false;
  src_mac = zero_mac;
  ethertype = 0;
  first_dst_mac = zero_mac;
  frames = 0;
  burst_frames = 0;
  bytes = 0;
  first_us = 0;
  last_us = 0;
}

abbrev pub Table : Type 0
Table = List Entry

abbrev pub size : ℕ
size = 32

abbrev pub empty_table : Table
empty_table = replicate size blank

-- `memcmp(a, b, 6) == 0`
abbrev pub same_bytes : List ℕ → List ℕ → Bool
same_bytes [] [] = true
same_bytes (a ∷ xs) (b ∷ ys) = a == b && same_bytes xs ys
same_bytes _ _ = false

unfoldable pub is_for : Entry → List ℕ → ℕ → Bool
is_for e src ethertype = e.used && (e.ethertype == ethertype && same_bytes e.src_mac src)

-- The index of the first entry for a key, counted from `i`; -1 is `none`.
unfoldable pub find_from : ℕ → Table → List ℕ → ℕ → Option ℕ
find_from i [] src ethertype = none
find_from i (e ∷ es) src ethertype =
    if is_for e src ethertype then some i else find_from (i + 1) es src ethertype

unfoldable pub find : Table → List ℕ → ℕ → Option ℕ
find t src ethertype = find_from 0 t src ethertype

unfoldable pub first_unused : ℕ → Table → Option ℕ
first_unused i [] = none
first_unused i (e ∷ es) = if not e.used then some i else first_unused (i + 1) es

-- Does `e` make way before `best`?
unfoldable pub less_active : Entry → Entry → Bool
less_active e best =
    ltb e.frames best.frames || (e.frames == best.frames && ltb e.last_us best.last_us)

-- The scan for the entry to evict, with `idx` and the entry there so far, at index `i`.
unfoldable pub least_active : ℕ → Entry → ℕ → Table → ℕ
least_active idx best i [] = idx
least_active idx best i (e ∷ es) =
    least_active (if less_active e best then i else idx) (if less_active e best then e else best)
      (i + 1) es

unfoldable pub choose_slot : Table → ℕ
choose_slot t = elim (first_unused 0 t) [
  | some i ↦ i
  | none ↦ least_active 0 (get_or t 0 blank) 1 (drop 1 t)
]

abbrev pub new_entry : List ℕ → List ℕ → ℕ → ℕ → Entry
new_entry src dst ethertype now_us = record blank {
  used = true;
  src_mac = src;
  ethertype = ethertype;
  first_dst_mac = dst;
  first_us = now_us;
  last_us = now_us;
}

unfoldable pub make_room : Table → List ℕ → List ℕ → ℕ → ℕ → Table × ℕ
make_room t src dst ethertype now_us =
    (set t (choose_slot t) (new_entry src dst ethertype now_us), choose_slot t)

abbrev pub count_frame : Entry → ℕ → ℕ → Bool → Entry
count_frame e len now_us burst = record e {
  frames = u32 (e.frames + 1);
  burst_frames = if burst then u32 (e.burst_frames + 1) else e.burst_frames;
  bytes = u32 (e.bytes + len);
  last_us = now_us;
}

unfoldable pub count_at : Table → ℕ → ℕ → ℕ → Bool → Table
count_at t idx len now_us burst = set t idx (count_frame (get_or t idx blank) len now_us burst)

unfoldable pub note : Table → List ℕ → List ℕ → ℕ → ℕ → ℕ → Bool → Table
note t src dst ethertype len now_us burst = elim (find t src ethertype) [
  | some idx ↦ count_at t idx len now_us burst
  | none ↦ let (t', idx) = make_room t src dst ethertype now_us in count_at t' idx len now_us burst
]

unfoldable pub clear : Table → Table
clear t = map (λ e. blank) t

-- `W5500Talker`: an entry as it is copied out. The source's index is an `int`; a negative one is
-- out of range, as is one past the end.
pub record Talker : Type 0 where
  pub src_mac : List ℕ
  pub ethertype : ℕ
  pub first_dst_mac : List ℕ
  pub frames : ℕ
  pub burst_frames : ℕ
  pub bytes : ℕ
  pub first_us : ℕ
  pub last_us : ℕ

unfoldable pub get : Table → ℕ → Option Talker
get t i =
    let e = get_or t i blank in
    if leb size i || not e.used
    then none
    else some (record {
      src_mac = e.src_mac;
      ethertype = e.ethertype;
      first_dst_mac = e.first_dst_mac;
      frames = e.frames;
      burst_frames = e.burst_frames;
      bytes = e.bytes;
      first_us = e.first_us;
      last_us = e.last_us;
    })
