-- ===== src/HookRing.antt =====
-- components/ntp_server/hook_ring.h: the ring of "who sent this and when was it seen" records. The
-- information kept is a parameter with its time member `t`; a lookup works on what its reader saw of
-- each slot, so that a writer at work beside it can be modelled.
pub mod Lookup
pub mod Record
pub mod Seqlock
mod Tests
use esphome_gps_pps_ntp_serv.Base.{
  ℕ, ◌+◌, ◌/◌, ◌%◌, ◌==◌, Bool, true, false, not, ◌||◌, Option, none, some, List, [], ◌∷◌, ◌++◌,
  map, get_or, set, ℤ, pos, ◌-ℤ◌, ltb_ℤ, u8, u32, if◌then◌else◌,
}
use esphome_gps_pps_ntp_serv.TalkerTable.{same_bytes}

abbrev pub max_age_us : ℤ
max_age_us = pos 1000000

abbrev pub ring_size : ℕ
ring_size = 8

-- The bytes of a word as `memcpy` reads them, lowest first.
abbrev pub bytes_2 : ℕ → List ℕ
bytes_2 w = w % 256 ∷ w / 256 % 256 ∷ []

abbrev pub bytes_4 : ℕ → List ℕ
bytes_4 w = w % 256 ∷ w / 256 % 256 ∷ w / 65536 % 256 ∷ w / 16777216 % 256 ∷ []

-- The key of 14 bytes: 8 of the transmit field, 4 of the address, 2 of the port.
unfoldable pub build_key : List ℕ → ℕ → ℕ → List ℕ
build_key tx src_ip src_port = tx ++ (bytes_4 src_ip ++ bytes_2 src_port)

-- `Entry`
pub record Slot (Info : Type 0) : Type 0 where
  pub seq : ℕ  -- uint32_t
  pub key : List ℕ
  pub info : Info

pub record HookRing (Info : Type 0) : Type 0 where
  pub ring : List (Slot Info)
  pub next : ℕ  -- uint8_t

-- What a reader saw of a slot: the sequence number before the copy, the copy, the number after it.
pub record Observed (Info : Type 0) : Type 0 where
  pub before : ℕ
  pub key : List ℕ
  pub info : Info
  pub after : ℕ

-- A slot that no write touches while it is read.
abbrev pub observe : {Info : Type 0} → Slot Info → Observed Info
observe s = record { before = s.seq; key = s.key; info = s.info; after = s.seq }

module _ {Info : Type 0} (blank : Info) where
  abbrev pub blank_slot : Slot Info
  blank_slot = record {
    seq = 0;
    key = 0 ∷ 0 ∷ 0 ∷ 0 ∷ 0 ∷ 0 ∷ 0 ∷ 0 ∷ 0 ∷ 0 ∷ 0 ∷ 0 ∷ 0 ∷ 0 ∷ [];
    info = blank;
  }

  -- `record`, run to its end.
  unfoldable pub record_hit : HookRing Info → List ℕ → ℕ → ℕ → Info → HookRing Info
  record_hit r tx src_ip src_port info =
      let slot = get_or r.ring r.next blank_slot in
      record {
        ring =
            set r.ring r.next (record {
              seq = u32 (slot.seq + 2);
              key = build_key tx src_ip src_port;
              info = info;
            });
        next = u8 ((r.next + 1) % ring_size);
      }

module _ {Info : Type 0} (time : Info → ℤ) where
  -- One round of the loop in `lookup`: is what was seen of this slot the best so far?
  unfoldable pub consider : List ℕ → ℤ → Option Info → Observed Info → Option Info
  consider key now_us best o =
      if o.before % 2 == 1
      then best
      else if not (o.before == o.after)
      then best
      else if not (same_bytes o.key key)
      then best
      else if ltb_ℤ max_age_us (now_us -ℤ time o.info)
      then best
      else elim best [
        | none ↦ some o.info
        | some b ↦ if ltb_ℤ (time b) (time o.info) then some o.info else some b
      ]

  unfoldable pub lookup_from : List ℕ → ℤ → Option Info → List (Observed Info) → Option Info
  lookup_from key now_us best [] = best
  lookup_from key now_us best (o ∷ os) = lookup_from key now_us (consider key now_us best o) os

  unfoldable pub lookup : List ℕ → ℕ → ℕ → ℤ → List (Observed Info) → Option Info
  lookup tx src_ip src_port now_us seen =
      lookup_from (build_key tx src_ip src_port) now_us none seen
