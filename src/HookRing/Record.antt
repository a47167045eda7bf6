-- ===== src/HookRing/Record.antt =====
-- Recording in the ring of hook_ring.h, and finding what was recorded.
use mathlib.Core.List.{Memᴰ}
use esphome_gps_pps_ntp_serv.Base.{
  ℕ, zero, suc, ◌+◌, ◌%◌, ◌<◌, ◌≡◌, ◌⊎◌, inl, inr, refl, ap, ◌∙◌, some, List, [], ◌∷◌, map, length,
  length-set, arith, ℤ, ◌≤ℤ◌, ◌-ℤ◌, get_or, set, u32,
}
use esphome_gps_pps_ntp_serv.HookRing.{
  Slot, HookRing, observe, build_key, blank_slot, record_hit, lookup, max_age_us,
}
use esphome_gps_pps_ntp_serv.HookRing.Lookup.{NotAfter, lookup_newest}

-- A ring with its 8 slots, an index inside it, and no write under way.
pub record IsQuiet {Info : Type 0} (r : HookRing Info) : Type 0 where
  pub slots : length r.ring ≡ 8
  pub index : r.next < 8
  pub even : (s : Slot Info) → Memᴰ s r.ring → s.seq % 2 ≡ 0

set-Memᴰ : {A : Type 0} (l : List A) (i : ℕ) (v : A) → i < length l → Memᴰ v (set l i v)
set-Memᴰ [] i v h = absurd (omega arith)
set-Memᴰ (x ∷ l) zero v h = Memᴰ.head refl
set-Memᴰ (x ∷ l) (suc i) v h = Memᴰ.tail (set-Memᴰ l i v (omega arith))

Memᴰ-set : {A : Type 0} (l : List A) (i : ℕ) (v a : A) → Memᴰ a (set l i v) → (a ≡ v) ⊎ Memᴰ a l
Memᴰ-set [] i v a m = inr m
Memᴰ-set (x ∷ l) zero v a (Memᴰ.head e) = inl e
Memᴰ-set (x ∷ l) zero v a (Memᴰ.tail m) = inr (Memᴰ.tail m)
Memᴰ-set (x ∷ l) (suc i) v a (Memᴰ.head e) = inr (Memᴰ.head e)
Memᴰ-set (x ∷ l) (suc i) v a (Memᴰ.tail m) = elim (Memᴰ-set l i v a m) [
  | inl e ↦ inl e
  | inr m' ↦ inr (Memᴰ.tail m')
]

get_or-Memᴰ : {A : Type 0} (l : List A) (i : ℕ) (d : A) → i < length l → Memᴰ (get_or l i d) l
get_or-Memᴰ [] i d h = absurd (omega arith)
get_or-Memᴰ (x ∷ l) zero d h = Memᴰ.head refl
get_or-Memᴰ (x ∷ l) (suc i) d h = Memᴰ.tail (get_or-Memᴰ l i d (omega arith))

Memᴰ-map : {A B : Type 0} (f : A → B) (l : List A) (a : A) → Memᴰ a l → Memᴰ (f a) (map f l)
Memᴰ-map f [] a m = elim m [ ]
Memᴰ-map f (x ∷ l) a (Memᴰ.head e) = Memᴰ.head (ap f e)
Memᴰ-map f (x ∷ l) a (Memᴰ.tail m) = Memᴰ.tail (Memᴰ-map f l a m)

module _ {Info : Type 0} (blank : Info) (r : HookRing Info) (quiet : IsQuiet r) where
  slot_even : (get_or r.ring r.next (blank_slot blank)).seq % 2 ≡ 0
  slot_even =
      quiet.even (get_or r.ring r.next (blank_slot blank))
        (get_or-Memᴰ r.ring r.next (blank_slot blank) (omega (arith, quiet.slots, quiet.index)))

  -- Recording leaves a ring of 8 slots with no write under way.
  pub record_hit-IsQuiet :
      (tx : List ℕ) (src_ip src_port : ℕ) (info : Info)
      → IsQuiet (record_hit blank r tx src_ip src_port info)
  unfolding record_hit
  record_hit-IsQuiet tx src_ip src_port info =
      let old : Slot Info = get_or r.ring r.next (blank_slot blank) in
      let new : Slot Info = record {
        seq = u32 (old.seq + 2);
        key = build_key tx src_ip src_port;
        info = info;
      } in
      record {
        slots = length-set r.ring r.next new ∙ quiet.slots;
        index = omega arith;
        even = λ s m. elim (Memᴰ-set r.ring r.next new s m) [
          | inl e ↦ rw e (omega (arith, slot_even))
          | inr m' ↦ quiet.even s m'
        ];
      }

  -- What was just recorded is found: a lookup with the same three fields, at a time when the record
  -- is at most 1 s old, returns information that is no older than the recorded.
  pub lookup-record_hit :
      (time : Info → ℤ) (tx : List ℕ) (src_ip src_port : ℕ) (info : Info) (now : ℤ)
      → now -ℤ time info ≤ℤ max_age_us
      → NotAfter time (some info) (
          lookup time tx src_ip src_port now
            (map observe (record_hit blank r tx src_ip src_port info).ring))
  unfolding record_hit
  lookup-record_hit time tx src_ip src_port info now fresh =
      let old : Slot Info = get_or r.ring r.next (blank_slot blank) in
      let new : Slot Info = record {
        seq = u32 (old.seq + 2);
        key = build_key tx src_ip src_port;
        info = info;
      } in
      let inside : r.next < length r.ring = omega (arith, quiet.slots, quiet.index) in
      let ring : List (Slot Info) = set r.ring r.next new in
      let found = lookup_newest time tx src_ip src_port now (map observe ring) in
      found.1 (observe new) (Memᴰ-map observe ring new (set-Memᴰ r.ring r.next new inside))
        (record { even = omega (arith, slot_even); steady = refl; same_key = refl; fresh = fresh })
