-- ===== src/HookRing/Tests.antt =====
-- The hook ring on a concrete request; the recorded information is just its time here.
use mathlib.Core.List.{Memᴰ}
use esphome_gps_pps_ntp_serv.Base.{
  ℕ, zero, suc, ◌%◌, ◌≡◌, refl, ap, arith, List, [], ◌∷◌, map, replicate, some, ℤ, pos, ◌-ℤ◌, ◌≤ℤ◌,
}
use esphome_gps_pps_ntp_serv.HookRing.{Slot, HookRing, observe, blank_slot, record_hit, lookup}
use esphome_gps_pps_ntp_serv.HookRing.Lookup.{NotAfter}
use esphome_gps_pps_ntp_serv.HookRing.Record.{IsQuiet, lookup-record_hit}
use esphome_gps_pps_ntp_serv.HookRing.Seqlock.{here, read_not_torn}

abbrev empty : HookRing ℤ
empty = record { ring = replicate 8 (blank_slot (pos 0)); next = 0 }

Memᴰ-replicate : (n : ℕ) (a b : Slot ℤ) → Memᴰ b (replicate n a) → b ≡ a
Memᴰ-replicate zero a b m = elim m [ ]
Memᴰ-replicate (suc n) a b (Memᴰ.head e) = e
Memᴰ-replicate (suc n) a b (Memᴰ.tail m) = Memᴰ-replicate n a b m

empty-IsQuiet : IsQuiet empty
empty-IsQuiet = record {
  slots = refl;
  index = omega arith;
  even = λ s m. ap (λ (x : Slot ℤ). x.seq % 2) (Memᴰ-replicate 8 (blank_slot (pos 0)) s m);
}

abbrev itself : ℤ → ℤ
itself t = t

abbrev request_tx : List ℕ
request_tx = 1 ∷ 2 ∷ 3 ∷ 4 ∷ 5 ∷ 6 ∷ 7 ∷ 8 ∷ []

recent : pos 5400 -ℤ pos 5000 ≤ℤ pos 1000000
unfolding ◌-ℤ◌
recent = omega arith

lookup-record_hit_example : NotAfter itself (some (pos 5000)) (
    lookup itself request_tx 167772161 49152
      (pos 5400)
      (map observe (record_hit (pos 0) empty request_tx 167772161 49152 (pos 5000)).ring))
lookup-record_hit_example =
    lookup-record_hit (pos 0) empty empty-IsQuiet itself request_tx 167772161 49152 (pos 5000)
      (pos 5400) recent

abbrev blank : Slot ℤ
blank = blank_slot (pos 0)

read_not_torn_example : (blank.key ≡ blank.key) × (blank.info ≡ blank.info)
read_not_torn_example =
    read_not_torn {s = blank} {t = blank} {u = blank} {n = 0} {k = 0} (omega arith) refl here here
      (omega arith) refl
