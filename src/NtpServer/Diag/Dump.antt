-- ===== src/NtpServer/Diag/Dump.antt =====
-- The REQ dump of ntp_server.cpp: the ring of diagnostic records as a queue of the last 1024.
use esphome_gps_pps_ntp_serv.Base.{
  ℕ, zero, suc, ◌+◌, ◌-◌, ◌%◌, ◌≡◌, refl, sym, ap, Bool, true, none, some, List, [], ◌∷◌, ◌++◌,
  length, get_or, drop, replicate, u32, arith, length-replicate, drop-append_le, drop-drop_one,
}
use mathlib.Core.Path.{◌∙◌}
use mathlib.Core.List.{append_assoc, append-nil}
use esphome_gps_pps_ntp_serv.NtpServer.Diag.{DiagRecord, no_record}
use esphome_gps_pps_ntp_serv.NtpServer.Diag.Ring.{
  DiagSlot, Diagnostics, diag_ring_size, fresh_slot, put_slot, list_requests, diag_record,
  set_diagnostics,
}
use esphome_gps_pps_ntp_serv.NtpServer.Diag.Window.{
  window, listed, recs, IsRing, length-window, rotate-set, list_slots-listed, recs-append,
  recs-drop, put_slot-IsRing,
}

-- The records of the ring, oldest first.
abbrev pub kept : Diagnostics → List DiagRecord
kept s = elim s.diag_ring [ none ↦ [] | some ring ↦ recs (window ring s.diag_next) ]

abbrev pub IsOn : Diagnostics → Type 0
IsOn s =
    (s.diagnostics ≡ true)
    × ((ring : List DiagSlot) × ((s.diag_ring ≡ some ring) × IsRing ring s.diag_next))

diag_record-on :
    (s : Diagnostics) (d : DiagRecord) (ring : List DiagSlot)
    → s.diagnostics ≡ true
    → s.diag_ring ≡ some ring
    → diag_record s d ≡ record s {
      diag_ring = some (put_slot ring s.diag_next d);
      diag_next = (s.diag_next + 1) % diag_ring_size;
    }
unfolding diag_record
diag_record-on s d ring on e = rw (e, on)

pub diag_record-IsOn : (s : Diagnostics) (d : DiagRecord) → IsOn s → IsOn (diag_record s d)
diag_record-IsOn s d (on, (ring, (e, h))) =
    rw (diag_record-on s d ring on e)
      (on, (put_slot ring s.diag_next d, (refl, put_slot-IsRing ring s.diag_next d h)))

kept-diag_record :
    (s : Diagnostics) (d : DiagRecord) → IsOn s → kept (diag_record s d) ≡ drop 1 (kept s) ++ d ∷ []
kept-diag_record s d (on, (ring, (e, h))) =
    let old : List DiagSlot = window ring s.diag_next in
    let slot : DiagSlot = record {
      seq = u32 (DiagSlot.seq (get_or ring s.diag_next fresh_slot) + 2);
      rec = d;
    } in
    rw (diag_record-on s d ring on e, e)
      (ap recs (rotate-set ring s.diag_next slot h.full h.in_range)
        ∙ recs-append (drop 1 old) (slot ∷ [])
        ∙ ap (λ ds. ds ++ d ∷ []) (recs-drop 1 old))

-- The records of a sequence of requests, in order.
abbrev pub record_all : Diagnostics → List DiagRecord → Diagnostics
record_all s [] = s
record_all s (d ∷ ds) = record_all (diag_record s d) ds

length-recs : (ss : List DiagSlot) → length (recs ss) ≡ length ss
length-recs [] = refl
length-recs (s ∷ ss) = ap suc (length-recs ss)

length-kept : (s : Diagnostics) → IsOn s → length (kept s) ≡ diag_ring_size
length-kept s (on, (ring, (e, h))) =
    rw e (length-recs (window ring s.diag_next) ∙ length-window ring s.diag_next h)

record_all-kept :
    (s : Diagnostics) (ds : List DiagRecord)
    → IsOn s
    → IsOn (record_all s ds) × (kept (record_all s ds) ≡ drop (length ds) (kept s ++ ds))
record_all-kept s [] h = (h, sym (append-nil (kept s)))
record_all-kept s (d ∷ ds) h =
    let r = record_all-kept (diag_record s d) ds (diag_record-IsOn s d h) in
    (
      r.0,
      r.1
          ∙ ap (λ k. drop (length ds) (k ++ ds)) (kept-diag_record s d h)
          ∙ ap (drop (length ds)) (
              append_assoc (drop 1 (kept s)) (d ∷ []) ds
              ∙ sym (drop-append_le 1 (kept s) (d ∷ ds) (omega (arith, length-kept s h))))
          ∙ drop-drop_one (length ds) (kept s ++ d ∷ ds),
    )

list_requests-kept : (s : Diagnostics) → IsOn s → list_requests s ≡ listed (kept s)
unfolding list_requests
list_requests-kept s (on, (ring, (e, h))) =
    rw e (list_slots-listed ring s.diag_next 0 diag_ring_size h refl)

listed_fresh :
    (n k : ℕ) (ds : List DiagRecord)
    → listed (drop n (replicate k no_record ++ ds)) ≡ listed (drop (n - k) ds)
listed_fresh n zero ds = ap (λ m. listed (drop m ds)) (omega arith)
listed_fresh zero (suc k) ds = listed_fresh zero k ds ∙ ap (λ m. listed (drop m ds)) (omega arith)
listed_fresh (suc n) (suc k) ds = listed_fresh n k ds ∙ ap (λ m. listed (drop m ds)) (omega arith)

-- The ring that is allocated.
settled_fresh : (k i : ℕ) → DiagSlot.seq (get_or (replicate k fresh_slot) i fresh_slot) % 2 ≡ 0
settled_fresh zero i = refl
settled_fresh (suc k) zero = refl
settled_fresh (suc k) (suc i) = settled_fresh k i

fresh-IsRing : IsRing (replicate diag_ring_size fresh_slot) 0
fresh-IsRing = record {
  full = length-replicate diag_ring_size fresh_slot;
  in_range = omega arith;
  settled = settled_fresh diag_ring_size;
}

-- With diagnostics on and a well-formed ring, the REQ dump after a sequence of requests lists those of
-- the last 1024 records whose T2 is not 0, those kept from before included, oldest first.
pub record_all-listed :
    (s : Diagnostics) (ds : List DiagRecord)
    → IsOn s
    → list_requests (record_all s ds) ≡ listed (drop (length ds) (kept s ++ ds))
record_all-listed s ds h =
    let r = record_all-kept s ds h in list_requests-kept (record_all s ds) (r.0) ∙ ap listed (r.1)

pub set_diagnostics-IsOn :
    (s : Diagnostics) (bins : Bool)
    → s.diag_ring ≡ none
    → s.diag_next ≡ 0
    → IsOn (set_diagnostics s true true bins)
unfolding set_diagnostics
set_diagnostics-IsOn s bins e z =
    rw (e, z) (refl, (replicate diag_ring_size fresh_slot, (refl, fresh-IsRing)))

recs_fresh : (k : ℕ) → recs (replicate k fresh_slot ++ []) ≡ replicate k no_record
recs_fresh zero = refl
recs_fresh (suc k) = ap (◌∷◌ no_record) (recs_fresh k)

kept_first :
    (s : Diagnostics) (bins : Bool)
    → s.diag_ring ≡ none
    → s.diag_next ≡ 0
    → kept (set_diagnostics s true true bins) ≡ replicate diag_ring_size no_record
unfolding set_diagnostics
kept_first s bins e z = rw (e, z) (recs_fresh diag_ring_size)

-- Where diagnostics are switched on for the first time and the ring's memory is had, the REQ dump
-- after a sequence of requests lists the records of the last 1024 of them whose T2 is not 0, in the
-- order of their recording, and nothing else.
pub first_requests-listed :
    (s : Diagnostics) (bins : Bool) (ds : List DiagRecord)
    → s.diag_ring ≡ none
    → s.diag_next ≡ 0
    → list_requests (record_all (set_diagnostics s true true bins) ds)
      ≡ listed (drop (length ds - diag_ring_size) ds)
first_requests-listed s bins ds e z =
    let on : Diagnostics = set_diagnostics s true true bins in
    record_all-listed on ds (set_diagnostics-IsOn s bins e z)
    ∙ ap (λ k. listed (drop (length ds) (k ++ ds))) (kept_first s bins e z)
    ∙ listed_fresh (length ds) diag_ring_size ds
