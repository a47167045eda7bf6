-- ===== src/NtpServer/Diag/Ring.antt =====
-- The ring of diagnostic records of ntp_server.cpp: the switch, the writer, and the dump of the REQ
-- command, with no write under way (the seqlock of a slot is that of the hook's ring).
use esphome_gps_pps_ntp_serv.Base.{
  ℕ, zero, suc, ◌+◌, ◌%◌, ◌==◌, ◌&&◌, not, Bool, true, false, Option, none, some, List, [], ◌∷◌,
  get_or, set, replicate, pos, eqb_ℤ, u32, if◌then◌else◌,
}
use esphome_gps_pps_ntp_serv.W5500.Recorder.{Recorder, set_net_recorder}
use esphome_gps_pps_ntp_serv.NtpServer.Diag.{DiagRecord, no_record}

abbrev pub diag_ring_size : ℕ
diag_ring_size = 1024

pub record DiagSlot : Type 0 where
  pub seq : ℕ
  pub rec : DiagRecord

abbrev pub fresh_slot : DiagSlot
fresh_slot = record { seq = 0; rec = no_record }

-- The fields of `NTPServer` for the diagnostics, and the recorder that they switch.
pub record Diagnostics : Type 0 where
  pub diag_ring : Option (List DiagSlot)
  pub diag_next : ℕ
  pub diagnostics : Bool
  pub recorder : Recorder

-- The ring after the allocation; `memory` is whether one of the two `heap_caps_calloc` calls succeeds.
abbrev pub ensure_ring : Option (List DiagSlot) → Bool → Option (List DiagSlot)
ensure_ring (some ring) memory = some ring
ensure_ring none memory = if memory then some (replicate diag_ring_size fresh_slot) else none

-- `set_diagnostics`; `bins` is whether the recorder's own allocation succeeds.
unfoldable pub set_diagnostics : Diagnostics → Bool → Bool → Bool → Diagnostics
set_diagnostics s true memory bins = elim (ensure_ring s.diag_ring memory) [
  | none ↦ s
  | some ring ↦ record s {
    diag_ring = some ring;
    recorder = set_net_recorder s.recorder true bins;
    diagnostics = true;
  }
]
set_diagnostics s false memory bins = record s {
  recorder = set_net_recorder s.recorder false bins;
  diagnostics = false;
}

-- `diag_record_` on a ring.
abbrev pub put_slot : List DiagSlot → ℕ → DiagRecord → List DiagSlot
put_slot ring next d =
    set ring next (record { seq = u32 (DiagSlot.seq (get_or ring next fresh_slot) + 2); rec = d })

unfoldable pub diag_record : Diagnostics → DiagRecord → Diagnostics
diag_record s d = elim s.diag_ring [
  | none ↦ s
  | some ring ↦
      if s.diagnostics
      then record s {
        diag_ring = some (put_slot ring s.diag_next d);
        diag_next = (s.diag_next + 1) % diag_ring_size;
      }
      else s
]

-- A slot's line of the dump: none where a write is under way, or nothing was recorded.
abbrev pub is_listed : DiagSlot → Bool
is_listed slot = slot.seq % 2 == 0 && not (eqb_ℤ (slot.rec.t2_us) (pos 0))

-- The loop of the REQ command: `k` slots from `start + i` on.
unfoldable pub list_slots : List DiagSlot → ℕ → ℕ → ℕ → List DiagRecord
list_slots ring start i zero = []
list_slots ring start i (suc k) =
    let slot = get_or ring ((start + i) % diag_ring_size) fresh_slot in
    let rest = list_slots ring start (suc i) k in if is_listed slot then slot.rec ∷ rest else rest

unfoldable pub list_requests : Diagnostics → List DiagRecord
list_requests s = elim s.diag_ring [
  | none ↦ []
  | some ring ↦ list_slots ring s.diag_next 0 diag_ring_size
]
