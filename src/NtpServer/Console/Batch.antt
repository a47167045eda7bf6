-- ===== src/NtpServer/Console/Batch.antt =====
-- `emit` and `flush` of `diag_serve_` in ntp_server.cpp: lines are gathered in a batch of 1400 bytes,
-- which goes out as one datagram.
use esphome_gps_pps_ntp_serv.Base.{
  ℕ, ◌+◌, ◌==◌, ◌||◌, ltb, leb, List, [], ◌∷◌, ◌++◌, length, take, if◌then◌else◌,
}

abbrev pub batch_size : ℕ
batch_size = 1400

-- `sizeof(line)`
abbrev pub line_size : ℕ
line_size = 240

-- `batch`, its first `used` bytes, and the datagrams that went out, in order.
pub record Batch : Type 0 where
  pub bytes : List ℕ
  pub datagrams : List (List ℕ)

abbrev pub empty_batch : Batch
empty_batch = record { bytes = []; datagrams = [] }

unfoldable pub flush : Batch → Batch
flush b =
    if ltb 0 (length b.bytes)
    then record { bytes = []; datagrams = b.datagrams ++ b.bytes ∷ [] }
    else b

-- `emit` of a buffer and a length.
unfoldable pub emit : Batch → List ℕ → ℕ → Batch
emit b line len =
    let room = if ltb batch_size (length b.bytes + len) then flush b else b in
    if len == 0 || leb batch_size len
    then b
    else record room { bytes = room.bytes ++ take len line }

-- The memory from `line` on after `snprintf(line, sizeof(line), ...)` of a text: what fits, its end, and
-- then what was there before.
abbrev pub printed : List ℕ → List ℕ → List ℕ
printed text stale = take 239 text ++ 0 ∷ stale

-- Lines that are printed and emitted one after another.
unfoldable pub emit_all : List ℕ → Batch → List (List ℕ) → Batch
emit_all stale b [] = b
emit_all stale b (text ∷ texts) = emit_all stale (emit b (printed text stale) (length text)) texts
