-- ===== src/W5500/Recorder.antt =====
-- The network recorder of w5500_custom_spi.cpp: a ring of 1200 bins of 100 ms, and the talkers. The
-- time of the call, `now_us`, is an argument; the spin lock makes each call one step.
use esphome_gps_pps_ntp_serv.Base.{
  ℕ, zero, suc, ◌+◌, ◌*◌, ◌%◌, ◌==◌, Bool, true, false, not, ◌&&◌, ◌||◌, ltb, leb, Option, none,
  some, List, [], ◌∷◌, get_or, set, take, drop, replicate, u32, sub32, if◌then◌else◌,
}
use esphome_gps_pps_ntp_serv.TalkerTable
use esphome_gps_pps_ntp_serv.TalkerTable.{Table, Talker, empty_table}
use esphome_gps_pps_ntp_serv.TxPatch.{byte_at, word_at}
use esphome_gps_pps_ntp_serv.W5500.Classify.{classify_frame, class_index, frame_class_count}

-- `W5500NetBin`; a `start_us` of 0 means that the bin was never used.
pub record NetBin : Type 0 where
  pub start_us : ℕ  -- uint32_t
  pub tx : List ℕ  -- uint16_t[9]
  pub rx : List ℕ  -- uint16_t[9]
  pub tx_bytes : ℕ  -- uint32_t
  pub rx_bytes : ℕ  -- uint32_t
  pub lock_wait_max_us : ℕ  -- uint32_t
  pub cr_retried : ℕ  -- uint16_t

abbrev pub net_bin_us : ℕ
net_bin_us = 100000

-- Shut, since a list of this length is long to compute with.
unfoldable pub net_bins : ℕ
net_bins = 1200

-- A bin after `memset`, with its start.
abbrev pub fresh_bin : ℕ → NetBin
fresh_bin start_us = record {
  start_us = start_us;
  tx = replicate frame_class_count 0;
  rx = replicate frame_class_count 0;
  tx_bytes = 0;
  rx_bytes = 0;
  lock_wait_max_us = 0;
  cr_retried = 0;
}

-- `g_net_bins`, `g_net_cur` and `g_net_cur_start_us`.
pub record BinRing : Type 0 where
  pub bins : List NetBin
  pub cur : ℕ  -- uint16_t
  pub cur_start_us : ℕ  -- uint32_t

abbrev pub current : BinRing → NetBin
current r = get_or r.bins r.cur (fresh_bin 0)

-- `calloc`, and the ring after it.
unfoldable pub empty_ring : BinRing
empty_ring = record { bins = replicate net_bins (fresh_bin 0); cur = 0; cur_start_us = 0 }

-- The ring is cleared and starts anew at `now_us`.
unfoldable pub restart : ℕ → BinRing
restart now_us = record {
  bins = set (replicate net_bins (fresh_bin 0)) 0 (fresh_bin now_us);
  cur = 0;
  cur_start_us = now_us;
}

-- The body of the `while` loop of `net_bin_now`.
unfoldable pub roll : BinRing → BinRing
roll r =
    let cur = (r.cur + 1) % net_bins in
    let start = u32 (r.cur_start_us + net_bin_us) in
    record { bins = set r.bins cur (fresh_bin start); cur = cur; cur_start_us = start }

-- The loop, on fuel.
unfoldable pub roll_to : ℕ → BinRing → ℕ → BinRing
roll_to zero r now_us = r
roll_to (suc fuel) r now_us =
    let rest = roll_to fuel (roll r) now_us in
    if ltb (sub32 now_us r.cur_start_us) net_bin_us then r else rest

-- The ring with its current bin at `now_us`; the loop runs less than `net_bins` times.
unfoldable pub net_bin_now : BinRing → ℕ → BinRing
net_bin_now r now_us =
    if r.cur_start_us == 0 || leb (net_bin_us * net_bins) (sub32 now_us r.cur_start_us)
    then restart now_us
    else roll_to net_bins r now_us

-- A store to the current bin.
abbrev pub put_current : BinRing → NetBin → BinRing
put_current r b = record r { bins = set r.bins r.cur b }

-- `ring` is `none` until the bins are allocated.
pub record Recorder : Type 0 where
  pub enabled : Bool
  pub ring : Option BinRing
  pub talkers : Table

-- `if (count < UINT16_MAX) count++`
abbrev pub count_up : ℕ → ℕ
count_up n = if ltb n 65535 then n + 1 else n

abbrev pub count_class : List ℕ → ℕ → List ℕ
count_class counts i = set counts i (count_up (get_or counts i 0))

-- The sum over the classes.
unfoldable pub frames_total : List ℕ → ℕ
frames_total [] = 0
frames_total (n ∷ counts) = n + frames_total counts

abbrev pub bin_frame : Bool → Option (List ℕ) → ℕ → NetBin → NetBin
bin_frame true f len b = record b {
  tx = count_class b.tx (class_index (classify_frame f len));
  tx_bytes = u32 (b.tx_bytes + len);
}
bin_frame false f len b = record b {
  rx = count_class b.rx (class_index (classify_frame f len));
  rx_bytes = u32 (b.rx_bytes + len);
}

-- The talker table after a received frame: only a broadcast or multicast one counts.
unfoldable pub note_talker : Table → NetBin → Bool → Option (List ℕ) → ℕ → ℕ → Table
note_talker t b tx none len now_us = t
note_talker t b tx (some f) len now_us =
    if not tx && (leb 14 len && not (byte_at f 0 % 2 == 0))
    then TalkerTable.note t (take 6 (drop 6 f)) (take 6 f) (word_at f 12) len now_us
        (ltb 30 (frames_total b.rx))
    else t

-- The recorder does nothing while it is off or has no bins; otherwise `f` gives the ring and the
-- talkers, from the ring at `now_us`.
abbrev pub when_on : Recorder → ℕ → (BinRing → Recorder → Recorder) → Recorder
when_on s now_us f = elim s.ring [
  | none ↦ s
  | some r ↦ if s.enabled then f (net_bin_now r now_us) s else s
]

unfoldable pub net_record_frame : Recorder → Bool → Option (List ℕ) → ℕ → ℕ → Recorder
net_record_frame s tx f len now_us = when_on s now_us λ r s.
    let b = bin_frame tx f len (current r) in
    record s { ring = some (put_current r b); talkers = note_talker s.talkers b tx f len now_us }

unfoldable pub net_record_lock_wait : Recorder → ℕ → ℕ → Recorder
net_record_lock_wait s wait_us now_us = when_on s now_us λ r s.
    let b = current r in
    record s {
      ring = some (
          put_current r (
            if ltb b.lock_wait_max_us wait_us then record b { lock_wait_max_us = wait_us } else b));
    }

unfoldable pub net_record_cr_retry : Recorder → ℕ → Recorder
net_record_cr_retry s now_us = when_on s now_us λ r s.
    let b = current r in
    record s { ring = some (put_current r (record b { cr_retried = count_up b.cr_retried })) }

-- The last step of `w5500_set_net_recorder`, once the bins are there if they could be had.
abbrev pub switch_recorder : Recorder → Bool → Recorder
switch_recorder s on =
    if on
    then record s { enabled = true; talkers = TalkerTable.clear s.talkers }
    else record s { enabled = false }

-- `w5500_set_net_recorder`; `allocated` is whether one of the two `heap_caps_calloc` calls succeeds.
unfoldable pub set_net_recorder : Recorder → Bool → Bool → Recorder
set_net_recorder s enable allocated = elim s.ring [
  | some r ↦ switch_recorder s enable
  | none ↦
      if enable
      then if allocated then switch_recorder (record s { ring = some empty_ring }) true else s
      else record s { enabled = false }
]

-- `w5500_net_bin`: bin `i`, oldest first; `none` is the result false.
unfoldable pub net_bin : Recorder → ℕ → Option NetBin
net_bin s i = elim s.ring [
  | none ↦ none
  | some r ↦
      let b = get_or r.bins ((r.cur + 1 + i) % net_bins) (fresh_bin 0) in
      if leb net_bins i || b.start_us == 0 then none else some b
]

unfoldable pub initial_recorder : Recorder
initial_recorder = record { enabled = false; ring = none; talkers = empty_table }

-- `w5500_talker`
unfoldable pub talker : Recorder → ℕ → Option Talker
talker s i = TalkerTable.get s.talkers i
