-- ===== src/W5500/Counts.antt =====
-- What the entry points of the recorder in w5500_custom_spi.cpp keep and count.
use esphome_gps_pps_ntp_serv.Base.{
  ℕ, ◌<◌, ◌≡◌, refl, ap, Bool, true, false, ltb, Option, none, some, List, arith, if◌then◌else◌,
  u32_mod, length-set, get_or-set,
}
use mathlib.Core.Path.{◌∙◌}
use esphome_gps_pps_ntp_serv.TalkerTable.{Table}
use esphome_gps_pps_ntp_serv.W5500.Recorder.{
  NetBin, BinRing, Recorder, net_bins, fresh_bin, current, put_current, bin_frame, note_talker,
  count_up, net_bin_now, when_on, empty_ring, net_record_frame, net_record_lock_wait,
  net_record_cr_retry, set_net_recorder,
}
use esphome_gps_pps_ntp_serv.W5500.Sliding.{IsRing, net_bin_now-Slides}

-- The recorder is on only with bins, and they form a ring.
abbrev pub IsRecorder : Recorder → Type 0
IsRecorder s = elim s.ring [ none ↦ s.enabled ≡ false | some r ↦ IsRing r ]

-- A call of an entry point, at a time.
pub data Call : Type 0 where
  frame : Bool → Option (List ℕ) → ℕ → Call
  lock_wait : ℕ → Call
  cr_retry : Call
  switch : Bool → Bool → Call

unfoldable pub perform : Recorder → Call → ℕ → Recorder
perform s (frame tx f len) now_us = net_record_frame s tx f len now_us
perform s (lock_wait wait_us) now_us = net_record_lock_wait s wait_us now_us
perform s cr_retry now_us = net_record_cr_retry s now_us
perform s (switch enable allocated) now_us = set_net_recorder s enable allocated

-- A store to the current bin that keeps its start keeps the ring.
put_current-IsRing :
    (r : BinRing) (b : NetBin)
    → IsRing r
    → b.start_us ≡ (current r).start_us
    → IsRing (put_current r b)
put_current-IsRing r b h e = record {
  full = length-set r.bins r.cur b ∙ h.full;
  in_range = h.in_range;
  word = h.word;
  start =
      ap NetBin.start_us
        (get_or-set r.bins r.cur b (fresh_bin 0) (omega (arith, h.full, h.in_range)))
      ∙ e
      ∙ h.start;
}

empty_ring-IsRing : IsRing empty_ring
unfolding empty_ring net_bins
empty_ring-IsRing = record { full = refl; in_range = omega arith; word = omega arith; start = refl }

-- An entry point that stores to the current bin, at its time, and keeps the bin's start.
store : (NetBin → NetBin) → (NetBin → Table → Table) → BinRing → Recorder → Recorder
store b t r s = record s {
  ring = some (put_current r (b (current r)));
  talkers = t (current r) s.talkers;
}

when_on-fields :
    (on : Bool) (ring : Option BinRing) (talkers : Table) (now_us : ℕ) (b : NetBin → NetBin)
    (t : NetBin → Table → Table)
    → ((n : NetBin) → (b n).start_us ≡ n.start_us)
    → now_us < u32_mod
    → IsRecorder (record { enabled = on; ring = ring; talkers = talkers })
    → IsRecorder
        (when_on (record { enabled = on; ring = ring; talkers = talkers }) now_us (store b t))
unfolding store
when_on-fields on none talkers now_us b t keeps hn h = h
when_on-fields false (some r) talkers now_us b t keeps hn h = h
when_on-fields true (some r) talkers now_us b t keeps hn h =
    let r' : BinRing = net_bin_now r now_us in
    put_current-IsRing r' (b (current r')) (net_bin_now-Slides r now_us h hn).0 (keeps (current r'))

when_on-IsRecorder :
    (s : Recorder) (now_us : ℕ) (b : NetBin → NetBin) (t : NetBin → Table → Table)
    → ((n : NetBin) → (b n).start_us ≡ n.start_us)
    → now_us < u32_mod
    → IsRecorder s
    → IsRecorder (when_on s now_us (store b t))
when_on-IsRecorder s = when_on-fields s.enabled s.ring s.talkers

bin_frame-start :
    (tx : Bool) (f : Option (List ℕ)) (len : ℕ) (b : NetBin)
    → (bin_frame tx f len b).start_us ≡ b.start_us
bin_frame-start true f len b = refl
bin_frame-start false f len b = refl

-- A longer wait for the lock.
raise_wait : ℕ → NetBin → NetBin
raise_wait wait_us b =
    if ltb b.lock_wait_max_us wait_us then record b { lock_wait_max_us = wait_us } else b

raise_wait-start : (wait_us : ℕ) (b : NetBin) → (raise_wait wait_us b).start_us ≡ b.start_us
unfolding raise_wait
raise_wait-start wait_us b = ground arith

switch-fields :
    (on : Bool) (ring : Option BinRing) (talkers : Table) (enable allocated : Bool)
    → IsRecorder (record { enabled = on; ring = ring; talkers = talkers })
    → IsRecorder (
        set_net_recorder (record { enabled = on; ring = ring; talkers = talkers }) enable allocated)
unfolding set_net_recorder
switch-fields on none talkers true true h = empty_ring-IsRing
switch-fields on none talkers true false h = h
switch-fields on none talkers false allocated h = refl
switch-fields on (some r) talkers true allocated h = h
switch-fields on (some r) talkers false allocated h = h

switch-IsRecorder :
    (s : Recorder) (enable allocated : Bool)
    → IsRecorder s
    → IsRecorder (set_net_recorder s enable allocated)
switch-IsRecorder s = switch-fields s.enabled s.ring s.talkers

-- Any call at a time of 32 bits leaves a well-formed recorder well formed: on only with bins, 1200 of
-- them, with the current one among them and its start as recorded.
pub perform-IsRecorder :
    (s : Recorder) (call : Call) (now_us : ℕ)
    → now_us < u32_mod
    → IsRecorder s
    → IsRecorder (perform s call now_us)
unfolding perform net_record_frame net_record_lock_wait net_record_cr_retry raise_wait store
perform-IsRecorder s (frame tx f len) now_us hn h =
    when_on-IsRecorder s now_us (bin_frame tx f len)
      (λ b t. note_talker t (bin_frame tx f len b) tx f len now_us) (bin_frame-start tx f len) hn h
perform-IsRecorder s (lock_wait wait_us) now_us hn h =
    when_on-IsRecorder s now_us (raise_wait wait_us) (λ b t. t) (raise_wait-start wait_us) hn h
perform-IsRecorder s cr_retry now_us hn h =
    when_on-IsRecorder s now_us (λ b. record b { cr_retried = count_up b.cr_retried }) (λ b t. t)
      (λ b. refl) hn h
perform-IsRecorder s (switch enable allocated) now_us hn h = switch-IsRecorder s enable allocated h
