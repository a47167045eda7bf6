-- ===== src/W5500/Sliding.antt =====
-- The recorder's ring of bins as the window of the last 1200 bins that a reader of `w5500_net_bin`
-- sees, oldest first.
use esphome_gps_pps_ntp_serv.Base.{
  ℕ, zero, suc, ◌+◌, ◌-◌, ◌*◌, ◌/◌, ◌%◌, ◌≤◌, ◌<◌, ◌≡◌, ◌⊎◌, inl, inr, refl, sym, ap, Bool, true,
  false, none, some, List, [], ◌∷◌, ◌++◌, length, get_or, set, take, drop, arith, u32, u32_mod,
  sub32, ltb, leb, ◌==◌, length-set, length-append, drop-set, take-set, drop-drop, drop_all,
  take_all, get_or-set, drop-append_le, drop-drop_one, get_or-append, get_or-drop, length-drop,
  length-take, get_or-take, if◌then◌else◌, ◌||◌, lt→ltb, tests, if_elim,
}
use mathlib.Core.List.{append_assoc, append-nil}
use mathlib.Core.Path.{◌∙◌}
use esphome_gps_pps_ntp_serv.W5500.Recorder.{
  NetBin, BinRing, Recorder, net_bins, net_bin_us, fresh_bin, current, restart, roll, roll_to,
  net_bin_now, net_bin,
}

-- Oldest bin first.
abbrev pub window : BinRing → List NetBin
window r = drop (suc r.cur) r.bins ++ take (suc r.cur) r.bins

pub record IsRing (r : BinRing) : Type 0 where
  pub full : length r.bins ≡ net_bins
  pub in_range : r.cur < net_bins
  pub word : r.cur_start_us < u32_mod
  pub start : (current r).start_us ≡ r.cur_start_us

pub restart-IsRing : (now_us : ℕ) → now_us < u32_mod → IsRing (restart now_us)
unfolding restart net_bins
restart-IsRing now_us h = record { full = refl; in_range = omega arith; word = h; start = refl }

-- The rotation of a list by a write to the cell after `c`.
rotate :
    (xs : List NetBin) (c : ℕ) (v : NetBin)
    → suc c < length xs
    → drop (suc (suc c)) (set xs (suc c) v) ++ take (suc (suc c)) (set xs (suc c) v)
      ≡ drop 1 (drop (suc c) xs ++ take (suc c) xs) ++ v ∷ []
rotate xs c v h = rw (
  drop-set (suc c) xs v,
  take-set (suc c) xs v h,
  drop-drop (suc c) xs (take (suc c) xs) h,
  append_assoc (drop (suc (suc c)) xs) (take (suc c) xs) (v ∷ []),
)

-- .. and, at the end of the list, to the first.
rotate_end :
    (xs : List NetBin) (v : NetBin)
    → 0 < length xs
    → drop 1 (set xs 0 v) ++ take 1 (set xs 0 v)
      ≡ drop 1 (drop (length xs) xs ++ take (length xs) xs) ++ v ∷ []
rotate_end [] v h = elim h [ ]
rotate_end (x ∷ xs) v h = rw (drop_all xs, take_all xs)

next_cur :
    (c : ℕ)
    → c < net_bins
    → (((c + 1) % net_bins ≡ suc c) × (suc c < net_bins))
      ⊎ (((c + 1) % net_bins ≡ 0) × (suc c ≡ net_bins))
unfolding net_bins
next_cur c h = ground arith

pub roll-IsRing : (r : BinRing) → IsRing r → IsRing (roll r)
unfolding roll net_bins
roll-IsRing r h =
    let c : ℕ = (r.cur + 1) % net_bins in
    let v : NetBin = fresh_bin (u32 (r.cur_start_us + net_bin_us)) in
    let below : c < length r.bins = omega (arith, h.full) in
    record {
      full = length-set r.bins c v ∙ h.full;
      in_range = omega arith;
      word = omega arith;
      start = ap NetBin.start_us (get_or-set r.bins c v (fresh_bin 0) below);
    }

pub window-roll :
    (r : BinRing)
    → IsRing r
    → window (roll r) ≡ drop 1 (window r) ++ fresh_bin (u32 (r.cur_start_us + net_bin_us)) ∷ []
unfolding roll
window-roll r h =
    let v : NetBin = fresh_bin (u32 (r.cur_start_us + net_bin_us)) in
    elim (next_cur r.cur h.in_range) [
      | inl next ↦ rw (next.0) (rotate r.bins r.cur v (rw h.full (next.1)))
      | inr last ↦
          rw (last.0, last.1, sym h.full) (rotate_end r.bins v (omega (arith, h.full, last.1)))
    ]

-- The empty bins of `k` rolls from a bin that starts at `start_us`.
abbrev pub fresh_bins : ℕ → ℕ → List NetBin
fresh_bins start_us zero = []
fresh_bins start_us (suc k) =
    fresh_bin (u32 (start_us + net_bin_us)) ∷ fresh_bins (u32 (start_us + net_bin_us)) k

pub length-window : (r : BinRing) → IsRing r → length (window r) ≡ net_bins
length-window r h = omega (
  arith,
  h.full,
  h.in_range,
  length-append (drop (suc r.cur) r.bins) (take (suc r.cur) r.bins),
  length-drop (suc r.cur) r.bins,
  length-take (suc r.cur) r.bins,
)

-- How far a ring is after `k` rolls.
record Slid (r r' : BinRing) (k now_us : ℕ) : Type 0 where
  ring : IsRing r'
  covers : sub32 now_us r'.cur_start_us < net_bin_us
  start : r'.cur_start_us ≡ u32 (r.cur_start_us + k * net_bin_us)
  slid : window r' ≡ drop k (window r) ++ fresh_bins r.cur_start_us k

Slid-step :
    (r r' : BinRing) (k now_us : ℕ)
    → IsRing r
    → k < net_bins
    → Slid (roll r) r' k now_us
    → Slid r r' (suc k) now_us
unfolding roll
Slid-step r r' k now_us h below s =
    let next : ℕ = u32 (r.cur_start_us + net_bin_us) in
    let rest : List NetBin = fresh_bins next k in
    let v : NetBin = fresh_bin next in
    let short : k ≤ length (drop 1 (window r)) =
      omega (arith, length-drop 1 (window r), length-window r h) in
    record {
      ring = s.ring;
      covers = s.covers;
      start = omega (arith, s.start);
      slid =
          s.slid
          ∙ ap (λ w. drop k w ++ rest) (window-roll r h)
          ∙ ap (λ w. w ++ rest) (drop-append_le k (drop 1 (window r)) (v ∷ []) short)
          ∙ append_assoc (drop k (drop 1 (window r))) (v ∷ []) rest
          ∙ ap (λ w. w ++ (v ∷ rest)) (drop-drop_one k (window r));
    }

Slid-zero :
    (r : BinRing) (now_us : ℕ)
    → IsRing r
    → sub32 now_us r.cur_start_us < net_bin_us
    → Slid r r 0 now_us
Slid-zero r now_us h hi = record {
  ring = h;
  covers = hi;
  start = omega (arith, h.word);
  slid = sym (append-nil (window r));
}

roll_elapsed :
    (r : BinRing) (now_us : ℕ)
    → r.cur_start_us < u32_mod
    → now_us < u32_mod
    → net_bin_us ≤ sub32 now_us r.cur_start_us
    → sub32 now_us (roll r).cur_start_us ≡ sub32 now_us r.cur_start_us - net_bin_us
unfolding roll
roll_elapsed r now_us hr hn lo = omega arith

roll_to-Slid :
    (fuel k : ℕ) (r : BinRing) (now_us : ℕ)
    → IsRing r
    → now_us < u32_mod
    → k ≤ fuel
    → fuel ≤ net_bins
    → k * net_bin_us ≤ sub32 now_us r.cur_start_us
    → sub32 now_us r.cur_start_us < k * net_bin_us + net_bin_us
    → Slid r (roll_to fuel r now_us) k now_us
unfolding roll_to
roll_to-Slid zero zero r now_us h hn hk hf lo hi = Slid-zero r now_us h (omega arith)
roll_to-Slid zero (suc k) r now_us h hn hk hf lo hi = elim hk [ ]
roll_to-Slid (suc fuel) zero r now_us h hn hk hf lo hi =
    rw (lt→ltb (sub32 now_us r.cur_start_us) net_bin_us (omega arith))
      (Slid-zero r now_us h (omega arith))
roll_to-Slid (suc fuel) (suc k) r now_us h hn hk hf lo hi =
    let less = roll_elapsed r now_us (h.word) hn (omega arith) in
    let ih =
      roll_to-Slid fuel k (roll r) now_us (roll-IsRing r h) hn (omega arith) (omega arith)
        (omega (arith, less)) (omega (arith, less)) in
    if_elim (λ r'. Slid r r' (suc k) now_us) (ltb (sub32 now_us r.cur_start_us) net_bin_us)
      (λ t. absurd (omega (tests, t)))
      λ _. Slid-step r (roll_to fuel (roll r) now_us) k now_us h (omega arith) ih

-- What a step to the time `now_us` does to the ring `r`.
abbrev pub Slides : BinRing → ℕ → BinRing → Type 0
Slides r now_us r' =
    let elapsed = sub32 now_us r.cur_start_us in
    let k = elapsed / net_bin_us in
    IsRing r'
    × (sub32 now_us r'.cur_start_us < net_bin_us)
    × ((0 < r.cur_start_us)
          × (elapsed < net_bin_us * net_bins)
          × (r'.cur_start_us ≡ u32 (r.cur_start_us + k * net_bin_us))
          × (window r' ≡ drop k (window r) ++ fresh_bins r.cur_start_us k)
        ⊎ ((r.cur_start_us ≡ 0) ⊎ (net_bin_us * net_bins ≤ elapsed)) × (r' ≡ restart now_us))

restart-Slides :
    (r : BinRing) (now_us : ℕ)
    → now_us < u32_mod
    → (r.cur_start_us ≡ 0) ⊎ (net_bin_us * net_bins ≤ sub32 now_us r.cur_start_us)
    → Slides r now_us (restart now_us)
unfolding restart
restart-Slides r now_us hn why = (restart-IsRing now_us hn, omega arith, inr (why, refl))

-- Where the current bin has a start other than 0 and began less than 120 s ago by the wrapping
-- clock, `net_bin_now` slides the window of 1200 bins by as many bins as have elapsed since, each of
-- them empty and 100 ms after the one before, and its current bin is then the one that covers the
-- time. Otherwise it starts anew with one bin at that time. Both ways the ring stays well formed.
pub net_bin_now-Slides :
    (r : BinRing) (now_us : ℕ)
    → IsRing r
    → now_us < u32_mod
    → Slides r now_us (net_bin_now r now_us)
unfolding net_bin_now
net_bin_now-Slides r now_us h hn =
    let elapsed : ℕ = sub32 now_us r.cur_start_us in
    let again : Bool = r.cur_start_us == 0 || leb (net_bin_us * net_bins) elapsed in
    if_elim (Slides r now_us) again (λ t. restart-Slides r now_us hn (why_again t))
      λ f.
        let hold = why_not f in
        let s =
          roll_to-Slid net_bins (elapsed / net_bin_us) r now_us h hn (omega (arith, hold.1))
            (omega arith) (omega arith) (omega arith) in
        (s.ring, s.covers, inl (hold.0, hold.1, s.start, s.slid))
  where
    why_again :
        (r.cur_start_us == 0 || leb (net_bin_us * net_bins) (sub32 now_us r.cur_start_us)) ≡ true
        → (r.cur_start_us ≡ 0) ⊎ (net_bin_us * net_bins ≤ sub32 now_us r.cur_start_us)
    why_again t = ground arith

    why_not :
        (r.cur_start_us == 0 || leb (net_bin_us * net_bins) (sub32 now_us r.cur_start_us)) ≡ false
        → (0 < r.cur_start_us) × (sub32 now_us r.cur_start_us < net_bin_us * net_bins)
    why_not t = ground arith

-- A step to a time that another context has already passed by rolling the ring, up to about 4175 s
-- behind the current bin's start, clears all the bins, the current one included.
pub net_bin_now-stale :
    (r : BinRing) (now_us : ℕ)
    → r.cur_start_us < u32_mod
    → now_us < r.cur_start_us
    → r.cur_start_us - now_us ≤ u32_mod - net_bin_us * net_bins
    → net_bin_now r now_us ≡ restart now_us
unfolding net_bin_now net_bins
net_bin_now-stale r now_us hr lt near = ground arith

window_at :
    (r : BinRing) (i : ℕ)
    → IsRing r
    → i < net_bins
    → get_or r.bins ((r.cur + 1 + i) % net_bins) (fresh_bin 0) ≡ get_or (window r) i (fresh_bin 0)
unfolding net_bins
window_at r i h hi =
    let n : ℕ = suc r.cur in
    let d : NetBin = fresh_bin 0 in
    ground (
      arith,
      get_or-append (drop n r.bins) (take n r.bins) i d,
      length-drop n r.bins,
      get_or-drop n r.bins i d,
      get_or-take n r.bins (i - (1200 - n)) d,
    )

-- Once the bins are allocated, `w5500_net_bin` gives the bins of the window in order, oldest first,
-- less those never used, and nothing from 1200 on.
pub net_bin-window :
    (s : Recorder) (r : BinRing) (i : ℕ)
    → IsRing r
    → s.ring ≡ some r
    → let b = get_or (window r) i (fresh_bin 0) in
      net_bin s i ≡ (if leb net_bins i || b.start_us == 0 then none else some b)
unfolding net_bin
net_bin-window s r i h e = ground (arith, window_at r i h)
