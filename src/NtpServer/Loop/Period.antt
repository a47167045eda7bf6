-- ===== src/NtpServer/Loop/Period.antt =====
-- What `loop` of ntp_server.cpp publishes of the samples that come in between two publications.
use esphome_gps_pps_ntp_serv.Base.{
  ℕ, ◌≤◌, ◌<◌, ◌≡◌, ◌⊎◌, inl, inr, refl, ap, sym, Bool, true, false, List, [], ◌∷◌, ◌++◌, ltb,
  length, ℤ, pos, sub32, arith, if◌then◌else◌,
}
use mathlib.Core.List.{Memᴰ}
use mathlib.Core.Path.{◌∙◌, subst}
use esphome_gps_pps_ntp_serv.NtpServer.Window.{
  WindowMax, add, take, add_all, magnitude, IsBound, take-add_all,
}
use esphome_gps_pps_ntp_serv.NtpServer.Loop.{
  telemetry_interval_ms, Sensor, arp_primes, Counters, Main, LoopIo, publish, telemetry, loop,
}
use esphome_gps_pps_ntp_serv.NtpServer.Loop.Shown.{
  Kind, errors, leads, gaps, latencies, window, sensor, add_sample, is_kind, values_of,
  arp_primes-IsOther, taken_list,
}
use esphome_gps_pps_ntp_serv.NtpServer.Loop.Telemetry.{
  publish-silent, silent-append, telemetry-due, telemetry-early,
}

-- Another task adds a sample, or the main task makes a round.
pub data Event : Type 0 where
  sample : Kind → ℤ → Event
  round : LoopIo → Event

-- The samples of a window.
unfoldable pub samples : Kind → List Event → List ℤ
samples k [] = []
samples k (sample l v ∷ es) = let rest = samples k es in if is_kind k l then v ∷ rest else rest
samples k (round io ∷ es) = samples k es

-- No round comes as late as the interval after the last publication.
abbrev pub AreEarly : ℕ → List Event → Type 0
AreEarly last_ms [] = Unit
AreEarly last_ms (sample k v ∷ es) = AreEarly last_ms es
AreEarly last_ms (round io ∷ es) =
    (sub32 io.now_ms last_ms < telemetry_interval_ms) × AreEarly last_ms es

add_sample-window :
    (k l : Kind) (v : ℤ) (c : Counters)
    → window k (add_sample l v c) ≡ (if is_kind k l then add (window k c) v else window k c)
add_sample-window errors errors v c = refl
add_sample-window errors leads v c = refl
add_sample-window errors gaps v c = refl
add_sample-window errors latencies v c = refl
add_sample-window leads errors v c = refl
add_sample-window leads leads v c = refl
add_sample-window leads gaps v c = refl
add_sample-window leads latencies v c = refl
add_sample-window gaps errors v c = refl
add_sample-window gaps leads v c = refl
add_sample-window gaps gaps v c = refl
add_sample-window gaps latencies v c = refl
add_sample-window latencies errors v c = refl
add_sample-window latencies leads v c = refl
add_sample-window latencies gaps v c = refl
add_sample-window latencies latencies v c = refl

add_sample-last :
    (l : Kind) (v : ℤ) (c : Counters) → (add_sample l v c).telemetry_last_ms ≡ c.telemetry_last_ms
add_sample-last errors v c = refl
add_sample-last leads v c = refl
add_sample-last gaps v c = refl
add_sample-last latencies v c = refl

add_all-if :
    (mine : Bool) (w : WindowMax) (v : ℤ) (vs : List ℤ)
    → add_all (if mine then add w v else w) vs ≡ add_all w (if mine then v ∷ vs else vs)
unfolding add_all
add_all-if true w v vs = refl
add_all-if false w v vs = refl

abbrev pub empty_window : WindowMax
empty_window = record { value = pos 0; count = 0 }

-- What is published of the samples `vs`: nothing if there are none, and else one of them that
-- none exceeds in magnitude.
abbrev pub Reports : List ℤ → List ℤ → Type 0
Reports vs shown =
    (vs ≡ []) × (shown ≡ []) ⊎ (v : ℤ) × (shown ≡ v ∷ []) × IsBound (magnitude v) vs × Memᴰ v vs

no_magnitude : (v : ℤ) → magnitude v ≤ 0 → v ≡ pos 0
no_magnitude v h = ground arith

source-Memᴰ :
    (m v : ℤ) (vs : List ℤ)
    → IsBound (magnitude m) (v ∷ vs)
    → (m ≡ pos 0) ⊎ Memᴰ m (v ∷ vs)
    → Memᴰ m (v ∷ vs)
source-Memᴰ m v vs h (inr there) = there
source-Memᴰ m v vs h (inl e) =
    Memᴰ.head (e ∙ sym (no_magnitude v (omega (arith, h.0, ap magnitude e))))

take-Reports :
    (vs : List ℤ)
    → length vs < 4294967296
    → Reports vs (taken_list (take (add_all empty_window vs)).1)
      × ((take (add_all empty_window vs)).0 ≡ empty_window)
unfolding take add_all
take-Reports [] h = (inl (refl, refl), refl)
take-Reports (v ∷ vs) h =
    let (taken, bound, which) = take-add_all (v ∷ vs) (omega arith) h in
    rw taken (inr (_, refl, bound, source-Memᴰ _ v vs bound which), refl)

module _ (has : Sensor → Bool) where
  -- The state after a sequence of events, and all that was published.
  unfoldable pub run : Main → List Event → Main × List (Sensor × ℤ)
  run s [] = (s, [])
  run s (sample l v ∷ es) = run (record s { counters = add_sample l v s.counters }) es
  run s (round io ∷ es) =
      let (s', effects) = loop has s io in
      let (end, published) = run s' es in (end, effects.published ++ published)

  -- The gate on the count of the ARP entries hides no value of a window.
  gated-silent :
      (k : Kind) (gate : Bool) (v : ℤ)
      → values_of k (if gate then publish has arp_primes v else []) ≡ []
  unfolding values_of
  gated-silent k true v = publish-silent has k arp_primes v (arp_primes-IsOther k)
  gated-silent k false v = refl

  -- A round in terms of its telemetry.
  loop-telemetry :
      (k : Kind) (s : Main) (io : LoopIo)
      → let (s', effects) = loop has s io in
        (s'.counters ≡ (telemetry has s.counters io.now_ms).0)
        × (values_of k effects.published ≡ values_of k (telemetry has s.counters io.now_ms).1)
  unfolding loop
  loop-telemetry k s io = (refl, silent-append has k _ _ (gated-silent k _ _))

  run-early :
      (k : Kind) (last_ms : ℕ) (s : Main) (es : List Event)
      → s.counters.telemetry_last_ms ≡ last_ms
      → AreEarly last_ms es
      → let (s', ps) = run s es in
        (window k s'.counters ≡ add_all (window k s.counters) (samples k es))
        × (s'.counters.telemetry_last_ms ≡ last_ms)
        × (values_of k ps ≡ [])
  unfolding run samples add_all values_of
  run-early k last_ms s [] e h = (refl, e, refl)
  run-early k last_ms s (sample l v ∷ es) e h =
      let added : Main = record s { counters = add_sample l v s.counters } in
      let (all, last, quiet) =
        run-early k last_ms added es (add_sample-last l v s.counters ∙ e) h in
      (
        all
            ∙ ap (λ w. add_all w (samples k es)) (add_sample-window k l v s.counters)
            ∙ add_all-if (is_kind k l) (window k s.counters) v (samples k es),
        last,
        quiet,
      )
  run-early k last_ms s (round io ∷ es) e (now, later) =
      let s' : Main = (loop has s io).0 in
      let (counters, values) = loop-telemetry k s io in
      let early = telemetry-early has s.counters io.now_ms (ground arith) in
      let same : s'.counters ≡ s.counters = counters ∙ ap (λ r. r.0) early in
      let (all, last, quiet) =
        run-early k last_ms s' es (ap (λ (c : Counters). c.telemetry_last_ms) same ∙ e) later in
      (
        all ∙ ap (λ (c : Counters). add_all (window k c) (samples k es)) same,
        last,
        silent-append has k _ _ (values ∙ ap (λ r. values_of k r.1) early) ∙ quiet,
      )

  -- A window is empty. Then samples come in, fewer than 2^32 for it, and rounds that are not yet due,
  -- in any order, and after them a round that is due. All of these together publish to the window's
  -- sensor, where there is one, once at most: nothing if no sample came in for the window, and else
  -- the sample of the largest magnitude. The window is then empty again, and the next period begins.
  pub loop-Reports :
      (k : Kind) (s : Main) (es : List Event) (io : LoopIo)
      → has (sensor k) ≡ true
      → window k s.counters ≡ empty_window
      → AreEarly s.counters.telemetry_last_ms es
      → telemetry_interval_ms ≤ sub32 io.now_ms s.counters.telemetry_last_ms
      → length (samples k es) < 4294967296
      → let (s', ps) = run s es in
        let (s'', effects) = loop has s' io in
        Reports (samples k es) (values_of k (ps ++ effects.published))
        × (window k s''.counters ≡ empty_window)
        × (s''.counters.telemetry_last_ms ≡ io.now_ms)
  loop-Reports k s es io shows empty early due few =
      let s' : Main = (run s es).0 in
      let (all, last, quiet) = run-early k s.counters.telemetry_last_ms s es refl early in
      let (counters, values) = loop-telemetry k s' io in
      let late : ltb (sub32 io.now_ms s'.counters.telemetry_last_ms) telemetry_interval_ms ≡ false =
        rw last (ground arith) in
      let (shown, cleared, stamped) = telemetry-due has k s'.counters io.now_ms shows late in
      let full = all ∙ ap (λ w. add_all w (samples k es)) empty in
      let (reports, empties) = take-Reports (samples k es) few in
      (
        subst (Reports (samples k es))
            (sym (
              silent-append has k (run s es).1 _ quiet
              ∙ values
              ∙ shown
              ∙ ap (λ w. taken_list (take w).1) full))
            reports,
        ap (window k) counters ∙ cleared ∙ ap (λ w. (take w).0) full ∙ empties,
        ap (λ (c : Counters). c.telemetry_last_ms) counters ∙ stamped,
      )
