-- ===== src/Gps/CrashReports.antt =====
-- The crash report of gps_pps_time.cpp over two boots: what a boot leaves in the memory that survives a
-- panic, and what the next one publishes of it.
mod Tests
use esphome_gps_pps_ntp_serv.Base.{
  ℕ, suc, ◌+◌, ◌<◌, ◌≡◌, ◌==◌, ◌&&◌, ◌||◌, refl, ap, sym, Bool, true, false, List, [], ◌∷◌, ◌++◌,
  u32, u32_mod, pos, sub32, arith, if_elim, if◌then◌else◌, not, ◌*ℤ◌, ◌-ℤ◌,
}
use mathlib.Core.List.{append_assoc, append-nil}
use mathlib.Core.Path.{◌∙◌}
use esphome_gps_pps_ntp_serv.Gps.State.{GpsPpsTime, initial}
use esphome_gps_pps_ntp_serv.Gps.Anchor.{pps_capture_ppb}
use esphome_gps_pps_ntp_serv.Gps.Update.{
  crash_magic, CrashContext, CrashReport, empty, panic_context, panic_no_context, Station, setup,
  LoopReads, update_context, loop, Sensors, UpdateReads, Reading, crash_info_text, isr_latency,
  pps_interval_ppb, publish, latency_due, gps_readings, update,
}
use esphome_gps_pps_ntp_serv.Gps.Reports.{reports, reports-append, update-reports}

pub data Event : Type 0 where
  looped : LoopReads → Event
  updated : UpdateReads → Event

-- The calls of `loop`.
unfoldable pub loops : List Event → ℕ
loops [] = 0
loops (looped r ∷ es) = 1 + loops es
loops (updated r ∷ es) = loops es

unfoldable pub has_update : List Event → Bool
has_update [] = false
has_update (looped r ∷ es) = has_update es
has_update (updated r ∷ es) = true

-- A boot: `setup` with the memory that survived, and the default values for the rest.
abbrev pub boot : CrashContext → Bool → Station
boot c panic =
    setup
      (record {
        gps = initial;
        crash_ctx = c;
        last_ctx_update_ms = 0;
        crash_report = empty;
        crash_report_pending = false;
      })
      panic

none_due : (pending : Bool) (t : CrashReport) → [] ≡ (if pending && false then t ∷ [] else [])
none_due true t = refl
none_due false t = refl

reported_once :
    (pending wired more : Bool) (t : CrashReport)
    → wired ≡ true
    → reports (publish (pending && wired) (crash_info_text t))
        ++ (if (if pending && wired then false else pending) && more then t ∷ [] else [])
      ≡ (if pending && true then t ∷ [] else [])
unfolding reports publish
reported_once true true more t e = refl
reported_once false true more t e = refl
reported_once true false more t e = absurd (cc e)
reported_once false false more t e = absurd (cc e)

-- A call of `loop` counts itself in the surviving memory.
loop-context :
    (s : Station) (r : LoopReads)
    → let c = (loop s r).0.crash_ctx in
      (c.magic ≡ s.crash_ctx.magic)
      × (c.loop_count ≡ u32 (s.crash_ctx.loop_count + 1))
      × (c.loop_count < u32_mod)
unfolding loop update_context
loop-context s r = ground arith

loop-early :
    (s : Station) (r : LoopReads)
    → s.last_ctx_update_ms ≡ 0
    → r.now_ms < 10000
    → let t = (loop s r).0 in
      (t.last_ctx_update_ms ≡ 0)
      × (t.crash_ctx.uptime_sec ≡ s.crash_ctx.uptime_sec)
      × (t.crash_ctx.heap_free ≡ s.crash_ctx.heap_free)
      × (t.crash_ctx.pps_count ≡ s.crash_ctx.pps_count)
unfolding loop
loop-early s r z h = ground arith

module _ (has : Sensors) where
  -- The station after a sequence of calls, and what they published.
  unfoldable pub run : Station → List Event → Station × List Reading
  run s [] = (s, [])
  run s (looped r ∷ es) = run (loop s r).0 es
  run s (updated r ∷ es) =
      let (s', readings) = update has s r in
      let (end, published) = run s' es in (end, readings ++ published)

  -- What is still to be reported.
  abbrev due_report : Station → List Event → List CrashReport
  due_report s es = if s.crash_report_pending && has_update es then s.crash_report ∷ [] else []

  run-reports :
      (s : Station) (es : List Event)
      → has.crash_info ≡ true
      → reports (run s es).1 ≡ due_report s es
  unfolding run has_update loop update reports
  run-reports s [] h = none_due s.crash_report_pending s.crash_report
  run-reports s (looped r ∷ es) h = run-reports (loop s r).0 es h
  run-reports s (updated r ∷ es) h =
      reports-append (update has s r).1 (run (update has s r).0 es).1
      ∙ ap (λ ts. ts ++ reports (run (update has s r).0 es).1) (update-reports has s r)
      ∙ ap
          (λ ts.
            reports
              (publish (s.crash_report_pending && has.crash_info) (crash_info_text s.crash_report))
            ++ ts)
          (run-reports (update has s r).0 es h)
      ∙ reported_once s.crash_report_pending has.crash_info (has_update es) s.crash_report h

  -- `loop` alone writes the surviving memory, and it only counts in it in each call.
  run-context :
      (s : Station) (es : List Event)
      → s.crash_ctx.loop_count < u32_mod
      → let c = (run s es).0.crash_ctx in
        (c.magic ≡ s.crash_ctx.magic) × (c.loop_count ≡ u32 (s.crash_ctx.loop_count + loops es))
  unfolding run loops update
  run-context s [] h = (refl, omega arith)
  run-context s (looped r ∷ es) h =
      let (magic, count) = run-context (loop s r).0 es (loop-context s r).2 in
      let (same, one, _) = loop-context s r in (magic ∙ same, omega (arith, count, one))
  run-context s (updated r ∷ es) h = run-context (update has s r).0 es h

  -- A boot, whatever the memory held before it, runs through any calls of `loop` and `update`, and then
  -- panics. If the sensor of the crash report is there, all calls of the boot after it publish one
  -- report together if `update` is among them, and none if not: the memory as the panic left it. The
  -- count in it is that of the calls of `loop` of the boot that panicked, modulo 2^32.
  pub crash-reported :
      (c : CrashContext) (panic : Bool) (es es' : List Event)
      → has.crash_info ≡ true
      → let left = (run (boot c panic) es).0.crash_ctx in
        (reports (run (boot left true) es').1
          ≡ (if has_update es' then panic_context left ∷ [] else []))
        × (left.loop_count ≡ u32 (loops es))
  unfolding setup
  crash-reported c panic es es' h =
      let (magic, count) = run-context (boot c panic) es (omega arith) in
      (
        run-reports (boot (run (boot c panic) es).0.crash_ctx true) es' h ∙ rw magic refl,
        omega (arith, count),
      )

  -- No call of `loop` comes at ten seconds or later.
  abbrev pub AreEarly : List Event → Type 0
  AreEarly [] = Unit
  AreEarly (looped r ∷ es) = (r.now_ms < 10000) × AreEarly es
  AreEarly (updated r ∷ es) = AreEarly es

  -- A boot that panics in its first ten seconds leaves the uptime, the heap and the pulses of an
  -- earlier one.
  early_panic-stale :
      (s : Station) (es : List Event)
      → s.last_ctx_update_ms ≡ 0
      → AreEarly es
      → let c = (run s es).0.crash_ctx in
        (c.uptime_sec ≡ s.crash_ctx.uptime_sec)
        × (c.heap_free ≡ s.crash_ctx.heap_free)
        × (c.pps_count ≡ s.crash_ctx.pps_count)
  unfolding run update
  early_panic-stale s [] z h = (refl, refl, refl)
  early_panic-stale s (looped r ∷ es) z (early, later) =
      let (last, up, heap, pulses) = loop-early s r z early in
      let (up', heap', pulses') = early_panic-stale (loop s r).0 es last later in
      (up' ∙ up, heap' ∙ heap, pulses' ∙ pulses)
  early_panic-stale s (updated r ∷ es) z h = early_panic-stale (update has s r).0 es z h
