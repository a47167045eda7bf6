-- ===== src/Gps/Reports.antt =====
-- The crash reports among what `update` of gps_pps_time.cpp publishes.
use esphome_gps_pps_ntp_serv.Base.{
  ◌≡◌, ◌==◌, ◌&&◌, refl, ap, sym, Bool, true, false, List, [], ◌∷◌, ◌++◌, pos, not, ◌*ℤ◌, ◌-ℤ◌,
}
use mathlib.Core.List.{append_assoc, append-nil}
use mathlib.Core.Path.{◌∙◌}
use esphome_gps_pps_ntp_serv.Gps.State.{GpsPpsTime}
use esphome_gps_pps_ntp_serv.Gps.Anchor.{pps_capture_ppb}
use esphome_gps_pps_ntp_serv.Gps.Update.{
  CrashReport, Station, Sensors, UpdateReads, Reading, crash_info_text, isr_latency,
  pps_interval_ppb, publish, latency_due, gps_readings, update,
}

-- The crash reports among what is published.
abbrev report_in : Reading → List CrashReport
report_in (crash_info_text t) = t ∷ []
report_in _ = []

unfoldable pub reports : List Reading → List CrashReport
reports [] = []
reports (r ∷ rs) = report_in r ++ reports rs

pub reports-append : (rs ts : List Reading) → reports (rs ++ ts) ≡ reports rs ++ reports ts
unfolding reports
reports-append [] ts = refl
reports-append (r ∷ rs) ts =
    ap (λ ps. report_in r ++ ps) (reports-append rs ts)
    ∙ sym (append_assoc (report_in r) (reports rs) (reports ts))

-- There is no crash report among them.
IsQuiet : List Reading → Type 0
IsQuiet rs = reports rs ≡ []

append-IsQuiet : (rs ts : List Reading) → IsQuiet rs → IsQuiet ts → IsQuiet (rs ++ ts)
unfolding IsQuiet
append-IsQuiet rs ts e f = rw (reports-append rs ts) (rw e f)

publish-IsQuiet : (b : Bool) (r : Reading) → report_in r ≡ [] → IsQuiet (publish b r)
unfolding IsQuiet publish reports
publish-IsQuiet true r e = rw e refl
publish-IsQuiet false r e = refl

module _ (has : Sensors) where
  gps_readings-IsQuiet : (gps : GpsPpsTime) (r : UpdateReads) → IsQuiet (gps_readings has gps r)
  unfolding gps_readings
  gps_readings-IsQuiet gps r =
      append-IsQuiet _ _
        (append-IsQuiet _ _
          (append-IsQuiet _ _
            (append-IsQuiet _ _
              (append-IsQuiet _ _
                (append-IsQuiet _ _
                  (append-IsQuiet _ _
                    (append-IsQuiet _ _
                      (append-IsQuiet _ _ (publish-IsQuiet _ _ refl) (publish-IsQuiet _ _ refl))
                      (publish-IsQuiet _ _ refl))
                    (publish-IsQuiet _ _ refl))
                  (publish-IsQuiet _ _ refl))
                (publish-IsQuiet _ _ refl))
              (publish-IsQuiet _ _ refl))
            (publish-IsQuiet _ _ refl))
          (publish-IsQuiet _ _ refl))
        (publish-IsQuiet _ _ refl)

  pub update-reports :
      (s : Station) (r : UpdateReads)
      → reports (update has s r).1
        ≡ reports
            (publish (s.crash_report_pending && has.crash_info) (crash_info_text s.crash_report))
  unfolding update IsQuiet
  update-reports s r =
      let gps = s.gps in
      let first =
        publish (has.pps_interval && not (gps.pps_cap_interval == 0))
          (pps_interval_ppb (pps_capture_ppb gps)) in
      let second =
        publish (latency_due has gps)
          (isr_latency (gps.lat_sum_ticks -ℤ pos gps.lat_n *ℤ gps.lat_min_ticks) gps.lat_n) in
      let text =
        publish (s.crash_report_pending && has.crash_info) (crash_info_text s.crash_report) in
      let before : IsQuiet (first ++ second) =
        append-IsQuiet first second (publish-IsQuiet _ _ refl) (publish-IsQuiet _ _ refl) in
      reports-append (first ++ second ++ text) (gps_readings has gps r)
      ∙ ap (λ ts. reports (first ++ second ++ text) ++ ts) (gps_readings-IsQuiet gps r)
      ∙ append-nil (reports (first ++ second ++ text))
      ∙ reports-append (first ++ second) text
      ∙ ap (λ ts. ts ++ reports text) before
