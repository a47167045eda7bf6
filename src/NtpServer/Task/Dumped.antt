-- ===== src/NtpServer/Task/Dumped.antt =====
-- The requests of `recv_task_` in ntp_server.cpp, as the REQ command of its `diag_serve_` gives them back.
use esphome_gps_pps_ntp_serv.Base.{
  ℕ, ◌-◌, ◌<◌, ◌≤◌, ◌≡◌, ◌++◌, ◌||◌, ◌&&◌, refl, ap, sym, Bool, true, Option, none, List, [], ◌∷◌,
  length, drop, take, map, arith, suc, u32_mod, length-drop,
}
use mathlib.Core.Path.{◌∙◌, subst}
use esphome_gps_pps_ntp_serv.NtpServer.IntLevel.{IntLevel}
use esphome_gps_pps_ntp_serv.NtpServer.Request.{State}
use esphome_gps_pps_ntp_serv.NtpServer.Diag.{DiagRecord}
use esphome_gps_pps_ntp_serv.NtpServer.Diag.Ring.{
  Diagnostics, diag_record, set_diagnostics, list_requests, diag_ring_size,
}
use esphome_gps_pps_ntp_serv.NtpServer.Diag.Window.{listed}
use esphome_gps_pps_ntp_serv.NtpServer.Diag.Dump.{
  IsOn, record_all, diag_record-IsOn, set_diagnostics-IsOn,
}
use esphome_gps_pps_ntp_serv.NtpServer.Console.Text.{codes}
use esphome_gps_pps_ntp_serv.NtpServer.Console.Lines.{
  DiagReads, request_line, end_line, answer_body, answer_lines, has_ring,
}
use esphome_gps_pps_ntp_serv.NtpServer.Console.Datagrams.{flat, AllSized, emit_all-datagrams}
use esphome_gps_pps_ntp_serv.NtpServer.Console.Port.{PortIo, command, diag_serve}
use esphome_gps_pps_ntp_serv.NtpServer.Console.Answers.{
  ArePrintable, requests-AllFit, diag_serve_open, end_line-Fits, AllFit-snoc,
}
use esphome_gps_pps_ntp_serv.NtpServer.Task.{Task, Turn, turns}
use esphome_gps_pps_ntp_serv.NtpServer.Task.Run.{turn_records, turns-diag, turns-accounted}
use esphome_gps_pps_ntp_serv.NtpServer.Task.Running.{IsRunning}
use esphome_gps_pps_ntp_serv.NtpServer.Task.Answer.{
  AreRead, turn_records-ArePrintable, listed-ArePrintable, drop-ArePrintable,
}

record_all-IsOn : (s : Diagnostics) (ds : List DiagRecord) → IsOn s → IsOn (record_all s ds)
record_all-IsOn s [] h = h
record_all-IsOn s (d ∷ ds) h = record_all-IsOn (diag_record s d) ds (diag_record-IsOn s d h)

IsOn-has_ring : (s : Diagnostics) → IsOn s → has_ring s ≡ true
IsOn-has_ring s (on, (ring, (e, h))) = rw e refl

-- REQ with a ring is answered by the lines of its records.
req_lines :
    (s : Diagnostics) (level : IntLevel) (r : DiagReads) (more : List ℕ)
    → has_ring s ≡ true
    → answer_lines s level r (codes "REQ" ++ more)
      ≡ map request_line (list_requests s)
        ++ end_line (codes "REQ" ++ more) (length (map request_line (list_requests s))) ∷ []
unfolding answer_lines answer_body
req_lines s level r more h = rw h refl

length-listed : (ds : List DiagRecord) → length (listed ds) ≤ length ds
length-listed [] = omega arith
length-listed (d ∷ ds) = let rest = length-listed ds in ground arith

length-request_lines : (ds : List DiagRecord) → length (map request_line ds) ≡ length ds
length-request_lines [] = refl
length-request_lines (d ∷ ds) = ap suc (length-request_lines ds)

req_answer :
    (s : Diagnostics) (level : IntLevel) (r : DiagReads) (cmd more : List ℕ)
    (last : List DiagRecord)
    → has_ring s ≡ true
    → cmd ≡ codes "REQ" ++ more
    → list_requests s ≡ last
    → answer_lines s level r cmd ≡ map request_line last ++ end_line cmd (length last) ∷ []
req_answer s level r cmd more last h e listing =
    ap (answer_lines s level r) e
    ∙ req_lines s level r more h
    ∙ ap
        (λ ds.
          map request_line ds ++ end_line (codes "REQ" ++ more) (length (map request_line ds)) ∷ [])
        listing
    ∙ ap (λ n. map request_line last ++ end_line (codes "REQ" ++ more) n ∷ [])
        (length-request_lines last)
    ∙ ap (λ c. map request_line last ++ end_line c (length last) ∷ []) (sym e)

req_nonempty : (cmd more : List ℕ) → cmd ≡ codes "REQ" ++ more → 0 < length cmd
req_nonempty cmd more e = omega (arith, ap length e)

module _ (root_dispersion : Bool → Option ℕ → ℕ) where
  -- Diagnostics are switched on for the first time, and the ring's memory was had. The task then
  -- handles any packets, whose readings lie in the ranges of their types, from a state whose
  -- estimates are in theirs; and a command that begins with REQ comes to the diagnostic port, whose
  -- socket is open or can be opened. Then the datagrams that go out, of 1 to 1400 bytes each, hold
  -- whole lines: one for each of the last 1024 handled requests whose T2 is not 0, in order and none
  -- cut off, and after them END with their number.
  pub turns-dumped :
      (s : State) (diag : Diagnostics) (bins : Bool) (us : List Turn) (level : IntLevel)
      (is_open : Bool) (io : PortIo) (more : List ℕ)
      → diag.diag_ring ≡ none
      → diag.diag_next ≡ 0
      → s.refused < u32_mod
      → IsRunning s
      → AreRead us
      → is_open || (io.socket_ok && io.bind_ok) ≡ true
      → io.received ≡ codes "REQ" ++ more
      → let t : Task = record { state = s; diag = set_diagnostics diag true true bins } in
        let ds = turn_records root_dispersion t us in
        let last = listed (drop (length ds - diag_ring_size) ds) in
        let (stays_open, sent) = diag_serve (turns root_dispersion t us).diag level is_open io in
        (stays_open ≡ true)
        × (groups : List (List (List ℕ))) × (flat groups
            ≡ map request_line last ++ end_line (command io) (length last) ∷ [])
        × (sent ≡ map flat groups)
        × AllSized sent
  turns-dumped s diag bins us level is_open io more none_yet start few running read opened asked =
      let t : Task = record { state = s; diag = set_diagnostics diag true true bins } in
      let d : Diagnostics = (turns root_dispersion t us).diag in
      let ds : List DiagRecord = turn_records root_dispersion t us in
      let last : List DiagRecord = listed (drop (length ds - diag_ring_size) ds) in
      let on : IsOn d =
        subst IsOn
          (sym (turns-diag root_dispersion t us (set_diagnostics-IsOn diag bins none_yet start)))
          (record_all-IsOn t.diag ds (set_diagnostics-IsOn diag bins none_yet start)) in
      let (listing, _, _) = turns-accounted root_dispersion s diag bins us none_yet start few in
      let cmd : command io ≡ codes "REQ" ++ take 12 more = ap (take 15) asked in
      let printable : ArePrintable last =
        listed-ArePrintable (drop (length ds - diag_ring_size) ds) (
          drop-ArePrintable (length ds - diag_ring_size) ds
            (turn_records-ArePrintable root_dispersion t us running read)) in
      let count : length last < 4294967296 = omega (
        arith,
        length-listed (drop (length ds - diag_ring_size) ds),
        length-drop (length ds - diag_ring_size) ds,
      ) in
      let whole : List (List ℕ) =
        map request_line last ++ end_line (command io) (length last) ∷ [] in
      let same : answer_lines d level io.reads (command io) ≡ whole =
        req_answer d level io.reads (command io) (take 12 more) last (IsOn-has_ring d on) cmd
          listing in
      let (groups, joined, sent, sized) = emit_all-datagrams io.stale whole (
        AllFit-snoc (map request_line last) (end_line (command io) (length last))
          (requests-AllFit last printable) (end_line-Fits (command io) (length last) count)) in
      rw
        (diag_serve_open d level is_open io on.0 opened
          (req_nonempty (command io) (take 12 more) cmd))
        (rw same (refl, groups, joined, sent, sized))
