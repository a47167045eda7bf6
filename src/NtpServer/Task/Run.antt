-- ===== src/NtpServer/Task/Run.antt =====
-- `recv_task_` of ntp_server.cpp over a sequence of requests: its counter, its replies and the dump.
use esphome_gps_pps_ntp_serv.Base.{
  ℕ, ◌+◌, ◌-◌, ◌<◌, ◌≡◌, refl, ap, Bool, true, Option, none, some, List, [], ◌∷◌, ◌++◌, length,
  length-append, drop, arith, u32, u32_mod, if_elim,
}
use mathlib.Core.Path.{◌∙◌}
use esphome_gps_pps_ntp_serv.NtpServer.Diag.{DiagRecord}
use esphome_gps_pps_ntp_serv.NtpServer.Diag.Ring.{
  Diagnostics, set_diagnostics, diag_record, list_requests, diag_ring_size,
}
use esphome_gps_pps_ntp_serv.NtpServer.Diag.Window.{listed}
use esphome_gps_pps_ntp_serv.NtpServer.Diag.Dump.{
  IsOn, record_all, diag_record-IsOn, set_diagnostics-IsOn, first_requests-listed,
}
use esphome_gps_pps_ntp_serv.NtpServer.Request.{State, round}
use esphome_gps_pps_ntp_serv.NtpServer.Task.{
  Task, Turn, heard, keep_record, turn_record, turn, turns,
}
use esphome_gps_pps_ntp_serv.NtpServer.Task.Accounts.{
  Accounts, refusals, to_list, sent_one, turn-Accounts,
}

Accounts-counts :
    (u : Turn) (old new : ℕ) (reply : Option (List ℕ)) (rec : Option DiagRecord)
    → old < u32_mod
    → Accounts u old new reply rec
    → (new < u32_mod)
      × (new ≡ u32 (old + refusals (to_list rec)))
      × (sent_one reply + refusals (to_list rec) ≡ length (to_list rec))
Accounts-counts u old new none none h a = omega arith
Accounts-counts u old new none (some d) h a = ground arith
Accounts-counts u old new (some reply) (some d) h a = ground arith
Accounts-counts u old new (some reply) none h a = absurd a

refusals-append : (ds es : List DiagRecord) → refusals (ds ++ es) ≡ refusals ds + refusals es
refusals-append [] es = omega arith
refusals-append (d ∷ ds) es = omega (arith, refusals-append ds es)

record_all-keep :
    (s : Diagnostics) (rec : Option DiagRecord) (ds : List DiagRecord)
    → IsOn s
    → IsOn (keep_record s rec)
      × (record_all (keep_record s rec) ds ≡ record_all s (to_list rec ++ ds))
record_all-keep s none ds h = (h, refl)
record_all-keep s (some d) ds h =
    if_elim (λ (s' : Diagnostics). IsOn s' × (record_all s' ds ≡ record_all (diag_record s d) ds))
      (s.diagnostics) (λ _. (diag_record-IsOn s d h, refl)) λ off. absurd (cc (h.0, off))

module _ (root_dispersion : Bool → Option ℕ → ℕ) where
  -- The records of a sequence of turns, and the number of replies.
  unfoldable pub turn_records : Task → List Turn → List DiagRecord
  turn_records t [] = []
  turn_records t (u ∷ us) =
      let (t', reply) = turn root_dispersion t u in
      to_list (turn_record u t.state t'.state) ++ turn_records t' us

  unfoldable pub replies : Task → List Turn → ℕ
  replies t [] = 0
  replies t (u ∷ us) = let (t', reply) = turn root_dispersion t u in sent_one reply + replies t' us

  turns-refused :
      (t : Task) (us : List Turn)
      → t.state.refused < u32_mod
      → let ds = turn_records t us in
        ((turns root_dispersion t us).state.refused ≡ u32 (t.state.refused + refusals ds))
        × (replies t us + refusals ds ≡ length ds)
  unfolding turns turn_records replies turn
  turns-refused t [] h = (omega arith, refl)
  turns-refused t (u ∷ us) h =
      let t' : Task = (turn root_dispersion t u).0 in
      let (s', reply) = round root_dispersion u.settings t.state (heard u) in
      let rec : Option DiagRecord = turn_record u t.state s' in
      let (below, new, one) =
        Accounts-counts u t.state.refused s'.refused reply rec h
          (turn-Accounts root_dispersion t.state u) in
      let rest = turns-refused t' us below in
      let more = refusals-append (to_list rec) (turn_records t' us) in
      (
        omega (arith, rest.0, new, more),
        omega (arith, rest.1, one, more, length-append (to_list rec) (turn_records t' us)),
      )

  pub turns-diag :
      (t : Task) (us : List Turn)
      → IsOn t.diag
      → (turns root_dispersion t us).diag ≡ record_all t.diag (turn_records t us)
  unfolding turns turn_records turn
  turns-diag t [] h = refl
  turns-diag t (u ∷ us) h =
      let t' : Task = (turn root_dispersion t u).0 in
      let kept = record_all-keep t.diag (turn_record u t.state t'.state) (turn_records t' us) h in
      turns-diag t' us kept.0 ∙ kept.1

  -- The task handles any sequence of packets, from a state where diagnostics were just switched on
  -- for the first time and the ring's memory was had. Then the REQ dump lists the records of the last
  -- 1024 handled requests whose T2 is not 0, in order; the refusal counter has gone up, modulo 2^32,
  -- by the number of records that are flagged as refused; and each other record is that of a reply.
  pub turns-accounted :
      (s : State) (diag : Diagnostics) (bins : Bool) (us : List Turn)
      → diag.diag_ring ≡ none
      → diag.diag_next ≡ 0
      → s.refused < u32_mod
      → let t : Task = record { state = s; diag = set_diagnostics diag true true bins } in
        let t' = turns root_dispersion t us in
        let ds = turn_records t us in
        (list_requests t'.diag ≡ listed (drop (length ds - diag_ring_size) ds))
        × (t'.state.refused ≡ u32 (s.refused + refusals ds))
        × (replies t us + refusals ds ≡ length ds)
  turns-accounted s diag bins us e z h =
      let t : Task = record { state = s; diag = set_diagnostics diag true true bins } in
      let on = set_diagnostics-IsOn diag bins e z in
      let counts = turns-refused t us h in
      (
        ap list_requests (turns-diag t us on)
            ∙ first_requests-listed diag bins (turn_records t us) e z,
        counts.0,
        counts.1,
      )
