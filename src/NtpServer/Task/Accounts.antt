-- ===== src/NtpServer/Task/Accounts.antt =====
-- What the counters, the replies and the diagnostic records of `recv_task_` have to do with one another.
use esphome_gps_pps_ntp_serv.Base.{
  ℕ, ◌+◌, ◌≡◌, ◌≢◌, pos, ltb_ℤ, ap, refl, Bool, true, false, not, Option, none, some, List, [], ◌∷◌,
  arith, u32, if◌then◌else◌,
}
use mathlib.Core.Path.{◌∙◌}
use esphome_gps_pps_ntp_serv.NtpServer.Reply.{is_time_synchronized}
use esphome_gps_pps_ntp_serv.NtpServer.ArpClients.{note_arp_client}
use esphome_gps_pps_ntp_serv.NtpServer.Diag.{DiagRecord, admission}
use esphome_gps_pps_ntp_serv.NtpServer.Request.{
  RefuseReason, Settings, Round, is_refused, refuse_none, refuse_old_edge, refuse_no_edge,
  refuse_hook_miss, State, round, answer, refuse, note_wait, note_latency, learn_send, learn_patch,
  is_unresolved, refuse_reason,
}
use esphome_gps_pps_ntp_serv.NtpServer.Diag.Fill.{
  Sent, diag_start, diag_refuse, diag_unresolved, diag_sent,
}
use esphome_gps_pps_ntp_serv.NtpServer.Task.{
  client_tx, measured, arp_waited_us, hook_latency_us, Turn, heard, turn_record,
}

-- What one turn does to the refusal counter, what it sends, and what it records.
abbrev pub Accounts : Turn → ℕ → ℕ → Option (List ℕ) → Option DiagRecord → Type 0
Accounts u old new none none = new ≡ old
Accounts u old new none (some d) =
    (d.flags.refused ≡ true)
    × (new ≡ u32 (old + 1))
    × (d.refuse_reason ≢ admission refuse_none)
    × (d.client_tx ≡ client_tx u.round.request)
Accounts u old new (some reply) (some d) =
    (d.flags.refused ≡ false)
    × (new ≡ old)
    × (d.refuse_reason ≡ admission refuse_none)
    × (d.client_tx ≡ client_tx u.round.request)
Accounts u old new (some reply) none = ⊥

-- Of a list of records, those of refused requests.
abbrev pub refusals : List DiagRecord → ℕ
refusals [] = 0
refusals (d ∷ ds) = (if d.flags.refused then 1 else 0) + refusals ds

abbrev pub to_list : Option DiagRecord → List DiagRecord
to_list none = []
to_list (some d) = d ∷ []

abbrev pub sent_one : Option (List ℕ) → ℕ
sent_one none = 0
sent_one (some reply) = 1

note_wait-refused : (s : State) (r : Round) → (note_wait s r).refused ≡ s.refused
unfolding note_wait
note_wait-refused s r = ground arith

note_latency-refused : (s : State) (r : Round) → (note_latency s r).refused ≡ s.refused
unfolding note_latency
note_latency-refused s r = ground arith

learn_send-refused : (s : State) (r : Round) → (learn_send s r).refused ≡ s.refused
unfolding learn_send learn_patch
learn_send-refused s r = ground arith

-- What the later steps leave of a record.
abbrev pub SameRequest : DiagRecord → DiagRecord → Type 0
SameRequest d d' =
    (d'.flags.refused ≡ d.flags.refused)
    × (d'.refuse_reason ≡ d.refuse_reason)
    × (d'.client_tx ≡ d.client_tx)

diag_sent-SameRequest : (d : DiagRecord) (s : Sent) → SameRequest d (diag_sent d s)
unfolding diag_sent
diag_sent-SameRequest d s = (refl, refl, refl)

is_refused-reason :
    (reason : RefuseReason) → is_refused reason ≡ true → admission reason ≢ admission refuse_none
is_refused-reason refuse_none h = cc
is_refused-reason refuse_old_edge h = λ e. cc
is_refused-reason refuse_no_edge h = λ e. cc
is_refused-reason refuse_hook_miss h = λ e. cc

-- The early returns of a turn: a short packet, no synchronisation, a refusal, no next hop.
abbrev early {ℓ} : {A : Type ℓ} → Bool → Bool → Bool → Bool → A → A → A → A → A → A
early short unsynced refused unresolved a b c d e =
    if short then a else if unsynced then b else if refused then c else if unresolved then d else e

abbrev start_record : State → Turn → DiagRecord
start_record s u =
    let r = heard u in
    diag_start r.hook u.now_us r.request (hook_latency_us r) s.estimator.estimate_us

start_record-client_tx :
    (s : State) (u : Turn) → (start_record s u).client_tx ≡ client_tx u.round.request
unfolding diag_start heard
start_record-client_tx s u = refl

start_record-refused : (s : State) (u : Turn) → (start_record s u).flags.refused ≡ false
unfolding diag_start
start_record-refused s u = refl

start_record-reason :
    (s : State) (u : Turn) → (start_record s u).refuse_reason ≡ admission refuse_none
unfolding diag_start
start_record-reason s u = refl

module _ (root_dispersion : Bool → Option ℕ → ℕ) where
  answer-Accounts :
      (c : Settings) (s : State) (u : Turn) (old : State)
      → s.refused ≡ old.refused
      → let (s', reply) = answer root_dispersion c s (heard u) in
        Accounts u old.refused s'.refused reply
          (some (diag_sent (start_record old u) (measured old s' u (heard u))))
  unfolding answer
  answer-Accounts c s u old e =
      let (s', reply) = answer root_dispersion c s (heard u) in
      let (refused, reason, tx) =
        diag_sent-SameRequest (start_record old u) (measured old s' u (heard u)) in
      (
        refused ∙ start_record-refused old u,
        learn_send-refused _ (heard u) ∙ e,
        reason ∙ start_record-reason old u,
        tx ∙ start_record-client_tx old u,
      )

  early-Accounts :
      (s : State) (u : Turn) (short unsynced refused unresolved : Bool)
      → is_refused (refuse_reason u.settings (heard u).hook) ≡ refused
      → let r = heard u in
        let noted = note_latency s r in
        let tracked = record noted { arp = note_arp_client noted.arp r.client } in
        let waited = note_wait tracked r in
        let d = start_record s u in
        let (s', reply) =
          early short unsynced refused unresolved
            (s, none)
            (noted, none)
            (refuse noted, none)
            (refuse waited, none)
            (answer root_dispersion u.settings waited r) in
        Accounts u s.refused s'.refused reply (
          early short unsynced refused unresolved none none
            (some (diag_refuse d (refuse_reason u.settings r.hook)))
            (some (diag_unresolved d (arp_waited_us r)))
            (some (diag_sent d (measured s s' u r))))
  unfolding refuse diag_refuse diag_unresolved
  early-Accounts s u true x y z e = refl
  early-Accounts s u false true y z e = note_latency-refused s (heard u)
  early-Accounts s u false false true z e = (
    refl,
    ap (λ k. u32 (k + 1)) (note_latency-refused s (heard u)),
    is_refused-reason (refuse_reason u.settings (heard u).hook) e,
    start_record-client_tx s u,
  )
  early-Accounts s u false false false true e = (
    refl,
    ap (λ k. u32 (k + 1)) (note_wait-refused _ (heard u) ∙ note_latency-refused s (heard u)),
    (λ same. cc),
    start_record-client_tx s u,
  )
  early-Accounts s u false false false false e =
      answer-Accounts u.settings _ u s
        (note_wait-refused _ (heard u) ∙ note_latency-refused s (heard u))

  pub turn-Accounts :
      (s : State) (u : Turn)
      → let (s', reply) = round root_dispersion u.settings s (heard u) in
        Accounts u s.refused s'.refused reply (turn_record u s s')
  unfolding round turn_record
  turn-Accounts s u =
      early-Accounts s u (ltb_ℤ (heard u).received (pos 48))
        (not (is_time_synchronized u.settings.server))
        (is_refused (refuse_reason u.settings (heard u).hook)) (is_unresolved (heard u)) refl
