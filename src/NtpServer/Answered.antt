-- ===== src/NtpServer/Answered.antt =====
-- Which requests a round of `recv_task_` in ntp_server.cpp answers, and what the answer is: the conditions
-- of rx_admission.h, the ARP wait and `build_ntp_response_` put together.
use esphome_gps_pps_ntp_serv.Base.{
  ℕ, ◌+◌, ◌%◌, ◌≡◌, ◌⊎◌, ◌↔◌, inl, inr, refl, Bool, true, false, arith, Option, none, some, List,
  length, get_or, pos, ◌≤ℤ◌, ◌<ℤ◌, u32, if◌then◌else◌,
}
use mathlib.Core.Path.{◌∙◌}
use esphome_gps_pps_ntp_serv.ArpWait.{ArpWaitResult}
use esphome_gps_pps_ntp_serv.RxAdmission.{accept, queued_behind_bytes, rx_admission}
use esphome_gps_pps_ntp_serv.RxAdmission.Policy.{IsFreshBurst}
use esphome_gps_pps_ntp_serv.NtpServer.Frame.{HookInfo}
use esphome_gps_pps_ntp_serv.NtpServer.Timestamp.{encode_ntp_timestamp}
use esphome_gps_pps_ntp_serv.NtpServer.Reply.{
  Server, is_time_synchronized, bytes_8, build_ntp_response, response-header, response-timestamps,
}
use esphome_gps_pps_ntp_serv.NtpServer.Request.{
  receive_timestamp, State, Settings, Round, refuse_reason, is_refused, is_unresolved, answer,
  round,
}
use esphome_gps_pps_ntp_serv.NtpServer.Admit.{refuse_reason-none_iff, round-cases}

-- What the hook recorded allows an answer: a usable edge that is close enough, below 200 us in the strict
-- regime and 1000 us in the other, or none; then the strict regime wants a fresh burst, once an edge has
-- ever been captured.
abbrev pub IsTimely : Settings → HookInfo → Type 0
IsTimely c h =
    (h.edge_usable ≡ true) × (h.lead_us <ℤ pos (if c.strict_rx_admission then 200 else 1000))
    ⊎ (h.edge_usable ≡ false)
      × ((c.strict_rx_admission ≡ false)
          ⊎ (h.capture_armed ≡ false)
          ⊎ IsFreshBurst c.short_wait_effective (queued_behind_bytes h.rx_rsr h.frame_len)
              h.rx_gap_us)

-- The frame was recorded and timely, or there is no interface whose frames could be recorded.
abbrev pub IsAdmitted : Settings → Option HookInfo → Type 0
IsAdmitted c none = c.has_netif ≡ false
IsAdmitted c (some h) = IsTimely c h

-- The next hop is resolved, or none has to be.
abbrev pub IsReachable : Option ArpWaitResult → Type 0
IsReachable none = Unit
IsReachable (some w) = w.resolved ≡ true

pub record IsAnswerable (c : Settings) (r : Round) : Type 0 where
  pub long : pos 48 ≤ℤ r.received
  pub synchronized : is_time_synchronized c.server ≡ true
  pub admitted : IsAdmitted c r.hook
  pub reachable : IsReachable r.arp_wait

-- A server's reply to the request: 48 bytes, mode 4, stratum 1, with the request's transmit timestamp as
-- its origin and the request's arrival as its receive timestamp.
pub record IsReplyTo (c : Settings) (r : Round) (bytes : List ℕ) : Type 0 where
  pub size : length bytes ≡ 48
  pub mode : get_or bytes 0 0 % 8 ≡ 4
  pub stratum : get_or bytes 1 0 ≡ 1
  pub origin : bytes_8 bytes 24 ≡ bytes_8 r.request 40
  pub received : bytes_8 bytes 32 ≡ encode_ntp_timestamp (receive_timestamp c r)

IsTimely-iff :
    (c : Settings) (h : HookInfo)
    → (rx_admission h.capture_armed h.edge_usable h.lead_us c.strict_rx_admission
          c.short_wait_effective
          (queued_behind_bytes h.rx_rsr h.frame_len)
          h.rx_gap_us
        ≡ accept)
      ↔ IsTimely c h
unfolding rx_admission
IsTimely-iff c h = (λ a. ground arith, λ a. ground arith)

IsAdmitted-iff :
    (c : Settings) (o : Option HookInfo) → (is_refused (refuse_reason c o) ≡ false) ↔ IsAdmitted c o
unfolding refuse_reason
IsAdmitted-iff c none = (λ a. ground arith, λ a. ground arith)
IsAdmitted-iff c (some h) =
    let accepts = refuse_reason-none_iff c h in
    let timely = IsTimely-iff c h in (λ a. timely.0 (accepts.0 a), λ a. accepts.1 (timely.1 a))

IsAdmitted-not_refused :
    (c : Settings) (o : Option HookInfo) → is_refused (refuse_reason c o) ≡ true → ¬ IsAdmitted c o
IsAdmitted-not_refused c o refused a = let free = (IsAdmitted-iff c o).1 a in cc

IsReachable-iff : (r : Round) → (is_unresolved r ≡ false) ↔ IsReachable r.arp_wait
unfolding is_unresolved
IsReachable-iff r = (λ a. ground arith, λ a. ground arith)

IsReachable-not_lost : (r : Round) → is_unresolved r ≡ true → ¬ IsReachable r.arp_wait
IsReachable-not_lost r lost a = let found = (IsReachable-iff r).1 a in cc

module _ (root_dispersion : Bool → Option ℕ → ℕ) where
  answer-IsReplyTo :
      (c : Settings) (s : State) (r : Round)
      → is_time_synchronized c.server ≡ true
      → (bytes : List ℕ) × ((answer root_dispersion c s r).1 ≡ some bytes) × IsReplyTo c r bytes
  unfolding answer is_time_synchronized
  answer-IsReplyTo c s r on =
      let server : Server = record c.server { estimate_us = s.estimator.estimate_us } in
      let ts = receive_timestamp c r in
      let header = response-header root_dispersion server r.request ts r.transmit_reads in
      let stamps = response-timestamps root_dispersion server r.request ts r.transmit_reads in
      (
        (build_ntp_response root_dispersion server r.request ts r.transmit_reads).0,
        refl,
        record {
          size = header.0;
          mode = header.1;
          stratum = header.4 ∙ rw on refl;
          origin = stamps.0;
          received = stamps.1;
        },
      )

  -- A round sends a reply exactly if the packet has 48 bytes or more, the time source is synchronised,
  -- the request's arrival is admitted and its next hop is resolved or needs no resolution. The arrival
  -- is admitted if the hook recorded a usable edge whose lead is below 200 us in the strict regime and
  -- 1000 us in the other; with no usable edge it is admitted in the other regime, before the first edge
  -- was ever captured, or in a fresh burst; what the hook missed is admitted only without an interface.
  -- The reply is a server's to that request: 48 bytes, mode 4, stratum 1, the request's transmit
  -- timestamp as its origin and the arrival as its receive timestamp. The count of refusals stays, but
  -- for a packet of 48 bytes at a synchronised source that was not admitted or had no hop: that counts
  -- one up.
  pub round-answers_iff :
      (c : Settings) (s : State) (r : Round)
      → let (after, reply) = round root_dispersion c s r in
        (IsAnswerable c r
          × (after.refused ≡ s.refused)
          × (bytes : List ℕ) × (reply ≡ some bytes)
          × IsReplyTo c r bytes)
        ⊎ ((reply ≡ none)
            × (after.refused ≡ s.refused)
            × ((r.received <ℤ pos 48) ⊎ (is_time_synchronized c.server ≡ false)))
        ⊎ ((reply ≡ none)
            × (after.refused ≡ u32 (s.refused + 1))
            × (pos 48 ≤ℤ r.received)
            × (is_time_synchronized c.server ≡ true)
            × (¬ IsAdmitted c r.hook ⊎ ¬ IsReachable r.arp_wait))
  round-answers_iff c s r = elim (round-cases root_dispersion c s r) [
    | inl (sent, kept, long, on, free, found) ↦
        let (bytes, is_some, is_reply) = answer-IsReplyTo c s r on in
        inl (
          record {
            long = ground arith;
            synchronized = on;
            admitted = (IsAdmitted-iff c r.hook).0 free;
            reachable = (IsReachable-iff r).0 found;
          },
          kept,
          bytes,
          sent ∙ is_some,
          is_reply,
        )
    | inr (inl (silent, kept, why)) ↦
        inr (inl (silent, kept, elim why [ inl short ↦ inl (ground arith) | inr off ↦ inr off ]))
    | inr (inr (silent, up, long, on, why)) ↦ inr (
        inr (
          silent,
          up,
          ground arith,
          on,
          elim why [
            | inl refused ↦ inl (IsAdmitted-not_refused c r.hook refused)
            | inr lost ↦ inr (IsReachable-not_lost r lost)
          ],
        ))
  ]
