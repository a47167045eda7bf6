-- ===== src/NtpServer/Frame.antt =====
-- The frame hook of ntp_server.cpp: `eth_input_hook_`, from the bytes of a frame to the receive
-- timestamp (T2) that is recorded for it. It forwards the frame on every path, which is left out.
use esphome_gps_pps_ntp_serv.Base.{
  ℕ, refl, ◌+◌, ◌*◌, ◌/◌, ◌%◌, ◌≤◌, ◌≡◌, ◌≢◌, ◌⊎◌, ◌==◌, Bool, true, false, not, ◌&&◌, ltb, leb,
  arith, length, get_or, Option, none, some, List, ℤ, pos, neg, ◌+ℤ◌, ◌-ℤ◌, ◌≤ℤ◌, +ℤ_parts,
  -ℤ_parts, ltb_ℤ, sub32, to_i32, wrap_u32, if◌then◌else◌,
}
use esphome_gps_pps_ntp_serv.RxAdmission.{evaluate_rx_edge}
use esphome_gps_pps_ntp_serv.NtpServer.Window.{WindowMax, add}

-- `HookInfo`, in the order of its fields.
pub record HookInfo : Type 0 where
  pub t : ℤ
  pub int_lead_us : ℤ
  pub rx_gap_us : ℤ
  pub edge_usable : Bool
  pub lead_us : ℤ
  pub capture_armed : Bool
  pub rx_rsr : ℤ
  pub frame_len : ℤ
  pub t2_from_edge : Bool
  pub t2_from_frame_start : Bool
  pub t2_chip_latency : Bool

-- What the driver's w5500_rx_stamps() and w5500_int_stamp() return.
pub record Stamps : Type 0 where
  pub size_read_us : ℕ
  pub payloads_since_size_read : ℕ
  pub size_value : ℕ
  pub burst_start_us : ℕ
  pub int_seq : ℕ
  pub int_edge_us : ℕ

pub record Hook : Type 0 where
  pub port : ℕ
  pub int_edge_t2 : Bool
  pub t2_frame_start : Bool
  pub chip_latency : Bool
  pub last_int_edge_seq_for_t2 : ℕ
  pub int_lead_win : WindowMax
  pub rx_stamp_gap_win : WindowMax

abbrev word_16 : List ℕ → ℕ → ℕ
word_16 b i = get_or b i 0 * 256 + get_or b (i + 1) 0

-- Where the payload of a request to our port starts, if the frame is one.
unfoldable pub ntp_payload : ℕ → List ℕ → Option ℕ
ntp_payload port b =
    let ihl = get_or b 14 0 % 16 in
    let udp = 14 + ihl * 4 in
    let ntp = udp + 8 in
    if leb 34 (length b)
      && (word_16 b 12 == 0x0800
          && (leb 5 ihl
              && (leb (udp + 8) (length b)
                  && (get_or b 23 0 == 17
                      && (word_16 b (udp + 2) == port && leb (ntp + 48) (length b))))))
    then some ntp
    else none

-- The INTn edge against the start of the read burst.
unfoldable pub note_edge : Hook → Stamps → ℤ → Hook × HookInfo
note_edge s st t =
    let edge = evaluate_rx_edge st.int_seq st.int_edge_us st.burst_start_us in
    (
      record s {
        int_lead_win = if edge.edge_usable then add s.int_lead_win edge.lead_us else s.int_lead_win;
      },
      record {
        t = t;
        int_lead_us = if edge.edge_usable then edge.lead_us else neg 1;
        rx_gap_us = neg 1;
        edge_usable = edge.edge_usable;
        lead_us = edge.lead_us;
        capture_armed = not (st.int_seq == 0);
        rx_rsr = neg 1;
        frame_len = neg 1;
        t2_from_edge = false;
        t2_from_frame_start = false;
        t2_chip_latency = false;
      },
    )

-- The stamp of this frame's size read, or the earlier start of its burst.
unfoldable pub burst_stamp : Stamps → ℕ
burst_stamp st =
    let lead = to_i32 (sub32 st.size_read_us st.burst_start_us) in
    if not (st.burst_start_us == 0) && (ltb_ℤ (pos 0) lead && ltb_ℤ lead (pos 1000))
    then st.burst_start_us
    else st.size_read_us

unfoldable pub refine_by_size_read : Hook × HookInfo → Stamps → ℤ → ℕ → Hook × HookInfo
refine_by_size_read (s, info) st t len =
    let gap = to_i32 (sub32 (wrap_u32 t) (burst_stamp st)) in
    let measured = record info { rx_rsr = to_i32 st.size_value; frame_len = to_i32 len } in
    if not (st.size_read_us == 0) && st.payloads_since_size_read == 1
    then if ltb_ℤ (pos 0) gap && ltb_ℤ gap (pos 20000)
      then (
        record s { rx_stamp_gap_win = add s.rx_stamp_gap_win gap },
        record measured { t = t -ℤ gap; rx_gap_us = gap },
      )
      else (s, measured)
    else (s, info)

-- Design E: the hardware edge, once for each edge.
unfoldable pub refine_by_edge : Hook × HookInfo → Stamps → ℤ → Hook × HookInfo
refine_by_edge (s, info) st t =
    let gap = to_i32 (sub32 (wrap_u32 t) st.int_edge_us) in
    if s.int_edge_t2
      && (info.edge_usable
          && (ltb_ℤ (pos 0) info.lead_us
              && (ltb_ℤ info.lead_us (pos 200)
                  && (not (st.int_seq == s.last_int_edge_seq_for_t2)
                      && (ltb_ℤ (pos 0) gap && ltb_ℤ gap (pos 2000000))))))
    then (
      record s { last_int_edge_seq_for_t2 = st.int_seq },
      record info { t = t -ℤ gap; t2_from_edge = true },
    )
    else (s, info)

-- Design G: back to the start of the frame. The product is of type uint32_t.
unfoldable pub frame_duration_us : ℕ → ℕ
frame_duration_us len = (len + 4) * 80 % 4294967296 / 1000

unfoldable pub refine_by_frame_start : Hook × HookInfo → ℕ → Hook × HookInfo
refine_by_frame_start (s, info) len =
    let d = frame_duration_us len in
    if s.t2_frame_start && (ltb 0 d && leb d 130)
    then (s, record info { t = info.t -ℤ pos d; t2_from_frame_start = true })
    else (s, info)

-- Design J: the chip's own latency.
unfoldable pub refine_by_chip : Hook × HookInfo → Hook × HookInfo
refine_by_chip (s, info) =
    if s.chip_latency
    then (s, record info { t = info.t -ℤ pos 17; t2_chip_latency = true })
    else (s, info)

unfoldable pub stamp : Hook → Stamps → ℤ → ℕ → Hook × HookInfo
stamp s st t len = refine_by_chip (
    refine_by_frame_start (refine_by_edge (refine_by_size_read (note_edge s st t) st t len) st t)
      len)

-- What is recorded: where the client's transmit timestamp, its address and its port stand, and T2.
unfoldable pub eth_input_hook : Hook → Stamps → ℤ → List ℕ → Hook × Option ((ℕ × ℕ × ℕ) × HookInfo)
eth_input_hook s st t b =
    let stamped = stamp s st t (length b) in
    elim (ntp_payload s.port b) [
      | none ↦ (s, none)
      | some ntp ↦ (stamped.0, some ((ntp + 40, 26, 14 + get_or b 14 0 % 16 * 4), stamped.1))
    ]

-- A frame is taken for a request only if the 48 bytes of its payload, and with them every byte that is
-- read of it, lie within the frame; the headers before it have 42 to 82 bytes.
pub ntp_payload_bounds :
    (port : ℕ) (b : List ℕ) (ntp : ℕ)
    → ntp_payload port b ≡ some ntp
    → (42 ≤ ntp) × (ntp ≤ 82) × (ntp + 48 ≤ length b)
unfolding ntp_payload
ntp_payload_bounds port b ntp h = ground arith

size_read_range :
    (p : Hook × HookInfo) (st : Stamps) (t : ℤ) (len : ℕ)
    → p.1.t ≡ t
    → let q = refine_by_size_read p st t len in (q.1.t ≤ℤ t) × (t ≤ℤ q.1.t +ℤ pos 20000)
unfolding refine_by_size_read
size_read_range p st t len h =
    let gap = to_i32 (sub32 (wrap_u32 t) (burst_stamp st)) in
    ground (arith, -ℤ_parts t gap, +ℤ_parts t (pos 20000), +ℤ_parts (t -ℤ gap) (pos 20000))

edge_range :
    (p : Hook × HookInfo) (st : Stamps) (t : ℤ)
    → p.1.t ≤ℤ t
    → t ≤ℤ p.1.t +ℤ pos 20000
    → let q = refine_by_edge p st t in (q.1.t ≤ℤ t) × (t ≤ℤ q.1.t +ℤ pos 2000000)
unfolding refine_by_edge
edge_range p st t hu hl =
    let gap = to_i32 (sub32 (wrap_u32 t) st.int_edge_us) in
    ground (
      arith,
      -ℤ_parts t gap,
      +ℤ_parts p.1.t (pos 20000),
      +ℤ_parts p.1.t (pos 2000000),
      +ℤ_parts (t -ℤ gap) (pos 2000000),
    )

late_range :
    (p : Hook × HookInfo) (len : ℕ) (t : ℤ)
    → p.1.t ≤ℤ t
    → t ≤ℤ p.1.t +ℤ pos 2000000
    → let q = refine_by_chip (refine_by_frame_start p len) in
      (q.1.t ≤ℤ t) × (t ≤ℤ q.1.t +ℤ pos 2000147)
unfolding refine_by_chip refine_by_frame_start
late_range p len t hu hl =
    let d = pos (frame_duration_us len) in
    let start = p.1.t -ℤ d in
    ground (
      arith,
      -ℤ_parts p.1.t d,
      -ℤ_parts start (pos 17),
      -ℤ_parts p.1.t (pos 17),
      +ℤ_parts p.1.t (pos 2000000),
      +ℤ_parts p.1.t (pos 2000147),
      +ℤ_parts start (pos 2000147),
      +ℤ_parts (start -ℤ pos 17) (pos 2000147),
      +ℤ_parts (p.1.t -ℤ pos 17) (pos 2000147),
    )

-- Whatever the driver's stamps are, the receive timestamp is not later than the instant at which the
-- hook runs, and earlier by at most 2000147 us: the age limit of an edge, the longest frame and
-- the chip's latency.
pub stamp_range :
    (s : Hook) (st : Stamps) (t : ℤ) (len : ℕ)
    → let t2 = (stamp s st t len).1.t in (t2 ≤ℤ t) × (t ≤ℤ t2 +ℤ pos 2000147)
unfolding stamp note_edge
stamp_range s st t len =
    let sized = refine_by_size_read (note_edge s st t) st t len in
    let h = size_read_range (note_edge s st t) st t len refl in
    let k = edge_range sized st t h.0 h.1 in late_range (refine_by_edge sized st t) len t k.0 k.1

-- An edge gives the receive timestamp of one frame only: a frame that takes it from an edge did not
-- find that edge used, and marks it as used; any other leaves the mark.
pub stamp-edge_once :
    (s : Hook) (st : Stamps) (t : ℤ) (len : ℕ)
    → let (after, info) = stamp s st t len in
      ((info.t2_from_edge ≡ true)
        × (st.int_seq ≢ s.last_int_edge_seq_for_t2)
        × (after.last_int_edge_seq_for_t2 ≡ st.int_seq)
        × (s.int_edge_t2 ≡ true))
      ⊎ ((info.t2_from_edge ≡ false)
          × (after.last_int_edge_seq_for_t2 ≡ s.last_int_edge_seq_for_t2))
unfolding stamp note_edge refine_by_size_read refine_by_edge refine_by_frame_start refine_by_chip
stamp-edge_once s st t len = ground arith
