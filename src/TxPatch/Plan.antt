-- ===== src/TxPatch/Plan.antt =====
-- Which frames `plan_ntp_tx_patch` of ntp_tx_patch.h takes for our own NTP reply, and where it then
-- says that T3 and the checksum lie.
use esphome_gps_pps_ntp_serv.Base.{
  ℕ, ◌+◌, ◌*◌, ◌/◌, ◌%◌, ◌≤◌, ◌≡◌, ◌↔◌, none, some, List, true, false, arith, length, refl, u16,
  take, drop, length-take, length-drop, ◌==◌, not,
}
use esphome_gps_pps_ntp_serv.TxPatch.{NtpTxPatchPlan, byte_at, word_at, plan_udp, plan_ntp_tx_patch}

-- The length of the IPv4 header that a frame's byte 14 states.
abbrev pub ip_hdr_len : List ℕ → ℕ
ip_hdr_len frame = byte_at frame 14 % 16 * 4

-- A captured frame that holds a whole NTP reply of a server on `port`: IPv4 with a header of at
-- least 20 bytes, UDP from that port with room for an NTP packet, and NTP mode 4.
pub record IsServerReply (frame : List ℕ) (len port : ℕ) : Type 0 where
  pub ethertype : word_at frame 12 ≡ 0x0800
  pub version : byte_at frame 14 / 16 % 16 ≡ 4
  pub header : 20 ≤ ip_hdr_len frame
  pub protocol : byte_at frame 23 ≡ 17
  pub src_port : word_at frame (14 + ip_hdr_len frame) ≡ port
  pub udp_len : 56 ≤ word_at frame (14 + ip_hdr_len frame + 4)
  pub mode : byte_at frame (14 + ip_hdr_len frame + 8) % 8 ≡ 4
  pub captured : 14 + ip_hdr_len frame + 56 ≤ len

-- A patch is planned exactly for the frames that hold a whole server reply from the given port; the
-- null frame never gets one.
pub planned_iff :
    (frame : List ℕ) (len port : ℕ)
    → ((plan_ntp_tx_patch (some frame) len port).planned ≡ true ↔ IsServerReply frame len port)
      × ((plan_ntp_tx_patch none len port).planned ≡ false)
unfolding plan_ntp_tx_patch plan_udp
planned_iff frame len port = ((λ h. ground arith, λ h. ground arith), refl)

-- The plan for a server reply: T3 is byte 40 of the NTP packet, the checksum byte 6 of the UDP header.
abbrev pub reply_plan : List ℕ → NtpTxPatchPlan
reply_plan frame =
    let udp = 14 + ip_hdr_len frame in
    record {
      planned = true;
      t3_off = udp + 48;
      csum_off = udp + 6;
      csum_present = not (word_at frame (udp + 6) == 0);
      old_csum = word_at frame (udp + 6);
      old_t3 = take 8 (drop (udp + 48) frame);
    }

offsets_fit :
    (n : ℕ)
    → (u16 (14 + n % 16 * 4 + 8 + 40) ≡ 14 + n % 16 * 4 + 48)
      × (u16 (14 + n % 16 * 4 + 6) ≡ 14 + n % 16 * 4 + 6)
offsets_fit n = omega arith

plan_of_reply :
    (frame : List ℕ) (len port : ℕ)
    → IsServerReply frame len port
    → plan_ntp_tx_patch (some frame) len port ≡ reply_plan frame
unfolding plan_ntp_tx_patch plan_udp
plan_of_reply frame len port h =
    let fit = offsets_fit (byte_at frame 14) in rw (fit.0, fit.1) (ground arith)

-- Where a patch is planned and the buffer holds the `len` bytes: the plan is `reply_plan`, whose
-- checksum field ends before T3 begins and whose T3 ends within the captured bytes, and it holds the
-- eight old bytes of T3.
pub plan_offsets :
    (frame : List ℕ) (len port : ℕ)
    → len ≤ length frame
    → (plan_ntp_tx_patch (some frame) len port).planned ≡ true
    → let plan = plan_ntp_tx_patch (some frame) len port in
      (plan ≡ reply_plan frame)
      × (plan.csum_off + 2 ≤ plan.t3_off)
      × (plan.t3_off + 8 ≤ len)
      × (length plan.old_t3 ≡ 8)
plan_offsets frame len port fits h =
    let reply : IsServerReply frame len port = (planned_iff frame len port).0.0 h in
    let at : ℕ = 14 + ip_hdr_len frame + 48 in
    rw (plan_of_reply frame len port reply) (
      refl,
      omega arith,
      omega (arith, reply.captured),
      omega (arith, reply.captured, length-take 8 (drop at frame), length-drop at frame),
    )
