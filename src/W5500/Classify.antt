-- ===== src/W5500/Classify.antt =====
-- `classify_frame` of w5500_custom_spi.cpp, and which class our own replies get.
use esphome_gps_pps_ntp_serv.Base.{
  ℕ, ◌+◌, ◌*◌, ◌%◌, ◌≤◌, ◌≡◌, ◌⊎◌, ◌↔◌, ◌==◌, Bool, not, ◌||◌, ltb, arith, Option, none, some, List,
  if◌then◌else◌,
}
use esphome_gps_pps_ntp_serv.TxPatch.{byte_at, word_at}
use esphome_gps_pps_ntp_serv.TxPatch.Plan.{ip_hdr_len, IsServerReply}

-- `W5500FrameClass`; W5500_FC_COUNT is `frame_class_count`.
pub data FrameClass : Type 0 where
  fc_api fc_http fc_ntp fc_mdns fc_arp fc_tcp fc_udp fc_ipv6 fc_other : FrameClass

abbrev pub frame_class_count : ℕ
frame_class_count = 9

-- The enumerator's value, which indexes the counters of a bin.
abbrev pub class_index : FrameClass → ℕ
class_index fc_api = 0
class_index fc_http = 1
class_index fc_ntp = 2
class_index fc_mdns = 3
class_index fc_arp = 4
class_index fc_tcp = 5
class_index fc_udp = 6
class_index fc_ipv6 = 7
class_index fc_other = 8

-- `uses(port)`
abbrev pub uses : List ℕ → ℕ → ℕ → Bool
uses f at port = word_at f at == port || word_at f (at + 2) == port

-- The class by protocol and port, with the ports at byte `at`.
unfoldable pub classify_ports : List ℕ → ℕ → FrameClass
classify_ports f at =
    if byte_at f 23 == 6
    then if uses f at 6053 then fc_api else if uses f at 80 then fc_http else fc_tcp
    else if byte_at f 23 == 17
    then if uses f at 123 then fc_ntp else if uses f at 5353 then fc_mdns else fc_udp
    else fc_other

-- `none` is the null pointer.
unfoldable pub classify_frame : Option (List ℕ) → ℕ → FrameClass
classify_frame none len = fc_other
classify_frame (some f) len =
    let ihl = byte_at f 14 % 16 * 4 in
    if ltb len 14
    then fc_other
    else if word_at f 12 == 0x0806
    then fc_arp
    else if word_at f 12 == 0x86DD
    then fc_ipv6
    else if not (word_at f 12 == 0x0800) || ltb len 34
    then fc_other
    else if ltb ihl 20 || ltb len (14 + ihl + 4)
    then fc_other
    else classify_ports f (14 + ihl)

-- An IPv4 frame with its UDP ports within the bytes, one of them 123.
pub record IsNtpFrame (f : List ℕ) (len : ℕ) : Type 0 where
  pub ethertype : word_at f 12 ≡ 0x0800
  pub header : 20 ≤ ip_hdr_len f
  pub ports : 14 + ip_hdr_len f + 4 ≤ len
  pub protocol : byte_at f 23 ≡ 17
  pub port : (word_at f (14 + ip_hdr_len f) ≡ 123) ⊎ (word_at f (14 + ip_hdr_len f + 2) ≡ 123)

-- A frame is classified as NTP exactly if it is an IPv4 frame whose UDP ports lie within its bytes and
-- one of them is 123.
pub classify_frame-ntp_iff :
    (f : List ℕ) (len : ℕ) → (classify_frame (some f) len ≡ fc_ntp) ↔ IsNtpFrame f len
unfolding classify_frame classify_ports
classify_frame-ntp_iff f len = (λ h. ground arith, λ h. ground arith)

-- Our own reply from `port`, as the patch plan recognises it, is classified as NTP exactly if that
-- port or the client's is 123: a server on another port is not, and its send stamps are then not
-- taken for those of a reply.
pub reply-class_iff :
    (f : List ℕ) (len port : ℕ)
    → IsServerReply f len port
    → (classify_frame (some f) len ≡ fc_ntp)
      ↔ ((port ≡ 123) ⊎ (word_at f (14 + ip_hdr_len f + 2) ≡ 123))
unfolding classify_frame classify_ports
reply-class_iff f len port h = (λ e. ground arith, λ e. ground arith)
