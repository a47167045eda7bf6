-- ===== src/NtpServer/ArpClients.antt =====
-- The clients whose ARP entries are kept warm: `note_arp_client_` and `refresh_arp_entries_` of
-- ntp_server.cpp.
use esphome_gps_pps_ntp_serv.Base.{
  ℕ, zero, suc, ◌+◌, ◌%◌, ◌<◌, ◌≤◌, ◌≡◌, ◌⊎◌, ◌==◌, refl, Bool, true, false, not, ◌&&◌, ◌||◌, ltb,
  arith, length, length-set, set, Option, none, some, List, [], ◌∷◌, u32, sub32, if◌then◌else◌,
}
use esphome_gps_pps_ntp_serv.ArpWait.{next_hop_ipv4}

abbrev pub arp_client_slots : ℕ
arp_client_slots = 8

abbrev pub arp_refresh_interval_ms : ℕ
arp_refresh_interval_ms = 60000

pub record ArpClients : Type 0 where
  pub clients : List ℕ  -- IPv4 addresses; 0 is an empty slot
  pub next : ℕ
  pub last_refresh_ms : ℕ
  pub primes : ℕ

unfoldable pub is_tracked : List ℕ → ℕ → Bool
is_tracked [] addr = false
is_tracked (c ∷ cs) addr = let rest = is_tracked cs addr in c == addr || rest

unfoldable pub note_arp_client : ArpClients → ℕ → ArpClients
note_arp_client s addr =
    if addr == 0 || is_tracked s.clients addr
    then s
    else record s { clients = set s.clients s.next addr; next = (s.next + 1) % arp_client_slots }

-- The addresses of our interface, in network byte order.
pub record Netif : Type 0 where
  pub our_ip : ℕ
  pub netmask : ℕ
  pub gateway : ℕ

module _ (cached : ℕ → Bool) where
  -- The hops that are asked for: those of the tracked clients whose entry is not in the ARP cache.
  unfoldable pub cold_hops : Netif → List ℕ → List ℕ
  cold_hops n [] = []
  cold_hops n (c ∷ cs) =
      let rest = cold_hops n cs in
      let hop = next_hop_ipv4 c n.our_ip n.netmask n.gateway in
      if c == 0 || (hop == 0 || cached hop) then rest else hop ∷ rest

  -- With the interface, where there is one, and with what was asked for.
  unfoldable pub refresh_arp_entries : ArpClients → Option Netif → ℕ → ArpClients × List ℕ
  refresh_arp_entries s netif now_ms =
      let stamped = record s { last_refresh_ms = now_ms } in
      if not (s.last_refresh_ms == 0)
        && ltb (sub32 now_ms s.last_refresh_ms) arp_refresh_interval_ms
      then (s, [])
      else elim netif [
        | none ↦ (stamped, [])
        | some n ↦
            let hops = cold_hops n s.clients in
            (record stamped { primes = u32 (s.primes + length hops) }, hops)
      ]

is_tracked-set : (cs : List ℕ) (i addr : ℕ) → i < length cs → is_tracked (set cs i addr) addr ≡ true
unfolding is_tracked
is_tracked-set [] i addr h = ground arith
is_tracked-set (c ∷ cs) zero addr h = ground arith
is_tracked-set (c ∷ cs) (suc i) addr h =
    let rest = is_tracked-set cs i addr (omega arith) in ground arith

-- How often a client is tracked.
abbrev pub copies : List ℕ → ℕ → ℕ
copies [] a = 0
copies (c ∷ cs) a = (if c == a then 1 else 0) + copies cs a

copies-tracked : (cs : List ℕ) (a : ℕ) → is_tracked cs a ≡ false → copies cs a ≡ 0
unfolding is_tracked
copies-tracked [] a h = refl
copies-tracked (c ∷ cs) a h = let rest = copies-tracked cs a in ground arith

copies-set :
    (cs : List ℕ) (i v a : ℕ) → copies (set cs i v) a ≤ copies cs a + (if v == a then 1 else 0)
copies-set [] i v a = omega arith
copies-set (c ∷ cs) zero v a = ground arith
copies-set (c ∷ cs) (suc i) v a = let rest = copies-set cs i v a in ground arith

-- A client that has been noted is tracked (unless its address is 0); the table keeps its eight slots,
-- and no other client is tracked more often than before, and none twice that was not.
pub note_arp_client_lem :
    (s : ArpClients) (addr a : ℕ)
    → length s.clients ≡ 8
    → s.next < 8
    → let t = note_arp_client s addr in
      ((addr ≡ 0) ⊎ (is_tracked t.clients addr ≡ true))
      × (length t.clients ≡ 8)
      × (t.next < 8)
      × ((copies t.clients a ≤ copies s.clients a) ⊎ (copies t.clients a ≡ 1))
unfolding note_arp_client
note_arp_client_lem s addr a hl hn = ground (
  arith,
  is_tracked-set s.clients s.next addr (omega arith),
  length-set s.clients s.next addr,
  copies-tracked s.clients addr,
  copies-set s.clients s.next addr a,
)
