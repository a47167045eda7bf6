-- ===== src/NtpServer/Loop/Shown.antt =====
-- The sample windows of ntp_server.h and their sensors, and what `loop` shows of a window.
use esphome_gps_pps_ntp_serv.Base.{
  ◌≡◌, refl, Bool, true, false, Option, none, some, List, [], ◌∷◌, ◌++◌, ℤ, arith, if◌then◌else◌,
}
use esphome_gps_pps_ntp_serv.NtpServer.Window.{WindowMax, add}
use esphome_gps_pps_ntp_serv.NtpServer.Loop.{
  Sensor, arp_primes, t3_error, int_lead, rx_stamp_gap, hook_latency, refused, arp_waits,
  w5500_cmd_retries, w5500_cmd_max, Counters,
}

-- The windows.
pub data Kind : Type 0 where
  errors : Kind
  leads : Kind
  gaps : Kind
  latencies : Kind

abbrev pub window : Kind → Counters → WindowMax
window errors c = c.t3_error_win
window leads c = c.int_lead_win
window gaps c = c.rx_stamp_gap_win
window latencies c = c.hook_latency_win

abbrev pub sensor : Kind → Sensor
sensor errors = t3_error
sensor leads = int_lead
sensor gaps = rx_stamp_gap
sensor latencies = hook_latency

-- A sample that another task adds.
abbrev pub add_sample : Kind → ℤ → Counters → Counters
add_sample errors v c = record c { t3_error_win = add c.t3_error_win v }
add_sample leads v c = record c { int_lead_win = add c.int_lead_win v }
add_sample gaps v c = record c { rx_stamp_gap_win = add c.rx_stamp_gap_win v }
add_sample latencies v c = record c { hook_latency_win = add c.hook_latency_win v }

abbrev pub is_kind : Kind → Kind → Bool
is_kind errors errors = true
is_kind leads leads = true
is_kind gaps gaps = true
is_kind latencies latencies = true
is_kind _ _ = false

abbrev pub is_for : Kind → Sensor → Bool
is_for errors t3_error = true
is_for leads int_lead = true
is_for gaps rx_stamp_gap = true
is_for latencies hook_latency = true
is_for _ _ = false

-- The values published for a window.
unfoldable pub values_of : Kind → List (Sensor × ℤ) → List ℤ
values_of k [] = []
values_of k ((s, v) ∷ ps) = let rest = values_of k ps in if is_for k s then v ∷ rest else rest

pub values_of-append :
    (k : Kind) (ps qs : List (Sensor × ℤ))
    → values_of k (ps ++ qs) ≡ values_of k ps ++ values_of k qs
unfolding values_of
values_of-append k [] qs = refl
values_of-append k ((s, v) ∷ ps) qs = let rest = values_of-append k ps qs in ground arith

pub none_silent : (k : Kind) → values_of k [] ≡ []
unfolding values_of
none_silent k = refl

-- The sensors of no window.
abbrev pub IsOther : Sensor → Type 0
IsOther s = (k : Kind) → is_for k s ≡ false

pub arp_primes-IsOther : IsOther arp_primes
arp_primes-IsOther k = ground arith

pub refused-IsOther : IsOther refused
refused-IsOther k = ground arith

pub arp_waits-IsOther : IsOther arp_waits
arp_waits-IsOther k = ground arith

pub w5500_cmd_retries-IsOther : IsOther w5500_cmd_retries
w5500_cmd_retries-IsOther k = ground arith

pub w5500_cmd_max-IsOther : IsOther w5500_cmd_max
w5500_cmd_max-IsOther k = ground arith

abbrev pub taken_list : Option ℤ → List ℤ
taken_list none = []
taken_list (some v) = v ∷ []
