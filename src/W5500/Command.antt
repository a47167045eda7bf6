-- ===== src/W5500/Command.antt =====
-- The Sn_CR handshake statistics of w5500_custom_spi.cpp: a command is written, then Sn_CR is polled
-- until it reads 0. The parts of `w5500_custom_spi_write` and `_read` that keep them, and
-- `w5500_take_cmd_stats`.
use esphome_gps_pps_ntp_serv.Base.{
  ℕ, ◌+◌, ◌%◌, ◌<◌, ◌≡◌, ◌≢◌, ◌==◌, refl, Bool, true, false, ltb, List, [], ◌∷◌, max, arith, u32,
  u32_mod, sub32, if◌then◌else◌,
}

-- The `g_cr_` variables; each is a `uint32_t`.
pub record Handshake : Type 0 where
  pub write_us : ℕ
  pub polls : ℕ
  pub pending : Bool
  pub commands : ℕ
  pub retried : ℕ
  pub max_us : ℕ
  pub overlaps : ℕ

pub record CmdStats : Type 0 where
  pub commands : ℕ
  pub retried : ℕ
  pub max_us : ℕ
  pub overlaps : ℕ

abbrev pub no_handshake : Handshake
no_handshake = record {
  write_us = 0;
  polls = 0;
  pending = false;
  commands = 0;
  retried = 0;
  max_us = 0;
  overlaps = 0;
}

-- A one-byte write to Sn_CR.
unfoldable pub note_command : Handshake → ℕ → Handshake
note_command h now_us = record h {
  overlaps = if h.pending then u32 (h.overlaps + 1) else h.overlaps;
  write_us = now_us;
  polls = 0;
  pending = true;
}

-- A read of Sn_CR that found it clear; the retry is counted by the second value. The loop of
-- `compare_exchange_weak` is one step here.
unfoldable pub note_cleared : Handshake → ℕ → Handshake × Bool
note_cleared h now_us =
    let took_us = sub32 now_us h.write_us in
    let again = ltb 1 h.polls in
    (
      record h {
        pending = false;
        commands = u32 (h.commands + 1);
        retried = if again then u32 (h.retried + 1) else h.retried;
        max_us = if ltb h.max_us took_us then took_us else h.max_us;
      },
      again,
    )

-- A successful one-byte read of Sn_CR that gave `byte`.
unfoldable pub note_poll : Handshake → ℕ → ℕ → Handshake × Bool
note_poll h byte now_us =
    let polled = record h { polls = u32 (h.polls + 1) } in
    if h.pending
    then if byte == 0 then note_cleared polled now_us else (polled, false)
    else (h, false)

unfoldable pub take_cmd_stats : Handshake → Handshake × CmdStats
take_cmd_stats h = (
  record h { commands = 0; retried = 0; max_us = 0; overlaps = 0 },
  record { commands = h.commands; retried = h.retried; max_us = h.max_us; overlaps = h.overlaps },
)

-- The order in which the tasks reach the statistics.
pub data Event : Type 0 where
  write : ℕ → Event
  poll : ℕ → ℕ → Event
  take_stats : Event

abbrev pub step : Event → Handshake → Handshake
step (write now_us) h = note_command h now_us
step (poll byte now_us) h = (note_poll h byte now_us).0
step take_stats h = (take_cmd_stats h).0

-- The statistics taken and the state at the end.
unfoldable pub run : List Event → Handshake → List CmdStats × Handshake
run [] h = ([], h)
run (take_stats ∷ events) h =
    let (taken, h') = run events (take_cmd_stats h).0 in ((take_cmd_stats h).1 ∷ taken, h')
run (e ∷ events) h = run events (step e h)

-- The commands written.
unfoldable pub writes : List Event → ℕ
writes [] = 0
writes (write now_us ∷ events) = 1 + writes events
writes (e ∷ events) = writes events

-- The commands that the statistics account for.
unfoldable pub accounted : List CmdStats → ℕ
accounted [] = 0
accounted (c ∷ cs) = c.commands + c.overlaps + accounted cs

abbrev pub open_command : Handshake → ℕ
open_command h = if h.pending then 1 else 0

balance :
    (events : List Event) (h : Handshake)
    → let (taken, h') = run events h in
      (accounted taken + h'.commands + h'.overlaps + open_command h') % u32_mod
      ≡ (writes events + h.commands + h.overlaps + open_command h) % u32_mod
unfolding run writes accounted note_command note_poll note_cleared take_cmd_stats
balance [] h = refl
balance (write now_us ∷ events) h = ground (arith, balance events (note_command h now_us))
balance (poll byte now_us ∷ events) h = ground (arith, balance events (note_poll h byte now_us).0)
balance (take_stats ∷ events) h = ground (arith, balance events (take_cmd_stats h).0)

-- In every order of writes, polls and readings, from the initial state: the commands seen to
-- complete and those overtaken by the next, taken together over all readings and the state at the
-- end, with the one still open, are the commands written, modulo 2^32.
pub run-accounted :
    (events : List Event)
    → let (taken, h') = run events no_handshake in
      (accounted taken + h'.commands + h'.overlaps + open_command h') % u32_mod
      ≡ writes events % u32_mod
run-accounted events = omega (arith, balance events no_handshake)

-- Reads of Sn_CR that do not find it clear.
abbrev pub NotClear : List (ℕ × ℕ) → Type 0
NotClear [] = Unit
NotClear ((byte, now_us) ∷ polls) = (byte ≢ 0) × NotClear polls

abbrev pub poll_all : List (ℕ × ℕ) → Handshake → Handshake
poll_all [] h = h
poll_all ((byte, now_us) ∷ polls) h = poll_all polls (note_poll h byte now_us).0

abbrev pub count_of : List (ℕ × ℕ) → ℕ
count_of [] = 0
count_of (p ∷ polls) = 1 + count_of polls

poll_all-lem :
    (polls : List (ℕ × ℕ)) (h : Handshake)
    → h.pending ≡ true
    → NotClear polls
    → h.polls + count_of polls < u32_mod
    → poll_all polls h ≡ record h { polls = h.polls + count_of polls }
unfolding note_poll
poll_all-lem [] h p n b = ground arith
poll_all-lem ((byte, now_us) ∷ polls) h p n b =
    ground (arith, poll_all-lem polls (record h { polls = h.polls + 1 }))

-- One handshake: a command written while none is open, reads that do not find Sn_CR clear, and one
-- that does. It counts as one command, as retried exactly if there was a read before the last, its
-- whole time enters the maximum, and nothing overlaps.
pub handshake_counted :
    (h : Handshake) (write_us clear_us : ℕ) (polls : List (ℕ × ℕ))
    → h.pending ≡ false
    → NotClear polls
    → count_of polls + 1 < u32_mod
    → let h' = (note_poll (poll_all polls (note_command h write_us)) 0 clear_us).0 in
      (h'.pending ≡ false)
      × (h'.commands ≡ u32 (h.commands + 1))
      × (h'.retried ≡ (if ltb 0 (count_of polls) then u32 (h.retried + 1) else h.retried))
      × (h'.max_us ≡ max h.max_us (sub32 clear_us write_us))
      × (h'.overlaps ≡ h.overlaps)
unfolding note_command note_poll note_cleared
handshake_counted h write_us clear_us polls p n b =
    rw (poll_all-lem polls (note_command h write_us) refl n (omega arith)) (ground arith)
