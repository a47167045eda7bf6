-- ===== src/W5500/Link.antt =====
-- The SPI transfers of w5500_custom_spi.cpp (`w5500_custom_spi_transfer`) with the recorder that they
-- feed. The clock, the lock and the SPI device are outside: `Io` gives, for each call of `micros` and
-- each transfer by its number, what it returns.
use esphome_gps_pps_ntp_serv.Base.{
  ℕ, ◌+◌, Bool, false, ltb, Option, List, [], ◌∷◌, ◌++◌, length, sub32, if◌then◌else◌,
}
use esphome_gps_pps_ntp_serv.W5500.Recorder.{
  Recorder, initial_recorder, net_record_frame, net_record_lock_wait, net_record_cr_retry,
}

pub record Io : Type 0 where
  pub micros : ℕ → ℕ
  pub lock : ℕ → Bool  -- is the lock taken in time?
  pub result : ℕ → Bool  -- is the device's result ESP_OK?
  pub read : ℕ → List ℕ  -- the bytes that a read gives

-- `spi_transaction_t`: `out` is what is written, `none` for a read. `bulk` tells the blocking
-- transmit from the polling one, and `done` whether the transfer returned ESP_OK.
pub record Transfer : Type 0 where
  pub cmd : ℕ  -- uint16_t
  pub addr : ℕ
  pub out : Option (List ℕ)
  pub len : ℕ
  pub bulk : Bool
  pub done : Bool

-- `log` is the transfers so far, oldest first; `calls` counts the readings of the clock.
pub record Link : Type 0 where
  pub recorder : Recorder
  pub calls : ℕ
  pub log : List Transfer

unfoldable pub initial_link : Link
initial_link = record { recorder = initial_recorder; calls = 0; log = [] }

-- W5500_SPI_BULK_THRESHOLD
abbrev pub bulk_threshold : ℕ
bulk_threshold = 64

abbrev pub tick : Link → Link
tick l = record l { calls = l.calls + 1 }

module _ (io : Io) where
  -- `micros()` at this point.
  abbrev pub now : Link → ℕ
  now l = io.micros l.calls

  -- The recorder's entry points with the clock that they read. A reading that the code skips while
  -- the recorder is off is counted too.
  unfoldable pub record_frame : Link → Bool → Option (List ℕ) → ℕ → Link
  record_frame l tx f len = record l {
    recorder = net_record_frame l.recorder tx f len (now l);
    calls = l.calls + 1;
  }

  unfoldable pub record_cr_retry : Link → Link
  record_cr_retry l = record l {
    recorder = net_record_cr_retry l.recorder (now l);
    calls = l.calls + 1;
  }

  -- `net_record_lock_wait(micros() - lock_start_us)` with the reading of the clock within it; the
  -- start of the wait was read before.
  abbrev pub lock_waited : Link → Recorder
  lock_waited l =
      if l.recorder.enabled
      then net_record_lock_wait l.recorder (sub32 (io.micros (l.calls + 1)) (now l))
          (io.micros (l.calls + 2))
      else l.recorder

  -- The result is whether the transfer returned ESP_OK.
  unfoldable pub transfer : Link → ℕ → ℕ → Option (List ℕ) → ℕ → Link × Bool
  transfer l cmd addr out len =
      let n = length l.log in
      let locked = io.lock n in
      let done = if locked then io.result n else false in
      let entry : Transfer = record {
        cmd = cmd;
        addr = addr;
        out = out;
        len = len;
        bulk = ltb bulk_threshold len;
        done = done;
      } in
      (
        record l {
          recorder = if locked then lock_waited l else l.recorder;
          calls = l.calls + 3;
          log = l.log ++ (entry ∷ []);
        },
        done,
      )

  -- The bytes that the last transfer read.
  abbrev pub bytes_read : Link → List ℕ
  bytes_read l = io.read (length l.log)
