-- ===== src/NtpServer/Console/Port.antt =====
-- `diag_serve_` of ntp_server.cpp from its guards to the datagrams that it sends.
use esphome_gps_pps_ntp_serv.Base.{
  ℕ, ◌==◌, ◌&&◌, not, Bool, true, false, List, [], length, take, if◌then◌else◌,
}
use esphome_gps_pps_ntp_serv.NtpServer.IntLevel.{IntLevel}
use esphome_gps_pps_ntp_serv.NtpServer.Diag.Ring.{Diagnostics}
use esphome_gps_pps_ntp_serv.NtpServer.Console.Batch.{empty_batch, flush, emit_all}
use esphome_gps_pps_ntp_serv.NtpServer.Console.Lines.{DiagReads, answer_lines}

-- What the calls of a round return; `received` is the packet, empty where there is none. `stale` is what
-- lies in memory after a line that was printed.
pub record PortIo : Type 0 where
  pub socket_ok : Bool
  pub bind_ok : Bool
  pub received : List ℕ
  pub reads : DiagReads
  pub stale : List ℕ

-- The bytes that `recvfrom` puts into `cmd`.
abbrev pub command : PortIo → List ℕ
command io = take 15 io.received

-- Is the socket open, before; and is it after, with the datagrams sent.
unfoldable pub diag_serve : Diagnostics → IntLevel → Bool → PortIo → Bool × List (List ℕ)
diag_serve s level is_open io =
    let lines = answer_lines s level io.reads (command io) in
    if not s.diagnostics
    then (false, [])
    else if not is_open && not (io.socket_ok && io.bind_ok)
    then (false, [])
    else if length (command io) == 0
    then (true, [])
    else (true, (flush (emit_all io.stale empty_batch lines)).datagrams)
