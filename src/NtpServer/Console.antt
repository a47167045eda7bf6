-- ===== src/NtpServer/Console.antt =====
-- `diag_serve_` of ntp_server.cpp: the commands CLK, REQ, NET, TLK and INT of the diagnostic port, the
-- lines of an answer and the datagrams that they go out in.
pub mod Text
pub mod Batch
pub mod Lines
pub mod Lengths
pub mod Datagrams
pub mod Port
pub mod Answers
