-- ===== src/NtpServer.antt =====
-- components/ntp_server/ntp_server.cpp: timestamps, the reply, the frame hook, the interrupt level and
-- the ARP cache. The build modelled is the one with USE_ESP_IDF.
pub mod Timestamp
pub mod Convert
pub mod Serve
pub mod Reply
pub mod IntLevel
pub mod Window
pub mod Frame
pub mod ArpClients
pub mod Request
pub mod Diag
pub mod Task
pub mod Setup
pub mod Loop
pub mod Console
pub mod Admit
pub mod Answered
mod Tests
