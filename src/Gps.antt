-- ===== src/Gps.antt =====
-- components/gps_pps_time: the time source, disciplined by the pulse per second (PPS) of a GPS receiver
-- and by its NMEA sentences. The build modelled is the one with USE_ESP_IDF.
pub mod State
pub mod Anchor
pub mod Isr
pub mod Latency
pub mod Period
pub mod Discipline
pub mod Pulse
pub mod Nmea
pub mod Serving
pub mod Invariant
pub mod Reach
pub mod AnchorStores
pub mod Seqlock
pub mod PulseSteps
pub mod Recovery
pub mod Rules
pub mod Epoch
pub mod Between
pub mod Sentences
pub mod SyncedEpoch
pub mod Update
pub mod Reports
pub mod CrashReports
mod Tests
