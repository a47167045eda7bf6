-- ===== src/W5500.antt =====
-- components/ethernet/w5500_custom_spi.{h,cpp}: what this fork adds to the SPI callbacks of the W5500
-- driver. The file's globals are records here; what the clock and the bus return is an argument.
pub mod Classify
pub mod Command
pub mod Recorder
pub mod Sliding
pub mod Link
pub mod Patch
pub mod Memory
pub mod Atomic
pub mod PatchSend
pub mod Driver
pub mod Reads
pub mod FrameWrite
pub mod OnWire
pub mod WireSum
pub mod WireChecksum
pub mod Counts
pub mod Receive
pub mod Ops
pub mod Stamps
pub mod FrameTimes
pub mod Pairing
mod Tests
