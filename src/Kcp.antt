-- ===== src/Kcp.antt =====
-- mKCP (source/xray-core/transport/internet/kcp): reliable streams over UDP packets.
pub mod Segment
pub mod State
pub mod Config
pub mod RoundTrip
pub mod SendingWindow
pub mod Sending
pub mod Packet
pub mod Crypt
pub mod AckList
pub mod Receiving
pub mod Connection
pub mod Transfer
pub mod Lifecycle
mod Tests
