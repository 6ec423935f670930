-- ===== src/Protocol.antt =====
-- The transport-independent protocol of crates/hataori-runtime-foundation/src/protocol.rs.
pub mod Ids
pub mod Limits
pub mod Reader
pub mod Hello
pub mod HelloTrip
pub mod Parcel
pub mod Frames
pub mod ParcelTrip
pub mod ParcelFit
pub mod PeerCheck
pub mod Tests
