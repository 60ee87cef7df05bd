-- ===== src/Sqm.antt =====
-- src/sqm: the wire protocol of the Sky Quality Meters, the transports under it, the device, and
-- the discovery of devices on a network.
pub mod Protocol
pub mod Line
pub mod Tcp
pub mod Serial
pub mod Device
pub mod Discovery
pub mod Simulator
