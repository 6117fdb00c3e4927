-- ===== src/Transport.antt =====
-- src/spinev_ble/transports: what carries the frames between the client and a charger.
pub mod Contract
pub mod Hex
pub mod Ocpp
pub mod Ble
