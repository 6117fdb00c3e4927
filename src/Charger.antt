-- ===== src/Charger.antt =====
-- src/spinev_ble/charger.py: the class `SpinEvCharger`. `State` has what the client keeps and the
-- two callbacks that change it, `Exchange` the request that waits for a reply, `Write` the frame
-- that waits for none. `Session` runs methods one after the other, and the other children hold the
-- methods.
pub mod State
pub mod Exchange
pub mod Write
pub mod Session
pub mod Reads
pub mod Control
pub mod Limit
pub mod Settings
pub mod History
pub mod Calls
pub mod Connect
