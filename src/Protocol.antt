-- ===== src/Protocol.antt =====
-- src/spinev_ble/protocol.py: frames built from values, and values decoded from frames. Each
-- child holds one family of the module's functions, and has the proofs about it in its own
-- children.
pub mod Frames
pub mod Text
pub mod Clock
pub mod Control
pub mod Alarms
pub mod History
